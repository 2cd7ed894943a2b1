-- ===== src/Security/Names/Laws.antt =====
-- The remote and branch names that are accepted.
use githost_mcp.Base.{
  ==_iff, is_empty, ◌==◌, ◌&&◌, inr, ap, Bool-cases, ◌⊎◌, inl, ◌↔◌, ◌||◌, true, is_space,
  starts_with, false, ◌∷◌, has_char, All, ◌++◌, ℕ, [], List, Text, ◌≡◌, refl, arith, all, any,
  split_on, codes,
}
use githost_mcp.Errors.{>>=-eq-ok, ok, raise_if-eq-ok}
use githost_mcp.Security.Chars.{is_letter, is_digit, is_remote_name_char}
use githost_mcp.Security.Names.{
  remote_name_tail, matches_remote_name, validate_remote_name, is_control, check_forbidden,
  forbidden, validate_branch_name,
}

split_on_absent : (c : ℕ) (s : Text) → has_char c s ≡ false → split_on c s ≡ s ∷ []
unfolding split_on
split_on_absent c [] h = refl
split_on_absent c (x ∷ s) h = ground (arith, split_on_absent c s)

check_forbidden-eq-ok :
    (name : Text) (bad : List ℕ)
    → check_forbidden name bad ≡ ok tt
    → All (λ b. has_char b name ≡ false) bad
unfolding check_forbidden
check_forbidden-eq-ok name [] h = tt
check_forbidden-eq-ok name (b ∷ bad) h =
    let (here, later) = raise_if-eq-ok _ _ _ _ h in (here, check_forbidden-eq-ok name bad later)

-- The refspec that git_branch_delete_remote pushes.
abbrev pub delete_refspec : Text → Text
delete_refspec name = codes ":refs/heads/" ++ name

split_on-delete_refspec :
    (name : Text)
    → has_char b':' name ≡ false
    → split_on b':' (delete_refspec name) ≡ [] ∷ (codes "refs/heads/" ++ name) ∷ []
unfolding split_on codes
split_on-delete_refspec name h = rw (split_on_absent b':' name h)

-- An accepted branch name has no colon, so its delete refspec `:refs/heads/<name>` splits into an
-- empty source and refs/heads/<name>; and it has no leading dash, no whitespace, no control
-- character and none of the forbidden characters.
pub validate_branch_name-delete_refspec :
    (name : Text)
    → validate_branch_name name ≡ ok tt
    → (split_on b':' (delete_refspec name) ≡ [] ∷ (codes "refs/heads/" ++ name) ∷ [])
      × (starts_with name (b'-' ∷ []) ≡ false)
      × (any is_space name ≡ false)
      × (any is_control name ≡ false)
      × All (λ b. has_char b name ≡ false) forbidden
unfolding validate_branch_name
validate_branch_name-delete_refspec name h0 =
    let (e1, h1) = raise_if-eq-ok _ _ _ _ h0 in
    let (e2, h2) = raise_if-eq-ok _ _ _ _ h1 in
    let (e3, h3) = raise_if-eq-ok _ _ _ _ h2 in
    let (e4, h4) = raise_if-eq-ok _ _ _ _ h3 in
    let (e5, h5) = raise_if-eq-ok _ _ _ _ h4 in
    let (_, h6, _) = >>=-eq-ok (check_forbidden name forbidden) _ h5 in
    (split_on-delete_refspec name e3, e2, e4, e5, check_forbidden-eq-ok name forbidden h6)

-- A remote name as the regular expression has it: a letter or digit, then letters, digits, `.`,
-- `_`, `/` and `-`; and then, since `$` also matches in front of a final newline, one newline or
-- none.
abbrev pub IsRemoteName : Text → Type 0
IsRemoteName name =
    (c : ℕ) × (body : Text) × ((is_letter c || is_digit c) ≡ true)
    × (all is_remote_name_char body ≡ true)
    × ((name ≡ c ∷ body) ⊎ (name ≡ c ∷ (body ++ (10 ∷ []))))

abbrev Tail : Text → Type 0
Tail s =
    (body : Text) × (all is_remote_name_char body ≡ true) × ((s ≡ body) ⊎ (s ≡ body ++ (10 ∷ [])))

Tail-cons : (c : ℕ) (s : Text) → is_remote_name_char c ≡ true → Tail s → Tail (c ∷ s)
Tail-cons c s h (body, a, inl e) = (c ∷ body, ground arith, inl (ap (λ t. c ∷ t) e))
Tail-cons c s h (body, a, inr e) = (c ∷ body, ground arith, inr (ap (λ t. c ∷ t) e))

newline_end : (c : ℕ) (s : Text) → (c == 10 && is_empty s) ≡ true → c ∷ s ≡ 10 ∷ []
newline_end c [] h = ap (λ n. n ∷ []) ((==_iff c 10).0 (ground arith))
newline_end c (d ∷ s) h = absurd (ground arith)

remote_name_tail-Tail : (s : Text) → remote_name_tail s ≡ true → Tail s
unfolding remote_name_tail
remote_name_tail-Tail [] h = ([], refl, inl refl)
remote_name_tail-Tail (c ∷ s) h = elim (Bool-cases (is_remote_name_char c && remote_name_tail s)) [
  | inl p ↦ Tail-cons c s (ground arith) (remote_name_tail-Tail s (ground arith))
  | inr p ↦ ([], refl, inr (newline_end c s (ground arith)))
]

remote_name_tail_body :
    (body end : Text)
    → all is_remote_name_char body ≡ true
    → remote_name_tail end ≡ true
    → remote_name_tail (body ++ end) ≡ true
unfolding remote_name_tail
remote_name_tail_body [] end h k = k
remote_name_tail_body (c ∷ body) end h k = ground (arith, remote_name_tail_body body end)

name_ends :
    (c : ℕ) (s body : Text)
    → (s ≡ body) ⊎ (s ≡ body ++ (10 ∷ []))
    → (c ∷ s ≡ c ∷ body) ⊎ (c ∷ s ≡ c ∷ (body ++ (10 ∷ [])))
name_ends c s body (inl e) = inl (ap (λ t. c ∷ t) e)
name_ends c s body (inr e) = inr (ap (λ t. c ∷ t) e)

newline_tail : remote_name_tail (10 ∷ []) ≡ true
unfolding remote_name_tail is_remote_name_char
newline_tail = refl

tail_of_body : (body : Text) → all is_remote_name_char body ≡ true → remote_name_tail body ≡ true
unfolding remote_name_tail
tail_of_body [] a = refl
tail_of_body (c ∷ body) a = ground (arith, tail_of_body body)

accepted-IsRemoteName : (name : Text) → validate_remote_name name ≡ ok tt → IsRemoteName name
unfolding validate_remote_name matches_remote_name
accepted-IsRemoteName [] h = absurd (ground arith)
accepted-IsRemoteName (c ∷ s) h =
    let (body, a, ends) = remote_name_tail-Tail s (ground arith) in
    (c, body, ground arith, a, name_ends c s body ends)

accept_body :
    (c : ℕ) (s : Text)
    → (is_letter c || is_digit c) ≡ true
    → remote_name_tail s ≡ true
    → validate_remote_name (c ∷ s) ≡ ok tt
unfolding validate_remote_name matches_remote_name starts_with
accept_body c s h k = ground arith

IsRemoteName-accepted : (name : Text) → IsRemoteName name → validate_remote_name name ≡ ok tt
IsRemoteName-accepted name (c, body, l, a, inl e) =
    rw e (accept_body c body l (tail_of_body body a))
IsRemoteName-accepted name (c, body, l, a, inr e) =
    rw e (accept_body c (body ++ (10 ∷ [])) l (remote_name_tail_body body (10 ∷ []) a newline_tail))

-- A remote name is accepted exactly when it is a letter or digit followed by allowed characters,
-- with one final newline or none.
pub validate_remote_name_iff :
    (name : Text) → (validate_remote_name name ≡ ok tt) ↔ IsRemoteName name
validate_remote_name_iff name = (accepted-IsRemoteName name, IsRemoteName-accepted name)
