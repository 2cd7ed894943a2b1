-- ===== src/Git/Lease/Symref.antt =====
-- Which branch the answers to `ls-remote --symref` and to `symbolic-ref` name, apart from how
-- remote_default_branch() of src/githost_mcp/tools/git_local.py cuts it out of them.
use githost_mcp.Base.{
  Text, Bool, List, Option, true, false, some, none, [], ◌∷◌, ◌++◌, ◌≡◌, refl, sym, ap, ◌∙◌, ◌⊎◌,
  inl, inr, arith, codes, text_eq, text_eq_sound, text_eq_refl, starts_with, ends_with, take, drop,
  length, drop-append, starts_with-append, length-append, or_default, ◌&&◌, ◌||◌, ℕ, ◌-◌,
}
use mathlib.Core.List.{append_assoc}
use githost_mcp.Git.Lease.{head_prefix, head_suffix, symref_branch, first_symref, local_symref}

-- `ref: refs/heads/<branch>`, a tab and `HEAD`
abbrev pub ref_line : Text → Text
ref_line b = codes "ref: refs/heads/" ++ (b ++ (9 ∷ codes "HEAD"))

abbrev pub NoRef : Text → Type 0
NoRef line = (b : Text) → ¬ (line ≡ ref_line b)

-- The first line that names a branch names this one.
abbrev pub FirstRef : Text → List Text → Type 0
FirstRef b [] = ⊥
FirstRef b (line ∷ lines) = (line ≡ ref_line b) ⊎ (NoRef line × FirstRef b lines)

abbrev pub AllNoRef : List Text → Type 0
AllNoRef [] = Unit {0}
AllNoRef (line ∷ lines) = NoRef line × AllNoRef lines

starts_with-split : (s p : Text) → starts_with s p ≡ true → s ≡ p ++ drop (length p) s
unfolding starts_with
starts_with-split s [] h = refl
starts_with-split [] (c ∷ p) h = absurd (ground (arith, h))
starts_with-split (d ∷ s) (c ∷ p) h = ground (arith, h, starts_with-split s p)

split_here :
    (c : ℕ) (s suf : Text) (b : Bool)
    → text_eq (c ∷ s) suf ≡ b
    → (b || ends_with s suf) ≡ true
    → (ends_with s suf ≡ true → (x : Text) × (s ≡ x ++ suf))
    → (x : Text) × ((c ∷ s) ≡ x ++ suf)
split_here c s suf true e h k = ([], text_eq_sound (c ∷ s) suf e)
split_here c s suf false e h k = let (x, q) = k h in (c ∷ x, ap (λ t. c ∷ t) q)

ends_with-split : (s suf : Text) → ends_with s suf ≡ true → (x : Text) × (s ≡ x ++ suf)
unfolding ends_with
ends_with-split [] suf h = ([], text_eq_sound [] suf h)
ends_with-split (c ∷ s) suf h = split_here c s suf _ refl h (ends_with-split s suf)

ends_with_self : (suf : Text) → ends_with suf suf ≡ true
unfolding ends_with
ends_with_self [] = text_eq_refl []
ends_with_self (c ∷ s) = rw (text_eq_refl (c ∷ s)) refl

ends_with-append : (x suf : Text) → ends_with (x ++ suf) suf ≡ true
unfolding ends_with
ends_with-append [] suf = ends_with_self suf
ends_with-append (c ∷ x) suf = ground (arith, ends_with-append x suf)

take-append : (x suf : Text) → take (length (x ++ suf) - length suf) (x ++ suf) ≡ x
take-append x suf = take_length x suf _ (omega (arith, length-append x suf))
  where
    take_length : (x suf : Text) (n : ℕ) → n ≡ length x → take n (x ++ suf) ≡ x
    take_length [] suf n e = rw e refl
    take_length (c ∷ x) suf n e = rw e (ap (λ t. c ∷ t) (take_length x suf (length x) refl))

cut-ends :
    (pre b suf : Text)
    → (starts_with (pre ++ (b ++ suf)) pre && ends_with (pre ++ (b ++ suf)) suf ≡ true)
      × (drop (length pre) (take (length (pre ++ (b ++ suf)) - length suf) (pre ++ (b ++ suf))) ≡ b)
cut-ends pre b suf = (
  rw (starts_with-append pre (b ++ suf))
      (rw (← append_assoc pre b suf) (ends_with-append (pre ++ b) suf)),
  rw (← append_assoc pre b suf) (rw (take-append (pre ++ b) suf) (drop-append pre b)),
)

symref_branch-ref_line : (b : Text) → symref_branch (ref_line b) ≡ some b
unfolding symref_branch
symref_branch-ref_line b =
    let (both, cut) = cut-ends head_prefix b head_suffix in rw both (ap some cut)

some-injective : {a b : Text} → some a ≡ some b → a ≡ b
some-injective {a} h = ap (λ o. or_default o a) h

by_ends :
    (line b : Text) (s e : Bool)
    → starts_with line head_prefix ≡ s
    → ends_with line head_suffix ≡ e
    → symref_branch line ≡ some b
    → (s ≡ true) × (e ≡ true)
unfolding symref_branch
by_ends line b true true qs qe h = (refl, refl)
by_ends line b false e qs qe h = absurd (ground (arith, qs, qe, h))
by_ends line b true false qs qe h = absurd (ground (arith, qs, qe, h))

ends_with-prefix :
    (rest : Text)
    → ends_with (head_prefix ++ rest) head_suffix ≡ true
    → ends_with rest head_suffix ≡ true
unfolding ends_with text_eq codes
ends_with-prefix rest h = h

symref_branch_sound : (line b : Text) → symref_branch line ≡ some b → line ≡ ref_line b
symref_branch_sound line b h =
    let (s, e) = by_ends line b _ _ refl refl h in
    let rest = drop (length head_prefix) line in
    let q : line ≡ head_prefix ++ rest = starts_with-split line head_prefix s in
    let (x, r) =
      ends_with-split rest head_suffix
        (ends_with-prefix rest (ap (λ t. ends_with t head_suffix) (sym q) ∙ e)) in
    let k : line ≡ ref_line x = q ∙ ap (λ t. head_prefix ++ t) r in
    let w : x ≡ b =
      some-injective (sym (symref_branch-ref_line x) ∙ ap symref_branch (sym k) ∙ h) in
    k ∙ ap ref_line w

absurd_none : {a : Text} → none ≡ some a → ⊥
absurd_none h = absurd (ground (arith, h))

symref_branch-none : (line : Text) → symref_branch line ≡ none → NoRef line
symref_branch-none line h b e = absurd_none (sym h ∙ ap symref_branch e ∙ symref_branch-ref_line b)

first_of :
    (line : Text) (lines : List Text) (o : Option Text) (b : Text)
    → symref_branch line ≡ o
    → first_symref (line ∷ lines) ≡ some b
    → (first_symref lines ≡ some b → FirstRef b lines)
    → FirstRef b (line ∷ lines)
unfolding first_symref
first_of line lines none b e h k = inr (symref_branch-none line e, k (ground (arith, e, h)))
first_of line lines (some x) b e h k =
    let w : some x ≡ some b = ground (arith, e, h) in inl (symref_branch_sound line b (e ∙ w))

pub first_symref-FirstRef :
    (lines : List Text) (b : Text) → first_symref lines ≡ some b → FirstRef b lines
unfolding first_symref
first_symref-FirstRef [] b h = absurd_none h
first_symref-FirstRef (line ∷ lines) b h =
    first_of line lines _ b refl h (first_symref-FirstRef lines b)

none_of :
    (line : Text) (lines : List Text) (o : Option Text)
    → symref_branch line ≡ o
    → first_symref (line ∷ lines) ≡ none
    → (first_symref lines ≡ none → AllNoRef lines)
    → AllNoRef (line ∷ lines)
unfolding first_symref
none_of line lines none e h k = (symref_branch-none line e, k (ground (arith, e, h)))
none_of line lines (some x) e h k = absurd (ground (arith, e, h))

pub first_symref-AllNoRef : (lines : List Text) → first_symref lines ≡ none → AllNoRef lines
unfolding first_symref
first_symref-AllNoRef [] h = tt
first_symref-AllNoRef (line ∷ lines) h = none_of line lines _ refl h (first_symref-AllNoRef lines)

by_prefix :
    (remote local b : Text) (s : Bool)
    → starts_with local (codes "refs/remotes/" ++ (remote ++ codes "/")) ≡ s
    → local_symref remote local ≡ some b
    → local ≡ (codes "refs/remotes/" ++ (remote ++ codes "/")) ++ b
unfolding local_symref
by_prefix remote local b true e h =
    let p = codes "refs/remotes/" ++ (remote ++ codes "/") in
    let w : some (drop (length p) local) ≡ some b = ground (arith, e, h) in
    starts_with-split local p e ∙ ap (λ t. p ++ t) (some-injective w)
by_prefix remote local b false e h = absurd (ground (arith, e, h))

pub local_symref_sound :
    (remote local b : Text)
    → local_symref remote local ≡ some b
    → local ≡ (codes "refs/remotes/" ++ (remote ++ codes "/")) ++ b
local_symref_sound remote local b h = by_prefix remote local b _ refl h
