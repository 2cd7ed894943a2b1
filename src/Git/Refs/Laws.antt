-- ===== src/Git/Refs/Laws.antt =====
-- What the guards of worktrees and lease pushes let through.
use githost_mcp.Base.{
  not, ◌||◌, text_eq, or_default, sym, is_empty, Bool, text_eq_iff, ◌≢◌, subst, refl, length,
  text_mem, leb, ap, [], ◌↔◌, has_char, false, arith, ◌∷◌, true, some, none, codes, ◌≡◌, contains,
  all, Text, Option, ℕ,
}
use githost_mcp.Errors.{ok, raise_if-eq-ok, ok-injective}
use githost_mcp.Git.Refs.{
  is_lower_or_digit, is_worktree_char, matches_worktree_name, validate_worktree_name,
  protected_branch_reason, always_protected_branches,
}

-- A safe path segment: no slash, no `..`, no leading dash or dot, and between 1 and 64 characters.
abbrev pub IsWorktreeName : Text → Type 0
IsWorktreeName name =
    (c : ℕ) × (s : Text) × (name ≡ c ∷ s)
    × (is_lower_or_digit c ≡ true)
    × (has_char b'/' s ≡ false)
    × (leb (length s) 63 ≡ true)
    × (contains name (codes "..") ≡ false)

worktree_no_slash : (s : Text) → all is_worktree_char s ≡ true → has_char b'/' s ≡ false
worktree_no_slash [] h = refl
worktree_no_slash (c ∷ s) h = ground (arith, worktree_no_slash s)

matched_name :
    (name : Text)
    → contains name (codes "..") ≡ false
    → matches_worktree_name name ≡ true
    → IsWorktreeName name
unfolding matches_worktree_name
matched_name [] d h = absurd (ground arith)
matched_name (c ∷ s) d h =
    (c, s, refl, ground arith, worktree_no_slash s (ground arith), ground arith, d)

-- An accepted worktree name is the one that was given, and it is one path segment of 1 to 64
-- characters without a slash or `..` that begins with a lower-case letter or a digit.
pub validate_worktree_name-IsWorktreeName :
    (name : Option Text) (out : Text)
    → validate_worktree_name name ≡ ok out
    → (name ≡ some out) × IsWorktreeName out
unfolding validate_worktree_name
validate_worktree_name-IsWorktreeName none out h = absurd (ground arith)
validate_worktree_name-IsWorktreeName (some name) out h0 =
    let (e1, h1) = raise_if-eq-ok (is_empty name) _ _ _ h0 in
    let (e2, h2) =
      raise_if-eq-ok (contains name (codes "..") || not (matches_worktree_name name)) _ _ _ h1 in
    let same : name ≡ out = ok-injective h2 in
    (ap some same, subst IsWorktreeName same (matched_name name (ground arith) (ground arith)))

other_branch :
    (branch d : Text) (same : Bool)
    → text_eq branch d ≡ same
    → text_mem branch always_protected_branches ≡ false
    → some d ≢ some branch
    → protected_branch_reason branch (some d) ≡ none
unfolding protected_branch_reason
other_branch branch d true e a b = absurd (b (ap some (sym ((text_eq_iff branch d).0 e))))
other_branch branch d false e a b = ground arith

-- There is no reason against a force push exactly where the branch is neither one of the protected
-- names nor the remote's default branch.
pub protected_branch_reason_iff :
    (branch : Text) (default_branch : Option Text)
    → (protected_branch_reason branch default_branch ≡ none)
      ↔ ((text_mem branch always_protected_branches ≡ false) × (default_branch ≢ some branch))
unfolding protected_branch_reason
protected_branch_reason_iff branch none =
    (λ h. (ground arith, λ e. absurd (ground arith)), λ (a, b). ground arith)
protected_branch_reason_iff branch (some d) =
    let (to, from) = text_eq_iff branch d in
    (
      λ h. (
        ground arith,
        λ e. absurd (ground (arith, from (sym (ap (λ o. or_default o branch) e)))),
      ),
      λ (a, b). other_branch branch d (text_eq branch d) refl a b,
    )
