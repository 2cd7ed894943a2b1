-- ===== src/Git/Refs.antt =====
-- validate_worktree_name(), validate_ref_arg(), validate_expected_sha() and
-- protected_branch_reason() of src/githost_mcp/tools/git_local.py.
pub mod Laws
use githost_mcp.Base.{
  text_eq, none, length, is_space, ◌++◌, not, contains, any, all, ◌&&◌, some, [], ◌∷◌, ◌==◌,
  text_mem, or_default, leb, ◌||◌, starts_with, is_empty, if◌then◌else◌, false, codes, Text, Option,
  List, Bool, ℕ,
}
use githost_mcp.Errors.{err, Result, ok, ◌>>=◌, ◌>>◌, raise_if, ExcType, Fault}
use githost_mcp.Security.Chars.{is_digit}
use githost_mcp.Security.Names.{is_control}

abbrev pub is_lower_or_digit : ℕ → Bool
is_lower_or_digit c = is_digit c || (leb b'a' c && leb c b'z')

-- `[a-z0-9._-]`
abbrev pub is_worktree_char : ℕ → Bool
is_worktree_char c = is_lower_or_digit c || (c == b'.' || (c == b'_' || c == b'-'))

-- `fullmatch` of `[a-z0-9][a-z0-9._-]{0,63}`
unfoldable pub matches_worktree_name : Text → Bool
matches_worktree_name [] = false
matches_worktree_name (c ∷ s) = is_lower_or_digit c && (all is_worktree_char s && leb (length s) 63)

-- A name that is None or empty is missing.
unfoldable pub validate_worktree_name : Option Text → Result Text
validate_worktree_name none = err ExcType.missing_argument Fault.argument_missing
validate_worktree_name (some name) = do
  raise_if (is_empty name) ExcType.missing_argument Fault.argument_missing
  raise_if (contains name (codes "..") || not (matches_worktree_name name)) ExcType.invalid_argument
      Fault.bad_worktree_name
  ok name

unfoldable pub validate_ref_arg : Text → Result Text
validate_ref_arg value = do
  raise_if (starts_with value (b'-' ∷ [])) ExcType.invalid_argument Fault.leading_dash
  raise_if (is_empty value || any (λ c. is_space c || is_control c) value) ExcType.invalid_argument
      Fault.no_whole_ref
  ok value

-- `[0-9a-f]`
abbrev pub is_hex_char : ℕ → Bool
is_hex_char c = is_digit c || (leb b'a' c && leb c b'f')

unfoldable pub validate_expected_sha : (Text → Text) → Option Text → Result Text
validate_expected_sha lower sha = do
  raise_if (is_empty (or_default sha [])) ExcType.missing_argument Fault.argument_missing
  raise_if
      (not
        (all is_hex_char (lower (or_default sha [])) && length (lower (or_default sha [])) == 40))
      ExcType.invalid_argument Fault.bad_sha_length
  ok (lower (or_default sha []))

-- The names of ALWAYS_PROTECTED_BRANCHES.
unfoldable pub always_protected_branches : List Text
always_protected_branches = codes "main" ∷ codes "master" ∷ []

unfoldable pub protected_branch_reason : Text → Option Text → Option Text
protected_branch_reason branch default_branch =
    if text_mem branch always_protected_branches
    then some ((b'\'' ∷ branch) ++ codes "' is always protected from force pushes")
    else elim default_branch [
      | none ↦ none
      | some d ↦
          if text_eq branch d
          then some ((b'\'' ∷ branch) ++ codes "' is the remote's default branch")
          else none
    ]
