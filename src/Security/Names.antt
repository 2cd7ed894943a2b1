-- ===== src/Security/Names.antt =====
-- validate_remote_name() and validate_branch_name() of src/githost_mcp/security.py.
pub mod Laws
use githost_mcp.Base.{
  ◌==◌, not, any, ◌||◌, ◌&&◌, [], ◌∷◌, ltb, ℕ, true, is_empty, false, List, Text, Bool, codes,
  starts_with, ends_with, contains, has_char, is_space, leb,
}
use githost_mcp.Errors.{Result, ok, ◌>>=◌, ◌>>◌, raise_if, ExcType, Fault}
use githost_mcp.Security.Chars.{is_letter, is_digit, is_remote_name_char}

-- The rest of a match of `^[A-Za-z0-9][A-Za-z0-9._/-]*$`: `$` also matches in front of a newline
-- that ends the text.
unfoldable pub remote_name_tail : Text → Bool
remote_name_tail [] = true
remote_name_tail (c ∷ s) = (is_remote_name_char c && remote_name_tail s) || (c == 10 && is_empty s)

unfoldable pub matches_remote_name : Text → Bool
matches_remote_name [] = false
matches_remote_name (c ∷ s) = (is_letter c || is_digit c) && remote_name_tail s

unfoldable pub validate_remote_name : Text → Result (Unit {0})
validate_remote_name name = do
  raise_if (is_empty name) ExcType.remote_name_invalid Fault.name_missing
  raise_if (starts_with name (b'-' ∷ [])) ExcType.remote_name_invalid Fault.leading_dash
  raise_if (not (matches_remote_name name)) ExcType.remote_name_invalid Fault.bad_characters

abbrev pub is_control : ℕ → Bool
is_control c = ltb c 0x20 || c == 0x7f

-- The loop over the forbidden characters: the first one that the name holds.
unfoldable pub check_forbidden : Text → List ℕ → Result (Unit {0})
check_forbidden name [] = ok tt
check_forbidden name (bad ∷ rest) =
    raise_if (has_char bad name) ExcType.branch_name_invalid (Fault.forbidden_character bad)
    >> check_forbidden name rest

abbrev pub forbidden : List ℕ
forbidden = b'*' ∷ b'?' ∷ b'[' ∷ b'~' ∷ b'^' ∷ b'\\' ∷ []

unfoldable pub validate_branch_name : Text → Result (Unit {0})
validate_branch_name name = do
  raise_if (is_empty name) ExcType.branch_name_invalid Fault.name_missing
  raise_if (starts_with name (b'-' ∷ [])) ExcType.branch_name_invalid Fault.leading_dash
  raise_if (has_char b':' name) ExcType.branch_name_invalid Fault.splits_refspec
  raise_if (any is_space name) ExcType.branch_name_invalid Fault.whitespace
  raise_if (any is_control name) ExcType.branch_name_invalid Fault.control_character
  check_forbidden name forbidden
  raise_if (contains name (codes "..") || contains name (codes "@{")) ExcType.branch_name_invalid
      Fault.dots_or_at_brace
  raise_if
      (ends_with name (codes ".lock") || ends_with name (codes "/") || ends_with name (codes "."))
      ExcType.branch_name_invalid Fault.bad_ending
  raise_if (starts_with name (codes "/") || contains name (codes "//")) ExcType.branch_name_invalid
      Fault.bad_slashes
