-- ===== src/Bootstrap/Segments.antt =====
-- validate_segment(), first_bad_segment(), validate_description() and validate_depth() of
-- src/githost_mcp/bootstrap.py.
pub mod Laws
use githost_mcp.Base.{
  ◌+◌, length, ◌==◌, ◌&&◌, map, any, [], ◌∷◌, ◌||◌, some, none, is_empty, if◌then◌else◌, ℕ, text_eq,
  not, Option, List, Text, Bool, codes, starts_with, ends_with, all, ltb, leb,
}
use githost_mcp.Errors.{Result, ok, err, ◌>>=◌, ◌>>◌, raise_if, ExcType, Fault}
use githost_mcp.Security.Chars.{is_letter, is_digit}

-- `[A-Za-z0-9_.-]`
unfoldable pub is_segment_char : ℕ → Bool
is_segment_char c = is_letter c || is_digit c || c == b'_' || c == b'.' || c == b'-'

-- `re.compile(r"[A-Za-z0-9_.-]{1,100}").fullmatch(value)`
unfoldable pub matches_segment : Text → Bool
matches_segment value =
    not (is_empty value) && (leb (length value) 100 && all is_segment_char value)

-- `str.lower` on a text of such characters, which are ASCII.
abbrev pub lower_char : ℕ → ℕ
lower_char c = if leb b'A' c && leb c b'Z' then c + 32 else c

unfoldable pub bad_shape : Text → Bool
bad_shape value =
    text_eq value (b'.' ∷ [])
    || text_eq value (b'.' ∷ b'.' ∷ [])
    || starts_with value (b'-' ∷ [])
    || not (matches_segment value)

unfoldable pub validate_segment : Option Text → Result Text
validate_segment none = err ExcType.missing_argument Fault.argument_missing
validate_segment (some value) = do
  raise_if (is_empty value) ExcType.missing_argument Fault.argument_missing
  raise_if (bad_shape value) ExcType.invalid_argument Fault.bad_segment
  raise_if (ends_with (map lower_char value) (codes ".git")) ExcType.invalid_argument
      Fault.git_suffix
  ok value

-- The reason class, the argument and the value of the first invalid segment.
abbrev pub bad_segment_class : Result Text → Option Text
bad_segment_class (ok v) = none
bad_segment_class (err ExcType.missing_argument f) = some (codes "missing_argument")
bad_segment_class (err _ f) = some (codes "invalid_argument")

unfoldable pub first_bad_segment : List (Text × Option Text) → Option (Text × Text × Option Text)
first_bad_segment [] = none
first_bad_segment ((argument, value) ∷ pairs) =
    let later = first_bad_segment pairs in
    elim (bad_segment_class (validate_segment value)) [
      | some c ↦ some (c, argument, value)
      | none ↦ later
    ]

-- The Unicode categories Cc, Zl and Zp.
unfoldable pub breaks_line : ℕ → Bool
breaks_line c = ltb c 32 || (leb 127 c && leb c 159) || c == 0x2028 || c == 0x2029

unfoldable pub validate_description : Option Text → Result (Option Text)
validate_description none = ok none
validate_description (some d) = do
  raise_if (any breaks_line d) ExcType.invalid_argument Fault.description_breaks_line
  raise_if (ltb 350 (length d)) ExcType.invalid_argument (Fault.description_too_long (length d))
  ok (some d)

-- A depth as it may be passed: a bool is an int in Python, a negative number is -(n + 1), and any
-- other value is its JSON text.
pub data Depth : Type 0 where
  bool : Bool → Depth
  int negative : ℕ → Depth
  other : Text → Depth

unfoldable pub validate_depth : Option Depth → Result (Option ℕ)
validate_depth none = ok none
validate_depth (some (Depth.int n)) =
    raise_if (ltb n 1) ExcType.invalid_argument Fault.bad_depth >> ok (some n)
validate_depth (some _) = err ExcType.invalid_argument Fault.bad_depth
