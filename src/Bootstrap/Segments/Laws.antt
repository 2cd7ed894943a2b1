-- ===== src/Bootstrap/Segments/Laws.antt =====
-- The segments that are accepted, and what may then be built from them.
use githost_mcp.Base.{
  sym, ap, ◌∙◌, starts_with, true, codes, all, [], ◌≤◌, ◌∷◌, map, ◌≢◌, ◌↔◌, text_eq_iff, length,
  ends_with, text_eq, some, is_empty, false, Text, ◌≡◌, arith,
}
use githost_mcp.Errors.{ok-injective, raise_if-eq-ok, ok}
use githost_mcp.Bootstrap.Segments.{
  is_segment_char, matches_segment, bad_shape, validate_segment, lower_char,
}

-- One path segment: not empty, at most 100 characters of `[A-Za-z0-9_.-]`, not `.` or `..`, no
-- leading dash, and no `.git` suffix in any case.
pub record IsSegment (value : Text) : Type 0 where
  pub not_empty : is_empty value ≡ false
  pub short : length value ≤ 100
  pub plain : all is_segment_char value ≡ true
  pub not_dot : value ≢ b'.' ∷ []
  pub not_dot_dot : value ≢ b'.' ∷ b'.' ∷ []
  pub no_dash : starts_with value (b'-' ∷ []) ≡ false
  pub no_git : ends_with (map lower_char value) (codes ".git") ≡ false

ne_of_text_eq : (s t : Text) → text_eq s t ≡ false → s ≢ t
ne_of_text_eq s t h e = ground (arith, (text_eq_iff s t).1 e)

shape-IsSegment :
    (value : Text)
    → bad_shape value ≡ false
    → ends_with (map lower_char value) (codes ".git") ≡ false
    → IsSegment value
unfolding bad_shape matches_segment
shape-IsSegment value h g = record {
  not_empty = ground arith;
  short = ground arith;
  plain = ground arith;
  not_dot = ne_of_text_eq _ _ (ground arith);
  not_dot_dot = ne_of_text_eq _ _ (ground arith);
  no_dash = ground arith;
  no_git = g;
}

IsSegment-shape : (value : Text) → IsSegment value → bad_shape value ≡ false
unfolding bad_shape matches_segment
IsSegment-shape value s = ground (
  arith,
  text_eq_iff value (b'.' ∷ []),
  text_eq_iff value (b'.' ∷ b'.' ∷ []),
  s.not_dot,
  s.not_dot_dot,
)

accepted-IsSegment :
    (value : Text) {out : Text}
    → validate_segment (some value) ≡ ok out
    → IsSegment value × (out ≡ value)
unfolding validate_segment
accepted-IsSegment value h0 =
    let (e1, h1) = raise_if-eq-ok _ _ _ _ h0 in
    let (e2, h2) = raise_if-eq-ok _ _ _ _ h1 in
    let (e3, h3) = raise_if-eq-ok _ _ _ _ h2 in (shape-IsSegment value e2 e3, sym (ok-injective h3))

IsSegment-accepted : (value : Text) → IsSegment value → validate_segment (some value) ≡ ok value
unfolding validate_segment
IsSegment-accepted value s = rw (s.not_empty, IsSegment-shape value s, s.no_git)

-- A path segment is accepted exactly when it is not empty, has at most 100 characters of the
-- allowed set, is neither `.` nor `..`, has no leading dash and no `.git` suffix in any case; and
-- it is returned unchanged.
pub validate_segment_iff :
    (value out : Text)
    → (validate_segment (some value) ≡ ok out) ↔ (IsSegment value × (out ≡ value))
validate_segment_iff value out =
    (accepted-IsSegment value, λ (s, e). IsSegment-accepted value s ∙ ap ok (sym e))
