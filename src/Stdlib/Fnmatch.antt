-- ===== src/Stdlib/Fnmatch.antt =====
-- fnmatch.fnmatch() on POSIX, where os.path.normcase() changes nothing: `*`, `?` and `[…]`.
use githost_mcp.Base.{
  refl, zero, ◌||◌, some, ◌&&◌, suc, not, if◌then◌else◌, ◌≡◌, ◌∷◌, true, none, length, is_empty,
  false, [], ℕ, codes, Option, List, Bool, Text, leb, ◌==◌,
}

-- A parsed pattern. A set is negated or not, and lists ranges of code points.
pub data Glob : Type 0 where
  star any_char : Glob
  char : ℕ → Glob
  set : Bool → List (ℕ × ℕ) → Glob

-- The ranges of a bracket's text: `a-z` is a range unless its `-` is the first or the last
-- character; a range whose ends are the wrong way round is dropped.
unfoldable pub ranges : Text → List (ℕ × ℕ)
ranges [] = []
ranges (a ∷ []) = (a, a) ∷ []
ranges (a ∷ b ∷ []) = (a, a) ∷ (b, b) ∷ []
ranges (a ∷ b ∷ c ∷ rest) =
    let singles = (a, a) ∷ ranges (b ∷ c ∷ rest) in
    let ranged = ranges rest in
    if b == b'-' then (if leb a c then (a, c) ∷ ranged else ranged) else singles

-- The bracket's text up to its `]`, and what follows it; `none` where there is no `]`.
unfoldable pub until_bracket : Text → Option (Text × Text)
until_bracket [] = none
until_bracket (c ∷ s) =
    let rest = until_bracket s in
    if c == b']'
    then some ([], s)
    else elim rest [ none ↦ none | some (inside, after) ↦ some (c ∷ inside, after) ]

-- What follows a `[`: its negation mark, then the text, in which a leading `]` is a member.
abbrev pub strip_negation : Text → Bool × Text
strip_negation [] = (false, [])
strip_negation (c ∷ s) = if c == b'!' then (true, s) else (false, c ∷ s)

abbrev pub bracket_body : Text → Option (Text × Text)
bracket_body [] = none
bracket_body (c ∷ s) =
    if c == b']'
    then elim (until_bracket s) [ none ↦ none | some (inside, after) ↦ some (c ∷ inside, after) ]
    else until_bracket (c ∷ s)

-- The parse, on fuel: one step takes at least one character, so the length is enough.
unfoldable pub parse : ℕ → Text → List Glob
parse zero s = []
parse (suc n) [] = []
parse (suc n) (c ∷ s) =
    let plain = char c ∷ parse n s in
    let starred = star ∷ parse n s in
    let wild = any_char ∷ parse n s in
    let bracket : List Glob = elim (bracket_body (strip_negation s).1) [
      | none ↦ char c ∷ parse n s
      | some (inside, after) ↦ set (strip_negation s).0 (ranges inside) ∷ parse n after
    ] in
    if c == b'*' then starred else if c == b'?' then wild else if c == b'[' then bracket else plain

abbrev pub in_ranges : ℕ → List (ℕ × ℕ) → Bool
in_ranges c [] = false
in_ranges c ((lo, hi) ∷ rs) = (leb lo c && leb c hi) || in_ranges c rs

abbrev pub accepts : Glob → ℕ → Bool
accepts Glob.star c = true
accepts Glob.any_char c = true
accepts (Glob.char d) c = c == d
accepts (Glob.set true rs) c = not (in_ranges c rs)
accepts (Glob.set false rs) c = in_ranges c rs

-- A star tries every suffix.
unfoldable pub any_suffix : (Text → Bool) → Text → Bool
any_suffix p [] = p []
any_suffix p (c ∷ s) =
    let later = any_suffix p s in elim (p (c ∷ s)) [ true ↦ true | false ↦ later ]

abbrev pub step : (Text → Bool) → Glob → Text → Bool
step rest g [] = false
step rest g (c ∷ s) = accepts g c && rest s

unfoldable pub matches : List Glob → Text → Bool
matches [] s = is_empty s
matches (Glob.star ∷ gs) s = any_suffix (matches gs) s
matches (g ∷ gs) s = step (matches gs) g s

unfoldable pub fnmatch : Text → Text → Bool
fnmatch name pattern = matches (parse (length pattern) pattern) name

fnmatch_tests :
    (fnmatch (codes "docs/a.md") (codes "**/*.md") ≡ true)
    × (fnmatch (codes "README.md") (codes "**/*.md") ≡ false)
    × (fnmatch (codes "v7") (codes "v[!0-3x]") ≡ true)
    × (fnmatch (codes "a]") (codes "a[]-]") ≡ true)
    × (fnmatch (codes "a[b") (codes "?[b") ≡ true)
unfolding fnmatch matches parse any_suffix until_bracket ranges codes
fnmatch_tests = (refl, refl, refl, refl, refl)
