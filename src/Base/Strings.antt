-- ===== src/Base/Strings.antt =====
-- Text as a list of code points, with the string methods that the program calls.
use Prim.Native.Char.{code}
use Prim.Native.String.{String}
use Prim.Native.Nat.{ℕ, zero, suc, ◌+◌, ◌/◌, ◌%◌}
use mathlib.Core.Path.{◌≡◌, refl}
use mathlib.Core.Logic.{◌↔◌}
use mathlib.Core.Bool.{Bool, true, false, ◌&&◌, ◌||◌}
use mathlib.Core.List.{List, [], ◌∷◌, ◌++◌, reverse}
use native.Mathlib.Omega.{arith}
use githost_mcp.Base.Tests.{ltb, leb, ◌==◌, if◌then◌else◌}
use githost_mcp.Base.Lists.{length, any}

abbrev pub Text : Type 0
Text = List ℕ

-- The code points of a literal. `String` has its own `[]` and `∷`.
unfoldable pub codes : String → Text
codes String.[] = []
codes (String.◌∷◌ c s) = code c ∷ codes s

unfoldable pub text_eq : Text → Text → Bool
text_eq [] [] = true
text_eq [] (_ ∷ _) = false
text_eq (_ ∷ _) [] = false
text_eq (a ∷ s) (b ∷ t) = a == b && text_eq s t

pub text_eq_sound : (s t : Text) → text_eq s t ≡ true → s ≡ t
unfolding text_eq
text_eq_sound [] [] h = refl
text_eq_sound [] (_ ∷ _) h = ground arith
text_eq_sound (_ ∷ _) [] h = ground arith
text_eq_sound (a ∷ s) (b ∷ t) h = ground (arith, text_eq_sound s t)

pub text_eq_refl : (s : Text) → text_eq s s ≡ true
unfolding text_eq
text_eq_refl [] = refl
text_eq_refl (a ∷ s) = ground (arith, text_eq_refl s)

pub text_eq_iff : (s t : Text) → (text_eq s t ≡ true) ↔ (s ≡ t)
text_eq_iff s t = (text_eq_sound s t, λ e. rw (← e) (text_eq_refl s))

-- `k in l` on a collection of texts.
unfoldable pub text_mem : Text → List Text → Bool
text_mem k [] = false
text_mem k (x ∷ xs) = text_eq k x || text_mem k xs

-- `s.startswith(pre)`
unfoldable pub starts_with : Text → Text → Bool
starts_with s [] = true
starts_with [] (_ ∷ _) = false
starts_with (c ∷ s) (p ∷ pre) = c == p && starts_with s pre

-- `s.endswith(suf)`
unfoldable pub ends_with : Text → Text → Bool
unfolding text_eq
ends_with [] suf = text_eq [] suf
ends_with (c ∷ s) suf = text_eq (c ∷ s) suf || ends_with s suf

-- `sub in s`
unfoldable pub contains : Text → Text → Bool
contains [] sub = starts_with [] sub
contains (c ∷ s) sub = starts_with (c ∷ s) sub || contains s sub

abbrev pub has_char : ℕ → Text → Bool
has_char c = any (λ x. x == c)

-- `s.split(c)` at a one-character separator: always at least one part.
abbrev push_head : ℕ → List Text → List Text
push_head x [] = (x ∷ []) ∷ []
push_head x (part ∷ parts) = (x ∷ part) ∷ parts

unfoldable pub split_on : ℕ → Text → List Text
split_on c [] = [] ∷ []
split_on c (x ∷ s) = let parts = split_on c s in if x == c then [] ∷ parts else push_head x parts

-- `s.partition(c)`: what stands before the first `c`, whether there is one, and what stands after.
unfoldable pub before_char : ℕ → Text → Text
before_char c [] = []
before_char c (x ∷ s) = let rest = before_char c s in if x == c then [] else x ∷ rest

unfoldable pub after_char : ℕ → Text → Text
after_char c [] = []
after_char c (x ∷ s) = let rest = after_char c s in if x == c then s else rest

-- `sep.join(parts)`
unfoldable pub join : Text → List Text → Text
join sep [] = []
join sep (part ∷ []) = part
join sep (part ∷ next ∷ parts) = part ++ (sep ++ join sep (next ∷ parts))

-- `str.isspace` of one character, which `strip` and the `\s` of `re` go by.
unfoldable pub is_space : ℕ → Bool
is_space c =
    (leb 9 c && leb c 13)
    || (leb 28 c && leb c 32)
    || c == 0x85
    || c == 0xa0
    || c == 0x1680
    || (leb 0x2000 c && leb c 0x200a)
    || c == 0x2028
    || c == 0x2029
    || c == 0x202f
    || c == 0x205f
    || c == 0x3000

-- The longest prefix of accepted characters, and what follows it.
unfoldable pub take_while : (ℕ → Bool) → Text → Text
take_while p [] = []
take_while p (c ∷ s) = let rest = take_while p s in if p c then c ∷ rest else []

unfoldable pub drop_while : (ℕ → Bool) → Text → Text
drop_while p [] = []
drop_while p (c ∷ s) = let rest = drop_while p s in if p c then rest else c ∷ s

-- `s.strip()`
unfoldable pub strip : Text → Text
unfolding drop_while is_space
strip s = reverse (drop_while is_space (reverse (drop_while is_space s)))

-- `s.rstrip(c)` and `s.lstrip(c)` at one character.
unfoldable pub lstrip_char : ℕ → Text → Text
unfolding drop_while
lstrip_char c = drop_while (λ x. x == c)

unfoldable pub rstrip_char : ℕ → Text → Text
unfolding drop_while
rstrip_char c s = reverse (drop_while (λ x. x == c) (reverse s))

-- `s.replace(old, new)`: leftmost matches, none overlapping. `skip` counts the characters of a
-- match that are still to be passed over. An empty `old`, which no caller passes, is not modelled
-- as Python treats it: it matches nowhere here.
unfoldable pub replace_from : ℕ → Text → Text → Text → Text
replace_from skip old new [] = []
replace_from (suc skip) old new (c ∷ s) = replace_from skip old new s
replace_from zero [] new (c ∷ s) = c ∷ replace_from zero [] new s
replace_from zero (o ∷ old) new (c ∷ s) = elim (starts_with (c ∷ s) (o ∷ old)) [
  | true ↦ new ++ replace_from (length old) (o ∷ old) new s
  | false ↦ c ∷ replace_from zero (o ∷ old) new s
]

unfoldable pub replace : Text → Text → Text → Text
unfolding replace_from starts_with
replace old new s = replace_from zero old new s

-- `str(n)`. A number has at most as many digits as it counts, and one more than none.
unfoldable pub digits_from : ℕ → ℕ → Text
digits_from zero n = []
digits_from (suc fuel) n =
    let more = digits_from fuel (n / 10) in
    if ltb n 10 then (n + b'0') ∷ [] else more ++ ((n % 10 + b'0') ∷ [])

unfoldable pub decimal : ℕ → Text
unfolding digits_from
decimal n = digits_from (suc n) n

-- Python's order on texts.
unfoldable pub text_le : Text → Text → Bool
text_le [] t = true
text_le (a ∷ s) [] = false
text_le (a ∷ s) (b ∷ t) = ltb a b || (a == b && text_le s t)

-- `sorted()` of texts: insertion, in code-point order.
unfoldable pub insert_text : Text → List Text → List Text
insert_text t [] = t ∷ []
insert_text t (x ∷ xs) = let more = insert_text t xs in if text_le t x then t ∷ x ∷ xs else x ∷ more

unfoldable pub sort_texts : List Text → List Text
sort_texts [] = []
sort_texts (t ∷ ts) = insert_text t (sort_texts ts)

-- The characters at which str.splitlines() ends a line.
abbrev pub is_line_end : ℕ → Bool
is_line_end c =
    (leb 10 c && leb c 13)
    || ((leb 28 c && leb c 30) || (c == 0x85 || (c == 0x2028 || c == 0x2029)))

-- `s.splitlines()`: a carriage return and the newline behind it are one end.
unfoldable pub splitlines : Text → List Text
splitlines [] = []
splitlines (c ∷ s) =
    let rest = splitlines s in
    if is_line_end c
    then (if c == 13 && starts_with s (10 ∷ []) then rest else [] ∷ rest)
    else push_head c rest
