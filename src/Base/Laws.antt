-- ===== src/Base/Laws.antt =====
-- Lemmas on lists and texts that the components share.
use mathlib.Core.Path.{◌≡◌, refl, ap}
use mathlib.Core.Logic.{inl, inr}
use mathlib.Core.Bool.{Bool, true, false, ◌||◌}
use mathlib.Core.List.{
  append_assoc, reverse-cons, reverse-append, reverse, List, [], ◌∷◌, ◌++◌, reverse_aux,
}
use Prim.Native.Nat.{ℕ, zero, suc, ◌+◌}
use native.Mathlib.Omega.{arith}
use githost_mcp.Base.Tests.{◌==◌, Bool-cases}
use githost_mcp.Base.Lists.{length, drop, take, any, all, All, keep_if, is_empty}
use githost_mcp.Base.Strings.{before_char, after_char, Text, starts_with, take_while, drop_while}

module _ {ℓ} {A : Type ℓ} where
  pub length-append : (xs ys : List A) → length (xs ++ ys) ≡ length xs + length ys
  length-append [] ys = omega arith
  length-append (x ∷ xs) ys = omega (arith, length-append xs ys)

  pub drop-append : (xs ys : List A) → drop (length xs) (xs ++ ys) ≡ ys
  drop-append [] ys = refl
  drop-append (x ∷ xs) ys = drop-append xs ys

  pub take-append-drop : (n : ℕ) (xs : List A) → take n xs ++ drop n xs ≡ xs
  take-append-drop zero xs = refl
  take-append-drop (suc n) [] = refl
  take-append-drop (suc n) (x ∷ xs) = ap (λ t. x ∷ t) (take-append-drop n xs)

  pub any-append : (p : A → Bool) (xs ys : List A) → any p (xs ++ ys) ≡ (any p xs || any p ys)
  any-append p [] ys = refl
  any-append p (x ∷ xs) ys = ground (arith, any-append p xs ys)

  pub any-reverse_aux :
      (p : A → Bool) (xs ys : List A) → any p (reverse_aux xs ys) ≡ (any p xs || any p ys)
  any-reverse_aux p [] ys = refl
  any-reverse_aux p (x ∷ xs) ys = ground (arith, any-reverse_aux p xs (x ∷ ys))

  -- What a comprehension keeps satisfies its test; an item that fails it is left out.
  pub keep_if-eq-nil : (p : A → Bool) (xs : List A) → keep_if p xs ≡ [] → All (λ x. p x ≡ false) xs
  keep_if-eq-nil p [] h = tt
  keep_if-eq-nil p (x ∷ xs) h = elim (Bool-cases (p x)) [
    | inl e ↦ absurd (ground arith)
    | inr e ↦ (e, keep_if-eq-nil p xs (ground arith))
  ]

  pub is_empty-eq-nil : (xs : List A) → is_empty xs ≡ true → xs ≡ []
  is_empty-eq-nil [] h = refl
  is_empty-eq-nil (x ∷ xs) h = ground arith

pub starts_with-append : (s t : Text) → starts_with (s ++ t) s ≡ true
unfolding starts_with
starts_with-append [] [] = refl
starts_with-append [] (c ∷ t) = refl
starts_with-append (c ∷ s) t = ground (arith, starts_with-append s t)

pub take_while-append-drop_while : (p : ℕ → Bool) (s : Text) → take_while p s ++ drop_while p s ≡ s
unfolding take_while drop_while
take_while-append-drop_while p [] = refl
take_while-append-drop_while p (c ∷ s) = ground (arith, take_while-append-drop_while p s)

pub all-take_while : (p : ℕ → Bool) (s : Text) → all p (take_while p s) ≡ true
unfolding take_while
all-take_while p [] = refl
all-take_while p (c ∷ s) = ground (arith, all-take_while p s)

module _ (p : ℕ → Bool) where
  pub drop_while-append : (s t : Text) → all p s ≡ true → drop_while p (s ++ t) ≡ drop_while p t
  unfolding drop_while
  drop_while-append [] t h = refl
  drop_while-append (c ∷ s) t h = ground (arith, drop_while-append s t)

  pub take_while-append :
      (s t : Text) → all p s ≡ true → take_while p (s ++ t) ≡ s ++ take_while p t
  unfolding take_while
  take_while-append [] t h = refl
  take_while-append (c ∷ s) t h = ground (arith, take_while-append s t)

pub any-of_append : (p : ℕ → Bool) (s t : Text) → any p s ≡ true → any p (s ++ t) ≡ true
any-of_append p s t h = rw (any-append p s t, h)

-- What stands before the first `c`, of a text whose head part holds no `c`.
pub before_char-append :
    (c : ℕ) (s t : Text)
    → any (λ x. x == c) s ≡ false
    → before_char c (s ++ t) ≡ s ++ before_char c t
unfolding before_char
before_char-append c [] t h = refl
before_char-append c (x ∷ s) t h = ground (arith, before_char-append c s t)

-- What stands after the first `c` keeps all that stands after any `c`.
pub any-after_char :
    (p : ℕ → Bool) (c : ℕ) (s t : Text)
    → any p t ≡ true
    → any p (after_char c (s ++ (c ∷ t))) ≡ true
unfolding after_char
any-after_char p c [] t h = ground arith
any-after_char p c (x ∷ s) t h = ground (arith, any-after_char p c s t h, any-append p s (c ∷ t))

module _ {ℓ} {A : Type ℓ} where
  pub any-reverse : (p : A → Bool) (xs : List A) → any p (reverse xs) ≡ any p xs
  any-reverse p xs = ground (arith, any-reverse_aux p xs [])

  pub reverse-append_cons :
      (xs : List A) (a : A) (ys : List A)
      → reverse (xs ++ (a ∷ ys)) ≡ reverse ys ++ (a ∷ reverse xs)
  reverse-append_cons xs a ys = simp (reverse-append, reverse-cons, append_assoc)
