-- ===== src/Security/Masking/Laws.antt =====
-- Occurrences of a text without a star in what replacing by stars gives.
use githost_mcp.Base.{
  inr, inl, ◌⊎◌, length, Bool-cases, false_of, zero, [], true, suc, ◌++◌, ◌∷◌, take, ℕ, false, Text,
  ◌≡◌, refl, arith, has_char, replace_from, starts_with, contains,
}
use githost_mcp.Security.Masking.{stars}

-- A text without an asterisk.
abbrev pub NoStar : Text → Type 0
NoStar t = has_char b'*' t ≡ false

-- In front of a star stands all that a prefix without a star can cover.
pub starts_with-take :
    (k : ℕ) (s ys p : Text)
    → NoStar p
    → starts_with (take k s ++ (b'*' ∷ ys)) p ≡ true
    → starts_with s p ≡ true
unfolding starts_with
starts_with-take k s ys [] n h = unfold starts_with in refl
starts_with-take zero s ys (o ∷ p) n h = absurd (ground arith)
starts_with-take (suc k) [] ys (o ∷ p) n h = absurd (ground arith)
starts_with-take (suc k) (c ∷ s) ys (o ∷ p) n h = ground (arith, starts_with-take k s ys p)

-- `contains` of a text and of its tail.
pub contains-cons :
    (c : ℕ) (s t : Text)
    → contains (c ∷ s) t ≡ false
    → (starts_with (c ∷ s) t ≡ false) × (contains s t ≡ false)
unfolding contains
contains-cons c s t h = ground arith

pub contains_cons :
    (c : ℕ) (s t : Text)
    → starts_with (c ∷ s) t ≡ false
    → contains s t ≡ false
    → contains (c ∷ s) t ≡ false
unfolding contains
contains_cons c s t h k = ground arith

starts_with-star :
    (s : Text) (o : ℕ) (t : Text) → NoStar (o ∷ t) → starts_with (b'*' ∷ s) (o ∷ t) ≡ false
unfolding starts_with
starts_with-star s o t n = ground arith

pub contains-take :
    (k : ℕ) (s ys : Text) (o : ℕ) (t : Text)
    → NoStar (o ∷ t)
    → contains s (o ∷ t) ≡ false
    → contains ys (o ∷ t) ≡ false
    → contains (take k s ++ (b'*' ∷ ys)) (o ∷ t) ≡ false
contains-take zero s ys o t n h k = contains_cons b'*' ys (o ∷ t) (starts_with-star ys o t n) k
contains-take (suc m) [] ys o t n h k = contains_cons b'*' ys (o ∷ t) (starts_with-star ys o t n) k
contains-take (suc m) (c ∷ s) ys o t n h k =
    let (here, later) = contains-cons c s (o ∷ t) h in
    contains_cons c (take m s ++ (b'*' ∷ ys)) (o ∷ t)
      (false_of _ _ (starts_with-take (suc m) (c ∷ s) ys (o ∷ t) n) here)
      (contains-take m s ys o t n later k)

pub contains-stars :
    (s : Text) (o : ℕ) (t : Text)
    → NoStar (o ∷ t)
    → contains s (o ∷ t) ≡ false
    → contains (stars ++ s) (o ∷ t) ≡ false
contains-stars s o t n h =
    let star = λ (r : Text). contains_cons b'*' r (o ∷ t) (starts_with-star r o t n) in
    star (b'*' ∷ b'*' ∷ s) (star (b'*' ∷ s) (star s h))

-- One character of a prefix.
pub starts_with_step :
    (c : ℕ) (s r : Text) (o : ℕ) (p : Text)
    → NoStar (o ∷ p)
    → (NoStar p → starts_with r p ≡ true → starts_with s p ≡ true)
    → starts_with (c ∷ r) (o ∷ p) ≡ true
    → starts_with (c ∷ s) (o ∷ p) ≡ true
unfolding starts_with
starts_with_step c s r o p n ih h = ground (arith, ih (ground arith) (ground arith))

pub contains-nil : (o : ℕ) (t : Text) → contains [] (o ∷ t) ≡ false
unfolding contains starts_with
contains-nil o t = refl

module _ (a : ℕ) (old : Text) where
  replace_hit :
      (c : ℕ) (s : Text)
      → starts_with (c ∷ s) (a ∷ old) ≡ true
      → replace_from zero (a ∷ old) stars (c ∷ s)
        ≡ stars ++ replace_from (length old) (a ∷ old) stars s
  unfolding replace_from
  replace_hit c s h = rw (h, replace_from)

  replace_miss :
      (c : ℕ) (s : Text)
      → starts_with (c ∷ s) (a ∷ old) ≡ false
      → replace_from zero (a ∷ old) stars (c ∷ s) ≡ c ∷ replace_from zero (a ∷ old) stars s
  unfolding replace_from
  replace_miss c s h = rw (h, replace_from)

  replace_nil : (k : ℕ) → replace_from k (a ∷ old) stars [] ≡ []
  unfolding replace_from
  replace_nil zero = refl
  replace_nil (suc k) = refl

  replace_skip :
      (k c : ℕ) (s : Text)
      → replace_from (suc k) (a ∷ old) stars (c ∷ s) ≡ replace_from k (a ∷ old) stars s
  unfolding replace_from
  replace_skip k c s = refl

  -- A prefix without a star of a text with replacements was a prefix of the text.
  starts_with-replace_from :
      (s p : Text)
      → NoStar p
      → starts_with (replace_from zero (a ∷ old) stars s) p ≡ true
      → starts_with s p ≡ true
  starts_with-replace_from s [] n h = unfold starts_with in ground arith
  starts_with-replace_from [] (o ∷ p) n h = rw (replace_nil zero) at h
  starts_with-replace_from (c ∷ s) (o ∷ p) n h = elim (Bool-cases (starts_with (c ∷ s) (a ∷ old))) [
    | inl hit ↦ absurd (unfold starts_with in ground (arith, rw (replace_hit c s hit) at h))
    | inr miss ↦
        let h' = rw (replace_miss c s miss) at h in
        starts_with_step c s _ o p n (λ m e. starts_with-replace_from s p m e) h'
  ]

  tail_case :
      {o : ℕ} {t : Text} (c : ℕ) (s : Text)
      → (contains (c ∷ s) (o ∷ t) ≡ false) ⊎ ((o ∷ t) ≡ (a ∷ old))
      → (contains s (o ∷ t) ≡ false) ⊎ ((o ∷ t) ≡ (a ∷ old))
  tail_case {o} {t} c s (inl h) = inl ((contains-cons c s (o ∷ t) h).1)
  tail_case c s (inr e) = inr e

  here_case :
      {o : ℕ} {t : Text} (c : ℕ) (s : Text)
      → starts_with (c ∷ s) (a ∷ old) ≡ false
      → (contains (c ∷ s) (o ∷ t) ≡ false) ⊎ ((o ∷ t) ≡ (a ∷ old))
      → starts_with (c ∷ s) (o ∷ t) ≡ false
  here_case {o} {t} c s miss (inl h) = (contains-cons c s (o ∷ t) h).0
  here_case c s miss (inr e) = rw e miss

  -- What a text held nowhere it does not hold after a replacement, and the replaced text is gone.
  pub contains-replace_from :
      (o : ℕ) (t : Text)
      → NoStar (o ∷ t)
      → (k : ℕ) (s : Text) → (contains s (o ∷ t) ≡ false) ⊎ ((o ∷ t) ≡ (a ∷ old))
      → contains (replace_from k (a ∷ old) stars s) (o ∷ t) ≡ false
  contains-replace_from o t n k [] h = rw (replace_nil k) (contains-nil o t)
  contains-replace_from o t n (suc k) (c ∷ s) h =
      rw (replace_skip k c s) (contains-replace_from o t n k s (tail_case c s h))
  contains-replace_from o t n zero (c ∷ s) h =
      let later = tail_case c s h in
      elim (Bool-cases (starts_with (c ∷ s) (a ∷ old))) [
        | inl hit ↦
            rw (replace_hit c s hit)
              (contains-stars _ o t n (contains-replace_from o t n (length old) s later))
        | inr miss ↦ rw (replace_miss c s miss) (
            contains_cons c _ (o ∷ t)
              (false_of _ _
                (λ e. starts_with-replace_from (c ∷ s) (o ∷ t) n (rw (replace_miss c s miss) e))
                (here_case c s miss h))
              (contains-replace_from o t n zero s later))
      ]
