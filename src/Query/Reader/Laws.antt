-- ===== src/Query/Reader/Laws.antt =====
-- The backward block reader gives the lines of the whole file, the newest first.
use githost_mcp.Base.{
  ℕ, zero, suc, ◌+◌, ◌-◌, ◌≤◌, Text, List, [], ◌∷◌, ◌++◌, reverse, take, drop, length, split_on,
  if◌then◌else◌, any, ◌==◌, false, true, Bool, ◌≡◌, refl, sym, ap, ◌∙◌, arith,
}
use mathlib.Core.List.{append_assoc, reverse-append, append-nil}
use githost_mcp.Query.Reader.{
  read_size, first_part, other_parts, last_line, read_back, reverse_lines,
}

-- The parts of a text between its newlines, the last first, without the first part where it is empty.
abbrev pub back_to_front : List Text → List Text
back_to_front [] = []
back_to_front (part ∷ parts) = reverse parts ++ last_line part

unfoldable pub newest_first : Text → List Text
newest_first file = back_to_front (split_on 10 file)

abbrev prefix_first : ℕ → List Text → List Text
prefix_first x [] = (x ∷ []) ∷ []
prefix_first x (part ∷ parts) = (x ∷ part) ∷ parts

split_on-cons :
    (c x : ℕ) (s : Text)
    → split_on c (x ∷ s) ≡ (if x == c then [] ∷ split_on c s else prefix_first x (split_on c s))
unfolding split_on
split_on-cons c x s = refl

-- There is always a first part.
split_on-parts :
    (c : ℕ) (s : Text) → split_on c s ≡ first_part (split_on c s) ∷ other_parts (split_on c s)
unfolding split_on
split_on-parts c [] = refl
split_on-parts c (x ∷ s) = ground (arith, split_on-parts c s)

-- No part holds the separator, and a text without it is its own only part.
first_part-split_on : (c : ℕ) (s : Text) → any (λ x. x == c) (first_part (split_on c s)) ≡ false
unfolding split_on
first_part-split_on c [] = refl
first_part-split_on c (x ∷ s) = ground (arith, first_part-split_on c s, split_on-parts c s)

split_on-free : (c : ℕ) (s : Text) → any (λ x. x == c) s ≡ false → split_on c s ≡ s ∷ []
unfolding split_on
split_on-free c [] h = refl
split_on-free c (x ∷ s) h = ground (arith, split_on-free c s)

prefix_first-append :
    (b : Bool) (x : ℕ) (parts more : List Text)
    → parts ≡ first_part parts ∷ other_parts parts
    → (if b then [] ∷ (parts ++ more) else prefix_first x (parts ++ more))
      ≡ (if b then [] ∷ parts else prefix_first x parts) ++ more
prefix_first-append b x [] more h = ground (arith, h)
prefix_first-append true x (part ∷ parts) more h = refl
prefix_first-append false x (part ∷ parts) more h = refl

-- A text in front of another only touches the first part of that one.
split_on-append :
    (c : ℕ) (s t : Text)
    → split_on c (s ++ t)
      ≡ split_on c (s ++ first_part (split_on c t)) ++ other_parts (split_on c t)
split_on-append c [] t =
    split_on-parts c t
    ∙ sym (ap (λ l. l ++ other_parts (split_on c t)) (split_on-free c _ (first_part-split_on c t)))
split_on-append c (x ∷ s) t =
    split_on-cons c x (s ++ t)
    ∙ ap (λ l. if x == c then [] ∷ l else prefix_first x l) (split_on-append c s t)
    ∙ prefix_first-append (x == c) x _ _ (split_on-parts c (s ++ first_part (split_on c t)))
    ∙ sym (
        ap (λ l. l ++ other_parts (split_on c t))
          (split_on-cons c x (s ++ first_part (split_on c t))))

back_to_front-append :
    (parts more : List Text) (part : Text)
    → back_to_front ((part ∷ parts) ++ more) ≡ reverse more ++ back_to_front (part ∷ parts)
back_to_front-append parts more part = rw (reverse-append parts more, append_assoc) refl

take-nil : (n : ℕ) → take {A = ℕ} n [] ≡ []
take-nil zero = refl
take-nil (suc n) = refl

take-split : (a b n : ℕ) (s : Text) → n ≡ a + b → take n s ≡ take a s ++ take b (drop a s)
take-split zero b n s e = ap (λ k. take k s) (omega (arith, e))
take-split (suc a) b zero s e = ground (arith, e)
take-split (suc a) b (suc n) [] e = sym (take-nil b)
take-split (suc a) b (suc n) (x ∷ s) e = ap (λ t. x ∷ t) (take-split a b n s (omega (arith, e)))

read_size-bounds :
    (block n : ℕ) → 1 ≤ block → (read_size block (suc n) ≤ suc n) × (1 ≤ read_size block (suc n))
unfolding read_size
read_size-bounds block n h = ground arith

-- One block: the parts behind its first newline are given, and the rest is as if the block ended there.
read-block :
    (pre rest : Text)
    → back_to_front (split_on 10 (pre ++ rest))
      ≡ reverse (other_parts (split_on 10 rest))
        ++ back_to_front (split_on 10 (pre ++ first_part (split_on 10 rest)))
read-block pre rest =
    let front = split_on 10 (pre ++ first_part (split_on 10 rest)) in
    let more = other_parts (split_on 10 rest) in
    ap back_to_front (split_on-append 10 pre rest)
    ∙ ap (λ l. back_to_front (l ++ more)) (split_on-parts 10 (pre ++ first_part (split_on 10 rest)))
    ∙ back_to_front-append (other_parts front) more (first_part front)
    ∙ ap (λ l. reverse more ++ back_to_front l)
        (sym (split_on-parts 10 (pre ++ first_part (split_on 10 rest))))

-- What is read of a file up to a block, the block, and what was held back.
take-block :
    (file tail : Text) (r n : ℕ)
    → r ≤ n
    → take n file ++ tail ≡ take (n - r) file ++ (take r (drop (n - r) file) ++ tail)
take-block file tail r n h =
    ap (λ t. t ++ tail) (take-split (n - r) r n file (omega (arith, h)))
    ∙ append_assoc (take (n - r) file) (take r (drop (n - r) file)) tail

read_back-eq :
    (block : ℕ) (file : Text) (fuel n : ℕ) (tail : Text)
    → 1 ≤ block
    → n ≤ fuel
    → any (λ x. x == 10) tail ≡ false
    → read_back block file fuel n tail ≡ back_to_front (split_on 10 (take n file ++ tail))
unfolding read_back
read_back-eq block file zero zero tail b f h = rw (split_on-free 10 tail h) refl
read_back-eq block file zero (suc n) tail b f h = ground (arith, f)
read_back-eq block file (suc fuel) zero tail b f h = rw (split_on-free 10 tail h) refl
read_back-eq block file (suc fuel) (suc n) tail b f h =
    let (fits, moves) = read_size-bounds block n b in
    let r = read_size block (suc n) in
    let rest = take r (drop (suc n - r) file) ++ tail in
    sym (
      ap (λ t. back_to_front (split_on 10 t)) (take-block file tail r (suc n) fits)
      ∙ read-block (take (suc n - r) file) rest
      ∙ ap (λ l. reverse (other_parts (split_on 10 rest)) ++ l)
          (sym (
            read_back-eq block file fuel (suc n - r) (first_part (split_on 10 rest)) b
              (omega (arith, f, moves)) (first_part-split_on 10 rest))))

take-all : (s : Text) → take (length s) s ≡ s
take-all [] = refl
take-all (x ∷ s) = ap (λ t. x ∷ t) (take-all s)

-- Whatever the block size from 1 up, reading a file backwards block by block gives the parts
-- between its newlines, the last first, without the first part of the file where that is empty.
pub reverse_lines-eq-newest_first :
    (block : ℕ) (file : Text) → 1 ≤ block → reverse_lines block file ≡ newest_first file
unfolding reverse_lines newest_first
reverse_lines-eq-newest_first block file b =
    read_back-eq block file (length file) (length file) [] b (omega arith) refl
    ∙ ap (λ t. back_to_front (split_on 10 t)) (append-nil _ ∙ take-all file)
