-- ===== src/Audit/Values/Laws.antt =====
-- What is shown of a rejected value.
use githost_mcp.Base.{
  refl, sym, [], zero, subst, suc, has_char, arith, take, ltb, ◌∷◌, true, length, if◌then◌else◌,
  false, ◌≡◌, text_mem, some, leb, contains, Bool, ℕ, starts_with, Text, Option, or_default,
}
use githost_mcp.Config.System.{Config}
use githost_mcp.Security.Masking.{secrets, scrub}
use githost_mcp.Security.Masking.Secrets.{scrub-removes}
use githost_mcp.Security.Masking.Laws.{contains-cons, contains_cons}
use githost_mcp.Audit.Values.{bound_rejected_value, max_rejected_value_chars}

length-take : (n : ℕ) (s : Text) → leb (length (take n s)) n ≡ true
length-take zero s = ground arith
length-take (suc n) [] = ground arith
length-take (suc n) (c ∷ s) = ground (arith, length-take n s)

-- A text begins with what its beginning begins with.
starts_with-take : (n : ℕ) (s t : Text) → starts_with s t ≡ false → starts_with (take n s) t ≡ false
unfolding starts_with
starts_with-take zero s [] h = h
starts_with-take zero s (o ∷ t) h = refl
starts_with-take (suc n) [] t h = h
starts_with-take (suc n) (c ∷ s) [] h = h
starts_with-take (suc n) (c ∷ s) (o ∷ t) h = ground (arith, starts_with-take n s t)

starts_with_nil : (o : ℕ) (t : Text) → contains [] (o ∷ t) ≡ false
unfolding contains starts_with
starts_with_nil o t = refl

contains-prefix :
    (n : ℕ) (s : Text) (o : ℕ) (t : Text)
    → contains s (o ∷ t) ≡ false
    → contains (take n s) (o ∷ t) ≡ false
contains-prefix zero s o t h = starts_with_nil o t
contains-prefix (suc n) [] o t h = h
contains-prefix (suc n) (c ∷ s) o t h =
    let (a, b) = contains-cons c s (o ∷ t) h in
    contains_cons c (take n s) (o ∷ t) (starts_with-take (suc n) (c ∷ s) (o ∷ t) a)
      (contains-prefix n s o t b)

shown_bounds :
    (s : Text) (o : ℕ) (t : Text) (b : Bool)
    → contains s (o ∷ t) ≡ false
    → leb (length s) max_rejected_value_chars ≡ b
    → (leb (length (if b then s else take max_rejected_value_chars s)) max_rejected_value_chars
        ≡ true)
      × (contains (if b then s else take max_rejected_value_chars s) (o ∷ t) ≡ false)
shown_bounds s o t true h e = (e, h)
shown_bounds s o t false h e =
    (length-take max_rejected_value_chars s, contains-prefix max_rejected_value_chars s o t h)

abbrev pub shown : Config → Option Text → Text
shown config value = or_default ((bound_rejected_value config value).0) []

abbrev cut : Text → Bool → Text
cut s b = if b then s else take max_rejected_value_chars s

shown_value :
    (config : Config) (value : Text) (b : Bool)
    → leb (length (scrub config value)) max_rejected_value_chars ≡ b
    → shown config (some value) ≡ cut (scrub config value) b
unfolding bound_rejected_value
shown_value config value true h = rw (h)
shown_value config value false h = rw (h)

-- What is shown of a rejected value has at most 64 characters and contains no configured secret of
-- more than four characters without `*` in it.
pub bound_rejected_value-removes :
    (config : Config) (value : Text) (secret : Text)
    → text_mem secret (secrets config) ≡ true
    → ltb 4 (length secret) ≡ true
    → has_char b'*' secret ≡ false
    → (leb (length (shown config (some value))) 64 ≡ true)
      × (contains (shown config (some value)) secret ≡ false)
bound_rejected_value-removes config value [] m l n = absurd (ground arith)
bound_rejected_value-removes config value (o ∷ t) m l n =
    subst (λ r. (leb (length r) 64 ≡ true) × (contains r (o ∷ t) ≡ false))
      (sym (shown_value config value _ refl))
      (shown_bounds (scrub config value) o t
        (leb (length (scrub config value)) max_rejected_value_chars)
        ((scrub-removes config value (o ∷ t) m l n).1) refl)
