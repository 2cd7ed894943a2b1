-- ===== src/Security/Masking/Secrets.antt =====
-- No configured secret survives mask_credentials() or scrub().
use githost_mcp.Base.{
  ◌-◌, ◌++◌, take, subst, false_of, Option-cases, some, none, inr, inl, Bool-cases, ◌⊎◌, ◌∷◌, zero,
  suc, false, [], ℕ, true, List, Bool, Text, ◌≡◌, refl, arith, has_char, replace, starts_with,
  contains, text_mem, text_eq, ltb, length, text_eq_iff,
}
use githost_mcp.Config.System.{Config}
use githost_mcp.Security.Masking.{
  is_scheme_char, stars, secrets, mask_token, mask_all, mask_credentials, match_userinfo,
  redact_from, redact_url_credentials, scrub,
}
use githost_mcp.Security.Masking.Laws.{
  NoStar, starts_with-take, contains-cons, contains-take, contains-stars, contains-nil,
  starts_with_step, contains_cons, contains-replace_from,
}

-- A further token leaves out what is out already.
mask_token-keeps :
    (token text : Text) (o : ℕ) (t : Text)
    → NoStar (o ∷ t)
    → contains text (o ∷ t) ≡ false
    → contains (mask_token token text) (o ∷ t) ≡ false
unfolding replace
mask_token-keeps [] text o t n h = h
mask_token-keeps (a ∷ old) text o t n h =
    ground (arith, contains-replace_from a old o t n zero text (inl h))

mask_all-keeps :
    (tokens : List Text) (text : Text) (o : ℕ) (t : Text)
    → NoStar (o ∷ t)
    → contains text (o ∷ t) ≡ false
    → contains (mask_all tokens text) (o ∷ t) ≡ false
unfolding mask_all
mask_all-keeps [] text o t n h = h
mask_all-keeps (token ∷ tokens) text o t n h =
    mask_all-keeps tokens _ o t n (mask_token-keeps token text o t n h)

mask_token-removes :
    (text : Text) (o : ℕ) (t : Text)
    → NoStar (o ∷ t)
    → ltb 4 (length (o ∷ t)) ≡ true
    → contains (mask_token (o ∷ t) text) (o ∷ t) ≡ false
unfolding replace
mask_token-removes text o t n l = rw l (contains-replace_from o t o t n zero text (inr refl))

mask_all-removes :
    (tokens : List Text) (text : Text) (o : ℕ) (t : Text)
    → NoStar (o ∷ t)
    → ltb 4 (length (o ∷ t)) ≡ true
    → text_mem (o ∷ t) tokens ≡ true
    → contains (mask_all tokens text) (o ∷ t) ≡ false
unfolding mask_all text_mem
mask_all-removes [] text o t n l m = absurd (ground arith)
mask_all-removes (token ∷ tokens) text o t n l m = elim (Bool-cases (text_eq (o ∷ t) token)) [
  | inl same ↦ mask_all-keeps tokens _ o t n (
      subst (λ k. contains (mask_token k text) (o ∷ t) ≡ false) ((text_eq_iff _ _).0 same)
        (mask_token-removes text o t n l))
  | inr other ↦ mask_all-removes tokens _ o t n l (ground arith)
]

redact_take :
    (c : ℕ) (s : Text) {kept taken : ℕ}
    → match_userinfo (c ∷ s) ≡ some (kept, taken)
    → redact_from zero false (c ∷ s)
      ≡ take kept (c ∷ s) ++ (stars ++ redact_from (taken - 1) (is_scheme_char c) s)
unfolding redact_from
redact_take c s h = rw (h, redact_from)

redact_copy :
    (inside : Bool) (c : ℕ) (s : Text)
    → (inside ≡ true) ⊎ (match_userinfo (c ∷ s) ≡ none)
    → redact_from zero inside (c ∷ s) ≡ c ∷ redact_from zero (is_scheme_char c) s
unfolding redact_from
redact_copy true c s h = refl
redact_copy false c s (inl h) = cc
redact_copy false c s (inr h) = rw (h, redact_from)

redact_nil : (k : ℕ) (inside : Bool) → redact_from k inside [] ≡ []
unfolding redact_from
redact_nil zero true = refl
redact_nil zero false = refl
redact_nil (suc k) inside = refl

redact_skip :
    (k : ℕ) (inside : Bool) (c : ℕ) (s : Text)
    → redact_from (suc k) inside (c ∷ s) ≡ redact_from k (is_scheme_char c) s
unfolding redact_from
redact_skip k inside c s = refl

-- The three ways in which a character is treated.
redact_cases :
    (inside : Bool) (c : ℕ) (s : Text)
    → ((inside ≡ true) ⊎ (match_userinfo (c ∷ s) ≡ none))
      ⊎ ((k : ℕ) × (n : ℕ) × (inside ≡ false) × (match_userinfo (c ∷ s) ≡ some (k, n)))
redact_cases true c s = inl (inl refl)
redact_cases false c s = elim (Option-cases (match_userinfo (c ∷ s))) [
  | inl e ↦ inl (inr e)
  | inr ((k, n), e) ↦ inr (k, n, refl, e)
]

starts_with-redact :
    (inside : Bool) (s p : Text)
    → NoStar p
    → starts_with (redact_from zero inside s) p ≡ true
    → starts_with s p ≡ true
starts_with-redact inside s [] n h = unfold starts_with in ground arith
starts_with-redact inside [] (o ∷ p) n h = rw (redact_nil zero inside) at h
starts_with-redact inside (c ∷ s) (o ∷ p) n h = elim (redact_cases inside c s) [
  | inl copy ↦
      starts_with_step c s _ o p n (λ m e. starts_with-redact (is_scheme_char c) s p m e)
        (rw (redact_copy inside c s copy) at h)
  | inr (k, taken, e, m) ↦ starts_with-take k (c ∷ s) _ (o ∷ p) n (
      rw (redact_take c s m) at
        (subst (λ i. starts_with (redact_from zero i (c ∷ s)) (o ∷ p) ≡ true) e h))
]

contains-redact_from :
    (o : ℕ) (t : Text)
    → NoStar (o ∷ t)
    → (k : ℕ) (inside : Bool) (s : Text) → contains s (o ∷ t) ≡ false
    → contains (redact_from k inside s) (o ∷ t) ≡ false
contains-redact_from o t n k inside [] h = rw (redact_nil k inside) (contains-nil o t)
contains-redact_from o t n (suc k) inside (c ∷ s) h =
    rw (redact_skip k inside c s)
      (contains-redact_from o t n k (is_scheme_char c) s ((contains-cons c s (o ∷ t) h).1))
contains-redact_from o t n zero inside (c ∷ s) h =
    let (here, later) = contains-cons c s (o ∷ t) h in
    elim (redact_cases inside c s) [
      | inl copy ↦ rw (redact_copy inside c s copy) (
          contains_cons c _ (o ∷ t)
            (false_of _ _
              (λ e.
                starts_with-redact inside (c ∷ s) (o ∷ t) n (rw (redact_copy inside c s copy) e))
              here)
            (contains-redact_from o t n zero (is_scheme_char c) s later))
      | inr (m, taken, e, found) ↦
          let rest = redact_from (taken - 1) (is_scheme_char c) s in
          let starred =
            contains-stars rest o t n
              (contains-redact_from o t n (taken - 1) (is_scheme_char c) s later) in
          rw (e, redact_take c s found)
            (contains-take m (c ∷ s) (b'*' ∷ b'*' ∷ rest) o t n h
              ((contains-cons b'*' (b'*' ∷ b'*' ∷ rest) (o ∷ t) starred).1))
    ]

-- A configured secret of more than four characters, without `*` in it, occurs neither in a masked
-- nor in a scrubbed text.
pub scrub-removes :
    (config : Config) (text secret : Text)
    → text_mem secret (secrets config) ≡ true
    → ltb 4 (length secret) ≡ true
    → has_char b'*' secret ≡ false
    → (contains (mask_credentials config text) secret ≡ false)
      × (contains (scrub config text) secret ≡ false)
unfolding scrub mask_credentials redact_url_credentials
scrub-removes config text [] m l n = absurd (ground arith)
scrub-removes config text (o ∷ t) m l n =
    let masked = mask_all-removes (secrets config) text o t n l m in
    (masked, contains-redact_from o t n zero false _ masked)
