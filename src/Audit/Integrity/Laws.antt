-- ===== src/Audit/Integrity/Laws.antt =====
-- Signing and checking a record.
use githost_mcp.Base.{
  ◌||◌, if◌then◌else◌, Bool, ap, ◌∙◌, text_eq_refl, refl, ◌++◌, true, some, arith, none, ltb, false,
  [], ◌≡◌, ◌∷◌, is_empty, all, Option, text_eq, codes, Text,
}
use githost_mcp.Config.System.{Config}
use githost_mcp.Errors.{succeeds, ok}
use githost_mcp.Audit.Values.{Value}
use githost_mcp.Audit.Integrity.{
  verify_stored, audit_entry, Entry, Integrity, Call, get_field, without_hmac,
  verify_entry_integrity, sign, make_entry, reason_field, judge,
}

abbrev pub hmac_field : Value → Entry
hmac_field v = (codes "hmac", v) ∷ []

get_field-hmac :
    (e : Entry) (v : Value)
    → get_field (codes "hmac") e ≡ none
    → get_field (codes "hmac") (e ++ hmac_field v) ≡ some v
unfolding get_field
get_field-hmac [] v h = rw (text_eq_refl (codes "hmac"))
get_field-hmac ((k, w) ∷ e) v h = ground (arith, get_field-hmac e v)

without_hmac_absent : (e : Entry) → get_field (codes "hmac") e ≡ none → without_hmac e ≡ e
unfolding get_field without_hmac
without_hmac_absent [] h = refl
without_hmac_absent ((k, w) ∷ e) h = ground (arith, without_hmac_absent e)

without_hmac-hmac :
    (e : Entry) (v : Value)
    → get_field (codes "hmac") e ≡ none
    → without_hmac (e ++ hmac_field v) ≡ e
unfolding get_field without_hmac
without_hmac-hmac [] v h = rw (text_eq_refl (codes "hmac"))
without_hmac-hmac ((k, w) ∷ e) v h = ground (arith, without_hmac-hmac e v)

reason_field_unsigned :
    (config : Config) (reason : Option Text)
    → get_field (codes "hmac") (reason_field config reason) ≡ none
unfolding get_field text_eq codes
reason_field_unsigned config none = refl
reason_field_unsigned config (some r) = refl

make_entry_unsigned :
    (config : Config) (call : Call) → get_field (codes "hmac") (make_entry config call) ≡ none
unfolding make_entry get_field text_eq codes
make_entry_unsigned config call = reason_field_unsigned config call.reason

-- What compare_digest() accepts as the stored value.
abbrev pub is_comparable : Option Value → Bool
is_comparable none = true
is_comparable (some (Value.str t)) = all (λ c. ltb c 128) t
is_comparable (some _) = false

module _ (digest : Text → Entry → Text) where
  -- A digest is hexadecimal, so ASCII.
  abbrev pub IsAscii : Type 0
  IsAscii = (key : Text) (e : Entry) → all (λ c. ltb c 128) (digest key e) ≡ true

  verify_signed :
      (key : Text) (e : Entry) (stored : Text)
      → is_empty key ≡ false
      → all (λ c. ltb c 128) stored ≡ true
      → get_field (codes "hmac") e ≡ some (Value.str stored)
      → verify_entry_integrity digest key e
        ≡ ok (judge (text_eq stored (digest key (without_hmac e))))
  unfolding verify_entry_integrity
  verify_signed key e stored k a h = rw (h, k, a)

  sign_nonempty :
      (key : Text) (e : Entry)
      → is_empty key ≡ false
      → sign digest key e ≡ e ++ hmac_field (Value.str (digest key e))
  unfolding sign
  sign_nonempty key e k = rw (k)

  -- With a digest in ASCII and a signing key: any fields without an `hmac`, followed by the
  -- signature of a record, check as verified exactly where their digest is the one of that record,
  -- and as tampered otherwise.
  pub changed_verdict :
      (ascii : IsAscii) (key : Text) (e changed : Entry)
      → is_empty key ≡ false
      → get_field (codes "hmac") changed ≡ none
      → verify_entry_integrity digest key (changed ++ hmac_field (Value.str (digest key e)))
        ≡ ok (judge (text_eq (digest key e) (digest key changed)))
  changed_verdict ascii key e changed k h =
      verify_signed key (changed ++ hmac_field (Value.str (digest key e))) (digest key e) k
        (ascii key e) (get_field-hmac changed (Value.str (digest key e)) h)
      ∙ ap (λ r. ok (judge (text_eq (digest key e) (digest key r))))
          (without_hmac-hmac changed (Value.str (digest key e)) h)

  verify_fresh :
      (ascii : IsAscii) (key : Text) (e : Entry) (fresh : get_field (codes "hmac") e ≡ none)
      (b : Bool)
      → is_empty key ≡ b
      → verify_entry_integrity digest key (sign digest key e)
        ≡ ok (if b then Integrity.unsigned else Integrity.verified)
  unfolding verify_entry_integrity sign
  verify_fresh ascii key e fresh true k = rw (k, fresh)
  verify_fresh ascii key e fresh false k = rw (
    k,
    get_field-hmac e (Value.str (digest key e)) fresh,
    k,
    ascii key e,
    without_hmac-hmac e (Value.str (digest key e)) fresh,
    text_eq_refl (digest key e),
  )

  -- With a digest in ASCII, the record that a call appends checks as unsigned where the signing key
  -- is empty, and as verified under the same key otherwise.
  pub audit_entry-verified :
      (ascii : IsAscii) (key : Text) (config : Config) (call : Call)
      → verify_entry_integrity digest key (audit_entry digest key config call)
        ≡ ok (if is_empty key then Integrity.unsigned else Integrity.verified)
  unfolding audit_entry
  audit_entry-verified ascii key config call =
      verify_fresh ascii key (make_entry config call) (make_entry_unsigned config call)
        (is_empty key) refl

  stored_succeeds :
      (key : Text) (e : Entry) (stored : Option Value)
      → succeeds (verify_stored digest key e stored) ≡ (is_empty key || is_comparable stored)
  stored_succeeds key e none = ground arith
  stored_succeeds key e (some (Value.str t)) = ground arith
  stored_succeeds key e (some (Value.scalar t)) = ground arith
  stored_succeeds key e (some (Value.dict t)) = ground arith
  stored_succeeds key e (some (Value.list t)) = ground arith
  stored_succeeds key e (some (Value.tuple t)) = ground arith

  -- Checking a record gives a verdict exactly where the signing key is empty, or the record has no
  -- `hmac`, or its `hmac` is a string of ASCII characters; otherwise it raises.
  pub succeeds-verify_entry_integrity :
      (key : Text) (e : Entry)
      → succeeds (verify_entry_integrity digest key e)
        ≡ (is_empty key || is_comparable (get_field (codes "hmac") e))
  unfolding verify_entry_integrity
  succeeds-verify_entry_integrity key e = stored_succeeds key e (get_field (codes "hmac") e)
