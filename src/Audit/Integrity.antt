-- ===== src/Audit/Integrity.antt =====
-- The audit record, _compute_hmac(), verify_entry_integrity(), verify_entry_hmac() and the record
-- that write_audit_entry() appends, of src/githost_mcp/audit.py. HMAC-SHA256 of a record's
-- canonical JSON is the parameter `digest`.
pub mod Laws
use githost_mcp.Base.{
  ltb, all, ◌++◌, some, none, is_empty, [], ◌∷◌, true, if◌then◌else◌, false, Option, List, Text,
  Bool, codes, text_eq,
}
use githost_mcp.Config.System.{Config}
use githost_mcp.Errors.{Result, ok, err, ◌>>=◌, ExcType, Fault}
use githost_mcp.Security.Masking.{scrub}
use githost_mcp.Audit.Values.{Value, Fields, config_tokens, scrub_text, truncate, safe_params}

abbrev pub Entry : Type 0
Entry = List (Text × Value)

pub data Integrity : Type 0 where
  verified tampered unsigned unverifiable : Integrity

unfoldable pub get_field : Text → Entry → Option Value
get_field k [] = none
get_field k ((j, v) ∷ e) = if text_eq j k then some v else get_field k e

-- `{k: v for k, v in entry.items() if k != "hmac"}`
unfoldable pub without_hmac : Entry → Entry
without_hmac [] = []
without_hmac ((k, v) ∷ e) =
    let rest = without_hmac e in if text_eq k (codes "hmac") then rest else (k, v) ∷ rest

-- `compare_digest(stored, expected)`: TypeError where the stored value is no string, or one that
-- is not ASCII.
abbrev pub compare_digest : Value → Text → Result Bool
compare_digest (Value.str stored) expected =
    if all (λ c. ltb c 128) stored
    then ok (text_eq stored expected)
    else err ExcType.exception (Fault.raised stored)
compare_digest _ expected = err ExcType.exception (Fault.raised [])

abbrev pub judge : Bool → Integrity
judge true = Integrity.verified
judge false = Integrity.tampered

module _ (digest : Text → Entry → Text) where
  abbrev pub verify_stored : Text → Entry → Option Value → Result Integrity
  verify_stored key entry none = ok Integrity.unsigned
  verify_stored key entry (some stored) =
      if is_empty key
      then ok Integrity.unverifiable
      else (compare_digest stored (digest key (without_hmac entry)) >>= λ same. ok (judge same))

  unfoldable pub verify_entry_integrity : Text → Entry → Result Integrity
  verify_entry_integrity key entry = verify_stored key entry (get_field (codes "hmac") entry)

  abbrev pub is_verified : Integrity → Bool
  is_verified Integrity.verified = true
  is_verified _ = false

  unfoldable pub verify_entry_hmac : Text → Entry → Result Bool
  verify_entry_hmac key entry = verify_entry_integrity key entry >>= λ i. ok (is_verified i)

  -- `if _signing_key: entry["hmac"] = _compute_hmac(entry)`, on a record without that key.
  unfoldable pub sign : Text → Entry → Entry
  sign key entry =
      if is_empty key then entry else entry ++ ((codes "hmac", Value.str (digest key entry)) ∷ [])

-- What a call hands to write_audit_entry(), with the time and the agent that it adds.
pub record Call : Type 0 where
  pub ts : Text
  pub agent_id : Text
  pub tool : Text
  pub provider : Text
  pub repo : Text
  pub params : Fields
  pub result : Text
  pub duration_ms : Text
  pub reason : Option Text

abbrev pub reason_field : Config → Option Text → Entry
reason_field config none = []
reason_field config (some r) =
    (codes "reason", Value.str (truncate (scrub config (scrub_text (config_tokens config) r)))) ∷ []

unfoldable pub make_entry : Config → Call → Entry
make_entry config call =
    let tokens = config_tokens config in
    (codes "ts", Value.str call.ts)
    ∷ (codes "agent_id", Value.str call.agent_id)
    ∷ (codes "tool", Value.str call.tool)
    ∷ (codes "provider", Value.str call.provider)
    ∷ (codes "repo", Value.str (truncate (scrub_text tokens call.repo)))
    ∷ (codes "params", Value.dict (safe_params config call.params))
    ∷ (codes "result", Value.str (scrub_text tokens call.result))
    ∷ (codes "duration_ms", Value.scalar call.duration_ms)
    ∷ reason_field config call.reason

-- The record that is appended.
unfoldable pub audit_entry : (Text → Entry → Text) → Text → Config → Call → Entry
audit_entry digest key config call = sign digest key (make_entry config call)
