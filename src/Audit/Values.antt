-- ===== src/Audit/Values.antt =====
-- _config_tokens(), _truncate(), _truncate_deep(), _scrub_value() and bound_rejected_value() of
-- src/githost_mcp/audit.py.
pub mod Laws
use githost_mcp.Base.{
  none, true, some, [], ◌∷◌, ◌++◌, keep_if, false, ℕ, if◌then◌else◌, Option, List, Text, Bool,
  codes, replace, decimal, take, length, ltb, leb,
}
use githost_mcp.Config.System.{Config}
use githost_mcp.Security.Masking.{stars, secrets, scrub}

abbrev pub max_audit_field_chars : ℕ
max_audit_field_chars = 2048

abbrev pub max_rejected_value_chars : ℕ
max_rejected_value_chars = 64

-- What is logged: JSON-like data. A tuple is treated as a list is, and comes back a tuple.
mutual
  pub data Value : Type 0 where
    str : Text → Value
    -- null, a bool or a number, which no pass changes
    scalar : Text → Value
    dict : Fields → Value
    list tuple : Values → Value

  pub data Values : Type 0 where
    nil : Values
    item : Value → Values → Values

  pub data Fields : Type 0 where
    end : Fields
    field : Text → Value → Fields → Fields

unfoldable pub config_tokens : Config → List Text
config_tokens config = keep_if (λ t. ltb 4 (length t)) (secrets config)

-- `f"…[truncated, {n} chars]"`
unfoldable pub truncation_note : ℕ → Text
truncation_note n = (0x2026 ∷ codes "[truncated, ") ++ (decimal n ++ codes " chars]")

unfoldable pub truncate : Text → Text
truncate text =
    if leb (length text) max_audit_field_chars
    then text
    else take max_audit_field_chars text ++ truncation_note (length text)

-- The loop over the tokens on one string.
unfoldable pub scrub_text : List Text → Text → Text
scrub_text [] text = text
scrub_text (tok ∷ tokens) text = scrub_text tokens (replace tok stars text)

-- A pass over every string of a nested structure; the keys stay.
unfoldable mutual
  pub map_value : (Text → Text) → Value → Value
  map_value f (Value.str t) = Value.str (f t)
  map_value f (Value.scalar t) = Value.scalar t
  map_value f (Value.dict fs) = Value.dict (map_fields f fs)
  map_value f (Value.list vs) = Value.list (map_values f vs)
  map_value f (Value.tuple vs) = Value.tuple (map_values f vs)

  pub map_values : (Text → Text) → Values → Values
  map_values f Values.nil = Values.nil
  map_values f (Values.item v vs) = Values.item (map_value f v) (map_values f vs)

  pub map_fields : (Text → Text) → Fields → Fields
  map_fields f Fields.end = Fields.end
  map_fields f (Fields.field k v fs) = Fields.field k (map_value f v) (map_fields f fs)

unfoldable pub truncate_deep : Value → Value
truncate_deep = map_value truncate

unfoldable pub scrub_value : List Text → Value → Value
scrub_value tokens = map_value (scrub_text tokens)

-- `{k: _truncate_deep(_scrub_value(v, tokens)) for k, v in params.items()}`
unfoldable pub safe_params : Config → Fields → Fields
safe_params config params =
    map_fields truncate (map_fields (scrub_text (config_tokens config)) params)

-- The text that is shown of a rejected value, and whether it was cut.
unfoldable pub bound_rejected_value : Config → Option Text → Option Text × Bool
bound_rejected_value config none = (none, false)
bound_rejected_value config (some value) =
    let text = scrub config value in
    if leb (length text) max_rejected_value_chars
    then (some text, false)
    else (some (take max_rejected_value_chars text), true)
