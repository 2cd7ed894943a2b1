-- ===== src/Audit/Rejection.antt =====
-- AuditCtx.finish(), audit_rejection() and reject_enum() of src/githost_mcp/audit.py: what a call
-- appends to the log and what it emits to the metrics.
pub mod Laws
use githost_mcp.Base.{
  sort_texts, text_le, rstrip_char, or_default, is_empty, [], ◌∷◌, ◌++◌, starts_with, some, none,
  false, before_char, true, reverse, if◌then◌else◌, Option, List, Text, Bool, codes, join,
  after_char,
}
use githost_mcp.Config.System.{Config}
use githost_mcp.Errors.{ExcType}
use githost_mcp.Errors.Classify.{classify_reason, denied_prefix}
use githost_mcp.Audit.Values.{Value, Fields, bound_rejected_value}
use githost_mcp.Audit.Integrity.{Entry, Call, audit_entry}

-- The attributes of an AuditCtx, with the time and the agent of the record that it will write.
pub record Ctx : Type 0 where
  pub ts : Text
  pub agent_id : Text
  pub tool : Text
  pub provider : Text
  pub repo : Text
  pub params : Fields
  pub duration_ms : Text

-- The arguments of emit_tool_event_sync().
pub record ToolEvent : Type 0 where
  pub tool : Text
  pub provider : Text
  pub repo : Text
  pub result : Text
  pub duration_ms : Text
  pub reason_class : Option Text

pub record Recorded : Type 0 where
  pub entry : Entry
  pub event : ToolEvent

-- `reason`: nothing, a message, or an exception with its message.
pub data Reason : Type 0 where
  no_reason : Reason
  message : Text → Reason
  exception : ExcType → Text → Reason

abbrev pub reason_text : Reason → Option Text
reason_text Reason.no_reason = none
reason_text (Reason.message m) = some m
reason_text (Reason.exception t m) = some m

abbrev pub reason_type : Reason → Option ExcType
reason_type (Reason.exception t m) = some t
reason_type _ = none

-- `os.path.basename(repo.rstrip("/")) if repo else ""`
unfoldable pub basename : Text → Text
basename path = reverse (before_char b'/' (reverse (rstrip_char b'/' path)))

-- The parameters of a rejection's record: the argument and what was shown of its value.
abbrev pub shown_value : Option Text → Value
shown_value none = Value.scalar (codes "null")
shown_value (some t) = Value.str t

abbrev pub cut_mark : Bool → Fields
cut_mark true =
    Fields.field (codes "rejected_value_truncated") (Value.scalar (codes "true")) Fields.end
cut_mark false = Fields.end

-- `value is None or value == ""`
abbrev pub is_missing : Option Text → Bool
is_missing none = true
is_missing (some t) = is_empty t

abbrev pub with_hint : Option Text → Text → Text
with_hint none msg = msg
with_hint (some []) msg = msg
with_hint (some (c ∷ hint)) msg = msg ++ (codes ". " ++ (c ∷ hint))

abbrev pub argument_fields : Config → Option Text → Option Text → Fields
argument_fields config none value = Fields.end
argument_fields config (some argument) value =
    let (shown, cut) = bound_rejected_value config value in
    Fields.field (codes "argument") (Value.str argument)
      (Fields.field (codes "rejected_value") (shown_value shown) (cut_mark cut))

-- The params of a rejection's record.
abbrev pub rejection_params : Config → Text → Option Text → Option Text → Fields
rejection_params config repo argument value =
    Fields.field (codes "repo") (Value.str repo) (argument_fields config argument value)

-- reject_enum()'s class and message; `repr` is Python's repr() of a string.
abbrev pub enum_class_of : Option Text → Text
enum_class_of value =
    if is_missing value then codes "missing_argument" else codes "invalid_argument"

unfoldable pub enum_message :
    Config → (repr : Text → Text) → Text → Option Text → List Text → Option Text → Text
enum_message config repr argument value valid hint =
    let options = join (codes ", ") (sort_texts valid) in
    let (shown, cut) = bound_rejected_value config value in
    let missing = argument ++ (codes " is required; must be one of: " ++ options) in
    let invalid =
      argument
      ++ (codes " "
          ++ (repr (or_default shown [])
              ++ ((if cut then 0x2026 ∷ [] else [])
                  ++ (codes " is not valid; must be one of: " ++ options)))) in
    with_hint hint (if is_missing value then missing else invalid)

module _ (digest : Text → Entry → Text) (key : Text) (config : Config) where
  unfoldable pub finish : Ctx → Text → Reason → Recorded
  finish ctx result reason = record {
    entry = audit_entry digest key config (record {
      ts = ctx.ts;
      agent_id = ctx.agent_id;
      tool = ctx.tool;
      provider = ctx.provider;
      repo = ctx.repo;
      params = ctx.params;
      result = result;
      duration_ms = ctx.duration_ms;
      reason = reason_text reason;
    });
    event = record {
      tool = ctx.tool;
      provider = ctx.provider;
      repo = basename ctx.repo;
      result = result;
      duration_ms = ctx.duration_ms;
      reason_class =
          if starts_with result (codes "ok")
          then none
          else some (classify_reason result (reason_type reason));
    };
  }

  -- The record, and the message of the error that the caller gets.
  unfoldable pub audit_rejection : Ctx → Text → Text → Option Text → Option Text → Recorded × Text
  audit_rejection ctx reason_class msg argument value =
      let rejected : Ctx = record ctx {
        params = rejection_params config ctx.repo argument value;
      } in
      (finish rejected (denied_prefix ++ reason_class) (Reason.message msg), msg)

  unfoldable pub reject_enum :
      (repr : Text → Text) → Ctx → Text → Option Text → List Text → Option Text → Recorded × Text
  reject_enum repr ctx argument value valid hint =
      audit_rejection ctx (enum_class_of value) (enum_message config repr argument value valid hint)
        (some argument) value
