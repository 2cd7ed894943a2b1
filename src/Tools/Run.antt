-- ===== src/Tools/Run.antt =====
-- A tool's steps: a function of the calls so far that gives a value or raises, with the calls after.
use githost_mcp.Base.{
  text_eq, if◌then◌else◌, not, [], none, false, ◌++◌, true, some, ◌∷◌, codes, Text, Option, List,
  Bool,
}
use githost_mcp.Errors.{Result, ok, err, ExcType, Fault}
use githost_mcp.Audit.Values.{Values, Value, Fields}
use githost_mcp.Audit.Rejection.{Reason, rejection_params, enum_class_of, enum_message}
use githost_mcp.Errors.Classify.{denied_prefix}
use githost_mcp.Security.Masking.{scrub}
use githost_mcp.Security.Paths.{validate_write_path, validate_read_path}
use githost_mcp.Tools.Host.{Call, History, Host}

abbrev pub Run : Type 0 → Type 0
Run A = History → Result A × History

unfoldable pub pure : {A : Type 0} → A → Run A
pure a h = (ok a, h)

unfoldable pub raise : {A : Type 0} → ExcType → Fault → Run A
raise t f h = (err t f, h)

abbrev pub continue_with : {A B : Type 0} → (A → Run B) → Result A → History → Result B × History
continue_with f (ok a) h = f a h
continue_with f (err t e) h = (err t e, h)

infixl 5 ◌>>=◌ ◌>>◌
unfoldable pub ◌>>=◌ : {A B : Type 0} → Run A → (A → Run B) → Run B
◌>>=◌ m f h = let (r, after) = m h in continue_with f r after

abbrev pub ◌>>◌ : {B : Type 0} → Run (Unit {0}) → Run B → Run B
m >> rest = m >>= λ _. rest

-- A value or a raise of code that makes no call.
unfoldable pub lift : {A : Type 0} → Result A → Run A
lift r h = (r, h)

abbrev pub handle : {A : Type 0} → (ExcType → Fault → Run A) → Result A → Run A
handle handler (ok a) h = (ok a, h)
handle handler (err t f) h = handler t f h

-- `try: m` with `except Exception as e: handler(e)`.
unfoldable pub attempt : {A : Type 0} → Run A → (ExcType → Fault → Run A) → Run A
attempt m handler h = let (r, after) = m h in handle handler r after

abbrev pub branch_on : {A B : Type 0} → (A → Run B) → (ExcType → Fault → Run B) → Result A → Run B
branch_on next handler (ok a) h = next a h
branch_on next handler (err t f) h = handler t f h

-- `try: a = m` with a handler that returns, and what follows, which the handler does not cover.
unfoldable pub attempt_then :
    {A B : Type 0} → Run A → (A → Run B) → (ExcType → Fault → Run B) → Run B
attempt_then m next handler h = let (r, after) = m h in branch_on next handler r after

-- `if test: raise t(f)`
unfoldable pub raise_when : Bool → ExcType → Fault → Run (Unit {0})
raise_when true t f = raise t f
raise_when false t f = pure tt

-- One call with its answer.
unfoldable pub ask : {A : Type 0} → (History → Call → Result A) → Call → Run A
ask answer c h = (answer h c, c ∷ h)

-- `type(e).__name__`
abbrev pub class_name : (Fault → Text) → ExcType → Fault → Text
class_name other ExcType.write_glob_denied f = codes "WriteGlobDenied"
class_name other ExcType.remote_url_rejected f = codes "RemoteUrlRejected"
class_name other ExcType.remote_name_invalid f = codes "RemoteNameInvalid"
class_name other ExcType.branch_name_invalid f = codes "BranchNameInvalid"
class_name other ExcType.path_not_allowed f = codes "PathNotAllowed"
class_name other ExcType.no_such_remote f = codes "NoSuchRemote"
class_name other ExcType.repo_not_found f = codes "RepoNotFound"
class_name other ExcType.repo_format_invalid f = codes "RepoFormatInvalid"
class_name other ExcType.invalid_argument f = codes "InvalidArgument"
class_name other ExcType.missing_argument f = codes "MissingArgument"
class_name other ExcType.protected_branch f = codes "ProtectedBranch"
class_name other ExcType.not_owned f = codes "NotOwned"
class_name other ExcType.already_exists f = codes "AlreadyExists"
class_name other ExcType.identity_undetermined f = codes "IdentityUndetermined"
class_name other ExcType.value_error f = codes "ValueError"
class_name other ExcType.git_command_error f = codes "GitCommandError"
class_name other ExcType.exception f = other f

-- Dictionaries and their values.
abbrev pub text_value : Text → Value
text_value = Value.str

abbrev pub bool_value : Bool → Value
bool_value true = Value.scalar (codes "true")
bool_value false = Value.scalar (codes "false")

abbrev pub null_value : Value
null_value = Value.scalar (codes "null")

abbrev pub maybe_value : Option Text → Value
maybe_value none = null_value
maybe_value (some t) = Value.str t

abbrev pub values_of : List Text → Values
values_of [] = Values.nil
values_of (t ∷ ts) = Values.item (Value.str t) (values_of ts)

abbrev pub texts_value : List Text → Value
texts_value ts = Value.list (values_of ts)

abbrev pub map_result : {A B : Type 0} → (A → B) → Result A → Result B
map_result f (ok a) = ok (f a)
map_result f (err t e) = err t e

-- An `and` or conditional expression whose second part is a call.
unfoldable pub when : {A : Type 0} → Bool → Run A → A → Run A
when true m a = m
when false m a = pure a

-- `fields.get(key)`
unfoldable pub lookup : Text → Fields → Option Value
lookup key Fields.end = none
lookup key (Fields.field k v fs) =
    let rest = lookup key fs in if text_eq key k then some v else rest

-- The attributes of an AuditCtx.
pub record Ctx : Type 0 where
  pub tool : Text
  pub provider : Text
  pub repo : Text
  pub params : Fields

module _ (host : Host) where
  abbrev pub scrubbed : Text → Text
  scrubbed = scrub host.config

  -- `{"error": text}`
  abbrev pub error_response : Text → Fields
  error_response t = Fields.field (codes "error") (Value.str t) Fields.end

  unfoldable pub finish : Ctx → Text → Reason → Run (Unit {0})
  finish ctx result reason h =
      (ok tt, Call.audit ctx.tool ctx.provider ctx.repo ctx.params result reason ∷ h)

  -- `ac.finish(result, e)`, then `return {"error": scrub(str(e))}`.
  unfoldable pub refuse : Ctx → Text → ExcType → Fault → Run Fields
  refuse ctx result t f = do
    finish ctx result (Reason.exception t (host.message t f))
    pure (error_response (scrubbed (host.message t f)))

  -- `except Exception as e` of every tool.
  unfoldable pub fail : Ctx → ExcType → Fault → Run Fields
  fail ctx t f = refuse ctx (codes "error:" ++ class_name host.other_name t f) t f

  -- The text of the path that validation returned.
  unfoldable pub write_path : Text → Run Text
  write_path p = lift (map_result host.path_text (validate_write_path host.resolve host.config p))

  unfoldable pub read_path : Text → Run Text
  read_path p = lift (map_result host.path_text (validate_read_path host.resolve host.config p))

  abbrev pub opened : Text → Bool → Run (Unit {0})
  opened path found = raise_when (not found) ExcType.repo_not_found (Fault.repo_not_found path)

  -- _open_repo() of git_local.py.
  unfoldable pub open_repo : Text → Run (Unit {0})
  open_repo path = ask host.flag (Call.open_repo path) >>= opened path

  -- audit_rejection() and reject_enum() of audit.py, as calls.
  unfoldable pub reject : Text → Text → Text → Text → Text → Text → Option Text → Run Fields
  reject tool provider repo reason_class msg argument value = do
    finish
        (record {
          tool = tool;
          provider = provider;
          repo = repo;
          params = rejection_params host.config repo (some argument) value;
        })
        (denied_prefix ++ reason_class) (Reason.message msg)
    pure (error_response msg)

  unfoldable pub reject_choice : Text → Text → Text → Text → Text → List Text → Run Fields
  reject_choice tool provider repo argument value valid =
      reject tool provider repo (enum_class_of (some value))
        (enum_message host.config host.repr argument (some value) valid none) argument (some value)
