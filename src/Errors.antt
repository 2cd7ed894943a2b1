-- ===== src/Errors.antt =====
-- src/githost_mcp/errors.py: the rejection taxonomy and the closed `reason_class` vocabulary.
-- An exception is its class with a `Fault`, which names the raise site and holds the values that
-- its message shows. The wording of a message is not modelled.
pub mod Classify
use githost_mcp.Base.{
  refl, arith, ◌≡◌, ℕ, Text, codes, Bool, true, false, Option, none, some, List, [], ◌∷◌, map, ◌==◌,
  any,
}

-- The exception classes that the modules raise or catch.
pub data ExcType : Type 0 where
  write_glob_denied remote_url_rejected remote_name_invalid branch_name_invalid : ExcType
  path_not_allowed no_such_remote repo_not_found repo_format_invalid invalid_argument : ExcType
  missing_argument protected_branch not_owned already_exists : ExcType
  identity_undetermined value_error git_command_error exception : ExcType

-- A number for each class, by which classes are compared.
abbrev pub class_id : ExcType → ℕ
class_id ExcType.write_glob_denied = 0
class_id ExcType.remote_url_rejected = 1
class_id ExcType.remote_name_invalid = 2
class_id ExcType.branch_name_invalid = 3
class_id ExcType.path_not_allowed = 4
class_id ExcType.no_such_remote = 5
class_id ExcType.repo_not_found = 6
class_id ExcType.repo_format_invalid = 7
class_id ExcType.invalid_argument = 8
class_id ExcType.missing_argument = 9
class_id ExcType.protected_branch = 10
class_id ExcType.not_owned = 11
class_id ExcType.already_exists = 12
class_id ExcType.identity_undetermined = 13
class_id ExcType.value_error = 14
class_id ExcType.exception = 15
class_id ExcType.git_command_error = 16

-- The class and its bases: every class of the taxonomy is a direct subclass of ValueError, and
-- GitPython's GitCommandError is none.
abbrev pub mro : ExcType → List ExcType
mro ExcType.exception = ExcType.exception ∷ []
mro ExcType.git_command_error = ExcType.git_command_error ∷ ExcType.exception ∷ []
mro ExcType.value_error = ExcType.value_error ∷ ExcType.exception ∷ []
mro t = t ∷ ExcType.value_error ∷ ExcType.exception ∷ []

-- `isinstance(exc, t)` for an exception of class `e`.
abbrev pub is_instance : ExcType → ExcType → Bool
is_instance e t = any (λ b. class_id b == class_id t) (mro e)

-- The raise sites of security.py, identity.py, bootstrap.py, config.py and git_local.py.
pub data Fault : Type 0 where
  -- security.py
  bad_repo_path globs_not_enforced no_roots outside_roots : Fault
  paths_denied : List Text → Fault
  name_missing leading_dash bad_characters : Fault
  splits_refspec whitespace control_character dots_or_at_brace bad_ending bad_slashes : Fault
  forbidden_character : ℕ → Fault
  unsupported_scheme userinfo_on_http password_in_userinfo unsupported_form : Fault
  -- identity.py
  unparsed_remote : Fault
  unparsed_remote_named : Text → Fault
  no_public_identity agent_like_identity : Fault
  -- bootstrap.py
  argument_missing git_suffix bad_segment bad_depth description_breaks_line : Fault
  description_too_long : ℕ → Fault
  owner_not_ours no_gitea_host not_an_organization : Fault
  -- config.py
  not_an_integer : Fault
  -- tools/git_local.py
  unknown_identity unknown_action no_such_remote no_local_branch protected : Text → Fault
  repo_not_found occupied : Text → Fault
  branch_required base_required remote_exists not_registered default_unknown : Fault
  bad_worktree_name no_whole_ref bad_sha_length : Fault
  -- what other code raised
  raised : Text → Fault

-- What a call of fallible code gives.
pub data Result {ℓ} (A : Type ℓ) : Type ℓ where
  ok : A → Result A
  err : ExcType → Fault → Result A

infixl 5 ◌>>=◌ ◌>>◌
abbrev pub ◌>>=◌ {ℓ κ} : {A : Type ℓ} {B : Type κ} → Result A → (A → Result B) → Result B
ok value >>= next = next value
err t m >>= next = err t m

abbrev pub ◌>>◌ {ℓ} : {B : Type ℓ} → Result (Unit {0}) → Result B → Result B
check >> rest = check >>= λ _. rest

-- `if test: raise t(m)`
abbrev pub raise_if : Bool → ExcType → Fault → Result (Unit {0})
raise_if true t m = err t m
raise_if false t m = ok tt

abbrev pub succeeds {ℓ} : {A : Type ℓ} → Result A → Bool
succeeds (ok a) = true
succeeds (err t m) = false

-- Inversion of a successful bind.
pub >>=-eq-ok {ℓ κ} :
    {A : Type ℓ} {B : Type κ} (first : Result A) (next : A → Result B) {out : B}
    → (first >>= next) ≡ ok out
    → (mid : A) × (first ≡ ok mid) × (next mid ≡ ok out)
>>=-eq-ok (ok mid) next passed = (mid, refl, passed)
>>=-eq-ok (err t m) next passed = cc

pub ok-injective {ℓ} : {A : Type ℓ} {a b : A} → ok a ≡ ok b → a ≡ b
ok-injective {a} {b} h = ground arith

-- What fails at its end fails behind any guard.
pub succeeds-guarded {ℓ} :
    {A : Type ℓ} (b : Bool) (t : ExcType) (f : Fault) (m : Result A)
    → succeeds m ≡ false
    → succeeds (raise_if b t f >> m) ≡ false
succeeds-guarded true t f m h = refl
succeeds-guarded false t f m h = h

-- A guard that was passed was false, and what follows it succeeded.
pub raise_if-eq-ok {ℓ} :
    {A : Type ℓ} (b : Bool) (t : ExcType) (f : Fault) (m : Result A) {a : A}
    → (raise_if b t f >> m) ≡ ok a
    → (b ≡ false) × (m ≡ ok a)
raise_if-eq-ok true t f m h = absurd (ground arith)
raise_if-eq-ok false t f m h = (refl, h)

pub raise_if-ok : (b : Bool) (t : ExcType) (f : Fault) → raise_if b t f ≡ ok tt → b ≡ false
raise_if-ok true t f h = absurd (ground arith)
raise_if-ok false t f h = refl

pub failed-bind {ℓ κ} :
    {A : Type ℓ} {B : Type κ} (m : Result A) (f : A → Result B)
    → succeeds m ≡ false
    → succeeds (m >>= f) ≡ false
failed-bind (ok a) f h = absurd (ground arith)
failed-bind (err t m) f h = refl

-- A total continuation neither makes a call fail nor saves it.
pub succeeds-mapped {ℓ κ} :
    {A : Type ℓ} {B : Type κ} (m : Result A) (g : A → B)
    → succeeds (m >>= λ a. ok (g a)) ≡ succeeds m
succeeds-mapped (ok a) g = refl
succeeds-mapped (err t m) g = refl
