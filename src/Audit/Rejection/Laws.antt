-- ===== src/Audit/Rejection/Laws.antt =====
-- What a rejection leaves in the log and in the metrics.
use githost_mcp.Base.{
  if◌then◌else◌, false, ◌++◌, refl, codes, Bool, text_eq, starts_with, List, some, true, ◌≡◌,
  text_mem, Option, Text,
}
use githost_mcp.Config.System.{Config}
use githost_mcp.Errors.Classify.{denied_prefix, reason_classes}
use githost_mcp.Errors.Classify.Laws.{classify_reason-denied}
use githost_mcp.Audit.Integrity.{Entry}
use githost_mcp.Audit.Rejection.{is_missing, Ctx, finish, audit_rejection, reject_enum}

denied-ok : (c : Text) → starts_with (denied_prefix ++ c) (codes "ok") ≡ false
unfolding starts_with codes
denied-ok c = refl

invalid_class : text_mem (codes "invalid_argument") reason_classes ≡ true
unfolding text_mem text_eq codes reason_classes
invalid_class = refl

missing_class : text_mem (codes "missing_argument") reason_classes ≡ true
unfolding text_mem text_eq codes reason_classes
missing_class = refl

module _ (digest : Text → Entry → Text) (key : Text) (config : Config) where
  -- A rejection whose class is in the vocabulary is counted under exactly that class, and its
  -- caller gets the message unchanged.
  pub audit_rejection-class :
      (ctx : Ctx) (c msg : Text) (argument value : Option Text)
      → text_mem c reason_classes ≡ true
      → ((audit_rejection digest key config ctx c msg argument value).0.event.reason_class ≡ some c)
        × ((audit_rejection digest key config ctx c msg argument value).1 ≡ msg)
  unfolding audit_rejection finish
  audit_rejection-class ctx c msg argument value h =
      (rw (denied-ok c, classify_reason-denied c h), refl)

  enum_class :
      (repr : Text → Text) (ctx : Ctx) (argument : Text) (value : Option Text) (valid : List Text)
      (hint : Option Text) (b : Bool)
      → is_missing value ≡ b
      → (reject_enum digest key config repr ctx argument value valid hint).0.event.reason_class
        ≡ some (if b then codes "missing_argument" else codes "invalid_argument")
  unfolding reject_enum
  enum_class repr ctx argument value valid hint true h =
      rw (h)
        (audit_rejection-class ctx (codes "missing_argument") _ (some argument) value
          missing_class).0
  enum_class repr ctx argument value valid hint false h =
      rw (h)
        (audit_rejection-class ctx (codes "invalid_argument") _ (some argument) value
          invalid_class).0

  -- A refused enumeration argument is counted as missing_argument where the value is absent or
  -- empty, and as invalid_argument otherwise.
  pub reject_enum-class :
      (repr : Text → Text) (ctx : Ctx) (argument : Text) (value : Option Text) (valid : List Text)
      (hint : Option Text)
      → (reject_enum digest key config repr ctx argument value valid hint).0.event.reason_class
        ≡ some (if is_missing value then codes "missing_argument" else codes "invalid_argument")
  reject_enum-class repr ctx argument value valid hint =
      enum_class repr ctx argument value valid hint (is_missing value) refl
