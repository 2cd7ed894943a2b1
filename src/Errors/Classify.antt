-- ===== src/Errors/Classify.antt =====
-- REASON_CLASSES, _BY_TYPE, _BY_RESULT and classify_reason() of src/githost_mcp/errors.py.
pub mod Laws
use githost_mcp.Base.{
  Text, codes, Bool, ◌&&◌, Option, none, some, List, [], ◌∷◌, text_mem, text_eq, starts_with, drop,
  length, if◌then◌else◌, or_default,
}
use githost_mcp.Errors.{ExcType, is_instance}

unfoldable pub reason_classes : List Text
reason_classes =
    codes "not_in_allowed_roots"
    ∷ codes "write_glob_denied"
    ∷ codes "bad_repo_format"
    ∷ codes "no_such_remote"
    ∷ codes "branch_invalid"
    ∷ codes "push_rejected"
    ∷ codes "fetch_rejected"
    ∷ codes "remote_url_rejected"
    ∷ codes "remote_name_invalid"
    ∷ codes "identity_undetermined"
    ∷ codes "repo_not_found"
    ∷ codes "invalid_argument"
    ∷ codes "missing_argument"
    ∷ codes "protected_branch"
    ∷ codes "not_owned"
    ∷ codes "already_exists"
    ∷ codes "other"
    ∷ []

unfoldable pub by_type : List (ExcType × Text)
by_type =
    (ExcType.write_glob_denied, codes "write_glob_denied")
    ∷ (ExcType.remote_url_rejected, codes "remote_url_rejected")
    ∷ (ExcType.remote_name_invalid, codes "remote_name_invalid")
    ∷ (ExcType.branch_name_invalid, codes "branch_invalid")
    ∷ (ExcType.path_not_allowed, codes "not_in_allowed_roots")
    ∷ (ExcType.no_such_remote, codes "no_such_remote")
    ∷ (ExcType.repo_not_found, codes "repo_not_found")
    ∷ (ExcType.repo_format_invalid, codes "bad_repo_format")
    ∷ (ExcType.invalid_argument, codes "invalid_argument")
    ∷ (ExcType.missing_argument, codes "missing_argument")
    ∷ (ExcType.protected_branch, codes "protected_branch")
    ∷ (ExcType.not_owned, codes "not_owned")
    ∷ (ExcType.already_exists, codes "already_exists")
    ∷ []

unfoldable pub by_result : List (Text × Text)
by_result =
    (codes "error:PushRejected", codes "push_rejected")
    ∷ (codes "error:FetchRejected", codes "fetch_rejected")
    ∷ (codes "denied:write_glob", codes "write_glob_denied")
    ∷ (codes "denied:remote_url", codes "remote_url_rejected")
    ∷ (codes "denied:identity_undetermined", codes "identity_undetermined")
    ∷ (codes "denied:bad_repo_format", codes "bad_repo_format")
    ∷ (codes "denied:invalid_argument", codes "invalid_argument")
    ∷ (codes "denied:not_in_allowed_roots", codes "not_in_allowed_roots")
    ∷ []

abbrev pub denied_prefix : Text
denied_prefix = codes "denied:"

-- The loop over `_BY_TYPE`: the first entry that the exception is an instance of.
unfoldable pub first_instance : ExcType → List (ExcType × Text) → Option Text
first_instance e [] = none
first_instance e ((t, c) ∷ rest) =
    let later = first_instance e rest in if is_instance e t then some c else later

-- `_BY_RESULT.get(result)`
unfoldable pub get_result : Text → List (Text × Text) → Option Text
get_result k [] = none
get_result k ((j, c) ∷ rest) = if text_eq j k then some c else get_result k rest

-- What is decided from the result text alone.
unfoldable pub classify_result : Text → Text
classify_result result =
    let suffix = drop (length denied_prefix) result in
    if starts_with result denied_prefix && text_mem suffix reason_classes
    then suffix
    else or_default (get_result result by_result) (codes "other")

abbrev pub instance_class : Option ExcType → Option Text
instance_class none = none
instance_class (some e) = first_instance e by_type

unfoldable pub classify_reason : Text → Option ExcType → Text
classify_reason result exc = or_default (instance_class exc) (classify_result result)
