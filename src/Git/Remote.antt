-- ===== src/Git/Remote.antt =====
-- git_remote() of src/githost_mcp/tools/git_local.py.
use githost_mcp.Base.{
  none, ◌∷◌, text_eq, map, [], text_mem, some, or_default, if◌then◌else◌, codes, Text, Option, List,
}
use githost_mcp.Audit.Values.{Value, Values, Fields}
use githost_mcp.Audit.Rejection.{Reason}
use githost_mcp.Errors.{ExcType, Fault}
use githost_mcp.Tools.Host.{Call, Host}
use githost_mcp.Tools.Run.{
  Run, pure, raise, lift, raise_when, refuse, ◌>>=◌, ◌>>◌, attempt, ask, Ctx, finish, fail,
  open_repo, text_value, null_value, maybe_value,
}
use githost_mcp.Git.Read.{local_ctx}
use githost_mcp.Git.Branch.{require_remote, path_for}
use githost_mcp.Security.Names.{validate_remote_name}
use githost_mcp.Security.Urls.{validate_remote_url}
use githost_mcp.Security.Masking.{redact_url_credentials}

abbrev pub redacted : Option Text → Value
redacted none = null_value
redacted (some []) = null_value
redacted (some (c ∷ url)) = text_value (redact_url_credentials (c ∷ url))

abbrev pub remote_entries : List (Text × Text) → Values
remote_entries [] = Values.nil
remote_entries ((name, url) ∷ rest) =
    Values.item
      (Value.dict (
        Fields.field (codes "name") (text_value name)
          (Fields.field (codes "url") (text_value (redact_url_credentials url)) Fields.end)))
      (remote_entries rest)

-- A name or URL that is None is refused as an empty one is.
abbrev pub given : Option Text → Text
given t = or_default t []

module _ (host : Host) (ctx : Ctx) (path : Text) where
  unfoldable pub list_remotes : Run Fields
  list_remotes = do
    remotes ← ask host.pairs (Call.remotes path)
    finish host ctx (codes "ok") Reason.no_reason
    pure (
        Fields.field (codes "repo") (text_value path)
          (Fields.field (codes "remotes") (Value.list (remote_entries remotes)) Fields.end))

  unfoldable pub add_remote : Text → Text → Run Fields
  add_remote name url = do
    lift (validate_remote_name name)
    lift (validate_remote_url url)
    remotes ← ask host.pairs (Call.remotes path)
    raise_when (text_mem name (map (λ r. r.0) remotes)) ExcType.value_error Fault.remote_exists
    ask host.done (Call.create_remote path name url)
    finish host ctx (codes "ok") Reason.no_reason
    pure (
        Fields.field (codes "added") (text_value name)
          (Fields.field (codes "url") (text_value (redact_url_credentials url)) Fields.end))

  unfoldable pub remove_remote : Text → Run Fields
  remove_remote name = do
    lift (validate_remote_name name)
    require_remote host path name
    ask host.done (Call.delete_remote path name)
    finish host ctx (codes "ok") Reason.no_reason
    pure (Fields.field (codes "removed") (text_value name) Fields.end)

  unfoldable pub remote_action : Text → Option Text → Option Text → Run Fields
  remote_action action name url =
      if text_eq action (codes "list")
      then list_remotes
      else if text_eq action (codes "add")
      then add_remote (given name) (given url)
      else if text_eq action (codes "remove")
      then remove_remote (given name)
      else raise ExcType.invalid_argument (Fault.unknown_action action)

unfoldable pub remote_failed : Host → Ctx → ExcType → Fault → Run Fields
remote_failed host ctx ExcType.remote_url_rejected f =
    refuse host ctx (codes "denied:remote_url") ExcType.remote_url_rejected f
remote_failed host ctx t f = fail host ctx t f

unfoldable pub git_remote : Host → Text → Text → Option Text → Option Text → Run Fields
git_remote host repo_path action name url =
    let ctx = local_ctx (codes "git_remote") repo_path (
      Fields.field (codes "repo_path") (text_value repo_path) (
        Fields.field (codes "action") (text_value action) (
          Fields.field (codes "name") (maybe_value name)
            (Fields.field (codes "url") (redacted url) Fields.end)))) in
    attempt
      (do
        path ← path_for host action repo_path
        open_repo host path
        remote_action host ctx path action name url)
      (remote_failed host ctx)
