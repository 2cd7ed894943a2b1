-- ===== src/Git/Branch.antt =====
-- git_branch(), git_branch_delete_remote() and git_checkout() of src/githost_mcp/tools/git_local.py.
use githost_mcp.Base.{
  strip, true, is_empty, map, drop_while, text_mem, text_eq, none, is_space, [], ◌∷◌, ◌++◌,
  take_while, some, not, if◌then◌else◌, codes, Bool, Text, Option,
}
use githost_mcp.Audit.Values.{Fields}
use githost_mcp.Audit.Rejection.{Reason}
use githost_mcp.Errors.{ExcType, Fault}
use githost_mcp.Tools.Host.{Call, Host}
use githost_mcp.Tools.Run.{
  Run, pure, raise, lift, raise_when, attempt_then, scrubbed, ◌>>=◌, ◌>>◌, attempt, ask, Ctx,
  finish, fail, read_path, write_path, open_repo, text_value, bool_value, texts_value, maybe_value,
}
use githost_mcp.Git.Read.{local_ctx, current_branch}
use githost_mcp.Gitflags.{RemoteOutcome, evaluate_push}
use githost_mcp.Security.Names.{validate_remote_name, validate_branch_name}

-- A read for the action `list`, and a write for any other.
unfoldable pub path_for : Host → Text → Text → Run Text
path_for host action repo_path =
    if text_eq action (codes "list") then read_path host repo_path else write_path host repo_path

-- `if not branch_name: raise MissingArgument`
abbrev pub required : Option Text → Run Text
required none = raise ExcType.missing_argument Fault.branch_required
required (some []) = raise ExcType.missing_argument Fault.branch_required
required (some (c ∷ t)) = pure (c ∷ t)

module _ (host : Host) (ctx : Ctx) (path : Text) where
  -- The active branch is read after the record of success.
  unfoldable pub list_branches : Run Fields
  list_branches = do
    branches ← ask host.texts (Call.branches path)
    finish host ctx (codes "ok") Reason.no_reason
    active ← ask host.text (Call.active_branch path)
    pure (
        Fields.field (codes "branches") (texts_value branches)
          (Fields.field (codes "active") (text_value active) Fields.end))

  unfoldable pub create_branch : Option Text → Run Fields
  create_branch branch_name = do
    name ← required branch_name
    ask host.done (Call.create_head path name)
    finish host ctx (codes "ok") Reason.no_reason
    active ← current_branch host path
    pure (
        Fields.field (codes "created") (text_value name)
          (Fields.field (codes "active_branch") (text_value active) Fields.end))

  -- The sha is `none` where there is no such head.
  unfoldable pub delete_branch : Option Text → Bool → Run Fields
  delete_branch branch_name force = do
    name ← required branch_name
    deleted_sha ← ask host.maybe (Call.head_sha path name)
    ask host.done (Call.delete_head path name force)
    finish host ctx (codes "ok") Reason.no_reason
    pure (
        Fields.field (codes "deleted") (text_value name) (
          Fields.field (codes "deleted_sha") (maybe_value deleted_sha)
            (Fields.field (codes "forced") (bool_value force) Fields.end)))

  unfoldable pub branch_action : Text → Option Text → Bool → Run Fields
  branch_action action branch_name force =
      if text_eq action (codes "list")
      then list_branches
      else if text_eq action (codes "create")
      then create_branch branch_name
      else if text_eq action (codes "delete")
      then delete_branch branch_name force
      else raise ExcType.invalid_argument (Fault.unknown_action action)

unfoldable pub git_branch : Host → Text → Text → Option Text → Bool → Run Fields
git_branch host repo_path action branch_name force =
    let ctx = local_ctx (codes "git_branch") repo_path (
      Fields.field (codes "repo_path") (text_value repo_path) (
        Fields.field (codes "action") (text_value action) (
          Fields.field (codes "branch_name") (maybe_value branch_name)
            (Fields.field (codes "force") (bool_value force) Fields.end)))) in
    attempt
      (do
        path ← path_for host action repo_path
        open_repo host path
        branch_action host ctx path action branch_name force)
      (fail host ctx)

-- `f"No such remote '{remote}'"` where the repository has none of that name.
unfoldable pub require_remote : Host → Text → Text → Run (Unit {0})
require_remote host path remote = do
  remotes ← ask host.pairs (Call.remotes path)
  raise_when (not (text_mem remote (map (λ r. r.0) remotes))) ExcType.no_such_remote
      (Fault.no_such_remote remote)

-- `text.split()[0]` of a text that is not blank.
abbrev pub first_word : Text → Text
first_word t = take_while (λ c. not (is_space c)) (drop_while is_space t)

abbrev pub or_text : Text → Text → Text
or_text [] d = d
or_text (c ∷ t) d = c ∷ t

module _ (host : Host) (ctx : Ctx) (path branch_name remote : Text) where
  abbrev pub remote_name : Text
  remote_name = remote ++ (b'/' ∷ branch_name)

  abbrev pub delete_error : Text → Fields → Fields
  delete_error reason more =
      Fields.field (codes "error")
        (text_value (codes "delete of " ++ (remote_name ++ (codes " failed: " ++ reason))))
        (Fields.field (codes "remote") (text_value remote)
          (Fields.field (codes "branch") (text_value branch_name) more))

  -- `except git.GitCommandError`, another exception going on to the tool's handler.
  unfoldable pub delete_rejected : ExcType → Fault → Run Fields
  delete_rejected ExcType.git_command_error f = do
    finish host ctx (codes "error:PushRejected")
        (Reason.message (scrubbed host (host.message ExcType.git_command_error f)))
    pure (delete_error (scrubbed host (host.message ExcType.git_command_error f)) Fields.end)
  delete_rejected t f = raise t f

  unfoldable pub delete_outcome : Text → RemoteOutcome → Run Fields
  delete_outcome deleted_sha outcome =
      let reason = or_text outcome.summary (codes "delete rejected by remote") in
      if outcome.failed
      then (do
        finish host ctx (codes "error:PushRejected") (Reason.message reason)
        pure (
            delete_error reason (
              Fields.field (codes "flags") (texts_value outcome.flags)
                (Fields.field (codes "summary") (text_value reason) Fields.end))))
      else (do
        finish host ctx (codes "ok") Reason.no_reason
        pure (
            Fields.field (codes "deleted") (text_value branch_name) (
              Fields.field (codes "deleted_sha") (text_value deleted_sha) (
                Fields.field (codes "remote") (text_value remote)
                  (Fields.field (codes "flags") (texts_value outcome.flags) Fields.end)))))

  -- The listing is not blank: the branch is there, and a delete refspec is pushed.
  unfoldable pub push_delete : Text → Run Fields
  push_delete listing =
      attempt_then
        (ask host.infos (Call.push path remote (codes ":refs/heads/" ++ branch_name) none))
        (λ pushed.
          delete_outcome (first_word listing)
            (evaluate_push host.push_flags host.config pushed.0 pushed.1))
        delete_rejected

  abbrev pub absent_note : Text
  absent_note =
      (b'\'' ∷ branch_name)
      ++ (codes "' is not present on "
          ++ (remote
              ++ codes
                  "; nothing was deleted. Check the branch name if you expected it to be there."))

  unfoldable pub already_absent : Run Fields
  already_absent = do
    finish host ctx (codes "ok:already_absent") Reason.no_reason
    pure (
        Fields.field (codes "already_absent") (bool_value true) (
          Fields.field (codes "branch") (text_value branch_name) (
            Fields.field (codes "remote") (text_value remote)
              (Fields.field (codes "note") (text_value absent_note) Fields.end))))

  unfoldable pub delete_listed : Text → Run Fields
  delete_listed listing = if is_empty (strip listing) then already_absent else push_delete listing

unfoldable pub git_branch_delete_remote : Host → Text → Text → Text → Run Fields
git_branch_delete_remote host repo_path branch_name remote =
    let ctx = local_ctx (codes "git_branch_delete_remote") repo_path (
      Fields.field (codes "repo_path") (text_value repo_path) (
        Fields.field (codes "branch_name") (text_value branch_name)
          (Fields.field (codes "remote") (text_value remote) Fields.end))) in
    attempt
      (do
        path ← write_path host repo_path
        lift (validate_remote_name remote)
        lift (validate_branch_name branch_name)
        open_repo host path
        require_remote host path remote
        listing ← ask host.text (
            Call.git path (codes "ls_remote")
              (codes "--heads" ∷ remote ∷ (codes "refs/heads/" ++ branch_name) ∷ []))
        delete_listed host ctx path branch_name remote listing)
      (fail host ctx)

unfoldable pub git_checkout : Host → Text → Text → Run Fields
git_checkout host repo_path ref =
    let ctx = local_ctx (codes "git_checkout") repo_path (
      Fields.field (codes "repo_path") (text_value repo_path)
        (Fields.field (codes "ref") (text_value ref) Fields.end)) in
    attempt
      (do
        path ← write_path host repo_path
        open_repo host path
        ask host.done (Call.git path (codes "checkout") (ref ∷ []))
        finish host ctx (codes "ok") Reason.no_reason
        detached ← ask host.flag (Call.head_is_detached path)
        pure (
            Fields.field (codes "checked_out") (text_value ref)
              (Fields.field (codes "detached") (bool_value detached) Fields.end)))
      (fail host ctx)
