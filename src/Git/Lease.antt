-- ===== src/Git/Lease.antt =====
-- remote_default_branch() and git_push_force_with_lease() of src/githost_mcp/tools/git_local.py.
pub mod Symref
pub mod Told
pub mod Laws
use githost_mcp.Base.{
  Bool, true, false, ◌-◌, take, length, ends_with, ◌&&◌, strip, splitlines, drop, starts_with,
  or_default, contains, [], ◌∷◌, ◌++◌, some, none, if◌then◌else◌, codes, Text, Option, List, ℕ,
}
use githost_mcp.Audit.Values.{Value, Values, Fields}
use githost_mcp.Audit.Rejection.{Reason}
use githost_mcp.Errors.{ExcType, Fault, Result, ok, err}
use githost_mcp.Tools.Host.{Call, Host, Commit, Diff}
use githost_mcp.Tools.Run.{
  Run, pure, raise, lift, raise_when, refuse, handle, branch_on, attempt_then, continue_with,
  error_response, scrubbed, ◌>>=◌, ◌>>◌, attempt, ask, when, Ctx, finish, fail, read_path,
  write_path, open_repo, text_value, bool_value, null_value, texts_value, maybe_value, reject,
  reject_choice,
}
use githost_mcp.Git.Read.{local_ctx, current_branch, staged_or, author_of}
use githost_mcp.Git.Branch.{required, require_remote, or_text, path_for}
use githost_mcp.Git.Push.{push_error, push_failed_text}
use githost_mcp.Git.Refs.{validate_expected_sha, protected_branch_reason}
use githost_mcp.Gitflags.{RemoteOutcome, evaluate_push}
use githost_mcp.Security.Names.{validate_remote_name, validate_branch_name}

-- The branch that a line `ref: refs/heads/<branch>\tHEAD` names: its two ends are cut off by length.
abbrev pub head_prefix : Text
head_prefix = codes "ref: refs/heads/"

abbrev pub head_suffix : Text
head_suffix = 9 ∷ codes "HEAD"

unfoldable pub symref_branch : Text → Option Text
symref_branch line =
    if starts_with line head_prefix && ends_with line head_suffix
    then some (drop (length head_prefix) (take (length line - length head_suffix) line))
    else none

unfoldable pub first_symref : List Text → Option Text
first_symref [] = none
first_symref (line ∷ lines) = elim (symref_branch line) [
  | some b ↦ some b
  | none ↦ first_symref lines
]

unfoldable pub local_symref : Text → Text → Option Text
local_symref remote local =
    let prefix = codes "refs/remotes/" ++ (remote ++ codes "/") in
    if starts_with local prefix then some (drop (length prefix) local) else none

-- `ls-remote` answered without a symref: the local one.
unfoldable pub listed_branch : Host → Text → Text → Option Text → Run (Option Text)
listed_branch host path remote (some b) = pure (some b)
listed_branch host path remote none = do
  local ← ask host.text (
      Call.git path (codes "symbolic_ref")
        ((codes "refs/remotes/" ++ (remote ++ codes "/HEAD")) ∷ []))
  pure (local_symref remote (strip local))

abbrev pub unasked : ExcType → Fault → Run (Option Text)
unasked ExcType.git_command_error f = pure none
unasked t f = raise t f

unfoldable pub remote_default_branch : Host → Text → Text → Run (Option Text)
remote_default_branch host path remote =
    attempt_then
      (ask host.text
        (Call.git path (codes "ls_remote") (codes "--symref" ∷ remote ∷ codes "HEAD" ∷ [])))
      (λ listing. listed_branch host path remote (first_symref (splitlines listing))) unasked

-- `if reason := protected_branch_reason(…): raise ProtectedBranch(reason)`
abbrev pub raise_protected : Option Text → Run (Unit {0})
raise_protected none = pure tt
raise_protected (some reason) = raise ExcType.protected_branch (Fault.protected reason)

-- The sha of the local branch, which must be there.
abbrev pub local_sha : Text → Option Text → Run Text
local_sha branch none = raise ExcType.invalid_argument (Fault.no_local_branch branch)
local_sha branch (some sha) = pure sha

abbrev pub known_default : Option Text → Run Text
known_default none = raise ExcType.protected_branch Fault.default_unknown
known_default (some d) = pure d

abbrev pub heads : Text → Text
heads branch = codes "refs/heads/" ++ branch

module _ (host : Host) (ctx : Ctx) (path branch remote sha : Text) where
  unfoldable pub lease_rejected : ExcType → Fault → Run Fields
  lease_rejected ExcType.git_command_error f = do
    finish host ctx (codes "error:PushRejected")
        (Reason.message (scrubbed host (host.message ExcType.git_command_error f)))
    pure (
        error_response host (
          push_failed_text remote branch
            (scrubbed host (host.message ExcType.git_command_error f))))
  lease_rejected t f = raise t f

  abbrev pub stale_hint : Text → Text
  stale_hint reason =
      if contains reason (codes "stale info")
      then codes ". The remote branch is no longer at "
        ++ (sha
            ++ codes
                ": someone pushed after you read it. Fetch, review their commits, and rebase again.")
      else []

  -- The sha that is reported: the remote-tracking ref's, else the one read before.
  unfoldable pub report_lease : Text → RemoteOutcome → Text → Bool → Run Fields
  report_lease pushed_sha outcome reason true = do
    finish host ctx (codes "error:PushRejected") (Reason.message reason)
    pure (
        push_error remote branch outcome reason
          (push_failed_text remote branch reason ++ stale_hint reason))
  report_lease pushed_sha outcome reason false = do
    tracked ← ask host.maybe (Call.remote_head_sha path branch)
    finish host ctx (codes "ok") Reason.no_reason
    pure (
        Fields.field (codes "pushed") (text_value branch) (
          Fields.field (codes "pushed_sha") (text_value (or_default tracked pushed_sha)) (
            Fields.field (codes "replaced_sha") (text_value sha) (
              Fields.field (codes "remote") (text_value remote)
                (Fields.field (codes "flags") (texts_value outcome.flags) Fields.end)))))

  abbrev pub lease_outcome : Text → RemoteOutcome → Run Fields
  lease_outcome pushed_sha outcome =
      report_lease pushed_sha outcome (or_text outcome.summary (codes "push rejected by remote"))
        outcome.failed

  unfoldable pub lease_push : Text → Run Fields
  lease_push pushed_sha =
      attempt_then
        (ask host.infos (
          Call.push path remote (heads branch ++ (b':' ∷ heads branch))
            (some (heads branch ++ (b':' ∷ sha)))))
        (λ pushed.
          lease_outcome pushed_sha (evaluate_push host.push_flags host.config pushed.0 pushed.1))
        lease_rejected

unfoldable pub lease_failed : Host → Ctx → ExcType → Fault → Run Fields
lease_failed host ctx ExcType.protected_branch f =
    refuse host ctx (codes "denied:protected_branch") ExcType.protected_branch f
lease_failed host ctx t f = fail host ctx t f

unfoldable pub git_push_force_with_lease : Host → Text → Text → Text → Text → Run Fields
git_push_force_with_lease host repo_path branch expected_sha remote =
    let ctx = local_ctx (codes "git_push_force_with_lease") repo_path (
      Fields.field (codes "repo_path") (text_value repo_path) (
        Fields.field (codes "branch") (text_value branch) (
          Fields.field (codes "expected_sha") (text_value expected_sha)
            (Fields.field (codes "remote") (text_value remote) Fields.end)))) in
    attempt
      (do
        path ← write_path host repo_path
        lift (validate_remote_name remote)
        lift (validate_branch_name branch)
        sha ← lift (validate_expected_sha host.lower (some expected_sha))
        raise_protected (protected_branch_reason branch none)
        open_repo host path
        require_remote host path remote
        local ← ask host.maybe (Call.head_sha path branch)
        pushed_sha ← local_sha branch local
        asked ← remote_default_branch host path remote
        default ← known_default asked
        raise_protected (protected_branch_reason branch (some default))
        lease_push host ctx path branch remote sha pushed_sha)
      (lease_failed host ctx)
