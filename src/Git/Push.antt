-- ===== src/Git/Push.antt =====
-- git_push(), git_pull() and git_tag() of src/githost_mcp/tools/git_local.py.
use githost_mcp.Base.{
  true, take, ◌++◌, some, or_default, none, if◌then◌else◌, false, [], ◌∷◌, codes, Option, Bool,
  Text,
}
use githost_mcp.Audit.Values.{Fields}
use githost_mcp.Audit.Rejection.{Reason}
use githost_mcp.Tools.Host.{Call, Host}
use githost_mcp.Tools.Run.{
  Run, pure, ◌>>=◌, ◌>>◌, attempt, ask, Ctx, finish, fail, write_path, open_repo, text_value,
  bool_value, texts_value, maybe_value,
}
use githost_mcp.Git.Read.{local_ctx}
use githost_mcp.Git.Branch.{or_text}
use githost_mcp.Gitflags.{RemoteOutcome, evaluate_push, evaluate_fetch}

abbrev pub branch_or_active : Host → Text → Option Text → Run Text
branch_or_active host path none = ask host.text (Call.active_branch path)
branch_or_active host path (some []) = ask host.text (Call.active_branch path)
branch_or_active host path (some (c ∷ t)) = pure (c ∷ t)

-- What push() of a remote reported, decoded.
unfoldable pub push_outcome : Host → Text → Text → Text → Option Text → Run RemoteOutcome
push_outcome host path remote refspec lease = do
  pushed ← ask host.infos (Call.push path remote refspec lease)
  pure (evaluate_push host.push_flags host.config pushed.0 pushed.1)

-- `{"error", "remote", "branch", "flags", "summary"}`
unfoldable pub push_error : Text → Text → RemoteOutcome → Text → Text → Fields
push_error remote branch outcome reason error = Fields.field (codes "error") (text_value error) (
    Fields.field (codes "remote") (text_value remote) (
      Fields.field (codes "branch") (text_value branch) (
        Fields.field (codes "flags") (texts_value outcome.flags)
          (Fields.field (codes "summary") (text_value reason) Fields.end))))

abbrev pub push_failed_text : Text → Text → Text → Text
push_failed_text remote branch reason =
    codes "push to " ++ (remote ++ ((b'/' ∷ branch) ++ (codes " failed: " ++ reason)))

-- Whether the branch has an upstream in the end: the answer of one call, false where it raises.
unfoldable pub ensure_upstream : Host → Text → Text → Text → Run Bool
ensure_upstream host path remote branch =
    attempt (ask host.flag (Call.set_upstream path remote branch)) (λ t f. pure false)

unfoldable pub after_push :
    Host → Ctx → Text → Text → Text → Option Text → RemoteOutcome → Run Fields
after_push host ctx path remote branch pushed_sha outcome =
    let reason = or_text outcome.summary (codes "push rejected by remote") in
    if outcome.failed
    then (do
      finish host ctx (codes "error:PushRejected") (Reason.message reason)
      pure (push_error remote branch outcome reason (push_failed_text remote branch reason)))
    else (do
      upstream_set ← ensure_upstream host path remote branch
      finish host ctx (codes "ok") Reason.no_reason
      pure (
          Fields.field (codes "pushed") (text_value branch) (
            Fields.field (codes "pushed_sha") (maybe_value pushed_sha) (
              Fields.field (codes "remote") (text_value remote) (
                Fields.field (codes "flags") (texts_value outcome.flags)
                  (Fields.field (codes "upstream_set") (bool_value upstream_set) Fields.end))))))

unfoldable pub git_push : Host → Text → Text → Option Text → Run Fields
git_push host repo_path remote branch =
    let ctx = local_ctx (codes "git_push") repo_path (
      Fields.field (codes "repo_path") (text_value repo_path) (
        Fields.field (codes "remote") (text_value remote)
          (Fields.field (codes "branch") (maybe_value branch) Fields.end))) in
    attempt
      (do
        path ← write_path host repo_path
        open_repo host path
        branch_name ← branch_or_active host path branch
        pushed_sha ← ask host.maybe (Call.head_sha path branch_name)
        outcome ← push_outcome host path remote branch_name none
        after_push host ctx path remote branch_name pushed_sha outcome)
      (fail host ctx)

abbrev pub note_field : Text → Fields
note_field [] = Fields.end
note_field (c ∷ t) = Fields.field (codes "note") (text_value (c ∷ t)) Fields.end

unfoldable pub after_pull : Host → Ctx → Text → RemoteOutcome → Run Fields
after_pull host ctx remote outcome =
    let reason = or_text outcome.summary (codes "pull rejected by remote") in
    if outcome.failed
    then (do
      finish host ctx (codes "error:FetchRejected") (Reason.message reason)
      pure (
          Fields.field (codes "error")
            (text_value (codes "pull from " ++ (remote ++ (codes " failed: " ++ reason))))
            (Fields.field (codes "remote") (text_value remote) (
              Fields.field (codes "flags") (texts_value outcome.flags)
                (Fields.field (codes "note") (text_value reason) Fields.end)))))
    else (do
      finish host ctx (codes "ok") Reason.no_reason
      pure (
          Fields.field (codes "remote") (text_value remote) (
            Fields.field (codes "flags") (texts_value outcome.flags) (note_field outcome.summary))))

unfoldable pub git_pull : Host → Text → Text → Run Fields
git_pull host repo_path remote =
    let ctx = local_ctx (codes "git_pull") repo_path (
      Fields.field (codes "repo_path") (text_value repo_path)
        (Fields.field (codes "remote") (text_value remote) Fields.end)) in
    attempt
      (do
        path ← write_path host repo_path
        open_repo host path
        pulled ← ask host.infos (Call.pull path remote)
        after_pull host ctx remote (evaluate_fetch host.fetch_flags host.config pulled.0))
      (fail host ctx)

module _ (host : Host) (ctx : Ctx) (path tag_name remote sha : Text) where
  unfoldable pub after_tag_push : RemoteOutcome → Run Fields
  after_tag_push outcome =
      let reason = or_text outcome.summary (codes "tag push rejected by remote") in
      if outcome.failed
      then (do
        finish host ctx (codes "error:PushRejected") (Reason.message reason)
        pure (
            Fields.field (codes "error")
              (text_value (
                codes "tag "
                ++ (tag_name
                    ++ (codes " push to "
                        ++ (remote
                            ++ (codes " failed: "
                                ++ (reason
                                    ++ codes ". The local tag was created and needs cleanup.")))))))
              (Fields.field (codes "tag") (text_value tag_name) (
                Fields.field (codes "sha") (text_value sha) (
                  Fields.field (codes "remote") (text_value remote) (
                    Fields.field (codes "flags") (texts_value outcome.flags) (
                      Fields.field (codes "summary") (text_value reason) (
                        Fields.field (codes "local_tag_created") (bool_value true)
                          Fields.end))))))))
      else (do
        finish host ctx (codes "ok") Reason.no_reason
        pure (
            Fields.field (codes "tag") (text_value tag_name) (
              Fields.field (codes "sha") (text_value sha) (
                Fields.field (codes "pushed") (bool_value true)
                  (Fields.field (codes "flags") (texts_value outcome.flags) Fields.end)))))

  unfoldable pub tag_pushed : Bool → Run Fields
  tag_pushed true = push_outcome host path remote tag_name none >>= after_tag_push
  tag_pushed false = do
    finish host ctx (codes "ok") Reason.no_reason
    pure (
        Fields.field (codes "tag") (text_value tag_name)
          (Fields.field (codes "sha") (text_value sha) Fields.end))

-- The new tag's sha is the answer to its creation.
unfoldable pub git_tag : Host → Text → Text → Option Text → Bool → Text → Run Fields
git_tag host repo_path tag_name message push remote =
    let ctx = local_ctx (codes "git_tag") repo_path (
      Fields.field (codes "repo_path") (text_value repo_path) (
        Fields.field (codes "tag_name") (text_value tag_name) (
          Fields.field (codes "push") (bool_value push)
            (Fields.field (codes "remote") (text_value remote) Fields.end)))) in
    attempt
      (do
        path ← write_path host repo_path
        open_repo host path
        sha ←
            ask host.text (Call.create_tag path tag_name (or_text (or_default message []) tag_name))
        tag_pushed host ctx path tag_name remote (take 12 sha) push)
      (fail host ctx)
