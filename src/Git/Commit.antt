-- ===== src/Git/Commit.antt =====
-- git_add() and git_commit() of src/githost_mcp/tools/git_local.py.
pub mod Seen
pub mod Identity
pub mod Author
pub mod Laws
use githost_mcp.Base.{
  false, true, Bool, ◌++◌, none, text_eq, is_empty, [], ◌∷◌, take, some, if◌then◌else◌, List, codes,
  Text, Option,
}
use githost_mcp.Audit.Values.{Fields}
use githost_mcp.Audit.Rejection.{Reason}
use githost_mcp.Errors.{ExcType, Fault, ok}
use githost_mcp.Tools.Host.{Call, Host, Commit}
use githost_mcp.Tools.Run.{
  Run, pure, lift, refuse, attempt_then, ◌>>=◌, ◌>>◌, attempt, ask, when, Ctx, finish, fail,
  write_path, open_repo, text_value, texts_value,
}
use githost_mcp.Git.Read.{local_ctx, staged_or, author_of}
use githost_mcp.Config.System.{Config}
use githost_mcp.Security.Globs.{validate_write_globs}
use githost_mcp.Identity.Ownership.{Mode, resolve_public_identity}
use githost_mcp.Git.Mode.{resolve_identity_mode, GitConfig, read_cached_provenance}

unfoldable pub add_failed : Host → Ctx → ExcType → Fault → Run Fields
add_failed host ctx ExcType.write_glob_denied f =
    refuse host ctx (codes "denied:write_glob") ExcType.write_glob_denied f
add_failed host ctx t f = fail host ctx t f

unfoldable pub git_add : Host → Text → List Text → Run Fields
git_add host repo_path paths =
    let ctx = local_ctx (codes "git_add") repo_path (
      Fields.field (codes "repo_path") (text_value repo_path)
        (Fields.field (codes "paths") (texts_value paths) Fields.end)) in
    attempt
      (do
        path ← write_path host repo_path
        lift (validate_write_globs host.config paths)
        open_repo host path
        ask host.done (Call.git path (codes "add") (codes "--" ∷ paths))
        staged ← staged_or host path paths
        finish host ctx (codes "ok") Reason.no_reason
        pure (Fields.field (codes "staged") (texts_value staged) Fields.end))
      (add_failed host ctx)

-- _staged_paths()
unfoldable pub staged_paths : Host → Text → Run (List Text)
staged_paths host path = do
  valid ← ask host.flag (Call.head_is_valid path)
  ask host.texts (if valid then Call.index_diff_head path else Call.index_entries path)

-- `name = name or read`, where the read may raise.
abbrev pub or_read : Host → Text → Call → Run Text
or_read host [] c = ask host.text c
or_read host (x ∷ t) c = pure (x ∷ t)

-- _public_identity(): what the git configuration cannot tell stays empty; where reading the name
-- raises, the email is not read.
unfoldable pub public_identity : Host → Text → Run (Text × Text)
public_identity host path =
    let name = host.config.git_public_name in
    let email = host.config.git_public_email in
    attempt_then (or_read host name (Call.user_name path))
      (λ read_name.
        attempt_then (or_read host email (Call.user_email path))
          (λ read_email. lift (resolve_public_identity read_name read_email))
          (λ t f. lift (resolve_public_identity read_name email)))
      (λ t f. lift (resolve_public_identity name email))

-- The write of _lookup_fork_provenance(): tried where no verdict was cached and the lookup gave
-- one, whether the configuration can be written or not; what it raises is passed over.
abbrev pub cache_verdict : Host → Text → Option Text → Option Text → Run (Unit {0})
cache_verdict host path none (some v) =
    attempt (ask host.done (Call.write_provenance path v)) (λ t f. pure tt)
cache_verdict host path before after = pure tt

-- A stored value that is no verdict counts as none. The resolution is run on a configuration that can
-- be written, so that its verdict shows there; the write to the repository is the call.
abbrev pub cleared_config : GitConfig → GitConfig
cleared_config c = record { provenance = read_cached_provenance c; writable = true }

-- _resolve_identity_mode(): the remotes are read for `auto` only.
unfoldable pub identity_mode : Host → Text → Text → Run (Mode × Text)
identity_mode host path requested = do
  remotes ← when (text_eq requested (codes "auto")) (ask host.pairs (Call.remotes path)) []
  stored ← (λ h. (ok (cleared_config (host.git_config h path)), h))
  resolved ← lift (
      resolve_identity_mode host.lower host.urlsplit host.get_repo stored remotes
        host.config.forge_owned_owners host.config.gitea_url requested)
  cache_verdict host path stored.provenance resolved.1.provenance
  pure resolved.0

-- The message that is committed, and the author, `none` for git's own.
abbrev pub agent_message : Config → Text → Text
agent_message config message =
    if text_eq config.agent_id (codes "unknown")
    then message
    else message ++ ((10 ∷ 10 ∷ codes "agent-id: ") ++ config.agent_id)

abbrev pub agent_actor : Config → Option (Text × Text)
agent_actor config =
    if is_empty config.git_agent_name
    then none
    else some (config.git_agent_name, config.git_agent_email)

unfoldable pub authorship : Host → Text → Mode → Text → Run (Text × Option (Text × Text))
authorship host path Mode.public message = do
  actor ← public_identity host path
  pure (message, some actor)
authorship host path Mode.agent message =
    pure (agent_message host.config message, agent_actor host.config)

-- `-c user.name=… -c user.email=…`
abbrev pub actor_options : Option (Text × Text) → List Text
actor_options none = []
actor_options (some (name, email)) =
    codes "-c" ∷ (codes "user.name=" ++ name) ∷ codes "-c" ∷ (codes "user.email=" ++ email) ∷ []

-- The call that commits: git itself where there is a key to sign with.
abbrev pub commit_call : Bool → Text → Text → Text → Option (Text × Text) → Call
commit_call true key path message actor = Call.index_commit path message actor
commit_call false key path message actor =
    Call.git path (codes "commit") (
      actor_options actor
      ++ (codes "-S" ∷ (codes "--gpg-sign=" ++ key) ∷ codes "-m" ∷ message ∷ []))

abbrev pub commit_by : Host → Bool → Text → Text → Option (Text × Text) → Run Commit
commit_by host true path message actor = ask host.commit (commit_call true [] path message actor)
commit_by host false path message actor =
    ask host.done (commit_call false host.config.git_signing_key path message actor)
    >> ask host.commit (Call.commit_at path (codes "HEAD"))

-- The commit, and what is read of it.
unfoldable pub write_commit : Host → Text → Text → Option (Text × Text) → Run Commit
write_commit host path message actor =
    commit_by host (is_empty host.config.git_signing_key) path message actor

abbrev pub mode_name : Mode → Text
mode_name Mode.agent = codes "agent"
mode_name Mode.public = codes "public"

unfoldable pub commit_failed : Host → Ctx → ExcType → Fault → Run Fields
commit_failed host ctx ExcType.write_glob_denied f =
    refuse host ctx (codes "denied:write_glob") ExcType.write_glob_denied f
commit_failed host ctx ExcType.identity_undetermined f =
    refuse host ctx (codes "denied:identity_undetermined") ExcType.identity_undetermined f
commit_failed host ctx t f = fail host ctx t f

unfoldable pub git_commit : Host → Text → Text → Text → Run Fields
git_commit host repo_path message identity =
    let ctx = local_ctx (codes "git_commit") repo_path (
      Fields.field (codes "repo_path") (text_value repo_path)
        (Fields.field (codes "identity") (text_value identity) Fields.end)) in
    attempt
      (do
        path ← write_path host repo_path
        open_repo host path
        staged ← staged_paths host path
        lift (validate_write_globs host.config staged)
        chosen ← identity_mode host path identity
        written ← authorship host path chosen.0 message
        commit ← write_commit host path written.0 written.1
        finish host ctx (codes "ok") Reason.no_reason
        pure (
            Fields.field (codes "sha") (text_value (take 12 commit.sha)) (
              Fields.field (codes "message") (text_value message) (
                Fields.field (codes "identity") (text_value (mode_name chosen.0)) (
                  Fields.field (codes "identity_reason") (text_value chosen.1)
                    (Fields.field (codes "author") (text_value (author_of commit)) Fields.end))))))
      (commit_failed host ctx)
