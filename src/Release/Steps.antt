-- ===== src/Release/Steps.antt =====
-- release() of src/githost_mcp/tools/release.py: its steps in their order.
use githost_mcp.Base.{
  Bool, true, false, not, text_mem, or_default, ◌==◌, Text, Option, some, none, List, [], ◌∷◌, ◌++◌,
  codes, if◌then◌else◌,
}
use githost_mcp.Errors.{ExcType, Fault, is_instance}
use githost_mcp.Audit.Values.{Value, Fields}
use githost_mcp.Audit.Rejection.{Reason}
use githost_mcp.Gitflags.{RemoteOutcome, evaluate_push}
use githost_mcp.Tools.Host.{Call, Host}
use githost_mcp.Tools.Run.{
  Run, pure, raise, ◌>>=◌, ◌>>◌, attempt, attempt_then, ask, when, raise_when, Ctx, finish, refuse,
  error_response, scrubbed, write_path, text_value, bool_value, texts_value, null_value,
}
use githost_mcp.Git.Branch.{or_text}
use githost_mcp.Bootstrap.Clone.{path_join}
use githost_mcp.Release.Rollback.{Created, Repos, no_repos, rollback}
use githost_mcp.Release.Plan.{
  Plan, tag_of, State, effective_targets, wanted, package_name, create_github, create_gitea,
  create_gitlab, rolled_back, with_github, with_gitea, with_gitlab, nothing_created, only_tag,
  tag_and_push, url_fields,
}

module _ (host : Host) (ctx : Ctx) (plan : Plan) where
  abbrev pub tag : Text
  tag = tag_of plan.version

  -- The handler of a target that has releases.
  unfoldable pub give_up : Text → Text → State → ExcType → Fault → Run Fields
  give_up name title state t f = do
    rollback host plan.path tag state.created plan.repos
    finish host ctx (codes "error:" ++ name) (Reason.exception t (host.message t f))
    pure (rolled_back (title ++ (codes " release failed: " ++ host.message t f)))

  -- The step of such a target, and the steps behind it, which its handler does not cover.
  unfoldable pub publish :
      Option Text
      → (Text → Run Text)
      → (Created → Created)
      → Text
      → Text
      → (State → Run Fields)
      → State
      → Run Fields
  publish none create add name title next state = next state
  publish (some repo) create add name title next state =
      attempt_then (create repo)
        (λ url.
          next (record { created = add state.created; urls = state.urls ++ ((name, url) ∷ []) }))
        (give_up name title state)

  unfoldable pub uploaded : List (Text × Text) → Bool → Run (List (Text × Text))
  uploaded urls false = pure urls
  uploaded urls true = do
    name ← package_name host plan.path
    pure (
        urls
        ++ ((
          codes "pypi",
          codes "https://pypi.org/project/" ++ (name ++ ((b'/' ∷ plan.version) ++ codes "/")),
        )
            ∷ []))

  unfoldable pub upload_pypi : List (Text × Text) → Run (List (Text × Text))
  upload_pypi urls =
      attempt
        (do
          r ← ask host.completed (
              Call.subprocess
                (codes "twine"
                  ∷ codes "upload"
                  ∷ (path_join plan.path (codes "dist") ++ codes "/*")
                  ∷ [])
                plan.path
                ((codes "TWINE_PASSWORD", host.config.pypi_token)
                  ∷ (codes "TWINE_USERNAME", codes "__token__")
                  ∷ []))
          uploaded urls (r.returncode == 0))
        (λ t f. pure urls)

  unfoldable pub run_npm : Run (Unit {0})
  run_npm = do
    r ← ask host.completed (
        Call.subprocess (codes "npm" ∷ codes "publish" ∷ []) plan.path
          ((codes "NPM_TOKEN", host.config.npm_token) ∷ []))
    pure tt

  -- The registries, whose failures only reach the log, and the report.
  unfoldable pub publish_packages : State → Run Fields
  publish_packages state = do
    urls ← when (text_mem (codes "pypi") plan.targets) (upload_pypi state.urls) state.urls
    when (text_mem (codes "npm") plan.targets) (attempt run_npm (λ t f. pure tt)) tt
    finish host ctx (codes "ok") Reason.no_reason
    pure (
        Fields.field (codes "success") (bool_value true) (
          Fields.field (codes "version") (text_value plan.version) (
            Fields.field (codes "tag") (text_value tag) (
              Fields.field (codes "targets") (texts_value plan.targets)
                (Fields.field (codes "urls") (Value.dict (url_fields urls)) Fields.end)))))

  unfoldable pub publish_gitlab : State → Run Fields
  publish_gitlab =
      publish (wanted plan.targets (codes "gitlab") plan.repos.gitlab) (create_gitlab host plan)
        with_gitlab (codes "gitlab") (codes "GitLab") publish_packages

  unfoldable pub publish_gitea : State → Run Fields
  publish_gitea =
      publish (wanted plan.targets (codes "gitea") plan.repos.gitea) (create_gitea host plan)
        with_gitea (codes "gitea") (codes "Gitea") publish_gitlab

  unfoldable pub publish_github : State → Run Fields
  publish_github =
      publish (wanted plan.targets (codes "github") plan.repos.github) (create_github host plan)
        with_github (codes "github") (codes "GitHub") publish_gitea

  -- The tag was pushed, or the push was refused.
  unfoldable pub pushed_tag : List Text → Text → Bool → Run Fields
  pushed_tag flags reason true = do
    rollback host plan.path tag only_tag no_repos
    finish host ctx (codes "error:git_tag_push") (Reason.message reason)
    pure (
        Fields.field (codes "error")
          (text_value (codes "Failed to push tag " ++ (tag ++ (codes ": " ++ reason))))
          (Fields.field (codes "tag") (text_value tag) (
            Fields.field (codes "flags") (texts_value flags)
              (Fields.field (codes "rolled_back") (bool_value true) Fields.end))))
  pushed_tag flags reason false = publish_github (record { created = tag_and_push; urls = [] })

  unfoldable pub tag_failed : Created → ExcType → Fault → Run Fields
  tag_failed created t f = do
    rollback host plan.path tag created no_repos
    finish host ctx (codes "error:git_tag") (Reason.exception t (host.message t f))
    pure (
        error_response host
          (codes "Failed to create/push tag: " ++ scrubbed host (host.message t f)))

  abbrev pub judge_push : RemoteOutcome → Run Fields
  judge_push outcome =
      pushed_tag outcome.flags (or_text outcome.summary (codes "tag push rejected by remote"))
        outcome.failed

  unfoldable pub push_tag : Run Fields
  push_tag =
      attempt_then (ask host.infos (Call.push plan.path (codes "origin") tag none))
        (λ pushed. judge_push (evaluate_push host.push_flags host.config pushed.0 pushed.1))
        (tag_failed only_tag)

  unfoldable pub make_tag : Run Fields
  make_tag =
      attempt_then (ask host.text (Call.create_tag plan.path tag (codes "Release " ++ tag)))
        (λ sha. push_tag) (tag_failed nothing_created)

  abbrev pub refuse_state : Text → Text → Text → Run Fields
  refuse_state result why error = do
    finish host ctx result (Reason.message why)
    pure (error_response host error)

  unfoldable pub check_tag : Bool → Run Fields
  check_tag true =
      refuse_state (codes "error:tag_exists")
        (codes "tag " ++ (host.repr tag ++ codes " already exists"))
        (codes "Tag '" ++ (tag ++ codes "' already exists"))
  check_tag false = make_tag

  unfoldable pub check_clean : Bool → Run Fields
  check_clean true = refuse_state (codes "error:dirty") (codes "working tree is dirty") (
      (codes "Working tree is dirty " ++ (0x2014 ∷ []))
      ++ codes " commit or stash changes before releasing")
  check_clean false = do tags ← ask host.texts (Call.tags plan.path); check_tag (text_mem tag tags)

  unfoldable pub opened : Run (Unit {0})
  opened = do
    found ← ask host.flag (Call.open_repo plan.path)
    raise_when (not found) ExcType.exception (Fault.raised plan.path)

  unfoldable pub not_opened : ExcType → Fault → Run Fields
  not_opened t f = do
    finish host ctx (codes "error:git") (Reason.exception t (host.message t f))
    pure (error_response host (codes "Cannot open repo: " ++ host.message t f))

  unfoldable pub release_opened : Run Fields
  release_opened = do dirty ← ask host.flag (Call.is_dirty plan.path); check_clean dirty

  -- The plan, or its steps.
  unfoldable pub run_plan : Bool → Run Fields
  run_plan true = do
    finish host ctx (codes "ok") Reason.no_reason
    pure (
        Fields.field (codes "dry_run") (bool_value true) (
          Fields.field (codes "version") (text_value plan.version) (
            Fields.field (codes "tag") (text_value tag) (
              Fields.field (codes "targets") (texts_value plan.targets)
                (Fields.field (codes "repo_path") (text_value plan.path) Fields.end)))))
  run_plan false = attempt_then opened (λ _. release_opened) not_opened

abbrev pub maybe_texts : Option (List Text) → Value
maybe_texts none = null_value
maybe_texts (some ts) = texts_value ts

unfoldable pub path_refused : Host → Ctx → ExcType → Fault → Run Fields
path_refused host ctx t f =
    if is_instance t ExcType.value_error
    then refuse host ctx (codes "error:ValueError") t f
    else raise t f

unfoldable pub release :
    Host → Text → Text → Option (List Text) → Repos → Option Text → Bool → Run Fields
release host repo_path version targets repos notes dry_run =
    let ctx : Ctx = record {
      tool = codes "release";
      provider = codes "local";
      repo = repo_path;
      params = Fields.field (codes "repo_path") (text_value repo_path) (
          Fields.field (codes "version") (text_value version) (
            Fields.field (codes "targets") (maybe_texts targets)
              (Fields.field (codes "dry_run") (bool_value dry_run) Fields.end)));
    } in
    attempt_then (write_path host repo_path)
      (λ path.
        run_plan host ctx
          (record {
            path = path;
            version = version;
            targets = effective_targets host.config (or_default targets []) repos;
            repos = repos;
            notes = notes;
          })
          dry_run)
      (path_refused host ctx)
