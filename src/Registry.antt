-- ===== src/Registry.antt =====
-- src/githost_mcp/tools/registry.py: publishing to PyPI and npm.
pub mod Laws
use githost_mcp.Base.{
  not, is_empty, take, text_eq, rstrip_char, ◌==◌, if◌then◌else◌, true, false, Bool, Text, List,
  Option, some, none, [], ◌∷◌, ◌++◌, codes,
}
use githost_mcp.Config.System.{Config}
use githost_mcp.Errors.{Result, ok, err, ExcType, Fault}
use githost_mcp.Audit.Values.{Value, Fields}
use githost_mcp.Audit.Rejection.{Reason}
use githost_mcp.Bootstrap.Clone.{path_join}
use githost_mcp.Tools.Host.{Call, Host, Completed}
use githost_mcp.Tools.Run.{
  Run, pure, lift, raise, raise_when, ◌>>=◌, ◌>>◌, attempt, ask, Ctx, finish, fail, write_path,
  text_value, maybe_value,
}
use githost_mcp.Git.Branch.{or_text}

abbrev pub pypi_url : Text
pypi_url = codes "https://upload.pypi.org/legacy/"

abbrev pub testpypi_url : Text
testpypi_url = codes "https://test.pypi.org/legacy/"

-- `raise ValueError(…)`
abbrev pub value_error : {A : Type 0} → Text → Result A
value_error text = err ExcType.value_error (Fault.raised text)

abbrev pub gitea_registry : Config → Result (Text × Text)
gitea_registry config =
    if is_empty config.gitea_url
    then value_error (codes "GITEA_URL is not set")
    else ok (
      config.gitea_token,
      rstrip_char b'/' config.gitea_url
          ++ (codes "/api/packages/" ++ (config.gitea_owner ++ codes "/pypi")),
    )

-- The token of a target and the URL that it is for.
unfoldable pub registry_of : Config → Text → Result (Text × Text)
registry_of config target =
    if text_eq target (codes "pypi")
    then ok (config.pypi_token, pypi_url)
    else if text_eq target (codes "testpypi")
    then ok (config.pypi_test_token, testpypi_url)
    else if text_eq target (codes "gitea")
    then gitea_registry config
    else value_error (codes "Unknown target '" ++ (target ++ codes "'. Use: pypi, testpypi, gitea"))

module _ (host : Host) where
  -- A child process in the clean environment with some variables more, which must end with 0.
  unfoldable pub run_checked : List Text → Text → List (Text × Text) → Text → Run Completed
  run_checked args dir env failed = do
    r ← ask host.completed (Call.subprocess args dir env)
    raise_when (not (r.returncode == 0)) ExcType.value_error
        (Fault.raised (failed ++ take 500 r.stderr))
    pure r

  -- The build where nothing is built yet.
  unfoldable pub build : Bool → Text → Text → Run Completed
  build false path dist = pure (record { returncode = 0; stdout = []; stderr = [] })
  build true path dist =
      run_checked (codes "python" ∷ codes "-m" ∷ codes "build" ∷ codes "--outdir" ∷ dist ∷ []) path
        [] (codes "Build failed: ")

  unfoldable pub upload_args : Text → Text → List Text
  upload_args url dist =
      codes "twine" ∷ codes "upload" ∷ codes "--repository-url" ∷ url ∷ (dist ++ codes "/*") ∷ []

  unfoldable pub upload_env : Text → List (Text × Text)
  upload_env token =
      (codes "TWINE_PASSWORD", token) ∷ (codes "TWINE_USERNAME", codes "__token__") ∷ []

  unfoldable pub pypi_publish : Text → Text → Text → Run Fields
  pypi_publish repo_path target dist_dir =
      let ctx : Ctx = record {
        tool = codes "pypi_publish";
        provider = codes "registry";
        repo = repo_path;
        params =
            Fields.field (codes "repo_path") (text_value repo_path)
              (Fields.field (codes "target") (text_value target) Fields.end);
      } in
      attempt
        (do
          path ← write_path host repo_path
          registry ← lift (registry_of host.config target)
          raise_when (is_empty registry.0) ExcType.value_error
              (Fault.raised (codes "Token for target '" ++ (target ++ codes "' is not set")))
          there ← ask host.flag (Call.isdir (path_join path dist_dir))
          raise_when (not there) ExcType.value_error
              (Fault.raised (codes "dist directory not found: " ++ path_join path dist_dir))
          files ← ask host.texts (Call.listdir (path_join path dist_dir))
          built ← build (is_empty files) path (path_join path dist_dir)
          checked ←
              run_checked
                (codes "twine" ∷ codes "check" ∷ (path_join path dist_dir ++ codes "/*") ∷ []) path
                [] (codes "Twine check failed: ")
          uploaded ←
              run_checked (upload_args registry.1 (path_join path dist_dir)) path
                (upload_env registry.0) (codes "Upload failed: ")
          finish host ctx (codes "ok") Reason.no_reason
          pure (
              Fields.field (codes "target") (text_value target) (
                Fields.field (codes "dist_dir") (text_value (path_join path dist_dir)) (
                  Fields.field (codes "stdout") (text_value (take 500 uploaded.stdout))
                    Fields.end))))
        (fail host ctx)

  abbrev pub option_args : Text → Option Text → List Text
  option_args name none = []
  option_args name (some []) = []
  option_args name (some (c ∷ t)) = name ∷ (c ∷ t) ∷ []

  abbrev pub given_or : Option Text → Text → Text
  given_or none d = d
  given_or (some t) d = or_text t d

  unfoldable pub npm_publish : Text → Option Text → Option Text → Run Fields
  npm_publish repo_path registry tag =
      let ctx : Ctx = record {
        tool = codes "npm_publish";
        provider = codes "registry";
        repo = repo_path;
        params =
            Fields.field (codes "repo_path") (text_value repo_path)
              (Fields.field (codes "registry") (maybe_value registry) Fields.end);
      } in
      attempt
        (do
          path ← write_path host repo_path
          raise_when (is_empty host.config.npm_token) ExcType.value_error
              (Fault.raised (codes "NPM_TOKEN is not set"))
          there ← ask host.flag (Call.isfile (path_join path (codes "package.json")))
          raise_when (not there) ExcType.value_error (
              Fault.raised
                (codes "package.json not found: " ++ path_join path (codes "package.json")))
          -- this one inherits the whole environment and the directory
          which ← ask host.completed (Call.subprocess (codes "which" ∷ codes "npm" ∷ []) [] [])
          raise_when (not (which.returncode == 0)) ExcType.value_error
              (Fault.raised (codes "npm is not found in PATH"))
          published ←
              run_checked
                (codes "npm"
                  ∷ codes "publish"
                  ∷ (option_args (codes "--registry") registry ++ option_args (codes "--tag") tag))
                path ((codes "NPM_TOKEN", host.config.npm_token) ∷ [])
                (codes "npm publish failed: ")
          finish host ctx (codes "ok") Reason.no_reason
          pure (
              Fields.field (codes "stdout") (text_value (take 500 published.stdout)) (
                Fields.field (codes "registry")
                  (text_value (given_or registry (codes "https://registry.npmjs.org/")))
                  Fields.end)))
        (fail host ctx)
