-- ===== src/Config/Load.antt =====
-- _env_int() and load_config() of src/githost_mcp/config.py.
use githost_mcp.Base.{
  ◌∷◌, ◌++◌, is_empty, text_eq, none, if◌then◌else◌, some, replace, or_default, [], Option, codes,
  Text, List,
}
use Prim.Native.String.{String}
use githost_mcp.Config.System.{System, Config, ℤ}
use githost_mcp.Config.Grants.{Grant, parse_csv, default_manifest_path, resolve_allowed_roots}
use githost_mcp.Errors.{Result, ok, err, ◌>>=◌, ExcType, Fault}

-- `x or y` on texts and on lists.
abbrev pub or_else {ℓ} : {A : Type ℓ} → List A → List A → List A
or_else [] y = y
or_else (c ∷ x) y = c ∷ x

-- `.replace("\n", "").replace("\r", "").replace("\0", "")`
unfoldable pub one_line : Text → Text
one_line t = replace (0 ∷ []) [] (replace (13 ∷ []) [] (replace (10 ∷ []) [] t))

module _ (s : System) where
  -- `os.getenv(name, default)`
  abbrev pub getenv : String → Text → Text
  getenv name default = or_default (s.env (codes name)) default

  unfoldable pub env_int : Text → Result ℤ
  env_int raw = elim (s.to_int raw) [
    | some n ↦ ok n
    | none ↦ err ExcType.value_error Fault.not_an_integer
  ]

  -- `_env_int(name, raw) if raw else None`
  unfoldable pub optional_int : Text → Result (Option ℤ)
  optional_int [] = ok none
  optional_int (c ∷ raw) = do n ← env_int (c ∷ raw); ok (some n)

  abbrev pub agent_name : Text → Text
  agent_name agent_id = one_line (
      or_else (getenv "GIT_AGENT_NAME" [])
        (if text_eq agent_id (codes "unknown") then [] else agent_id ++ codes "-agent"))

  abbrev pub agent_email : Text → Text
  agent_email agent_id = one_line (
      or_else (getenv "GIT_AGENT_EMAIL" [])
        (if text_eq agent_id (codes "unknown") then [] else agent_id ++ codes "@forge"))

  abbrev pub manifest_path : Text → Text
  manifest_path agent_id =
      let raw = or_else (getenv "AGENT_MANIFEST_PATH" []) (default_manifest_path s agent_id) in
      if is_empty raw then [] else s.expand_user raw

  abbrev pub policy_path : Text
  policy_path =
      s.expand_user
        (or_else (getenv "WORKSPACE_POLICY_PATH" []) (codes "/etc/forge/workspace-policy.yml"))

  -- `_resolve_allowed_roots` at the values of the environment.
  unfoldable pub resolved : Text → Result (Grant × Text)
  resolved agent_id =
      resolve_allowed_roots s agent_id (getenv "ALLOWED_REPO_ROOTS" []) policy_path
        (manifest_path agent_id)

  -- The record that load_config() builds, from what has been parsed.
  unfoldable pub build_config : Text → Grant × Text → ℤ → ℤ → ℤ → ℤ → Option ℤ → Option ℤ → Config
  build_config agent_id (grant, source) audit_bytes audit_backups log_bytes log_backups metrics
        http =
      record {
        agent_id = agent_id;
        log_level = getenv "LOG_LEVEL" (codes "INFO");
        log_file = getenv "LOG_FILE" (codes "/opt/appdata/githost-mcp/logs/githost-mcp.log");
        audit_log_file =
            getenv "AUDIT_LOG_FILE" (codes "/opt/appdata/githost-mcp/audit/githost.jsonl");
        audit_log_max_bytes = audit_bytes;
        audit_log_backup_count = audit_backups;
        log_max_bytes = log_bytes;
        log_backup_count = log_backups;
        audit_signing_key = getenv "AUDIT_SIGNING_KEY" [];
        allowed_repo_roots = grant.write_roots;
        allowed_read_roots = grant.read_roots;
        allowed_write_roots = grant.write_roots;
        write_globs = grant.write_globs;
        write_globs_deny = grant.write_globs_deny;
        allowlist_source = source;
        worktree_root =
            s.expand_user
              (or_else (getenv "GITHOST_WORKTREE_ROOT" []) (codes "~/repos/personal/_worktrees"));
        git_signing_key = getenv "GIT_SIGNING_KEY" [];
        git_agent_name = agent_name agent_id;
        git_agent_email = agent_email agent_id;
        git_public_name = getenv "GIT_PUBLIC_NAME" [];
        git_public_email = getenv "GIT_PUBLIC_EMAIL" [];
        forge_owned_owners =
            or_else (parse_csv (getenv "FORGE_OWNED_OWNERS" [])) (codes "TadMSTR" ∷ []);
        otel_endpoint = getenv "OTEL_EXPORTER_OTLP_ENDPOINT" [];
        otel_protocol = getenv "OTEL_EXPORTER_OTLP_PROTOCOL" (codes "grpc");
        otel_service_name = getenv "OTEL_SERVICE_NAME" (codes "githost-mcp");
        loki_url = getenv "LOKI_URL" [];
        loki_labels = getenv "LOKI_LABELS" (codes "app=githost-mcp");
        metrics_port = metrics;
        nats_url = getenv "NATS_URL" [];
        nats_subject_prefix = getenv "NATS_SUBJECT_PREFIX" (codes "githost");
        github_token = getenv "GITHUB_TOKEN" [];
        github_owner = getenv "GITHUB_OWNER" [];
        gitea_url = getenv "GITEA_URL" [];
        gitea_token = getenv "GITEA_TOKEN" [];
        gitea_owner = getenv "GITEA_OWNER" [];
        gitlab_url = getenv "GITLAB_URL" (codes "https://gitlab.com");
        gitlab_token = getenv "GITLAB_TOKEN" [];
        pypi_token = getenv "PYPI_TOKEN" [];
        pypi_test_token = getenv "PYPI_TEST_TOKEN" [];
        npm_token = getenv "NPM_TOKEN" [];
        woodpecker_url = getenv "WOODPECKER_URL" [];
        woodpecker_token = getenv "WOODPECKER_TOKEN" [];
        transport = getenv "TRANSPORT" (codes "stdio");
        http_host = getenv "HTTP_HOST" (codes "127.0.0.1");
        http_port = http;
        allow_nonloopback = text_eq (getenv "GITHOST_MCP_ALLOW_NONLOOPBACK" []) (codes "1");
        auth_token = getenv "GITHOST_MCP_AUTH_TOKEN" [];
      }

  unfoldable pub load_config : Result Config
  load_config = do
    let agent_id = getenv "AGENT_ID" (codes "unknown")
    let audit_bytes_raw = getenv "AUDIT_LOG_MAX_BYTES" (codes "10485760")
    let audit_backup_raw = getenv "AUDIT_LOG_BACKUP_COUNT" (codes "5")
    roots ← resolved agent_id
    audit_bytes ← env_int audit_bytes_raw
    audit_backups ← env_int audit_backup_raw
    log_bytes ← env_int (getenv "LOG_MAX_BYTES" audit_bytes_raw)
    log_backups ← env_int (getenv "LOG_BACKUP_COUNT" audit_backup_raw)
    metrics ← optional_int (getenv "METRICS_PORT" [])
    http ← optional_int (getenv "HTTP_PORT" [])
    ok (build_config agent_id roots audit_bytes audit_backups log_bytes log_backups metrics http)
