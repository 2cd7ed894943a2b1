-- ===== src/Config/System.antt =====
-- What config.py asks of its surroundings, and the record of settings.
use githost_mcp.Base.{false, ◌∷◌, ℕ, Text, Bool, Option, List, codes, none, []}
use githost_mcp.Config.Yaml.{Yaml}
use githost_mcp.Errors.{ExcType, Fault}

-- `negsuc n` is -(n + 1).
pub data ℤ : Type 0 where
  pos : ℕ → ℤ
  negsuc : ℕ → ℤ

-- What open() and yaml.safe_load() do.
pub data Loaded : Type 0 where
  parsed : Yaml → Loaded
  -- OSError or yaml.YAMLError
  unreadable : Loaded
  -- any other exception, such as UnicodeDecodeError
  failed : ExcType → Fault → Loaded

pub record System : Type 0 where
  -- os.environ, os.path.expanduser, os.path.exists
  pub env : Text → Option Text
  pub expand_user : Text → Text
  pub exists : Text → Bool
  pub load_yaml : Text → Loaded
  -- str() of a parsed value, int() of a text (`none` where it raises)
  pub to_str : Yaml → Text
  pub to_int : Text → Option ℤ

pub record Config : Type 0 where
  pub agent_id : Text
  pub log_level : Text
  pub log_file : Text
  pub audit_log_file : Text
  pub audit_log_max_bytes : ℤ
  pub audit_log_backup_count : ℤ
  pub log_max_bytes : ℤ
  pub log_backup_count : ℤ
  pub audit_signing_key : Text
  pub allowed_repo_roots : List Text
  pub allowed_read_roots : List Text
  pub allowed_write_roots : List Text
  pub write_globs : List Text
  pub write_globs_deny : List Text
  pub allowlist_source : Text
  pub worktree_root : Text
  pub git_signing_key : Text
  pub git_agent_name : Text
  pub git_agent_email : Text
  pub git_public_name : Text
  pub git_public_email : Text
  pub forge_owned_owners : List Text
  pub otel_endpoint : Text
  pub otel_protocol : Text
  pub otel_service_name : Text
  pub loki_url : Text
  pub loki_labels : Text
  pub metrics_port : Option ℤ
  pub nats_url : Text
  pub nats_subject_prefix : Text
  pub github_token : Text
  pub github_owner : Text
  pub gitea_url : Text
  pub gitea_token : Text
  pub gitea_owner : Text
  pub gitlab_url : Text
  pub gitlab_token : Text
  pub pypi_token : Text
  pub pypi_test_token : Text
  pub npm_token : Text
  pub woodpecker_url : Text
  pub woodpecker_token : Text
  pub transport : Text
  pub http_host : Text
  pub http_port : Option ℤ
  pub allow_nonloopback : Bool
  pub auth_token : Text

-- `Config()`: the field defaults.
unfoldable pub default_config : Config
default_config = record {
  agent_id = codes "unknown";
  log_level = codes "INFO";
  log_file = codes "/opt/appdata/githost-mcp/logs/githost-mcp.log";
  audit_log_file = codes "/opt/appdata/githost-mcp/audit/githost.jsonl";
  audit_log_max_bytes = pos 10485760;
  audit_log_backup_count = pos 5;
  log_max_bytes = pos 10485760;
  log_backup_count = pos 5;
  audit_signing_key = [];
  allowed_repo_roots = [];
  allowed_read_roots = [];
  allowed_write_roots = [];
  write_globs = [];
  write_globs_deny = [];
  allowlist_source = codes "none";
  worktree_root = [];
  git_signing_key = [];
  git_agent_name = [];
  git_agent_email = [];
  git_public_name = [];
  git_public_email = [];
  forge_owned_owners = codes "TadMSTR" ∷ [];
  otel_endpoint = [];
  otel_protocol = codes "grpc";
  otel_service_name = codes "githost-mcp";
  loki_url = [];
  loki_labels = codes "app=githost-mcp";
  metrics_port = none;
  nats_url = [];
  nats_subject_prefix = codes "githost";
  github_token = [];
  github_owner = [];
  gitea_url = [];
  gitea_token = [];
  gitea_owner = [];
  gitlab_url = codes "https://gitlab.com";
  gitlab_token = [];
  pypi_token = [];
  pypi_test_token = [];
  npm_token = [];
  woodpecker_url = [];
  woodpecker_token = [];
  transport = codes "stdio";
  http_host = codes "127.0.0.1";
  http_port = none;
  allow_nonloopback = false;
  auth_token = [];
}
