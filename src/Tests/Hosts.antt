-- ===== src/Tests/Hosts.antt =====
-- Surroundings for the tests of the tools: every call is answered, and nothing stands in the way.
use githost_mcp.Base.{if◌then◌else◌, Bool, true, false, some, none, [], ◌∷◌, codes, Text, text_eq}
use githost_mcp.Errors.{ok}
use githost_mcp.Config.System.{Config, default_config}
use githost_mcp.Security.Paths.{Resolved}
use githost_mcp.Gitflags.{PushInfo, FetchInfo}
use githost_mcp.Tools.Host.{Call, Host, Commit}

abbrev pub settings : Config
settings = record default_config {
  allowed_write_roots = codes "/work" ∷ [];
  allowed_read_roots = codes "/work" ∷ [];
  forge_owned_owners = codes "us" ∷ [];
  pypi_token = codes "pypi-secret";
}

abbrev pub push_bits : PushInfo
push_bits = record {
  new_tag = 1;
  new_head = 2;
  no_match = 4;
  rejected = 8;
  remote_rejected = 16;
  remote_failure = 32;
  deleted = 64;
  forced_update = 128;
  fast_forward = 256;
  up_to_date = 512;
  error = 1024;
}

abbrev pub fetch_bits : FetchInfo
fetch_bits = record {
  new_tag = 1;
  new_head = 2;
  head_uptodate = 4;
  tag_update = 8;
  rejected = 16;
  forced_update = 32;
  fast_forward = 64;
  error = 128;
}

abbrev pub a_sha : Text
a_sha = codes "0123456789012345678901234567890123456789"

abbrev pub a_commit : Commit
a_commit = record {
  sha = a_sha;
  author_name = codes "dev";
  author_email = codes "dev@us";
  date = codes "today";
  message = codes "m";
}

-- A path exists nowhere but the repositories do, and a directory can be made.
abbrev pub yes_no : Call → Bool
yes_no (Call.lexists p) = false
yes_no (Call.is_dirty p) = false
yes_no (Call.head_is_detached p) = false
yes_no c = true

abbrev pub say : Call → Text
say (Call.git path command args) =
    if text_eq command (codes "ls_remote") then codes "ref: refs/heads/main\tHEAD" else []
say c = codes "main"

abbrev pub host : Host
host = record {
  done = λ h c. ok tt;
  flag = λ h c. ok (yes_no c);
  text = λ h c. ok (say c);
  maybe = λ h c. ok (some a_sha);
  texts = λ h c. ok [];
  pairs = λ h c. ok ((codes "origin", codes "git@github.com:us/tool.git") ∷ []);
  commit = λ h c. ok a_commit;
  commits = λ h c. ok [];
  diffs = λ h c. ok [];
  infos = λ h c. ok ([], none);
  completed = λ h c. ok (record { returncode = 0; stdout = []; stderr = [] });
  config = settings;
  resolve = λ p. Resolved.path (codes "work" ∷ []);
  path_text = λ parts. codes "/work/tool";
  expand_user = λ p. codes "/work";
  lower = λ t. t;
  urlsplit = λ t. ok (record { hostname = none; path = t });
  repr = λ t. t;
  get_repo = λ t. none;
  git_config = λ h p. record { provenance = none; writable = true };
  push_flags = push_bits;
  fetch_flags = fetch_bits;
  message = λ t f. codes "refused";
  other_name = λ f. codes "Exception";
}
