-- ===== src/Tools/Host.antt =====
-- The calls that the tool functions of src/githost_mcp/tools make of GitPython, the file system, the
-- APIs and the audit log, and the answers to them.
use githost_mcp.Base.{Option, Text, List, Bool, ℕ}
use githost_mcp.Config.System.{Config, ℤ}
use githost_mcp.Errors.{Result, ExcType, Fault}
use githost_mcp.Security.Paths.{Resolved}
use githost_mcp.Identity.Remote.{SplitUrl}
use githost_mcp.Git.Mode.{GithubRepo, GitConfig}
use githost_mcp.Gitflags.{PushInfo, FetchInfo, Info}
use githost_mcp.Audit.Values.{Fields}
use githost_mcp.Audit.Rejection.{Reason}

-- One call. The first text of a call on a repository is its path.
pub data Call : Type 0 where
  -- GitPython, reading
  -- whether the path opens: false where it is no repository or is not there
  open_repo head_is_valid head_is_detached active_branch is_dirty : Text → Call
  index_diff_head index_diff index_entries untracked branches tags remotes : Text → Call
  diffs_head diffs_index : Text → Option Text → Call
  iter_commits : Text → Text → ℤ → Call
  commit_at commit_stats : Text → Text → Call
  head_sha remote_head_sha : Text → Text → Call
  user_name user_email : Text → Call
  -- `repo.git.<command>(*args)`
  git : Text → Text → List Text → Call
  -- GitPython, writing
  create_head delete_tag : Text → Text → Call
  create_tag : Text → Text → Text → Call
  delete_head : Text → Text → Bool → Call
  create_remote : Text → Text → Text → Call
  delete_remote : Text → Text → Call
  index_commit : Text → Text → Option (Text × Text) → Call
  push : Text → Text → Text → Option Text → Call
  pull : Text → Text → Call
  set_upstream : Text → Text → Text → Call
  write_provenance : Text → Text → Call
  -- the file system
  lexists makedirs mkdir rmtree isfile isdir listdir checkout_origin : Text → Call
  -- `git clone <args> -- <url> <dest>`
  run_clone : Text → Text → List Text → Call
  -- a child process: its arguments, its directory, and what is added to the clean environment
  subprocess : List Text → Text → List (Text × Text) → Call
  -- the forge APIs
  gitea_org_exists : Text → Call
  github_get_repo gitea_delete_release gitlab_get_project : Text → Call
  github_get_release github_delete_release gitlab_delete_release : Text → Text → Call
  -- a repository or a path of one, a tag, and the notes
  github_create_release gitea_create_release gitlab_create_release : Text → Text → Text → Call
  -- os.path.exists(), and the text of a file
  exists read_file : Text → Call
  -- AuditCtx.finish(): tool, provider, repo, params, result, reason
  audit : Text → Text → Text → Fields → Text → Reason → Call

-- What is read of a commit, and of an entry of a diff (`none` where its text cannot be read).
pub record Commit : Type 0 where
  pub sha : Text
  pub author_name : Text
  pub author_email : Text
  pub date : Text
  pub message : Text

pub record Diff : Type 0 where
  pub file : Text
  pub change_type : Text
  pub diff : Option Text

-- What a child process leaves behind.
pub record Completed : Type 0 where
  pub returncode : ℕ
  pub stdout : Text
  pub stderr : Text

-- The calls so far, the last one first.
abbrev pub History : Type 0
History = List Call

-- How the surroundings answer a call, after the calls before it; an answer may be a raise.
pub record Host : Type 0 where
  pub done : History → Call → Result (Unit {0})
  pub flag : History → Call → Result Bool
  pub text : History → Call → Result Text
  pub maybe : History → Call → Result (Option Text)
  pub texts : History → Call → Result (List Text)
  pub pairs : History → Call → Result (List (Text × Text))
  pub commit : History → Call → Result Commit
  pub commits : History → Call → Result (List Commit)
  pub diffs : History → Call → Result (List Diff)
  -- the entries of a PushInfoList or of a fetch, with the list's `error` as text
  pub infos : History → Call → Result (List Info × Option Text)
  pub completed : History → Call → Result Completed
  -- the settings, and the functions of Python's library that are parameters
  pub config : Config
  pub resolve : Text → Resolved
  pub path_text : List Text → Text
  pub expand_user : Text → Text
  pub lower : Text → Text
  pub urlsplit : Text → Result SplitUrl
  pub repr : Text → Text
  pub get_repo : Text → Option GithubRepo
  -- what the repository's own git configuration holds on its provenance
  pub git_config : History → Text → GitConfig
  pub push_flags : PushInfo
  pub fetch_flags : FetchInfo
  -- `str(e)`, and the name of an exception class that the model does not tell apart
  pub message : ExcType → Fault → Text
  pub other_name : Fault → Text
