-- ===== src/Tests/Git.antt =====
-- src/githost_mcp/tools/git_local.py at concrete inputs.
use githost_mcp.Base.{
  ◌≢◌, text_mem, text_eq, ◌↔◌, refl, if◌then◌else◌, false, ◌≡◌, ◌++◌, true, Option, ◌∷◌, some, none,
  [], Text, List, All, codes,
}
use githost_mcp.Errors.{Result, ok, succeeds}
use githost_mcp.Identity.Remote.{SplitUrl}
use githost_mcp.Identity.Ownership.{Mode}
use githost_mcp.Git.Mode.{GithubRepo, GitConfig, ask_github, resolve_auto, resolve_identity_mode}
use githost_mcp.Git.Mode.Laws.{IsOwn, IsInternal, ask_github-IsOwn, resolve_auto-IsInternal}
use githost_mcp.Git.Refs.{
  validate_worktree_name, protected_branch_reason, always_protected_branches,
}
use githost_mcp.Git.Refs.Laws.{
  IsWorktreeName, validate_worktree_name-IsWorktreeName, protected_branch_reason_iff,
}

abbrev same_text : Text → Text
same_text t = t

abbrev no_split : Text → Result SplitUrl
no_split t = ok (record { hostname = none; path = t })

-- `us/tool` is no fork, every other repository is one of `them/up`.
abbrev github : Text → Option GithubRepo
github name =
    if text_eq name (codes "us/tool")
    then some (record { fork = false; parent = none })
    else some (record { fork = true; parent = some (codes "them/up") })

abbrev uncached : GitConfig
uncached = record { provenance = none; writable = true }

abbrev cached_own : GitConfig
cached_own = record { provenance = some (codes "own"); writable = true }

abbrev owners : List Text
owners = codes "us" ∷ []

abbrev own_remote : List (Text × Text)
own_remote = (codes "origin", codes "git@github.com:us/tool.git") ∷ []

abbrev fork_remote : List (Text × Text)
fork_remote = (codes "origin", codes "git@github.com:us/up.git") ∷ []

own_asked : ask_github same_text github owners (codes "us/tool" ∷ []) ≡ some (codes "own")
unfolding ask_github text_eq codes githost_mcp.Identity.Remote.classify_fork_provenance
own_asked = refl

ask_github-IsOwn_example : All (IsOwn same_text github owners) (codes "us/tool" ∷ [])
ask_github-IsOwn_example = ask_github-IsOwn same_text github owners (codes "us/tool" ∷ []) own_asked

abbrev own_reason : Text
own_reason =
    codes "all remotes are forge-controlled" ++ codes ", and not a fork of a repo we do not own"

own_resolved :
    resolve_auto same_text no_split github uncached own_remote owners []
    ≡ ok ((Mode.agent, own_reason), cached_own)
unfolding resolve_auto githost_mcp.Git.Mode.gitea_host
    githost_mcp.Identity.Ownership.resolve_ownership githost_mcp.Identity.Ownership.third_party
    githost_mcp.Identity.Ownership.sorted_items githost_mcp.Identity.Ownership.insert_item
    githost_mcp.Identity.Remote.is_forge_controlled githost_mcp.Identity.Remote.is_local_path_remote
    githost_mcp.Base.starts_with codes githost_mcp.Identity.Remote.parse_remote
    githost_mcp.Identity.Remote.matches_scheme_remote githost_mcp.Security.Urls.after_scheme
    githost_mcp.Base.drop_while githost_mcp.Security.Chars.is_scheme_char
    githost_mcp.Identity.Remote.match_scp_remote githost_mcp.Security.Urls.split_userinfo
    githost_mcp.Base.take_while githost_mcp.Identity.Remote.host_path githost_mcp.Base.before_char
    githost_mcp.Base.lstrip_char githost_mcp.Identity.Remote.is_owned githost_mcp.Base.text_mem
    githost_mcp.Base.text_eq githost_mcp.Git.Mode.github_forge_owned_repos
    githost_mcp.Identity.Remote.github_names githost_mcp.Base.sort_texts
    githost_mcp.Base.insert_text githost_mcp.Identity.Remote.repo_full_name
    githost_mcp.Base.split_on githost_mcp.Identity.Remote.remove_suffix githost_mcp.Base.ends_with
    githost_mcp.Git.Mode.lookup_fork_provenance githost_mcp.Base.join githost_mcp.Base.text_le
    ask_github githost_mcp.Git.Mode.read_cached_provenance
    githost_mcp.Git.Mode.write_cached_provenance
    githost_mcp.Identity.Remote.classify_fork_provenance githost_mcp.Identity.Remote.parse_split
own_resolved = refl

resolve_auto-IsInternal_example : IsInternal same_text no_split github uncached own_remote owners []
resolve_auto-IsInternal_example =
    resolve_auto-IsInternal same_text no_split github uncached cached_own own_remote owners []
      own_reason own_resolved

abbrev mode_of : Result ((Mode × Text) × GitConfig) → Option Mode
mode_of (ok p) = some p.0.0
mode_of _ = none

-- Our fork of another project's repository is public, unless the caller asks for the agent.
mode_tests :
    (mode_of (
        resolve_identity_mode same_text no_split github uncached fork_remote owners []
          (codes "auto"))
      ≡ some Mode.public)
    × (mode_of (
          resolve_identity_mode same_text no_split github uncached fork_remote owners []
            (codes "agent"))
        ≡ some Mode.agent)
    × (mode_of (
          resolve_identity_mode same_text no_split github uncached fork_remote owners []
            (codes "other"))
        ≡ none)
unfolding resolve_auto githost_mcp.Git.Mode.gitea_host
    githost_mcp.Identity.Ownership.resolve_ownership githost_mcp.Identity.Ownership.third_party
    githost_mcp.Identity.Ownership.sorted_items githost_mcp.Identity.Ownership.insert_item
    githost_mcp.Identity.Remote.is_forge_controlled githost_mcp.Identity.Remote.is_local_path_remote
    githost_mcp.Base.starts_with codes githost_mcp.Identity.Remote.parse_remote
    githost_mcp.Identity.Remote.matches_scheme_remote githost_mcp.Security.Urls.after_scheme
    githost_mcp.Base.drop_while githost_mcp.Security.Chars.is_scheme_char
    githost_mcp.Identity.Remote.match_scp_remote githost_mcp.Security.Urls.split_userinfo
    githost_mcp.Base.take_while githost_mcp.Identity.Remote.host_path githost_mcp.Base.before_char
    githost_mcp.Base.lstrip_char githost_mcp.Identity.Remote.is_owned githost_mcp.Base.text_mem
    githost_mcp.Base.text_eq githost_mcp.Git.Mode.github_forge_owned_repos
    githost_mcp.Identity.Remote.github_names githost_mcp.Base.sort_texts
    githost_mcp.Base.insert_text githost_mcp.Identity.Remote.repo_full_name
    githost_mcp.Base.split_on githost_mcp.Identity.Remote.remove_suffix githost_mcp.Base.ends_with
    githost_mcp.Git.Mode.lookup_fork_provenance githost_mcp.Base.join githost_mcp.Base.text_le
    ask_github githost_mcp.Git.Mode.read_cached_provenance
    githost_mcp.Git.Mode.write_cached_provenance
    githost_mcp.Identity.Remote.classify_fork_provenance githost_mcp.Identity.Remote.parse_split
    resolve_identity_mode
mode_tests = (refl, refl, refl)

worktree_accepted : validate_worktree_name (some (codes "fix-1")) ≡ ok (codes "fix-1")
unfolding validate_worktree_name codes githost_mcp.Base.contains githost_mcp.Base.starts_with
    githost_mcp.Git.Refs.matches_worktree_name
worktree_accepted = refl

validate_worktree_name-IsWorktreeName_example :
    (some (codes "fix-1") ≡ some (codes "fix-1")) × IsWorktreeName (codes "fix-1")
validate_worktree_name-IsWorktreeName_example =
    validate_worktree_name-IsWorktreeName (some (codes "fix-1")) (codes "fix-1") worktree_accepted

worktree_tests :
    (succeeds (validate_worktree_name (some (codes "a/b"))) ≡ false)
    × (succeeds (validate_worktree_name (some (codes "a..b"))) ≡ false)
unfolding validate_worktree_name codes githost_mcp.Base.contains githost_mcp.Base.starts_with
    githost_mcp.Git.Refs.matches_worktree_name
worktree_tests = (refl, refl)

protected_branch_reason_iff_example :
    (protected_branch_reason (codes "dev") (some (codes "main")) ≡ none) ↔ (
      (text_mem (codes "dev") always_protected_branches ≡ false)
      × (some (codes "main") ≢ some (codes "dev")))
protected_branch_reason_iff_example =
    protected_branch_reason_iff (codes "dev") (some (codes "main"))
