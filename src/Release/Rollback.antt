-- ===== src/Release/Rollback.antt =====
-- _rollback() of src/githost_mcp/tools/release.py.
use githost_mcp.Base.{
  Bool, true, false, Text, Option, some, none, [], ◌∷◌, ◌++◌, codes, reverse, before_char, has_char,
  if◌then◌else◌,
}
use githost_mcp.Tools.Host.{Call, Host}
use githost_mcp.Tools.Run.{Run, pure, ◌>>=◌, ◌>>◌, attempt, ask}

-- What the list `created` holds, which is only asked for its members.
pub record Created : Type 0 where
  pub tag : Bool
  pub pushed : Bool
  pub github : Bool
  pub gitea : Bool
  pub gitlab : Bool

-- The repositories that a release is for.
pub record Repos : Type 0 where
  pub github : Option Text
  pub gitea : Option Text
  pub gitlab : Option Text

abbrev pub no_repos : Repos
no_repos = record { github = none; gitea = none; gitlab = none }

-- An argument that is None or empty is not given.
abbrev pub given : Option Text → Option Text
given none = none
given (some []) = none
given (some (c ∷ t)) = some (c ∷ t)

-- `try: m` with a handler that only logs.
abbrev pub swallow : Run (Unit {0}) → Run (Unit {0})
swallow m = attempt m (λ t f. pure tt)

-- What is before the first slash, or the configured owner, and what is behind the last one.
unfoldable pub gitea_releases : Text → Text → Text
gitea_releases default_owner repo =
    let owner = if has_char b'/' repo then before_char b'/' repo else default_owner in
    let name = reverse (before_char b'/' (reverse repo)) in
    codes "/repos/" ++ (owner ++ ((b'/' ∷ name) ++ codes "/releases"))

module _ (host : Host) (path tag : Text) where
  unfoldable pub undo_github : Bool → Option Text → Run (Unit {0})
  undo_github true (some repo) = swallow (do
    ask host.done (Call.github_get_repo repo)
    ask host.done (Call.github_get_release repo tag)
    ask host.done (Call.github_delete_release repo tag))
  undo_github true none = pure tt
  undo_github false repo = pure tt

  unfoldable pub undo_gitlab : Bool → Option Text → Run (Unit {0})
  undo_gitlab true (some project) = swallow (do
    ask host.done (Call.gitlab_get_project project)
    ask host.done (Call.gitlab_delete_release project tag))
  undo_gitlab true none = pure tt
  undo_gitlab false project = pure tt

  unfoldable pub undo_gitea : Bool → Option Text → Run (Unit {0})
  undo_gitea true (some repo) = swallow (
      ask host.done (
        Call.gitea_delete_release
          (gitea_releases host.config.gitea_owner repo ++ (codes "/tags/" ++ tag))))
  undo_gitea true none = pure tt
  undo_gitea false repo = pure tt

  unfoldable pub undo_tag : Bool → Run (Unit {0})
  undo_tag true = swallow (ask host.done (Call.delete_tag path tag))
  undo_tag false = pure tt

  unfoldable pub push_deletion : Run (Unit {0})
  push_deletion = do
    pushed ←
        ask host.infos (Call.push path (codes "origin") (b':' ∷ (codes "refs/tags/" ++ tag)) none)
    pure tt

  unfoldable pub undo_pushed : Bool → Run (Unit {0})
  undo_pushed true = swallow push_deletion
  undo_pushed false = pure tt

  unfoldable pub rollback : Created → Repos → Run (Unit {0})
  rollback created repos = do
    undo_github created.github (given repos.github)
    undo_gitlab created.gitlab (given repos.gitlab)
    undo_gitea created.gitea (given repos.gitea)
    undo_tag created.tag
    undo_pushed created.pushed
