-- ===== src/Release/Plan.antt =====
-- The plan of release() of src/githost_mcp/tools/release.py and what its steps create, with
-- _create_release_sync() and _get_package_name().
use githost_mcp.Base.{
  true, false, not, is_empty, text_mem, or_default, starts_with, drop, drop_while, take_while,
  is_space, split_on, ◌==◌, Text, Option, some, none, List, [], ◌∷◌, ◌++◌, codes, if◌then◌else◌,
}
use githost_mcp.Config.System.{Config}
use githost_mcp.Audit.Values.{Fields}
use githost_mcp.Tools.Host.{Call, Host}
use githost_mcp.Tools.Run.{Run, pure, ◌>>=◌, ◌>>◌, ask, when, text_value, bool_value}
use githost_mcp.Bootstrap.Clone.{path_join}
use githost_mcp.Release.Rollback.{Created, Repos, given, gitea_releases}

-- The arguments of a release, with the targets that it is for.
pub record Plan : Type 0 where
  pub path : Text
  pub version : Text
  pub targets : List Text
  pub repos : Repos
  pub notes : Option Text

abbrev pub tag_of : Text → Text
tag_of version = b'v' ∷ version

-- The variables `created` and `urls`.
pub record State : Type 0 where
  pub created : Created
  pub urls : List (Text × Text)

abbrev pub if_set : Text → Option Text → Text → List Text
if_set token (some repo) name = if is_empty token then [] else name ∷ []
if_set token none name = []

abbrev pub if_token : Text → Text → List Text
if_token token name = if is_empty token then [] else name ∷ []

-- The targets that are configured, where none is named.
unfoldable pub effective_targets : Config → List Text → Repos → List Text
effective_targets config (t ∷ targets) repos = t ∷ targets
effective_targets config [] repos =
    if_set config.github_token (given repos.github) (codes "github")
    ++ (if_set config.gitea_token (given repos.gitea) (codes "gitea")
        ++ (if_set config.gitlab_token (given repos.gitlab) (codes "gitlab")
            ++ (if_token config.pypi_token (codes "pypi")
                ++ if_token config.npm_token (codes "npm"))))

-- The repository of a target, where the release is for it.
unfoldable pub wanted : List Text → Text → Option Text → Option Text
wanted targets name repo = if text_mem name targets then given repo else none

-- `^name\s*=\s*"([^"]+)"`
abbrev pub quoted : Text → Text → Option Text
quoted [] rest = none
quoted (c ∷ name) [] = none
quoted (c ∷ name) (d ∷ rest) = some (c ∷ name)

abbrev pub after_quote : Text → Option Text
after_quote [] = none
after_quote (c ∷ s) =
    if c == b'"'
    then quoted (take_while (λ x. not (x == b'"')) s) (drop_while (λ x. not (x == b'"')) s)
    else none

abbrev pub after_equals : Text → Option Text
after_equals [] = none
after_equals (c ∷ s) = if c == b'=' then after_quote (drop_while is_space s) else none

unfoldable pub match_name : Text → Option Text
match_name line =
    if starts_with line (codes "name")
    then after_equals (drop_while is_space (drop 4 line))
    else none

unfoldable pub first_name : List Text → Text
first_name [] = codes "unknown"
first_name (line ∷ lines) =
    let rest = first_name lines in elim (match_name line) [ some name ↦ name | none ↦ rest ]

module _ (host : Host) where
  unfoldable pub read_package_name : Text → Run Text
  read_package_name toml = do
    text ← ask host.text (Call.read_file toml)
    pure (first_name (split_on 10 text))

  unfoldable pub package_name : Text → Run Text
  package_name path = do
    found ← ask host.flag (Call.exists (path_join path (codes "pyproject.toml")))
    when found (read_package_name (path_join path (codes "pyproject.toml"))) (codes "unknown")

  -- _create_release_sync()
  unfoldable pub create_github : Plan → Text → Run Text
  create_github plan repo = do
    ask host.done (Call.github_get_repo repo)
    ask host.text (Call.github_create_release repo (tag_of plan.version) (or_default plan.notes []))

  unfoldable pub create_gitea : Plan → Text → Run Text
  create_gitea plan repo = ask host.text (
      Call.gitea_create_release (gitea_releases host.config.gitea_owner repo) (tag_of plan.version)
        (or_default plan.notes []))

  unfoldable pub create_gitlab : Plan → Text → Run Text
  create_gitlab plan project = do
    ask host.done (Call.gitlab_get_project project)
    ask host.text
        (Call.gitlab_create_release project (tag_of plan.version) (or_default plan.notes []))

abbrev pub rolled_back : Text → Fields
rolled_back text =
    Fields.field (codes "error") (text_value text)
      (Fields.field (codes "rolled_back") (bool_value true) Fields.end)

abbrev pub with_github : Created → Created
with_github c = record {
  tag = c.tag;
  pushed = c.pushed;
  github = true;
  gitea = c.gitea;
  gitlab = c.gitlab;
}

abbrev pub with_gitea : Created → Created
with_gitea c = record {
  tag = c.tag;
  pushed = c.pushed;
  github = c.github;
  gitea = true;
  gitlab = c.gitlab;
}

abbrev pub with_gitlab : Created → Created
with_gitlab c = record {
  tag = c.tag;
  pushed = c.pushed;
  github = c.github;
  gitea = c.gitea;
  gitlab = true;
}

abbrev pub nothing_created : Created
nothing_created = record {
  tag = false;
  pushed = false;
  github = false;
  gitea = false;
  gitlab = false;
}

abbrev pub only_tag : Created
only_tag = record { tag = true; pushed = false; github = false; gitea = false; gitlab = false }

abbrev pub tag_and_push : Created
tag_and_push = record { tag = true; pushed = true; github = false; gitea = false; gitlab = false }

unfoldable pub url_fields : List (Text × Text) → Fields
url_fields [] = Fields.end
url_fields ((name, url) ∷ urls) = Fields.field name (text_value url) (url_fields urls)
