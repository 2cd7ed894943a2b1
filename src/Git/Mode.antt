-- ===== src/Git/Mode.antt =====
-- _gitea_host(), _lookup_fork_provenance() and _resolve_identity_mode() of
-- src/githost_mcp/tools/git_local.py, with github_forge_owned_repos() of src/githost_mcp/identity.py
-- at the remotes of a repository. GitHub's answer for a repository is the parameter `get_repo`.
pub mod Laws
use githost_mcp.Base.{
  ◌||◌, none, map, join, ◌++◌, text_eq, sort_texts, some, or_default, [], ◌∷◌, if◌then◌else◌, codes,
  List, Text, Option, Bool, ℕ,
}
use githost_mcp.Errors.{Result, ok, err, ◌>>=◌, ExcType, Fault}
use githost_mcp.Identity.Remote.{SplitUrl, classify_fork_provenance, github_names}
use githost_mcp.Identity.Ownership.{Mode, RepoOwnership, resolve_ownership}

-- What is read of a repository that GitHub knows: `fork`, and the `full_name` of its parent.
pub record GithubRepo : Type 0 where
  pub fork : Bool
  pub parent : Option Text

-- The value under `githost-mcp.upstream-provenance` of the repository's own git configuration,
-- `none` where it is missing or unreadable, and whether that configuration can be written.
pub record GitConfig : Type 0 where
  pub provenance : Option Text
  pub writable : Bool

-- `str(value) if value in (PROVENANCE_OWN, PROVENANCE_THIRD_PARTY) else None`
unfoldable pub read_cached_provenance : GitConfig → Option Text
read_cached_provenance c = elim c.provenance [
  | none ↦ none
  | some v ↦ if text_eq v (codes "own") || text_eq v (codes "third-party") then some v else none
]

unfoldable pub write_cached_provenance : GitConfig → Text → GitConfig
write_cached_provenance c verdict = if c.writable then record c { provenance = some verdict } else c

module _ (lower : Text → Text) (get_repo : Text → Option GithubRepo) where
  -- One round of the loop, with the rest of the loop; `none` where the call raises.
  abbrev pub judge_repo : List Text → Option GithubRepo → Option Text → Option Text
  judge_repo forge_owners none later = none
  judge_repo forge_owners (some r) later =
      if text_eq (classify_fork_provenance lower r.fork r.parent forge_owners) (codes "third-party")
      then some (codes "third-party")
      else later

  unfoldable pub ask_github : List Text → List Text → Option Text
  ask_github forge_owners [] = some (codes "own")
  ask_github forge_owners (full_name ∷ names) =
      judge_repo forge_owners (get_repo full_name) (ask_github forge_owners names)

  -- The verdict, and the configuration with what was cached.
  unfoldable pub lookup_fork_provenance :
      GitConfig → List Text → List Text → Option Text × GitConfig
  lookup_fork_provenance c full_names forge_owners = elim (read_cached_provenance c) [
    | some v ↦ (some v, c)
    | none ↦ elim (ask_github forge_owners full_names) [
      | none ↦ (none, c)
      | some verdict ↦ (some verdict, write_cached_provenance c verdict)
    ]
  ]

-- `urlsplit(gitea_url).hostname or ""`
unfoldable pub gitea_host : (Text → Result SplitUrl) → Text → Result Text
gitea_host urlsplit [] = ok []
gitea_host urlsplit (c ∷ url) = urlsplit (c ∷ url) >>= λ u. ok (or_default u.hostname [])

unfoldable pub github_forge_owned_repos :
    (lower : Text → Text) (urlsplit : Text → Result SplitUrl)
    → List (Text × Text)
    → List Text
    → Result (List Text)
github_forge_owned_repos lower urlsplit remotes forge_owners =
    github_names lower urlsplit forge_owners (sort_texts (map (λ r. r.1) remotes))

-- What GitHub's verdict makes of a repository that the remotes say is controlled.
abbrev pub by_provenance : RepoOwnership → List Text → Option Text → Mode × Text
by_provenance ownership candidates none = (
  Mode.public,
  codes "fork provenance could not be determined for "
      ++ (join (codes ", ") candidates
          ++ (codes " " ++ ((0x2014 ∷ []) ++ codes " defaulting to the public identity"))),
)
by_provenance ownership candidates (some v) =
    if text_eq v (codes "third-party")
    then (Mode.public, codes "fork of a repo we do not own: " ++ join (codes ", ") candidates)
    else (ownership.mode, ownership.reason ++ codes ", and not a fork of a repo we do not own")

module _ (lower : Text → Text) (urlsplit : Text → Result SplitUrl)
    (get_repo : Text → Option GithubRepo) where
  -- `if not candidates`, then the lookup.
  abbrev pub by_candidates :
      GitConfig → List Text → RepoOwnership → List Text → (Mode × Text) × GitConfig
  by_candidates c forge_owners ownership [] = ((ownership.mode, ownership.reason), c)
  by_candidates c forge_owners ownership (n ∷ names) =
      let (verdict, after) = lookup_fork_provenance lower get_repo c (n ∷ names) forge_owners in
      (by_provenance ownership (n ∷ names) verdict, after)

  abbrev pub by_ownership :
      GitConfig
      → List (Text × Text)
      → List Text
      → RepoOwnership
      → Mode
      → Result ((Mode × Text) × GitConfig)
  by_ownership c remotes forge_owners ownership Mode.public =
      ok ((Mode.public, ownership.reason), c)
  by_ownership c remotes forge_owners ownership Mode.agent =
      github_forge_owned_repos lower urlsplit remotes forge_owners >>= λ candidates.
      ok (by_candidates c forge_owners ownership candidates)

  unfoldable pub resolve_auto :
      GitConfig → List (Text × Text) → List Text → Text → Result ((Mode × Text) × GitConfig)
  resolve_auto c remotes forge_owners gitea_url = gitea_host urlsplit gitea_url >>= λ host.
      resolve_ownership lower urlsplit remotes forge_owners host >>= λ ownership.
      by_ownership c remotes forge_owners ownership ownership.mode

  abbrev pub requested_reason : Text → Text
  requested_reason requested =
      codes "explicitly requested by caller (identity=" ++ (requested ++ codes ")")

  -- The mode and its reason, and the repository's configuration afterwards.
  unfoldable pub resolve_identity_mode :
      GitConfig → List (Text × Text) → List Text → Text → Text → Result ((Mode × Text) × GitConfig)
  resolve_identity_mode c remotes forge_owners gitea_url requested =
      if text_eq requested (codes "agent")
      then ok ((Mode.agent, requested_reason requested), c)
      else if text_eq requested (codes "public")
      then ok ((Mode.public, requested_reason requested), c)
      else if text_eq requested (codes "auto")
      then resolve_auto c remotes forge_owners gitea_url
      else err ExcType.invalid_argument (Fault.unknown_identity requested)
