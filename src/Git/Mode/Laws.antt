-- ===== src/Git/Mode/Laws.antt =====
-- When a commit carries the agent's identity.
use githost_mcp.Base.{
  Any, or_default, text_eq_refl, inr, inl, if◌then◌else◌, ap, ◌⊎◌, true, arith, Bool, refl, [], ◌∷◌,
  none, false, All, text_eq, codes, some, ◌≡◌, List, Option, Text,
}
use githost_mcp.Errors.{Result, ok, >>=-eq-ok, ok-injective}
use githost_mcp.Identity.Remote.{SplitUrl, classify_fork_provenance}
use githost_mcp.Identity.Ownership.{Mode, RepoOwnership, resolve_ownership}
use githost_mcp.Identity.Ownership.Laws.{ThirdParty, checked, resolve_ownership-public}
use githost_mcp.Git.Mode.{
  GithubRepo, GitConfig, ask_github, lookup_fork_provenance, gitea_host, github_forge_owned_repos,
  by_provenance, by_candidates, by_ownership, resolve_auto, judge_repo,
}

third_party_not_own : text_eq (codes "third-party") (codes "own") ≡ false
unfolding text_eq codes
third_party_not_own = refl

judged_own :
    (b : Bool) (later : Option Text)
    → (if b then some (codes "third-party") else later) ≡ some (codes "own")
    → (b ≡ false) × (later ≡ some (codes "own"))
judged_own true later h = absurd (
    ground (
      arith,
      third_party_not_own,
      text_eq_refl (codes "own"),
      ap (λ o. text_eq (or_default o []) (codes "own")) h,
    ))
judged_own false later h = (refl, h)

module _ (lower : Text → Text) (get_repo : Text → Option GithubRepo) where
  -- GitHub answered for the repository, and it is no fork of one that is not owned.
  abbrev pub IsOwn : List Text → Text → Type 0
  IsOwn forge_owners full_name =
      (r : GithubRepo) × (get_repo full_name ≡ some r)
      × (text_eq (classify_fork_provenance lower r.fork r.parent forge_owners) (codes "third-party")
          ≡ false)

  judge_repo-IsOwn :
      (forge_owners : List Text) (n : Text) (o : Option GithubRepo) (later : Option Text)
      → get_repo n ≡ o
      → judge_repo lower get_repo forge_owners o later ≡ some (codes "own")
      → IsOwn forge_owners n × (later ≡ some (codes "own"))
  judge_repo-IsOwn forge_owners n none later e h = absurd (ground arith)
  judge_repo-IsOwn forge_owners n (some r) later e h =
      let (p, q) =
        judged_own
          (text_eq (classify_fork_provenance lower r.fork r.parent forge_owners)
            (codes "third-party"))
          later h in
      ((r, e, p), q)

  -- The verdict `own` is reached only where GitHub answered for every repository that was asked
  -- about, and none of them is a fork of one that is not owned.
  pub ask_github-IsOwn :
      (forge_owners names : List Text)
      → ask_github lower get_repo forge_owners names ≡ some (codes "own")
      → All (IsOwn forge_owners) names
  unfolding ask_github
  ask_github-IsOwn forge_owners [] h = tt
  ask_github-IsOwn forge_owners (n ∷ names) h =
      let (own, rest) =
        judge_repo-IsOwn forge_owners n (get_repo n) (ask_github lower get_repo forge_owners names)
          refl h in
      (own, ask_github-IsOwn forge_owners names rest)

abbrev pub is_agent : Mode → Bool
is_agent Mode.agent = true
is_agent Mode.public = false

not_public : (m : Mode) → m ≡ Mode.agent → m ≡ Mode.public → ⊥
not_public m e k = absurd (ground (arith, ap is_agent e, ap is_agent k))

chosen_agent :
    (b : Bool) (r : Text) (p : Mode × Text)
    → is_agent (if b then (Mode.public, r) else p).0 ≡ true
    → b ≡ false
chosen_agent true r p h = absurd (ground arith)
chosen_agent false r p h = refl

by_provenance-agent :
    (ownership : RepoOwnership) (names : List Text) (verdict : Option Text)
    → is_agent (by_provenance ownership names verdict).0 ≡ true
    → (v : Text) × (verdict ≡ some v) × (text_eq v (codes "third-party") ≡ false)
by_provenance-agent ownership names none h = absurd (ground arith)
by_provenance-agent ownership names (some v) h = (v, refl, chosen_agent _ _ _ h)

module _ (lower : Text → Text) (urlsplit : Text → Result SplitUrl)
    (get_repo : Text → Option GithubRepo) where
  -- No candidate is left open: there is none, or the lookup gave a verdict other than third-party.
  abbrev pub Settled : GitConfig → List Text → List Text → Type 0
  Settled c forge_owners candidates =
      (candidates ≡ [])
      ⊎ ((v : Text) × ((lookup_fork_provenance lower get_repo c candidates forge_owners).0 ≡ some v)
          × (text_eq v (codes "third-party") ≡ false))

  by_candidates-Settled :
      (c : GitConfig) (forge_owners : List Text) (ownership : RepoOwnership)
      (candidates : List Text)
      → is_agent (by_candidates lower urlsplit get_repo c forge_owners ownership candidates).0.0
        ≡ true
      → Settled c forge_owners candidates
  by_candidates-Settled c forge_owners ownership [] h = inl refl
  by_candidates-Settled c forge_owners ownership (n ∷ names) h = inr (
      by_provenance-agent ownership (n ∷ names)
        (lookup_fork_provenance lower get_repo c (n ∷ names) forge_owners).0 h)

  by_ownership-agent :
      (c : GitConfig) (remotes : List (Text × Text)) (forge_owners : List Text)
      (ownership : RepoOwnership) (m : Mode) {reason : Text} {after : GitConfig}
      → by_ownership lower urlsplit get_repo c remotes forge_owners ownership m
        ≡ ok ((Mode.agent, reason), after)
      → (m ≡ Mode.agent)
        × ((candidates : List Text) × (github_forge_owned_repos lower urlsplit remotes forge_owners
              ≡ ok candidates)
            × Settled c forge_owners candidates)
  by_ownership-agent c remotes forge_owners ownership Mode.public h =
      absurd (ground (arith, ap is_agent (ap (λ p. p.0.0) (ok-injective h))))
  by_ownership-agent c remotes forge_owners ownership Mode.agent h =
      let (candidates, e, k) =
        >>=-eq-ok (github_forge_owned_repos lower urlsplit remotes forge_owners) _ h in
      (
        refl,
        (
          candidates,
          e,
          by_candidates-Settled c forge_owners ownership candidates
              (ap (λ p. is_agent p.0.0) (ok-injective k)),
        ),
      )

  -- The remotes are all under forge's control, and no fork question is left open.
  abbrev pub IsInternal : GitConfig → List (Text × Text) → List Text → Text → Type 0
  IsInternal c remotes forge_owners gitea_url =
      (host : Text) × (gitea_host urlsplit gitea_url ≡ ok host)
      × (¬ Any (ThirdParty (checked lower urlsplit forge_owners host)) remotes)
      × ((candidates : List Text) × (github_forge_owned_repos lower urlsplit remotes forge_owners
            ≡ ok candidates)
          × Settled c forge_owners candidates)

  -- Where the identity is left to the server and comes out as the agent's, the host of Gitea was
  -- read, no remote is third-party, and either no remote is a GitHub repository of an owned account
  -- or the lookup of those gave a verdict other than third-party.
  pub resolve_auto-IsInternal :
      (c after : GitConfig) (remotes : List (Text × Text)) (forge_owners : List Text)
      (gitea_url reason : Text)
      → resolve_auto lower urlsplit get_repo c remotes forge_owners gitea_url
        ≡ ok ((Mode.agent, reason), after)
      → IsInternal c remotes forge_owners gitea_url
  unfolding resolve_auto
  resolve_auto-IsInternal c after remotes forge_owners gitea_url reason h =
      let (host, e, h1) = >>=-eq-ok (gitea_host urlsplit gitea_url) _ h in
      let (ownership, o, h2) =
        >>=-eq-ok (resolve_ownership lower urlsplit remotes forge_owners host) _ h1 in
      let (m, settled) = by_ownership-agent c remotes forge_owners ownership ownership.mode h2 in
      let (to, from) =
        resolve_ownership-public lower urlsplit remotes forge_owners host ownership o in
      (host, e, (λ a. not_public ownership.mode m (from a)), settled)
