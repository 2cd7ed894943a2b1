-- ===== src/Release/Laws.antt =====
-- What a release of src/githost_mcp/tools/release.py that fails leaves behind.
use githost_mcp.Base.{
  Text, Bool, List, Option, true, false, some, none, [], ◌∷◌, ◌≡◌, ap, ◌∙◌, starts_with, ◌++◌,
  codes,
}
use githost_mcp.Release.Rollback.{
  gitea_releases, Created, Repos, given, undo_github, undo_gitlab, undo_gitea, undo_tag,
  undo_pushed, push_deletion, rollback,
}
use githost_mcp.Tools.Hoare.{Triple, Triple-bind, Triple-pure, Triple-ask, Triple-attempt}
use githost_mcp.Tools.Host.{Host, History}
use githost_mcp.Release.Left.{
  Things, nothing, set_tag, set_pushed, set_github, set_gitea, set_gitlab, remove, remove_self,
  if_answered, left, IsDependable, Left, Triple-done,
}

module _ (host : Host) where
  -- What there is where these steps were taken.
  abbrev pub one_if : Bool → Option (List Text) → List (List Text)
  one_if false k = []
  one_if true none = []
  one_if true (some k) = k ∷ []

  abbrev pub keyed : (Text → List Text) → Option Text → Option (List Text)
  keyed key none = none
  keyed key (some repo) = some (key repo)

  module _ (path tag : Text) where
    abbrev pub tag_key : List Text
    tag_key = path ∷ tag ∷ []

    abbrev pub pushed_key : List Text
    pushed_key = path ∷ codes "origin" ∷ (codes "refs/tags/" ++ tag) ∷ []

    abbrev pub release_key : Text → List Text
    release_key repo = repo ∷ tag ∷ []

    abbrev pub gitea_key : Text → List Text
    gitea_key repo = (gitea_releases host.config.gitea_owner repo ++ (codes "/tags/" ++ tag)) ∷ []

    abbrev pub things : Repos → Created → Things
    things repos c = record {
      tag = one_if c.tag (some tag_key);
      pushed = one_if c.pushed (some pushed_key);
      github = one_if c.github (keyed release_key (given repos.github));
      gitea = one_if c.gitea (keyed gitea_key (given repos.gitea));
      gitlab = one_if c.gitlab (keyed release_key (given repos.gitlab));
    }

  module _ (path tag : Text) (d : IsDependable host) (E : History → Type 0) where
    undo_github-Left :
        (b : Bool) (repo : Option Text) (c : Things)
        → Triple
            (Left host (set_github (one_if b (keyed (release_key path tag) repo)) c))
            (undo_github host path tag b repo)
            (λ _. Left host (set_github [] c))
            E
    unfolding undo_github left
    undo_github-Left false repo c = Triple-pure tt (λ h p. p)
    undo_github-Left true none c = Triple-pure tt (λ h p. p)
    undo_github-Left true (some repo) c =
        let k = release_key path tag repo in
        let before = Left host (set_github (k ∷ []) c) in
        let change = λ (x : Things). set_github (remove k x.github) x in
        Triple-attempt
          (Triple-bind (Triple-done host {Q = before} _ d (λ h e p. p)) (λ _.
            Triple-bind (Triple-done host {Q = before} _ d (λ h e p. p)) (λ _.
              (Triple-done host _ d (λ h e p.
                ap (λ a. if_answered a change (left host h)) e
                ∙ ap change p
                ∙ ap (λ l. set_github l c) (remove_self k))))))
          (λ t f. Triple-pure tt (λ h p. p))

    undo_gitlab-Left :
        (b : Bool) (repo : Option Text) (c : Things)
        → Triple
            (Left host (set_gitlab (one_if b (keyed (release_key path tag) repo)) c))
            (undo_gitlab host path tag b repo)
            (λ _. Left host (set_gitlab [] c))
            E
    unfolding undo_gitlab left
    undo_gitlab-Left false repo c = Triple-pure tt (λ h p. p)
    undo_gitlab-Left true none c = Triple-pure tt (λ h p. p)
    undo_gitlab-Left true (some repo) c =
        let k = release_key path tag repo in
        let before = Left host (set_gitlab (k ∷ []) c) in
        let change = λ (x : Things). set_gitlab (remove k x.gitlab) x in
        Triple-attempt
          (Triple-bind (Triple-done host {Q = before} _ d (λ h e p. p)) (λ _.
            (Triple-done host _ d (λ h e p.
              ap (λ a. if_answered a change (left host h)) e
              ∙ ap change p
              ∙ ap (λ l. set_gitlab l c) (remove_self k)))))
          (λ t f. Triple-pure tt (λ h p. p))

    undo_gitea-Left :
        (b : Bool) (repo : Option Text) (c : Things)
        → Triple
            (Left host (set_gitea (one_if b (keyed (gitea_key path tag) repo)) c))
            (undo_gitea host path tag b repo)
            (λ _. Left host (set_gitea [] c))
            E
    unfolding undo_gitea left
    undo_gitea-Left false repo c = Triple-pure tt (λ h p. p)
    undo_gitea-Left true none c = Triple-pure tt (λ h p. p)
    undo_gitea-Left true (some repo) c =
        let k = gitea_key path tag repo in
        let before = Left host (set_gitea (k ∷ []) c) in
        let change = λ (x : Things). set_gitea (remove k x.gitea) x in
        Triple-attempt
          ((Triple-done host _ d (λ h e p.
            ap (λ a. if_answered a change (left host h)) e
            ∙ ap change p
            ∙ ap (λ l. set_gitea l c) (remove_self k))))
          (λ t f. Triple-pure tt (λ h p. p))

    undo_tag-Left :
        (b : Bool) (c : Things)
        → Triple
            (Left host (set_tag (one_if b (some (tag_key path tag))) c))
            (undo_tag host path tag b)
            (λ _. Left host (set_tag [] c))
            E
    unfolding undo_tag left
    undo_tag-Left false c = Triple-pure tt (λ h p. p)
    undo_tag-Left true c =
        let change = λ (x : Things). set_tag (remove (tag_key path tag) x.tag) x in
        Triple-attempt
          (Triple-done host _ d (λ h e p.
            ap (λ a. if_answered a change (left host h)) e
            ∙ ap change p
            ∙ ap (λ l. set_tag l c) (remove_self (tag_key path tag))))
          (λ t f. Triple-pure tt (λ h p. p))

    undo_pushed-Left :
        (b : Bool) (c : Things)
        → Triple
            (Left host (set_pushed (one_if b (some (pushed_key path tag))) c))
            (undo_pushed host path tag b)
            (λ _. Left host (set_pushed [] c))
            E
    unfolding undo_pushed push_deletion left starts_with
    undo_pushed-Left false c = Triple-pure tt (λ h p. p)
    undo_pushed-Left true c =
        let change = λ (x : Things). set_pushed (remove (pushed_key path tag) x.pushed) x in
        let gone : (h : History)
            → left host h ≡ set_pushed (pushed_key path tag ∷ []) c
            → change (left host h) ≡ set_pushed [] c =
          λ h p. ap change p ∙ ap (λ l. set_pushed l c) (remove_self (pushed_key path tag)) in
        Triple-attempt
          (Triple-bind {Q = λ _. Left host (set_pushed [] c)}
            (Triple-ask {E = Left host (set_pushed [] c)} _ _ (λ h a e p. gone h p)
              (λ h t f e p. gone h p))
            (λ pushed. Triple-pure tt (λ h p. p)))
          (λ t f. Triple-pure tt (λ h p. p))

    pub rollback-Left :
        (c : Created) (repos : Repos)
        → Triple
            (Left host (things path tag repos c))
            (rollback host path tag c repos)
            (λ _. Left host nothing)
            E
    unfolding rollback
    rollback-Left c repos =
        let t = things path tag repos c in
        Triple-bind (undo_github-Left c.github (given repos.github) t) (λ _.
          Triple-bind (undo_gitlab-Left c.gitlab (given repos.gitlab) (set_github [] t)) (λ _.
            Triple-bind
              (undo_gitea-Left c.gitea (given repos.gitea) (set_gitlab [] (set_github [] t)))
              (λ _.
                Triple-bind (undo_tag-Left c.tag (set_gitea [] (set_gitlab [] (set_github [] t))))
                  (λ _.
                    undo_pushed-Left c.pushed
                      (set_tag [] (set_gitea [] (set_gitlab [] (set_github [] t))))))))
