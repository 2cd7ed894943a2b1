-- ===== src/Release/Forges.antt =====
-- The steps of a release of src/githost_mcp/tools/release.py at the forges: each one succeeds or undoes all.
use githost_mcp.Base.{
  ◌∷◌, text_mem, inr, if◌then◌else◌, Text, Bool, List, Option, true, false, some, none, ◌≡◌, refl,
  ap, ◌∙◌, ◌⊎◌, inl, codes, is_some, text_eq,
}
use githost_mcp.Errors.{ExcType, Fault}
use githost_mcp.Audit.Values.{Fields}
use githost_mcp.Audit.Rejection.{Reason}
use githost_mcp.Tools.Hoare.{
  Triple, Triple-bind, Triple-pure, Triple-ask, Triple-ask_keep, Triple-when, Triple-attempt,
  Triple-attempt_then,
}
use githost_mcp.Tools.Host.{Host, History}
use githost_mcp.Tools.Run.{pure, attempt, Run, lookup, Ctx, finish, refuse}
use githost_mcp.Release.Rollback.{given, Created}
use githost_mcp.Release.Plan.{
  tag_of, wanted, Plan, State, with_github, with_gitea, with_gitlab, read_package_name,
  package_name, create_github, create_gitea, create_gitlab,
}
use githost_mcp.Release.Steps.{
  publish_packages, publish_gitlab, publish_github, publish_gitea, give_up, publish, uploaded,
  upload_pypi, run_npm,
}
use githost_mcp.Release.Left.{
  Things, nothing, absurd_bool, left, Left, IsDependable, Triple-done, if_answered, set_github,
  set_gitea, set_gitlab,
}
use githost_mcp.Release.Laws.{things, one_if, keyed, release_key, gitea_key, rollback-Left}

module _ (host : Host) where
  -- An error and nothing left, or no error.
  abbrev pub Settled : Fields → History → Type 0
  Settled response h =
      ((is_some (lookup (codes "error") response) ≡ true) × (left host h ≡ nothing))
      ⊎ (lookup (codes "error") response ≡ none)

  abbrev pub Concludes : Things → Run Fields → Type 0
  Concludes c m = Triple (Left host c) m Settled (Left host nothing)

  pub finish-Left :
      (ctx : Ctx) (result : Text) (why : Reason) (c : Things) (E : History → Type 0)
      → Triple (Left host c) (finish host ctx result why) (λ _. Left host c) E
  unfolding finish left
  finish-Left ctx result why c E = record { ends = λ h p. p }

  pub refuse-Settled :
      (ctx : Ctx) (result : Text) (t : ExcType) (f : Fault)
      → Concludes nothing (refuse host ctx result t f)
  unfolding refuse lookup text_eq codes
  refuse-Settled ctx result t f =
      Triple-bind (finish-Left ctx _ _ _ _) (λ _. Triple-pure _ (λ h p. inl (refl, p)))

  module _ (ctx : Ctx) (plan : Plan) (d : IsDependable host) where
    -- What the steps that were taken have made.
    abbrev pub made : Created → Things
    made = things host plan.path (tag_of plan.version) plan.repos

    give_up-Settled :
        (name title : Text) (state : State) (t : ExcType) (f : Fault)
        → Concludes (made state.created) (give_up host ctx plan name title state t f)
    unfolding give_up lookup text_eq codes
    give_up-Settled name title state t f =
        Triple-bind
          (rollback-Left host plan.path (tag_of plan.version) d _ state.created plan.repos)
          (λ _. Triple-bind (finish-Left ctx _ _ _ _) (λ _. Triple-pure _ (λ h p. inl (refl, p))))

    publish-Settled :
        (want : Option Text) (create : Text → Run Text) (add : Created → Created)
        (name title : Text) (next : State → Run Fields) (state : State)
        → ((repo : Text)
            → want ≡ some repo
            → Triple
                (Left host (made state.created))
                (create repo)
                (λ _. Left host (made (add state.created)))
                (Left host (made state.created)))
        → Concludes (made state.created) (next state)
        → ((after : State)
            → after.created ≡ add state.created
            → Concludes (made after.created) (next after))
        → Concludes
            (made state.created)
            (publish host ctx plan want create add name title next state)
    unfolding publish
    publish-Settled none create add name title next state makes skip k = skip
    publish-Settled (some repo) create add name title next state makes skip k =
        Triple-attempt_then (makes repo refl) (λ url. k _ refl)
          (λ t f. give_up-Settled name title state t f)

    one_more :
        (key : Text → List Text) (b : Bool) (o : Option Text) (repo : Text)
        → b ≡ false
        → o ≡ some repo
        → key repo ∷ one_if host b (keyed host key o) ≡ one_if host true (keyed host key o)
    one_more key b o repo e q = rw (e, q) refl

    create_github-Left :
        (repo : Text) (c : Created)
        → c.github ≡ false
        → given plan.repos.github ≡ some repo
        → Triple
            (Left host (made c))
            (create_github host plan repo)
            (λ _. Left host (made (with_github c)))
            (Left host (made c))
    unfolding create_github left
    create_github-Left repo c new there =
        let change = λ (x : Things).
          set_github (release_key host plan.path (tag_of plan.version) repo ∷ x.github) x in
        Triple-bind {Q = λ _. Left host (made c)} (Triple-done host _ d (λ h e p. p)) (λ _.
          Triple-ask _ _
            (λ h a e p.
              ap (λ r. if_answered r change (left host h)) e
              ∙ ap change p
              ∙ ap (λ l. set_github l (made (with_github c)))
                  (one_more (release_key host plan.path (tag_of plan.version)) c.github
                    (given plan.repos.github) repo new there))
            (λ h t f e p. ap (λ r. if_answered r change (left host h)) e ∙ p))

    create_gitea-Left :
        (repo : Text) (c : Created)
        → c.gitea ≡ false
        → given plan.repos.gitea ≡ some repo
        → Triple
            (Left host (made c))
            (create_gitea host plan repo)
            (λ _. Left host (made (with_gitea c)))
            (Left host (made c))
    unfolding create_gitea left
    create_gitea-Left repo c new there =
        let change = λ (x : Things).
          set_gitea (gitea_key host plan.path (tag_of plan.version) repo ∷ x.gitea) x in
        Triple-ask _ _
          (λ h a e p.
            ap (λ r. if_answered r change (left host h)) e
            ∙ ap change p
            ∙ ap (λ l. set_gitea l (made (with_gitea c)))
                (one_more (gitea_key host plan.path (tag_of plan.version)) c.gitea
                  (given plan.repos.gitea) repo new there))
          (λ h t f e p. ap (λ r. if_answered r change (left host h)) e ∙ p)

    create_gitlab-Left :
        (repo : Text) (c : Created)
        → c.gitlab ≡ false
        → given plan.repos.gitlab ≡ some repo
        → Triple
            (Left host (made c))
            (create_gitlab host plan repo)
            (λ _. Left host (made (with_gitlab c)))
            (Left host (made c))
    unfolding create_gitlab left
    create_gitlab-Left repo c new there =
        let change = λ (x : Things).
          set_gitlab (release_key host plan.path (tag_of plan.version) repo ∷ x.gitlab) x in
        Triple-bind {Q = λ _. Left host (made c)} (Triple-done host _ d (λ h e p. p)) (λ _.
          Triple-ask _ _
            (λ h a e p.
              ap (λ r. if_answered r change (left host h)) e
              ∙ ap change p
              ∙ ap (λ l. set_gitlab l (made (with_gitlab c)))
                  (one_more (release_key host plan.path (tag_of plan.version)) c.gitlab
                    (given plan.repos.gitlab) repo new there))
            (λ h t f e p. ap (λ r. if_answered r change (left host h)) e ∙ p))

    -- The registries are only asked, and the report has no error.
    package_name-Left :
        (path : Text) (c : Things)
        → Triple (Left host c) (package_name host path) (λ _. Left host c) (Left host c)
    unfolding package_name read_package_name left
    package_name-Left path c = Triple-bind (Triple-ask_keep _ _ (λ h p. p)) (λ found.
        Triple-when _ _ _
          (Triple-bind (Triple-ask_keep _ _ (λ h p. p)) (λ text. Triple-pure _ (λ h p. p))))

    uploaded-Left :
        (urls : List (Text × Text)) (b : Bool) (c : Things)
        → Triple (Left host c) (uploaded host ctx plan urls b) (λ _. Left host c) (Left host c)
    unfolding uploaded
    uploaded-Left urls false c = Triple-pure _ (λ h p. p)
    uploaded-Left urls true c =
        Triple-bind (package_name-Left _ c) (λ name. Triple-pure _ (λ h p. p))

    upload_pypi-Left :
        (urls : List (Text × Text)) (c : Things) (E : History → Type 0)
        → Triple (Left host c) (upload_pypi host ctx plan urls) (λ _. Left host c) E
    unfolding upload_pypi left
    upload_pypi-Left urls c E =
        Triple-attempt (Triple-bind (Triple-ask_keep _ _ (λ h p. p)) (λ r. uploaded-Left urls _ c))
          (λ t f. Triple-pure _ (λ h p. p))

    run_npm-Left :
        (c : Things) (E : History → Type 0)
        → Triple
            (Left host c)
            (attempt (run_npm host ctx plan) (λ t f. pure tt))
            (λ _. Left host c)
            E
    unfolding run_npm left
    run_npm-Left c E =
        Triple-attempt
          (Triple-bind (Triple-ask_keep _ _ (λ h p. p)) (λ r. Triple-pure _ (λ h p. p)))
          (λ t f. Triple-pure _ (λ h p. p))

    publish_packages-Settled :
        (state : State) → Concludes (made state.created) (publish_packages host ctx plan state)
    unfolding publish_packages lookup text_eq codes
    publish_packages-Settled state =
        Triple-bind (Triple-when _ _ _ (upload_pypi-Left _ (made state.created) _)) (λ urls.
          Triple-bind (Triple-when _ _ _ (run_npm-Left (made state.created) _))
            (λ _. Triple-bind (finish-Left ctx _ _ _ _) (λ _. Triple-pure _ (λ h p. inr refl))))

    -- A repository that is wanted is the one that is given.
    given_if :
        (b : Bool) (repo : Option Text) (r : Text)
        → (if b then given repo else none) ≡ some r
        → given repo ≡ some r
    given_if true repo r e = e
    given_if false repo r e = absurd_bool (ap is_some e)

    wanted-given :
        (name : Text) (repo : Option Text) (r : Text)
        → wanted plan.targets name repo ≡ some r
        → given repo ≡ some r
    unfolding wanted
    wanted-given name repo r e = given_if (text_mem name plan.targets) repo r e

    publish_gitlab-Settled :
        (state : State)
        → state.created.gitlab ≡ false
        → Concludes (made state.created) (publish_gitlab host ctx plan state)
    unfolding publish_gitlab
    publish_gitlab-Settled state gitlab =
        publish-Settled _ _ _ _ _ _ state
          (λ repo e. create_gitlab-Left repo state.created gitlab (wanted-given _ _ repo e))
          (publish_packages-Settled state) (λ after q. publish_packages-Settled after)

    publish_gitea-Settled :
        (state : State)
        → state.created.gitea ≡ false
        → state.created.gitlab ≡ false
        → Concludes (made state.created) (publish_gitea host ctx plan state)
    unfolding publish_gitea
    publish_gitea-Settled state gitea gitlab =
        publish-Settled _ _ _ _ _ _ state
          (λ repo e. create_gitea-Left repo state.created gitea (wanted-given _ _ repo e))
          (publish_gitlab-Settled state gitlab)
          (λ after q. publish_gitlab-Settled after (ap (λ c. c.gitlab) q ∙ gitlab))

    pub publish_github-Settled :
        (state : State)
        → state.created.github ≡ false
        → state.created.gitea ≡ false
        → state.created.gitlab ≡ false
        → Concludes (made state.created) (publish_github host ctx plan state)
    unfolding publish_github
    publish_github-Settled state github gitea gitlab =
        publish-Settled _ _ _ _ _ _ state
          (λ repo e. create_github-Left repo state.created github (wanted-given _ _ repo e))
          (publish_gitea-Settled state gitea gitlab)
          (λ after q.
            publish_gitea-Settled after (ap (λ c. c.gitea) q ∙ gitea)
              (ap (λ c. c.gitlab) q ∙ gitlab))
