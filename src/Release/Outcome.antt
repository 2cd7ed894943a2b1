-- ===== src/Release/Outcome.antt =====
-- A release of src/githost_mcp/tools/release.py either succeeds or is undone.
use githost_mcp.Base.{
  not, starts_with, inr, if◌then◌else◌, Text, Bool, List, Option, true, false, ◌≡◌, refl, ap, ◌∙◌,
  inl, codes, text_eq, [], ◌∷◌,
}
use githost_mcp.Errors.{is_instance, ExcType, Fault}
use githost_mcp.Audit.Values.{Fields}
use githost_mcp.Gitflags.{evaluate_push}
use githost_mcp.Tools.Hoare.{
  Triple-raise, Triple-lift_keep, Triple-raise_when_keep, Ends, Triple, Triple-bind, Triple-pure,
  Triple-ask, Triple-ask_keep, Triple-attempt_then,
}
use githost_mcp.Tools.Host.{Host, History}
use githost_mcp.Tools.Run.{write_path, Run, lookup, Ctx}
use githost_mcp.Release.Rollback.{no_repos, Repos, Created}
use githost_mcp.Release.Plan.{tag_of, tag_and_push, only_tag, Plan, nothing_created}
use githost_mcp.Release.Steps.{
  run_plan, release_opened, release, path_refused, opened, not_opened, make_tag, check_tag,
  check_clean, tag_failed, pushed_tag, push_tag,
}
use githost_mcp.Release.Left.{
  Things, nothing, took, set_tag, after_push, left, Left, IsDependable, if_answered,
}
use githost_mcp.Release.Laws.{things, tag_key, pushed_key, rollback-Left}
use githost_mcp.Release.Forges.{
  Settled, Concludes, finish-Left, refuse-Settled, publish_github-Settled,
}

module _ (host : Host) where
  module _ (ctx : Ctx) (plan : Plan) (d : IsDependable host) where
    -- Before the first release nothing needs a repository.
    tag_failed-Settled :
        (c : Created) (t : ExcType) (f : Fault)
        → Concludes host
            (things host plan.path (tag_of plan.version) no_repos c)
            (tag_failed host ctx plan c t f)
    unfolding tag_failed lookup text_eq codes
    tag_failed-Settled c t f =
        Triple-bind (rollback-Left host plan.path (tag_of plan.version) d _ c no_repos) (λ _.
          Triple-bind (finish-Left host ctx _ _ _ _) (λ _. Triple-pure _ (λ h p. inl (refl, p))))

    -- What there is before the first release, which needs no repository.
    abbrev first_things : Created → Things
    first_things = things host plan.path (tag_of plan.version) no_repos

    pushed_tag-Settled :
        (flags : List Text) (why : Text) (failed : Bool)
        → Triple
            (Left host (first_things (if failed then only_tag else tag_and_push)))
            (pushed_tag host ctx plan flags why failed)
            (Settled host)
            (Left host nothing)
    unfolding pushed_tag lookup text_eq codes
    pushed_tag-Settled flags why true =
        Triple-bind (rollback-Left host plan.path (tag_of plan.version) d _ only_tag no_repos) (λ _.
          Triple-bind (finish-Left host ctx _ _ _ _) (λ _. Triple-pure _ (λ h p. inl (refl, p))))
    pushed_tag-Settled flags why false =
        publish_github-Settled host ctx plan d (record { created = tag_and_push; urls = [] }) refl
          refl refl

    abbrev pushed_to : Bool → Things → Things
    pushed_to taken =
        after_push host (pushed_key host plan.path (tag_of plan.version))
          (plan.path ∷ codes "origin" ∷ plan.version ∷ []) false taken

    after_push-failed :
        (b : Bool)
        → pushed_to (not b) (first_things only_tag)
          ≡ first_things (if b then only_tag else tag_and_push)
    after_push-failed true = refl
    after_push-failed false = refl

    push_tag-Settled : Concludes host (first_things only_tag) (push_tag host ctx plan)
    unfolding push_tag left starts_with
    push_tag-Settled =
        Triple-attempt_then
          (Triple-ask {E = Left host (first_things only_tag)}
            {Q = λ pushed h.
              left host h
              ≡ first_things (
                  if (evaluate_push host.push_flags host.config pushed.0 pushed.1).failed
                  then only_tag
                  else tag_and_push)}
            _ _
            (λ h a e p.
              ap (λ r. pushed_to (took host r) (left host h)) e
              ∙ ap (pushed_to _) p
              ∙ after_push-failed _)
            (λ h t f e p. ap (λ r. pushed_to (took host r) (left host h)) e ∙ p))
          (λ pushed. pushed_tag-Settled _ _ _) (λ t f. tag_failed-Settled only_tag t f)

    make_tag-Settled : Concludes host nothing (make_tag host ctx plan)
    unfolding make_tag left
    make_tag-Settled =
        let change =
          λ (x : Things). set_tag (tag_key host plan.path (tag_of plan.version) ∷ x.tag) x in
        Triple-attempt_then
          (Triple-ask {E = Left host nothing} {Q = λ _. Left host (first_things only_tag)} _ _
            (λ h a e p. ap (λ r. if_answered r change (left host h)) e ∙ ap change p)
            (λ h t f e p. ap (λ r. if_answered r change (left host h)) e ∙ p))
          (λ sha. push_tag-Settled) (λ t f. tag_failed-Settled nothing_created t f)

    check_tag-Settled : (b : Bool) → Concludes host nothing (check_tag host ctx plan b)
    unfolding check_tag lookup text_eq codes
    check_tag-Settled true =
        Triple-bind (finish-Left host ctx _ _ _ _) (λ _. Triple-pure _ (λ h p. inl (refl, p)))
    check_tag-Settled false = make_tag-Settled

    check_clean-Settled : (b : Bool) → Concludes host nothing (check_clean host ctx plan b)
    unfolding check_clean lookup text_eq codes left
    check_clean-Settled true =
        Triple-bind (finish-Left host ctx _ _ _ _) (λ _. Triple-pure _ (λ h p. inl (refl, p)))
    check_clean-Settled false =
        Triple-bind (Triple-ask_keep _ _ (λ h p. p)) (λ tags. check_tag-Settled _)

    opened-Left :
        Triple
          (Left host nothing)
          (opened host ctx plan)
          (λ _. Left host nothing)
          (Left host nothing)
    unfolding opened left
    opened-Left =
        Triple-bind (Triple-ask_keep _ _ (λ h p. p)) (λ found. Triple-raise_when_keep _ _ _)

    not_opened-Settled :
        (t : ExcType) (f : Fault) → Concludes host nothing (not_opened host ctx plan t f)
    unfolding not_opened lookup text_eq codes
    not_opened-Settled t f =
        Triple-bind (finish-Left host ctx _ _ _ _) (λ _. Triple-pure _ (λ h p. inl (refl, p)))

    release_opened-Settled : Concludes host nothing (release_opened host ctx plan)
    unfolding release_opened left
    release_opened-Settled =
        Triple-bind (Triple-ask_keep _ _ (λ h p. p)) (λ dirty. check_clean-Settled _)

    run_plan-Settled : (dry_run : Bool) → Concludes host nothing (run_plan host ctx plan dry_run)
    unfolding run_plan lookup text_eq codes
    run_plan-Settled true =
        Triple-bind (finish-Left host ctx _ _ _ _) (λ _. Triple-pure _ (λ h p. inr refl))
    run_plan-Settled false =
        Triple-attempt_then opened-Left (λ _. release_opened-Settled) not_opened-Settled

  if-Concludes :
      (b : Bool) (m n : Run Fields)
      → Concludes host nothing m
      → Concludes host nothing n
      → Concludes host nothing (if b then m else n)
  if-Concludes true m n p q = p
  if-Concludes false m n p q = q

  path_refused-Settled :
      (ctx : Ctx) (t : ExcType) (f : Fault) → Concludes host nothing (path_refused host ctx t f)
  unfolding path_refused
  path_refused-Settled ctx t f =
      if-Concludes (is_instance t ExcType.value_error) _ _ (refuse-Settled host ctx _ t f)
        (Triple-raise t f (λ h p. p))

  module _ (repo_path version : Text) (targets : Option (List Text)) (repos : Repos)
      (notes : Option Text) (dry_run : Bool) where
    release-Concludes :
        IsDependable host
        → Concludes host nothing (release host repo_path version targets repos notes dry_run)
    unfolding release write_path
    release-Concludes d =
        Triple-attempt_then (Triple-lift_keep _) (λ path. run_plan-Settled _ _ d dry_run)
          (path_refused-Settled _)

    -- Where the lookups and deletions of a release are all answered, and the calls before it left
    -- no tag and no release, a release that reports an error or raises leaves no tag and no release
    -- at GitHub, Gitea or GitLab: each one that it created, by its repository and tag or its
    -- address, is the one whose deletion was answered; and of a tag that it pushed it has asked the
    -- same remote to delete that very ref.
    pub release-undone :
        (h : History)
        → IsDependable host
        → left host h ≡ nothing
        → let end = release host repo_path version targets repos notes dry_run h in
          Ends (Settled host) (λ after. left host after ≡ nothing) end.0 end.1
    release-undone h d p = (release-Concludes d).ends h p
