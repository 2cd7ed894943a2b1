-- ===== src/Git/Clone/Cleanup.antt =====
-- What git_clone() of src/githost_mcp/tools/git_local.py leaves behind in the file system.
use githost_mcp.Base.{
  ◌⊎◌, inl, inr, is_some, codes, Text, Bool, List, Option, true, false, some, none, [], ◌∷◌, ◌≡◌,
  refl, ap, text_eq, text_eq_refl, if◌then◌else◌, not, ◌∙◌,
}
use githost_mcp.Errors.{ExcType, Fault}
use githost_mcp.Audit.Values.{Fields}
use githost_mcp.Audit.Rejection.{Reason}
use githost_mcp.Tools.Hoare.{
  Triple-attempt_then, Ends, Triple, Triple-bind, Triple-pure, Triple-raise, Triple-lift_keep,
  Triple-ask, Triple-ask_keep, Triple-raise_when_keep, Triple-when, Triple-attempt,
}
use githost_mcp.Tools.Host.{Host, History, Call}
use githost_mcp.Tools.Run.{
  reject_choice, lookup, write_path, Ctx, finish, refuse, fail, text_value, reject, raise, ◌>>=◌,
  open_repo, Run, pure, raise_when,
}
use githost_mcp.Bootstrap.Segments.{Depth}
use githost_mcp.Git.Clone.{
  refuse_provider, unowned_clone, refuse_segment, git_clone, clone_valid, require_org,
  raise_occupied, require_free, clone_failed, report_clone, clone_owned, discard, rmtree, Checkout,
  fill_checkout, make_directory, make_checkout, answered, read_checkout, read_branch, read_head,
  links_above,
}

-- The directories that mkdir made and whose removal was not asked for, the last one first; `none`
-- once the removal of anything but the last one made was asked for. rmtree() is called so that its
-- failures pass, so a removal that was asked for may leave files. What makedirs makes is not counted.
abbrev pub pop : Text → Option (List Text) → Option (List Text)
pop dest none = none
pop dest (some []) = none
pop dest (some (d ∷ dirs)) = if text_eq dest d then some dirs else none

abbrev pub push_dir : Text → Option (List Text) → Option (List Text)
push_dir dest none = none
push_dir dest (some dirs) = some (dest ∷ dirs)

abbrev pub push_if : Bool → Text → Option (List Text) → Option (List Text)
push_if made dest before = if made then push_dir dest before else before

abbrev pub standing_after : Call → Bool → Option (List Text) → Option (List Text)
standing_after (Call.mkdir dest) made before = push_if made dest before
standing_after (Call.rmtree dest) made before = pop dest before
standing_after c made before = before

unfoldable pub standing : Host → History → Option (List Text)
standing host [] = some []
standing host (c ∷ h) = standing_after c (answered (host.flag h c)) (standing host h)

module _ (host : Host) where
  -- The directories `dirs` are those that stand.
  abbrev pub Standing : List Text → History → Type 0
  Standing dirs h = standing host h ≡ some dirs

  pub open_repo-Standing :
      (path : Text) (dirs : List Text)
      → Triple (Standing dirs) (open_repo host path) (λ _. Standing dirs) (Standing dirs)
  unfolding open_repo standing
  open_repo-Standing path dirs =
      Triple-bind (Triple-ask_keep host.flag (Call.open_repo path) (λ h p. p))
        (λ found. Triple-raise_when_keep _ _ _)

  abbrev Keeps : {A : Type 0} → List Text → Run A → Type 0
  Keeps dirs m = Triple (Standing dirs) m (λ _. Standing dirs) (Standing dirs)

  read_branch-Standing : (dest : Text) (dirs : List Text) → Keeps dirs (read_branch host dest)
  unfolding standing read_branch
  read_branch-Standing dest dirs =
      Triple-bind (Triple-ask_keep host.text (Call.active_branch dest) (λ h p. p))
        (λ name. Triple-pure _ (λ h p. p))

  read_head-Standing : (dest : Text) (dirs : List Text) → Keeps dirs (read_head host dest)
  unfolding standing read_head
  read_head-Standing dest dirs =
      Triple-bind (Triple-ask_keep _ _ (λ h p. p)) (λ commit. Triple-pure _ (λ h p. p))

  read_checkout-Standing : (dest : Text) (dirs : List Text) → Keeps dirs (read_checkout host dest)
  unfolding read_checkout standing
  read_checkout-Standing dest dirs = Triple-bind (Triple-ask_keep _ _ (λ h p. p)) (λ valid.
      Triple-bind (Triple-when _ _ _ (Triple-ask_keep _ _ (λ h p. p))) (λ detached.
        Triple-bind (Triple-when _ _ _ (read_branch-Standing dest dirs)) (λ branch.
          Triple-bind (Triple-when _ _ _ (read_head-Standing dest dirs))
            (λ head. Triple-pure _ (λ h p. p)))))

  links_above-Standing :
      (dest listing : Text) (dirs : List Text) → Keeps dirs (links_above host dest listing)
  unfolding links_above
  links_above-Standing dest listing dirs = record { ends = λ h p. p }

  fill_checkout-Standing :
      (dest url : Text) (args : List Text) (dirs : List Text)
      → Keeps dirs (fill_checkout host dest url args)
  unfolding fill_checkout standing
  fill_checkout-Standing dest url args dirs = Triple-bind (Triple-ask_keep _ _ (λ h p. p)) (λ _.
      Triple-bind (open_repo-Standing dest dirs) (λ _.
        Triple-bind (Triple-ask_keep _ _ (λ h p. p)) (λ listing.
          Triple-bind (Triple-lift_keep _) (λ _.
            Triple-bind (links_above-Standing dest listing dirs) (λ above.
              Triple-bind (Triple-raise_when_keep _ _ _)
                (λ _. read_checkout-Standing dest dirs))))))

  -- The directory is removed again, and the error goes on.
  discard-Standing :
      (dest : Text) (dirs : List Text) (t : ExcType) (f : Fault)
      → Triple
          (Standing (dest ∷ dirs))
          (discard host dest t f)
          (λ _. Standing (dest ∷ dirs))
          (Standing dirs)
  unfolding discard rmtree standing ◌>>=◌ raise
  discard-Standing dest dirs t f = record { ends = λ h p. rw (p, text_eq_refl dest) refl }

  raise_unmade-Standing :
      (dest : Text) (dirs : List Text) (made : Bool)
      → Triple
          (λ h. standing host h ≡ push_if made dest (some dirs))
          (raise_when (not made) ExcType.already_exists (Fault.occupied dest))
          (λ _. Standing (dest ∷ dirs))
          (Standing dirs)
  unfolding raise_when
  raise_unmade-Standing dest dirs true = Triple-pure tt (λ h p. p)
  raise_unmade-Standing dest dirs false = Triple-raise _ _ (λ h p. p)

  make_directory-Standing :
      (dest : Text) (dirs : List Text)
      → Triple
          (Standing dirs)
          (make_directory host dest)
          (λ _. Standing (dest ∷ dirs))
          (Standing dirs)
  unfolding make_directory standing
  make_directory-Standing dest dirs =
      Triple-bind
        (Triple-ask {Q = λ made h. standing host h ≡ push_if made dest (some dirs)} host.flag
          (Call.mkdir dest)
          (λ h made e p.
            ap (λ r. push_if (answered r) dest (standing host h)) e ∙ ap (push_if made dest) p)
          (λ h t f e p. ap (λ r. push_if (answered r) dest (standing host h)) e ∙ p))
        (raise_unmade-Standing dest dirs)

  make_checkout-Standing :
      (dest url : Text) (args : List Text) (dirs : List Text)
      → Triple
          (Standing dirs)
          (make_checkout host dest url args)
          (λ _. Standing (dest ∷ dirs))
          (Standing dirs)
  unfolding make_checkout standing
  make_checkout-Standing dest url args dirs = Triple-bind (Triple-ask_keep _ _ (λ h p. p)) (λ _.
      Triple-bind (make_directory-Standing dest dirs) (λ _.
        Triple-attempt (fill_checkout-Standing dest url args (dest ∷ dirs))
          (discard-Standing dest dirs)))

finish-Standing :
    (host : Host) (ctx : Ctx) (result : Text) (why : Reason) (dirs : List Text)
    → Keeps host dirs (finish host ctx result why)
unfolding finish standing
finish-Standing host ctx result why dirs = record { ends = λ h p. p }

module _ (host : Host) where
  -- An error and no directory, or a clone and its directory.
  abbrev pub Outcome : List Text → Fields → History → Type 0
  Outcome dirs response h =
      (is_some (lookup (codes "error") response) ≡ true) × (standing host h ≡ some dirs)
      ⊎ (dest : Text) × (lookup (codes "path") response ≡ some (text_value dest))
        × (standing host h ≡ some (dest ∷ dirs))

  abbrev Concludes : List Text → Run Fields → Type 0
  Concludes dirs m = Triple (Standing host dirs) m (Outcome dirs) (Standing host dirs)

  reject-Outcome :
      (tool provider repo reason_class msg argument : Text) (value : Option Text) (dirs : List Text)
      → Concludes dirs (reject host tool provider repo reason_class msg argument value)
  unfolding reject text_eq codes lookup
  reject-Outcome tool provider repo reason_class msg argument value dirs =
      Triple-bind (finish-Standing host _ _ _ dirs) (λ _. Triple-pure _ (λ h p. inl (refl, p)))

  reject_choice-Outcome :
      (tool provider repo argument value : Text) (valid dirs : List Text)
      → Concludes dirs (reject_choice host tool provider repo argument value valid)
  unfolding reject_choice
  reject_choice-Outcome tool provider repo argument value valid dirs =
      reject-Outcome _ _ _ _ _ _ _ dirs

module _ (host : Host) (ctx : Ctx) where
  refuse-Outcome :
      (result : Text) (t : ExcType) (f : Fault) (dirs : List Text)
      → Concludes host dirs (refuse host ctx result t f)
  unfolding refuse text_eq codes lookup
  refuse-Outcome result t f dirs =
      Triple-bind (finish-Standing host ctx _ _ dirs) (λ _. Triple-pure _ (λ h p. inl (refl, p)))

  fail-Outcome :
      (t : ExcType) (f : Fault) (dirs : List Text) → Concludes host dirs (fail host ctx t f)
  unfolding fail
  fail-Outcome t f dirs = refuse-Outcome _ t f dirs

  module _ (provider owner repo gitea : Text) where
    require_org-Standing :
        (b : Bool) (dirs : List Text)
        → Keeps host dirs (require_org host ctx provider owner repo gitea b)
    unfolding require_org standing
    require_org-Standing true dirs =
        Triple-bind (Triple-ask_keep _ _ (λ h p. p)) (λ o. Triple-lift_keep _)
    require_org-Standing false dirs = Triple-pure tt (λ h p. p)

    raise_occupied-Standing :
        (dest raw : Text) (b : Bool) (dirs : List Text)
        → Keeps host dirs (raise_occupied host ctx provider owner repo gitea dest raw b)
    unfolding raise_occupied standing
    raise_occupied-Standing dest raw false dirs = Triple-pure tt (λ h p. p)
    raise_occupied-Standing dest raw true dirs =
        Triple-bind (Triple-ask_keep _ _ (λ h p. p))
          (λ o. Triple-bind (Triple-lift_keep _) (λ m. Triple-raise _ _ (λ h p. p)))

    require_free-Standing :
        (dest : Text) (dirs : List Text)
        → Keeps host dirs (require_free host ctx provider owner repo gitea dest)
    unfolding require_free standing
    require_free-Standing dest dirs = Triple-bind (Triple-ask_keep _ _ (λ h p. p)) (λ at_raw.
        Triple-bind (Triple-when _ _ _ (Triple-ask_keep _ _ (λ h p. p)))
          (λ taken. raise_occupied-Standing dest _ taken dirs))

    clone_failed-Outcome :
        (t : ExcType) (f : Fault) (dirs : List Text)
        → Concludes host dirs (clone_failed host ctx provider owner repo gitea t f)
    unfolding clone_failed
    clone_failed-Outcome ExcType.write_glob_denied f dirs = refuse-Outcome _ _ f dirs
    clone_failed-Outcome ExcType.not_owned f dirs = refuse-Outcome _ _ f dirs
    clone_failed-Outcome t f dirs = fail-Outcome t f dirs

    report_clone-Outcome :
        (dest url : Text) (depth : Option Depth) (checkout : Checkout) (dirs : List Text)
        → Triple
            (Standing host (dest ∷ dirs))
            (report_clone host ctx provider owner repo gitea dest url depth checkout)
            (Outcome host dirs)
            (Standing host dirs)
    unfolding report_clone finish pure ◌>>=◌ lookup text_eq codes standing
    report_clone-Outcome dest url depth checkout dirs = record { ends = λ h p. inr (dest, refl, p) }

    clone_owned-Outcome :
        (depth : Option Depth) (branch : Option Text) (dirs : List Text)
        → Concludes host dirs (clone_owned host ctx provider owner repo gitea depth branch)
    unfolding clone_owned write_path
    clone_owned-Outcome depth branch dirs =
        Triple-attempt
          (Triple-bind (Triple-lift_keep _) (λ cloned_depth. Triple-bind (Triple-lift_keep _) (λ _.
            Triple-bind (Triple-lift_keep _) (λ computed. Triple-bind (Triple-lift_keep _) (λ dest.
              Triple-bind (Triple-lift_keep _) (λ _. Triple-bind (Triple-lift_keep _) (λ _.
                Triple-bind (require_org-Standing _ dirs) (λ _.
                  Triple-bind (require_free-Standing dest dirs) (λ _.
                    Triple-bind (Triple-lift_keep _) (λ _.
                      Triple-bind (make_checkout-Standing host dest _ _ dirs)
                        (λ checkout. report_clone-Outcome dest _ depth checkout dirs)))))))))))
          (λ t f. clone_failed-Outcome t f dirs)

module _ (host : Host) (provider owner repo : Text) (depth : Option Depth)
    (branch : Option Text) where
  unowned_clone-Outcome :
      (ctx : Ctx) (gitea : Text) (t : ExcType) (f : Fault) (dirs : List Text)
      → Concludes host dirs (unowned_clone host ctx provider owner repo gitea t f)
  unfolding unowned_clone
  unowned_clone-Outcome ctx gitea ExcType.not_owned f dirs = reject-Outcome host _ _ _ _ _ _ _ dirs
  unowned_clone-Outcome ctx gitea t f dirs = Triple-raise _ _ (λ h p. p)

  clone_valid-Outcome :
      (dirs : List Text) → Concludes host dirs (clone_valid host provider owner repo depth branch)
  unfolding clone_valid
  clone_valid-Outcome dirs = Triple-bind (Triple-lift_keep _) (λ gitea.
      Triple-attempt_then (Triple-lift_keep _)
        (λ _. clone_owned-Outcome host _ provider owner repo gitea depth branch dirs)
        (λ t f. unowned_clone-Outcome _ gitea t f dirs))

  refuse_segment-Outcome :
      (bad : Option (Text × Text × Option Text)) (dirs : List Text)
      → Concludes host dirs (refuse_segment host provider owner repo depth branch bad)
  refuse_segment-Outcome none dirs = clone_valid-Outcome dirs
  refuse_segment-Outcome (some (c, argument, value)) dirs = reject-Outcome host _ _ _ _ _ _ _ dirs

  refuse_provider-Outcome :
      (b : Bool) (dirs : List Text)
      → Concludes host dirs (refuse_provider host provider owner repo depth branch b)
  refuse_provider-Outcome true dirs = reject_choice-Outcome host _ _ _ _ _ _ dirs
  refuse_provider-Outcome false dirs = refuse_segment-Outcome _ dirs

  git_clone-Outcome :
      (dirs : List Text) → Concludes host dirs (git_clone host provider owner repo depth branch)
  unfolding git_clone
  git_clone-Outcome dirs = refuse_provider-Outcome _ dirs

  -- Of the directories that mkdir made and whose removal was not asked for, a clone that is refused
  -- or that raises leaves exactly those that stood before, and one that returns a path leaves one
  -- more; it asks for the removal of no directory but the one it made last. A response that leaves
  -- none has the key `error`. Parent directories, which makedirs makes, are not counted, and a
  -- removal counts as soon as it is asked for.
  pub git_clone-standing :
      (h : History) (dirs : List Text)
      → standing host h ≡ some dirs
      → let end = git_clone host provider owner repo depth branch h in
        Ends (Outcome host dirs) (λ after. standing host after ≡ some dirs) end.0 end.1
  git_clone-standing h dirs p = (git_clone-Outcome dirs).ends h p
