-- ===== src/Git/Lease/Laws.antt =====
-- What git_push_force_with_lease() of src/githost_mcp/tools/git_local.py pushes.
use githost_mcp.Base.{
  Text, Bool, List, true, false, some, none, ◌∷◌, ◌++◌, ◌≡◌, refl, ap, ◌⊎◌, inl, inr,
}
use githost_mcp.Errors.{ExcType, Fault, ok}
use githost_mcp.Audit.Rejection.{Reason}
use githost_mcp.Tools.Hoare.{
  Triple-attempt_then, Triple, Triple-bind, Triple-pure, Triple-raise, Triple-ask, Triple-ask_keep,
  Triple-attempt, Triple-weaken, Triple-after, Triple-given, Triple-bind_lift,
}
use githost_mcp.Tools.Host.{Host, History}
use githost_mcp.Tools.Run.{write_path, Ctx, finish, refuse, fail, ◌>>=◌, ◌>>◌}
use githost_mcp.Gitflags.{RemoteOutcome}
use githost_mcp.Git.Refs.{validate_expected_sha, protected_branch_reason}
use githost_mcp.Git.Lease.{
  remote_default_branch, raise_protected, known_default, heads, lease_rejected, report_lease,
  lease_push, lease_failed, git_push_force_with_lease,
}
use githost_mcp.Git.Lease.Told.{
  Push, Pushes, pushes, Heard, heard, State, Keeps, Told, open_repo-State, require_remote-State,
  local_sha-Keeps, raise_protected-none, remote_default_branch-TellsIf, known_default-Told,
}

module _ (host : Host) (branch expected_sha remote : Text) (ps : List Push) (qs : Heard) where
  -- The push of a branch to itself, with a lease on its sha.
  abbrev pub lease_of : Text → Text → Push
  lease_of path sha =
      (path, remote, heads branch ++ (b':' ∷ heads branch), some (heads branch ++ (b':' ∷ sha)))

  -- One push, of a branch that may be forced.
  abbrev pub Leased : History → Type 0
  Leased h =
      (path : Text) × (sha : Text) × (default : Text) × (pushes h ≡ lease_of path sha ∷ ps)
      × (validate_expected_sha host.lower (some expected_sha) ≡ ok sha)
      × (protected_branch_reason branch (some default) ≡ none)
      × Told host path remote ps qs default (heard host h)

  abbrev pub Pushed : History → Type 0
  Pushed h = Pushes ps h ⊎ Leased h

module _ (host : Host) (ctx : Ctx) (branch expected_sha remote : Text) (ps : List Push)
    (qs : Heard) where
  abbrev Sound : History → Type 0
  Sound = Pushed host branch expected_sha remote ps qs

  finish-Pushed : (result : Text) (why : Reason) → Keeps Sound (finish host ctx result why)
  unfolding finish pushes heard
  finish-Pushed result why = record { ends = λ h p. p }

  refuse-Pushed :
      (result : Text) (t : ExcType) (f : Fault) → Keeps Sound (refuse host ctx result t f)
  unfolding refuse
  refuse-Pushed result t f = Triple-bind (finish-Pushed _ _) (λ _. Triple-pure _ (λ h p. p))

  lease_failed-Pushed : (t : ExcType) (f : Fault) → Keeps Sound (lease_failed host ctx t f)
  unfolding lease_failed fail
  lease_failed-Pushed ExcType.protected_branch f = refuse-Pushed _ _ f
  lease_failed-Pushed t f = refuse-Pushed _ t f

  module _ (path sha : Text) where
    lease_rejected-Pushed :
        (t : ExcType) (f : Fault) → Keeps Sound (lease_rejected host ctx path branch remote sha t f)
    unfolding lease_rejected
    lease_rejected-Pushed ExcType.git_command_error f =
        Triple-bind (finish-Pushed _ _) (λ _. Triple-pure _ (λ h p. p))
    lease_rejected-Pushed t f = Triple-raise _ _ (λ h p. p)

    report_lease-Pushed :
        (pushed_sha : Text) (outcome : RemoteOutcome) (why : Text) (failed : Bool)
        → Keeps Sound (report_lease host ctx path branch remote sha pushed_sha outcome why failed)
    unfolding report_lease pushes heard
    report_lease-Pushed pushed_sha outcome why true =
        Triple-bind (finish-Pushed _ _) (λ _. Triple-pure _ (λ h p. p))
    report_lease-Pushed pushed_sha outcome why false =
        Triple-bind (Triple-ask_keep _ _ (λ h p. p))
          (λ tracked. Triple-bind (finish-Pushed _ _) (λ _. Triple-pure _ (λ h p. p)))

    lease_push-Pushed :
        (default pushed_sha : Text)
        → validate_expected_sha host.lower (some expected_sha) ≡ ok sha
        → protected_branch_reason branch (some default) ≡ none
        → Triple
            (λ h. Pushes ps h × Told host path remote ps qs default (heard host h))
            (lease_push host ctx path branch remote sha pushed_sha)
            (λ _. Sound)
            Sound
    unfolding lease_push pushes heard
    lease_push-Pushed default pushed_sha v r =
        Triple-attempt_then
          (Triple-ask {Q = λ _. Sound} _ _
            (λ h a e p. inr (
              path,
              sha,
              default,
              ap (λ l. lease_of host branch expected_sha remote ps qs path sha ∷ l) p.0,
              v,
              r,
              p.1,
            ))
            (λ h t f e p. inr (
              path,
              sha,
              default,
              ap (λ l. lease_of host branch expected_sha remote ps qs path sha ∷ l) p.0,
              v,
              r,
              p.1,
            )))
          (λ pushed. report_lease-Pushed pushed_sha _ _ _) (lease_rejected-Pushed)

module _ (host : Host) (repo_path branch expected_sha remote : Text) where
  -- The default branch, then the push.
  lease_default-Pushed :
      (ps : List Push) (qs : Heard) (ctx : Ctx) (path sha pushed_sha : Text)
      → validate_expected_sha host.lower (some expected_sha) ≡ ok sha
      → Triple
          (State host ps qs)
          (do
            asked ← remote_default_branch host path remote
            default ← known_default asked
            raise_protected (protected_branch_reason branch (some default))
            lease_push host ctx path branch remote sha pushed_sha)
          (λ _. Pushed host branch expected_sha remote ps qs)
          (Pushed host branch expected_sha remote ps qs)
  lease_default-Pushed ps qs ctx path sha pushed_sha v =
      Triple-bind
        (Triple-weaken (remote_default_branch-TellsIf host path remote ps qs) (λ a h q. q)
          (λ h p. inl p))
        (λ asked.
          Triple-bind
            (Triple-weaken (known_default-Told host path remote ps qs asked) (λ a h q. q)
              (λ h p. inl p))
            (λ default.
              Triple-bind (Triple-weaken (raise_protected-none _ _) (λ a h q. q) (λ h p. inl p.0))
                (λ _. Triple-given (λ r.
                  lease_push-Pushed host ctx branch expected_sha remote ps qs path sha default
                    pushed_sha v r))))

  git_push_force_with_lease-Pushed :
      (ps : List Push) (qs : Heard)
      → Triple
          (State host ps qs)
          (git_push_force_with_lease host repo_path branch expected_sha remote)
          (λ _. Pushed host branch expected_sha remote ps qs)
          (Pushed host branch expected_sha remote ps qs)
  unfolding git_push_force_with_lease write_path pushes heard
  git_push_force_with_lease-Pushed ps qs =
      Triple-attempt
        (Triple-bind_lift _ (λ h p. inl p.0)
          (λ path _.
            Triple-bind_lift _ (λ h p. inl p.0)
              (λ _ _.
                Triple-bind_lift _ (λ h p. inl p.0)
                  (λ _ _.
                    Triple-bind_lift _ (λ h p. inl p.0)
                      (λ sha v.
                        Triple-bind
                          (Triple-weaken (raise_protected-none (State host ps qs) _) (λ a h q. q.0)
                            (λ h p. inl p.0))
                          (λ _.
                            Triple-bind
                              (Triple-weaken (open_repo-State host path ps qs) (λ a h q. q)
                                (λ h p. inl p.0))
                              (λ _.
                                Triple-bind
                                  (Triple-weaken (require_remote-State host path remote ps qs)
                                    (λ a h q. q) (λ h p. inl p.0))
                                  (λ _.
                                    Triple-bind
                                      (Triple-ask {Q = λ _. State host ps qs} _ _ (λ h a e p. p)
                                        (λ h t f e p. inl p.0))
                                      (λ local.
                                        Triple-bind
                                          (Triple-weaken
                                            (local_sha-Keeps (State host ps qs) branch local)
                                            (λ a h q. q) (λ h p. inl p.0))
                                          (λ pushed_sha.
                                            lease_default-Pushed ps qs _ path sha pushed_sha
                                              v))))))))))
        (lease_failed-Pushed host _ branch expected_sha remote ps qs)

  -- The tool makes no push, or one: of the branch to itself, with a lease on a sha that passed
  -- validation, where the branch is neither protected nor the default branch that the remote named
  -- in this run: ls-remote was answered, and the first line of its answer of the form `ref:
  -- refs/heads/<default>`, tab, `HEAD` names it, or no line has that form and the answer to
  -- symbolic-ref reads refs/remotes/<remote>/<default>.
  pub git_push_force_with_lease-pushes :
      (h : History)
      → let end = git_push_force_with_lease host repo_path branch expected_sha remote h in
        Pushed host branch expected_sha remote (pushes h) (heard host h) end.1
  git_push_force_with_lease-pushes h =
      Triple-after (git_push_force_with_lease-Pushed (pushes h) (heard host h)) h (refl, refl)
