-- ===== src/Git/Commit/Author.antt =====
-- The message and the author of a commit of git_commit() of src/githost_mcp/tools/git_local.py.
use githost_mcp.Base.{
  subst, inr, inl, refl, ap, ◌∙◌, ◌⊎◌, ◌++◌, Text, Bool, List, Option, true, false, some, none, [],
  ◌∷◌, ◌≡◌, codes, text_eq, text_eq_sound, arith, is_empty, is_empty-eq-nil, ends_with, ◌||◌,
}
use githost_mcp.Errors.{Result, ok, ok-injective}
use githost_mcp.Config.System.{Config}
use githost_mcp.Identity.Ownership.{Mode, resolve_public_identity}
use githost_mcp.Tools.Hoare.{
  Triple, Triple-bind, Triple-pure, Triple-ask, Triple-exists, Triple-given, Triple-lift,
  Triple-attempt_then,
}
use githost_mcp.Tools.Host.{Host, History, Call}
use githost_mcp.Tools.Run.{lift}
use githost_mcp.Git.Commit.{authorship, public_identity, or_read, agent_message, agent_actor}
use githost_mcp.Git.Commit.Seen.{Readings, seen, State, Quiet, add_name, add_email}

abbrev pub Answers : Type 0
Answers = List (Call × Result Text)

-- A setting that is not empty, or else git's answer in this run.
abbrev pub SettingOr : Text → Call → Text → Answers → Answers → Type 0
SettingOr setting c value before after =
    ((is_empty setting ≡ false) × (value ≡ setting) × (after ≡ before))
    ⊎ ((setting ≡ []) × (after ≡ (c, ok value) ∷ before))

-- A name and an address that are given and are not those of an agent.
abbrev pub IsPublic : Text → Text → Type 0
IsPublic name email =
    (is_empty name ≡ false)
    × (is_empty email ≡ false)
    × (ends_with name (codes "-agent") ≡ false)
    × (ends_with email (codes "@forge") ≡ false)

-- As the agent: the trailer with its id, where that is known, and its own name, where there is one.
abbrev pub AsAgent : Config → Text → Text → Option (Text × Text) → Type 0
AsAgent config message text actor =
    (((config.agent_id ≡ codes "unknown") × (text ≡ message))
      ⊎ ((text_eq config.agent_id (codes "unknown") ≡ false)
          × (text ≡ message ++ ((10 ∷ 10 ∷ codes "agent-id: ") ++ config.agent_id))))
    × (((config.git_agent_name ≡ []) × (actor ≡ none))
        ⊎ ((is_empty config.git_agent_name ≡ false)
            × (actor ≡ some (config.git_agent_name, config.git_agent_email))))

module _ (host : Host) (path : Text) where
  abbrev pub PublicActor : Text × Text → Readings → Answers → Answers → Type 0
  PublicActor actor s names emails =
      SettingOr host.config.git_public_name (Call.user_name path) actor.0 s.names names
      × SettingOr host.config.git_public_email (Call.user_email path) actor.1 s.emails emails
      × IsPublic actor.0 actor.1

  -- The message is the given one, under a name that is no agent's; or it is the agent's.
  abbrev pub Authored :
      Text → Mode → Text × Option (Text × Text) → Readings → Answers → Answers → Type 0
  Authored message mode written s names emails =
      ((mode ≡ Mode.agent)
        × (names ≡ s.names)
        × (emails ≡ s.emails)
        × AsAgent host.config message written.0 written.1)
      ⊎ ((mode ≡ Mode.public)
          × (written.0 ≡ message)
          × ((actor : Text × Text) × (written.1 ≡ some actor) × PublicActor actor s names emails))

  by_message :
      (message : Text) (b : Bool)
      → text_eq host.config.agent_id (codes "unknown") ≡ b
      → ((host.config.agent_id ≡ codes "unknown") × (agent_message host.config message ≡ message))
        ⊎ ((text_eq host.config.agent_id (codes "unknown") ≡ false)
            × (agent_message host.config message
                ≡ message ++ ((10 ∷ 10 ∷ codes "agent-id: ") ++ host.config.agent_id)))
  by_message message true e = inl (text_eq_sound _ _ e, rw e refl)
  by_message message false e = inr (e, rw e refl)

  by_actor :
      (b : Bool)
      → is_empty host.config.git_agent_name ≡ b
      → ((host.config.git_agent_name ≡ []) × (agent_actor host.config ≡ none))
        ⊎ ((is_empty host.config.git_agent_name ≡ false)
            × (agent_actor host.config
                ≡ some (host.config.git_agent_name, host.config.git_agent_email)))
  by_actor true e = inl (is_empty-eq-nil _ e, rw e refl)
  by_actor false e = inr (e, rw e refl)

  resolve_public_identity-ok :
      (name email : Text) (actor : Text × Text) (n e f a : Bool)
      → is_empty name ≡ n
      → is_empty email ≡ e
      → ends_with email (codes "@forge") ≡ f
      → ends_with name (codes "-agent") ≡ a
      → resolve_public_identity name email ≡ ok actor
      → (◌≡◌ {A = Text × Text} (name, email) actor) × IsPublic name email
  unfolding resolve_public_identity
  resolve_public_identity-ok name email actor false false false false qn qe qf qa h = (
    ok-injective {A = Text × Text} {a = (name, email)} (ground (arith, qn, qe, qf, qa, h)),
    (qn, qe, qa, qf),
  )
  resolve_public_identity-ok name email actor true e f a qn qe qf qa h =
      absurd (ground (arith, qn, h))
  resolve_public_identity-ok name email actor false true f a qn qe qf qa h =
      absurd (ground (arith, qn, qe, h))
  resolve_public_identity-ok name email actor false false true a qn qe qf qa h =
      absurd (ground (arith, qn, qe, qf, h))
  resolve_public_identity-ok name email actor false false false true qn qe qf qa h =
      absurd (ground (arith, qn, qe, qf, qa, h))

  read_name-SettingOr :
      (setting : Text) (s : Readings)
      → Triple
          (State host s)
          (or_read host setting (Call.user_name path))
          (λ value h.
            (names : Answers) × (State host (record s { names = names }) h
              × SettingOr setting (Call.user_name path) value s.names names))
          (λ h. Quiet host s.commits h × (setting ≡ []))
  unfolding seen
  read_name-SettingOr (c ∷ t) s = Triple-pure _ (λ h p. (s.names, (p, inl (refl, refl, refl))))
  read_name-SettingOr [] s =
      Triple-ask _ _
        (λ h a e p. (
          (Call.user_name path, ok a) ∷ s.names,
          (
            ap (λ r. add_name (Call.user_name path) r (seen host h)) e
                ∙ ap (add_name (Call.user_name path) (ok a)) p,
            inr (refl, refl),
          ),
        ))
        (λ h t f e p. (ap (λ x. x.commits) p, refl))

  read_email-SettingOr :
      (setting : Text) (s : Readings)
      → Triple
          (State host s)
          (or_read host setting (Call.user_email path))
          (λ value h.
            (emails : Answers) × (State host (record s { emails = emails }) h
              × SettingOr setting (Call.user_email path) value s.emails emails))
          (λ h. Quiet host s.commits h × (setting ≡ []))
  unfolding seen
  read_email-SettingOr (c ∷ t) s = Triple-pure _ (λ h p. (s.emails, (p, inl (refl, refl, refl))))
  read_email-SettingOr [] s =
      Triple-ask _ _
        (λ h a e p. (
          (Call.user_email path, ok a) ∷ s.emails,
          (
            ap (λ r. add_email (Call.user_email path) r (seen host h)) e
                ∙ ap (add_email (Call.user_email path) (ok a)) p,
            inr (refl, refl),
          ),
        ))
        (λ h t f e p. (ap (λ x. x.commits) p, refl))

  abbrev IsActor : Readings → Text × Text → History → Type 0
  IsActor s actor h =
      (names : Answers) × (emails : Answers) × (State host
          (record s { names = names; emails = emails }) h
        × PublicActor actor s names emails)

  -- An identity that misses a part is refused.
  resolve-none :
      (name email : Text) (actor : Text × Text)
      → (is_empty name || is_empty email) ≡ true
      → resolve_public_identity name email ≡ ok actor
      → ⊥
  unfolding resolve_public_identity
  resolve-none name email actor e h = absurd (ground (arith, e, h))

  missing-refused :
      (name email : Text) (s : Readings)
      → (is_empty name || is_empty email) ≡ true
      → Triple
          (Quiet host s.commits)
          (lift (resolve_public_identity name email))
          (IsActor s)
          (Quiet host s.commits)
  missing-refused name email s e =
      Triple-lift _ (λ h a r p. absurd (resolve-none name email a e r)) (λ h p. p)

  public_identity-IsActor :
      (s : Readings)
      → Triple (State host s) (public_identity host path) (IsActor s) (Quiet host s.commits)
  unfolding public_identity
  public_identity-IsActor s =
      Triple-attempt_then (read_name-SettingOr host.config.git_public_name s)
        (λ name. Triple-exists (λ names. Triple-given (λ n.
          Triple-attempt_then
            (read_email-SettingOr host.config.git_public_email (record s { names = names }))
            (λ email. Triple-exists (λ emails. Triple-given (λ m.
              Triple-lift _
                (λ h actor r p.
                  let (same, fit) =
                    resolve_public_identity-ok name email actor _ _ _ _ refl refl refl refl r in
                  subst (λ a. IsActor s a h) same (names, emails, (p, (n, m, fit))))
                (λ h p. ap (λ x. x.commits) p))))
            (λ t f.
              Triple-given (λ e. missing-refused name _ s (rw e (or_true (is_empty name))))))))
        (λ t f. Triple-given (λ e. missing-refused _ _ s (rw e refl)))
    where
      or_true : (b : Bool) → (b || true) ≡ true
      or_true true = refl
      or_true false = refl

  abbrev pub IsAuthored : Text → Mode → Readings → Text × Option (Text × Text) → History → Type 0
  IsAuthored message mode s written h =
      (names : Answers) × ((emails : Answers) × (State host
            (record s { names = names; emails = emails }) h
          × Authored message mode written s names emails))

  pub authorship-IsAuthored :
      (message : Text) (mode : Mode) (s : Readings)
      → Triple
          (State host s)
          (authorship host path mode message)
          (IsAuthored message mode s)
          (Quiet host s.commits)
  unfolding authorship
  authorship-IsAuthored message Mode.public s = Triple-bind (public_identity-IsActor s) (λ actor.
      Triple-pure _ (λ h p. (p.0, (p.1, (p.2.0, inr (refl, refl, (actor, refl, p.2.1)))))))
  authorship-IsAuthored message Mode.agent s = Triple-pure _ (λ h p. (
    s.names,
    (s.emails, (p, inl (refl, refl, refl, (by_message message _ refl, by_actor _ refl)))),
  ))
