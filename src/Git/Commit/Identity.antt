-- ===== src/Git/Commit/Identity.antt =====
-- Which mode git_commit() of src/githost_mcp/tools/git_local.py decides on.
use githost_mcp.Base.{
  inr, inl, refl, ap, sym, ◌∙◌, ◌⊎◌, Text, Bool, List, true, false, [], ◌∷◌, ◌≡◌, codes, text_eq,
  text_eq_sound, subst, arith,
}
use githost_mcp.Errors.{Result, ok}
use githost_mcp.Identity.Ownership.{Mode}
use githost_mcp.Tools.Hoare.{
  Triple-weaken, Triple, Triple-bind, Triple-pure, Triple-ask, Triple-exists, Triple-either,
  Triple-given, Triple-bind_lift,
}
use githost_mcp.Tools.Host.{Host, History, Call}
use githost_mcp.Tools.Run.{ask, when}
use githost_mcp.Git.Mode.{GitConfig, resolve_auto, resolve_identity_mode}
use githost_mcp.Git.Mode.Laws.{IsInternal, resolve_auto-IsInternal}
use githost_mcp.Git.Commit.{identity_mode, cleared_config}
use githost_mcp.Git.Commit.Seen.{Readings, seen, State, Quiet, add_remotes, cache_verdict-State}

module _ (host : Host) where
  -- The mode is the one that is asked for; or, for `auto`, the one that the remotes and the
  -- configuration read in this run give, which is the agent's only for an internal repository.
  abbrev pub Reads : Type 0
  Reads = List (Call × Result (List (Text × Text)) × GitConfig)

  abbrev pub AutoMode : List (Text × Text) → GitConfig → Mode × Text → Type 0
  AutoMode remotes c chosen =
      ((after : GitConfig) × (resolve_auto host.lower host.urlsplit host.get_repo c remotes
            host.config.forge_owned_owners host.config.gitea_url
          ≡ ok (chosen, after)))
      × ((chosen.0 ≡ Mode.public)
          ⊎ IsInternal host.lower host.urlsplit host.get_repo c remotes
              host.config.forge_owned_owners host.config.gitea_url)

  abbrev pub Determined : Text → Text → Mode × Text → Reads → Reads → Type 0
  Determined path requested chosen before reads =
      ((requested ≡ codes "agent") × (chosen.0 ≡ Mode.agent) × (reads ≡ before))
      ⊎ ((requested ≡ codes "public") × (chosen.0 ≡ Mode.public) × (reads ≡ before))
      ⊎ ((remotes : List (Text × Text)) × (c : GitConfig) × (requested ≡ codes "auto")
          × (reads ≡ (Call.remotes path, ok remotes, c) ∷ before)
          × AutoMode remotes (cleared_config c) chosen)

  mode-cases : (m : Mode) → (m ≡ Mode.agent) ⊎ (m ≡ Mode.public)
  mode-cases Mode.agent = inl refl
  mode-cases Mode.public = inr refl

  resolve_auto-AutoMode :
      (c after : GitConfig) (remotes : List (Text × Text)) (chosen : Mode × Text)
      → resolve_auto host.lower host.urlsplit host.get_repo c remotes host.config.forge_owned_owners
          host.config.gitea_url
        ≡ ok (chosen, after)
      → AutoMode remotes c chosen
  resolve_auto-AutoMode c after remotes (mode, reason) e = (
    (after, e),
    elim (mode-cases mode) [
      | inr q ↦ inl q
      | inl q ↦ inr (
          resolve_auto-IsInternal host.lower host.urlsplit host.get_repo c after remotes
            host.config.forge_owned_owners host.config.gitea_url reason
            (subst
              (λ m.
                resolve_auto host.lower host.urlsplit host.get_repo c remotes
                  host.config.forge_owned_owners host.config.gitea_url
                ≡ ok ((m, reason), after))
              q e))
    ],
  )

  abbrev resolve : GitConfig → List (Text × Text) → Text → Result ((Mode × Text) × GitConfig)
  resolve c remotes requested =
      resolve_identity_mode host.lower host.urlsplit host.get_repo c remotes
        host.config.forge_owned_owners host.config.gitea_url requested

  resolve_identity_mode-AutoMode :
      (c : GitConfig) (remotes : List (Text × Text)) (requested : Text)
      (resolved : (Mode × Text) × GitConfig)
      → text_eq requested (codes "auto") ≡ true
      → resolve c remotes requested ≡ ok resolved
      → (requested ≡ codes "auto") × AutoMode remotes c resolved.0
  unfolding resolve_identity_mode text_eq codes
  resolve_identity_mode-AutoMode c remotes requested (chosen, after) a r =
      let q : requested ≡ codes "auto" = text_eq_sound requested (codes "auto") a in
      (
        q,
        resolve_auto-AutoMode c after remotes chosen
            (subst (λ t. resolve c remotes t ≡ ok (chosen, after)) q r),
      )

  chosen-explicit :
      (c : GitConfig) (remotes : List (Text × Text)) (requested : Text)
      (resolved : (Mode × Text) × GitConfig) (agent public : Bool)
      → text_eq requested (codes "agent") ≡ agent
      → text_eq requested (codes "public") ≡ public
      → text_eq requested (codes "auto") ≡ false
      → resolve c remotes requested ≡ ok resolved
      → ((requested ≡ codes "agent") × (resolved.0.0 ≡ Mode.agent))
        ⊎ ((requested ≡ codes "public") × (resolved.0.0 ≡ Mode.public))
  unfolding resolve_identity_mode
  chosen-explicit c remotes requested resolved true public ea ep eu r =
      inl (text_eq_sound requested _ ea, ground (arith, ea, r))
  chosen-explicit c remotes requested resolved false true ea ep eu r =
      inr (text_eq_sound requested _ ep, ground (arith, ea, ep, r))
  chosen-explicit c remotes requested resolved false false ea ep eu r =
      absurd (ground (arith, ea, ep, eu, r))

  -- The remotes are read for `auto`, and the configuration behind them.
  abbrev Read : Text → Text → Readings → List (Text × Text) → History → Type 0
  Read path requested s remotes h =
      (State host (add_remotes (Call.remotes path) (ok remotes) (host.git_config h path) s) h
        × (text_eq requested (codes "auto") ≡ true))
      ⊎ (State host s h × (text_eq requested (codes "auto") ≡ false))

  when-Read :
      (path requested : Text) (s : Readings) (b : Bool)
      → text_eq requested (codes "auto") ≡ b
      → Triple
          (State host s)
          (when b (ask host.pairs (Call.remotes path)) [])
          (Read path requested s)
          (Quiet host s.commits)
  unfolding when seen
  when-Read path requested s false e = Triple-pure _ (λ h p. inr (p, e))
  when-Read path requested s true e =
      Triple-ask _ _
        (λ h a q p. inl (
          ap
                (λ r.
                  add_remotes (Call.remotes path) r (host.git_config (Call.remotes path ∷ h) path)
                    (seen host h))
                q
              ∙ ap
                  (add_remotes (Call.remotes path) (ok a)
                    (host.git_config (Call.remotes path ∷ h) path))
                  p,
          e,
        ))
        (λ h t f q p. ap (λ x. x.commits) p)

  abbrev WasStored : Text → Text → Readings → List (Text × Text) → GitConfig → History → Type 0
  WasStored path requested s remotes stored h =
      ((c : GitConfig) × ((State host (add_remotes (Call.remotes path) (ok remotes) c s) h
            × (stored ≡ cleared_config c))
          × (text_eq requested (codes "auto") ≡ true)))
      ⊎ (State host s h × (text_eq requested (codes "auto") ≡ false))

  Read-WasStored :
      (path requested : Text) (s : Readings) (remotes : List (Text × Text)) (h : History)
      → Read path requested s remotes h
      → WasStored path requested s remotes (cleared_config (host.git_config h path)) h
  Read-WasStored path requested s remotes h (inl p) =
      inl (host.git_config h path, ((p.0, refl), p.1))
  Read-WasStored path requested s remotes h (inr p) = inr p

  abbrev pub IsDetermined : Text → Text → Readings → Mode × Text → History → Type 0
  IsDetermined path requested s chosen h =
      (reads : Reads) × (State host (record s { remotes = reads }) h
        × Determined path requested chosen s.remotes reads)

  pub identity_mode-Determined :
      (path requested : Text) (s : Readings)
      → Triple
          (State host s)
          (identity_mode host path requested)
          (IsDetermined path requested s)
          (Quiet host s.commits)
  unfolding identity_mode seen
  identity_mode-Determined path requested s =
      Triple-bind (when-Read path requested s _ refl) (λ remotes.
        Triple-bind {Q = WasStored path requested s remotes}
          (record { ends = λ h p. Read-WasStored path requested s remotes h p })
          (λ stored.
            Triple-either
              (Triple-exists (λ c. Triple-given (λ a. Triple-given (λ q.
                Triple-bind_lift _ (λ h p. ap (λ x. x.commits) p)
                  (λ resolved r.
                    let (requested_auto, auto) =
                      resolve_identity_mode-AutoMode (cleared_config c) remotes requested resolved a
                        (ap (λ k. resolve k remotes requested) (sym q) ∙ r) in
                    Triple-bind
                      (Triple-weaken
                        (cache_verdict-State host path _ _
                          (add_remotes (Call.remotes path) (ok remotes) c s))
                        (λ _ h k. k) (λ h p. ap (λ x. x.commits) p))
                      (λ _.
                        Triple-pure _ (λ h p.
                          (_, (p, inr (inr (remotes, c, requested_auto, refl, auto)))))))))))
              (Triple-given (λ a.
                Triple-bind_lift _ (λ h p. ap (λ x. x.commits) p)
                  (λ resolved r.
                    Triple-bind
                      (Triple-weaken (cache_verdict-State host path _ _ s) (λ _ h k. k)
                        (λ h p. ap (λ x. x.commits) p))
                      (λ _. Triple-pure _ (λ h p.
                        elim (chosen-explicit stored remotes requested resolved _ _ refl refl a r) [
                          | inl x ↦ (s.remotes, (p, inl (x.0, x.1, refl)))
                          | inr y ↦ (s.remotes, (p, inr (inl (y.0, y.1, refl))))
                        ])))))))
