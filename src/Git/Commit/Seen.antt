-- ===== src/Git/Commit/Seen.antt =====
-- What git_commit() of src/githost_mcp/tools/git_local.py reads before it commits, and what its steps make
-- of it.
use githost_mcp.Base.{
  ap, ◌∙◌, Text, Bool, List, Option, true, false, some, none, [], ◌∷◌, ◌≡◌, codes, if◌then◌else◌,
  text_eq,
}
use githost_mcp.Errors.{Result, ok}
use githost_mcp.Tools.Hoare.{
  Triple, Triple-bind, Triple-pure, Triple-ask, Triple-ask_keep, Triple-raise_when_keep,
  Triple-attempt,
}
use githost_mcp.Tools.Host.{Host, History, Call}
use githost_mcp.Tools.Run.{Run, open_repo}
use githost_mcp.Git.Mode.{GitConfig}
use githost_mcp.Git.Commit.{ask, staged_paths, cache_verdict}

-- The calls that commit, and the questions with their answers, each the last one first. With the
-- remotes goes the repository's configuration as it is then.
pub record Readings : Type 0 where
  pub commits : List Call
  pub head_checks : List (Call × Result Bool)
  pub staged : List (Call × Result (List Text))
  pub remotes : List (Call × Result (List (Text × Text)) × GitConfig)
  pub names : List (Call × Result Text)
  pub emails : List (Call × Result Text)

abbrev pub nothing_seen : Readings
nothing_seen = record {
  commits = [];
  head_checks = [];
  staged = [];
  remotes = [];
  names = [];
  emails = [];
}

abbrev pub add_commit : Call → Readings → Readings
add_commit c s = record s { commits = c ∷ s.commits }

abbrev pub add_head : Call → Result Bool → Readings → Readings
add_head c r s = record s { head_checks = (c, r) ∷ s.head_checks }

abbrev pub add_staged : Call → Result (List Text) → Readings → Readings
add_staged c r s = record s { staged = (c, r) ∷ s.staged }

abbrev pub add_remotes : Call → Result (List (Text × Text)) → GitConfig → Readings → Readings
add_remotes c r config s = record s { remotes = (c, r, config) ∷ s.remotes }

abbrev pub add_name : Call → Result Text → Readings → Readings
add_name c r s = record s { names = (c, r) ∷ s.names }

abbrev pub add_email : Call → Result Text → Readings → Readings
add_email c r s = record s { emails = (c, r) ∷ s.emails }

abbrev pub seen_after : Host → History → Call → Readings → Readings
seen_after host h (Call.index_commit path message actor) s =
    add_commit (Call.index_commit path message actor) s
seen_after host h (Call.git path command args) s =
    if text_eq command (codes "commit") then add_commit (Call.git path command args) s else s
seen_after host h (Call.head_is_valid path) s =
    add_head (Call.head_is_valid path) (host.flag h (Call.head_is_valid path)) s
seen_after host h (Call.index_diff_head path) s =
    add_staged (Call.index_diff_head path) (host.texts h (Call.index_diff_head path)) s
seen_after host h (Call.index_entries path) s =
    add_staged (Call.index_entries path) (host.texts h (Call.index_entries path)) s
seen_after host h (Call.remotes path) s =
    add_remotes (Call.remotes path) (host.pairs h (Call.remotes path))
      (host.git_config (Call.remotes path ∷ h) path) s
seen_after host h (Call.user_name path) s =
    add_name (Call.user_name path) (host.text h (Call.user_name path)) s
seen_after host h (Call.user_email path) s =
    add_email (Call.user_email path) (host.text h (Call.user_email path)) s
seen_after host h c s = s

unfoldable pub seen : Host → History → Readings
seen host [] = nothing_seen
seen host (c ∷ h) = seen_after host h c (seen host h)

-- The call that lists what is staged: against HEAD where there is a commit.
abbrev pub staged_call : Bool → Text → Call
staged_call true path = Call.index_diff_head path
staged_call false path = Call.index_entries path

module _ (host : Host) where
  abbrev pub State : Readings → History → Type 0
  State s h = seen host h ≡ s

  -- No commit more than these.
  abbrev pub Quiet : List Call → History → Type 0
  Quiet cs h = (seen host h).commits ≡ cs

  abbrev pub Keeps : {A : Type 0} → Readings → Run A → Type 0
  Keeps s m = Triple (State s) m (λ _. State s) (State s)

  pub open_repo-State : (path : Text) (s : Readings) → Keeps s (open_repo host path)
  unfolding open_repo seen
  open_repo-State path s =
      Triple-bind (Triple-ask_keep _ _ (λ h p. p)) (λ found. Triple-raise_when_keep _ _ _)

  pub cache_verdict-State :
      (path : Text) (before after : Option Text) (s : Readings)
      → Keeps s (cache_verdict host path before after)
  unfolding seen
  cache_verdict-State path none (some v) s =
      Triple-attempt (Triple-ask_keep _ _ (λ h p. p)) (λ t f. Triple-pure tt (λ h p. p))
  cache_verdict-State path none none s = Triple-pure tt (λ h p. p)
  cache_verdict-State path (some b) after s = Triple-pure tt (λ h p. p)

  abbrev pub with_staged : Text → Bool → List Text → Readings → Readings
  with_staged path v l s =
      add_staged (staged_call v path) (ok l) (add_head (Call.head_is_valid path) (ok v) s)

  -- What is staged: the answer to one question, after one on HEAD.
  pub staged_paths-Read :
      (path : Text) (s : Readings)
      → Triple
          (State s)
          (staged_paths host path)
          (λ l h. (v : Bool) × State (with_staged path v l s) h)
          (Quiet s.commits)
  unfolding staged_paths seen
  staged_paths-Read path s =
      Triple-bind
        (Triple-ask {E = Quiet s.commits}
          {Q = λ v. State (add_head (Call.head_is_valid path) (ok v) s)} _ _
          (λ h a e p.
            ap (λ r. add_head (Call.head_is_valid path) r (seen host h)) e
            ∙ ap (add_head (Call.head_is_valid path) (ok a)) p)
          (λ h t f e p. ap (λ x. x.commits) p))
        (λ valid.
          elim valid
            as (λ v.
              Triple (State (add_head (Call.head_is_valid path) (ok v) s))
                (ask host.texts (if v then Call.index_diff_head path else Call.index_entries path))
                (λ l h. (w : Bool) × State (with_staged path w l s) h) (Quiet s.commits)) [
                  | true ↦
                      Triple-ask _ _
                        (λ h a e p. (
                          true,
                          ap (λ r. add_staged (Call.index_diff_head path) r (seen host h)) e
                              ∙ ap (add_staged (Call.index_diff_head path) (ok a)) p,
                        ))
                        (λ h t f e p. ap (λ x. x.commits) p)
                  | false ↦
                      Triple-ask _ _
                        (λ h a e p. (
                          false,
                          ap (λ r. add_staged (Call.index_entries path) r (seen host h)) e
                              ∙ ap (add_staged (Call.index_entries path) (ok a)) p,
                        ))
                        (λ h t f e p. ap (λ x. x.commits) p)
                ])
