-- ===== src/Git/Lease/Told.antt =====
-- What remote_default_branch() of src/githost_mcp/tools/git_local.py is told, and by which questions.
use githost_mcp.Base.{
  Text, List, Option, some, none, [], ◌∷◌, ◌++◌, ◌≡◌, refl, ap, ◌⊎◌, inl, inr, ◌∙◌, arith,
  splitlines, strip, text_eq, codes, ◌||◌, if◌then◌else◌,
}
use githost_mcp.Errors.{ExcType, Fault, ok, Result}
use githost_mcp.Tools.Hoare.{
  Triple-attempt_then, Triple, Triple-bind, Triple-pure, Triple-raise, Triple-ask, Triple-ask_keep,
  Triple-raise_when_keep,
}
use githost_mcp.Tools.Host.{Host, History, Call}
use githost_mcp.Tools.Run.{open_repo, Run}
use githost_mcp.Git.Branch.{require_remote}
use githost_mcp.Git.Lease.{
  first_symref, remote_default_branch, listed_branch, unasked, raise_protected, local_sha,
  known_default,
}
use githost_mcp.Git.Lease.Symref.{
  FirstRef, AllNoRef, first_symref-FirstRef, first_symref-AllNoRef, local_symref_sound,
}

-- The pushes among the calls, the last one first: the repository, the remote, the refspec and the lease.
abbrev pub Push : Type 0
Push = Text × Text × Text × Option Text

abbrev pub pushes_after : Call → List Push → List Push
pushes_after (Call.push path remote refspec lease) before = (path, remote, refspec, lease) ∷ before
pushes_after c before = before

unfoldable pub pushes : History → List Push
pushes [] = []
pushes (c ∷ h) = pushes_after c (pushes h)

abbrev pub Pushes : List Push → History → Type 0
Pushes ps h = pushes h ≡ ps

-- The questions for the default branch, each with its answer, the last one first.
abbrev pub Heard : Type 0
Heard = List (Call × Result Text)

abbrev pub heard_after : Host → History → Call → Heard → Heard
heard_after host h (Call.git path command args) before =
    if text_eq command (codes "ls_remote") || text_eq command (codes "symbolic_ref")
    then (Call.git path command args, host.text h (Call.git path command args)) ∷ before
    else before
heard_after host h c before = before

unfoldable pub heard : Host → History → Heard
heard host [] = []
heard host (c ∷ h) = heard_after host h c (heard host h)

abbrev pub State : Host → List Push → Heard → History → Type 0
State host ps qs h = Pushes ps h × (heard host h ≡ qs)

abbrev pub Keeps : {A : Type 0} → (History → Type 0) → Run A → Type 0
Keeps P m = Triple P m (λ _. P) P

-- Every other call keeps what holds of the pushes and of the questions.
pub open_repo-State :
    (host : Host) (path : Text) (ps : List Push) (qs : Heard)
    → Keeps (State host ps qs) (open_repo host path)
unfolding open_repo pushes heard
open_repo-State host path ps qs =
    Triple-bind (Triple-ask_keep _ _ (λ h p. p)) (λ found. Triple-raise_when_keep _ _ _)

pub require_remote-State :
    (host : Host) (path remote : Text) (ps : List Push) (qs : Heard)
    → Keeps (State host ps qs) (require_remote host path remote)
unfolding require_remote pushes heard
require_remote-State host path remote ps qs =
    Triple-bind (Triple-ask_keep _ _ (λ h p. p)) (λ found. Triple-raise_when_keep _ _ _)

module _ (host : Host) (path remote : Text) (ps : List Push) (qs : Heard) where
  abbrev pub ls_remote : Call
  ls_remote = Call.git path (codes "ls_remote") (codes "--symref" ∷ remote ∷ codes "HEAD" ∷ [])

  abbrev pub symbolic_ref : Call
  symbolic_ref =
      Call.git path (codes "symbolic_ref")
        ((codes "refs/remotes/" ++ (remote ++ codes "/HEAD")) ∷ [])

  -- One question was answered, and the first line of the answer that names a branch names this one;
  -- or no line does, and the answer to a second one names it behind refs/remotes/<remote>/.
  abbrev pub Told : Text → Heard → Type 0
  Told d answers =
      ((listing : Text) × (answers ≡ (ls_remote, ok listing) ∷ qs)
        × FirstRef d (splitlines listing))
      ⊎ ((listing : Text) × (local : Text) × (answers
            ≡ (symbolic_ref, ok local) ∷ (ls_remote, ok listing) ∷ qs)
          × AllNoRef (splitlines listing)
          × (strip local ≡ (codes "refs/remotes/" ++ (remote ++ codes "/")) ++ d))

  abbrev pub TellsIf : Option Text → History → Type 0
  TellsIf asked h = Pushes ps h × ((d : Text) → asked ≡ some d → Told d (heard host h))

  listed_branch-TellsIf :
      (listing : Text) (o : Option Text)
      → first_symref (splitlines listing) ≡ o
      → Triple
          (State host ps ((ls_remote, ok listing) ∷ qs))
          (listed_branch host path remote o)
          TellsIf
          (Pushes ps)
  unfolding listed_branch pushes heard text_eq codes
  listed_branch-TellsIf listing (some b) q = Triple-pure _ (λ h p.
      (p.0, λ d e. inl (listing, p.1, first_symref-FirstRef (splitlines listing) d (q ∙ e))))
  listed_branch-TellsIf listing none q =
      Triple-bind
        (Triple-ask {E = Pushes ps}
          {Q = λ local. State host ps ((symbolic_ref, ok local) ∷ (ls_remote, ok listing) ∷ qs)} _ _
          (λ h a e p. (
            p.0,
            ap (λ r. (symbolic_ref, r) ∷ heard host h) e ∙ ap (λ l. (symbolic_ref, ok a) ∷ l) p.1,
          ))
          (λ h t f e p. p.0))
        (λ local. Triple-pure _ (λ h p. (
          p.0,
          λ d e. inr (
            listing,
            local,
            p.1,
            first_symref-AllNoRef (splitlines listing) q,
            local_symref_sound remote (strip local) d e,
          ),
        )))

  unasked-TellsIf : (t : ExcType) (f : Fault) → Triple (Pushes ps) (unasked t f) TellsIf (Pushes ps)
  unasked-TellsIf ExcType.git_command_error f =
      Triple-pure _ (λ h p. (p, λ d e. absurd (ground (arith, e))))
  unasked-TellsIf t f = Triple-raise _ _ (λ h p. p)

  pub remote_default_branch-TellsIf :
      Triple (State host ps qs) (remote_default_branch host path remote) TellsIf (Pushes ps)
  unfolding remote_default_branch pushes heard text_eq codes
  remote_default_branch-TellsIf =
      Triple-attempt_then
        (Triple-ask {E = Pushes ps} {Q = λ listing. State host ps ((ls_remote, ok listing) ∷ qs)} _
          _
          (λ h a e p.
            (p.0, ap (λ r. (ls_remote, r) ∷ heard host h) e ∙ ap (λ l. (ls_remote, ok a) ∷ l) p.1))
          (λ h t f e p. p.0))
        (λ listing. listed_branch-TellsIf listing _ refl) unasked-TellsIf

  pub known_default-Told :
      (asked : Option Text)
      → Triple
          (TellsIf asked)
          (known_default asked)
          (λ d h. Pushes ps h × Told d (heard host h))
          (Pushes ps)
  known_default-Told none = Triple-raise _ _ (λ h p. p.0)
  known_default-Told (some d) = Triple-pure d (λ h p. (p.0, p.1 d refl))

pub local_sha-Keeps :
    (P : History → Type 0) (branch : Text) (local : Option Text) → Keeps P (local_sha branch local)
local_sha-Keeps P branch none = Triple-raise _ _ (λ h p. p)
local_sha-Keeps P branch (some sha) = Triple-pure _ (λ h p. p)

pub raise_protected-none :
    (P : History → Type 0) (r : Option Text)
    → Triple P (raise_protected r) (λ _ h. P h × (r ≡ none)) P
raise_protected-none P none = Triple-pure tt (λ h p. (p, refl))
raise_protected-none P (some r) = Triple-raise _ _ (λ h p. p)
