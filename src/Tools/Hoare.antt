-- ===== src/Tools/Hoare.antt =====
-- Rules for what holds of the calls after a run: `Triple P m Q E` says that from a history where `P`
-- holds, `m` ends with a value and a history in `Q`, or raises with a history in `E`.
use githost_mcp.Base.{◌⊎◌, inl, inr, Bool, true, false, if◌then◌else◌, ◌∷◌, refl, ◌≡◌}
use githost_mcp.Errors.{Result, ok, err, ExcType, Fault}
use githost_mcp.Tools.Host.{Call, History}
use githost_mcp.Tools.Run.{
  Run, pure, raise, continue_with, ◌>>=◌, lift, ask, when, raise_when, branch_on, attempt_then,
  handle, attempt,
}

abbrev pub Ends :
    {A : Type 0} → (A → History → Type 0) → (History → Type 0) → Result A → History → Type 0
Ends Q E (ok a) h = Q a h
Ends Q E (err t f) h = E h

-- A record, so that a triple determines its parts.
pub record Triple {A : Type 0} (P : History → Type 0) (m : Run A) (Q : A → History → Type 0)
    (E : History → Type 0) : Type 0 where
  pub ends : (h : History) → P h → Ends Q E (m h).0 (m h).1

module _ {A : Type 0} where
  pub Triple-pure :
      {P E : History → Type 0} {Q : A → History → Type 0} (a : A)
      → ((h : History) → P h → Q a h)
      → Triple P (pure a) Q E
  unfolding pure
  Triple-pure a k = record { ends = λ h p. k h p }

  pub Triple-raise :
      {P E : History → Type 0} {Q : A → History → Type 0} (t : ExcType) (f : Fault)
      → ((h : History) → P h → E h)
      → Triple P (raise t f) Q E
  unfolding raise
  Triple-raise t f k = record { ends = λ h p. k h p }

  Ends-lift :
      {P E : History → Type 0} {Q : A → History → Type 0} (r : Result A)
      → ((h : History) (a : A) → r ≡ ok a → P h → Q a h)
      → ((h : History) → P h → E h)
      → (h : History) → P h
      → Ends Q E r h
  Ends-lift (ok a) k e h p = k h a refl p
  Ends-lift (err t f) k e h p = e h p

  pub Triple-lift :
      {P E : History → Type 0} {Q : A → History → Type 0} (r : Result A)
      → ((h : History) (a : A) → r ≡ ok a → P h → Q a h)
      → ((h : History) → P h → E h)
      → Triple P (lift r) Q E
  unfolding lift
  Triple-lift r k e = record { ends = Ends-lift r k e }

  -- The same, of code that makes no call, which keeps what holds.
  pub Triple-lift_keep : {P : History → Type 0} (r : Result A) → Triple P (lift r) (λ _. P) P
  Triple-lift_keep r = Triple-lift r (λ h a e p. p) (λ h p. p)

  -- What is stronger before and weaker after.
  Ends-weaken :
      {Q R : A → History → Type 0} {E F : History → Type 0}
      → ((a : A) (h : History) → Q a h → R a h)
      → ((h : History) → E h → F h)
      → (r : Result A) (h : History) → Ends Q E r h
      → Ends R F r h
  Ends-weaken q e (ok a) h t = q a h t
  Ends-weaken q e (err t f) h x = e h x

  pub Triple-weaken :
      {P E F : History → Type 0} {Q R : A → History → Type 0} {m : Run A}
      → Triple P m Q E
      → ((a : A) (h : History) → Q a h → R a h)
      → ((h : History) → E h → F h)
      → Triple P m R F
  Triple-weaken {m} t q e = record { ends = λ h p. Ends-weaken q e (m h).0 (m h).1 (t.ends h p) }

  Ends-cases :
      (E : History → Type 0) (Q : A → History → Type 0) (r : Result A) (h : History)
      → ((a : A) → r ≡ ok a → Q a h)
      → ((t : ExcType) (f : Fault) → r ≡ err t f → E h)
      → Ends Q E r h
  Ends-cases E Q (ok a) h k e = k a refl
  Ends-cases E Q (err t f) h k e = e t f refl

  -- A call, with what is known of its answer.
  pub Triple-ask :
      {P E : History → Type 0} {Q : A → History → Type 0} (answer : History → Call → Result A)
      (c : Call)
      → ((h : History) (a : A) → answer h c ≡ ok a → P h → Q a (c ∷ h))
      → ((h : History) (t : ExcType) (f : Fault) → answer h c ≡ err t f → P h → E (c ∷ h))
      → Triple P (ask answer c) Q E
  unfolding ask
  Triple-ask {P} {E} {Q} answer c k e = record {
    ends = λ h p. Ends-cases E Q (answer h c) (c ∷ h) (λ a r. k h a r p) (λ t f r. e h t f r p);
  }

  -- A call that keeps what holds.
  pub Triple-ask_keep :
      {P : History → Type 0} (answer : History → Call → Result A) (c : Call)
      → ((h : History) → P h → P (c ∷ h))
      → Triple P (ask answer c) (λ _. P) P
  Triple-ask_keep answer c k = Triple-ask answer c (λ h a e. k h) (λ h t f e. k h)

  pub Triple-when :
      {P E : History → Type 0} (b : Bool) (m : Run A) (a : A)
      → Triple P m (λ _. P) E
      → Triple P (when b m a) (λ _. P) E
  unfolding when
  Triple-when true m a t = t
  Triple-when false m a t = Triple-pure a (λ h p. p)

  pub Triple-if :
      {P E : History → Type 0} {Q : A → History → Type 0} (b : Bool) (m n : Run A)
      → (b ≡ true → Triple P m Q E)
      → (b ≡ false → Triple P n Q E)
      → Triple P (if b then m else n) Q E
  Triple-if true m n t e = t refl
  Triple-if false m n t e = e refl

  -- A condition that no call changes.
  pub Triple-given :
      {P E : History → Type 0} {Q : A → History → Type 0} {X : Type 0} {m : Run A}
      → (X → Triple P m Q E)
      → Triple (λ h. P h × X) m Q E
  Triple-given t = record { ends = λ h p. (t p.1).ends h p.0 }

  -- From one history or another, and from what holds of some thing.
  pub Triple-either :
      {P R E : History → Type 0} {Q : A → History → Type 0} {m : Run A}
      → Triple P m Q E
      → Triple R m Q E
      → Triple (λ h. P h ⊎ R h) m Q E
  Triple-either {P} {R} {E} {Q} {m} t u = record {
    ends = λ h p. elim p as (λ _. Ends Q E (m h).0 (m h).1) [
      | inl x ↦ t.ends h x
      | inr y ↦ u.ends h y
    ];
  }

  pub Triple-exists :
      {X : Type 0} {P : X → History → Type 0} {E : History → Type 0} {Q : A → History → Type 0}
      {m : Run A}
      → ((x : X) → Triple (P x) m Q E)
      → Triple (λ h. (x : X) × P x h) m Q E
  Triple-exists t = record { ends = λ h p. (t p.0).ends h p.1 }

  ends-either : (Q : History → Type 0) (r : Result A) (h : History) → Ends (λ _. Q) Q r h → Q h
  ends-either Q (ok a) h q = q
  ends-either Q (err t f) h q = q

  -- What holds after the run, whether it raises or not.
  pub Triple-after :
      {P Q : History → Type 0} {m : Run A} → Triple P m (λ _. Q) Q → (h : History) → P h → Q (m h).1
  Triple-after {Q} {m} t h p = ends-either Q (m h).0 (m h).1 (t.ends h p)

-- What is known after a raise_when that did not raise: the test was false.
pub Triple-raise_when :
    {P E : History → Type 0} (b : Bool) (t : ExcType) (f : Fault)
    → ((h : History) → P h → E h)
    → Triple P (raise_when b t f) (λ _ h. P h × (b ≡ false)) E
unfolding raise_when
Triple-raise_when true t f e = Triple-raise t f e
Triple-raise_when false t f e = Triple-pure tt (λ h p. (p, refl))

pub Triple-raise_when_keep :
    {P : History → Type 0} (b : Bool) (t : ExcType) (f : Fault)
    → Triple P (raise_when b t f) (λ _. P) P
unfolding raise_when
Triple-raise_when_keep true t f = Triple-raise t f (λ h p. p)
Triple-raise_when_keep false t f = Triple-pure tt (λ h p. p)

module _ {A B : Type 0} where
  Ends-bind :
      {Q : A → History → Type 0} {R : B → History → Type 0} {E : History → Type 0} (f : A → Run B)
      (r : Result A) (h : History)
      → Ends Q E r h
      → ((a : A) → Triple (Q a) (f a) R E)
      → Ends R E (continue_with f r h).0 (continue_with f r h).1
  Ends-bind f (ok a) h q k = (k a).ends h q
  Ends-bind f (err t e) h q k = q

  pub Triple-bind :
      {P E : History → Type 0} {Q : A → History → Type 0} {R : B → History → Type 0} {m : Run A}
      {f : A → Run B}
      → Triple P m Q E
      → ((a : A) → Triple (Q a) (f a) R E)
      → Triple P (m >>= f) R E
  unfolding ◌>>=◌
  Triple-bind {m} {f} t k = record { ends = λ h p. Ends-bind f (m h).0 (m h).1 (t.ends h p) k }

  -- The value of code that makes no call, with what is known of it.
  pub Triple-bind_lift :
      {P E : History → Type 0} {R : B → History → Type 0} {f : A → Run B} (r : Result A)
      → ((h : History) → P h → E h)
      → ((a : A) → r ≡ ok a → Triple P (f a) R E)
      → Triple P (lift r >>= f) R E
  Triple-bind_lift r e k =
      Triple-bind (Triple-lift r (λ h a q p. (p, q)) e) (λ a. Triple-given (k a))

  Ends-branch :
      {Q : A → History → Type 0} {R : B → History → Type 0} {E F : History → Type 0}
      (next : A → Run B) (handler : ExcType → Fault → Run B) (r : Result A) (h : History)
      → Ends Q F r h
      → ((a : A) → Triple (Q a) (next a) R E)
      → ((t : ExcType) (f : Fault) → Triple F (handler t f) R E)
      → Ends R E (branch_on next handler r h).0 (branch_on next handler r h).1
  Ends-branch next handler (ok a) h q k e = (k a).ends h q
  Ends-branch next handler (err t f) h q k e = (e t f).ends h q

  pub Triple-attempt_then :
      {P E F : History → Type 0} {Q : A → History → Type 0} {R : B → History → Type 0} {m : Run A}
      {next : A → Run B} {handler : ExcType → Fault → Run B}
      → Triple P m Q F
      → ((a : A) → Triple (Q a) (next a) R E)
      → ((t : ExcType) (f : Fault) → Triple F (handler t f) R E)
      → Triple P (attempt_then m next handler) R E
  unfolding attempt_then
  Triple-attempt_then {m} {next} {handler} t k e = record {
    ends = λ h p. Ends-branch next handler (m h).0 (m h).1 (t.ends h p) k e;
  }

module _ {A : Type 0} where
  Ends-handle :
      {Q : A → History → Type 0} {E F : History → Type 0} (handler : ExcType → Fault → Run A)
      (r : Result A) (h : History)
      → Ends Q F r h
      → ((t : ExcType) (f : Fault) → Triple F (handler t f) Q E)
      → Ends Q E (handle handler r h).0 (handle handler r h).1
  Ends-handle handler (ok a) h q e = q
  Ends-handle handler (err t f) h q e = (e t f).ends h q

  pub Triple-attempt :
      {P E F : History → Type 0} {Q : A → History → Type 0} {m : Run A}
      {handler : ExcType → Fault → Run A}
      → Triple P m Q F
      → ((t : ExcType) (f : Fault) → Triple F (handler t f) Q E)
      → Triple P (attempt m handler) Q E
  unfolding attempt
  Triple-attempt {m} {handler} t e = record {
    ends = λ h p. Ends-handle handler (m h).0 (m h).1 (t.ends h p) e;
  }
