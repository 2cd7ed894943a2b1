-- ===== src/Identity/Ownership/Laws.antt =====
-- The identity that the remotes decide: independent of their order and of which one is `origin`.
use githost_mcp.Base.{
  text_le, true, ap, inr, inl, ◌⊎◌, subst, Bool-cases, [], ◌∷◌, is_empty, false, List, Text, ◌≡◌,
  refl, arith, Any, ◌↔◌, Bool,
}
use githost_mcp.Errors.{
  succeeds-mapped, failed-bind, ok-injective, Result, ok, err, ◌>>=◌, succeeds, >>=-eq-ok, ExcType,
  Fault,
}
use githost_mcp.Identity.Remote.{SplitUrl, is_forge_controlled}
use githost_mcp.Identity.Ownership.{
  Mode, RepoOwnership, insert_item, sorted_items, name_error, or_named, add_third_party,
  ownership_of, third_party, resolve_ownership,
}

iff_trans : {A B C : Type 0} → A ↔ B → B ↔ C → A ↔ C
iff_trans (f, g) (h, k) = (λ a. h (f a), λ c. g (k c))

swap_to : {E X A B : Type 0} → (A → E ⊎ B) → X ⊎ A → E ⊎ (X ⊎ B)
swap_to f (inl x) = inr (inl x)
swap_to f (inr a) = elim (f a) [ inl e ↦ inl e | inr b ↦ inr (inr b) ]

swap_from : {E X A B : Type 0} → (E ⊎ B → A) → E ⊎ (X ⊎ B) → X ⊎ A
swap_from f (inl e) = inr (f (inl e))
swap_from f (inr (inl x)) = inl x
swap_from f (inr (inr b)) = inr (f (inr b))

map_right : {X A B : Type 0} → (A → B) → X ⊎ A → X ⊎ B
map_right f (inl x) = inl x
map_right f (inr a) = inr (f a)

module _ (P : Text × Text → Type 0) where
  Any-insert_item :
      (e : Text × Text) (l : List (Text × Text)) → Any P (insert_item e l) ↔ Any P (e ∷ l)
  unfolding insert_item
  Any-insert_item e [] = (λ h. h, λ h. h)
  Any-insert_item e (x ∷ rest) =
      let (to, from) = Any-insert_item e rest in
      elim (Bool-cases (text_le e.0 x.0)) [
        | inl p ↦ rw p (λ h. h, λ h. h)
        | inr p ↦ rw p (swap_to to, swap_from from)
      ]

  Any-sorted_items : (l : List (Text × Text)) → Any P (sorted_items l) ↔ Any P l
  unfolding sorted_items
  Any-sorted_items [] = (λ h. h, λ h. h)
  Any-sorted_items (e ∷ rest) =
      let (to, from) = Any-insert_item e (sorted_items rest) in
      let (to', from') = Any-sorted_items rest in
      (λ h. map_right to' (to h), λ h. from (map_right from' h))

name_error_fails : (name : Text) (t : ExcType) (f : Fault) → succeeds (name_error name t f) ≡ false
name_error_fails name ExcType.identity_undetermined f = refl
name_error_fails name _ f = refl

empty_names : {names : List Text} → [] ≡ names → (is_empty names ≡ false) ↔ ⊥
empty_names e = (λ h. ground arith, λ h. absurd h)

-- One round of the loop, with the rest of the loop.
abbrev step : Text → Result Bool → Result (List Text) → Result (List Text)
step name r q = or_named name r >>= λ c. q >>= λ names. ok (add_third_party name c names)

step_fails :
    (name : Text) (r : Result Bool) (q : Result (List Text))
    → (succeeds (step name r q) ≡ false) ↔ ((succeeds r ≡ false) ⊎ (succeeds q ≡ false))
step_fails name (ok b) (ok names) = ground arith
step_fails name (ok b) (err t f) = (λ h. inr refl, λ h. refl)
step_fails name (err t f) q =
    (λ h. inl refl, λ h. failed-bind (name_error name t f) _ (name_error_fails name t f))

step-eq-ok :
    (name : Text) (r : Result Bool) (q : Result (List Text)) {names : List Text}
    → step name r q ≡ ok names
    → (b : Bool) × (rest : List Text) × (r ≡ ok b)
      × (q ≡ ok rest)
      × (add_third_party name b rest ≡ names)
step-eq-ok name (ok b) (ok rest) h = (b, rest, refl, refl, ok-injective h)
step-eq-ok name (ok b) (err t f) h = absurd (ground arith)
step-eq-ok name (err t f) q h =
    let failed =
      failed-bind (name_error name t f) (λ c. q >>= λ names. ok (add_third_party name c names))
        (name_error_fails name t f) in
    absurd (ground (arith, failed, ap succeeds h))

controlled_other : {X : Type 0} (r : Result Bool) → r ≡ ok true → (r ≡ ok false) ⊎ X → X
controlled_other r e (inl p) = absurd (ground arith)
controlled_other r e (inr x) = x

added :
    {X : Type 0} (name : Text) (r : Result Bool) (b : Bool) (more : List Text)
    → r ≡ ok b
    → (is_empty more ≡ false) ↔ X
    → (is_empty (add_third_party name b more) ≡ false) ↔ ((r ≡ ok false) ⊎ X)
added name r true more e (to, from) = (λ h. inr (to h), λ h. from (controlled_other r e h))
added name r false more e (to, from) = (λ h. inl e, λ h. refl)

module _ (check : Text → Result Bool) where
  abbrev pub Fails : Text × Text → Type 0
  Fails r = succeeds (check r.1) ≡ false

  abbrev pub ThirdParty : Text × Text → Type 0
  ThirdParty r = check r.1 ≡ ok false

  -- The loop fails exactly when some check does.
  third_party-Fails :
      (l : List (Text × Text)) → (succeeds (third_party check l) ≡ false) ↔ Any Fails l
  unfolding third_party
  third_party-Fails [] = (λ h. ground arith, λ h. absurd h)
  third_party-Fails ((name, url) ∷ rest) =
      let (to, from) = step_fails name (check url) (third_party check rest) in
      let (to', from') = third_party-Fails rest in
      (λ h. map_right to' (to h), λ h. from (map_right from' h))

  -- Otherwise it gives a name exactly when some remote is not controlled.
  third_party-ThirdParty :
      (l : List (Text × Text)) {names : List Text}
      → third_party check l ≡ ok names
      → (is_empty names ≡ false) ↔ Any ThirdParty l
  unfolding third_party
  third_party-ThirdParty [] h = empty_names (ok-injective h)
  third_party-ThirdParty ((name, url) ∷ rest) h =
      let (b, more, e, k, same) = step-eq-ok name (check url) (third_party check rest) h in
      subst (λ n. (is_empty n ≡ false) ↔ Any ThirdParty ((name, url) ∷ rest)) same
        (added name (check url) b more e (third_party-ThirdParty rest k))

ownership_of-public :
    (names : List Text) → ((ownership_of names).mode ≡ Mode.public) ↔ (is_empty names ≡ false)
ownership_of-public [] = ground arith
ownership_of-public (n ∷ names) = ground arith

module _ (lower : Text → Text) (urlsplit : Text → Result SplitUrl) where
  -- _is_forge_controlled() at the settings.
  abbrev pub checked : List Text → Text → Text → Result Bool
  checked forge_owners gitea_host url =
      is_forge_controlled lower urlsplit url forge_owners gitea_host

  -- The ownership is undetermined exactly when the check of some remote fails, whichever remote
  -- that is.
  pub resolve_ownership-Fails :
      (remotes : List (Text × Text)) (forge_owners : List Text) (gitea_host : Text)
      → (succeeds (resolve_ownership lower urlsplit remotes forge_owners gitea_host) ≡ false)
        ↔ Any (Fails (checked forge_owners gitea_host)) remotes
  unfolding resolve_ownership
  resolve_ownership-Fails [] forge_owners gitea_host = (λ h. ground arith, λ h. absurd h)
  resolve_ownership-Fails (r ∷ remotes) forge_owners gitea_host =
      let check = checked forge_owners gitea_host in
      let names = third_party check (sorted_items (r ∷ remotes)) in
      rw (succeeds-mapped names ownership_of) (
        iff_trans (third_party-Fails check (sorted_items (r ∷ remotes)))
          (Any-sorted_items (Fails check) (r ∷ remotes)))

  -- Where the ownership is determined, the commit gets the public identity exactly when some
  -- remote, in whatever place, is not controlled by forge.
  pub resolve_ownership-public :
      (remotes : List (Text × Text)) (forge_owners : List Text) (gitea_host : Text)
      (o : RepoOwnership)
      → resolve_ownership lower urlsplit remotes forge_owners gitea_host ≡ ok o
      → (o.mode ≡ Mode.public) ↔ Any (ThirdParty (checked forge_owners gitea_host)) remotes
  unfolding resolve_ownership
  resolve_ownership-public [] forge_owners gitea_host o h = (λ e. ground arith, λ e. absurd e)
  resolve_ownership-public (r ∷ remotes) forge_owners gitea_host o h =
      let check = checked forge_owners gitea_host in
      let (names, e, k) = >>=-eq-ok (third_party check (sorted_items (r ∷ remotes))) _ h in
      subst (λ p. (p.mode ≡ Mode.public) ↔ Any (ThirdParty check) (r ∷ remotes)) (ok-injective k)
        (iff_trans (ownership_of-public names) (
          iff_trans (third_party-ThirdParty check (sorted_items (r ∷ remotes)) e)
            (Any-sorted_items (ThirdParty check) (r ∷ remotes))))
