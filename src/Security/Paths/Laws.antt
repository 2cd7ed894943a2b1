-- ===== src/Security/Paths/Laws.antt =====
-- The path allowlist accepts exactly what resolves under an allowed root.
use githost_mcp.Base.{
  sym, subst, ◌↔◌, ◌⊎◌, Text, List, [], ◌∷◌, ◌≡◌, refl, arith, Any, All, inl, inr, ◌≢◌, true,
  Bool-cases,
}
use githost_mcp.Errors.{>>=-eq-ok, Result, ok}
use githost_mcp.Security.Paths.{
  Config, validate_write_path, validate_read_path, validate_path, canonical_path, check_root,
  Resolved, within, check_roots,
}

module _ (resolve : Text → Resolved) where
  -- The root resolves to a path that the parts lie under.
  abbrev pub Covers : List Text → Text → Type 0
  Covers parts root = (r : List Text) × (resolve root ≡ Resolved.path r) × (within r parts ≡ true)

  abbrev pub IsUsable : Text → Type 0
  IsUsable root = resolve root ≢ Resolved.other_error

  check_root_sound :
      (parts : List Text) (r : Resolved) (later : Result (List Text)) {q : List Text}
      → check_root parts r later ≡ ok q
      → ((q ≡ parts) × ((p : List Text) × (r ≡ Resolved.path p) × (within p parts ≡ true)))
        ⊎ (later ≡ ok q)
  unfolding check_root
  check_root_sound parts (Resolved.path r) later h = elim (Bool-cases (within r parts)) [
    | inl p ↦ inl (ground arith, (r, refl, p))
    | inr n ↦ inr (ground arith)
  ]
  check_root_sound parts Resolved.value_error later h = inr h
  check_root_sound parts Resolved.other_error later h = absurd (ground arith)

  check_roots_sound :
      (parts : List Text) (roots : List Text) {q : List Text}
      → check_roots resolve parts roots ≡ ok q
      → (q ≡ parts) × Any (Covers parts) roots
  unfolding check_roots
  check_roots_sound parts [] h = absurd (ground arith)
  check_roots_sound parts (root ∷ roots) h = elim (check_root_sound parts (resolve root) _ h) [
    | inl (same, covered) ↦ (same, inl covered)
    | inr later ↦ let (same, covered) = check_roots_sound parts roots later in (same, inr covered)
  ]

  check_root_later :
      (parts : List Text) (r : Resolved) (later : Result (List Text))
      → r ≢ Resolved.other_error
      → later ≡ ok parts
      → check_root parts r later ≡ ok parts
  unfolding check_root
  check_root_later parts (Resolved.path r) later u h = ground arith
  check_root_later parts Resolved.value_error later u h = h
  check_root_later parts Resolved.other_error later u h = absurd (u refl)

  check_roots_complete :
      (parts : List Text) (roots : List Text)
      → All IsUsable roots
      → Any (Covers parts) roots
      → check_roots resolve parts roots ≡ ok parts
  unfolding check_roots
  check_roots_complete parts (root ∷ roots) (u, us) (inl (r, e, p)) =
      rw e (unfold check_root in rw p)
  check_roots_complete parts (root ∷ roots) (u, us) (inr later) =
      check_root_later parts (resolve root) _ u (check_roots_complete parts roots us later)
  check_roots_complete parts [] us h = absurd h

  abbrev pub Allowed : List Text → Text → List Text → Type 0
  Allowed roots repo_path parts =
      (resolve repo_path ≡ Resolved.path parts) × Any (Covers parts) roots

  canonical_path-eq-ok :
      (repo_path : Text) {parts : List Text}
      → canonical_path resolve repo_path ≡ ok parts
      → resolve repo_path ≡ Resolved.path parts
  unfolding canonical_path
  canonical_path-eq-ok repo_path h = ground arith

  validate_path_sound :
      (repo_path : Text) (roots : List Text) {parts : List Text}
      → validate_path resolve repo_path roots ≡ ok parts
      → Allowed roots repo_path parts
  unfolding validate_path
  validate_path_sound repo_path [] h = absurd (ground arith)
  validate_path_sound repo_path (root ∷ roots) {parts} h =
      let (p, e, k) = >>=-eq-ok (canonical_path resolve repo_path) _ h in
      let (same, covered) = check_roots_sound p (root ∷ roots) k in
      subst (Allowed (root ∷ roots) repo_path) (sym same)
        (canonical_path-eq-ok repo_path e, covered)

  validate_path_complete :
      (repo_path : Text) (roots : List Text) (parts : List Text)
      → All IsUsable roots
      → Allowed roots repo_path parts
      → validate_path resolve repo_path roots ≡ ok parts
  unfolding validate_path canonical_path
  validate_path_complete repo_path [] parts u (e, h) = absurd h
  validate_path_complete repo_path (root ∷ roots) parts u (e, h) =
      rw (e, canonical_path) (check_roots_complete parts (root ∷ roots) u h)

  -- When every write root resolves or raises ValueError, a path is accepted for writing, with the
  -- given parts, exactly when it resolves to those parts and a write root resolves to a prefix of
  -- them.
  pub validate_write_path_iff :
      (config : Config) (repo_path : Text) (parts : List Text)
      → All IsUsable config.allowed_write_roots
      → (validate_write_path resolve config repo_path ≡ ok parts)
        ↔ Allowed config.allowed_write_roots repo_path parts
  unfolding validate_write_path
  validate_write_path_iff config repo_path parts u = (
    validate_path_sound repo_path config.allowed_write_roots,
    validate_path_complete repo_path config.allowed_write_roots parts u,
  )

  -- When every read root resolves or raises ValueError, a path is accepted for reading, with the
  -- given parts, exactly when it resolves to those parts and a read root resolves to a prefix of
  -- them.
  pub validate_read_path_iff :
      (config : Config) (repo_path : Text) (parts : List Text)
      → All IsUsable config.allowed_read_roots
      → (validate_read_path resolve config repo_path ≡ ok parts)
        ↔ Allowed config.allowed_read_roots repo_path parts
  unfolding validate_read_path
  validate_read_path_iff config repo_path parts u = (
    validate_path_sound repo_path config.allowed_read_roots,
    validate_path_complete repo_path config.allowed_read_roots parts u,
  )
