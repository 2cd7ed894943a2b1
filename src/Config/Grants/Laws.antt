-- ===== src/Config/Grants/Laws.antt =====
-- Where the roots of a grant come from, and which source decides.
use githost_mcp.Base.{
  text_eq_sound, ap, Text, codes, Bool, true, false, Option, none, some, List, [], ◌∷◌, ◌≡◌, refl,
  arith, Any, All, inl, inr, ◌⊎◌,
}
use githost_mcp.Config.Yaml.{Yaml, Entries, as_mapping}
use githost_mcp.Config.System.{System}
use githost_mcp.Config.Grants.{
  truthy, is_true, is_text, get, add_path, String, entry_path, access_is, add_entry,
  manifest_entries,
}

as_mapping-eq : (v : Yaml) (e : Entries) → as_mapping (some v) ≡ some e → v ≡ Yaml.mapping e
as_mapping-eq (Yaml.mapping m) e h = ground (arith, h)
as_mapping-eq Yaml.null e h = absurd (ground (arith, h))
as_mapping-eq (Yaml.bool b) e h = absurd (ground (arith, h))
as_mapping-eq (Yaml.int b n) e h = absurd (ground (arith, h))
as_mapping-eq (Yaml.str t) e h = absurd (ground (arith, h))
as_mapping-eq (Yaml.other b) e h = absurd (ground (arith, h))
as_mapping-eq (Yaml.seq l) e h = absurd (ground (arith, h))

is_true-eq : (o : Option Yaml) → is_true o ≡ true → o ≡ some (Yaml.bool true)
is_true-eq none h = absurd (ground (arith, h))
is_true-eq (some (Yaml.bool b)) h = ap (λ c. some (Yaml.bool c)) h
is_true-eq (some (Yaml.mapping m)) h = absurd (ground (arith, h))
is_true-eq (some Yaml.null) h = absurd (ground (arith, h))
is_true-eq (some (Yaml.int b n)) h = absurd (ground (arith, h))
is_true-eq (some (Yaml.str t)) h = absurd (ground (arith, h))
is_true-eq (some (Yaml.other b)) h = absurd (ground (arith, h))
is_true-eq (some (Yaml.seq l)) h = absurd (ground (arith, h))

is_text-eq : (t : Text) (o : Option Yaml) → is_text t o ≡ true → o ≡ some (Yaml.str t)
is_text-eq t none h = absurd (ground (arith, h))
is_text-eq t (some (Yaml.str u)) h = ap (λ c. some (Yaml.str c)) (text_eq_sound u t h)
is_text-eq t (some (Yaml.bool b)) h = absurd (ground (arith, h))
is_text-eq t (some (Yaml.mapping m)) h = absurd (ground (arith, h))
is_text-eq t (some Yaml.null) h = absurd (ground (arith, h))
is_text-eq t (some (Yaml.int b n)) h = absurd (ground (arith, h))
is_text-eq t (some (Yaml.other b)) h = absurd (ground (arith, h))
is_text-eq t (some (Yaml.seq l)) h = absurd (ground (arith, h))

module _ (s : System) where
  -- `v` is a mapping whose git_backed is the constant true, whose access is the text `mode`, and
  -- whose path is given, not false or empty, and expands to `p`.
  abbrev pub Grants : String → Text → Yaml → Type 0
  Grants mode p v =
      (e : Entries) × (w : Yaml) × (v ≡ Yaml.mapping e)
      × (get (codes "git_backed") e ≡ some (Yaml.bool true))
      × (get (codes "access") e ≡ some (Yaml.str (codes mode)))
      × (get (codes "path") e ≡ some w)
      × (truthy w ≡ true)
      × (p ≡ s.expand_user (s.to_str w))

  abbrev PathOf : Text → Entries → Type 0
  PathOf p e =
      (w : Yaml) × (get (codes "path") e ≡ some w)
      × (truthy w ≡ true)
      × (p ≡ s.expand_user (s.to_str w))

  entry_path-PathOf :
      (e : Entries) (p : Text) (backed : Bool) (o : Option Yaml)
      → is_true (get (codes "git_backed") e) ≡ backed
      → get (codes "path") e ≡ o
      → entry_path s e ≡ some p
      → (backed ≡ true) × PathOf p e
  unfolding entry_path
  entry_path-PathOf e p backed o b q h = ground (arith, b, q, h)

  abbrev pub GrantsRead : Text → Yaml → Type 0
  GrantsRead p v = Grants "readwrite" p v ⊎ Grants "readonly" p v

  grants :
      (mode : String) (p : Text) (v : Yaml) (e : Entries)
      → as_mapping (some v) ≡ some e
      → entry_path s e ≡ some p
      → access_is s mode e ≡ true
      → Grants mode p v
  grants mode p v e q qp qa =
      let (b, (w, g, t, k)) = entry_path-PathOf e p _ _ refl refl qp in
      (e, w, as_mapping-eq v e q, is_true-eq _ b, is_text-eq _ _ qa, g, t, k)

  abbrev Sourced : List Yaml → List Text × List Text → Type 0
  Sourced vs roots =
      All (λ p. Any (GrantsRead p) vs) roots.0 × All (λ p. Any (Grants "readwrite" p) vs) roots.1

  weaken :
      (P : Text → Yaml → Type 0) (v : Yaml) (vs : List Yaml) (l : List Text)
      → All (λ p. Any (P p) vs) l
      → All (λ p. Any (P p) (v ∷ vs)) l
  weaken P v vs [] h = tt
  weaken P v vs (p ∷ l) (h, hs) = (inr h, weaken P v vs l hs)

  weaken-Sourced :
      (v : Yaml) (vs : List Yaml) (roots : List Text × List Text)
      → Sourced vs roots
      → Sourced (v ∷ vs) roots
  weaken-Sourced v vs (reads, writes) (hr, hw) =
      (weaken GrantsRead v vs reads hr, weaken (Grants "readwrite") v vs writes hw)

  add_path-Sourced :
      (v : Yaml) (vs : List Yaml) (e : Entries) (roots : List Text × List Text) (p : Option Text)
      (both only : Bool)
      → as_mapping (some v) ≡ some e
      → entry_path s e ≡ p
      → access_is s "readwrite" e ≡ both
      → access_is s "readonly" e ≡ only
      → Sourced vs roots
      → Sourced (v ∷ vs) (add_path p both only roots)
  unfolding add_path
  add_path-Sourced v vs e roots none both only q qp qb qo h = weaken-Sourced v vs roots h
  add_path-Sourced v vs e (reads, writes) (some path) true only q qp qb qo h =
      let (kr, kw) = weaken-Sourced v vs (reads, writes) h in
      let g = grants "readwrite" path v e q qp qb in ((inl (inl g), kr), (inl g, kw))
  add_path-Sourced v vs e (reads, writes) (some path) false true q qp qb qo h =
      let (kr, kw) = weaken-Sourced v vs (reads, writes) h in
      ((inl (inr (grants "readonly" path v e q qp qo)), kr), kw)
  add_path-Sourced v vs e roots (some path) false false q qp qb qo h = weaken-Sourced v vs roots h

  add_entry-Sourced :
      (v : Yaml) (vs : List Yaml) (o : Option Entries) (roots : List Text × List Text)
      → as_mapping (some v) ≡ o
      → Sourced vs roots
      → Sourced (v ∷ vs) (add_entry s o roots)
  unfolding add_entry
  add_entry-Sourced v vs none roots q h = weaken-Sourced v vs roots h
  add_entry-Sourced v vs (some e) roots q h = add_path-Sourced v vs e roots _ _ _ q refl refl refl h

  -- Every write root of a manifest is the expanded path of an entry that is a mapping with
  -- git_backed true, a path that is not false or empty and access readwrite, and every read root
  -- that of one with access readwrite or readonly.
  pub manifest_entries-Sourced :
      (vs : List Yaml)
      → All (λ p. Any (GrantsRead p) vs) (manifest_entries s vs).0
        × All (λ p. Any (Grants "readwrite" p) vs) (manifest_entries s vs).1
  unfolding manifest_entries
  manifest_entries-Sourced [] = (tt, tt)
  manifest_entries-Sourced (v ∷ vs) =
      add_entry-Sourced v vs (as_mapping (some v)) _ refl (manifest_entries-Sourced vs)
