-- ===== src/Config/Cache/Laws.antt =====
-- The cached configuration: stable once loaded, no recursion while loading, retried on failure.
use githost_mcp.Base.{
  ap, ◌∷◌, map, List, false, Bool, true, ℕ, zero, suc, ◌≡◌, refl, arith, Option, some, none, [],
  All,
}
use githost_mcp.Config.System.{Config, default_config}
use githost_mcp.Config.Cache.{Cache, Loading, shallow, nested_calls, get_config}
use githost_mcp.Errors.{Result, ok, err, ExcType, Fault}

-- A sequence of calls that are not made during a load: what each gave and what its nested calls
-- were given, and the state after the last.
abbrev pub calls : List Loading → Cache → List (Result Config × List (Option Config)) × Cache
calls [] c = ([], c)
calls (load ∷ loads) c =
    let (r, after, seen) = get_config load c in
    let (later, end) = calls loads after in ((r, seen) ∷ later, end)

get_config-cached :
    (load : Loading) (c : Cache) (config : Config)
    → c.loading ≡ false
    → (get_config load c).0 ≡ ok config
    → (get_config load c).1.cached ≡ some config
unfolding get_config shallow
get_config-cached load c config idle h = ground arith

calls-cached :
    (loads : List Loading) (c : Cache) (config : Config)
    → c.cached ≡ some config
    → calls loads c ≡ (map (λ l. (ok config, [])) loads, c)
unfolding get_config shallow
calls-cached [] c config h = refl
calls-cached (load ∷ loads) c config h =
    let one : get_config load c ≡ (ok config, c, []) = ground arith in
    rw one (ap (λ r. ((ok config, []) ∷ r.0, r.1)) (calls-cached loads c config h))

-- After a call outside a load that gave a configuration, each call of any sequence of later calls
-- gives the same one and loads nothing, and the state stays as it is.
pub get_config_stable :
    (load : Loading) (loads : List Loading) (c : Cache) (config : Config)
    → c.loading ≡ false
    → (get_config load c).0 ≡ ok config
    → calls loads (get_config load c).1 ≡ (map (λ l. (ok config, [])) loads, (get_config load c).1)
get_config_stable load loads c config idle h =
    calls-cached loads (get_config load c).1 config (get_config-cached load c config idle h)

nested_calls-default :
    (n : ℕ) (c : Cache)
    → c.cached ≡ none
    → c.loading ≡ true
    → All (λ o. o ≡ some default_config) (nested_calls n c)
unfolding nested_calls shallow
nested_calls-default zero c h k = tt
nested_calls-default (suc n) c h k = (ground arith, nested_calls-default n c h k)

reentrant_at :
    (n : ℕ) (r : Result Config) (cached : Option Config) (loading : Bool)
    → let c : Cache = record { cached = cached; loading = loading } in
      let after = get_config (record { nested = n; result = r }) c in
      All (λ o. o ≡ some default_config) after.2 × (after.1.loading ≡ loading)
unfolding get_config shallow
reentrant_at n r (some config) loading = (tt, refl)
reentrant_at n r none true = (tt, refl)
reentrant_at n (ok config) none false = (nested_calls-default n _ refl refl, refl)
reentrant_at n (err t f) none false = (nested_calls-default n _ refl refl, refl)

-- Every call that is made during a load is given the default settings, and the loading flag is
-- afterwards as it was before, also when the load raises.
pub get_config_reentrant :
    (load : Loading) (c : Cache)
    → All (λ o. o ≡ some default_config) (get_config load c).2
      × ((get_config load c).1.loading ≡ c.loading)
unfolding get_config shallow
get_config_reentrant load c = reentrant_at load.nested load.result c.cached c.loading

-- A call whose load raises leaves the state as it was.
pub get_config_failed :
    (load : Loading) (c : Cache) (t : ExcType) (f : Fault)
    → (get_config load c).0 ≡ err t f
    → (get_config load c).1 ≡ c
unfolding get_config shallow
get_config_failed load c t f h = ground arith
