-- ===== src/Config/Cache.antt =====
-- get_config() and reset_config() of src/githost_mcp/config.py: the module globals `_config` and
-- `_loading` as a state, and a load that may call get_config() again through its log lines.
pub mod Laws
use githost_mcp.Base.{
  zero, suc, ◌∷◌, true, if◌then◌else◌, some, false, [], Bool, ℕ, none, Option, List,
}
use Prim.Native.Nat.{suc, ℕ}
use githost_mcp.Config.System.{Config, default_config}
use githost_mcp.Errors.{Result, ok, err}

pub record Cache : Type 0 where
  pub cached : Option Config
  pub loading : Bool

-- What load_config() does when it is run: it makes some number of nested calls of get_config()
-- and then gives its result. `nested` is that number.
pub record Loading : Type 0 where
  pub nested : ℕ
  pub result : Result Config

abbrev pub fresh : Cache
fresh = record { cached = none; loading = false }

-- A call made while `_loading` is set, or once `_config` is there: nothing is loaded.
unfoldable pub shallow : Cache → Option Config
shallow c = elim c.cached [
  | some config ↦ some config
  | none ↦ if c.loading then some default_config else none
]

-- The nested calls of a load, each with the configuration that it is given.
unfoldable pub nested_calls : ℕ → Cache → List (Option Config)
nested_calls zero c = []
nested_calls (suc n) c = shallow c ∷ nested_calls n c

-- The call's result, the new state, and what the nested calls were given.
unfoldable pub get_config : Loading → Cache → Result Config × Cache × List (Option Config)
get_config load c = elim (shallow c) [
  | some config ↦ (ok config, c, [])
  | none ↦
      let during = record c { loading = true } in
      let seen = nested_calls load.nested during in
      elim load.result [
        | ok config ↦ (ok config, record { cached = some config; loading = false }, seen)
        | err t f ↦ (err t f, record c { loading = false }, seen)
      ]
]

unfoldable pub reset_config : Cache → Cache
reset_config c = record { cached = none; loading = false }
