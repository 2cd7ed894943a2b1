-- ===== src/Tests/Config.antt =====
-- src/githost_mcp/config.py at concrete inputs.
use githost_mcp.Base.{
  map, List, ◌++◌, some, refl, arith, Any, ◌≢◌, ◌≡◌, ◌∷◌, true, none, [], Text, All, codes,
}
use githost_mcp.Errors.{ok, err, ExcType, Fault}
use githost_mcp.Config.Yaml.{Yaml, Items, Entries}
use githost_mcp.Config.System.{System, Loaded, ℤ, default_config}
use githost_mcp.Config.Grants.{
  Grant, no_grant, parse_csv, manifest_entries, grant_of, section_entry, present,
  resolve_allowed_roots,
}
use githost_mcp.Config.Grants.Laws.{Grants, GrantsRead, manifest_entries-Sourced}
use githost_mcp.Config.Load.{load_config, resolved}
use githost_mcp.Config.Cache.{Loading, fresh, get_config}
use githost_mcp.Config.Cache.Laws.{calls, get_config_stable, get_config_reentrant}

abbrev yes : Yaml
yes = Yaml.bool true

abbrev manifest_entry : Yaml
manifest_entry = Yaml.mapping (
    Entries.entry (codes "path") (Yaml.str (codes "/w")) (
      Entries.entry (codes "git_backed") yes
        (Entries.entry (codes "access") (Yaml.str (codes "readwrite")) Entries.end)))

abbrev other_entry : Yaml
other_entry = Yaml.mapping (
    Entries.entry (codes "path") (Yaml.str (codes "/x"))
      (Entries.entry (codes "access") (Yaml.str (codes "readwrite")) Entries.end))

-- A policy that lists one agent.
abbrev policy : Entries
policy =
    Entries.entry (codes "agents")
      (Yaml.mapping (
        Entries.entry (codes "dev")
          (Yaml.mapping (
            Entries.entry (codes "write_roots")
              (Yaml.seq (Items.item (Yaml.str (codes "/w")) Items.nil)) Entries.end))
          Entries.end))
      Entries.end

abbrev text_of : Yaml → Text
text_of (Yaml.str t) = t
text_of _ = []

-- Every file is there and holds that policy; no variable is set; every text is the number 7.
abbrev machine : System
machine = record {
  env = λ k. none;
  expand_user = λ t. t;
  exists = λ t. true;
  load_yaml = λ t. Loaded.parsed (Yaml.mapping policy);
  to_str = text_of;
  to_int = λ t. some (ℤ.pos 7);
}

manifest_entries-Sourced_example :
    All
      (λ p. Any (GrantsRead machine p) (manifest_entry ∷ other_entry ∷ []))
      (manifest_entries machine (manifest_entry ∷ other_entry ∷ [])).0
    × All
        (λ p. Any (Grants machine "readwrite" p) (manifest_entry ∷ other_entry ∷ []))
        (manifest_entries machine (manifest_entry ∷ other_entry ∷ [])).1
manifest_entries-Sourced_example =
    manifest_entries-Sourced machine (manifest_entry ∷ other_entry ∷ [])

manifest_tests :
    manifest_entries machine (manifest_entry ∷ other_entry ∷ [])
    ≡ (codes "/w" ∷ [], codes "/w" ∷ [])
unfolding manifest_entries githost_mcp.Config.Grants.add_entry githost_mcp.Config.Grants.entry_path
    githost_mcp.Config.Yaml.get githost_mcp.Base.text_eq codes
manifest_tests = refl

env_given : parse_csv (codes "/a, /b") ≡ codes "/a" ∷ codes "/b" ∷ []
unfolding parse_csv githost_mcp.Base.split_on codes githost_mcp.Base.strip
env_given = refl

env_unset : parse_csv [] ≡ []
unfolding parse_csv githost_mcp.Base.split_on githost_mcp.Base.strip
env_unset = refl

policy_there : present machine (codes "p.yml") ≡ true
unfolding codes
policy_there = refl

grant_tests : (grant_of machine (codes "dev") policy).write_roots ≡ codes "/w" ∷ []
unfolding grant_of section_entry githost_mcp.Config.Yaml.get githost_mcp.Base.text_eq codes
    githost_mcp.Config.Grants.agent_grant githost_mcp.Config.Grants.as_str_list
    githost_mcp.Config.Yaml.items
grant_tests = refl

-- The policy decides, and a machine on which reading it fails with another exception than OSError
-- and YAMLError does not load.
abbrev resolved_grant : Grant × Text
resolved_grant = (grant_of machine (codes "dev") policy, codes "policy:" ++ codes "p.yml")

policy_decides :
    resolve_allowed_roots machine (codes "dev") [] (codes "p.yml") (codes "m.yml")
    ≡ ok resolved_grant
unfolding resolve_allowed_roots githost_mcp.Config.Grants.resolve_policy
    githost_mcp.Config.Grants.load_policy codes parse_csv githost_mcp.Base.split_on
    githost_mcp.Base.strip
policy_decides = refl

abbrev undecodable : System
undecodable = record machine {
  load_yaml = λ t. Loaded.failed ExcType.value_error Fault.outside_roots;
}

load_raises : load_config undecodable ≡ err ExcType.value_error Fault.outside_roots
unfolding load_config resolved resolve_allowed_roots githost_mcp.Config.Grants.resolve_policy
    githost_mcp.Config.Grants.load_policy codes parse_csv githost_mcp.Base.split_on
    githost_mcp.Base.strip
load_raises = refl

abbrev first_load : Loading
first_load = record { nested = 2; result = ok default_config }

abbrev broken_load : Loading
broken_load = record { nested = 1; result = err ExcType.value_error (Fault.raised []) }

get_config_reentrant_example :
    All (λ o. o ≡ some default_config) (get_config first_load fresh).2
    × ((get_config first_load fresh).1.loading ≡ fresh.loading)
get_config_reentrant_example = get_config_reentrant first_load fresh

first_loaded : (get_config first_load fresh).0 ≡ ok default_config
unfolding get_config githost_mcp.Config.Cache.shallow
first_loaded = refl

abbrev three_loads : List Loading
three_loads = broken_load ∷ first_load ∷ broken_load ∷ []

get_config_stable_example :
    calls three_loads (get_config first_load fresh).1
    ≡ (map (λ l. (ok default_config, [])) three_loads, (get_config first_load fresh).1)
get_config_stable_example =
    get_config_stable first_load three_loads fresh default_config refl first_loaded

broken_failed : (get_config broken_load fresh).0 ≡ err ExcType.value_error (Fault.raised [])
unfolding get_config githost_mcp.Config.Cache.shallow
broken_failed = refl
