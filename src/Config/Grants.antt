-- ===== src/Config/Grants.antt =====
-- _parse_csv(), _as_str_list(), _load_policy(), _load_manifest_roots() and
-- _resolve_allowed_roots() of src/githost_mcp/config.py.
pub mod Laws
use Prim.Native.String.{String}
use githost_mcp.Base.{
  ◌||◌, Text, codes, Bool, true, false, not, ◌&&◌, Option, none, some, List, [], ◌∷◌, ◌++◌, map,
  is_empty, keep_if, split_on, strip, text_eq, if◌then◌else◌, or_default,
}
use githost_mcp.Config.Yaml.{
  Yaml, Entries, get, is_true, is_truthy, as_mapping, as_seq, is_text, truthy,
}
use githost_mcp.Config.System.{failed, parsed, System, Loaded}
use githost_mcp.Errors.{Result, ok, err, ◌>>=◌}

-- The fields that a resolution fills: read and write roots, the glob scope, and where it came from.
pub record Grant : Type 0 where
  pub read_roots : List Text
  pub write_roots : List Text
  pub write_globs : List Text
  pub write_globs_deny : List Text

abbrev pub no_grant : Grant
no_grant = record { read_roots = []; write_roots = []; write_globs = []; write_globs_deny = [] }

unfoldable pub parse_csv : Text → List Text
parse_csv raw = keep_if (λ r. not (is_empty r)) (map strip (split_on b',' raw))

-- What an entry adds, by its path and by whether its access is readwrite or readonly.
unfoldable pub add_path : Option Text → Bool → Bool → List Text × List Text → List Text × List Text
add_path none both only roots = roots
add_path (some path) true only (reads, writes) = (path ∷ reads, path ∷ writes)
add_path (some path) false true (reads, writes) = (path ∷ reads, writes)
add_path (some path) false false roots = roots

module _ (s : System) where
  unfoldable pub default_manifest_path : Text → Text
  default_manifest_path agent_id =
      if is_empty agent_id || text_eq agent_id (codes "unknown")
      then []
      else s.expand_user (codes "~/.claude/manifests/" ++ (agent_id ++ codes "-agent.yml"))

  -- `isinstance(entry, dict) and entry.get("git_backed") is True and entry.get("path")`
  unfoldable pub entry_path : Entries → Option Text
  entry_path e = elim (is_true (get (codes "git_backed") e)) [
    | true ↦ elim (get (codes "path") e) [
      | some v ↦ if truthy v then some (s.expand_user (s.to_str v)) else none
      | none ↦ none
    ]
    | false ↦ none
  ]

  abbrev pub access_is : String → Entries → Bool
  access_is mode e = is_text (codes mode) (get (codes "access") e)

  -- One round of the loop over `workspace_access`.
  unfoldable pub add_entry : Option Entries → List Text × List Text → List Text × List Text
  unfolding add_path
  add_entry none roots = roots
  add_entry (some e) roots =
      add_path (entry_path e) (access_is "readwrite" e) (access_is "readonly" e) roots

  -- The whole loop; the lists come out in the order of the entries.
  unfoldable pub manifest_entries : List Yaml → List Text × List Text
  manifest_entries [] = ([], [])
  manifest_entries (v ∷ vs) = add_entry (as_mapping (some v)) (manifest_entries vs)

  -- The roots of a document that was parsed.
  abbrev pub document_roots : Option Entries → List Text × List Text
  document_roots none = ([], [])
  document_roots (some d) =
      manifest_entries (or_default (as_seq (get (codes "workspace_access") d)) [])

  unfoldable pub load_manifest_roots : Text → Result (List Text × List Text)
  load_manifest_roots path = elim (s.load_yaml path) [
    | Loaded.parsed v ↦ ok (document_roots (as_mapping (some v)))
    | Loaded.unreadable ↦ ok ([], [])
    | Loaded.failed t f ↦ err t f
  ]

  unfoldable pub as_str_list : Option Yaml → List Text
  as_str_list raw = map (λ v. s.expand_user (s.to_str v)) (or_default (as_seq raw) [])

  -- `[expanduser(str(r["path"])) for r in roots_raw if isinstance(r, dict) and r.get("path")]`
  unfoldable pub root_paths : List Yaml → List Text
  root_paths [] = []
  root_paths (r ∷ rs) =
      let rest = root_paths rs in
      elim (as_mapping (some r)) [
        | none ↦ rest
        | some e ↦ elim (get (codes "path") e) [
          | none ↦ rest
          | some v ↦ if truthy v then s.expand_user (s.to_str v) ∷ rest else rest
        ]
      ]

  -- `data.get(section)`, narrowed to a mapping, then the agent's entry there, if that is one.
  unfoldable pub section_entry : String → Text → Entries → Option Entries
  section_entry section agent_id d = elim (as_mapping (get (codes section) d)) [
    | none ↦ none
    | some agents ↦ as_mapping (get agent_id agents)
  ]

  unfoldable pub agent_grant : Entries → Entries → Grant
  agent_grant d e = record {
    read_roots =
        if is_text (codes "all") (get (codes "default_read") d)
        then root_paths (or_default (as_seq (get (codes "roots") d)) [])
        else [];
    write_roots = as_str_list (get (codes "write_roots") e);
    write_globs = as_str_list (get (codes "write_globs") e);
    write_globs_deny = as_str_list (get (codes "write_globs_deny") e);
  }

  unfoldable pub explicit_grant : Entries → Grant
  explicit_grant e = record {
    read_roots = as_str_list (get (codes "read_roots") e);
    write_roots = as_str_list (get (codes "write_roots") e);
    write_globs = as_str_list (get (codes "write_globs") e);
    write_globs_deny = as_str_list (get (codes "write_globs_deny") e);
  }

  unfoldable pub grant_of : Text → Entries → Grant
  grant_of agent_id d = elim (section_entry "agents" agent_id d) [
    | some e ↦ agent_grant d e
    | none ↦ elim (section_entry "explicit_agents" agent_id d) [
      | some e ↦ explicit_grant e
      | none ↦ no_grant
    ]
  ]

  abbrev pub document_grant : Text → Option Entries → Option Grant
  document_grant agent_id none = none
  document_grant agent_id (some d) = some (grant_of agent_id d)

  -- `none`: unreadable, or not a mapping.
  unfoldable pub load_policy : Text → Text → Result (Option Grant)
  load_policy agent_id policy_path = elim (s.load_yaml policy_path) [
    | Loaded.parsed v ↦ ok (document_grant agent_id (as_mapping (some v)))
    | Loaded.unreadable ↦ ok none
    | Loaded.failed t f ↦ err t f
  ]

  -- `if path and os.path.exists(path)`
  abbrev pub present : Text → Bool
  present path = not (is_empty path) && s.exists path

  -- The last two sources: the manifest, then nothing.
  abbrev pub manifest_grant : Text → List Text × List Text → Grant × Text
  manifest_grant manifest_path (reads, writes) =
      if is_empty reads && is_empty writes then (no_grant, codes "none") else (
        record no_grant { read_roots = reads; write_roots = writes },
        codes "manifest:" ++ manifest_path,
      )

  unfoldable pub resolve_manifest : Text → Result (Grant × Text)
  resolve_manifest manifest_path = elim (present manifest_path) [
    | true ↦ load_manifest_roots manifest_path >>= λ roots. ok (manifest_grant manifest_path roots)
    | false ↦ ok (no_grant, codes "none")
  ]

  abbrev pub policy_or_manifest : Text → Text → Option Grant → Result (Grant × Text)
  policy_or_manifest policy_path manifest_path (some g) = ok (g, codes "policy:" ++ policy_path)
  policy_or_manifest policy_path manifest_path none = resolve_manifest manifest_path

  unfoldable pub resolve_policy : Text → Text → Text → Result (Grant × Text)
  resolve_policy agent_id policy_path manifest_path = elim (present policy_path) [
    | true ↦ load_policy agent_id policy_path >>= policy_or_manifest policy_path manifest_path
    | false ↦ resolve_manifest manifest_path
  ]

  unfoldable pub resolve_allowed_roots : Text → Text → Text → Text → Result (Grant × Text)
  resolve_allowed_roots agent_id env_raw policy_path manifest_path =
      let explicit = parse_csv env_raw in
      if is_empty explicit
      then resolve_policy agent_id policy_path manifest_path
      else ok (record no_grant { read_roots = explicit; write_roots = explicit }, codes "env")
