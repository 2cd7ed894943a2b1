-- ===== src/Bootstrap/Tree.antt =====
-- tree_check_paths() and symlinks_above_denied() of src/githost_mcp/bootstrap.py, over the output
-- of `git ls-files -s -z`. `isfile` is os.path.isfile() of a path joined to the checkout's root.
use githost_mcp.Base.{
  keep_if, any, ◌++◌, ◌&&◌, length, is_empty, ◌∷◌, true, not, map, ltb, if◌then◌else◌, [], text_eq,
  List, Text, Bool, codes, split_on, before_char, after_char,
}
use githost_mcp.Stdlib.Fnmatch.{fnmatch}
use githost_mcp.Stdlib.Normpath.{normpath}

abbrev pub is_symlink_entry : Text → Bool
is_symlink_entry entry = text_eq (before_char b' ' (before_char 9 entry)) (codes "120000")

-- `entry.partition("\t")[2]`
abbrev pub entry_path : Text → Text
entry_path entry = after_char 9 entry

-- `d[k] = v` on a dict in insertion order.
unfoldable pub put : Text → Text → List (Text × Text) → List (Text × Text)
put k v [] = (k, v) ∷ []
put k v ((j, w) ∷ d) = let more = put k v d in if text_eq j k then (j, v) ∷ d else (j, w) ∷ more

abbrev pub add_paths : Text → List (Text × Text) → List (Text × Text)
add_paths entry paths =
    let path = entry_path entry in
    let tracked = put path path paths in
    if is_empty entry
    then paths
    else if is_symlink_entry entry
    then put (path ++ codes "/x") (path ++ codes " (symlink)") tracked
    else tracked

unfoldable pub check_paths_from : List (Text × Text) → List Text → List (Text × Text)
check_paths_from paths [] = paths
check_paths_from paths (entry ∷ entries) = check_paths_from (add_paths entry paths) entries

unfoldable pub tree_check_paths : Text → List (Text × Text)
tree_check_paths ls_files_stage = check_paths_from [] (split_on 0 ls_files_stage)

-- `all(fnmatch(part, seg) for part, seg in zip(parts, segments))`
unfoldable pub zip_match : List Text → List Text → Bool
zip_match [] segments = true
zip_match (p ∷ parts) [] = true
zip_match (p ∷ parts) (s ∷ segments) = fnmatch p s && zip_match parts segments

unfoldable pub covers : List Text → Text → Bool
covers parts pattern =
    let segments = split_on b'/' pattern in
    ltb (length parts) (length segments) && zip_match parts segments

module _ (isfile : Text → Bool) where
  abbrev pub above_denied : List Text → Text → Bool
  above_denied write_globs_deny entry =
      let path = entry_path entry in
      not (is_empty entry)
      && (is_symlink_entry entry
          && (not (isfile path) && any (covers (split_on b'/' (normpath path))) write_globs_deny))

  unfoldable pub symlinks_above_denied : Text → List Text → List Text
  symlinks_above_denied ls_files_stage write_globs_deny =
      map (λ entry. entry_path entry ++ codes " (symlink)")
        (keep_if (above_denied write_globs_deny) (split_on 0 ls_files_stage))
