-- ===== src/Security/Paths.antt =====
-- canonical_path(), _validate_path() and its two callers of src/githost_mcp/security.py. A path
-- that pathlib has resolved is the list of its parts; resolving one, which reads the file system,
-- is the parameter `resolve`.
pub mod Laws
use githost_mcp.Base.{
  ◌||◌, text_eq, [], ◌&&◌, if◌then◌else◌, false, ◌∷◌, not, is_empty, true, List, Text, Bool,
}
use githost_mcp.Config.System.{Config}
use githost_mcp.Errors.{Result, ok, err, ◌>>=◌, ◌>>◌, raise_if, ExcType, Fault}

-- What `Path(p).expanduser().resolve()` does.
pub data Resolved : Type 0 where
  path : List Text → Resolved
  value_error other_error : Resolved

-- `path.relative_to(root)` succeeds: the root's parts begin the path's.
unfoldable pub within : List Text → List Text → Bool
within [] parts = true
within (r ∷ root) [] = false
within (r ∷ root) (p ∷ parts) = text_eq r p && within root parts

abbrev pub glob_enforcement_implemented : Bool
glob_enforcement_implemented = true

-- One round of the loop over the roots, with the rest of the loop: a root that raises ValueError
-- is passed over, and any other exception of a root leaves the function.
unfoldable pub check_root : List Text → Resolved → Result (List Text) → Result (List Text)
check_root parts (Resolved.path r) later = if within r parts then ok parts else later
check_root parts Resolved.value_error later = later
check_root parts Resolved.other_error later = err ExcType.exception Fault.bad_repo_path

module _ (resolve : Text → Resolved) where
  unfoldable pub canonical_path : Text → Result (List Text)
  canonical_path repo_path = elim (resolve repo_path) [
    | Resolved.path parts ↦ ok parts
    | _ ↦ err ExcType.invalid_argument Fault.bad_repo_path
  ]

  unfoldable pub check_roots : List Text → List Text → Result (List Text)
  check_roots parts [] = err ExcType.path_not_allowed Fault.outside_roots
  check_roots parts (root ∷ roots) = check_root parts (resolve root) (check_roots parts roots)

  unfoldable pub validate_path : Text → List Text → Result (List Text)
  validate_path repo_path roots = do
    raise_if (is_empty roots) ExcType.path_not_allowed Fault.no_roots
    parts ← canonical_path repo_path
    check_roots parts roots

  unfoldable pub validate_write_path : Config → Text → Result (List Text)
  validate_write_path config repo_path = do
    raise_if
        (not glob_enforcement_implemented
          && (not (is_empty config.write_globs) || not (is_empty config.write_globs_deny)))
        ExcType.path_not_allowed Fault.globs_not_enforced
    validate_path repo_path config.allowed_write_roots

  unfoldable pub validate_read_path : Config → Text → Result (List Text)
  validate_read_path config repo_path = validate_path repo_path config.allowed_read_roots
