-- ===== src/Security/Globs.antt =====
-- validate_write_globs() of src/githost_mcp/security.py. On POSIX `path.replace(os.sep, "/")` is
-- the path itself.
pub mod Laws
use githost_mcp.Base.{
  ◌&&◌, not, [], ◌∷◌, if◌then◌else◌, any, text_eq, keep_if, is_empty, ◌||◌, List, Text, Bool, codes,
  starts_with,
}
use githost_mcp.Stdlib.Normpath.{normpath, is_abs, dot_dot}
use githost_mcp.Stdlib.Fnmatch.{fnmatch}
use githost_mcp.Config.System.{Config}
use githost_mcp.Errors.{Result, ok, ◌>>=◌, ◌>>◌, raise_if, ExcType, Fault}

-- The normal form is absolute or leaves the repository.
unfoldable pub escapes : Text → Bool
escapes normalized =
    is_abs normalized
    || text_eq normalized dot_dot
    || starts_with normalized (b'.' ∷ b'.' ∷ b'/' ∷ [])

-- The two glob tests on a normal form.
unfoldable pub out_of_scope : List Text → List Text → Text → Bool
out_of_scope allow deny normalized =
    let passes_allow = is_empty allow || any (fnmatch normalized) allow in
    let hits_deny = not (is_empty deny) && any (fnmatch normalized) deny in
    not passes_allow || hits_deny

unfoldable pub is_denied : List Text → List Text → Text → Bool
is_denied allow deny path =
    let normalized = normpath path in escapes normalized || out_of_scope allow deny normalized

unfoldable pub validate_write_globs : Config → List Text → Result (Unit {0})
validate_write_globs config paths =
    let denied = keep_if (is_denied config.write_globs config.write_globs_deny) paths in
    if is_empty config.write_globs && is_empty config.write_globs_deny
    then ok tt
    else raise_if (not (is_empty denied)) ExcType.write_glob_denied (Fault.paths_denied denied)
