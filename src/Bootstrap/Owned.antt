-- ===== src/Bootstrap/Owned.antt =====
-- ensure_owned(), ensure_gitea_org(), ensure_no_branch_for_denied_paths() and
-- ensure_whole_tree_writer() of src/githost_mcp/bootstrap.py.
use githost_mcp.Base.{
  [], ◌∷◌, ◌&&◌, text_eq, is_some, is_empty, if◌then◌else◌, not, Option, List, Text, Bool, codes,
}
use githost_mcp.Errors.{Result, raise_if, ExcType, Fault}
use githost_mcp.Identity.Remote.{is_owned}

unfoldable pub ensure_owned : (Text → Text) → Text → Text → List Text → Text → Result (Unit {0})
ensure_owned lower provider owner forge_owners gitea_host =
    if text_eq provider (codes "github")
    then raise_if (not (is_owned lower forge_owners owner)) ExcType.not_owned Fault.owner_not_ours
    else raise_if (is_empty gitea_host) ExcType.not_owned Fault.no_gitea_host

unfoldable pub ensure_gitea_org : Bool → Result (Unit {0})
ensure_gitea_org is_org = raise_if (not is_org) ExcType.not_owned Fault.not_an_organization

unfoldable pub ensure_no_branch_for_denied_paths : Option Text → List Text → Result (Unit {0})
ensure_no_branch_for_denied_paths branch write_globs_deny =
    raise_if (is_some branch && not (is_empty write_globs_deny)) ExcType.write_glob_denied
      (Fault.paths_denied (codes "(non-default branch)" ∷ []))

unfoldable pub ensure_whole_tree_writer : List Text → Result (Unit {0})
ensure_whole_tree_writer write_globs =
    raise_if (not (is_empty write_globs)) ExcType.write_glob_denied
      (Fault.paths_denied (codes "(entire clone)" ∷ []))
