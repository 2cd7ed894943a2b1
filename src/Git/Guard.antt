-- ===== src/Git/Guard.antt =====
-- The tools of src/githost_mcp/tools/git_local.py that write to one repository, where its path is refused.
use githost_mcp.Base.{Text, List, Option, Bool, ◌≡◌, refl, ap, ◌∙◌}
use githost_mcp.Errors.{ExcType, Fault, Result, err}
use githost_mcp.Audit.Values.{Fields}
use githost_mcp.Security.Paths.{validate_write_path}
use githost_mcp.Tools.Host.{Host}
use githost_mcp.Tools.Run.{Run, Ctx, attempt, lift, map_result, ◌>>=◌, refuse, fail, write_path}
use githost_mcp.Git.Branch.{git_branch_delete_remote, git_checkout}
use githost_mcp.Git.Commit.{git_add, add_failed, git_commit, commit_failed}
use githost_mcp.Git.Push.{git_push, git_pull, git_tag}
use githost_mcp.Git.Lease.{git_push_force_with_lease, lease_failed}

-- A call of such a tool, with its arguments behind the path.
pub data WriteCall : Type 0 where
  push : Text → Option Text → WriteCall
  pull : Text → WriteCall
  tag : Text → Option Text → Bool → Text → WriteCall
  add : List Text → WriteCall
  checkout : Text → WriteCall
  commit delete_remote_branch : Text → Text → WriteCall
  force_push : Text → Text → Text → WriteCall

abbrev pub run : Host → Text → WriteCall → Run Fields
run host path (WriteCall.push remote branch) = git_push host path remote branch
run host path (WriteCall.pull remote) = git_pull host path remote
run host path (WriteCall.tag name message pushed remote) =
    git_tag host path name message pushed remote
run host path (WriteCall.add paths) = git_add host path paths
run host path (WriteCall.commit message identity) = git_commit host path message identity
run host path (WriteCall.checkout ref) = git_checkout host path ref
run host path (WriteCall.delete_remote_branch branch remote) =
    git_branch_delete_remote host path branch remote
run host path (WriteCall.force_push branch sha remote) =
    git_push_force_with_lease host path branch sha remote

attempt-refused :
    {A B : Type 0} (g : List Text → A) (r : Result (List Text)) (next : A → Run B)
    (handler : ExcType → Fault → Run B) (t : ExcType) (f : Fault)
    → r ≡ err t f
    → attempt (lift (map_result g r) >>= next) handler ≡ handler t f
unfolding attempt lift ◌>>=◌
attempt-refused g r next handler t f e =
    ap (λ x. attempt (lift (map_result g x) >>= next) handler) e

module _ (host : Host) where
  -- The refusal alone: one audit record, and the error.
  abbrev pub Refuses : Run Fields → ExcType → Fault → Type 0
  Refuses m t f = (ctx : Ctx) × (result : Text) × (m ≡ refuse host ctx result t f)

  fail-Refuses : (ctx : Ctx) (t : ExcType) (f : Fault) → Refuses (fail host ctx t f) t f
  unfolding fail
  fail-Refuses ctx t f = (ctx, _, refl)

  add_failed-Refuses : (ctx : Ctx) (t : ExcType) (f : Fault) → Refuses (add_failed host ctx t f) t f
  unfolding add_failed
  add_failed-Refuses ctx ExcType.write_glob_denied f = (ctx, _, refl)
  add_failed-Refuses ctx t f = fail-Refuses ctx t f

  commit_failed-Refuses :
      (ctx : Ctx) (t : ExcType) (f : Fault) → Refuses (commit_failed host ctx t f) t f
  unfolding commit_failed
  commit_failed-Refuses ctx ExcType.write_glob_denied f = (ctx, _, refl)
  commit_failed-Refuses ctx ExcType.identity_undetermined f = (ctx, _, refl)
  commit_failed-Refuses ctx t f = fail-Refuses ctx t f

  lease_failed-Refuses :
      (ctx : Ctx) (t : ExcType) (f : Fault) → Refuses (lease_failed host ctx t f) t f
  unfolding lease_failed
  lease_failed-Refuses ctx ExcType.protected_branch f = (ctx, _, refl)
  lease_failed-Refuses ctx t f = fail-Refuses ctx t f

  -- A tool whose first step is the check of the path for writing.
  guarded :
      (next : Text → Run Fields) (handler : ExcType → Fault → Run Fields) (r : Result (List Text))
      (t : ExcType) (f : Fault)
      → r ≡ err t f
      → Refuses (handler t f) t f
      → Refuses (attempt (lift (map_result host.path_text r) >>= next) handler) t f
  guarded next handler r t f e (ctx, result, p) =
      (ctx, result, attempt-refused host.path_text r next handler t f e ∙ p)

  -- Where a path is refused for writing, each of the tools that push, pull, tag, add, commit, check
  -- out, delete a remote branch or push with a lease does what the refusal alone does: it writes
  -- one audit record and returns the error, and makes no other call.
  pub run-Refuses :
      (repo_path : Text) (call : WriteCall) (t : ExcType) (f : Fault)
      → validate_write_path host.resolve host.config repo_path ≡ err t f
      → Refuses (run host repo_path call) t f
  unfolding git_push git_pull git_tag git_add git_commit git_checkout git_branch_delete_remote
      git_push_force_with_lease write_path
  run-Refuses repo_path (WriteCall.push remote branch) t f e =
      guarded _ (fail host _) _ t f e (fail-Refuses _ t f)
  run-Refuses repo_path (WriteCall.pull remote) t f e =
      guarded _ (fail host _) _ t f e (fail-Refuses _ t f)
  run-Refuses repo_path (WriteCall.tag name message pushed remote) t f e =
      guarded _ (fail host _) _ t f e (fail-Refuses _ t f)
  run-Refuses repo_path (WriteCall.add paths) t f e =
      guarded _ (add_failed host _) _ t f e (add_failed-Refuses _ t f)
  run-Refuses repo_path (WriteCall.commit message identity) t f e =
      guarded _ (commit_failed host _) _ t f e (commit_failed-Refuses _ t f)
  run-Refuses repo_path (WriteCall.checkout ref) t f e =
      guarded _ (fail host _) _ t f e (fail-Refuses _ t f)
  run-Refuses repo_path (WriteCall.delete_remote_branch branch remote) t f e =
      guarded _ (fail host _) _ t f e (fail-Refuses _ t f)
  run-Refuses repo_path (WriteCall.force_push branch sha remote) t f e =
      guarded _ (lease_failed host _) _ t f e (lease_failed-Refuses _ t f)
