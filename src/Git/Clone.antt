-- ===== src/Git/Clone.antt =====
-- git_clone() of src/githost_mcp/tools/git_local.py.
pub mod Cleanup
use githost_mcp.Base.{
  suc, decimal, ◌++◌, not, is_empty, map, text_eq, text_mem, rstrip_char, insert_text, all, reverse,
  drop_while, ◌==◌, codes, Text, Option, List, Bool, [], ◌∷◌, some, none, true, false,
  if◌then◌else◌,
}
use githost_mcp.Audit.Values.{Value, Fields}
use githost_mcp.Audit.Rejection.{Reason}
use githost_mcp.Errors.{ExcType, Fault, Result, ok, err}
use githost_mcp.Tools.Host.{Call, Host}
use githost_mcp.Tools.Run.{
  map_result, Run, pure, raise, lift, raise_when, refuse, attempt_then, ◌>>=◌, ◌>>◌, attempt, ask,
  when, Ctx, finish, fail, write_path, open_repo, text_value, bool_value, null_value, maybe_value,
  reject, reject_choice,
}
use githost_mcp.Config.System.{Config}
use githost_mcp.Bootstrap.Segments.{Depth, validate_depth, validate_segment, first_bad_segment}
use githost_mcp.Bootstrap.Owned.{
  ensure_owned, ensure_gitea_org, ensure_no_branch_for_denied_paths, ensure_whole_tree_writer,
}
use githost_mcp.Bootstrap.Clone.{
  clone_url, path_join, raw_clone_destination, clone_destination, occupied_message, clone_args,
}
use githost_mcp.Bootstrap.Tree.{tree_check_paths, symlinks_above_denied}
use githost_mcp.Security.Globs.{validate_write_globs}
use githost_mcp.Security.Names.{validate_branch_name}
use githost_mcp.Security.Urls.{validate_remote_url}
use githost_mcp.Git.Mode.{gitea_host}

-- CLONE_PROVIDERS of bootstrap.py, in the order of its message.
abbrev pub clone_providers : List Text
clone_providers = codes "gitea" ∷ codes "github" ∷ []

-- os.path.dirname(): what is left of the last slash, without slashes at its end unless it is all slashes.
unfoldable pub dirname : Text → Text
dirname p =
    let head = reverse (drop_while (λ c. not (c == b'/')) (reverse p)) in
    if all (λ c. c == b'/') head then head else rstrip_char b'/' head

-- `{check[p] for p in denied_paths}`, sorted.
unfoldable pub original_of : List (Text × Text) → Text → Text
original_of [] p = p
original_of ((k, v) ∷ checks) p = if text_eq k p then v else original_of checks p

unfoldable pub sorted_set : List Text → List Text
sorted_set [] = []
sorted_set (t ∷ ts) =
    let rest = sorted_set ts in if text_mem t rest then rest else insert_text t rest

-- The check of every tested path of the tree; a refusal names the tracked paths.
abbrev pub name_originals : List (Text × Text) → Result (Unit {0}) → Result (Unit {0})
name_originals checks (ok u) = ok u
name_originals checks (err ExcType.write_glob_denied (Fault.paths_denied ps)) =
    err ExcType.write_glob_denied (Fault.paths_denied (sorted_set (map (original_of checks) ps)))
name_originals checks (err t f) = err t f

unfoldable pub check_tree : Config → Text → Result (Unit {0})
check_tree config listing =
    let checks = tree_check_paths listing in
    name_originals checks (validate_write_globs config (map (λ c. c.0) checks))

abbrev pub answered : Result Bool → Bool
answered (ok b) = b
answered (err t f) = false

-- symlinks_above_denied() at the state of the file system that the calls so far left.
unfoldable pub links_above : Host → Text → Text → Run (List Text)
links_above host dest listing h = (
  ok (
      symlinks_above_denied (λ p. answered (host.flag h (Call.isfile (path_join dest p)))) listing
        host.config.write_globs_deny),
  h,
)

-- shutil.rmtree(…, ignore_errors=True)
unfoldable pub rmtree : Text → Run (Unit {0})
rmtree dest h = (ok tt, Call.rmtree dest ∷ h)

-- What git_clone reports of a clone: the branch and the head, `none` in an empty or detached one.
pub record Checkout : Type 0 where
  pub branch : Option Text
  pub head_sha : Option Text
  pub empty : Bool

module _ (host : Host) (dest : Text) where
  unfoldable pub read_branch : Run (Option Text)
  read_branch = do name ← ask host.text (Call.active_branch dest); pure (some name)

  unfoldable pub read_head : Run (Option Text)
  read_head = do
    commit ← ask host.commit (Call.commit_at dest (codes "HEAD"))
    pure (some commit.sha)

  unfoldable pub read_checkout : Run Checkout
  read_checkout = do
    valid ← ask host.flag (Call.head_is_valid dest)
    detached ← when valid (ask host.flag (Call.head_is_detached dest)) true
    branch ← when (not detached) read_branch none
    head_sha ← when valid read_head none
    pure (record { branch = branch; head_sha = head_sha; empty = not valid })

  unfoldable pub fill_checkout : Text → List Text → Run Checkout
  fill_checkout url args = do
    ask host.done (Call.run_clone url dest args)
    open_repo host dest
    listing ← ask host.text (Call.git dest (codes "ls_files") (codes "-s" ∷ codes "-z" ∷ []))
    lift (check_tree host.config listing)
    above ← links_above host dest listing
    raise_when (not (is_empty above)) ExcType.write_glob_denied (Fault.paths_denied above)
    read_checkout

  -- `except BaseException: shutil.rmtree(dest, …); raise`
  unfoldable pub discard : ExcType → Fault → Run Checkout
  discard t f = rmtree dest >> raise t f

  -- `except FileExistsError: raise AlreadyExists`; the answer to mkdir is false where the name exists.
  unfoldable pub make_directory : Run (Unit {0})
  make_directory = do
    made ← ask host.flag (Call.mkdir dest)
    raise_when (not made) ExcType.already_exists (Fault.occupied dest)

  unfoldable pub make_checkout : Text → List Text → Run Checkout
  make_checkout url args = do
    ask host.done (Call.makedirs (dirname dest))
    make_directory
    attempt (fill_checkout url args) discard

abbrev pub depth_value : Option Depth → Value
depth_value none = null_value
depth_value (some (Depth.bool b)) = bool_value b
depth_value (some (Depth.int n)) = Value.scalar (decimal n)
depth_value (some (Depth.negative n)) = Value.scalar (b'-' ∷ decimal (suc n))
depth_value (some (Depth.other t)) = Value.scalar t

module _ (host : Host) (ctx : Ctx) (provider owner repo gitea : Text) where
  unfoldable pub require_org : Bool → Run (Unit {0})
  require_org true = do
    is_org ← ask host.flag (Call.gitea_org_exists owner)
    lift (ensure_gitea_org is_org)
  require_org false = pure tt

  unfoldable pub raise_occupied : Text → Text → Bool → Run (Unit {0})
  raise_occupied dest raw false = pure tt
  raise_occupied dest raw true = do
    origin ← ask host.maybe (Call.checkout_origin raw)
    message ← lift (occupied_message host.lower host.urlsplit dest origin provider owner repo gitea)
    raise ExcType.already_exists (Fault.occupied message)

  unfoldable pub require_free : Text → Run (Unit {0})
  require_free dest =
      let raw = raw_clone_destination host.expand_user provider owner repo in
      do
        at_raw ← ask host.flag (Call.lexists raw)
        taken ← when (not at_raw) (ask host.flag (Call.lexists dest)) true
        raise_occupied dest raw taken

  unfoldable pub report_clone : Text → Text → Option Depth → Checkout → Run Fields
  report_clone dest url depth checkout = do
    finish host ctx (codes "ok") Reason.no_reason
    pure (
        Fields.field (codes "path") (text_value dest) (
          Fields.field (codes "provider") (text_value provider) (
            Fields.field (codes "repo") (text_value (owner ++ (b'/' ∷ repo))) (
              Fields.field (codes "url") (text_value url) (
                Fields.field (codes "branch") (maybe_value checkout.branch) (
                  Fields.field (codes "head_sha") (maybe_value checkout.head_sha) (
                    Fields.field (codes "empty") (bool_value checkout.empty) (
                      Fields.field (codes "depth") (depth_value depth) (
                        Fields.field (codes "note")
                          (text_value
                            (codes "Use `path` as repo_path for every git_* call on this repo."))
                          Fields.end)))))))))

  abbrev pub validate_branch : Option Text → Result (Unit {0})
  validate_branch none = ok tt
  validate_branch (some b) = map_result (λ _. tt) (validate_branch_name b)

  unfoldable pub clone_failed : ExcType → Fault → Run Fields
  clone_failed ExcType.write_glob_denied f =
      refuse host ctx (codes "denied:write_glob") ExcType.write_glob_denied f
  clone_failed ExcType.not_owned f = refuse host ctx (codes "denied:not_owned") ExcType.not_owned f
  clone_failed t f = fail host ctx t f

  unfoldable pub clone_owned : Option Depth → Option Text → Run Fields
  clone_owned depth branch =
      attempt
        (do
          cloned_depth ← lift (validate_depth depth)
          lift (validate_branch branch)
          computed ← lift (clone_destination host.resolve host.expand_user provider owner repo)
          dest ← write_path host (host.path_text computed)
          lift (ensure_whole_tree_writer host.config.write_globs)
          lift (ensure_no_branch_for_denied_paths branch host.config.write_globs_deny)
          require_org (text_eq provider (codes "gitea"))
          require_free dest
          lift (map_result (λ _. tt) (validate_remote_url (clone_url provider owner repo gitea)))
          checkout ←
              make_checkout host dest (clone_url provider owner repo gitea)
                (clone_args cloned_depth branch)
          report_clone dest (clone_url provider owner repo gitea) depth checkout)
        clone_failed

  -- `except NotOwned as e` of the first test of the owner.
  unfoldable pub unowned_clone : ExcType → Fault → Run Fields
  unowned_clone ExcType.not_owned f =
      reject host (codes "git_clone") provider (owner ++ (b'/' ∷ repo)) (codes "not_owned")
        (host.message ExcType.not_owned f) (codes "owner") (some owner)
  unowned_clone t f = raise t f

abbrev pub segment_message : Host → Result Text → Text
segment_message host (ok v) = []
segment_message host (err t f) = host.message t f

module _ (host : Host) (provider owner repo : Text) (depth : Option Depth)
    (branch : Option Text) where
  unfoldable pub clone_valid : Run Fields
  clone_valid =
      let full_name = owner ++ (b'/' ∷ repo) in
      let ctx : Ctx = record {
        tool = codes "git_clone";
        provider = provider;
        repo = full_name;
        params = Fields.field (codes "provider") (text_value provider) (
            Fields.field (codes "repo") (text_value full_name) (
              Fields.field (codes "depth") (depth_value depth)
                (Fields.field (codes "branch") (maybe_value branch) Fields.end)));
      } in
      lift (gitea_host host.urlsplit host.config.gitea_url) >>= λ gitea.
      attempt_then
        (lift (ensure_owned host.lower provider owner host.config.forge_owned_owners gitea))
        (λ _. clone_owned host ctx provider owner repo gitea depth branch)
        (unowned_clone host ctx provider owner repo gitea)

  abbrev pub refuse_segment : Option (Text × Text × Option Text) → Run Fields
  refuse_segment none = clone_valid
  refuse_segment (some (reason_class, argument, value)) =
      reject host (codes "git_clone") provider (owner ++ (b'/' ∷ repo)) reason_class
        (segment_message host (validate_segment value)) argument value

  abbrev pub refuse_provider : Bool → Run Fields
  refuse_provider true =
      reject_choice host (codes "git_clone") (codes "local") (owner ++ (b'/' ∷ repo))
        (codes "provider") provider clone_providers
  refuse_provider false =
      refuse_segment
        (first_bad_segment ((codes "owner", some owner) ∷ (codes "repo", some repo) ∷ []))

  unfoldable pub git_clone : Run Fields
  git_clone = refuse_provider (not (text_mem provider clone_providers))
