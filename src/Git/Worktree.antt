-- ===== src/Git/Worktree.antt =====
-- git_worktree() of src/githost_mcp/tools/git_local.py, with main_repo_name(),
-- worktree_destination() and parse_worktree_porcelain().
use githost_mcp.Base.{
  is_empty, ◌++◌, not, reverse, before_char, after_char, starts_with, drop, length, keep_if,
  split_on, text_eq, text_mem, strip, splitlines, map, text_eq, codes, Text, Option, List, Bool, [],
  ◌∷◌, some, none, true, false, if◌then◌else◌, ◌&&◌, ◌||◌,
}
use githost_mcp.Audit.Values.{Value, Values, Fields}
use githost_mcp.Audit.Rejection.{Reason}
use githost_mcp.Errors.{ExcType, Fault, Result}
use githost_mcp.Tools.Host.{Call, Host}
use githost_mcp.Tools.Run.{
  map_result, Run, pure, raise, lift, raise_when, ◌>>=◌, ◌>>◌, attempt, ask, Ctx, finish, fail,
  read_path, write_path, open_repo, text_value, bool_value, maybe_value, reject_choice,
}
use githost_mcp.Git.Read.{local_ctx}
use githost_mcp.Bootstrap.Clone.{path_join}
use githost_mcp.Security.Paths.{canonical_path, within}
use githost_mcp.Security.Names.{validate_branch_name}
use githost_mcp.Git.Refs.{validate_worktree_name, validate_ref_arg}
use githost_mcp.Git.Lease.{remote_default_branch}

-- WORKTREE_METHODS, in the order of its message.
abbrev pub worktree_methods : List Text
worktree_methods = codes "add" ∷ codes "list" ∷ codes "remove" ∷ []

-- One worktree: a mark is `bare`, `detached`, `locked` or `prunable`, with its text or none.
pub record Entry : Type 0 where
  pub path : Text
  pub head : Option Text
  pub branch : Option Text
  pub marks : List (Text × Text)

abbrev pub fresh_entry : Text → Entry
fresh_entry path = record { path = path; head = none; branch = none; marks = [] }

-- `text.removeprefix(prefix)`
unfoldable pub remove_prefix : Text → Text → Text
remove_prefix prefix text = if starts_with text prefix then drop (length prefix) text else text

abbrev pub is_mark : Text → Bool
is_mark key =
    text_mem key (codes "bare" ∷ codes "detached" ∷ codes "locked" ∷ codes "prunable" ∷ [])

-- `current[key] = value`
unfoldable pub set_mark : Text → Text → List (Text × Text) → List (Text × Text)
set_mark key value [] = (key, value) ∷ []
set_mark key value ((k, v) ∷ marks) =
    if text_eq k key then (k, value) ∷ marks else (k, v) ∷ set_mark key value marks

unfoldable pub set_attribute : Text → Text → Entry → Entry
set_attribute key value e =
    if text_eq key (codes "HEAD")
    then record { path = e.path; head = some value; branch = e.branch; marks = e.marks }
    else if text_eq key (codes "branch")
    then record {
      path = e.path;
      head = e.head;
      branch = some (remove_prefix (codes "refs/heads/") value);
      marks = e.marks;
    }
    else if is_mark key
    then record {
      path = e.path;
      head = e.head;
      branch = e.branch;
      marks = set_mark key value e.marks;
    }
    else e

-- The loop over the lines: `current` is the entry being filled, which is the last of the entries.
abbrev pub closed : Option Entry → List Entry → List Entry
closed none entries = entries
closed (some e) entries = e ∷ entries

abbrev pub fill : Text → Text → Option Entry → Option Entry
fill key value none = none
fill key value (some e) = some (set_attribute key value e)

unfoldable pub parse_lines : Option Entry → List Text → List Entry
parse_lines current [] = closed current []
parse_lines current (line ∷ lines) =
    let key = before_char b' ' line in
    let value = after_char b' ' line in
    let rest = λ (e : Option Entry). parse_lines e lines in
    if is_empty (strip line)
    then closed current (rest none)
    else if text_eq key (codes "worktree")
    then closed current (rest (some (fresh_entry value)))
    else rest (fill key value current)

unfoldable pub parse_worktree_porcelain : Text → List Entry
parse_worktree_porcelain text = parse_lines none (splitlines text)

-- The parts of a path as it is written, the root first.
unfoldable pub path_root : Text → List Text
path_root p =
    if starts_with p (codes "//") && not (starts_with p (codes "///"))
    then codes "//" ∷ []
    else if starts_with p (codes "/")
    then codes "/" ∷ []
    else []

unfoldable pub path_parts : Text → List Text
path_parts p =
    path_root p ++ keep_if (λ s. not (is_empty s || text_eq s (codes "."))) (split_on b'/' p)

-- `Path(common).parent.name`
abbrev pub second_to_last : List Text → Text
second_to_last (last ∷ name ∷ parts) = name
second_to_last _ = []

unfoldable pub parent_name : Text → Text
parent_name common =
    second_to_last
      (reverse (keep_if (λ s. not (is_empty s || text_eq s (codes "."))) (split_on b'/' common)))

unfoldable pub main_repo_name : Host → Text → Run Text
main_repo_name host path = do
  common ← ask host.text (
      Call.git path (codes "rev_parse")
        (codes "--path-format=absolute" ∷ codes "--git-common-dir" ∷ []))
  pure (parent_name common)

unfoldable pub worktree_destination : Host → Text → Text → Text → Result Text
worktree_destination host root repo_name name =
    map_result host.path_text
      (canonical_path host.resolve (path_join root (repo_name ++ (b'-' ∷ name))))

-- `value or True`
abbrev pub mark_value : Text → Value
mark_value [] = bool_value true
mark_value (c ∷ t) = text_value (c ∷ t)

unfoldable pub mark_fields : List (Text × Text) → Fields → Fields
mark_fields [] more = more
mark_fields ((k, v) ∷ marks) more = Fields.field k (mark_value v) (mark_fields marks more)

unfoldable pub entry_value : Text → Entry → Value
entry_value root e = Value.dict (
    Fields.field (codes "path") (text_value e.path) (
      Fields.field (codes "head") (maybe_value e.head) (
        Fields.field (codes "branch") (maybe_value e.branch) (
          mark_fields e.marks (
            Fields.field (codes "under_worktree_root")
              (bool_value (within (path_parts root) (path_parts e.path))) Fields.end)))))

unfoldable pub entry_values : Text → List Entry → Values
entry_values root [] = Values.nil
entry_values root (e ∷ es) = Values.item (entry_value root e) (entry_values root es)

module _ (host : Host) (ctx : Ctx) where
  unfoldable pub list_worktrees : Text → Text → Run Fields
  list_worktrees root repo_path = do
    path ← read_path host repo_path
    open_repo host path
    listing ←
        ask host.text (Call.git path (codes "worktree") (codes "list" ∷ codes "--porcelain" ∷ []))
    finish host ctx (codes "ok") Reason.no_reason
    pure (
        Fields.field (codes "repo") (text_value path) (
          Fields.field (codes "worktree_root") (text_value root) (
            Fields.field (codes "worktrees")
              (Value.list (entry_values root (parse_worktree_porcelain listing))) Fields.end)))

  abbrev pub required_branch : Option Text → Run Text
  required_branch none = raise ExcType.missing_argument Fault.branch_required
  required_branch (some []) = raise ExcType.missing_argument Fault.branch_required
  required_branch (some (c ∷ t)) = pure (c ∷ t)

  abbrev pub known_base : Option Text → Run Text
  known_base none = raise ExcType.missing_argument Fault.base_required
  known_base (some d) = pure d

  -- The ref that is branched from: the remote's default branch, fetched, where none is named.
  unfoldable pub base_ref : Text → Option Text → Run Text
  base_ref path (some base) = lift (validate_ref_arg base)
  base_ref path none = do
    asked ← remote_default_branch host path (codes "origin")
    default ← known_base asked
    lift (validate_branch_name default)
    ask host.done (Call.git path (codes "fetch") (codes "origin" ∷ default ∷ []))
    pure (codes "origin/" ++ default)

  unfoldable pub add_worktree : Text → Text → Text → Option Text → Option Text → Run Fields
  add_worktree root path dest branch base = do
    name ← required_branch branch
    lift (validate_branch_name name)
    taken ← ask host.flag (Call.lexists dest)
    raise_when taken ExcType.invalid_argument (Fault.occupied dest)
    ref ← base_ref path base
    ask host.done (Call.makedirs root)
    ask host.done
        (Call.git path (codes "worktree") (codes "add" ∷ codes "-b" ∷ name ∷ dest ∷ ref ∷ []))
    open_repo host dest
    head ← ask host.commit (Call.commit_at dest (codes "HEAD"))
    finish host ctx (codes "ok") Reason.no_reason
    pure (
        Fields.field (codes "path") (text_value dest) (
          Fields.field (codes "branch") (text_value name) (
            Fields.field (codes "base") (text_value ref) (
              Fields.field (codes "head_sha") (text_value head.sha) (
                Fields.field (codes "note")
                  (text_value
                    (codes "Use `path` as repo_path for every git_* call in this worktree."))
                  Fields.end)))))

  unfoldable pub remove_worktree : Text → Text → Run Fields
  remove_worktree path dest = do
    listing ←
        ask host.text (Call.git path (codes "worktree") (codes "list" ∷ codes "--porcelain" ∷ []))
    raise_when (not (text_mem dest (map (λ e. e.path) (parse_worktree_porcelain listing))))
        ExcType.invalid_argument Fault.not_registered
    ask host.done (Call.git path (codes "worktree") (codes "remove" ∷ dest ∷ []))
    ask host.done (Call.git path (codes "worktree") (codes "prune" ∷ []))
    finish host ctx (codes "ok") Reason.no_reason
    pure (
        Fields.field (codes "removed") (text_value dest) (
          Fields.field (codes "note") (text_value (codes "The worktree's branch was kept."))
            Fields.end))

  abbrev pub change_worktree : Bool → Text → Text → Text → Option Text → Option Text → Run Fields
  change_worktree true root path dest branch base = add_worktree root path dest branch base
  change_worktree false root path dest branch base = remove_worktree path dest

  unfoldable pub write_worktree :
      Text → Text → Text → Option Text → Option Text → Option Text → Run Fields
  write_worktree root repo_path method name branch base = do
    path ← write_path host repo_path
    valid_name ← lift (validate_worktree_name name)
    open_repo host path
    repo_name ← main_repo_name host path
    computed ← lift (worktree_destination host root repo_name valid_name)
    dest ← write_path host computed
    change_worktree (text_eq method (codes "add")) root path dest branch base

  abbrev pub worktree_method :
      Bool → Text → Text → Text → Option Text → Option Text → Option Text → Run Fields
  worktree_method true root repo_path method name branch base = list_worktrees root repo_path
  worktree_method false root repo_path method name branch base =
      write_worktree root repo_path method name branch base

module _ (host : Host) (repo_path method : Text) (name branch base : Option Text) where
  unfoldable pub worktree_of : Run Fields
  worktree_of =
      let ctx = local_ctx (codes "git_worktree") repo_path (
        Fields.field (codes "repo_path") (text_value repo_path) (
          Fields.field (codes "method") (text_value method) (
            Fields.field (codes "name") (maybe_value name) (
              Fields.field (codes "branch") (maybe_value branch)
                (Fields.field (codes "base") (maybe_value base) Fields.end))))) in
      attempt
        (do
          root ←
              lift
                (map_result host.path_text (canonical_path host.resolve host.config.worktree_root))
          worktree_method host ctx (text_eq method (codes "list")) root repo_path method name branch
              base)
        (fail host ctx)

  abbrev pub refuse_method : Bool → Run Fields
  refuse_method true =
      reject_choice host (codes "git_worktree") (codes "local") repo_path (codes "method") method
        worktree_methods
  refuse_method false = worktree_of

  unfoldable pub git_worktree : Run Fields
  git_worktree = refuse_method (not (text_mem method worktree_methods))
