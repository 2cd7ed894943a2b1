-- ===== src/Git/Read.antt =====
-- git_status(), git_diff(), git_log() and git_show() of src/githost_mcp/tools/git_local.py.
use githost_mcp.Base.{
  ◌++◌, strip, none, true, take, some, or_default, [], ◌∷◌, not, leb, codes, Option, Bool,
  if◌then◌else◌, Text, List,
}
use githost_mcp.Config.System.{ℤ}
use githost_mcp.Audit.Values.{Value, Values, Fields}
use githost_mcp.Audit.Rejection.{Reason}
use githost_mcp.Tools.Host.{Call, Host, Commit, Diff}
use githost_mcp.Tools.Run.{
  Run, pure, ◌>>=◌, ◌>>◌, attempt, ask, when, Ctx, finish, fail, read_path, open_repo, text_value,
  bool_value, texts_value, maybe_value,
}

abbrev pub local_ctx : Text → Text → Fields → Ctx
local_ctx tool repo params = record {
  tool = tool;
  provider = codes "local";
  repo = repo;
  params = params;
}

-- `repo.active_branch.name if not repo.head.is_detached else "HEAD (detached)"`
unfoldable pub current_branch : Host → Text → Run Text
current_branch host path = do
  detached ← ask host.flag (Call.head_is_detached path)
  when (not detached) (ask host.text (Call.active_branch path)) (codes "HEAD (detached)")

-- `[item.a_path for item in repo.index.diff("HEAD")] if repo.head.is_valid() else default`
unfoldable pub staged_or : Host → Text → List Text → Run (List Text)
staged_or host path default = do
  valid ← ask host.flag (Call.head_is_valid path)
  when valid (ask host.texts (Call.index_diff_head path)) default

unfoldable pub git_status : Host → Text → Run Fields
git_status host repo_path =
    let ctx =
      local_ctx (codes "git_status") repo_path
        (Fields.field (codes "repo_path") (Value.str repo_path) Fields.end) in
    attempt
      (do
        path ← read_path host repo_path
        open_repo host path
        staged ← staged_or host path []
        unstaged ← ask host.texts (Call.index_diff path)
        untracked ← ask host.texts (Call.untracked path)
        branch ← current_branch host path
        dirty ← ask host.flag (Call.is_dirty path)
        finish host ctx (codes "ok") Reason.no_reason
        pure (
            Fields.field (codes "repo") (text_value path) (
              Fields.field (codes "branch") (text_value branch) (
                Fields.field (codes "staged") (texts_value staged) (
                  Fields.field (codes "unstaged") (texts_value unstaged) (
                    Fields.field (codes "untracked") (texts_value untracked)
                      (Fields.field (codes "is_dirty") (bool_value dirty) Fields.end)))))))
      (fail host ctx)

abbrev pub patches_of : List Diff → Values
patches_of [] = Values.nil
patches_of (d ∷ ds) =
    Values.item
      (Value.dict (
        Fields.field (codes "file") (text_value d.file) (
          Fields.field (codes "change_type") (text_value d.change_type)
            (Fields.field (codes "diff") (text_value (or_default d.diff [])) Fields.end))))
      (patches_of ds)

unfoldable pub git_diff : Host → Text → Bool → Option Text → Run Fields
git_diff host repo_path staged file_path =
    let ctx = local_ctx (codes "git_diff") repo_path (
      Fields.field (codes "repo_path") (text_value repo_path) (
        Fields.field (codes "staged") (bool_value staged)
          (Fields.field (codes "file_path") (maybe_value file_path) Fields.end))) in
    attempt
      (do
        path ← read_path host repo_path
        open_repo host path
        valid ← when staged (ask host.flag (Call.head_is_valid path)) true
        diffs ←
            when valid
              (ask host.diffs (
                if staged then Call.diffs_head path file_path else Call.diffs_index path file_path))
              []
        finish host ctx (codes "ok") Reason.no_reason
        pure (
            Fields.field (codes "repo") (text_value path) (
              Fields.field (codes "staged") (bool_value staged)
                (Fields.field (codes "patches") (Value.list (patches_of diffs)) Fields.end))))
      (fail host ctx)

-- `min(limit, 200)`
abbrev pub min_limit : ℤ → ℤ
min_limit (ℤ.pos n) = if leb n 200 then ℤ.pos n else ℤ.pos 200
min_limit (ℤ.negsuc n) = ℤ.negsuc n

-- `f"{c.author.name} <{c.author.email}>"`
unfoldable pub author_of : Commit → Text
author_of c = c.author_name ++ (codes " <" ++ (c.author_email ++ codes ">"))

abbrev pub log_entries : List Commit → Values
log_entries [] = Values.nil
log_entries (c ∷ cs) =
    Values.item
      (Value.dict (
        Fields.field (codes "sha") (text_value (take 12 c.sha)) (
          Fields.field (codes "author") (text_value (author_of c)) (
            Fields.field (codes "date") (text_value c.date)
              (Fields.field (codes "message") (text_value (strip c.message)) Fields.end)))))
      (log_entries cs)

-- The ref that is asked for, else the active branch.
abbrev pub ref_or_active : Host → Text → Option Text → Run Text
ref_or_active host path none = ask host.text (Call.active_branch path)
ref_or_active host path (some []) = ask host.text (Call.active_branch path)
ref_or_active host path (some (c ∷ ref)) = pure (c ∷ ref)

-- `limit` is recorded as `shown`, the text of the number.
unfoldable pub git_log : Host → Text → ℤ → Text → Option Text → Run Fields
git_log host repo_path limit shown branch =
    let ctx = local_ctx (codes "git_log") repo_path (
      Fields.field (codes "repo_path") (text_value repo_path)
        (Fields.field (codes "limit") (Value.scalar shown) Fields.end)) in
    attempt
      (do
        path ← read_path host repo_path
        open_repo host path
        ref ← ref_or_active host path branch
        commits ← ask host.commits (Call.iter_commits path ref (min_limit limit))
        finish host ctx (codes "ok") Reason.no_reason
        pure (
            Fields.field (codes "repo") (text_value path) (
              Fields.field (codes "branch") (text_value ref)
                (Fields.field (codes "commits") (Value.list (log_entries commits)) Fields.end))))
      (fail host ctx)

abbrev pub scalars : List (Text × Text) → Fields
scalars [] = Fields.end
scalars ((k, v) ∷ rest) = Fields.field k (Value.scalar v) (scalars rest)

-- The commit's statistics, a call of git, are read after the record of success.
unfoldable pub git_show : Host → Text → Text → Run Fields
git_show host repo_path ref =
    let ctx = local_ctx (codes "git_show") repo_path (
      Fields.field (codes "repo_path") (text_value repo_path)
        (Fields.field (codes "ref") (text_value ref) Fields.end)) in
    attempt
      (do
        path ← read_path host repo_path
        open_repo host path
        c ← ask host.commit (Call.commit_at path ref)
        finish host ctx (codes "ok") Reason.no_reason
        stats ← ask host.pairs (Call.commit_stats path ref)
        pure (
            Fields.field (codes "sha") (text_value c.sha) (
              Fields.field (codes "author") (text_value (author_of c)) (
                Fields.field (codes "date") (text_value c.date) (
                  Fields.field (codes "message") (text_value (strip c.message))
                    (Fields.field (codes "stats") (Value.dict (scalars stats)) Fields.end))))))
      (fail host ctx)
