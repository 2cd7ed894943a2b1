-- ===== src/Tests/Query.antt =====
-- Tests of the audit query.
use githost_mcp.Base.{
  Bool, true, false, is_empty, strip, Text, codes, List, [], ◌∷◌, none, some, Option, ◌≡◌, refl,
  take, ℕ, text_eq, if◌then◌else◌, arith, ◌++◌,
}
use githost_mcp.Errors.{ok}
use githost_mcp.Config.System.{Config, default_config, ℤ}
use githost_mcp.Audit.Values.{Value}
use githost_mcp.Audit.Integrity.{Entry, Integrity}
use githost_mcp.Query.Reader.{reverse_lines}
use githost_mcp.Query.Reader.Laws.{newest_first, reverse_lines-eq-newest_first}
use githost_mcp.Query.Search.{Log, Filter, Found, Answer, annotate, audit_log_query, sources}
use githost_mcp.Query.Search.Laws.{all_matches}
use githost_mcp.Query.Search.Answers.{NeverRaises, audit_log_query-take}

abbrev two_lines : Text
two_lines = codes "ab" ++ (10 ∷ codes "cd") ++ (10 ∷ [])

reverse_two : reverse_lines 3 two_lines ≡ [] ∷ codes "cd" ∷ codes "ab" ∷ []
unfolding reverse_lines githost_mcp.Query.Reader.read_back codes githost_mcp.Base.split_on
    githost_mcp.Query.Reader.read_size
reverse_two = refl

reverse_lines-eq-newest_first_example : reverse_lines 3 two_lines ≡ newest_first two_lines
reverse_lines-eq-newest_first_example = reverse_lines-eq-newest_first 3 two_lines (omega arith)

abbrev push_entry : Entry
push_entry = (codes "tool", Value.str (codes "git_push")) ∷ []

-- The line `ab` is an entry, `cd` is no JSON, any other line is JSON but no object; there are no
-- backups.
abbrev parsed : Text → Option (Option Entry)
parsed t =
    if text_eq t (codes "ab")
    then some (some push_entry)
    else if text_eq t (codes "cd")
    then none
    else some none

abbrev log : Log
log = record {
  exists = λ p. text_eq p (codes "log");
  contents = λ p. ok two_lines;
  decode = λ t. t;
  parse_json = parsed;
  instant = λ t. none;
  digest = λ k e. [];
}

abbrev settings : Config
settings = record default_config { audit_log_file = codes "log"; audit_log_backup_count = ℤ.pos 1 }

abbrev any_entry : Filter
any_entry = record { agent_id = none; tool = some (codes "git_push"); repo = none; since = none }

never_raises : NeverRaises log settings any_entry none (sources log settings any_entry)
unfolding githost_mcp.Query.Search.judge_line strip githost_mcp.Query.Search.passes
    githost_mcp.Query.Search.field_is codes githost_mcp.Audit.Integrity.get_field text_eq
    githost_mcp.Query.Search.repo_is githost_mcp.Query.Search.is_since
    githost_mcp.Audit.Integrity.verify_entry_integrity newest_first sources
    githost_mcp.Base.split_on githost_mcp.Query.Search.audit_backup_paths default_config
    githost_mcp.Query.Search.backups_from
never_raises = (
  ((none, refl), ((none, refl), ((some (annotate push_entry Integrity.unsigned), refl), tt))),
  (tt, tt),
)

audit_log_query-take_example :
    (searched : List Text) × (counts : List (Text × ℕ)) × (key : Bool) × (audit_log_query log
        settings any_entry
        (ℤ.pos 1)
      ≡ ok (
          Answer.answer
            (take 1 (all_matches log settings any_entry none (sources log settings any_entry)))
            searched
            counts
            key))
unfolding text_eq codes githost_mcp.Query.Search.since_of
audit_log_query-take_example =
    audit_log_query-take log settings any_entry 1 none two_lines refl refl refl never_raises
