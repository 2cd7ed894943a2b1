-- ===== src/Query/Search.antt =====
-- _parse_iso_utc() and audit_log_query() of src/githost_mcp/tools/audit_query.py. The files, the JSON
-- parser, the UTF-8 decoder and datetime.fromisoformat() are fields of a record.
pub mod Laws
pub mod Answers
use githost_mcp.Base.{
  zero, reverse, before_char, Bool, true, false, not, ◌&&◌, ltb, leb, length, take, ℕ, suc, Text,
  Option, some, none, List, [], ◌∷◌, ◌++◌, map, codes, text_eq, strip, is_empty, contains, replace,
  decimal, any, if◌then◌else◌,
}
use githost_mcp.Config.System.{Config, ℤ}
use githost_mcp.Errors.{Result, ok, err, ◌>>=◌, ExcType, Fault}
use githost_mcp.Audit.Values.{Value, Values, Fields}
use githost_mcp.Audit.Integrity.{Entry, Integrity, get_field, verify_entry_integrity}
use githost_mcp.Query.Reader.{reverse_lines}

-- What the query reads, and the library functions that it calls.
pub record Log : Type 0 where
  pub exists : Text → Bool
  -- the bytes of a file, or an OSError
  pub contents : Text → Result Text
  pub decode : Text → Text
  -- `none` for a JSONDecodeError, and `some none` for JSON that is no object
  pub parse_json : Text → Option (Option Entry)
  -- the instant that an ISO text names, a text without an offset being in UTC; `none` for a ValueError
  pub instant : Text → Option ℕ
  pub digest : Text → Entry → Text

-- The arguments of the query.
pub record Filter : Type 0 where
  pub agent_id : Option Text
  pub tool : Option Text
  pub repo : Option Text
  pub since : Option Text

pub record Found : Type 0 where
  pub entry : Entry
  pub integrity : Integrity

-- `audit_backup_paths()`: the backups, the newest first.
unfoldable pub backups_from : Text → ℕ → ℕ → List Text
backups_from path i zero = []
backups_from path i (suc n) = (path ++ (b'.' ∷ decimal i)) ∷ backups_from path (suc i) n

unfoldable pub audit_backup_paths : Text → ℤ → List Text
audit_backup_paths path (ℤ.pos n) = backups_from path 1 n
audit_backup_paths path (ℤ.negsuc n) = []

-- `agent_id and entry.get("agent_id") != agent_id`, negated.
unfoldable pub field_is : Text → Option Text → Entry → Bool
field_is key none entry = true
field_is key (some []) entry = true
field_is key (some (c ∷ t)) entry = elim (get_field key entry) [
  | some (Value.str v) ↦ text_eq v (c ∷ t)
  | _ ↦ false
]

unfoldable pub holds_item : Text → Values → Bool
holds_item t Values.nil = false
holds_item t (Values.item (Value.str v) vs) =
    let rest = holds_item t vs in if text_eq v t then true else rest
holds_item t (Values.item _ vs) = holds_item t vs

unfoldable pub holds_key : Text → Fields → Bool
holds_key t Fields.end = false
holds_key t (Fields.field k v fs) = let rest = holds_key t fs in if text_eq k t then true else rest

-- `repo in value`, which raises TypeError for a value that holds nothing.
unfoldable pub is_in : Text → Option Value → Result Bool
is_in t none = ok (contains [] t)
is_in t (some (Value.str v)) = ok (contains v t)
is_in t (some (Value.dict fs)) = ok (holds_key t fs)
is_in t (some (Value.list vs)) = ok (holds_item t vs)
is_in t (some (Value.tuple vs)) = ok (holds_item t vs)
is_in t (some (Value.scalar s)) = err ExcType.exception (Fault.raised s)

unfoldable pub repo_is : Option Text → Entry → Result Bool
repo_is none entry = ok true
repo_is (some []) entry = ok true
repo_is (some (c ∷ t)) entry = is_in (c ∷ t) (get_field (codes "repo") entry)

-- `entry["integrity"] = …` and the like.
unfoldable pub set_field : Text → Value → Entry → Entry
set_field key value [] = (key, value) ∷ []
set_field key value ((k, v) ∷ entry) =
    let rest = set_field key value entry in
    if text_eq k key then (k, value) ∷ entry else (k, v) ∷ rest

unfoldable pub integrity_name : Integrity → Text
integrity_name Integrity.verified = codes "verified"
integrity_name Integrity.tampered = codes "tampered"
integrity_name Integrity.unsigned = codes "unsigned"
integrity_name Integrity.unverifiable = codes "unverifiable"

unfoldable pub tamper_value : Integrity → Value
tamper_value Integrity.verified = Value.scalar (codes "false")
tamper_value Integrity.tampered = Value.scalar (codes "true")
tamper_value i = Value.scalar (codes "null")

unfoldable pub annotate : Entry → Integrity → Found
annotate entry i = record {
  entry =
      set_field (codes "tamper_detected") (tamper_value i)
        (set_field (codes "integrity") (Value.str (integrity_name i)) entry);
  integrity = i;
}

-- `len(entries) >= limit`
unfoldable pub reached : ℤ → List Found → Bool
reached (ℤ.pos n) found = leb n (length found)
reached (ℤ.negsuc n) found = true

unfoldable pub bump : Integrity → List (Text × ℕ) → List (Text × ℕ)
bump i [] = (integrity_name i, 1) ∷ []
bump i ((name, n) ∷ counts) =
    let rest = bump i counts in
    if text_eq name (integrity_name i) then (name, suc n) ∷ counts else (name, n) ∷ rest

unfoldable pub count_from : List (Text × ℕ) → List Found → List (Text × ℕ)
count_from counts [] = counts
count_from counts (f ∷ found) = count_from (bump f.integrity counts) found

-- os.path.basename()
unfoldable pub file_name : Text → Text
file_name path = reverse (before_char b'/' (reverse path))

-- What the query answers.
pub data Answer : Type 0 where
  no_log invalid_since : Answer
  unreadable : ExcType → Fault → Answer
  -- the entries, the sources that were searched, the counts by integrity, and whether there is a key
  answer : List Found → List Text → List (Text × ℕ) → Bool → Answer

module _ (log : Log) (config : Config) (filter : Filter) where
  unfoldable pub parse_iso_utc : Text → Option ℕ
  parse_iso_utc value = log.instant (replace (codes "Z") (codes "+00:00") value)

  -- The test by date: an entry without a readable date is kept, and one whose date is no text raises.
  abbrev pub not_before : ℕ → Option ℕ → Bool
  not_before since none = true
  not_before since (some t) = not (ltb t since)

  unfoldable pub is_since : Option ℕ → Entry → Result Bool
  is_since none entry = ok true
  is_since (some since) entry = elim (get_field (codes "ts") entry) [
    | none ↦ ok true
    | some (Value.str t) ↦ ok (not_before since (parse_iso_utc t))
    | some v ↦ err ExcType.exception (Fault.raised [])
  ]

  unfoldable pub passes : Option ℕ → Entry → Result Bool
  passes since entry =
      if not (
        field_is (codes "agent_id") filter.agent_id entry
        && field_is (codes "tool") filter.tool entry)
      then ok false
      else repo_is filter.repo entry >>= λ in_repo.
          if in_repo then is_since since entry else ok false

  abbrev pub checked : Entry → Bool → Result (Option Found)
  checked entry false = ok none
  checked entry true = verify_entry_integrity log.digest config.audit_signing_key entry >>= λ i.
      ok (some (annotate entry i))

  abbrev pub judge_json : Option ℕ → Option (Option Entry) → Result (Option Found)
  judge_json since none = ok none
  judge_json since (some none) = err ExcType.exception (Fault.raised [])
  judge_json since (some (some entry)) = passes since entry >>= checked entry

  -- One line of a source.
  unfoldable pub judge_line : Option ℕ → Text → Result (Option Found)
  judge_line since bytes =
      let line = strip (log.decode bytes) in
      if is_empty line then ok none else judge_json since (log.parse_json line)

  abbrev pub found_line :
      ℤ → (List Found → Result (List Found)) → List Found → Option Found → Result (List Found)
  found_line limit rest found none = rest found
  found_line limit rest found (some f) =
      if reached limit (found ++ (f ∷ [])) then ok (found ++ (f ∷ [])) else rest (found ++ (f ∷ []))

  -- The loop over the lines of a source.
  unfoldable pub search_lines : ℤ → Option ℕ → List Found → List Text → Result (List Found)
  search_lines limit since found [] = ok found
  search_lines limit since found (line ∷ lines) =
      let rest = λ (more : List Found). search_lines limit since more lines in
      judge_line since line >>= found_line limit rest found

  -- `_REVERSE_READ_BLOCK`
  abbrev pub reverse_read_block : ℕ
  reverse_read_block = 65536

  abbrev pub answer_of : List Found → List Text → Answer
  answer_of found searched =
      Answer.answer found searched (count_from [] found) (not (is_empty config.audit_signing_key))

  -- One source that is there: its lines, or what becomes of an OSError.
  abbrev pub searched_source :
      ℤ → Option ℕ → Text → (List Found → Result Answer) → List Found → Result Text → Result Answer
  searched_source limit since source rest found (ok bytes) =
      search_lines limit since found (reverse_lines reverse_read_block bytes) >>= rest
  searched_source limit since source rest found (err t f) =
      if text_eq source config.audit_log_file then ok (Answer.unreadable t f) else rest found

  -- The loop over the sources.
  unfoldable pub search_sources : ℤ → Option ℕ → List Found → List Text → List Text → Result Answer
  search_sources limit since found searched [] = ok (answer_of found searched)
  search_sources limit since found searched (source ∷ sources) =
      let skip = search_sources limit since found searched sources in
      let rest = λ (more : List Found).
        search_sources limit since more (searched ++ (file_name source ∷ [])) sources in
      if reached limit found
      then ok (answer_of found searched)
      else if not (log.exists source)
      then skip
      else searched_source limit since source rest found (log.contents source)

  unfoldable pub sources : List Text
  sources =
      config.audit_log_file ∷ audit_backup_paths config.audit_log_file config.audit_log_backup_count

  -- The instant of `since`: `some none` where it is not given, and `none` where it is not valid.
  unfoldable pub since_of : Option Text → Option (Option ℕ)
  since_of none = some none
  since_of (some []) = some none
  since_of (some (c ∷ t)) = elim (parse_iso_utc (c ∷ t)) [ none ↦ none | some n ↦ some (some n) ]

  abbrev pub search_since : ℤ → Option (Option ℕ) → Result Answer
  search_since limit none = ok Answer.invalid_since
  search_since limit (some since) = search_sources limit since [] [] sources

  unfoldable pub audit_log_query : ℤ → Result Answer
  audit_log_query limit =
      if not (log.exists config.audit_log_file)
      then ok Answer.no_log
      else search_since limit (since_of filter.since)
