-- ===== src/Query/Search/Answers.antt =====
-- That a query of src/githost_mcp/tools/audit_query.py that nothing raises in answers, and with which entries.
use githost_mcp.Base.{
  text_eq, text_eq_sound, subst, Bool, true, false, take, ℕ, Text, Option, some, none, List, [],
  ◌∷◌, ◌++◌, ◌≡◌, refl, sym, ap, ◌∙◌, arith, if◌then◌else◌, not, All,
}
use githost_mcp.Config.System.{Config, ℤ}
use githost_mcp.Errors.{ExcType, Fault, Result, ok, err, ◌>>=◌}
use githost_mcp.Query.Reader.{reverse_lines}
use githost_mcp.Query.Reader.Laws.{newest_first, reverse_lines-eq-newest_first}
use githost_mcp.Query.Search.{
  search_since, since_of, audit_log_query, Log, Filter, Found, Answer, judge_line, found_line,
  search_lines, search_sources, searched_source, answer_of, sources,
}
use githost_mcp.Query.Search.Laws.{all_matches, search_sources-all, take-short, IfOk}

module _ (log : Log) (config : Config) (filter : Filter) where
  abbrev pub Judged : Option ℕ → List Text → Type 0
  Judged since lines =
      All (λ line. (o : Option Found) × (judge_line log config filter since line ≡ ok o)) lines

  abbrev pub JudgedIn : Option ℕ → Bool → Result Text → Type 0
  JudgedIn since false contents = Unit {0}
  JudgedIn since true (err t f) = Unit {0}
  JudgedIn since true (ok text) = Judged since (newest_first text)

  -- No line of a file that is there and readable makes the query raise.
  abbrev pub NeverRaises : Option ℕ → List Text → Type 0
  NeverRaises since names = All (λ name. JudgedIn since (log.exists name) (log.contents name)) names

  abbrev Answers : {A : Type 0} → Result A → Type 0
  Answers {A} m = (a : A) × (m ≡ ok a)

  abbrev Listed : Result Answer → Type 0
  Listed m =
      (found : List Found) × (searched : List Text) × (counts : List (Text × ℕ)) × (key : Bool) × (m
        ≡ ok (Answer.answer found searched counts key))

  if-Answers :
      {A : Type 0} (b : Bool) (a : A) (m : Result A) → Answers m → Answers (if b then ok a else m)
  if-Answers true a m h = (a, refl)
  if-Answers false a m h = h

  found_line-Answers :
      (limit : ℤ) (rest : List Found → Result (List Found)) (found : List Found) (o : Option Found)
      → ((more : List Found) → Answers (rest more))
      → Answers (found_line log config filter limit rest found o)
  found_line-Answers limit rest found none k = k found
  found_line-Answers limit rest found (some f) k = if-Answers _ _ _ (k (found ++ (f ∷ [])))

  search_lines-Answers :
      (limit : ℤ) (since : Option ℕ) (lines : List Text) (found : List Found)
      → Judged since lines
      → Answers (search_lines log config filter limit since found lines)
  unfolding search_lines
  search_lines-Answers limit since [] found n = (found, refl)
  search_lines-Answers limit since (line ∷ lines) found ((o, e), n) =
      let (r, q) =
        found_line-Answers limit (λ more. search_lines log config filter limit since more lines)
          found o (λ more. search_lines-Answers limit since lines more n) in
      (
        r,
        ap
              (λ j.
                j
                >>= found_line log config filter limit
                    (λ more. search_lines log config filter limit since more lines) found)
              e
            ∙ q,
      )

  module _ (limit : ℤ) (since : Option ℕ) (bytes : Text)
      (live : log.contents config.audit_log_file ≡ ok bytes) where
    unread-Listed :
        (source : Text) (t : ExcType) (f : Fault) (m : Result Answer) (b : Bool)
        → text_eq source config.audit_log_file ≡ b
        → log.contents source ≡ err t f
        → Listed m
        → Listed (if b then ok (Answer.unreadable t f) else m)
    unread-Listed source t f m true e u h =
        subst (IfOk _)
          (sym live ∙ ap log.contents (sym (text_eq_sound source config.audit_log_file e)) ∙ u) tt
    unread-Listed source t f m false e u h = h

    searched_source-Listed :
        (source : Text) (rest : List Found → Result Answer) (found : List Found)
        (contents : Result Text)
        → log.contents source ≡ contents
        → JudgedIn since true contents
        → ((more : List Found) → Listed (rest more))
        → Listed (searched_source log config filter limit since source rest found contents)
    searched_source-Listed source rest found (ok text) e n k =
        let (r, q) =
          search_lines-Answers limit since (reverse_lines 65536 text) found (
            subst (Judged since) (sym (reverse_lines-eq-newest_first 65536 text (omega arith)))
              n) in
        let (a, b, c, d, p) = k r in (a, b, c, d, ap (λ m. m >>= rest) q ∙ p)
    searched_source-Listed source rest found (err t f) e n k =
        unread-Listed source t f (rest found) _ refl e (k found)

    source-Listed :
        (full there : Bool) (skip m : Result Answer) (found : List Found) (searched : List Text)
        → Listed skip
        → (there ≡ true → Listed m)
        → Listed (
            if full
            then ok (answer_of log config filter found searched)
            else if not there
            then skip
            else m)
    source-Listed true there skip m found searched s k = (found, searched, _, _, refl)
    source-Listed false false skip m found searched s k = s
    source-Listed false true skip m found searched s k = k refl

    search_sources-Listed :
        (names : List Text) (found : List Found) (searched : List Text)
        → NeverRaises since names
        → Listed (search_sources log config filter limit since found searched names)
    unfolding search_sources
    search_sources-Listed [] found searched n = (found, searched, _, _, refl)
    search_sources-Listed (name ∷ names) found searched (n, ns) =
        source-Listed _ _ _ _ found searched (search_sources-Listed names found searched ns) (λ e.
          searched_source-Listed name _ found (log.contents name) refl
            (subst (λ b. JudgedIn since b (log.contents name)) e n)
            (λ more. search_sources-Listed names more _ ns))

  -- Where the live log is there and readable, the date is valid or absent, and no line of the live
  -- log and of the readable backups raises, a query with a limit from 0 up answers, and its entries
  -- are the first ones, up to the limit, of all matching entries of the live log and then of the
  -- readable backups, each file from its last line to its first.
  pub audit_log_query-take :
      (limit : ℕ) (since : Option ℕ) (bytes : Text)
      → log.exists config.audit_log_file ≡ true
      → since_of log config filter filter.since ≡ some since
      → log.contents config.audit_log_file ≡ ok bytes
      → NeverRaises since (sources log config filter)
      → (searched : List Text) × (counts : List (Text × ℕ)) × (key : Bool) × (audit_log_query log
            config filter
            (ℤ.pos limit)
          ≡ ok (
              Answer.answer
                (take limit (all_matches log config filter since (sources log config filter)))
                searched
                counts
                key))
  unfolding audit_log_query
  audit_log_query-take limit since bytes there valid live n =
      let names = sources log config filter in
      let (found, searched, counts, key, p) =
        search_sources-Listed (ℤ.pos limit) since bytes live names [] [] n in
      (
        searched,
        counts,
        key,
        ap
              (λ b.
                if not b
                then ok Answer.no_log
                else search_since log config filter (ℤ.pos limit)
                    (since_of log config filter filter.since))
              there
            ∙ ap (search_since log config filter (ℤ.pos limit)) valid
            ∙ p
            ∙ ap (λ f. ok (Answer.answer f searched counts key))
                (search_sources-all log config filter since limit names [] [] _
                  (sym (take-short limit [] (omega arith))) p),
      )
