-- ===== src/Query/Search/Laws.antt =====
-- What audit_log_query() of src/githost_mcp/tools/audit_query.py answers, against all matching lines.
use githost_mcp.Base.{
  subst, Bool, true, false, length, take, ℕ, zero, suc, ◌≤◌, ◌<◌, Text, Option, some, none, List,
  [], ◌∷◌, ◌++◌, ◌≡◌, refl, sym, ap, ◌∙◌, arith, length-append, if◌then◌else◌, not,
}
use mathlib.Core.List.{append_assoc, append-nil}
use githost_mcp.Config.System.{Config, ℤ}
use githost_mcp.Errors.{ExcType, Fault, Result, ok, err, ◌>>=◌}
use githost_mcp.Query.Reader.{reverse_lines}
use githost_mcp.Query.Reader.Laws.{newest_first, reverse_lines-eq-newest_first}
use githost_mcp.Query.Search.{
  Log, Filter, Found, Answer, reached, judge_line, found_line, search_lines, search_sources,
  searched_source, answer_of, sources,
}

module _ {A : Type 0} where
  pub take-short : (n : ℕ) (xs : List A) → length xs ≤ n → take n xs ≡ xs
  take-short zero [] h = refl
  take-short zero (x ∷ xs) h = ground (arith, h)
  take-short (suc n) [] h = refl
  take-short (suc n) (x ∷ xs) h = ap (λ t. x ∷ t) (take-short n xs (omega (arith, h)))

  take-exact : (n : ℕ) (xs ys : List A) → n ≡ length xs → take n (xs ++ ys) ≡ xs
  take-exact zero [] ys h = refl
  take-exact zero (x ∷ xs) ys h = ground (arith, h)
  take-exact (suc n) [] ys h = ground (arith, h)
  take-exact (suc n) (x ∷ xs) ys h = ap (λ t. x ∷ t) (take-exact n xs ys (omega (arith, h)))

  take-take-append : (n : ℕ) (xs ys : List A) → take n (take n xs ++ ys) ≡ take n (xs ++ ys)
  take-take-append zero xs ys = refl
  take-take-append (suc n) [] ys = refl
  take-take-append (suc n) (x ∷ xs) ys = ap (λ t. x ∷ t) (take-take-append n xs ys)

  take-full : (n : ℕ) (xs ys : List A) → n ≤ length xs → take n (xs ++ ys) ≡ take n xs
  take-full zero xs ys h = refl
  take-full (suc n) [] ys h = ground (arith, h)
  take-full (suc n) (x ∷ xs) ys h = ap (λ t. x ∷ t) (take-full n xs ys (omega (arith, h)))

  length-take : (n : ℕ) (xs : List A) → length (take n xs) ≤ n
  length-take zero xs = omega arith
  length-take (suc n) [] = omega arith
  length-take (suc n) (x ∷ xs) = omega (arith, length-take n xs)

bind-ok :
    {A B : Type 0} (m : Result A) (rest : A → Result B) (b : B)
    → (m >>= rest) ≡ ok b
    → (a : A) × (m ≡ ok a) × (rest a ≡ ok b)
bind-ok (ok a) rest b h = (a, refl, h)
bind-ok (err t f) rest b h = ground (arith, h)

abbrev pub IfOk : {A : Type 0} → Type 0 → Result A → Type 0
IfOk X (ok a) = Unit {0}
IfOk X (err t f) = X

from_ok : {A : Type 0} → A → Result A → A
from_ok d (ok a) = a
from_ok d (err t f) = d

ok-injective : {A : Type 0} (a b : A) → ok a ≡ ok b → a ≡ b
unfolding from_ok
ok-injective a b h = ap (from_ok a) h

reached-length :
    (limit : ℕ) (found : List Found) (f : Found) (b : Bool)
    → reached (ℤ.pos limit) (found ++ (f ∷ [])) ≡ b
    → length found < limit
    → if b then (limit ≡ length (found ++ (f ∷ []))) else (length (found ++ (f ∷ [])) < limit)
unfolding reached
reached-length limit found f true e l = ground (arith, length-append found (f ∷ []))
reached-length limit found f false e l = ground (arith, length-append found (f ∷ []))

-- The entry that a line adds.
abbrev pub hit : Result (Option Found) → List Found
hit (ok (some f)) = f ∷ []
hit _ = []

module _ (log : Log) (config : Config) (filter : Filter) (since : Option ℕ) where
  -- The entries of all lines, whatever the limit.
  unfoldable pub matches : List Text → List Found
  matches [] = []
  matches (line ∷ lines) = hit (judge_line log config filter since line) ++ matches lines

  abbrev pub readable : Bool → Result Text → List Found
  readable true (ok bytes) = matches (newest_first bytes)
  readable there contents = []

  unfoldable pub all_matches : List Text → List Found
  all_matches [] = []
  all_matches (source ∷ rest) =
      readable (log.exists source) (log.contents source) ++ all_matches rest

  module _ (limit : ℕ) where
    -- The loop over lines, where the answer is known.
    add_hit :
        (found ms : List Found) (f : Found) (rest : List Found → Result (List Found))
        (r : List Found) (b : Bool)
        → reached (ℤ.pos limit) (found ++ (f ∷ [])) ≡ b
        → length found < limit
        → ((more : List Found)
            → length more < limit
            → rest more ≡ ok r
            → r ≡ take limit (more ++ ms))
        → (if b then ok (found ++ (f ∷ [])) else rest (found ++ (f ∷ []))) ≡ ok r
        → r ≡ take limit (found ++ (f ∷ ms))
    add_hit found ms f rest r true e l k h =
        sym (ok-injective _ r h)
        ∙ sym (
            ap (take limit) (sym (append_assoc found (f ∷ []) ms))
            ∙ take-exact limit (found ++ (f ∷ [])) ms (reached-length limit found f true e l))
    add_hit found ms f rest r false e l k h =
        k (found ++ (f ∷ [])) (reached-length limit found f false e l) h
        ∙ ap (take limit) (append_assoc found (f ∷ []) ms)

    found_line-hit :
        (found ms : List Found) (rest : List Found → Result (List Found)) (r : List Found)
        (j : Result (Option Found))
        → length found < limit
        → ((more : List Found)
            → length more < limit
            → rest more ≡ ok r
            → r ≡ take limit (more ++ ms))
        → (j >>= found_line log config filter (ℤ.pos limit) rest found) ≡ ok r
        → r ≡ take limit (found ++ (hit j ++ ms))
    found_line-hit found ms rest r (ok none) l k h = k found l h
    found_line-hit found ms rest r (ok (some f)) l k h = add_hit found ms f rest r _ refl l k h
    found_line-hit found ms rest r (err t f) l k h = ground (arith, h)

    search_lines-hits :
        (lines : List Text) (found r : List Found)
        → length found < limit
        → search_lines log config filter (ℤ.pos limit) since found lines ≡ ok r
        → r ≡ take limit (found ++ matches lines)
    unfolding search_lines matches
    search_lines-hits [] found r l h =
        sym (ok-injective found r h)
        ∙ sym (ap (take limit) (append-nil found) ∙ take-short limit found (omega (arith, l)))
    search_lines-hits (line ∷ lines) found r l h =
        found_line-hit found (matches lines) _ r (judge_line log config filter since line) l
          (λ more m e. search_lines-hits lines more r m e) h

    -- The entries of an answer that lists some.
    abbrev pub Lists : Answer → List Found → Type 0
    Lists (Answer.answer found searched counts key) all = found ≡ take limit all
    Lists (Answer.unreadable t f) all = Unit {0}
    Lists a all = Unit {0}

    Lists-take :
        (a : Answer) (xs ys : List Found) → take limit xs ≡ take limit ys → Lists a xs → Lists a ys
    Lists-take (Answer.answer found searched counts key) xs ys e h = h ∙ e
    Lists-take Answer.no_log xs ys e h = tt
    Lists-take Answer.invalid_since xs ys e h = tt
    Lists-take (Answer.unreadable t f) xs ys e h = tt

    answer_of-Lists :
        (found xs : List Found) (searched : List Text) (a : Answer)
        → found ≡ take limit xs
        → ok (answer_of log config filter found searched) ≡ ok a
        → Lists a xs
    answer_of-Lists found xs searched a e h = subst (λ b. Lists b xs) (ok-injective _ a h) e

    unreadable-Lists :
        (b : Bool) (t : ExcType) (f : Fault) (other : Result Answer) (a : Answer) (xs : List Found)
        → (other ≡ ok a → Lists a xs)
        → (if b then ok (Answer.unreadable t f) else other) ≡ ok a
        → Lists a xs
    unreadable-Lists true t f other a xs k h = subst (λ b. Lists b xs) (ok-injective _ a h) tt
    unreadable-Lists false t f other a xs k h = k h

    module _ (found more : List Found) (searched : List Text) (a : Answer) (source : Text)
        (rest : List Found → Result Answer) where
      searched_source-Lists :
          (contents : Result Text)
          → length found < limit
          → found ≡ take limit found
          → ((f : List Found) → f ≡ take limit f → rest f ≡ ok a → Lists a (f ++ more))
          → searched_source log config filter (ℤ.pos limit) since source rest found contents ≡ ok a
          → Lists a (found ++ (readable true contents ++ more))
      searched_source-Lists (err t f) l e k h =
          unreadable-Lists _ t f (rest found) a _ (k found e) h
      searched_source-Lists (ok bytes) l e k h =
          let (r, m, n) = bind-ok _ rest a h in
          let ms = matches (newest_first bytes) in
          let known : r ≡ take limit (found ++ ms) =
            search_lines-hits (reverse_lines 65536 bytes) found r l m
            ∙ ap (λ ls. take limit (found ++ matches ls))
                (reverse_lines-eq-newest_first 65536 bytes (omega arith)) in
          Lists-take a (r ++ more) (found ++ (ms ++ more))
            (ap (λ x. take limit (x ++ more)) known
              ∙ take-take-append limit (found ++ ms) more
              ∙ ap (take limit) (append_assoc found ms more))
            (k r
              (known
                ∙ sym
                    (ap (take limit) known ∙ take-short limit _ (length-take limit (found ++ ms))))
              n)

      source-Lists :
          (full there : Bool) (contents : Result Text) (skip : Result Answer)
          → reached (ℤ.pos limit) found ≡ full
          → found ≡ take limit found
          → (skip ≡ ok a → Lists a (found ++ more))
          → ((f : List Found) → f ≡ take limit f → rest f ≡ ok a → Lists a (f ++ more))
          → (if full
              then ok (answer_of log config filter found searched)
              else if not there
              then skip
              else searched_source log config filter (ℤ.pos limit) since source rest found contents)
            ≡ ok a
          → Lists a (found ++ (readable there contents ++ more))
      unfolding reached
      source-Lists true there contents skip b e s k h =
          answer_of-Lists found _ searched a (e ∙ sym (take-full limit found _ (ground (arith, b))))
            h
      source-Lists false false contents skip b e s k h = s h
      source-Lists false true contents skip b e s k h =
          searched_source-Lists contents (ground (arith, b)) e k h

    pub search_sources-all :
        (sources : List Text) (found : List Found) (searched : List Text) (a : Answer)
        → found ≡ take limit found
        → search_sources log config filter (ℤ.pos limit) since found searched sources ≡ ok a
        → Lists a (found ++ all_matches sources)
    unfolding search_sources all_matches
    search_sources-all [] found searched a l h =
        answer_of-Lists found _ searched a (l ∙ sym (ap (take limit) (append-nil found))) h
    search_sources-all (source ∷ sources) found searched a l h =
        source-Lists found (all_matches sources) searched a source _ _ (log.exists source)
          (log.contents source) _ refl l (search_sources-all sources found searched a l)
          (λ f e. search_sources-all sources f _ a e) h
