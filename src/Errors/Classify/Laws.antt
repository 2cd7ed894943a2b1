-- ===== src/Errors/Classify/Laws.antt =====
-- The closed vocabulary of classify_reason().
use githost_mcp.Base.{
  starts_with-append, drop-append, if◌then◌else◌, ap, Text, codes, true, Option, none, some, List,
  [], ◌∷◌, ◌++◌, text_mem, text_eq, or_default, ◌≡◌, refl, arith, Bool-cases, inl, inr, All,
}
use githost_mcp.Errors.{ExcType, is_instance}
use githost_mcp.Errors.Classify.{
  reason_classes, by_type, by_result, denied_prefix, first_instance, get_result, classify_result,
  classify_reason,
}

abbrev IsClass : Text → Type 0
IsClass c = text_mem c reason_classes ≡ true

other-IsClass : IsClass (codes "other")
unfolding reason_classes text_mem text_eq codes
other-IsClass = refl

get_result-IsClass :
    (k : Text) (l : List (Text × Text))
    → All (λ e. IsClass e.1) l
    → IsClass (or_default (get_result k l) (codes "other"))
unfolding get_result
get_result-IsClass k [] h = other-IsClass
get_result-IsClass k ((j, c) ∷ l) (h, hs) = ground (arith, get_result-IsClass k l hs)

by_result-IsClass : All (λ e. IsClass e.1) by_result
unfolding by_result reason_classes text_mem text_eq codes
by_result-IsClass = (refl, (refl, (refl, (refl, (refl, (refl, (refl, (refl, tt))))))))

classify_result-IsClass : (result : Text) → IsClass (classify_result result)
unfolding classify_result
classify_result-IsClass result =
    ground (arith, get_result-IsClass result by_result by_result-IsClass)

by_type-IsClass : All (λ e. IsClass e.1) by_type
unfolding by_type reason_classes text_mem text_eq codes
by_type-IsClass = (
  refl,
  (
    refl,
    (refl, (refl, (refl, (refl, (refl, (refl, (refl, (refl, (refl, (refl, (refl, tt))))))))))),
  ),
)

first_instance-IsClass :
    (e : ExcType) (l : List (ExcType × Text)) (d : Text)
    → All (λ e. IsClass e.1) l
    → IsClass d
    → IsClass (or_default (first_instance e l) d)
unfolding first_instance
first_instance-IsClass e [] d h k = k
first_instance-IsClass e ((t, c) ∷ l) d (h, hs) k = elim (Bool-cases (is_instance e t)) [
  | inl p ↦ rw (p, first_instance) h
  | inr p ↦ rw (p, first_instance) (first_instance-IsClass e l d hs k)
]

-- The reason class is a member of the vocabulary, whatever the result text and the exception are.
pub classify_reason-IsClass :
    (result : Text) (exc : Option ExcType)
    → text_mem (classify_reason result exc) reason_classes ≡ true
unfolding classify_reason
classify_reason-IsClass result none = classify_result-IsClass result
classify_reason-IsClass result (some e) =
    first_instance-IsClass e by_type _ by_type-IsClass (classify_result-IsClass result)

-- Without an exception, the result `denied:<class>` with a class of the vocabulary is classified
-- as that class.
pub classify_reason-denied :
    (c : Text) → text_mem c reason_classes ≡ true → classify_reason (denied_prefix ++ c) none ≡ c
unfolding classify_reason classify_result
classify_reason-denied c h = rw (drop-append denied_prefix c, starts_with-append denied_prefix c, h)

-- The exception classes that stand in the table.
abbrev pub Listed : ExcType → Type 0
Listed ExcType.identity_undetermined = ⊥
Listed ExcType.value_error = ⊥
Listed ExcType.exception = ⊥
Listed ExcType.git_command_error = ⊥
Listed _ = Unit

-- The table read backwards.
type_of_class : Text → List (ExcType × Text) → ExcType
type_of_class k [] = ExcType.exception
type_of_class k ((t, c) ∷ rest) = if text_eq c k then t else type_of_class k rest

type_of_class-classify :
    (r : Text) (e : ExcType) → Listed e → type_of_class (classify_reason r (some e)) by_type ≡ e
unfolding classify_reason first_instance by_type type_of_class text_eq codes
type_of_class-classify r ExcType.write_glob_denied h = refl
type_of_class-classify r ExcType.identity_undetermined h = absurd h
type_of_class-classify r ExcType.value_error h = absurd h
type_of_class-classify r ExcType.exception h = absurd h
type_of_class-classify r ExcType.git_command_error h = absurd h
type_of_class-classify r _ h = refl

-- Of two rejections that carry an exception of the table, the same reason class means the same
-- exception class.
pub classify_reason-injective :
    (r s : Text) (e f : ExcType)
    → Listed e
    → Listed f
    → classify_reason r (some e) ≡ classify_reason s (some f)
    → e ≡ f
classify_reason-injective r s e f h k same = cc (
  ap (λ c. type_of_class c by_type) same,
  type_of_class-classify r e h,
  type_of_class-classify s f k,
)
