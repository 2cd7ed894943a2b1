-- ===== src/Bootstrap/Readback/Laws.antt =====
-- What a creation's result says of its read-back.
use githost_mcp.Base.{true, refl, arith, ◌≡◌, false, some, codes, text_eq, Bool, Option, Text, none}
use githost_mcp.Bootstrap.Readback.{readback_warning, readback_result}

-- The visibility that was asked for is the one that the provider reported, without an error.
abbrev pub confirmed : Text → Option Text → Option Text → Bool
confirmed requested (some reported) Option.none = text_eq reported requested
confirmed requested _ _ = false

readback_compared :
    (provider requested reported : Text) (b : Bool)
    → text_eq reported requested ≡ b
    → text_eq
        (readback_result (some reported) (readback_warning provider requested (some reported) none))
        (codes "ok")
      ≡ text_eq reported requested
unfolding readback_result readback_warning text_eq codes
readback_compared provider requested reported true h = rw (h)
readback_compared provider requested reported false h = rw (h)

-- The logged result of a creation is plain `ok` exactly where the read-back had no error and
-- reported the visibility that was asked for.
pub readback_result_iff :
    (provider requested : Text) (reported readback_error : Option Text)
    → text_eq
        (readback_result reported (readback_warning provider requested reported readback_error))
        (codes "ok")
      ≡ confirmed requested reported readback_error
unfolding readback_result readback_warning text_eq codes
readback_result_iff provider requested (some r) none =
    readback_compared provider requested r (text_eq r requested) refl
readback_result_iff provider requested none none = ground arith
readback_result_iff provider requested none (some e) = ground arith
readback_result_iff provider requested (some r) (some e) = ground arith
