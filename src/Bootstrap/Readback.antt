-- ===== src/Bootstrap/Readback.antt =====
-- readback_warning() and readback_result() of src/githost_mcp/bootstrap.py.
pub mod Laws
use githost_mcp.Base.{not, if◌then◌else◌, ◌++◌, none, some, Option, Text, codes, text_eq}

unfoldable pub readback_warning : Text → Text → Option Text → Option Text → Option Text
readback_warning provider requested reported (some readback_error) = some (
    codes "created, but reading it back failed ("
    ++ (readback_error
        ++ codes "); visibility is unconfirmed. Check the repo before pushing anything to it."))
readback_warning provider requested none none = some (
    codes "created, but "
    ++ (provider
        ++ codes
            " does not show it yet; visibility is unconfirmed. Check the repo before pushing anything to it."))
readback_warning provider requested (some reported) none =
    if not (text_eq reported requested)
    then some (
        codes "requested "
        ++ (requested
            ++ (codes ", "
                ++ (provider
                    ++ (codes " reports "
                        ++ (reported
                            ++ codes ". Check the repo before pushing anything to it."))))))
    else none

unfoldable pub readback_result : Option Text → Option Text → Text
readback_result reported none = codes "ok"
readback_result none (some warning) = codes "ok:visibility_unconfirmed"
readback_result (some r) (some warning) = codes "ok:visibility_mismatch"
