-- ===== src/Gitflags.antt =====
-- src/githost_mcp/gitflags.py: what a push or a fetch reported, decoded from GitPython's bitmasks.
-- The integers of GitPython's flags are the parameters `PushInfo` and `FetchInfo`.
pub mod Laws
use Prim.Native.Nat.{bit_and, bit_or}
use githost_mcp.Base.{
  ◌==◌, none, true, or_default, ◌∷◌, ◌++◌, strip, some, not, is_empty, false, decimal, codes, join,
  if◌then◌else◌, [], Text, Option, List, Bool, ℕ,
}
use githost_mcp.Config.System.{Config}
use githost_mcp.Security.Masking.{scrub}

pub record PushInfo : Type 0 where
  pub new_tag : ℕ
  pub new_head : ℕ
  pub no_match : ℕ
  pub rejected : ℕ
  pub remote_rejected : ℕ
  pub remote_failure : ℕ
  pub deleted : ℕ
  pub forced_update : ℕ
  pub fast_forward : ℕ
  pub up_to_date : ℕ
  pub error : ℕ

pub record FetchInfo : Type 0 where
  pub new_tag : ℕ
  pub new_head : ℕ
  pub head_uptodate : ℕ
  pub tag_update : ℕ
  pub rejected : ℕ
  pub forced_update : ℕ
  pub fast_forward : ℕ
  pub error : ℕ

abbrev pub push_flag_names : PushInfo → List (ℕ × Text)
push_flag_names g =
    (g.new_tag, codes "NEW_TAG")
    ∷ (g.new_head, codes "NEW_HEAD")
    ∷ (g.no_match, codes "NO_MATCH")
    ∷ (g.rejected, codes "REJECTED")
    ∷ (g.remote_rejected, codes "REMOTE_REJECTED")
    ∷ (g.remote_failure, codes "REMOTE_FAILURE")
    ∷ (g.deleted, codes "DELETED")
    ∷ (g.forced_update, codes "FORCED_UPDATE")
    ∷ (g.fast_forward, codes "FAST_FORWARD")
    ∷ (g.up_to_date, codes "UP_TO_DATE")
    ∷ (g.error, codes "ERROR")
    ∷ []

unfoldable pub push_error_mask : PushInfo → ℕ
push_error_mask g = bit_or (bit_or (bit_or g.error g.rejected) g.remote_rejected) g.remote_failure

abbrev pub fetch_flag_names : FetchInfo → List (ℕ × Text)
fetch_flag_names g =
    (g.new_tag, codes "NEW_TAG")
    ∷ (g.new_head, codes "NEW_HEAD")
    ∷ (g.head_uptodate, codes "HEAD_UPTODATE")
    ∷ (g.tag_update, codes "TAG_UPDATE")
    ∷ (g.rejected, codes "REJECTED")
    ∷ (g.forced_update, codes "FORCED_UPDATE")
    ∷ (g.fast_forward, codes "FAST_FORWARD")
    ∷ (g.error, codes "ERROR")
    ∷ []

unfoldable pub fetch_error_mask : FetchInfo → ℕ
fetch_error_mask g = bit_or g.error g.rejected

-- `flags & bit` as a condition.
unfoldable pub has_bits : ℕ → ℕ → Bool
has_bits flags bit = not (bit_and flags bit == 0)

unfoldable pub set_names : ℕ → List (ℕ × Text) → List Text
set_names flags [] = []
set_names flags ((bit, name) ∷ table) =
    let rest = set_names flags table in if has_bits flags bit then name ∷ rest else rest

-- `names or [str(flags)]`
abbrev pub names_or_number : ℕ → List Text → List Text
names_or_number flags [] = decimal flags ∷ []
names_or_number flags (name ∷ names) = name ∷ names

unfoldable pub decode_push_flags : PushInfo → ℕ → List Text
decode_push_flags g flags = names_or_number flags (set_names flags (push_flag_names g))

unfoldable pub decode_fetch_flags : FetchInfo → ℕ → List Text
decode_fetch_flags g flags = names_or_number flags (set_names flags (fetch_flag_names g))

pub record RemoteOutcome : Type 0 where
  pub flags : List Text
  pub summary : Text
  pub failed : Bool

-- An entry of a push or fetch: its flags, and its `summary` or `note`.
pub record Info : Type 0 where
  pub flags : ℕ
  pub note : Option Text

-- The variables of the loop.
pub record Seen : Type 0 where
  pub decoded : List Text
  pub summaries : List Text
  pub failed : Bool

abbrev pub nothing_seen : Seen
nothing_seen = record { decoded = []; summaries = []; failed = false }

abbrev pub note_of : Info → Text
note_of p = strip (or_default p.note [])

-- One pass of the loop, which is the same for both but for the decoding and the mask.
abbrev pub see : (ℕ → List Text) → ℕ → Seen → Info → Seen
see decode mask seen p = record {
  decoded = seen.decoded ++ decode p.flags;
  summaries = if is_empty (note_of p) then seen.summaries else seen.summaries ++ (note_of p ∷ []);
  failed = if has_bits p.flags mask then true else seen.failed;
}

unfoldable pub see_all : (ℕ → List Text) → ℕ → Seen → List Info → Seen
see_all decode mask seen [] = seen
see_all decode mask seen (p ∷ infos) = see_all decode mask (see decode mask seen p) infos

-- `if not decoded`
abbrev pub nothing_reported : Seen → Seen
nothing_reported seen =
    if is_empty seen.decoded
    then record seen {
      failed = true;
      summaries = seen.summaries ++ (codes "remote reported no ref updates" ∷ []);
    }
    else seen

-- `if list_error is not None`, the error as text.
abbrev pub with_list_error : Option Text → Seen → Seen
with_list_error none seen = seen
with_list_error (some e) seen = record seen {
  failed = true;
  summaries = seen.summaries ++ (e ∷ []);
}

abbrev pub outcome : Config → Seen → RemoteOutcome
outcome config seen = record {
  flags = seen.decoded;
  summary = scrub config (join (codes "; ") seen.summaries);
  failed = seen.failed;
}

unfoldable pub evaluate_push : PushInfo → Config → List Info → Option Text → RemoteOutcome
evaluate_push g config push_info list_error = outcome config (
    with_list_error list_error
      (nothing_reported (see_all (decode_push_flags g) (push_error_mask g) nothing_seen push_info)))

unfoldable pub evaluate_fetch : FetchInfo → Config → List Info → RemoteOutcome
evaluate_fetch g config fetch_info =
    outcome config (see_all (decode_fetch_flags g) (fetch_error_mask g) nothing_seen fetch_info)
