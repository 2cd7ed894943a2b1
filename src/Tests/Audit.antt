-- ===== src/Tests/Audit.antt =====
-- src/githost_mcp/audit.py, errors.py and gitflags.py at concrete inputs.
use Prim.Native.Nat.{pred}
use githost_mcp.Base.{
  length-append, ◌+◌, ◌||◌, ◌==◌, ℕ, true, text_eq, refl, length, is_some, false, arith, any, [],
  ◌≡◌, ◌∷◌, ◌++◌, text_mem, some, none, ltb, leb, is_empty, if◌then◌else◌, has_char, contains, Text,
  List, codes,
}
use githost_mcp.Errors.{ok, succeeds, ExcType}
use githost_mcp.Errors.Classify.{classify_reason, reason_classes, denied_prefix}
use githost_mcp.Errors.Classify.Laws.{classify_reason-IsClass, classify_reason-injective}
use githost_mcp.Config.System.{Config, ℤ, default_config}
use githost_mcp.Security.Masking.{secrets}
use githost_mcp.Audit.Values.{Value, Fields}
use githost_mcp.Audit.Values.Laws.{shown, bound_rejected_value-removes}
use githost_mcp.Audit.Integrity.{
  Entry, Call, Integrity, verify_entry_integrity, audit_entry, get_field, judge,
}
use githost_mcp.Audit.Integrity.Laws.{
  IsAscii, hmac_field, is_comparable, audit_entry-verified, changed_verdict,
  succeeds-verify_entry_integrity,
}
use githost_mcp.Audit.Rotation.{Files, rotate, write_line, limits}
use githost_mcp.Audit.Rotation.Laws.{no_faults, fits, live_size, rotate-no_faults, write_line-Fits}
use githost_mcp.Audit.Rejection.{Ctx, audit_rejection}
use githost_mcp.Audit.Rejection.Laws.{audit_rejection-class}
use githost_mcp.Gitflags.{PushInfo, FetchInfo, Info, evaluate_push, has_bits, push_error_mask}
use githost_mcp.Gitflags.Laws.{evaluate_push_failed}

abbrev settings : Config
settings = record default_config {
  github_token = codes "ghp_secret";
  audit_log_max_bytes = ℤ.pos 3;
  audit_log_backup_count = ℤ.pos 2;
}

-- A stand-in for the digest: a digit for each field.
abbrev digest : Text → Entry → Text
digest key [] = []
digest key (f ∷ e) = b'1' ∷ digest key e

digest_ascii : IsAscii digest
digest_ascii key [] = refl
digest_ascii key (f ∷ e) = ground (arith, digest_ascii key e)

abbrev a_call : Call
a_call = record {
  ts = codes "t";
  agent_id = codes "dev";
  tool = codes "git_push";
  provider = codes "git";
  repo = codes "/w";
  params = Fields.end;
  result = codes "ok";
  duration_ms = codes "1";
  reason = none;
}

audit_entry-verified_example :
    verify_entry_integrity digest (codes "k") (audit_entry digest (codes "k") settings a_call)
    ≡ ok (if is_empty (codes "k") then Integrity.unsigned else Integrity.verified)
audit_entry-verified_example = audit_entry-verified digest digest_ascii (codes "k") settings a_call

abbrev two_fields : Entry
two_fields = (codes "a", Value.scalar (codes "1")) ∷ (codes "b", Value.scalar (codes "2")) ∷ []

abbrev one_field : Entry
one_field = (codes "a", Value.scalar (codes "1")) ∷ []

key_there : is_empty (codes "k") ≡ false
unfolding codes
key_there = refl

one_unsigned : get_field (codes "hmac") one_field ≡ none
unfolding get_field text_eq codes
one_unsigned = refl

changed_verdict_example :
    verify_entry_integrity digest
      (codes "k")
      (one_field ++ hmac_field (Value.str (digest (codes "k") two_fields)))
    ≡ ok (judge (text_eq (digest (codes "k") two_fields) (digest (codes "k") one_field)))
changed_verdict_example =
    changed_verdict digest digest_ascii (codes "k") two_fields one_field key_there one_unsigned

succeeds-verify_entry_integrity_example :
    succeeds (verify_entry_integrity digest (codes "k") (hmac_field (Value.scalar (codes "3")))) ≡ (
      is_empty (codes "k")
      || is_comparable (get_field (codes "hmac") (hmac_field (Value.scalar (codes "3")))))
succeeds-verify_entry_integrity_example =
    succeeds-verify_entry_integrity digest (codes "k") (hmac_field (Value.scalar (codes "3")))

abbrev count : List Text → ℕ
count = length

count-append :
    (lines : List Text) (line : Text)
    → count (lines ++ (line ∷ [])) ≡ count lines + count (line ∷ [])
count-append lines line = length-append lines (line ∷ [])

abbrev full_log : Files
full_log m = if ltb m 3 then some (codes "x" ∷ codes "y" ∷ codes "z" ∷ []) else none

rotate-no_faults_example :
    rotate no_faults 1 full_log 2
    ≡ (if 2 == 0 then none else if leb 2 2 then full_log (pred 2) else full_log 2)
rotate-no_faults_example = rotate-no_faults 1 full_log 2

settings_limits : limits settings.audit_log_max_bytes settings.audit_log_backup_count ≡ some (3, 1)
settings_limits = refl

write_line-Fits_example :
    fits 3
      (count (codes "new" ∷ []))
      (live_size count (write_line count settings no_faults (codes "new") full_log))
    ≡ true
write_line-Fits_example =
    write_line-Fits count count-append settings no_faults (codes "new") full_log 3 1 settings_limits
      refl

token_secret : text_mem (codes "ghp_secret") (secrets settings) ≡ true
unfolding text_mem secrets text_eq codes
token_secret = refl

token_long : ltb 4 (length (codes "ghp_secret")) ≡ true
unfolding codes
token_long = refl

token_plain : has_char b'*' (codes "ghp_secret") ≡ false
unfolding codes
token_plain = refl

bound_rejected_value-removes_example :
    (leb (length (shown settings (some (codes "a ghp_secret")))) 64 ≡ true)
    × (contains (shown settings (some (codes "a ghp_secret"))) (codes "ghp_secret") ≡ false)
bound_rejected_value-removes_example =
    bound_rejected_value-removes settings (codes "a ghp_secret") (codes "ghp_secret") token_secret
      token_long token_plain

abbrev a_ctx : Ctx
a_ctx = record {
  ts = codes "t";
  agent_id = codes "dev";
  tool = codes "git_push";
  provider = codes "git";
  repo = codes "/w";
  params = Fields.end;
  duration_ms = codes "1";
}

not_owned_class : text_mem (codes "not_owned") reason_classes ≡ true
unfolding text_mem reason_classes text_eq codes
not_owned_class = refl

audit_rejection-class_example :
    ((audit_rejection digest
        (codes "k")
        settings
        a_ctx
        (codes "not_owned")
        (codes "no")
        none
        none).0.event.reason_class
      ≡ some (codes "not_owned"))
    × ((audit_rejection digest
          (codes "k")
          settings
          a_ctx
          (codes "not_owned")
          (codes "no")
          none
          none).1
        ≡ codes "no")
audit_rejection-class_example =
    audit_rejection-class digest (codes "k") settings a_ctx (codes "not_owned") (codes "no") none
      none not_owned_class

classify_reason-IsClass_example :
    text_mem (classify_reason (codes "error:timeout") (some ExcType.value_error)) reason_classes
    ≡ true
classify_reason-IsClass_example =
    classify_reason-IsClass (codes "error:timeout") (some ExcType.value_error)

classify_reason-injective_example : ExcType.not_owned ≡ ExcType.not_owned
unfolding codes classify_reason githost_mcp.Errors.Classify.classify_result
    githost_mcp.Base.starts_with githost_mcp.Errors.Classify.get_result text_eq
    githost_mcp.Errors.Classify.by_result
classify_reason-injective_example =
    classify_reason-injective (codes "a") (codes "b") ExcType.not_owned ExcType.not_owned tt tt refl

abbrev push_flags : PushInfo
push_flags = record {
  new_tag = 1;
  new_head = 2;
  no_match = 4;
  rejected = 8;
  remote_rejected = 16;
  remote_failure = 32;
  deleted = 64;
  forced_update = 128;
  fast_forward = 256;
  up_to_date = 512;
  error = 1024;
}

abbrev fetch_flags : FetchInfo
fetch_flags = record {
  new_tag = 1;
  new_head = 2;
  head_uptodate = 4;
  tag_update = 8;
  rejected = 16;
  forced_update = 32;
  fast_forward = 64;
  error = 128;
}

abbrev rejected_push : List Info
rejected_push = record { flags = 1032; note = some (codes "[rejected] ghp_secret") } ∷ []

evaluate_push_failed_example : (evaluate_push push_flags settings rejected_push none).failed ≡ (
    is_some {A = Text} none
    || (is_empty rejected_push
        || any (λ p. has_bits p.flags (push_error_mask push_flags)) rejected_push))
evaluate_push_failed_example = evaluate_push_failed push_flags settings rejected_push none
