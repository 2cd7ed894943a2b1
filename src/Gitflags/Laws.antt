-- ===== src/Gitflags/Laws.antt =====
-- When an outcome counts as failed, and what its text can hold.
use githost_mcp.Base.{
  ap, ◌∙◌, contains, refl, has_char, none, length, [], ◌∷◌, ◌&&◌, some, ltb, ◌++◌, true, false,
  arith, ◌||◌, text_mem, is_some, is_empty, any, ◌≡◌, Text, Option, List, ℕ,
}
use githost_mcp.Config.System.{Config}
use githost_mcp.Security.Masking.{secrets}
use githost_mcp.Security.Masking.Secrets.{scrub-removes}
use githost_mcp.Gitflags.{
  PushInfo, FetchInfo, Info, Seen, evaluate_push, evaluate_fetch, see_all, see, nothing_seen,
  nothing_reported, with_list_error, has_bits, push_error_mask, fetch_error_mask, names_or_number,
  decode_push_flags, decode_fetch_flags,
}

see_all-failed :
    (decode : ℕ → List Text) (mask : ℕ) (seen : Seen) (infos : List Info)
    → (see_all decode mask seen infos).failed
      ≡ (seen.failed || any (λ p. has_bits p.flags mask) infos)
unfolding see_all
see_all-failed decode mask seen [] = ground arith
see_all-failed decode mask seen (p ∷ infos) =
    grind (arith, see_all-failed decode mask (see decode mask seen p) infos)

names_nonempty : (flags : ℕ) (names : List Text) → is_empty (names_or_number flags names) ≡ false
names_nonempty flags [] = refl
names_nonempty flags (n ∷ ns) = refl

is_empty-append : (a b : List Text) → is_empty (a ++ b) ≡ (is_empty a && is_empty b)
is_empty-append [] b = refl
is_empty-append (x ∷ a) b = refl

see_all-decoded :
    (decode : ℕ → List Text) (nonempty : (n : ℕ) → is_empty (decode n) ≡ false) (mask : ℕ)
    (seen : Seen) (infos : List Info)
    → is_empty (see_all decode mask seen infos).decoded ≡ (is_empty seen.decoded && is_empty infos)
unfolding see_all
see_all-decoded decode nonempty mask seen [] = ground arith
see_all-decoded decode nonempty mask seen (p ∷ infos) = grind (
  arith,
  see_all-decoded decode nonempty mask (see decode mask seen p) infos,
  is_empty-append seen.decoded (decode p.flags),
  nonempty p.flags,
)

finish_failed :
    (list_error : Option Text) (seen : Seen)
    → (with_list_error list_error (nothing_reported seen)).failed
      ≡ (is_some list_error || (is_empty seen.decoded || seen.failed))
finish_failed none seen = ground arith
finish_failed (some e) seen = ground arith

decode_push_nonempty : (g : PushInfo) (n : ℕ) → is_empty (decode_push_flags g n) ≡ false
unfolding decode_push_flags
decode_push_nonempty g n = names_nonempty n _

-- A push counts as failed exactly where no ref was reported, or the list carries an error, or the
-- flags of some ref meet the mask of the error flags.
pub evaluate_push_failed :
    (g : PushInfo) (config : Config) (push_info : List Info) (list_error : Option Text)
    → (evaluate_push g config push_info list_error).failed ≡ (
        is_some list_error
        || (is_empty push_info || any (λ p. has_bits p.flags (push_error_mask g)) push_info))
unfolding evaluate_push
evaluate_push_failed g config push_info list_error =
    let seen : Seen = see_all (decode_push_flags g) (push_error_mask g) nothing_seen push_info in
    let decoded : is_empty seen.decoded ≡ is_empty push_info =
      see_all-decoded (decode_push_flags g) (decode_push_nonempty g) (push_error_mask g)
        nothing_seen push_info in
    let flagged : seen.failed ≡ any (λ p. has_bits p.flags (push_error_mask g)) push_info =
      see_all-failed (decode_push_flags g) (push_error_mask g) nothing_seen push_info in
    finish_failed list_error seen
    ∙ ap (λ x. is_some list_error || x)
        (ap (λ x. x || seen.failed) decoded ∙ ap (λ y. is_empty push_info || y) flagged)

-- A fetch counts as failed exactly where the flags of some ref meet the mask of its error flags.
pub evaluate_fetch_failed :
    (g : FetchInfo) (config : Config) (fetch_info : List Info)
    → (evaluate_fetch g config fetch_info).failed
      ≡ any (λ p. has_bits p.flags (fetch_error_mask g)) fetch_info
unfolding evaluate_fetch
evaluate_fetch_failed g config fetch_info =
    see_all-failed (decode_fetch_flags g) (fetch_error_mask g) nothing_seen fetch_info

-- The summary of a push contains no configured secret of more than four characters without `*` in
-- it.
pub evaluate_push-removes :
    (g : PushInfo) (config : Config) (push_info : List Info) (list_error : Option Text)
    (secret : Text)
    → text_mem secret (secrets config) ≡ true
    → ltb 4 (length secret) ≡ true
    → has_char b'*' secret ≡ false
    → contains (evaluate_push g config push_info list_error).summary secret ≡ false
unfolding evaluate_push
evaluate_push-removes g config push_info list_error secret m l n =
    (scrub-removes config _ secret m l n).1
