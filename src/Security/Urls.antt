-- ===== src/Security/Urls.antt =====
-- validate_remote_url() of src/githost_mcp/security.py.
pub mod Laws
use githost_mcp.Base.{
  false, ◌||◌, any, [], ◌∷◌, ◌==◌, ◌&&◌, some, reverse, none, has_char, ℕ, not, is_empty,
  if◌then◌else◌, Option, List, Text, Bool, codes, starts_with, take_while, drop_while, before_char,
  after_char, is_space,
}
use githost_mcp.Errors.{Result, ok, err, ◌>>=◌, ◌>>◌, raise_if, ExcType, Fault}
use githost_mcp.Security.Chars.{is_letter, is_scheme_char}

unfoldable pub allowed_remote_schemes : List Text
allowed_remote_schemes = codes "http://" ∷ codes "https://" ∷ codes "ssh://" ∷ codes "git://" ∷ []

unfoldable pub login_userinfo_schemes : List Text
login_userinfo_schemes = codes "ssh://" ∷ codes "git://" ∷ []

-- What follows a run of scheme characters, if that is `://`.
abbrev pub after_separator : Text → Option Text
after_separator (c ∷ d ∷ e ∷ rest) =
    if c == b':' && (d == b'/' && e == b'/') then some rest else none
after_separator _ = none

-- What follows the match of `^[a-zA-Z][a-zA-Z0-9+.\-]*://`. A scheme holds no colon, so this is
-- also `url.split("://", 1)[1]`.
unfoldable pub after_scheme : Text → Option Text
after_scheme [] = none
after_scheme (c ∷ s) = if is_letter c then after_separator (drop_while is_scheme_char s) else none

-- `s.rsplit(c, 1)[0]`, where `s` holds `c`.
abbrev pub before_last : ℕ → Text → Text
before_last c s = reverse (after_char c (reverse s))

unfoldable pub check_authority : Text → Text → Result (Unit {0})
check_authority url authority =
    if has_char b'@' authority
    then (do
      raise_if (not (any (starts_with url) login_userinfo_schemes)) ExcType.remote_url_rejected
          Fault.userinfo_on_http
      raise_if (has_char b':' (before_last b'@' authority)) ExcType.remote_url_rejected
          Fault.password_in_userinfo)
    else ok tt

abbrev pub not_slash_at : ℕ → Bool
not_slash_at c = not (c == b'/' || c == b'@')

abbrev pub not_slash_at_colon : ℕ → Bool
not_slash_at_colon c = not (c == b'/' || c == b'@' || c == b':')

-- `:(?![/:]).+$`, in a text without whitespace.
abbrev pub is_scp_path : Text → Bool
is_scp_path (c ∷ d ∷ rest) = c == b':' && not (d == b'/' || d == b':')
is_scp_path _ = false

-- `[^/@:]+:(?![/:]).+$`
unfoldable pub is_host_path : Text → Bool
is_host_path s =
    not (is_empty (take_while not_slash_at_colon s))
    && is_scp_path (drop_while not_slash_at_colon s)

-- `[^/@]+@`: the text in front of the `@`, and what follows it.
abbrev pub at_sign : Text → Text → Option (Text × Text)
at_sign userinfo (c ∷ rest) =
    if c == b'@' && not (is_empty userinfo) then some (userinfo, rest) else none
at_sign userinfo [] = none

unfoldable pub split_userinfo : Text → Option (Text × Text)
split_userinfo s = at_sign (take_while not_slash_at s) (drop_while not_slash_at s)

-- A match of the scp form: its userinfo group, empty where the group took no part. The form with
-- a userinfo is tried first.
unfoldable pub scp_userinfo : Text → Option Text
scp_userinfo url =
    let plain : Option Text = if is_host_path url then some [] else none in
    elim (split_userinfo url) [
      | none ↦ plain
      | some (userinfo, rest) ↦ if is_host_path rest then some userinfo else plain
    ]

-- The checks by form: what follows the scheme, if there is one, else the scp form's userinfo.
unfoldable pub check_form : Text → Option Text → Option Text → Result (Unit {0})
check_form url (some rest) scp =
    raise_if (not (any (starts_with url) allowed_remote_schemes)) ExcType.remote_url_rejected
      Fault.unsupported_scheme
    >> check_authority url (before_char b'/' rest)
check_form url none (some userinfo) =
    raise_if (has_char b':' userinfo) ExcType.remote_url_rejected Fault.password_in_userinfo
check_form url none none = err ExcType.remote_url_rejected Fault.unsupported_form

unfoldable pub validate_remote_url : Text → Result (Unit {0})
validate_remote_url url = do
  raise_if (is_empty url) ExcType.remote_url_rejected Fault.name_missing
  raise_if (starts_with url (b'-' ∷ [])) ExcType.remote_url_rejected Fault.leading_dash
  raise_if (any is_space url) ExcType.remote_url_rejected Fault.whitespace
  check_form url (after_scheme url) (scp_userinfo url)
