-- ===== src/Security/Urls/Laws.antt =====
-- The remote URLs that validate_remote_url() refuses: remote helpers, and embedded credentials.
use githost_mcp.Base.{
  any-after_char, reverse-append_cons, ap, ◌∙◌, reverse, ◌==◌, before_char-append, after_char,
  before_char, any-reverse, Option, starts_with, any, Bool, take_while, any-append,
  take_while-append, subst, Option-cases, inr, ◌≢◌, inl, ℕ, some, Bool-cases, drop_while-append,
  none, false, [], ◌∷◌, true, ◌++◌, drop_while, all, Text, ◌≡◌, refl, arith, has_char,
}
use githost_mcp.Errors.{ok, succeeds}
use githost_mcp.Security.Chars.{is_letter, is_scheme_char}
use githost_mcp.Security.Urls.{
  check_authority, login_userinfo_schemes, before_last, not_slash_at, not_slash_at_colon,
  after_separator, after_scheme, is_host_path, at_sign, split_userinfo, scp_userinfo, check_form,
  validate_remote_url,
}

abbrev pub helper_url : Text → Text → Text
helper_url helper rest = helper ++ (b':' ∷ b':' ∷ rest)

after_separator_ne : (c : ℕ) (t : Text) → c ≢ b':' → after_separator (c ∷ t) ≡ none
after_separator_ne c [] n = refl
after_separator_ne c (d ∷ []) n = refl
after_separator_ne c (d ∷ e ∷ rest) n = ground arith

double_colon : (rest : Text) → after_separator (b':' ∷ b':' ∷ rest) ≡ none
double_colon [] = refl
double_colon (c ∷ rest) = refl

drop_while-helper_url :
    (h rest : Text)
    → all not_slash_at_colon h ≡ true
    → after_separator (drop_while is_scheme_char (helper_url h rest)) ≡ none
unfolding drop_while
drop_while-helper_url [] rest n = unfold is_scheme_char in double_colon rest
drop_while-helper_url (c ∷ h) rest n = elim (Bool-cases (is_scheme_char c)) [
  | inl p ↦ rw p (drop_while-helper_url h rest (ground arith))
  | inr p ↦ rw p (after_separator_ne c (helper_url h rest) (ground arith))
]

after_scheme-helper_url :
    (h rest : Text) → all not_slash_at_colon h ≡ true → after_scheme (helper_url h rest) ≡ none
unfolding after_scheme
after_scheme-helper_url [] rest n = refl
after_scheme-helper_url (c ∷ h) rest n = ground (arith, drop_while-helper_url h rest)

is_host_path-helper_url :
    (h rest : Text) → all not_slash_at_colon h ≡ true → is_host_path (helper_url h rest) ≡ false
unfolding is_host_path
is_host_path-helper_url h rest n =
    rw (drop_while-append not_slash_at_colon h (b':' ∷ b':' ∷ rest) n)
      (unfold drop_while in ground arith)

not_slash_at_of : (h : Text) → all not_slash_at_colon h ≡ true → all not_slash_at h ≡ true
not_slash_at_of [] n = refl
not_slash_at_of (c ∷ h) n = ground (arith, not_slash_at_of h)

at_sign-userinfo : (w s : Text) {u r : Text} → at_sign w s ≡ some (u, r) → w ≡ u
at_sign-userinfo w [] e = absurd (ground arith)
at_sign-userinfo w (c ∷ s) e = ground arith

-- A userinfo group that takes part reaches over the helper's two colons.
split_userinfo-helper_url :
    (h rest u r : Text)
    → all not_slash_at_colon h ≡ true
    → split_userinfo (helper_url h rest) ≡ some (u, r)
    → has_char b':' u ≡ true
unfolding split_userinfo
split_userinfo-helper_url h rest u r n e =
    subst (λ t. has_char b':' t ≡ true) {x = take_while not_slash_at (helper_url h rest)}
      (at_sign-userinfo _ (drop_while not_slash_at (helper_url h rest)) e)
      (rw (take_while-append not_slash_at h (b':' ∷ b':' ∷ rest) (not_slash_at_of h n))
        (rw any-append (unfold take_while in ground arith)))

scp_userinfo-helper_url :
    (h rest u : Text)
    → all not_slash_at_colon h ≡ true
    → scp_userinfo (helper_url h rest) ≡ some u
    → has_char b':' u ≡ true
unfolding scp_userinfo
scp_userinfo-helper_url h rest u n e = elim (Option-cases (split_userinfo (helper_url h rest))) [
  | inl p ↦ absurd (ground (arith, is_host_path-helper_url h rest n))
  | inr ((w, r), p) ↦
      let colon = split_userinfo-helper_url h rest w r n p in
      ground (arith, is_host_path-helper_url h rest n)
]

check_scp :
    (h rest : Text)
    → all not_slash_at_colon h ≡ true
    → succeeds (check_form (helper_url h rest) none (scp_userinfo (helper_url h rest))) ≡ false
unfolding check_form
check_scp h rest n = elim (Option-cases (scp_userinfo (helper_url h rest))) [
  | inl p ↦ rw p
  | inr (u, p) ↦ rw (p, scp_userinfo-helper_url h rest u n p)
]

check_form_failed :
    (url : Text)
    → succeeds (check_form url (after_scheme url) (scp_userinfo url)) ≡ false
    → succeeds (validate_remote_url url) ≡ false
unfolding validate_remote_url
check_form_failed url h = ground arith

-- A URL of the form <helper>::<rest>, which git would hand to a remote helper command, is refused
-- whatever the rest is, for every helper text without `/`, `@` and `:`.
pub validate_remote_url-helper_url :
    (h rest : Text)
    → all not_slash_at_colon h ≡ true
    → succeeds (validate_remote_url (helper_url h rest)) ≡ false
validate_remote_url-helper_url h rest n =
    check_form_failed (helper_url h rest)
      (rw (after_scheme-helper_url h rest n) (check_scp h rest n))

-- The text `<scheme>://<userinfo>@<rest>`, the scheme being `c` followed by `s`.
abbrev pub userinfo_url : ℕ → Text → Text → Text → Text
userinfo_url c s u rest = c ∷ (s ++ (b':' ∷ b'/' ∷ b'/' ∷ (u ++ (b'@' ∷ rest))))

after_scheme-userinfo_url :
    (c : ℕ) (s u rest : Text)
    → is_letter c ≡ true
    → all is_scheme_char s ≡ true
    → after_scheme (userinfo_url c s u rest) ≡ some (u ++ (b'@' ∷ rest))
unfolding after_scheme
after_scheme-userinfo_url c s u rest l a =
    rw (l, drop_while-append is_scheme_char s (b':' ∷ b'/' ∷ b'/' ∷ (u ++ (b'@' ∷ rest))) a)
      (unfold drop_while is_scheme_char in refl)

has_char-before_last :
    (p : ℕ → Bool) (u w : Text) → any p u ≡ true → any p (before_last b'@' (u ++ (b'@' ∷ w))) ≡ true
has_char-before_last p u w h =
    rw (any-reverse p (after_char b'@' (reverse (u ++ (b'@' ∷ w)))), reverse-append_cons u b'@' w)
      (any-after_char p b'@' (reverse w) (reverse u) (rw (any-reverse p u) h))

validate_remote_url-eq-ok :
    (url : Text)
    → validate_remote_url url ≡ ok tt
    → check_form url (after_scheme url) (scp_userinfo url) ≡ ok tt
unfolding validate_remote_url
validate_remote_url-eq-ok url h = ground arith

check_form-eq-ok :
    (url rest : Text) (scp : Option Text)
    → check_form url (some rest) scp ≡ ok tt
    → check_authority url (before_char b'/' rest) ≡ ok tt
unfolding check_form
check_form-eq-ok url rest scp h = ground arith

-- What the check of an authority with a userinfo part lets through.
check_authority_userinfo :
    (url u w : Text)
    → check_authority url (u ++ (b'@' ∷ w)) ≡ ok tt
    → (has_char b':' u ≡ false) × (any (starts_with url) login_userinfo_schemes ≡ true)
unfolding check_authority
check_authority_userinfo url u w h = elim (Bool-cases (has_char b':' u)) [
  | inl e ↦ absurd (
      ground (
        arith,
        any-append (λ x. x == b'@') u (b'@' ∷ w),
        has_char-before_last (λ x. x == b':') u w e,
      ))
  | inr e ↦ (e, ground (arith, any-append (λ x. x == b'@') u (b'@' ∷ w)))
]

authority-userinfo :
    (u rest : Text)
    → has_char b'/' u ≡ false
    → before_char b'/' (u ++ (b'@' ∷ rest)) ≡ u ++ (b'@' ∷ before_char b'/' rest)
authority-userinfo u rest n =
    before_char-append b'/' u (b'@' ∷ rest) n ∙ ap (λ t. u ++ t) (unfold before_char in refl)

-- Where an accepted URL reads <scheme>://<userinfo>@<rest>, with no slash in the userinfo, the
-- userinfo holds no colon and the scheme is one of the login schemes.
pub validate_remote_url-userinfo_url :
    (c : ℕ) (s u rest : Text)
    → is_letter c ≡ true
    → all is_scheme_char s ≡ true
    → has_char b'/' u ≡ false
    → validate_remote_url (userinfo_url c s u rest) ≡ ok tt
    → (has_char b':' u ≡ false)
      × (any (starts_with (userinfo_url c s u rest)) login_userinfo_schemes ≡ true)
validate_remote_url-userinfo_url c s u rest l a n h =
    let url = userinfo_url c s u rest in
    let form = rw (after_scheme-userinfo_url c s u rest l a) at (validate_remote_url-eq-ok url h) in
    let checked = check_form-eq-ok url (u ++ (b'@' ∷ rest)) (scp_userinfo url) form in
    check_authority_userinfo url u (before_char b'/' rest)
      (rw (authority-userinfo u rest n) at checked)
