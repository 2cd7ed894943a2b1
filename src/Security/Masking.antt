-- ===== src/Security/Masking.antt =====
-- mask_credentials(), redact_url_credentials() and scrub() of src/githost_mcp/security.py.
pub mod Laws
pub mod Secrets
use githost_mcp.Base.{
  true, ◌-◌, ◌++◌, ◌+◌, take, is_empty, ◌||◌, ◌&&◌, some, ◌==◌, none, suc, not, false, [], ◌∷◌, ℕ,
  zero, if◌then◌else◌, Option, List, Text, Bool, codes, replace, ltb, length, take_while,
  drop_while, is_space,
}
use githost_mcp.Config.System.{Config}
use githost_mcp.Security.Chars.{is_letter, is_scheme_char, is_scheme_tail_char}
use githost_mcp.Security.Urls.{after_separator}

abbrev pub stars : Text
stars = b'*' ∷ b'*' ∷ b'*' ∷ []

-- The secrets of a configuration, in the order in which they are masked.
unfoldable pub secrets : Config → List Text
secrets config =
    config.github_token ∷ config.gitea_token ∷ config.gitlab_token ∷ config.woodpecker_token
    ∷ config.pypi_token ∷ config.pypi_test_token ∷ config.npm_token ∷ config.audit_signing_key
    ∷ config.auth_token ∷ []

-- `if token and len(token) > 4: result = result.replace(token, "***")`
abbrev pub mask_token : Text → Text → Text
mask_token token text = if ltb 4 (length token) then replace token stars text else text

unfoldable pub mask_all : List Text → Text → Text
mask_all [] text = text
mask_all (token ∷ tokens) text = mask_all tokens (mask_token token text)

unfoldable pub mask_credentials : Config → Text → Text
mask_credentials config = mask_all (secrets config)

-- `[^/@\s]`
abbrev pub is_userinfo_char : ℕ → Bool
is_userinfo_char c = not (c == b'/' || c == b'@' || is_space c)

-- A match of `(?P<pre>…)(?P<scheme>…://)[^/@\s]++@` at the head of a text: how many characters
-- `pre` and `scheme` take, and how many stand in front of its `@`. The quantifiers are possessive,
-- so there is one way to match at most.
abbrev pub userinfo_end : ℕ → Text → Option (ℕ × ℕ)
userinfo_end kept s =
    let userinfo = take_while is_userinfo_char s in
    elim (drop_while is_userinfo_char s) [
      | [] ↦ none
      | c ∷ rest ↦
          if c == b'@' && not (is_empty userinfo) then some (kept, kept + length userinfo) else none
    ]

unfoldable pub match_userinfo : Text → Option (ℕ × ℕ)
match_userinfo s =
    let pre = take_while is_scheme_tail_char s in
    elim (drop_while is_scheme_tail_char s) [
      | [] ↦ none
      | c ∷ more ↦
          let scheme = take_while is_scheme_char more in
          if is_letter c
          then elim (after_separator (drop_while is_scheme_char more)) [
            | none ↦ none
            | some rest ↦ userinfo_end (length pre + 1 + length scheme + 3) rest
          ]
          else none
    ]

-- `_URL_USERINFO_RE.sub(…)`: `inside` says that the character before is a scheme character, where
-- the lookbehind lets no match begin; `skip` counts the characters of a userinfo still to be
-- passed. The `@` that ends a match is copied from the text, where no other match can begin.
unfoldable pub redact_from : ℕ → Bool → Text → Text
redact_from skip inside [] = []
redact_from (suc skip) inside (c ∷ s) = redact_from skip (is_scheme_char c) s
redact_from zero true (c ∷ s) = c ∷ redact_from zero (is_scheme_char c) s
redact_from zero false (c ∷ s) = elim (match_userinfo (c ∷ s)) [
  | none ↦ c ∷ redact_from zero (is_scheme_char c) s
  | some (kept, taken) ↦
      take kept (c ∷ s) ++ (stars ++ redact_from (taken - 1) (is_scheme_char c) s)
]

unfoldable pub redact_url_credentials : Text → Text
redact_url_credentials = redact_from zero false

unfoldable pub scrub : Config → Text → Text
scrub config text = redact_url_credentials (mask_credentials config text)
