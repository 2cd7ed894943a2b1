-- ===== src/Tests/Security.antt =====
-- src/githost_mcp/security.py at concrete inputs.
use githost_mcp.Base.{
  is_space, starts_with, any, ◌↔◌, ◌&&◌, true, refl, length, false, arith, [], ◌≡◌, ◌∷◌, ◌++◌,
  text_mem, split_on, ltb, is_empty, has_char, contains, all, Text, List, All, codes,
}
use githost_mcp.Config.System.{Config, default_config}
use githost_mcp.Errors.{ok, succeeds}
use githost_mcp.Security.Chars.{is_scheme_char}
use githost_mcp.Security.Urls.{not_slash_at_colon, validate_remote_url, login_userinfo_schemes}
use githost_mcp.Security.Urls.Laws.{
  helper_url, userinfo_url, validate_remote_url-helper_url, validate_remote_url-userinfo_url,
}
use githost_mcp.Security.Paths.{Resolved, validate_write_path, validate_read_path, within}
use githost_mcp.Security.Paths.Laws.{
  validate_write_path_iff, validate_read_path_iff, Allowed, IsUsable,
}
use githost_mcp.Security.Globs.{validate_write_globs}
use githost_mcp.Security.Globs.Laws.{IsConfined, validate_write_globs-IsConfined}
use githost_mcp.Security.Names.{validate_branch_name, validate_remote_name, is_control, forbidden}
use githost_mcp.Security.Names.Laws.{
  delete_refspec, validate_branch_name-delete_refspec, IsRemoteName, validate_remote_name_iff,
}
use githost_mcp.Security.Masking.{scrub, secrets, mask_credentials}
use githost_mcp.Security.Masking.Secrets.{scrub-removes}

ext_plain : all not_slash_at_colon (codes "ext") ≡ true
unfolding codes
ext_plain = refl

validate_remote_url-helper_url_example :
    succeeds (validate_remote_url (helper_url (codes "ext") (codes "sh -c id"))) ≡ false
validate_remote_url-helper_url_example =
    validate_remote_url-helper_url (codes "ext") (codes "sh -c id") ext_plain

ssh_letters : all is_scheme_char (codes "sh") ≡ true
unfolding codes is_scheme_char
ssh_letters = refl

git_plain : has_char b'/' (codes "git") ≡ false
unfolding codes
git_plain = refl

ssh_accepted :
    validate_remote_url (userinfo_url b's' (codes "sh") (codes "git") (codes "github.com/a/b.git"))
    ≡ ok tt
unfolding validate_remote_url starts_with is_space codes githost_mcp.Security.Urls.check_form
    githost_mcp.Security.Urls.after_scheme githost_mcp.Base.drop_while
    githost_mcp.Security.Chars.is_scheme_char githost_mcp.Security.Urls.allowed_remote_schemes
    githost_mcp.Security.Urls.check_authority githost_mcp.Base.before_char login_userinfo_schemes
    githost_mcp.Base.after_char
ssh_accepted = refl

validate_remote_url-userinfo_url_example :
    (has_char b':' (codes "git") ≡ false)
    × (any
          (starts_with (userinfo_url b's' (codes "sh") (codes "git") (codes "github.com/a/b.git")))
          login_userinfo_schemes
        ≡ true)
validate_remote_url-userinfo_url_example =
    validate_remote_url-userinfo_url b's' (codes "sh") (codes "git") (codes "github.com/a/b.git")
      refl ssh_letters git_plain ssh_accepted

-- An https URL with a token is refused, and so is a password.
url_tests :
    (succeeds (validate_remote_url (codes "https://token@github.com/a/b.git")) ≡ false)
    × (succeeds (validate_remote_url (codes "ssh://git:pw@github.com/a/b.git")) ≡ false)
    × (succeeds (validate_remote_url (codes "https://github.com/a/b.git")) ≡ true)
    × (succeeds (validate_remote_url (codes "git@github.com:a/b.git")) ≡ true)
    × (succeeds (validate_remote_url (codes "/srv/git/b.git")) ≡ false)
unfolding validate_remote_url codes starts_with is_space githost_mcp.Security.Urls.check_form
    githost_mcp.Security.Urls.after_scheme githost_mcp.Base.drop_while
    githost_mcp.Security.Chars.is_scheme_char githost_mcp.Security.Urls.allowed_remote_schemes
    githost_mcp.Security.Urls.check_authority githost_mcp.Base.before_char login_userinfo_schemes
    githost_mcp.Base.after_char githost_mcp.Security.Urls.scp_userinfo
    githost_mcp.Security.Urls.split_userinfo githost_mcp.Base.take_while
    githost_mcp.Security.Urls.is_host_path
url_tests = (refl, refl, refl, refl, refl)

-- A resolution that takes the text apart at its slashes.
abbrev resolve_parts : Text → Resolved
resolve_parts t = Resolved.path (split_on b'/' t)

abbrev scoped : Config
scoped = record default_config {
  allowed_read_roots = codes "/r" ∷ codes "/w" ∷ [];
  allowed_write_roots = codes "/w" ∷ [];
  write_globs = codes "docs/*" ∷ [];
  write_globs_deny = codes "*.key" ∷ [];
  github_token = codes "ghp_secret";
}

abbrev repo_parts : List Text
repo_parts = [] ∷ codes "w" ∷ codes "repo" ∷ []

abbrev read_parts : List Text
read_parts = [] ∷ codes "r" ∷ codes "repo" ∷ []

write-IsUsable : All (IsUsable resolve_parts) scoped.allowed_write_roots
write-IsUsable = ((λ e. ground arith), tt)

read-IsUsable : All (IsUsable resolve_parts) scoped.allowed_read_roots
read-IsUsable = ((λ e. ground arith), ((λ e. ground arith), tt))

validate_write_path_iff_example :
    (validate_write_path resolve_parts scoped (codes "/w/repo") ≡ ok repo_parts)
    ↔ Allowed resolve_parts scoped.allowed_write_roots (codes "/w/repo") repo_parts
validate_write_path_iff_example =
    validate_write_path_iff resolve_parts scoped (codes "/w/repo") repo_parts write-IsUsable

validate_read_path_iff_example :
    (validate_read_path resolve_parts scoped (codes "/r/repo") ≡ ok read_parts)
    ↔ Allowed resolve_parts scoped.allowed_read_roots (codes "/r/repo") read_parts
validate_read_path_iff_example =
    validate_read_path_iff resolve_parts scoped (codes "/r/repo") read_parts read-IsUsable

path_tests :
    (validate_write_path resolve_parts scoped (codes "/w/repo") ≡ ok repo_parts)
    × (succeeds (validate_write_path resolve_parts scoped (codes "/r/repo")) ≡ false)
unfolding validate_write_path githost_mcp.Security.Paths.validate_path
    githost_mcp.Security.Paths.canonical_path githost_mcp.Security.Paths.check_roots
    githost_mcp.Security.Paths.check_root within split_on codes githost_mcp.Base.text_eq
path_tests = (refl, refl)

globs_set : is_empty scoped.write_globs && is_empty scoped.write_globs_deny ≡ false
globs_set = refl

docs_accepted : validate_write_globs scoped (codes "docs/./a.md" ∷ []) ≡ ok tt
unfolding validate_write_globs githost_mcp.Security.Globs.is_denied
    githost_mcp.Security.Globs.escapes starts_with githost_mcp.Stdlib.Normpath.normpath
    githost_mcp.Stdlib.Normpath.initial_slashes codes githost_mcp.Base.join
    githost_mcp.Stdlib.Normpath.norm_parts githost_mcp.Stdlib.Normpath.resolve_all split_on
    githost_mcp.Stdlib.Normpath.resolve githost_mcp.Base.text_eq
    githost_mcp.Security.Globs.out_of_scope githost_mcp.Stdlib.Fnmatch.fnmatch
    githost_mcp.Stdlib.Fnmatch.matches githost_mcp.Stdlib.Fnmatch.parse
    githost_mcp.Stdlib.Fnmatch.any_suffix
docs_accepted = refl

validate_write_globs-IsConfined_example :
    All (IsConfined scoped.write_globs scoped.write_globs_deny) (codes "docs/./a.md" ∷ [])
validate_write_globs-IsConfined_example =
    validate_write_globs-IsConfined scoped (codes "docs/./a.md" ∷ []) globs_set docs_accepted

glob_tests :
    (succeeds (validate_write_globs scoped (codes "docs/../x.md" ∷ [])) ≡ false)
    × (succeeds (validate_write_globs scoped (codes "docs/a.key" ∷ [])) ≡ false)
unfolding validate_write_globs githost_mcp.Security.Globs.is_denied
    githost_mcp.Security.Globs.escapes starts_with githost_mcp.Stdlib.Normpath.normpath
    githost_mcp.Stdlib.Normpath.initial_slashes codes githost_mcp.Base.join
    githost_mcp.Stdlib.Normpath.norm_parts githost_mcp.Stdlib.Normpath.resolve_all split_on
    githost_mcp.Stdlib.Normpath.resolve githost_mcp.Base.text_eq
    githost_mcp.Security.Globs.out_of_scope githost_mcp.Stdlib.Fnmatch.fnmatch
    githost_mcp.Stdlib.Fnmatch.matches githost_mcp.Stdlib.Fnmatch.parse
    githost_mcp.Stdlib.Fnmatch.any_suffix
glob_tests = (refl, refl)

branch_accepted : validate_branch_name (codes "fix/a-b") ≡ ok tt
unfolding validate_branch_name codes starts_with is_space githost_mcp.Security.Names.check_forbidden
    contains githost_mcp.Base.ends_with
branch_accepted = refl

validate_branch_name-delete_refspec_example :
    (split_on b':' (delete_refspec (codes "fix/a-b"))
      ≡ [] ∷ (codes "refs/heads/" ++ codes "fix/a-b") ∷ [])
    × (starts_with (codes "fix/a-b") (b'-' ∷ []) ≡ false)
    × (any is_space (codes "fix/a-b") ≡ false)
    × (any is_control (codes "fix/a-b") ≡ false)
    × All (λ b. has_char b (codes "fix/a-b") ≡ false) forbidden
validate_branch_name-delete_refspec_example =
    validate_branch_name-delete_refspec (codes "fix/a-b") branch_accepted

validate_remote_name_iff_example :
    (validate_remote_name (codes "origin" ++ (10 ∷ [])) ≡ ok tt)
    ↔ IsRemoteName (codes "origin" ++ (10 ∷ []))
validate_remote_name_iff_example = validate_remote_name_iff (codes "origin" ++ (10 ∷ []))

-- A final newline passes.
remote_name_tests :
    (validate_remote_name (codes "origin" ++ (10 ∷ [])) ≡ ok tt)
    × (succeeds (validate_remote_name (codes "--upload-pack")) ≡ false)
unfolding validate_remote_name codes starts_with githost_mcp.Security.Names.matches_remote_name
    githost_mcp.Security.Names.remote_name_tail githost_mcp.Security.Chars.is_remote_name_char
remote_name_tests = (refl, refl)

token_secret : text_mem (codes "ghp_secret") (secrets scoped) ≡ true
unfolding text_mem secrets githost_mcp.Base.text_eq codes
token_secret = refl

token_long : ltb 4 (length (codes "ghp_secret")) ≡ true
unfolding codes
token_long = refl

token_plain : has_char b'*' (codes "ghp_secret") ≡ false
unfolding codes
token_plain = refl

scrub-removes_example :
    (contains (mask_credentials scoped (codes "x ghp_secret y")) (codes "ghp_secret") ≡ false)
    × (contains (scrub scoped (codes "x ghp_secret y")) (codes "ghp_secret") ≡ false)
scrub-removes_example =
    scrub-removes scoped (codes "x ghp_secret y") (codes "ghp_secret") token_secret token_long
      token_plain

scrub_tests : scrub scoped (codes "https://user:pw@h/ ghp_secret") ≡ codes "https://***@h/ ***"
unfolding codes scrub githost_mcp.Security.Masking.redact_url_credentials
    githost_mcp.Security.Masking.redact_from mask_credentials githost_mcp.Security.Masking.mask_all
    secrets default_config githost_mcp.Base.replace githost_mcp.Security.Masking.match_userinfo
    githost_mcp.Base.drop_while githost_mcp.Security.Chars.is_scheme_tail_char
    githost_mcp.Security.Chars.is_scheme_char is_space githost_mcp.Base.take_while
scrub_tests = refl
