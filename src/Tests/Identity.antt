-- ===== src/Tests/Identity.antt =====
-- src/githost_mcp/identity.py and bootstrap.py at concrete inputs.
use githost_mcp.Base.{
  Any, ◌↔◌, true, refl, none, false, ◌≡◌, ◌∷◌, text_eq, some, [], Text, List, codes,
}
use githost_mcp.Errors.{Result, ok, succeeds}
use githost_mcp.Identity.Remote.{SplitUrl}
use githost_mcp.Identity.Ownership.{Mode, RepoOwnership, resolve_ownership}
use githost_mcp.Identity.Ownership.Laws.{
  Fails, ThirdParty, checked, resolve_ownership-Fails, resolve_ownership-public,
}
use githost_mcp.Bootstrap.Segments.{validate_segment}
use githost_mcp.Bootstrap.Segments.Laws.{IsSegment, validate_segment_iff}
use githost_mcp.Bootstrap.Clone.{clone_url, origin_is}
use githost_mcp.Security.Urls.{validate_remote_url}

abbrev same_text : Text → Text
same_text t = t

abbrev no_split : Text → Result SplitUrl
no_split t = ok (record { hostname = none; path = t })

-- Ours, with another project's repository behind it.
abbrev remotes : List (Text × Text)
remotes =
    (codes "origin", codes "git@github.com:us/tool.git")
    ∷ (codes "fork", codes "git@github.com:them/tool.git")
    ∷ []

abbrev owners : List Text
owners = codes "us" ∷ []

abbrev mixed : RepoOwnership
mixed = record {
  mode = Mode.public;
  reason = codes "third-party remote(s): fork";
  third_party_remotes = codes "fork" ∷ [];
}

mixed_resolved : resolve_ownership same_text no_split remotes owners [] ≡ ok mixed
unfolding resolve_ownership githost_mcp.Identity.Ownership.third_party
    githost_mcp.Identity.Ownership.sorted_items githost_mcp.Identity.Ownership.insert_item
    githost_mcp.Base.text_le codes githost_mcp.Identity.Remote.is_forge_controlled
    githost_mcp.Identity.Remote.is_local_path_remote githost_mcp.Base.starts_with
    githost_mcp.Identity.Remote.parse_remote githost_mcp.Identity.Remote.matches_scheme_remote
    githost_mcp.Security.Urls.after_scheme githost_mcp.Base.drop_while
    githost_mcp.Security.Chars.is_scheme_char githost_mcp.Identity.Remote.match_scp_remote
    githost_mcp.Security.Urls.split_userinfo githost_mcp.Base.take_while
    githost_mcp.Identity.Remote.host_path githost_mcp.Base.before_char githost_mcp.Base.lstrip_char
    githost_mcp.Identity.Remote.is_owned githost_mcp.Base.text_mem text_eq githost_mcp.Base.join
mixed_resolved = refl

resolve_ownership-public_example :
    (mixed.mode ≡ Mode.public) ↔ Any (ThirdParty (checked same_text no_split owners [])) remotes
resolve_ownership-public_example =
    resolve_ownership-public same_text no_split remotes owners [] mixed mixed_resolved

resolve_ownership-Fails_example :
    (succeeds (resolve_ownership same_text no_split remotes owners []) ≡ false)
    ↔ Any (Fails (checked same_text no_split owners [])) remotes
resolve_ownership-Fails_example = resolve_ownership-Fails same_text no_split remotes owners []

validate_segment_iff_example :
    (validate_segment (some (codes "my-repo")) ≡ ok (codes "my-repo"))
    ↔ (IsSegment (codes "my-repo") × (codes "my-repo" ≡ codes "my-repo"))
validate_segment_iff_example = validate_segment_iff (codes "my-repo") (codes "my-repo")

segment_tests :
    (validate_segment (some (codes "my-repo")) ≡ ok (codes "my-repo"))
    × (succeeds (validate_segment (some (codes ".."))) ≡ false)
    × (succeeds (validate_segment (some (codes "a.GIT"))) ≡ false)
unfolding validate_segment codes githost_mcp.Bootstrap.Segments.bad_shape text_eq
    githost_mcp.Base.starts_with githost_mcp.Bootstrap.Segments.matches_segment
    githost_mcp.Bootstrap.Segments.is_segment_char githost_mcp.Base.ends_with
segment_tests = (refl, refl, refl)

-- The URL of a clone passes the URL check, and is recognised as the repository's.
clone_tests :
    (succeeds (
        validate_remote_url
          (clone_url (codes "gitea") (codes "us") (codes "tool") (codes "git.home")))
      ≡ true)
    × (origin_is same_text no_split
          (some (clone_url (codes "gitea") (codes "us") (codes "tool") (codes "git.home")))
          (codes "gitea")
          (codes "us")
          (codes "tool")
          (codes "git.home")
        ≡ ok true)
unfolding validate_remote_url clone_url codes githost_mcp.Base.starts_with githost_mcp.Base.is_space
    text_eq githost_mcp.Security.Urls.check_form githost_mcp.Security.Urls.after_scheme
    githost_mcp.Base.drop_while githost_mcp.Security.Chars.is_scheme_char
    githost_mcp.Security.Urls.scp_userinfo githost_mcp.Security.Urls.split_userinfo
    githost_mcp.Base.take_while githost_mcp.Security.Urls.is_host_path origin_is
    githost_mcp.Identity.Remote.parse_remote githost_mcp.Identity.Remote.matches_scheme_remote
    githost_mcp.Identity.Remote.match_scp_remote githost_mcp.Identity.Remote.host_path
    githost_mcp.Identity.Remote.repo_full_name githost_mcp.Base.before_char
    githost_mcp.Base.lstrip_char githost_mcp.Base.split_on githost_mcp.Identity.Remote.remove_suffix
    githost_mcp.Base.ends_with
clone_tests = (refl, refl)
