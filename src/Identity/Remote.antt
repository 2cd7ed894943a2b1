-- ===== src/Identity/Remote.antt =====
-- _parse_remote(), _is_local_path_remote(), _is_forge_controlled(), _repo_full_name(),
-- github_forge_owned_repos() and classify_fork_provenance() of src/githost_mcp/identity.py.
use githost_mcp.Base.{
  ◌-◌, ◌++◌, ◌&&◌, text_eq, none, map, length, ◌==◌, text_mem, take, some, or_default, not,
  lstrip_char, is_empty, [], ◌∷◌, ◌||◌, true, if◌then◌else◌, false, Option, List, Text, Bool, codes,
  starts_with, ends_with, split_on, before_char, take_while, drop_while,
}
use githost_mcp.Errors.{Result, ok, err, ◌>>=◌, ExcType, Fault}
use githost_mcp.Security.Urls.{after_scheme, not_slash_at_colon, split_userinfo}

-- The parts of `urlsplit(url)` that are read; `hostname` is `none` where it is None.
pub record SplitUrl : Type 0 where
  pub hostname : Option Text
  pub path : Text

-- `^(?P<scheme>[a-zA-Z][a-zA-Z0-9+.\-]*)://(?P<rest>.+)$`: one character at least follows, and a
-- newline nowhere but at the end.
abbrev pub dots_to_end : Text → Bool
dots_to_end [] = false
dots_to_end (c ∷ []) = not (c == 10)
dots_to_end (c ∷ d ∷ rest) = not (c == 10) && (dots_to_end (d ∷ rest) || (d == 10 && is_empty rest))

unfoldable pub matches_scheme_remote : Text → Bool
matches_scheme_remote url = elim (after_scheme url) [ none ↦ false | some rest ↦ dots_to_end rest ]

-- `(?P<host>[^/@:]+):(?P<path>[^:].*)$`: the host and the path. The path group leaves a final
-- newline out.
abbrev pub drop_newline : Text → Text
drop_newline [] = []
drop_newline (c ∷ []) = if c == 10 then [] else c ∷ []
drop_newline (c ∷ d ∷ rest) = c ∷ drop_newline (d ∷ rest)

abbrev pub no_inner_newline : Text → Bool
no_inner_newline [] = true
no_inner_newline (c ∷ []) = true
no_inner_newline (c ∷ d ∷ rest) = not (c == 10) && no_inner_newline (d ∷ rest)

abbrev pub scp_tail : Text → Text → Option (Text × Text)
scp_tail host (c ∷ d ∷ rest) =
    if c == b':' && (not (d == b':') && (not (is_empty host) && no_inner_newline rest))
    then some (host, d ∷ drop_newline rest)
    else none
scp_tail host _ = none

unfoldable pub host_path : Text → Option (Text × Text)
host_path s = scp_tail (take_while not_slash_at_colon s) (drop_while not_slash_at_colon s)

-- A match of the scp form, the one with a userinfo tried first.
unfoldable pub match_scp_remote : Text → Option (Text × Text)
match_scp_remote url =
    let plain = host_path url in
    elim (split_userinfo url) [
      | none ↦ plain
      | some (userinfo, rest) ↦ elim (host_path rest) [ some hp ↦ some hp | none ↦ plain ]
    ]

-- `url.startswith(("/", "./", "../", "~"))`, or a Windows drive.
abbrev pub is_drive : Text → Bool
is_drive (a ∷ b ∷ c ∷ rest) = b == b':' && (c == b'\\' || c == b'/')
is_drive _ = false

unfoldable pub is_local_path_remote : Text → Bool
is_local_path_remote url =
    starts_with url (codes "/")
    || starts_with url (codes "./")
    || starts_with url (codes "../")
    || starts_with url (codes "~")
    || is_drive url

-- `path.removesuffix(".git")`
unfoldable pub remove_suffix : Text → Text → Text
remove_suffix suffix s = if ends_with s suffix then take (length s - length suffix) s else s

-- `owner/repo` of a path, where it has two segments to name.
abbrev pub name_of_parts : List Text → Option Text
name_of_parts (a ∷ b ∷ rest) = if is_empty a || is_empty b then none else some (a ++ (b'/' ∷ b))
name_of_parts _ = none

abbrev pub name_of_path : Text → Option Text
name_of_path path = name_of_parts (split_on b'/' (remove_suffix (codes ".git") path))

-- The account that a host's path begins with.
abbrev pub owner_of : Text → Text → Option (Text × Text)
owner_of host path =
    let owner = before_char b'/' path in if is_empty owner then none else some (host, owner)

module _ (lower : Text → Text) where
  -- `owner.lower() in {o.lower() for o in forge_owners}`
  unfoldable pub is_owned : List Text → Text → Bool
  is_owned forge_owners owner = text_mem (lower owner) (map lower forge_owners)

  -- The two grounds on a parsed remote.
  abbrev pub controls : List Text → Text → Text × Text → Bool
  controls forge_owners gitea_host (host, owner) =
      (not (is_empty gitea_host) && text_eq host (lower gitea_host)) || is_owned forge_owners owner

  abbrev pub judge : List Text → Text → Option (Text × Text) → Result Bool
  judge forge_owners gitea_host none = err ExcType.identity_undetermined Fault.unparsed_remote
  judge forge_owners gitea_host (some parsed) = ok (controls forge_owners gitea_host parsed)

  unfoldable pub classify_fork_provenance : Bool → Option Text → List Text → Text
  classify_fork_provenance is_fork parent forge_owners = elim parent [
    | none ↦ codes "own"
    | some name ↦
        if not is_fork || is_empty name || is_owned forge_owners (before_char b'/' name)
        then codes "own"
        else codes "third-party"
  ]

module _ (lower : Text → Text) (urlsplit : Text → Result SplitUrl) where
  -- What an URL with a scheme gives, once it is split.
  unfoldable pub parse_split : SplitUrl → Option (Text × Text)
  parse_split u =
      let host = or_default u.hostname [] in
      let path = lstrip_char b'/' u.path in
      if is_empty host || is_empty path then none else owner_of (lower host) path

  unfoldable pub parse_remote : Text → Result (Option (Text × Text))
  parse_remote url = elim (matches_scheme_remote url) [
    | true ↦ (urlsplit url >>= λ u. ok (parse_split u))
    | false ↦ elim (match_scp_remote url) [
      | none ↦ ok none
      | some (host, path) ↦ ok (owner_of (lower host) (lstrip_char b'/' path))
    ]
  ]

  unfoldable pub repo_full_name : Text → Result (Option Text)
  repo_full_name url = elim (matches_scheme_remote url) [
    | true ↦ (urlsplit url >>= λ u. ok (name_of_path (lstrip_char b'/' u.path)))
    | false ↦ elim (match_scp_remote url) [
      | none ↦ ok none
      | some (host, path) ↦ ok (name_of_path (lstrip_char b'/' path))
    ]
  ]

  unfoldable pub is_forge_controlled : Text → List Text → Text → Result Bool
  is_forge_controlled url forge_owners gitea_host = elim (is_local_path_remote url) [
    | true ↦ ok true
    | false ↦ (parse_remote url >>= judge lower forge_owners gitea_host)
  ]

  -- One round of the loop over the remotes' URLs.
  abbrev pub github_name : List Text → Text → Option (Text × Text) → Result (Option Text)
  github_name forge_owners url none = ok none
  github_name forge_owners url (some (host, owner)) =
      if text_eq host (codes "github.com") && is_owned lower forge_owners owner
      then repo_full_name url
      else ok none

  abbrev pub add_name : Option Text → List Text → List Text
  add_name none names = names
  add_name (some n) names = n ∷ names

  unfoldable pub github_names : List Text → List Text → Result (List Text)
  github_names forge_owners [] = ok []
  github_names forge_owners (url ∷ urls) = parse_remote url >>= λ parsed.
      github_name forge_owners url parsed >>= λ name.
      github_names forge_owners urls >>= λ names. ok (add_name name names)
