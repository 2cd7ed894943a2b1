-- ===== src/Bootstrap/Clone.antt =====
-- clone_url(), raw_clone_destination(), clone_destination(), origin_is(), occupied_message() and
-- clone_args() of src/githost_mcp/bootstrap.py.
use githost_mcp.Base.{
  ◌||◌, ◌&&◌, none, is_empty, some, or_default, [], ◌∷◌, ℕ, text_eq, false, ◌++◌, if◌then◌else◌,
  Option, List, Text, Bool, codes, starts_with, ends_with, decimal,
}
use githost_mcp.Errors.{Result, ok, ◌>>=◌}
use githost_mcp.Identity.Remote.{SplitUrl, parse_remote, repo_full_name}
use githost_mcp.Security.Masking.{redact_url_credentials}
use githost_mcp.Security.Paths.{Resolved, canonical_path}

abbrev pub host_of : Text → Text → Text
host_of provider gitea_host =
    if text_eq provider (codes "github") then codes "github.com" else gitea_host

unfoldable pub clone_url : Text → Text → Text → Text → Text
clone_url provider owner repo gitea_host =
    codes "git@"
    ++ (host_of provider gitea_host ++ (b':' ∷ (owner ++ (b'/' ∷ (repo ++ codes ".git")))))

-- os.path.join() of two parts.
unfoldable pub path_join : Text → Text → Text
path_join a b =
    if starts_with b (b'/' ∷ [])
    then b
    else if is_empty a || ends_with a (b'/' ∷ [])
    then a ++ b
    else a ++ (b'/' ∷ b)

unfoldable pub raw_clone_destination : (Text → Text) → Text → Text → Text → Text
raw_clone_destination expand_user provider owner repo =
    if text_eq provider (codes "github")
    then path_join (expand_user (codes "~/repos/personal")) repo
    else path_join (expand_user (codes "~/repos/gitea"))
        (if starts_with repo (owner ++ (b'-' ∷ [])) then repo else owner ++ (b'-' ∷ repo))

unfoldable pub clone_destination :
    (Text → Resolved) → (Text → Text) → Text → Text → Text → Result (List Text)
clone_destination resolve expand_user provider owner repo =
    canonical_path resolve (raw_clone_destination expand_user provider owner repo)

module _ (lower : Text → Text) (urlsplit : Text → Result SplitUrl) where
  -- The comparison of the two parses with the repository that is meant.
  abbrev pub same_repo : Text → Text → Text → Text → Option (Text × Text) → Option Text → Bool
  same_repo provider owner repo gitea_host (some (host, _)) (some full_name) =
      text_eq host (lower (host_of provider gitea_host))
      && text_eq (lower full_name) (lower (owner ++ (b'/' ∷ repo)))
  same_repo provider owner repo gitea_host _ _ = false

  unfoldable pub origin_is : Option Text → Text → Text → Text → Text → Result Bool
  origin_is none provider owner repo gitea_host = ok false
  origin_is (some []) provider owner repo gitea_host = ok false
  origin_is (some (c ∷ url)) provider owner repo gitea_host =
      parse_remote lower urlsplit (c ∷ url) >>= λ parsed.
      repo_full_name lower urlsplit (c ∷ url) >>= λ full_name.
      ok (same_repo provider owner repo gitea_host parsed full_name)

  unfoldable pub occupied_message : Text → Option Text → Text → Text → Text → Text → Result Text
  occupied_message dest origin provider owner repo gitea_host =
      let full_name = owner ++ (b'/' ∷ repo) in
      let elsewhere = elim (or_default origin []) as (λ t. Text) [
        | [] ↦
            dest
            ++ (codes " already exists and is not a checkout of "
                ++ (full_name ++ codes ". Nothing was cloned."))
        | c ∷ url ↦
            dest
            ++ (codes " is occupied by a checkout of "
                ++ (redact_url_credentials (c ∷ url)
                    ++ (codes ", not "
                        ++ (full_name
                            ++ (codes ". Nothing was cloned. Where "
                                ++ (full_name
                                    ++ codes " should live instead is an operator decision."))))))
      ] in
      origin_is origin provider owner repo gitea_host >>= λ same. ok (
        if same
        then full_name ++ (codes " is already cloned at " ++ (dest ++ codes "; use that checkout."))
        else elsewhere)

unfoldable pub clone_args : Option ℕ → Option Text → List Text
clone_args depth branch =
    let deep : List Text = elim depth [ none ↦ [] | some n ↦ codes "--depth" ∷ decimal n ∷ [] ] in
    let named : List Text = elim branch [ none ↦ [] | some b ↦ codes "--branch" ∷ b ∷ [] ] in
    codes "--no-recurse-submodules" ∷ (deep ++ named)
