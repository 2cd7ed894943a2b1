-- ===== src/Identity/Ownership.antt =====
-- resolve_ownership() and resolve_public_identity() of src/githost_mcp/identity.py. A repository's
-- remotes are a dict from names to URLs.
pub mod Laws
use githost_mcp.Base.{
  text_le, ◌&&◌, ◌==◌, ◌||◌, ◌++◌, false, [], ◌∷◌, is_empty, true, if◌then◌else◌, List, Text, Bool,
  codes, ends_with, join, ltb,
}
use githost_mcp.Errors.{Result, ok, err, ◌>>=◌, ExcType, Fault}
use githost_mcp.Identity.Remote.{SplitUrl, is_forge_controlled}

pub data Mode : Type 0 where
  agent public : Mode

pub record RepoOwnership : Type 0 where
  pub mode : Mode
  pub reason : Text
  pub third_party_remotes : List Text

-- `sorted(d.items())`: insertion by name, names being distinct.
unfoldable pub insert_item : Text × Text → List (Text × Text) → List (Text × Text)
insert_item e [] = e ∷ []
insert_item e (x ∷ rest) =
    let more = insert_item e rest in if text_le e.0 x.0 then e ∷ x ∷ rest else x ∷ more

unfoldable pub sorted_items : List (Text × Text) → List (Text × Text)
sorted_items [] = []
sorted_items (e ∷ rest) = insert_item e (sorted_items rest)

-- An exception of a remote's check, with the remote's name added if it is the one that says so.
abbrev pub name_error : Text → ExcType → Fault → Result Bool
name_error name ExcType.identity_undetermined f =
    err ExcType.identity_undetermined (Fault.unparsed_remote_named name)
name_error name t f = err t f

abbrev pub or_named : Text → Result Bool → Result Bool
or_named name (ok b) = ok b
or_named name (err t f) = name_error name t f

abbrev pub add_third_party : Text → Bool → List Text → List Text
add_third_party name true names = names
add_third_party name false names = name ∷ names

abbrev pub ownership_of : List Text → RepoOwnership
ownership_of [] = record {
  mode = Mode.agent;
  reason = codes "all remotes are forge-controlled";
  third_party_remotes = [];
}
ownership_of (n ∷ names) = record {
  mode = Mode.public;
  reason = codes "third-party remote(s): " ++ join (codes ", ") (n ∷ names);
  third_party_remotes = n ∷ names;
}

module _ (check : Text → Result Bool) where
  -- The loop over the sorted remotes; `check` is _is_forge_controlled() at the settings.
  unfoldable pub third_party : List (Text × Text) → Result (List Text)
  third_party [] = ok []
  third_party ((name, url) ∷ rest) = or_named name (check url) >>= λ controlled.
      third_party rest >>= λ names. ok (add_third_party name controlled names)

unfoldable pub resolve_ownership :
    (lower : Text → Text) (urlsplit : Text → Result SplitUrl)
    → List (Text × Text)
    → List Text
    → Text
    → Result RepoOwnership
resolve_ownership lower urlsplit [] forge_owners gitea_host =
    ok (record {
      mode = Mode.agent;
      reason = codes "no remotes configured";
      third_party_remotes = [];
    })
resolve_ownership lower urlsplit (r ∷ remotes) forge_owners gitea_host =
    third_party (λ url. is_forge_controlled lower urlsplit url forge_owners gitea_host)
      (sorted_items (r ∷ remotes))
    >>= λ names. ok (ownership_of names)

unfoldable pub resolve_public_identity : Text → Text → Result (Text × Text)
resolve_public_identity name email =
    if is_empty name || is_empty email
    then err ExcType.identity_undetermined Fault.no_public_identity
    else if ends_with email (codes "@forge") || ends_with name (codes "-agent")
    then err ExcType.identity_undetermined Fault.agent_like_identity
    else ok (name, email)
