-- ===== src/Git/Commit/Laws.antt =====
-- What git_commit() of src/githost_mcp/tools/git_local.py commits, and as whom.
use githost_mcp.Base.{
  none, some, ◌++◌, is_empty, ◌⊎◌, Text, Bool, List, Option, false, [], ◌∷◌, ◌≡◌, codes,
}
use githost_mcp.Identity.Ownership.{Mode}
use githost_mcp.Tools.Host.{Host, History, Call, Commit}
use githost_mcp.Tools.Run.{◌>>=◌, ◌>>◌}
use githost_mcp.Errors.{ok}
use githost_mcp.Security.Globs.{validate_write_globs}
use githost_mcp.Git.Commit.Seen.{Readings, seen, staged_call}
use githost_mcp.Git.Commit.Identity.{Determined}
use githost_mcp.Git.Commit.Author.{Authored}

-- How git is told an author's name and email.
abbrev pub author_words : Option (Text × Text) → List Text
author_words none = []
author_words (some (name, email)) =
    codes "-c" ∷ (codes "user.name=" ++ name) ∷ codes "-c" ∷ (codes "user.email=" ++ email) ∷ []

module _ (host : Host) (message identity : Text) where
  abbrev key : Text
  key = host.config.git_signing_key

  -- Without a key to sign with the commit is GitPython's; with one it is git's, signed with that key.
  abbrev pub IsCommitOf : Text → Text → Option (Text × Text) → Call → Type 0
  IsCommitOf path text actor c =
      ((host.config.git_signing_key ≡ []) × (c ≡ Call.index_commit path text actor))
      ⊎ ((is_empty host.config.git_signing_key ≡ false)
          × (c
              ≡ Call.git path (codes "commit") (
                  author_words actor
                  ++ (codes "-S"
                      ∷ (codes "--gpg-sign=" ++ host.config.git_signing_key)
                      ∷ codes "-m"
                      ∷ text
                      ∷ []))))

  -- One commit, of staged paths in scope, with the message and the author of the identity's mode.
  abbrev pub Made : Readings → Readings → Type 0
  Made before after =
      (path : Text) × (valid : Bool) × (staged : List Text) × (chosen : Mode × Text)
      × (written : Text × Option (Text × Text)) × ((c : Call) × (after.commits ≡ c ∷ before.commits)
          × IsCommitOf path written.0 written.1 c)
      × (after.head_checks ≡ (Call.head_is_valid path, ok valid) ∷ before.head_checks)
      × (after.staged ≡ (staged_call valid path, ok staged) ∷ before.staged)
      × (validate_write_globs host.config staged ≡ ok tt)
      × Determined host path identity chosen before.remotes after.remotes
      × Authored host path message chosen.0 written before after.names after.emails

  abbrev pub Committed : Readings → Readings → Type 0
  Committed before after = (after.commits ≡ before.commits) ⊎ Made before after

  abbrev Sound : Readings → History → Type 0
  Sound before h = Committed before (seen host h)
