-- ===== src/Release/Left.antt =====
-- What the calls of a release of src/githost_mcp/tools/release.py leave behind, thing by thing.
use githost_mcp.Base.{
  Text, Bool, List, Option, true, false, [], ◌∷◌, ◌≡◌, refl, sym, subst, ◌∙◌, not, starts_with,
  text_eq, text_eq_refl, ◌&&◌, ◌++◌, codes, drop, if◌then◌else◌,
}
use githost_mcp.Errors.{Result, ok, err}
use githost_mcp.Gitflags.{Info, evaluate_push}
use githost_mcp.Tools.Hoare.{Triple, Triple-ask}
use githost_mcp.Tools.Host.{Host, History, Call}
use githost_mcp.Tools.Run.{ask}

-- What is left of the things that calls created, each by the texts that tell it apart.
pub record Things : Type 0 where
  -- the repository's path and the tag's name
  pub tag : List (List Text)
  -- the repository's path, the remote and the full name of the ref
  pub pushed : List (List Text)
  -- the repository and the tag
  pub github : List (List Text)
  -- the address of the release, <releases>/tags/<tag>
  pub gitea : List (List Text)
  -- the project and the tag
  pub gitlab : List (List Text)

abbrev pub nothing : Things
nothing = record { tag = []; pushed = []; github = []; gitea = []; gitlab = [] }

abbrev pub set_tag : List (List Text) → Things → Things
set_tag l c = record {
  tag = l;
  pushed = c.pushed;
  github = c.github;
  gitea = c.gitea;
  gitlab = c.gitlab;
}

abbrev pub set_pushed : List (List Text) → Things → Things
set_pushed l c = record {
  tag = c.tag;
  pushed = l;
  github = c.github;
  gitea = c.gitea;
  gitlab = c.gitlab;
}

abbrev pub set_github : List (List Text) → Things → Things
set_github l c = record {
  tag = c.tag;
  pushed = c.pushed;
  github = l;
  gitea = c.gitea;
  gitlab = c.gitlab;
}

abbrev pub set_gitea : List (List Text) → Things → Things
set_gitea l c = record {
  tag = c.tag;
  pushed = c.pushed;
  github = c.github;
  gitea = l;
  gitlab = c.gitlab;
}

abbrev pub set_gitlab : List (List Text) → Things → Things
set_gitlab l c = record {
  tag = c.tag;
  pushed = c.pushed;
  github = c.github;
  gitea = c.gitea;
  gitlab = l;
}

abbrev pub texts_eq : List Text → List Text → Bool
texts_eq [] [] = true
texts_eq [] (y ∷ ys) = false
texts_eq (x ∷ xs) [] = false
texts_eq (x ∷ xs) (y ∷ ys) = text_eq x y && texts_eq xs ys

abbrev pub remove : List Text → List (List Text) → List (List Text)
remove k [] = []
remove k (x ∷ l) = let rest = remove k l in if texts_eq x k then rest else x ∷ rest

texts_eq_refl : (k : List Text) → texts_eq k k ≡ true
texts_eq_refl [] = refl
texts_eq_refl (x ∷ xs) = rw (text_eq_refl x) (texts_eq_refl xs)

pub remove_self : (k : List Text) → remove k (k ∷ []) ≡ []
remove_self k = rw (texts_eq_refl k) refl

-- A change where the call was answered, and none where it raised.
abbrev pub if_answered : {A : Type 0} → Result A → (Things → Things) → Things → Things
if_answered (ok a) change c = change c
if_answered (err t f) change c = c

abbrev IfFalse : Type 0 → Bool → Type 0
IfFalse X false = X
IfFalse X true = Unit {0}

pub absurd_bool : {X : Type 0} → false ≡ true → X
absurd_bool e = subst (IfFalse _) (sym e) tt

module _ (host : Host) where
  abbrev pub took : Result (List Info × Option Text) → Bool
  took (ok pushed) = not (evaluate_push host.push_flags host.config pushed.0 pushed.1).failed
  took (err t f) = false

  abbrev pub after_push : List Text → List Text → Bool → Bool → Things → Things
  after_push added deleted true taken c = set_pushed (remove deleted c.pushed) c
  after_push added deleted false true c = set_pushed (added ∷ c.pushed) c
  after_push added deleted false false c = c

  -- One call. A release or a tag is there once its creation was answered, a tag on the remote once
  -- its push was not refused, and each until the deletion of that very thing was answered, the remote
  -- tag until it was asked for. What is pushed by its bare name is a tag.
  abbrev pub left_after : History → Call → Things → Things
  left_after h (Call.create_tag path name message) c =
      if_answered (host.text h (Call.create_tag path name message))
        (λ x. set_tag ((path ∷ name ∷ []) ∷ x.tag) x) c
  left_after h (Call.delete_tag path name) c =
      if_answered (host.done h (Call.delete_tag path name))
        (λ x. set_tag (remove (path ∷ name ∷ []) x.tag) x) c
  left_after h (Call.push path remote refspec lease) c =
      after_push (path ∷ remote ∷ (codes "refs/tags/" ++ refspec) ∷ [])
        (path ∷ remote ∷ drop 1 refspec ∷ []) (starts_with refspec (b':' ∷ []))
        (took (host.infos h (Call.push path remote refspec lease))) c
  left_after h (Call.github_create_release repo tag notes) c =
      if_answered (host.text h (Call.github_create_release repo tag notes))
        (λ x. set_github ((repo ∷ tag ∷ []) ∷ x.github) x) c
  left_after h (Call.github_delete_release repo tag) c =
      if_answered (host.done h (Call.github_delete_release repo tag))
        (λ x. set_github (remove (repo ∷ tag ∷ []) x.github) x) c
  left_after h (Call.gitea_create_release releases tag notes) c =
      if_answered (host.text h (Call.gitea_create_release releases tag notes))
        (λ x. set_gitea (((releases ++ (codes "/tags/" ++ tag)) ∷ []) ∷ x.gitea) x) c
  left_after h (Call.gitea_delete_release path) c =
      if_answered (host.done h (Call.gitea_delete_release path))
        (λ x. set_gitea (remove (path ∷ []) x.gitea) x) c
  left_after h (Call.gitlab_create_release repo tag notes) c =
      if_answered (host.text h (Call.gitlab_create_release repo tag notes))
        (λ x. set_gitlab ((repo ∷ tag ∷ []) ∷ x.gitlab) x) c
  left_after h (Call.gitlab_delete_release repo tag) c =
      if_answered (host.done h (Call.gitlab_delete_release repo tag))
        (λ x. set_gitlab (remove (repo ∷ tag ∷ []) x.gitlab) x) c
  left_after h call c = c

  unfoldable pub left : History → Things
  left [] = nothing
  left (c ∷ h) = left_after h c (left h)

  -- The lookups and deletions are all answered.
  abbrev pub IsDependable : Type 0
  IsDependable = (h : History) (c : Call) → host.done h c ≡ ok tt

  abbrev pub Left : Things → History → Type 0
  Left c h = left h ≡ c

  abbrev IfOk : {A : Type 0} → Type 0 → Result A → Type 0
  IfOk X (ok a) = Unit {0}
  IfOk X (err t f) = X

  pub Triple-done :
      {P Q E : History → Type 0} (c : Call)
      → IsDependable
      → ((h : History) → host.done h c ≡ ok tt → P h → Q (c ∷ h))
      → Triple P (ask host.done c) (λ _. Q) E
  Triple-done c d k =
      Triple-ask host.done c (λ h a e. k h (d h c))
        (λ h t f e p. subst (IfOk _) (sym (d h c) ∙ e) tt)
