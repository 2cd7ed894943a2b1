-- ===== src/Registry/Laws.antt =====
-- To whom pypi_publish() of src/githost_mcp/tools/registry.py hands a token.
use githost_mcp.Base.{
  subst, text_eq_sound, arith, ◌++◌, text_eq, rstrip_char, sym, codes, Text, Bool, List, true,
  false, [], ◌∷◌, ◌≡◌, refl, ap, ◌⊎◌, inl, inr, is_empty,
}
use githost_mcp.Errors.{Result, ok-injective, ExcType, Fault, ok}
use githost_mcp.Audit.Rejection.{Reason}
use githost_mcp.Tools.Hoare.{
  Triple, Triple-bind, Triple-pure, Triple-ask, Triple-raise_when, Triple-raise_when_keep,
  Triple-weaken, Triple-attempt, Triple-given, Triple-bind_lift, Triple-after,
}
use githost_mcp.Tools.Host.{Host, History, Call}
use githost_mcp.Tools.Run.{Ctx, finish, refuse, fail, write_path}
use githost_mcp.Registry.{
  testpypi_url, pypi_url, gitea_registry, Config, registry_of, run_checked, build, upload_args,
  upload_env, pypi_publish,
}

-- The child processes that were given variables beside the clean environment, the last one first.
abbrev pub Handed : Type 0
Handed = List (List Text × List (Text × Text))

abbrev pub with_variables : List Text → List (Text × Text) → Handed → Handed
with_variables args [] before = before
with_variables args (v ∷ env) before = (args, v ∷ env) ∷ before

abbrev pub handed_after : Call → Handed → Handed
handed_after (Call.subprocess args dir env) before = with_variables args env before
handed_after c before = before

unfoldable pub handed : History → Handed
handed [] = []
handed (c ∷ h) = handed_after c (handed h)

-- Which token goes to which URL.
abbrev pub TokenFor : Config → Text → Text → Text → Type 0
TokenFor config target token url =
    ((target ≡ codes "pypi")
      × (token ≡ config.pypi_token)
      × (url ≡ codes "https://upload.pypi.org/legacy/"))
    ⊎ ((target ≡ codes "testpypi")
        × (token ≡ config.pypi_test_token)
        × (url ≡ codes "https://test.pypi.org/legacy/"))
    ⊎ ((target ≡ codes "gitea")
        × (token ≡ config.gitea_token)
        × (is_empty config.gitea_url ≡ false)
        × (url
            ≡ rstrip_char b'/' config.gitea_url
              ++ (codes "/api/packages/" ++ (config.gitea_owner ++ codes "/pypi"))))

pair_of :
    {a b c d : Text} → ◌≡◌ {A = Result (Text × Text)} (ok (a, b)) (ok (c, d)) → (c ≡ a) × (d ≡ b)
pair_of h =
    let e = ok-injective {A = Text × Text} h in (sym (ap (λ p. p.0) e), sym (ap (λ p. p.1) e))

gitea_registry-TokenFor :
    (config : Config) (token url : Text) (b : Bool)
    → is_empty config.gitea_url ≡ b
    → gitea_registry config ≡ ok (token, url)
    → TokenFor config (codes "gitea") token url
gitea_registry-TokenFor config token url true e h = absurd (ground (arith, e, h))
gitea_registry-TokenFor config token url false e h =
    let (t, u) =
      pair_of {a = config.gitea_token}
        {b = rstrip_char b'/' config.gitea_url
          ++ (codes "/api/packages/" ++ (config.gitea_owner ++ codes "/pypi"))}
        {c = token} {d = url} (ground (arith, e, h)) in
    inr (inr (refl, t, e, u))

by_target :
    (config : Config) (target token url : Text) (p t g : Bool)
    → text_eq target (codes "pypi") ≡ p
    → text_eq target (codes "testpypi") ≡ t
    → text_eq target (codes "gitea") ≡ g
    → registry_of config target ≡ ok (token, url)
    → TokenFor config target token url
unfolding registry_of
by_target config target token url true t g ep et eg h =
    let e = text_eq_sound target _ ep in
    let (a, b) =
      pair_of {a = config.pypi_token} {b = pypi_url} {c = token} {d = url}
        (ground (arith, ep, h)) in
    inl (e, a, b)
by_target config target token url false true g ep et eg h =
    let e = text_eq_sound target _ et in
    let (a, b) =
      pair_of {a = config.pypi_test_token} {b = testpypi_url} {c = token} {d = url}
        (ground (arith, ep, et, h)) in
    inr (inl (e, a, b))
by_target config target token url false false true ep et eg h =
    let e = text_eq_sound target (codes "gitea") eg in
    subst (λ t. TokenFor config t token url) (sym e)
      (gitea_registry-TokenFor config token url _ refl (ground (arith, ep, et, eg, h)))
by_target config target token url false false false ep et eg h =
    absurd (ground (arith, ep, et, eg, h))

module _ (host : Host) (target : Text) (hs : Handed) where
  abbrev Untouched : History → Type 0
  Untouched h = handed h ≡ hs

  -- One upload to the URL of the target, with the token of the target, which is set.
  abbrev pub Uploads : History → Type 0
  Uploads h =
      (token : Text) × (url : Text) × (dist : Text) × (handed h
        ≡ (
          codes "twine"
              ∷ codes "upload"
              ∷ codes "--repository-url"
              ∷ url
              ∷ (dist ++ codes "/*")
              ∷ [],
          (codes "TWINE_PASSWORD", token) ∷ (codes "TWINE_USERNAME", codes "__token__") ∷ [],
        )
          ∷ hs)
      × TokenFor host.config target token url
      × (is_empty token ≡ false)

  abbrev pub IsHanded : History → Type 0
  IsHanded h = Untouched h ⊎ Uploads h

  finish-IsHanded :
      (ctx : Ctx) (result : Text) (why : Reason)
      → Triple IsHanded (finish host ctx result why) (λ _. IsHanded) IsHanded
  unfolding finish handed
  finish-IsHanded ctx result why = record { ends = λ h p. p }

  fail-IsHanded :
      (ctx : Ctx) (t : ExcType) (f : Fault)
      → Triple IsHanded (fail host ctx t f) (λ _. IsHanded) IsHanded
  unfolding fail refuse
  fail-IsHanded ctx t f = Triple-bind (finish-IsHanded ctx _ _) (λ _. Triple-pure _ (λ h p. p))

  run_checked-Untouched :
      (args : List Text) (dir failed : Text)
      → Triple Untouched (run_checked host args dir [] failed) (λ _. Untouched) IsHanded
  unfolding run_checked handed
  run_checked-Untouched args dir failed =
      Triple-bind (Triple-ask {Q = λ _. Untouched} _ _ (λ h a e p. p) (λ h t f e p. inl p)) (λ r.
        Triple-bind (Triple-weaken (Triple-raise_when_keep _ _ _) (λ a h q. q) (λ h q. inl q))
          (λ _. Triple-pure _ (λ h p. p)))

  build-Untouched :
      (b : Bool) (path dist : Text)
      → Triple Untouched (build host b path dist) (λ _. Untouched) IsHanded
  unfolding build
  build-Untouched false path dist = Triple-pure _ (λ h p. p)
  build-Untouched true path dist = run_checked-Untouched _ path _

  upload-IsHanded :
      (token url dist dir failed : Text)
      → TokenFor host.config target token url
      → is_empty token ≡ false
      → Triple Untouched
          (run_checked host (upload_args host url dist) dir (upload_env host token) failed)
          (λ _. IsHanded)
          IsHanded
  unfolding run_checked handed upload_env upload_args
  upload-IsHanded token url dist dir failed r s =
      Triple-bind
        (Triple-ask {Q = λ _. IsHanded} _ _
          (λ h a e p. inr (
            token,
            url,
            dist,
            ap (λ l. (upload_args host url dist, upload_env host token) ∷ l) p,
            r,
            s,
          ))
          (λ h t f e p. inr (
            token,
            url,
            dist,
            ap (λ l. (upload_args host url dist, upload_env host token) ∷ l) p,
            r,
            s,
          )))
        (λ r. Triple-bind (Triple-raise_when_keep _ _ _) (λ _. Triple-pure _ (λ h p. p)))

module _ (host : Host) (repo_path target dist_dir : Text) where
  pypi_publish-Hands :
      (hs : Handed)
      → Triple
          (λ h. handed h ≡ hs)
          (pypi_publish host repo_path target dist_dir)
          (λ _. IsHanded host target hs)
          (IsHanded host target hs)
  unfolding pypi_publish write_path handed
  pypi_publish-Hands hs =
      Triple-attempt
        (Triple-bind_lift _ (λ h p. inl p)
          (λ path _.
            Triple-bind_lift _ (λ h p. inl p)
              (λ registry r. Triple-bind (Triple-raise_when _ _ _ (λ h p. inl p)) (λ _.
                Triple-given (λ s.
                  Triple-bind
                    (Triple-ask {Q = λ _ h. handed h ≡ hs} _ _ (λ h a e p. p) (λ h t f e p. inl p))
                    (λ there.
                      Triple-bind
                        (Triple-weaken (Triple-raise_when_keep _ _ _) (λ a h q. q) (λ h q. inl q))
                        (λ _.
                          Triple-bind
                            (Triple-ask {Q = λ _ h. handed h ≡ hs} _ _ (λ h a e p. p)
                              (λ h t f e p. inl p))
                            (λ files.
                              Triple-bind (build-Untouched host target hs _ path _) (λ built.
                                Triple-bind (run_checked-Untouched host target hs _ path _)
                                  (λ checked.
                                    Triple-bind
                                      (upload-IsHanded host target hs registry.0 registry.1 _ path _
                                        (by_target _ _ _ _ _ _ _ refl refl refl r) s)
                                      (λ uploaded.
                                        Triple-bind (finish-IsHanded host target hs _ _ _)
                                          (λ _. Triple-pure _ (λ h p. p)))))))))))))
        (fail-IsHanded host target hs _)

  -- A publication gives variables beside the clean environment to no child process, or to one: the
  -- upload of the distribution, with the PyPI token to upload.pypi.org, the TestPyPI token to
  -- test.pypi.org, or the Gitea token to the PyPI registry of the owner at the Gitea URL, as the
  -- target says; the token is not empty.
  pub pypi_publish-IsHanded :
      (h : History)
      → IsHanded host target (handed h) (pypi_publish host repo_path target dist_dir h).1
  pypi_publish-IsHanded h = Triple-after (pypi_publish-Hands (handed h)) h refl
