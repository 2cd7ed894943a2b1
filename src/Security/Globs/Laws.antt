-- ===== src/Security/Globs/Laws.antt =====
-- What validate_write_globs() lets through stays inside the repository and inside the scope.
use githost_mcp.Base.{
  is_empty-eq-nil, keep_if-eq-nil, inr, keep_if, inl, starts_with, text_eq, text_eq_iff, ◌∷◌, ◌&&◌,
  false_of, ◌⊎◌, true, is_empty, any, join, false, [], List, Text, ◌≡◌, refl, arith, All,
}
use githost_mcp.Stdlib.Normpath.{dot_dot, is_abs, norm_parts, normpath}
use githost_mcp.Stdlib.Normpath.Laws.{
  is_dot_dot, head_is, head_is-norm_parts, normpath_abs, normpath_rel,
}
use githost_mcp.Stdlib.Fnmatch.{fnmatch}
use githost_mcp.Config.System.{Config}
use githost_mcp.Errors.{ok}
use githost_mcp.Security.Globs.{escapes, out_of_scope, is_denied, validate_write_globs}

join-head :
    (parts : List Text)
    → head_is parts ≡ true
    → (escapes (join (b'/' ∷ []) parts) ≡ true) × (is_empty (join (b'/' ∷ []) parts) ≡ false)
unfolding join escapes
join-head [] h = absurd (ground arith)
join-head (x ∷ []) h = rw ((text_eq_iff x dot_dot).0 h) (unfold text_eq starts_with in (refl, refl))
join-head (x ∷ y ∷ parts) h =
    rw ((text_eq_iff x dot_dot).0 h) (unfold text_eq starts_with in (refl, refl))

escapes_abs : (path : Text) → is_abs path ≡ true → escapes (normpath path) ≡ true
unfolding escapes
escapes_abs path e = ground (arith, normpath_abs path e)

-- A path whose normal form does not escape is relative, and its normal form holds no `..`.
normpath-confined :
    (path : Text)
    → escapes (normpath path) ≡ false
    → (is_abs path ≡ false) × (any is_dot_dot (norm_parts path) ≡ false)
normpath-confined path h =
    let relative : is_abs path ≡ false = false_of _ _ (λ e. escapes_abs path e) h in
    (
      relative,
      false_of _ _
          (λ e.
            let (up, full) = join-head (norm_parts path) (head_is-norm_parts path relative e) in
            rw (normpath_rel path relative, full) up)
          h,
    )

-- The scope that a grant promises: some allow pattern matches, where there are any, and no deny
-- pattern does.
abbrev pub InScope : List Text → List Text → Text → Type 0
InScope allow deny normalized =
    ((allow ≡ []) ⊎ (any (fnmatch normalized) allow ≡ true))
    × (any (fnmatch normalized) deny ≡ false)

abbrev pub IsConfined : List Text → List Text → Text → Type 0
IsConfined allow deny path =
    (is_abs path ≡ false)
    × (any is_dot_dot (norm_parts path) ≡ false)
    × InScope allow deny (normpath path)

out_of_scope-InScope :
    (allow deny : List Text) (n : Text) → out_of_scope allow deny n ≡ false → InScope allow deny n
unfolding out_of_scope
out_of_scope-InScope [] [] n h = (inl refl, refl)
out_of_scope-InScope [] (d ∷ deny) n h = (inl refl, ground arith)
out_of_scope-InScope (a ∷ allow) [] n h = (inr (ground arith), refl)
out_of_scope-InScope (a ∷ allow) (d ∷ deny) n h = (inr (ground arith), ground arith)

is_denied-IsConfined :
    (allow deny : List Text) (path : Text)
    → is_denied allow deny path ≡ false
    → IsConfined allow deny path
unfolding is_denied
is_denied-IsConfined allow deny path h =
    let (relative, inside) = normpath-confined path (ground arith) in
    (relative, inside, out_of_scope-InScope allow deny (normpath path) (ground arith))

accepted_paths :
    (allow deny paths : List Text)
    → All (λ p. is_denied allow deny p ≡ false) paths
    → All (IsConfined allow deny) paths
accepted_paths allow deny [] h = tt
accepted_paths allow deny (p ∷ paths) (h, hs) =
    (is_denied-IsConfined allow deny p h, accepted_paths allow deny paths hs)

-- Once a glob scope is set, every path of an accepted list is relative, has no `..` in its normal
-- form, matches the allow globs where there are any, and matches no deny glob.
pub validate_write_globs-IsConfined :
    (config : Config) (paths : List Text)
    → is_empty config.write_globs && is_empty config.write_globs_deny ≡ false
    → validate_write_globs config paths ≡ ok tt
    → All (IsConfined config.write_globs config.write_globs_deny) paths
unfolding validate_write_globs
validate_write_globs-IsConfined config paths scoped h =
    let denied = keep_if (is_denied config.write_globs config.write_globs_deny) paths in
    let none_denied : is_empty denied ≡ true = ground arith in
    accepted_paths config.write_globs config.write_globs_deny paths
      (keep_if-eq-nil _ paths (is_empty-eq-nil denied none_denied))
