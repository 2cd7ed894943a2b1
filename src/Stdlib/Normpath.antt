-- ===== src/Stdlib/Normpath.antt =====
-- os.path.normpath() and os.path.isabs() on POSIX.
pub mod Laws
use githost_mcp.Base.{
  reverse, ◌||◌, is_empty, not, [], ◌∷◌, ◌++◌, if◌then◌else◌, List, Bool, Text, codes, split_on,
  join, starts_with, text_eq,
}

abbrev pub dot_dot : Text
dot_dot = b'.' ∷ b'.' ∷ []

abbrev pub is_skipped : Text → Bool
is_skipped comp = text_eq comp [] || text_eq comp (b'.' ∷ [])

-- One round of the loop over the components; the stack has its last component at the head.
unfoldable pub resolve : Bool → List Text → Text → List Text
resolve absolute stack comp =
    if is_skipped comp
    then stack
    else if not (text_eq comp dot_dot)
    then comp ∷ stack
    else elim stack [
      | [] ↦ if absolute then [] else dot_dot ∷ []
      | top ∷ below ↦ if text_eq top dot_dot then comp ∷ top ∷ below else below
    ]

unfoldable pub resolve_all : Bool → List Text → List Text → List Text
resolve_all absolute stack [] = stack
resolve_all absolute stack (comp ∷ comps) = resolve_all absolute (resolve absolute stack comp) comps

-- The leading slashes that are kept: POSIX gives exactly two a meaning of their own.
unfoldable pub initial_slashes : Text → Text
initial_slashes path =
    if starts_with path (codes "///")
    then codes "/"
    else if starts_with path (codes "//")
    then codes "//"
    else if starts_with path (codes "/")
    then codes "/"
    else []

abbrev pub is_abs : Text → Bool
is_abs path = starts_with path (b'/' ∷ [])

-- The components of the normal form.
unfoldable pub norm_parts : Text → List Text
norm_parts path = reverse (resolve_all (is_abs path) [] (split_on b'/' path))

unfoldable pub normpath : Text → Text
normpath path =
    let out = initial_slashes path ++ join (b'/' ∷ []) (norm_parts path) in
    if is_empty out then b'.' ∷ [] else out
