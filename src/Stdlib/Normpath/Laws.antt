-- ===== src/Stdlib/Normpath/Laws.antt =====
-- A normal form that neither is absolute nor begins with `..` holds no `..` at all.
use githost_mcp.Base.{
  is_empty, if◌then◌else◌, any-reverse, split_on, inr, inl, ◌++◌, [], Bool-cases, ◌∷◌, true, false,
  List, Bool, Text, ◌≡◌, refl, arith, any, reverse, text_eq, starts_with, join, codes,
}
use mathlib.Core.List.{reverse_aux}
use githost_mcp.Stdlib.Normpath.{
  dot_dot, is_skipped, resolve, resolve_all, initial_slashes, is_abs, norm_parts, normpath,
}

abbrev pub is_dot_dot : Text → Bool
is_dot_dot comp = text_eq comp dot_dot

-- The last item of a stack, its first component, is `..`.
abbrev last_is : List Text → Bool
last_is [] = false
last_is (x ∷ []) = is_dot_dot x
last_is (x ∷ y ∷ xs) = last_is (y ∷ xs)

abbrev pub head_is : List Text → Bool
head_is [] = false
head_is (x ∷ xs) = is_dot_dot x

-- If `..` occurs on the stack, it is the first component.
abbrev IsNormal : List Text → Type 0
IsNormal stack = any is_dot_dot stack ≡ true → last_is stack ≡ true

push-IsNormal :
    (comp : Text) (stack : List Text)
    → is_dot_dot comp ≡ false
    → IsNormal stack
    → IsNormal (comp ∷ stack)
push-IsNormal comp [] d h = λ e. ground arith
push-IsNormal comp (x ∷ xs) d h = λ e. h (ground arith)

stay-IsNormal :
    (comp top : Text) (below : List Text)
    → is_dot_dot top ≡ true
    → IsNormal (top ∷ below)
    → IsNormal (comp ∷ top ∷ below)
stay-IsNormal comp top below d h = λ e. h (ground arith)

pop-IsNormal : (top : Text) (below : List Text) → IsNormal (top ∷ below) → IsNormal below
pop-IsNormal top [] h = λ e. ground arith
pop-IsNormal top (x ∷ xs) h = λ e. h (ground arith)

resolve-IsNormal :
    (comp : Text) (stack : List Text) → IsNormal stack → IsNormal (resolve false stack comp)
unfolding resolve
resolve-IsNormal comp [] h = λ e. ground arith
resolve-IsNormal comp (top ∷ below) h = elim (Bool-cases (is_skipped comp)) [
  | inl skip ↦ rw skip h
  | inr keep ↦ elim (Bool-cases (is_dot_dot comp)) [
    | inr plain ↦ rw (keep, plain) (push-IsNormal comp (top ∷ below) plain h)
    | inl up ↦ elim (Bool-cases (is_dot_dot top)) [
      | inl dots ↦ rw (keep, up, dots) (stay-IsNormal comp top below dots h)
      | inr name ↦ rw (keep, up, name) (pop-IsNormal top below h)
    ]
  ]
]

resolve_all-IsNormal :
    (stack comps : List Text) → IsNormal stack → IsNormal (resolve_all false stack comps)
unfolding resolve_all
resolve_all-IsNormal stack [] h = h
resolve_all-IsNormal stack (comp ∷ comps) h =
    resolve_all-IsNormal (resolve false stack comp) comps (resolve-IsNormal comp stack h)

head_is-reverse_aux :
    (x : Text) (xs ys : List Text) → head_is (reverse_aux (x ∷ xs) ys) ≡ last_is (x ∷ xs)
head_is-reverse_aux x [] ys = refl
head_is-reverse_aux x (y ∷ xs) ys = head_is-reverse_aux y xs (x ∷ ys)

head_is-reverse : (xs : List Text) → last_is xs ≡ true → head_is (reverse xs) ≡ true
head_is-reverse [] h = h
head_is-reverse (x ∷ xs) h = rw (head_is-reverse_aux x xs []) h

-- Of a relative path: a `..` anywhere in the normal form is also its first component.
pub head_is-norm_parts :
    (path : Text)
    → is_abs path ≡ false
    → any is_dot_dot (norm_parts path) ≡ true
    → head_is (norm_parts path) ≡ true
unfolding norm_parts
head_is-norm_parts path r h =
    let stack = resolve_all false [] (split_on b'/' path) in
    rw r (
      head_is-reverse stack (
        resolve_all-IsNormal [] (split_on b'/' path) (λ e. ground arith)
          (rw (any-reverse is_dot_dot stack) at (rw r at h))))

initial_slashes_rel : (path : Text) → is_abs path ≡ false → initial_slashes path ≡ []
unfolding initial_slashes starts_with codes
initial_slashes_rel [] h = refl
initial_slashes_rel (c ∷ s) h = ground arith

initial_slashes_abs :
    (path rest : Text) → is_abs path ≡ true → (t : Text) × (initial_slashes path ++ rest ≡ b'/' ∷ t)
unfolding initial_slashes starts_with codes
initial_slashes_abs [] rest h = absurd (ground arith)
initial_slashes_abs (c ∷ s) rest h = elim (Bool-cases (starts_with s (codes "//"))) [
  | inl two ↦ (rest, ground arith)
  | inr few ↦ elim (Bool-cases (starts_with s (codes "/"))) [
    | inl one ↦ (b'/' ∷ rest, ground arith)
    | inr zero ↦ (rest, ground arith)
  ]
]

pub normpath_abs : (path : Text) → is_abs path ≡ true → is_abs (normpath path) ≡ true
unfolding normpath
normpath_abs path h =
    let (t, e) = initial_slashes_abs path (join (b'/' ∷ []) (norm_parts path)) h in
    rw e (unfold starts_with in refl)

pub normpath_rel :
    (path : Text)
    → is_abs path ≡ false
    → normpath path
      ≡ (let out = join (b'/' ∷ []) (norm_parts path) in if is_empty out then b'.' ∷ [] else out)
unfolding normpath
normpath_rel path h = rw (initial_slashes_rel path h)
