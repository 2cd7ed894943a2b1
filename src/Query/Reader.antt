-- ===== src/Query/Reader.antt =====
-- _reverse_lines() of src/githost_mcp/tools/audit_query.py. A file is the list of its bytes; the
-- decoding of a line is left to the caller.
pub mod Laws
use githost_mcp.Base.{
  ℕ, zero, suc, ◌-◌, Text, List, [], ◌∷◌, ◌++◌, reverse, ltb, take, drop, length, split_on,
  if◌then◌else◌,
}

-- `min(_REVERSE_READ_BLOCK, remaining)`
unfoldable pub read_size : ℕ → ℕ → ℕ
read_size block remaining = if ltb block remaining then block else remaining

-- `lines.pop(0)`, and the lines that are left.
abbrev pub first_part : List Text → Text
first_part [] = []
first_part (part ∷ parts) = part

abbrev pub other_parts : List Text → List Text
other_parts [] = []
other_parts (part ∷ parts) = parts

-- `if tail: yield tail`
abbrev pub last_line : Text → List Text
last_line [] = []
last_line (c ∷ tail) = (c ∷ tail) ∷ []

-- The loop, with fuel: `remaining` bytes are not read yet, and `tail` was held back.
unfoldable pub read_back : ℕ → Text → ℕ → ℕ → Text → List Text
read_back block file zero remaining tail = last_line tail
read_back block file (suc fuel) zero tail = last_line tail
read_back block file (suc fuel) (suc n) tail =
    let start = suc n - read_size block (suc n) in
    let lines = split_on 10 (take (read_size block (suc n)) (drop start file) ++ tail) in
    reverse (other_parts lines) ++ read_back block file fuel start (first_part lines)

unfoldable pub reverse_lines : ℕ → Text → List Text
reverse_lines block file = read_back block file (length file) (length file) []
