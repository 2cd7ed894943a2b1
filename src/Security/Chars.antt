-- ===== src/Security/Chars.antt =====
-- The character classes of the regular expressions of security.py, identity.py and bootstrap.py.
use githost_mcp.Base.{◌&&◌, ℕ, Bool, leb, ◌==◌, ◌||◌}

abbrev pub is_digit : ℕ → Bool
is_digit c = leb b'0' c && leb c b'9'

abbrev pub is_letter : ℕ → Bool
is_letter c = (leb b'a' c && leb c b'z') || (leb b'A' c && leb c b'Z')

-- `[a-zA-Z0-9+.\-]`
unfoldable pub is_scheme_char : ℕ → Bool
is_scheme_char c = is_letter c || is_digit c || c == b'+' || c == b'.' || c == b'-'

-- `[0-9+.\-]`
unfoldable pub is_scheme_tail_char : ℕ → Bool
is_scheme_tail_char c = is_digit c || c == b'+' || c == b'.' || c == b'-'

-- `[A-Za-z0-9._/-]`
unfoldable pub is_remote_name_char : ℕ → Bool
is_remote_name_char c =
    is_letter c || is_digit c || c == b'.' || c == b'_' || c == b'/' || c == b'-'
