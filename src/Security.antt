-- ===== src/Security.antt =====
-- src/githost_mcp/security.py: the path allowlist, the write globs, the names and URLs that reach
-- git, and the credential scrub.
pub mod Chars
pub mod Env
pub mod Paths
pub mod Globs
pub mod Names
pub mod Urls
pub mod Masking
