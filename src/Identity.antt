-- ===== src/Identity.antt =====
-- src/githost_mcp/identity.py: which identity a commit carries. `urlsplit`, which rests on the
-- interpreter's Unicode tables, and `str.lower` are parameters.
pub mod Remote
pub mod Ownership
