-- ===== src/Release.antt =====
-- src/githost_mcp/tools/release.py: a release to several targets, and what undoes it. Log lines and
-- metrics are left out.
pub mod Rollback
pub mod Plan
pub mod Steps
pub mod Left
pub mod Laws
pub mod Forges
pub mod Outcome
