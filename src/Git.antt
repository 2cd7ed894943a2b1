-- ===== src/Git.antt =====
-- src/githost_mcp/tools/git_local.py: the decisions of the git tools, and the tools.
pub mod Mode
pub mod Refs
pub mod Read
pub mod Branch
pub mod Remote
pub mod Commit
pub mod Push
pub mod Lease
pub mod Worktree
pub mod Clone
pub mod Guard
