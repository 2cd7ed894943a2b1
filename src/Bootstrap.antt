-- ===== src/Bootstrap.antt =====
-- src/githost_mcp/bootstrap.py: the guards of git_clone and of the repository tools.
pub mod Segments
pub mod Readback
pub mod Tree
pub mod Owned
pub mod Clone
