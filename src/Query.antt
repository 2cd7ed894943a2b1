-- ===== src/Query.antt =====
-- src/githost_mcp/tools/audit_query.py: the query of the audit log.
pub mod Reader
pub mod Search
