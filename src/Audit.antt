-- ===== src/Audit.antt =====
-- src/githost_mcp/audit.py: the audit record, its scrubbing and signature, the rotation of the log,
-- and the record of a rejection.
pub mod Values
pub mod Integrity
pub mod Rotation
pub mod Rejection
