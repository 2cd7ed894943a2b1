-- ===== src/Tests.antt =====
-- Tests of the definitions, and applications of the theorems at concrete inputs.
pub mod Hosts
pub mod Query
pub mod Tools
pub mod Security
pub mod Config
pub mod Audit
pub mod Identity
pub mod Git
