-- ===== src/Config.antt =====
-- src/githost_mcp/config.py: the settings record, the grant of an agent from the environment, the
-- workspace policy or its manifest, the load of all settings, and the cached get_config().
-- The operating system, the YAML reader, `str()` on a parsed value and `int()` are fields of
-- `System`. Log lines are not modelled.
pub mod Yaml
pub mod System
pub mod Grants
pub mod Load
pub mod Cache
