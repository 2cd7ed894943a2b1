-- ===== src/Tools.antt =====
-- What the tool functions share: their surroundings as calls that are recorded in order, a monad of
-- state and exceptions over that record, and rules for what a tool records.
pub mod Host
pub mod Run
pub mod Hoare
