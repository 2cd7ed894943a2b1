-- ===== src/Stdlib.antt =====
-- The functions of Python's standard library that the program walks text with.
pub mod Fnmatch
pub mod Normpath
