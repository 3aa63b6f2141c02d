-- ===== src/Fixture/Builtin.antt =====
-- src/fixtures: the fixtures that the crate brings.
pub mod Env
pub mod Cwd
pub mod TempDir
