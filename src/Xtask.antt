-- ===== src/Xtask.antt =====
-- xtask: the checks of a release.
pub mod Version
pub mod Release
pub mod Workspace
