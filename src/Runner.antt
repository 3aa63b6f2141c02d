-- ===== src/Runner.antt =====
-- src/runner.rs and src/label.rs: the names of trials and labels, checked for duplicates.
pub mod Names
pub mod Duplicates
pub mod Selection
