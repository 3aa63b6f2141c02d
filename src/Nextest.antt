-- ===== src/Nextest.antt =====
-- cargo-skuld: the generator of nextest test groups.
pub mod Graph
pub mod Emit
pub mod Groups
