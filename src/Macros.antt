-- ===== src/Macros.antt =====
-- macros/src/lib.rs: what the attribute macros read.
pub mod Tokens
pub mod Serial
pub mod Args
pub mod Outer
