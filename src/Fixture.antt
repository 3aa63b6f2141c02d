-- ===== src/Fixture.antt =====
-- src/fixture.rs and the label inheritance of src/label.rs.
pub mod Registry
pub mod Scopes
pub mod Labels
pub mod Walk
pub mod Resolve
pub mod Builtin
pub mod Cycles
pub mod Store
