-- ===== src/Coordination.antt =====
-- src/coordination.rs: the shared database by which test processes keep serial tests apart.
pub mod Storage
pub mod Database
pub mod Transaction
pub mod Conflict
pub mod Rows
pub mod Exclusion
pub mod Steps
pub mod Stored
pub mod Stale
pub mod Waiting
pub mod Publish
pub mod Moved
pub mod Migration
pub mod Retry
pub mod DbDir
pub mod Rendezvous
pub mod Cleanup
