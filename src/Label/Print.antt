-- ===== src/Label/Print.antt =====
-- src/label.rs: what `Display` writes, `parse_raw_label_expr` reads back.
pub mod Regroup
pub mod Words
pub mod Tokens
pub mod Chain
pub mod Leads
pub mod Levels
pub mod Groups
pub mod RoundTrip
pub mod Names
