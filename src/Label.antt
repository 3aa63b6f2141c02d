-- ===== src/Label.antt =====
-- src/label.rs and src/label.pest: labels, the filter language and its canonical form.
pub mod Name
pub mod Expr
pub mod Grammar
pub mod Build
pub mod Print
pub mod Filter
