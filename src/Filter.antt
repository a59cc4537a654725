-- ===== src/Filter.antt =====
-- src/lance_filter_ir.cpp and rust/filter_ir.rs: the filters that the extension pushes to a scan.
pub mod Types
pub mod Columns
pub mod Calls
pub mod Expr
pub mod Table
pub mod Parts
pub mod Parser
pub mod Attempts
pub mod Place
pub mod Functions
pub mod Meaning
pub mod Valid
pub mod Sound
