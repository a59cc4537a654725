-- ===== src/Exec/RoundTrip.antt =====
-- What parse_exec_ir_v1 of rust/exec_ir.rs reads from the messages of src/lance_exec_ir.cpp.
pub mod Leaves
pub mod Expr
pub mod Tree
pub mod Arguments
pub mod Items
pub mod Increasing
pub mod Lists
pub mod Order
pub mod Columns
pub mod Places
pub mod Message
