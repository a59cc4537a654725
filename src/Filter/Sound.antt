-- ===== src/Filter/Sound.antt =====
-- What the encoders of src/lance_filter_ir.cpp build, in terms of the exported encoders of expressions.
pub mod Constants
pub mod Calls
pub mod Paths
pub mod Columns
pub mod Expr
pub mod Table
pub mod Message
