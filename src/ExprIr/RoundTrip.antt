-- ===== src/ExprIr/RoundTrip.antt =====
-- What the C++ encoders of src/lance_expr_ir.cpp write, the parser of rust/expr_ir.rs reads.
pub mod Children
pub mod Nodes
pub mod Lists
pub mod Decimals
pub mod Values
pub mod Literals
pub mod Columns
pub mod Patterns
pub mod Reads
pub mod ReadsLists
pub mod Calls
pub mod Compound
pub mod Update
pub mod Message
