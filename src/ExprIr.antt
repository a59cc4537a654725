-- ===== src/ExprIr.antt =====
-- Expression messages: src/lance_expr_ir.cpp turns a bound DuckDB expression into bytes, and
-- rust/expr_ir.rs turns the bytes into a DataFusion expression.
pub mod Types
pub mod Literals
pub mod Nodes
pub mod Update
pub mod Scope
pub mod Parser
pub mod RoundTrip
pub mod Meaning
pub mod Exports
pub mod Fuel
