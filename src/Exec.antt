-- ===== src/Exec.antt =====
-- src/lance_exec_ir.cpp and rust/exec_ir.rs: the messages that push an aggregation down.
pub mod Types
pub mod Write
pub mod Expr
pub mod Pushdown
pub mod Aggregates
pub mod Message
pub mod Parser
pub mod Refusals
pub mod Named
pub mod Meaning
pub mod RoundTrip
pub mod Plan
pub mod Sorts
pub mod Fuel
