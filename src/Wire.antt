-- ===== src/Wire.antt =====
-- The byte level of the expression messages: what src/lance_expr_ir.cpp appends to a string, and what
-- rust/expr_ir.rs reads back.
pub mod Writer
pub mod Reader
pub mod Words
pub mod Frames
