-- ===== src/ExprIr/Parser.antt =====
-- rust/expr_ir.rs, from parse_expr_ir down; the parsers of the parts of a node are in the child
-- modules. The recursion of parse_subexpr goes to a slice of the input; here it takes fuel, one unit
-- for each level, of which there are fewer than bytes.
mod Leaves
mod Calls
mod Nodes
pub use Leaves.*
unfoldable pub use Leaves.{
  parse_unit, parse_scalar, parse_literal, plain_type, parse_type_tag, parse_type, read_strings,
  nest_fields, column_path, parse_column_ref, binary_op, comparison_op, conjunction_op,
}
pub use Calls.*
unfoldable pub use Calls.{
  resolve_scalar_function, string_literal, regexp_options, normalize_options, match_pattern,
  regexp_args,
}
pub use Nodes.*
unfoldable pub use Nodes.{
  parse_child, parse_children, parse_conjuncts, parse_checks, parse_cast, parse_binary,
  parse_conjunction, parse_unary, parse_function, parse_else, parse_case, parse_in_list,
  parse_escape, parse_like, parse_options, parse_regexp, parse_tagged, parse_node,
}
use lance_duckdb.Common.{
  ℕ, zero, suc, Bytes, [], ◌∷◌, length, take, drop, ltb, bytes_eq, not, Result, ok, err, ◌>>=◌,
  ◌>>◌, throw_if,
}
use lance_duckdb.Wire.Reader.{ParseError, too_short, magic_mismatch, trailing_bytes, out_of_fuel}
use lance_duckdb.Wire.Writer.{magic}
use lance_duckdb.ExprIr.Types.{Expr}

-- A node that takes the whole of its bytes.
abbrev pub at_eof : Expr × Bytes → Result ParseError Expr
at_eof (e, []) = ok e
at_eof (e, _ ∷ _) = err trailing_bytes

unfoldable pub parse_subexpr : Session → ℕ → Bytes → Result ParseError Expr
parse_subexpr session zero bs = err out_of_fuel
parse_subexpr session (suc fuel) bs = parse_node session (parse_subexpr session fuel) bs >>= at_eof

unfoldable pub parse_expr_ir_payload : Session → Bytes → Result ParseError Expr
parse_expr_ir_payload session bs = parse_subexpr session (suc (length bs)) bs

unfoldable pub parse_expr_ir : Session → Bytes → Result ParseError Expr
unfolding parse_expr_ir_payload
parse_expr_ir session bs = do
  throw_if (ltb (length bs) 4) too_short
  throw_if (not (bytes_eq (take 4 bs) magic)) magic_mismatch
  parse_expr_ir_payload session (drop 4 bs)
