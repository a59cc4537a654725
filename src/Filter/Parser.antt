-- ===== src/Filter/Parser.antt =====
-- rust/filter_ir.rs, parse_filter_ir: the parser of a filter message, which has no session.
use lance_duckdb.Common.{
  Bytes, Bool, Option, none, length, take, drop, ltb, bytes_eq, not, Result, ◌>>◌, throw_if,
}
use lance_duckdb.Wire.Reader.{ParseError, too_short, magic_mismatch}
use lance_duckdb.ExprIr.Types.{Expr}
use lance_duckdb.ExprIr.Parser.{Session, parse_expr_ir_payload}
use lance_duckdb.Filter.Parts.{filter_magic}

-- Without a registry of functions; the argument is whether a regular expression compiles.
abbrev pub no_registry : (Bytes → Option Bytes → Bool) → Session
no_registry compiles = record { registry = none; compiles = compiles }

unfoldable pub parse_filter_ir : (Bytes → Option Bytes → Bool) → Bytes → Result ParseError Expr
parse_filter_ir compiles bs = do
  throw_if (ltb (length bs) 4) too_short
  throw_if (not (bytes_eq (take 4 bs) filter_magic)) magic_mismatch
  parse_expr_ir_payload (no_registry compiles) (drop 4 bs)
