-- ===== src/ExprIr/Parser/Leaves.antt =====
-- rust/expr_ir.rs: the parsers of literals, types and column references, and the operators by their codes.
use lance_duckdb.Common.{
  ℕ, zero, suc, Bytes, List, [], ◌∷◌, Option, none, some, ◌==◌, not, if◌then◌else◌, Result, ok, err,
  ◌>>=◌, ◌>>◌, throw_if, or_throw,
}
use lance_duckdb.Common.Int.{ℤ, of_word}
use lance_duckdb.Wire.Reader.{
  ParseError, Reader, bad_tag, bad_op, bad_unit, no_segments, read_u8, read_u32, read_u64, read_i32,
  read_i64, read_i128, read_f32, read_f64, read_string,
}
use lance_duckdb.ExprIr.Types.{
  tiny, small, whole, big, TimeUnit, second, millisecond, microsecond, nanosecond, DataType,
  ScalarValue, Operator, plus, minus, multiply, divide, and, or, eq, not_eq, lt, lt_eq, gt, gt_eq,
  is_distinct_from, is_not_distinct_from, getfield, Expr, Exprs,
}

unfoldable pub parse_unit : ℕ → Result ParseError TimeUnit
parse_unit u =
    if u == 0
    then ok second
    else if u == 1
    then ok millisecond
    else if u == 2
    then ok microsecond
    else if u == 3
    then ok nanosecond
    else err bad_unit

-- `as i8`.
abbrev pub as_i8 : ℕ → ℤ
as_i8 = of_word 128

unfoldable pub parse_scalar : ℕ → Reader ScalarValue
unfolding parse_unit
parse_scalar tag bs =
    if tag == 0
    then ok (ScalarValue.null, bs)
    else if tag == 1
    then (do (b, rest) ← read_u8 bs; ok (ScalarValue.boolean (not (b == 0)), rest))
    else if tag == 2
    then (do (v, rest) ← read_i64 bs; ok (ScalarValue.int64 v, rest))
    else if tag == 3
    then (do (v, rest) ← read_u64 bs; ok (ScalarValue.uint64 v, rest))
    else if tag == 4
    then (do (v, rest) ← read_f32 bs; ok (ScalarValue.float32 v, rest))
    else if tag == 5
    then (do (v, rest) ← read_f64 bs; ok (ScalarValue.float64 v, rest))
    else if tag == 6
    then (do (s, rest) ← read_string bs; ok (ScalarValue.utf8 s, rest))
    else if tag == 7
    then (do (v, rest) ← read_i32 bs; ok (ScalarValue.date32 v, rest))
    else if tag == 8
    then (do
      (u, bs') ← read_u8 bs
      (v, rest) ← read_i64 bs'
      unit ← parse_unit u
      ok (ScalarValue.timestamp unit v, rest))
    else if tag == 9
    then (do
      (precision, bs') ← read_u8 bs
      (scale, bs'') ← read_u8 bs'
      (v, rest) ← read_i128 bs''
      ok (ScalarValue.decimal128 v precision (as_i8 scale), rest))
    else err bad_tag

unfoldable pub parse_literal : Reader Expr
unfolding parse_scalar
parse_literal bs = do
  (tag, bs') ← read_u8 bs
  (lit, rest) ← parse_scalar tag bs'
  ok (Expr.literal lit, rest)

-- The types that are a tag alone.
unfoldable pub plain_type : ℕ → Option DataType
plain_type tag =
    if tag == 1
    then some DataType.boolean
    else if tag == 2
    then some (DataType.int tiny)
    else if tag == 3
    then some (DataType.int small)
    else if tag == 4
    then some (DataType.int whole)
    else if tag == 5
    then some (DataType.int big)
    else if tag == 6
    then some (DataType.uint tiny)
    else if tag == 7
    then some (DataType.uint small)
    else if tag == 8
    then some (DataType.uint whole)
    else if tag == 9
    then some (DataType.uint big)
    else if tag == 10
    then some DataType.float32
    else if tag == 11
    then some DataType.float64
    else if tag == 12
    then some DataType.utf8
    else if tag == 13
    then some DataType.date32
    else none

unfoldable pub parse_type_tag : ℕ → Reader DataType
unfolding plain_type parse_unit
parse_type_tag tag bs =
    if tag == 14
    then (do (u, rest) ← read_u8 bs; unit ← parse_unit u; ok (DataType.timestamp unit, rest))
    else if tag == 15
    then (do
      (precision, bs') ← read_u8 bs
      (scale, rest) ← read_u8 bs'
      ok (DataType.decimal128 precision (as_i8 scale), rest))
    else (do type ← or_throw (plain_type tag) bad_tag; ok (type, bs))

unfoldable pub parse_type : Reader DataType
unfolding parse_type_tag
parse_type bs = do (tag, rest) ← read_u8 bs; parse_type_tag tag rest

unfoldable pub read_strings : ℕ → Reader (List Bytes)
read_strings zero bs = ok ([], bs)
read_strings (suc n) bs = do
  (s, bs') ← read_string bs
  (ss, rest) ← read_strings n bs'
  ok (s ∷ ss, rest)

-- A field of a field of ... of a column.
unfoldable pub nest_fields : Expr → List Bytes → Expr
nest_fields e [] = e
nest_fields e (s ∷ ss) =
    nest_fields
      (Expr.scalar_function getfield
        (Exprs.cons e (Exprs.cons (Expr.literal (ScalarValue.utf8 s)) Exprs.nil)))
      ss

-- `segments[0]` is there, since the count was not 0.
unfoldable pub column_path : List Bytes → Result ParseError Expr
column_path [] = err no_segments
column_path (s ∷ ss) = ok (nest_fields (Expr.column s) ss)

unfoldable pub parse_column_ref : Reader Expr
unfolding column_path
parse_column_ref bs = do
  (count, bs') ← read_u32 bs
  throw_if (count == 0) no_segments
  (segments, rest) ← read_strings count bs'
  e ← column_path segments
  ok (e, rest)

unfoldable pub binary_op : ℕ → Result ParseError Operator
binary_op o =
    if o == 1
    then ok plus
    else if o == 2
    then ok minus
    else if o == 3
    then ok multiply
    else if o == 4
    then ok divide
    else err bad_op

unfoldable pub comparison_op : ℕ → Result ParseError Operator
comparison_op o =
    if o == 0
    then ok eq
    else if o == 1
    then ok not_eq
    else if o == 2
    then ok lt
    else if o == 3
    then ok lt_eq
    else if o == 4
    then ok gt
    else if o == 5
    then ok gt_eq
    else if o == 6
    then ok is_distinct_from
    else if o == 7
    then ok is_not_distinct_from
    else err bad_op

unfoldable pub conjunction_op : ℕ → Result ParseError Operator
conjunction_op o = if o == 1 then ok and else if o == 2 then ok or else err bad_op
