-- ===== src/Exec/Parser.antt =====
-- rust/exec_ir.rs, parse_exec_ir_v1. The recursion of parse_expr_ir goes along the input; here it takes
-- fuel, one unit for each level, each of which has a byte of its own.
use lance_duckdb.Common.{
  ℕ, zero, suc, Bytes, Bool, true, false, List, [], ◌∷◌, Option, none, some, length, bytes_eq, ltb,
  ◌==◌, ◌||◌, not, if◌then◌else◌, Result, ok, err, ◌>>=◌, ◌>>◌, throw_if,
}
use lance_duckdb.Wire.Reader.{
  ParseError, Reader, bad_tag, bad_op, bad_version, magic_mismatch, trailing_bytes, out_of_fuel,
  read_u8, read_u32, read_i64, read_u64, read_i128, read_bytes, read_string,
}
use lance_duckdb.Exec.Types.{
  OutputTypeHint, LiteralIr, BinaryOp, add, sub, mul, div, ExprIr, AggFunc, sum, count, count_star,
  min, max, avg, GroupIr, AggIr, OrderByIr, ExecIr,
}
use lance_duckdb.Exec.Message.{exec_magic}

unfoldable pub hint_of_tag : ℕ → Reader OutputTypeHint
hint_of_tag tag rest =
    if tag == 1
    then ok (OutputTypeHint.bool, rest)
    else if tag == 2
    then ok (OutputTypeHint.int64, rest)
    else if tag == 3
    then ok (OutputTypeHint.double, rest)
    else if tag == 4
    then ok (OutputTypeHint.date, rest)
    else if tag == 5
    then ok (OutputTypeHint.timestamp_us, rest)
    else if tag == 6
    then ok (OutputTypeHint.utf8, rest)
    else if tag == 7
    then (do
      (precision, rest') ← read_u8 rest
      (scale, rest'') ← read_u8 rest'
      ok (OutputTypeHint.decimal precision scale, rest''))
    else err bad_tag

unfoldable pub parse_output_type_hint : Reader OutputTypeHint
parse_output_type_hint bs = do (tag, rest) ← read_u8 bs; hint_of_tag tag rest

unfoldable pub literal_of_tag : ℕ → Reader LiteralIr
literal_of_tag tag rest =
    if tag == 0
    then ok (LiteralIr.null, rest)
    else if tag == 1
    then (do (z, rest') ← read_i64 rest; ok (LiteralIr.int64 z, rest'))
    else if tag == 2
    then (do (bits, rest') ← read_u64 rest; ok (LiteralIr.double bits, rest'))
    else if tag == 3
    then (do (b, rest') ← read_u8 rest; ok (LiteralIr.bool (not (b == 0)), rest'))
    else if tag == 4
    then (do (s, rest') ← read_string rest; ok (LiteralIr.string s, rest'))
    else if tag == 5
    then (do
      (precision, rest₁) ← read_u8 rest
      (scale, rest₂) ← read_u8 rest₁
      (value, rest₃) ← read_i128 rest₂
      ok (LiteralIr.decimal128 value precision scale, rest₃))
    else err bad_tag

unfoldable pub parse_literal_ir : Reader LiteralIr
parse_literal_ir bs = do (tag, rest) ← read_u8 bs; literal_of_tag tag rest

unfoldable pub op_of_tag : ℕ → Reader BinaryOp
op_of_tag tag rest =
    if tag == 1
    then ok (add, rest)
    else if tag == 2
    then ok (sub, rest)
    else if tag == 3
    then ok (mul, rest)
    else if tag == 4
    then ok (div, rest)
    else err bad_op

unfoldable pub parse_binary_op : Reader BinaryOp
parse_binary_op bs = do (tag, rest) ← read_u8 bs; op_of_tag tag rest

-- A node, over the parser of its operands.
unfoldable pub node_of_tag : Reader ExprIr → ℕ → Reader ExprIr
node_of_tag operand tag rest =
    if tag == 1
    then (do (name, rest') ← read_string rest; ok (ExprIr.column_ref name, rest'))
    else if tag == 2
    then (do (lit, rest') ← parse_literal_ir rest; ok (ExprIr.literal lit, rest'))
    else if tag == 3
    then (do
      (op, rest₁) ← parse_binary_op rest
      (lhs, rest₂) ← operand rest₁
      (rhs, rest₃) ← operand rest₂
      ok (ExprIr.binary op lhs rhs, rest₃))
    else if tag == 4
    then (do
      (to, rest₁) ← parse_output_type_hint rest
      (e, rest₂) ← operand rest₁
      ok (ExprIr.cast to e, rest₂))
    else err bad_tag

unfoldable pub parse_expr_node : Reader ExprIr → Reader ExprIr
parse_expr_node operand bs = do (tag, rest) ← read_u8 bs; node_of_tag operand tag rest

unfoldable pub parse_expr_ir_fuel : ℕ → Reader ExprIr
parse_expr_ir_fuel zero bs = err out_of_fuel
parse_expr_ir_fuel (suc fuel) bs = parse_expr_node (parse_expr_ir_fuel fuel) bs

-- parse_expr_ir
unfoldable pub parse_exec_expr : Reader ExprIr
parse_exec_expr bs = parse_expr_ir_fuel (suc (length bs)) bs

-- `for _ in 0..n { items.push(...) }`
unfoldable pub read_times {ℓ} : {A : Type ℓ} → Reader A → ℕ → Reader (List A)
read_times read zero bs = ok ([], bs)
read_times read (suc n) bs = do
  (x, rest) ← read bs
  (xs, rest') ← read_times read n rest
  ok (x ∷ xs, rest')

unfoldable pub read_counted {ℓ} : {A : Type ℓ} → Reader A → Reader (List A)
read_counted read bs = do (n, rest) ← read_u32 bs; read_times read n rest

unfoldable pub parse_group : Reader GroupIr
parse_group bs = do
  (output_name, rest₁) ← read_string bs
  (e, rest₂) ← parse_exec_expr rest₁
  (hint, rest₃) ← parse_output_type_hint rest₂
  ok (record { output_name = output_name; expr = e; output_type = some hint }, rest₃)

unfoldable pub agg_func : ℕ → Result ParseError AggFunc
agg_func tag =
    if tag == 1
    then ok sum
    else if tag == 2
    then ok count
    else if tag == 3
    then ok count_star
    else if tag == 4
    then ok min
    else if tag == 5
    then ok max
    else if tag == 6
    then ok avg
    else err bad_tag

-- The hint of an aggregate's type is there from version 2 on.
unfoldable pub parse_hint_if : Bool → Reader (Option OutputTypeHint)
parse_hint_if false bs = ok (none, bs)
parse_hint_if true bs = do (hint, rest) ← parse_output_type_hint bs; ok (some hint, rest)

unfoldable pub parse_agg : (has_hint : Bool) → Reader AggIr
parse_agg has_hint bs = do
  (tag, rest₁) ← read_u8 bs
  func ← agg_func tag
  (output_name, rest₂) ← read_string rest₁
  (args, rest₃) ← read_counted parse_exec_expr rest₂
  (hint, rest₄) ← parse_hint_if has_hint rest₃
  ok (record { func = func; output_name = output_name; args = args; output_type = hint }, rest₄)

unfoldable pub parse_order : Reader OrderByIr
parse_order bs = do
  (column, rest₁) ← read_string bs
  (asc, rest₂) ← read_u8 rest₁
  (nulls_first, rest₃) ← read_u8 rest₂
  ok (record { column = column; asc = not (asc == 0); nulls_first = not (nulls_first == 0) }, rest₃)

-- A list that is there from version 3 on.
unfoldable pub read_if {ℓ} : {A : Type ℓ} → Bool → Reader A → Reader (List A)
read_if false read bs = ok ([], bs)
read_if true read bs = read_counted read bs

unfoldable pub parse_exec_ir_v1 : Bytes → Result ParseError ExecIr
parse_exec_ir_v1 bs = do
  (magic, rest₁) ← read_bytes 4 bs
  throw_if (not (bytes_eq magic exec_magic)) magic_mismatch
  (version, rest₂) ← read_u32 rest₁
  throw_if (not (version == 1 || version == 2 || version == 3 || version == 4)) bad_version
  (_, rest₃) ← read_u32 rest₂
  (filter_len, rest₄) ← read_u32 rest₃
  (filter_ir, rest₅) ← read_bytes filter_len rest₄
  (scan_projection, rest₆) ← read_counted read_string rest₅
  (groups, rest₇) ← read_if (not (ltb version 3)) parse_group rest₆
  (aggs, rest₈) ← read_counted (parse_agg (not (ltb version 2))) rest₇
  (order_by, rest₉) ← read_if (not (ltb version 3)) parse_order rest₈
  throw_if (not (length rest₉ == 0)) trailing_bytes
  ok (record {
    filter_ir = filter_ir;
    scan_projection = scan_projection;
    groups = groups;
    aggs = aggs;
    order_by = order_by;
  })
