-- ===== src/Tests/ExprIr.antt =====
-- Expression messages: a filtered projection over a scan of two columns.
use lance_duckdb.Common.{
  ◌≡◌, refl, Bytes, [], ◌∷◌, ◌++◌, none, some, true, false, bytes_eq, arith, ok, ◌≢◌, err,
}
use lance_duckdb.Common.Int.{pos, negsuc, to_word, of_word}
use lance_duckdb.Wire.Reader.{is_utf8, out_of_fuel}
use lance_duckdb.ExprIr.Types
use lance_duckdb.ExprIr.Update.{
  encode_node, encode_nodes, encode_in, append_items, encode_call, binary_op_code, encode_cast,
  count_exprs, is_null_expr,
}
use lance_duckdb.ExprIr.Scope.{
  ColumnIndex, Scan, Scope, encode_lance_expr_ir, encode_update_expr_node, encode_scope_column_ref,
  encode_scope_column_binding, resolve_base_column_name, nth_expr,
}
use lance_duckdb.ExprIr.Literals.{
  encode_literal, encode_type_hint, signed_tag, timestamp_unit, decimal_value, decimal_digits,
  scan_decimal, scan_char, scan_digit, pad_decimal,
}
use lance_duckdb.ExprIr.Nodes.{
  encode_column_ref, encode_column_name, any_empty, encode_binary_node, try_encode_and,
  try_encode_column_ref, try_encode_literal, try_encode_comparison_op, try_encode_comparison,
  encode_comparison_op, encode_comparison_node, try_encode_like, encode_like_node,
  encode_conjunction_node, try_wrap_message,
}
use lance_duckdb.Wire.Writer.{
  append_len_prefixed, append_all_len_prefixed, append_u8, append_u32, append_u64, append_i64,
  append_i128, append_bytes, append_len_prefixed_string, encode_message,
}
use lance_duckdb.ExprIr.Parser.{Session, parse_expr_ir, nest_fields, parse_literal, parse_type}
use lance_duckdb.ExprIr.Meaning.{
  comparison_of, conjunction, joined, update_meaning, IsScope, IsBound,
}
use lance_duckdb.ExprIr.RoundTrip.Values.{scalar_of}
use lance_duckdb.ExprIr.RoundTrip.Literals.{parse_literal-encode, parse_type-encode, data_type_of}
use lance_duckdb.ExprIr.Exports.{Built, BuiltAll}
use lance_duckdb.ExprIr.Exports.Reading.{parse_expr_ir-try_wrap_message}
use lance_duckdb.ExprIr.RoundTrip.Message.{parse_expr_ir-encode}
use lance_duckdb.ExprIr.Fuel.Whole.{parse_expr_ir_never_out_of_fuel}
use lance_duckdb.Tests.Base.{duckdb, duckdb_laws}

abbrev session : Session
session = record { registry = none; compiles = λ pattern flags. true }

abbrev scan : Scan
scan = record {
  table_index = 0;
  column_ids = ColumnIndex.primary 1 ∷ ColumnIndex.primary 0 ∷ [];
  names = (b'i' ∷ b'd' ∷ []) ∷ (b'v' ∷ []) ∷ [];
}

-- The projection computes `id` and `v + 7` for table index 5.
abbrev scope : Scope
scope = Scope.filter (
    Scope.projection 5
      (Types.BoundExprs.cons (Types.BoundExpr.reference [] 1) (
        Types.BoundExprs.cons
          (Types.BoundExpr.function (b'+' ∷ []) (
            Types.BoundExprs.cons
              (Types.BoundExpr.column_ref (record { table_index = 0; column_index = 0 }))
              (Types.BoundExprs.cons
                (Types.BoundExpr.constant (Types.Value.signed Types.whole (pos 7)))
                Types.BoundExprs.nil)))
          Types.BoundExprs.nil))
      (Scope.filter Scope.get))

-- Column 1 of the projection is NOT IN (-1, CAST 'x' AS INTEGER).
abbrev expr : Types.BoundExpr
expr = Types.BoundExpr.operator Types.compare_not_in (
    Types.BoundExprs.cons
      (Types.BoundExpr.column_ref (record { table_index = 5; column_index = 1 }))
      (Types.BoundExprs.cons (Types.BoundExpr.constant (Types.Value.signed Types.whole (negsuc 0)))
        (Types.BoundExprs.cons
          (Types.BoundExpr.cast false (Types.LogicalType.signed Types.whole)
            (Types.BoundExpr.constant (Types.Value.varchar (b'x' ∷ []))))
          Types.BoundExprs.nil)))

abbrev message : Bytes
message =
    b'L' ∷ b'U' ∷ b'E' ∷ b'1' ∷ 12 ∷ 1 ∷ 30 ∷ 0 ∷ 0 ∷ 0 ∷ 4 ∷ 1 ∷ 10 ∷ 0 ∷ 0 ∷ 0 ∷ 1 ∷ 1 ∷ 0 ∷ 0 ∷ 0
    ∷ 1 ∷ 0 ∷ 0 ∷ 0 ∷ b'v' ∷ 10 ∷ 0 ∷ 0 ∷ 0 ∷ 2 ∷ 2 ∷ 7 ∷ 0 ∷ 0 ∷ 0 ∷ 0 ∷ 0 ∷ 0 ∷ 0 ∷ 2 ∷ 0 ∷ 0 ∷ 0
    ∷ 10 ∷ 0 ∷ 0 ∷ 0 ∷ 2 ∷ 2 ∷ 255 ∷ 255 ∷ 255 ∷ 255 ∷ 255 ∷ 255 ∷ 255 ∷ 255 ∷ 13 ∷ 0 ∷ 0 ∷ 0 ∷ 3
    ∷ 4 ∷ 7 ∷ 0 ∷ 0 ∷ 0 ∷ 2 ∷ 6 ∷ 1 ∷ 0 ∷ 0 ∷ 0 ∷ b'x' ∷ []

encoded : encode_lance_expr_ir duckdb scan scope expr ≡ ok message
unfolding encode_lance_expr_ir encode_update_expr_node encode_node encode_nodes encode_in
    append_items encode_call binary_op_code encode_scope_column_ref encode_scope_column_binding
    resolve_base_column_name nth_expr encode_cast encode_literal encode_type_hint encode_column_ref
    encode_column_name any_empty encode_binary_node append_len_prefixed append_all_len_prefixed
    append_u8 append_u32 append_u64 append_i64 append_bytes append_len_prefixed_string
    encode_message to_word count_exprs is_null_expr signed_tag bytes_eq
encoded = refl

parse_expr_ir-encode_example :
    parse_expr_ir session message ≡ update_meaning duckdb session scan scope expr
unfolding is_utf8 IsScope IsBound count_exprs
parse_expr_ir-encode_example =
    parse_expr_ir-encode duckdb session scan scope expr duckdb_laws (refl, (refl, tt))
      ((refl, (((refl, (tt, (omega arith, tt))), tt))), tt)
      (omega arith, (tt, (omega arith, (refl, tt)))) encoded

-- v = 7 AND v LIKE 'x%' ESCAPE '!', put together from the exported encoders.
abbrev v_column_ir : Bytes
v_column_ir = 1 ∷ 1 ∷ 0 ∷ 0 ∷ 0 ∷ 1 ∷ 0 ∷ 0 ∷ 0 ∷ b'v' ∷ []

abbrev seven_ir : Bytes
seven_ir = 2 ∷ 2 ∷ 7 ∷ 0 ∷ 0 ∷ 0 ∷ 0 ∷ 0 ∷ 0 ∷ 0 ∷ []

abbrev pattern_ir : Bytes
pattern_ir = 2 ∷ 6 ∷ 2 ∷ 0 ∷ 0 ∷ 0 ∷ b'x' ∷ b'%' ∷ []

abbrev v_comparison_ir : Bytes
v_comparison_ir = 5 ∷ 0 ∷ 10 ∷ 0 ∷ 0 ∷ 0 ∷ (v_column_ir ++ 10 ∷ 0 ∷ 0 ∷ 0 ∷ seven_ir)

abbrev like_ir : Bytes
like_ir = 13 ∷ 2 ∷ 10 ∷ 0 ∷ 0 ∷ 0 ∷ (v_column_ir ++ 8 ∷ 0 ∷ 0 ∷ 0 ∷ (pattern_ir ++ b'!' ∷ []))

abbrev both_ir : Bytes
both_ir = 6 ∷ 1 ∷ 2 ∷ 0 ∷ 0 ∷ 0 ∷ 30 ∷ 0 ∷ 0 ∷ 0 ∷ (v_comparison_ir ++ 29 ∷ 0 ∷ 0 ∷ 0 ∷ like_ir)

abbrev v_seven : Types.Expr
v_seven =
    Types.Expr.binary (Types.Expr.column (b'v' ∷ [])) Types.eq
      (Types.Expr.literal (Types.ScalarValue.int64 (pos 7)))

abbrev v_like : Types.Expr
v_like =
    Types.Expr.like (Types.Expr.column (b'v' ∷ []))
      (Types.Expr.literal (Types.ScalarValue.utf8 (b'x' ∷ b'%' ∷ []))) (some b'!') false

column-Built : Built duckdb session v_column_ir (ok (Types.Expr.column (b'v' ∷ [])))
unfolding try_encode_column_ref encode_column_ref any_empty append_u8 append_u32
    append_all_len_prefixed append_len_prefixed append_bytes is_utf8 nest_fields
column-Built = Built.column_ref (b'v' ∷ []) [] (refl, tt) refl

seven-Built :
    Built duckdb session seven_ir (ok (Types.Expr.literal (Types.ScalarValue.int64 (pos 7))))
unfolding try_encode_literal encode_literal append_u8 append_u64 append_i64 to_word scalar_of
seven-Built = Built.literal (Types.Value.signed Types.whole (pos 7)) (omega arith) refl

pattern-Built :
    Built duckdb session pattern_ir
      (ok (Types.Expr.literal (Types.ScalarValue.utf8 (b'x' ∷ b'%' ∷ []))))
unfolding try_encode_literal encode_literal append_u8 append_u32 append_len_prefixed_string
    append_len_prefixed append_bytes is_utf8 scalar_of
pattern-Built = Built.literal (Types.Value.varchar (b'x' ∷ b'%' ∷ [])) refl refl

comparison-Built : Built duckdb session v_comparison_ir (ok v_seven)
unfolding try_encode_comparison_op try_encode_comparison encode_comparison_op encode_comparison_node
    append_u8 append_u32 append_len_prefixed append_bytes comparison_of
comparison-Built = Built.comparison Types.compare_equal column-Built seven-Built refl refl

like-Built : Built duckdb session like_ir (ok v_like)
unfolding try_encode_like encode_like_node append_u8 append_u32 append_len_prefixed append_bytes
like-Built = Built.like false true b'!' column-Built pattern-Built refl

both-Built : Built duckdb session both_ir (ok (Types.Expr.binary v_seven Types.and v_like))
unfolding try_encode_and encode_conjunction_node append_all_len_prefixed append_u8 append_u32
    append_len_prefixed append_bytes conjunction joined
both-Built =
    Built.all_of (BuiltAll.cons comparison-Built (BuiltAll.cons like-Built BuiltAll.nil)) refl

parse_expr_ir-try_wrap_message_example :
    parse_expr_ir session (b'L' ∷ b'U' ∷ b'E' ∷ b'1' ∷ both_ir)
    ≡ ok (Types.Expr.binary v_seven Types.and v_like)
unfolding try_wrap_message encode_message
parse_expr_ir-try_wrap_message_example =
    parse_expr_ir-try_wrap_message duckdb session {root = both_ir} duckdb_laws both-Built refl

-- -1.5 as DECIMAL(4, 2)
abbrev decimal : Types.Value
decimal = Types.Value.decimal 4 2 (b'-' ∷ b'1' ∷ b'.' ∷ b'5' ∷ [])

abbrev decimal_ir : Bytes
decimal_ir =
    2 ∷ 9 ∷ 4 ∷ 2 ∷ 106 ∷ 255 ∷ 255 ∷ 255 ∷ 255 ∷ 255 ∷ 255 ∷ 255 ∷ 255 ∷ 255 ∷ 255 ∷ 255 ∷ 255
    ∷ 255 ∷ 255 ∷ 255 ∷ []

parse_literal-encode_example :
    (body : Bytes) × (decimal_ir ≡ 2 ∷ body)
    × (parse_literal body ≡ ok (Types.Expr.literal (scalar_of duckdb decimal), []))
unfolding encode_literal decimal_value decimal_digits scan_decimal scan_char scan_digit pad_decimal
    append_i128 append_u64 append_u8 to_word of_word
parse_literal-encode_example = parse_literal-encode duckdb duckdb_laws decimal tt refl

parse_type-encode_example :
    parse_type (14 ∷ 3 ∷ 1 ∷ []) ≡ ok (data_type_of (Types.LogicalType.timestamp Types.ns), 1 ∷ [])
unfolding encode_type_hint append_u8 timestamp_unit
parse_type-encode_example = parse_type-encode (Types.LogicalType.timestamp Types.ns) (1 ∷ []) refl

-- NOT of NOT of a column reference that is cut off behind its count of segments.
abbrev cut_off : Bytes
cut_off =
    b'L' ∷ b'U' ∷ b'E' ∷ b'1' ∷ 7 ∷ 10 ∷ 0 ∷ 0 ∷ 0 ∷ 7 ∷ 5 ∷ 0 ∷ 0 ∷ 0 ∷ 1 ∷ 1 ∷ 0 ∷ 0 ∷ 0 ∷ []

parse_expr_ir_never_out_of_fuel_example : parse_expr_ir session cut_off ≢ err out_of_fuel
parse_expr_ir_never_out_of_fuel_example = parse_expr_ir_never_out_of_fuel session cut_off
