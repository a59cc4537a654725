-- ===== src/Tests/Exec.antt =====
-- The aggregation SELECT a, sum(b + 1) FROM t GROUP BY a ORDER BY a, of a table with columns a and b.
use lance_duckdb.Common.{
  ℕ, ◌≢◌, err, ◌≡◌, ◌^◌, refl, Bytes, Bool-cases, true, false, List, [], ◌∷◌, Option, none, some,
  inl, inr, ltb, if◌then◌else◌, ok, arith, bytes_eq,
}
use mathlib.Core.Option.{some-injective}
use lance_duckdb.Common.Int.{ℤ, pos, negsuc, IsSigned, to_word}
use lance_duckdb.Wire.Reader.{is_utf8}
use lance_duckdb.ExprIr.Types
use lance_duckdb.ExprIr.Types.{LogicalType}
use lance_duckdb.ExprIr.Scope.{ColumnIndex, Scan}
use lance_duckdb.Exec.Types.{Value, Info, Expression, Expressions, DuckDb, ExecIr}
use lance_duckdb.Exec.Write.{
  write_u8, write_u32, write_u64, write_i64, write_string, write_strings,
  try_encode_output_type_hint, try_encode_exec_literal,
}
use lance_duckdb.Exec.Expr.{
  op_of_name, decimal_type, encode_scan_column, literal_only, encode_operand, encode_binary,
  try_encode_exec_expr,
}
use lance_duckdb.Exec.Pushdown.{is_pushdownable_expr, is_supported_group_expr}
use lance_duckdb.Exec.Aggregates.{
  EncodedGroup, try_map_agg_func, agg_argument, agg_of, encode_argument, encode_group, encode_agg,
  encode_groups, encode_aggs,
}
use lance_duckdb.Exec.Message.{
  LogicalAggregate, OrderNode, contains, contains_below, check_grouping, emplace, emplace_all,
  insert_index, sort_indexes, group_columns, agg_columns, scanned_names, func_tag, write_groups,
  write_aggs, initial_names, post_project, order_name, order_entries, write_orders, encode_order,
  write_exec_ir, try_encode_exec_ir,
}
use lance_duckdb.Exec.Parser.{parse_exec_ir_v1}
use lance_duckdb.Exec.Meaning.{IsDuckDb, IsExpression, AllExpressions}
use lance_duckdb.Exec.RoundTrip.Increasing.{Increasing}
use lance_duckdb.Exec.RoundTrip.Message.{IsPlan, parse_exec_ir_v1-try_encode_exec_ir}
use lance_duckdb.Wire.Reader.{out_of_fuel}
use lance_duckdb.Exec.Fuel.{parse_exec_ir_v1_never_out_of_fuel}
use mathlib.Core.List.{Forall₂}
use lance_duckdb.Exec.Sorts.{SortsBy, order_by-SortsBy}

-- Integers below 2 ^ 63, and casts that change nothing.
abbrev small : ℤ → Option ℤ
small (pos n) = if ltb n (2 ^ 63) then some (pos n) else none
small (negsuc n) = none

abbrev duckdb : DuckDb
duckdb = record {
  lower = λ s. s;
  same_type = λ from to. false;
  cast_as = λ v t. some v;
  to_bigint = small;
  float_to_double = λ bits. 0;
}

small-IsSigned : (z : ℤ) {w : ℤ} → small z ≡ some w → (w ≡ z) × IsSigned (2 ^ 63) w
small-IsSigned (pos n) h = elim (Bool-cases (ltb n (2 ^ 63))) [
  | inl t ↦ rw (← some-injective _ _ (rw t at h)) (refl, ground arith)
  | inr f ↦ absurd (never (rw f at h))
]
  where
    never : {w : ℤ} → ◌≡◌ {A = Option ℤ} none (some w) → ⊥
    never h = cc
small-IsSigned (negsuc n) h = cc

duckdb_laws : IsDuckDb duckdb
duckdb_laws = record {
  cast_value = λ v t i h. rw (← some-injective _ _ h) i;
  bigint_same = small-IsSigned;
  double_range = λ bits. omega arith;
}

abbrev info_of_type : LogicalType → Bytes → Info
info_of_type type name = record {
  return_type = type;
  has_parameter = false;
  is_volatile = false;
  can_throw = false;
  name = name;
}

abbrev bigint : LogicalType
bigint = LogicalType.signed Types.big

abbrev scan : Scan
scan = record {
  table_index = 0;
  column_ids = ColumnIndex.primary 0 ∷ ColumnIndex.primary 1 ∷ [];
  names = (b'a' ∷ []) ∷ (b'b' ∷ []) ∷ [];
}

abbrev column : ℕ → Bytes → Expression
column i name =
    Expression.column_ref (info_of_type bigint name) (record { table_index = 0; column_index = i })

abbrev one : Expression
one = Expression.constant (info_of_type bigint (b'1' ∷ [])) (Value.integer (pos 1))

abbrev sum_b : Expression
sum_b =
    Expression.aggregate (info_of_type bigint (b's' ∷ [])) (b's' ∷ b'u' ∷ b'm' ∷ []) false false
      false
      (Expressions.cons
        (Expression.function (info_of_type bigint (b'f' ∷ [])) (b'+' ∷ [])
          (Expressions.cons (column 1 (b'b' ∷ [])) (Expressions.cons one Expressions.nil)))
        Expressions.nil)

abbrev aggregation : LogicalAggregate
aggregation = record {
  has_grouping_functions = false;
  grouping_sets = (0 ∷ []) ∷ [];
  groups = column 0 (b'a' ∷ []) ∷ [];
  expressions = sum_b ∷ [];
  has_one_child = true;
  group_index = 5;
  aggregate_index = 6;
}

abbrev by_group : List OrderNode
by_group =
    record {
      expression =
          Expression.column_ref (info_of_type bigint (b'a' ∷ []))
            (record { table_index = 5; column_index = 0 });
      ascending = true;
      nulls_first = false;
    }
    ∷ []

abbrev message : Bytes
message =
    b'L' ∷ b'E' ∷ b'X' ∷ b'1' ∷ 4 ∷ 0 ∷ 0 ∷ 0 ∷ 0 ∷ 0 ∷ 0 ∷ 0 ∷ 0 ∷ 0 ∷ 0 ∷ 0 ∷ 2 ∷ 0 ∷ 0 ∷ 0 ∷ 1
    ∷ 0 ∷ 0 ∷ 0 ∷ b'a' ∷ 1 ∷ 0 ∷ 0 ∷ 0 ∷ b'b' ∷ 1 ∷ 0 ∷ 0 ∷ 0 ∷ 1 ∷ 0 ∷ 0 ∷ 0 ∷ b'a' ∷ 1 ∷ 1 ∷ 0 ∷ 0
    ∷ 0 ∷ b'a' ∷ 2 ∷ 1 ∷ 0 ∷ 0 ∷ 0 ∷ 1 ∷ 1 ∷ 0 ∷ 0 ∷ 0 ∷ b's' ∷ 1 ∷ 0 ∷ 0 ∷ 0 ∷ 3 ∷ 1 ∷ 1 ∷ 1 ∷ 0
    ∷ 0 ∷ 0 ∷ b'b' ∷ 2 ∷ 1 ∷ 1 ∷ 0 ∷ 0 ∷ 0 ∷ 0 ∷ 0 ∷ 0 ∷ 0 ∷ 2 ∷ 1 ∷ 0 ∷ 0 ∷ 0 ∷ 1 ∷ 0 ∷ 0 ∷ 0
    ∷ b'a' ∷ 1 ∷ 0 ∷ []

encoded :
    try_encode_exec_ir duckdb false scan true [] [] [] aggregation (some by_group) none ≡ ok message
unfolding try_encode_exec_ir write_exec_ir encode_order check_grouping contains_below contains
    encode_groups encode_group encode_aggs encode_agg encode_argument agg_of agg_argument
    try_map_agg_func try_encode_exec_expr encode_binary encode_operand encode_scan_column
    literal_only try_encode_exec_literal decimal_type op_of_name is_pushdownable_expr
    is_supported_group_expr try_encode_output_type_hint write_u8 write_u32 write_u64 write_i64
    write_string write_strings write_groups write_aggs write_orders func_tag emplace emplace_all
    insert_index sort_indexes group_columns agg_columns scanned_names initial_names post_project
    order_entries order_name bytes_eq to_word
encoded = refl

parse_exec_ir_v1-try_encode_exec_ir_example :
    (ir : ExecIr) × (parse_exec_ir_v1 message ≡ ok ir)
    × IsPlan duckdb scan [] [] [] aggregation (some by_group) none ir
unfolding is_utf8 IsExpression AllExpressions
parse_exec_ir_v1-try_encode_exec_ir_example =
    parse_exec_ir_v1-try_encode_exec_ir duckdb duckdb_laws false scan (refl, (refl, tt)) [] tt true
      [] [] aggregation (some by_group) none ((tt, refl), tt) (((((tt, (tt, tt)), tt), refl), tt))
      tt encoded

abbrev encoded_group : EncodedGroup
encoded_group = record {
  output_name = b'g' ∷ [];
  encoded_expr = [];
  output_type_hint = [];
  columns = 3 ∷ 1 ∷ 3 ∷ [];
}

order_by-SortsBy_example :
    (ir : ExecIr) × (parse_exec_ir_v1 message ≡ ok ir)
    × Forall₂ (SortsBy aggregation none ir.groups ir.aggs) by_group ir.order_by
unfolding is_utf8 IsExpression AllExpressions
order_by-SortsBy_example =
    order_by-SortsBy duckdb duckdb_laws false scan (refl, (refl, tt)) [] tt true [] [] aggregation
      (some by_group) none ((tt, refl), tt) (((((tt, (tt, tt)), tt), refl), tt)) tt tt encoded

parse_exec_ir_v1_never_out_of_fuel_example : parse_exec_ir_v1 message ≢ err out_of_fuel
parse_exec_ir_v1_never_out_of_fuel_example = parse_exec_ir_v1_never_out_of_fuel message
