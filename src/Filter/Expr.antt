-- ===== src/Filter/Expr.antt =====
-- src/lance_filter_ir.cpp, TryBuildLanceExprFilterIR: the encoder of an expression over the columns of a
-- LogicalGet.
use lance_duckdb.Common.{Bytes, Bool, true, false, List, [], ◌∷◌, Option, ok, err, ◌>>=◌}
use lance_duckdb.ExprIr.Types.{
  DuckDb, operator_not, operator_is_null, operator_is_not_null, compare_in, compare_not_in,
}
use lance_duckdb.ExprIr.Nodes.{
  try_encode_literal, try_encode_and, try_encode_not, try_encode_is_null, try_encode_is_not_null,
  try_encode_in_list,
}
use lance_duckdb.Filter.Types.{
  declined, Attempt, attempt, Expression, Expressions, LogicalGet, Table, Casts,
}
use lance_duckdb.Filter.Columns.{try_build_column_ref_ir}
use lance_duckdb.Filter.Calls.{
  function_kind, call_ir, cast_ir, comparison_ir, conjunction_ir, literals_ir,
}

module _ (db : DuckDb) (casts : Casts) (get : LogicalGet) (table : Table)
    (exclude_computed_columns : Bool) where
  abbrev pub column_ir : Expression → Attempt Bytes
  column_ir = try_build_column_ref_ir casts get table exclude_computed_columns

  unfoldable mutual
    pub try_build_expr_filter_ir : Expression → Attempt Bytes
    try_build_expr_filter_ir (Expression.column_ref depth binding) =
        column_ir (Expression.column_ref depth binding)
    try_build_expr_filter_ir (Expression.reference index) = column_ir (Expression.reference index)
    try_build_expr_filter_ir (Expression.function name Expressions.nil) = err declined
    try_build_expr_filter_ir (Expression.function name (Expressions.cons e rest)) =
        call_ir db casts (function_kind name) name
          (column_ir (Expression.function name (Expressions.cons e rest)))
          (try_build_expr_filter_ir e) rest
    try_build_expr_filter_ir (Expression.constant value) = attempt (try_encode_literal db value)
    try_build_expr_filter_ir (Expression.cast try_cast return_type child) =
        cast_ir db casts try_cast return_type child
    try_build_expr_filter_ir (Expression.comparison type left right) =
        comparison_ir type (try_build_expr_filter_ir left) (try_build_expr_filter_ir right)
    try_build_expr_filter_ir (Expression.conjunction type children) =
        conjunction_ir type (build_children children)
    try_build_expr_filter_ir (Expression.operator type children) = elim type [
      | operator_not ↦ build_unary try_encode_not children
      | operator_is_null ↦ build_unary try_encode_is_null children
      | operator_is_not_null ↦ build_unary try_encode_is_not_null children
      | compare_in ↦ build_in false children
      | compare_not_in ↦ build_in true children
      | _ ↦ err declined
    ]
    try_build_expr_filter_ir (Expression.between input lower upper lower_type upper_type) = do
      lower_cmp_ir ←
          comparison_ir lower_type (try_build_expr_filter_ir input) (try_build_expr_filter_ir lower)
      upper_cmp_ir ←
          comparison_ir upper_type (try_build_expr_filter_ir input) (try_build_expr_filter_ir upper)
      attempt (try_encode_and (lower_cmp_ir ∷ upper_cmp_ir ∷ []))
    try_build_expr_filter_ir Expression.null = err declined
    try_build_expr_filter_ir Expression.other = err declined

    pub build_children : Expressions → Attempt (List Bytes)
    build_children Expressions.nil = ok []
    build_children (Expressions.cons e es) = do
      ir ← try_build_expr_filter_ir e
      irs ← build_children es
      ok (ir ∷ irs)

    pub build_unary : (Bytes → Option Bytes) → Expressions → Attempt Bytes
    build_unary encode Expressions.nil = err declined
    build_unary encode (Expressions.cons e Expressions.nil) =
        try_build_expr_filter_ir e >>= λ ir. attempt (encode ir)
    build_unary encode (Expressions.cons e (Expressions.cons e' es)) = err declined

    -- At least one item.
    pub build_in : (negated : Bool) → Expressions → Attempt Bytes
    build_in negated Expressions.nil = err declined
    build_in negated (Expressions.cons e Expressions.nil) = err declined
    build_in negated (Expressions.cons e (Expressions.cons item items)) = do
      lhs_ir ← try_build_expr_filter_ir e
      values ← literals_ir db (Expressions.cons item items)
      attempt (try_encode_in_list negated lhs_ir values)
