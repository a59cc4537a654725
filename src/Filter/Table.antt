-- ===== src/Filter/Table.antt =====
-- src/lance_filter_ir.cpp, TryBuildLanceTableFilterIRExpr: the encoder of a filter on one column, and of
-- an expression that refers to this column alone.
use lance_duckdb.Common.{Bytes, Bool, true, false, List, [], ◌∷◌, Option, ok, err, ◌>>=◌}
use lance_duckdb.ExprIr.Types.{
  DuckDb, operator_not, operator_is_null, operator_is_not_null, compare_in, compare_not_in,
}
use lance_duckdb.ExprIr.Nodes.{
  try_encode_literal, try_encode_and, try_encode_or, try_encode_not, try_encode_is_null,
  try_encode_is_not_null, try_encode_in_list,
}
use lance_duckdb.Filter.Types.{
  declined, Attempt, attempt, Expression, Expressions, TableFilter, TableFilters, Casts,
}
use lance_duckdb.Filter.Calls.{
  function_kind, table_call_ir, cast_ir, comparison_ir, conjunction_ir, literals_ir, value_literals,
}

module _ (db : DuckDb) (casts : Casts) (col_ref_ir : Bytes) where
  unfoldable mutual
    pub build_from_expr : Expression → Attempt Bytes
    build_from_expr (Expression.reference index) = ok col_ref_ir
    build_from_expr (Expression.function name Expressions.nil) = err declined
    build_from_expr (Expression.function name (Expressions.cons e rest)) =
        table_call_ir db casts (function_kind name) name (build_from_expr e) rest
    build_from_expr (Expression.constant value) = attempt (try_encode_literal db value)
    build_from_expr (Expression.cast try_cast return_type child) =
        cast_ir db casts try_cast return_type child
    build_from_expr (Expression.comparison type left right) =
        comparison_ir type (build_from_expr left) (build_from_expr right)
    build_from_expr (Expression.conjunction type children) =
        conjunction_ir type (build_from_children children)
    build_from_expr (Expression.operator type children) = elim type [
      | operator_not ↦ build_from_unary try_encode_not children
      | operator_is_null ↦ build_from_unary try_encode_is_null children
      | operator_is_not_null ↦ build_from_unary try_encode_is_not_null children
      | compare_in ↦ build_from_in false children
      | compare_not_in ↦ build_from_in true children
      | _ ↦ err declined
    ]
    build_from_expr (Expression.between input lower upper lower_type upper_type) = err declined
    build_from_expr (Expression.column_ref depth binding) = err declined
    build_from_expr Expression.null = err declined
    build_from_expr Expression.other = err declined

    pub build_from_children : Expressions → Attempt (List Bytes)
    build_from_children Expressions.nil = ok []
    build_from_children (Expressions.cons e es) = do
      ir ← build_from_expr e
      irs ← build_from_children es
      ok (ir ∷ irs)

    pub build_from_unary : (Bytes → Option Bytes) → Expressions → Attempt Bytes
    build_from_unary encode Expressions.nil = err declined
    build_from_unary encode (Expressions.cons e Expressions.nil) =
        build_from_expr e >>= λ ir. attempt (encode ir)
    build_from_unary encode (Expressions.cons e (Expressions.cons e' es)) = err declined

    pub build_from_in : (negated : Bool) → Expressions → Attempt Bytes
    build_from_in negated Expressions.nil = err declined
    build_from_in negated (Expressions.cons e Expressions.nil) = err declined
    build_from_in negated (Expressions.cons e (Expressions.cons item items)) = do
      lhs_ir ← build_from_expr e
      values ← literals_ir db (Expressions.cons item items)
      attempt (try_encode_in_list negated lhs_ir values)

  unfoldable mutual
    pub try_build_table_filter_ir_expr : TableFilter → Attempt Bytes
    try_build_table_filter_ir_expr (TableFilter.optional child_filter) =
        try_build_table_filter_ir_expr child_filter
    try_build_table_filter_ir_expr TableFilter.optional_empty = err declined
    try_build_table_filter_ir_expr (TableFilter.constant_comparison type constant) =
        comparison_ir type (ok col_ref_ir) (attempt (try_encode_literal db constant))
    try_build_table_filter_ir_expr TableFilter.is_null = attempt (try_encode_is_null col_ref_ir)
    try_build_table_filter_ir_expr TableFilter.is_not_null =
        attempt (try_encode_is_not_null col_ref_ir)
    try_build_table_filter_ir_expr (TableFilter.in_filter values) = do
      items ← value_literals db values
      attempt (try_encode_in_list false col_ref_ir items)
    try_build_table_filter_ir_expr (TableFilter.conjunction_and child_filters) = do
      children ← build_child_filters child_filters
      attempt (try_encode_and children)
    try_build_table_filter_ir_expr (TableFilter.conjunction_or child_filters) = do
      children ← build_child_filters child_filters
      attempt (try_encode_or children)
    try_build_table_filter_ir_expr (TableFilter.expression expr) = build_from_expr expr
    try_build_table_filter_ir_expr TableFilter.expression_empty = err declined
    try_build_table_filter_ir_expr TableFilter.other = err declined

    pub build_child_filters : TableFilters → Attempt (List Bytes)
    build_child_filters TableFilters.nil = ok []
    build_child_filters (TableFilters.cons filter filters) = do
      child_ir ← try_build_table_filter_ir_expr filter
      children ← build_child_filters filters
      ok (child_ir ∷ children)
