-- ===== src/Filter/Sound/Table.antt =====
-- TryBuildLanceTableFilterIRExpr encodes what the filter stands for.
use lance_duckdb.Common.{
  ◌≡◌, Bytes, subst, Bool, true, false, Option, some, Result, ok, ◌>>=◌, >>=-eq-ok, ok-injective,
}
use lance_duckdb.Wire.Reader.{ParseError}
use lance_duckdb.ExprIr.Types.{
  DuckDb, operator_not, operator_is_null, operator_is_not_null, compare_in, compare_not_in, Expr,
}
use lance_duckdb.ExprIr.Nodes.{
  try_encode_literal, try_encode_not, try_encode_is_null, try_encode_is_not_null,
}
use lance_duckdb.ExprIr.Parser.{Session}
use lance_duckdb.ExprIr.Exports.{Built, BuiltAll}
use lance_duckdb.Filter.Types.{
  Attempt, attempt, Expression, Expressions, TableFilter, TableFilters, Casts,
}
use lance_duckdb.Filter.Functions.{function_kind-kind_of}
use lance_duckdb.Filter.Calls.{function_kind, literals_ir, value_literals}
use lance_duckdb.Filter.Table.{
  build_from_expr, build_from_children, build_from_unary, build_from_in,
  try_build_table_filter_ir_expr, build_child_filters,
}
use lance_duckdb.Filter.Meaning.{
  call_meaning, filter_meaning, children_meaning, unary_meaning, in_meaning, named_column,
  table_filter_meaning, child_filters_meaning, value_meaning,
}
use lance_duckdb.Filter.Valid.{
  IsCasts, IsExpression, AllExpressions, IsTableFilter, AllTableFilters,
}
use lance_duckdb.Filter.Sound.Calls.{table_call_ir-Built, comparison_ir-Built, conjunction_ir-Built}
use lance_duckdb.Filter.Sound.Constants.{
  attempt-ok, Builds, BuildsAll, value-Built, cast_ir-Built, literals_ir-Built,
  value_literals-Built,
}

module _ (db : DuckDb) (casts : Casts) (laws : IsCasts casts) (session : Session)
    (name col_ref_ir : Bytes) (column : Built db session col_ref_ir (ok (Expr.column name))) where
  abbrev build : Expression → Attempt Bytes
  build = build_from_expr db casts col_ref_ir

  abbrev meaning : Expression → Result ParseError Expr
  meaning = filter_meaning db casts session (named_column db casts session name)

  mutual
    unfolding build_from_expr filter_meaning IsExpression

    from_expr-Builds : (e : Expression) → IsExpression e → Builds db session (build e) (meaning e)
    from_expr-Builds (Expression.reference index) v out h = rw (← ok-injective h) column
    from_expr-Builds (Expression.constant value) v out h =
        value-Built db casts laws session value v h
    from_expr-Builds (Expression.cast try_cast type child) v out h =
        cast_ir-Built db casts laws session try_cast type child v h
    from_expr-Builds (Expression.function f Expressions.nil) v out h = cc
    from_expr-Builds (Expression.function f (Expressions.cons e rest)) v out h =
        subst
          (λ kind. Built db session out (
            call_meaning db casts session kind f
              (named_column db casts session name (Expression.function f (Expressions.cons e rest)))
              (meaning e) rest))
          (function_kind-kind_of f)
          (table_call_ir-Built db casts laws session (build e) (meaning e)
            (from_expr-Builds e v.1.0) (function_kind f) f _ rest v.0 h)
    from_expr-Builds (Expression.comparison type left right) v out h =
        comparison_ir-Built db casts laws session type (build left) (build right) (meaning left)
          (meaning right) (from_expr-Builds left v.0) (from_expr-Builds right v.1) out h
    from_expr-Builds (Expression.conjunction type children) v out h =
        conjunction_ir-Built db casts laws session type _ _ (from_children-Builds children v) out h
    from_expr-Builds (Expression.operator operator_not children) v out h =
        from_unary-Builds try_encode_not Expr.not (λ ir m o b e. Built.negation b e) children v out
          h
    from_expr-Builds (Expression.operator operator_is_null children) v out h =
        from_unary-Builds try_encode_is_null Expr.is_null (λ ir m o b e. Built.is_null b e) children
          v out h
    from_expr-Builds (Expression.operator operator_is_not_null children) v out h =
        from_unary-Builds try_encode_is_not_null Expr.is_not_null
          (λ ir m o b e. Built.is_not_null b e) children v out h
    from_expr-Builds (Expression.operator compare_in children) v out h =
        from_in-Builds false children v out h
    from_expr-Builds (Expression.operator compare_not_in children) v out h =
        from_in-Builds true children v out h
    from_expr-Builds (Expression.operator _ children) v out h = cc
    from_expr-Builds _ v out h = cc

    from_children-Builds :
        (es : Expressions)
        → AllExpressions es
        → BuildsAll db session
            (build_from_children db casts col_ref_ir es)
            (children_meaning db casts session (named_column db casts session name) es)
    from_children-Builds Expressions.nil v outs h = rw (← ok-injective h) BuiltAll.nil
    from_children-Builds (Expressions.cons e es) v outs h =
        let (ir, e₁, k₁) = >>=-eq-ok (build e) _ h in
        let (irs, e₂, k₂) = >>=-eq-ok (build_from_children db casts col_ref_ir es) _ k₁ in
        rw (← ok-injective k₂)
          (BuiltAll.cons (from_expr-Builds e v.0 ir e₁) (from_children-Builds es v.1 irs e₂))

    from_unary-Builds :
        (encode : Bytes → Option Bytes) (wrap : Expr → Expr)
        → ((ir : Bytes) (m : Result ParseError Expr) (out : Bytes)
            → Built db session ir m
            → encode ir ≡ some out
            → Built db session out (m >>= λ x. ok (wrap x)))
        → (es : Expressions) → AllExpressions es
        → Builds db session
            (build_from_unary db casts col_ref_ir encode es)
            (unary_meaning db casts session (named_column db casts session name) wrap es)
    from_unary-Builds encode wrap b Expressions.nil v out h = cc
    from_unary-Builds encode wrap b (Expressions.cons e Expressions.nil) v out h =
        let (ir, e₁, k) = >>=-eq-ok (build e) _ h in
        b ir (meaning e) out (from_expr-Builds e v.0 ir e₁) (attempt-ok _ k)
    from_unary-Builds encode wrap b (Expressions.cons e (Expressions.cons e' es)) v out h = cc

    from_in-Builds :
        (negated : Bool) (es : Expressions)
        → AllExpressions es
        → Builds db session
            (build_from_in db casts col_ref_ir negated es)
            (in_meaning db casts session (named_column db casts session name) negated es)
    from_in-Builds negated Expressions.nil v out h = cc
    from_in-Builds negated (Expressions.cons e Expressions.nil) v out h = cc
    from_in-Builds negated (Expressions.cons e (Expressions.cons item items)) v out h =
        let (ir, e₁, k₁) = >>=-eq-ok (build e) _ h in
        let (irs, e₂, k₂) = >>=-eq-ok (literals_ir db (Expressions.cons item items)) _ k₁ in
        Built.in_list negated (from_expr-Builds e v.0 ir e₁)
          (literals_ir-Built db casts laws session (Expressions.cons item items) v.1 irs e₂)
          (attempt-ok _ k₂)

  mutual
    unfolding try_build_table_filter_ir_expr table_filter_meaning IsTableFilter

    pub table_filter-Builds :
        (f : TableFilter)
        → IsTableFilter f
        → Builds db session
            (try_build_table_filter_ir_expr db casts col_ref_ir f)
            (table_filter_meaning db casts session name f)
    table_filter-Builds (TableFilter.optional f) v out h = table_filter-Builds f v out h
    table_filter-Builds TableFilter.is_null v out h = Built.is_null column (attempt-ok _ h)
    table_filter-Builds TableFilter.is_not_null v out h = Built.is_not_null column (attempt-ok _ h)
    table_filter-Builds (TableFilter.constant_comparison type value) v out h =
        comparison_ir-Built db casts laws session type (ok col_ref_ir)
          (attempt (try_encode_literal db value)) (ok (Expr.column name)) (value_meaning db value)
          (λ ir e. rw (← ok-injective e) column)
          (λ ir e. value-Built db casts laws session value v e) out h
    table_filter-Builds (TableFilter.in_filter values) v out h =
        let (irs, e, k) = >>=-eq-ok (value_literals db values) _ h in
        Built.in_list false column (value_literals-Built db casts laws session values v irs e)
          (attempt-ok _ k)
    table_filter-Builds (TableFilter.conjunction_and fs) v out h =
        let (irs, e, k) = >>=-eq-ok (build_child_filters db casts col_ref_ir fs) _ h in
        Built.all_of (child_filters-Builds fs v irs e) (attempt-ok _ k)
    table_filter-Builds (TableFilter.conjunction_or fs) v out h =
        let (irs, e, k) = >>=-eq-ok (build_child_filters db casts col_ref_ir fs) _ h in
        Built.any_of (child_filters-Builds fs v irs e) (attempt-ok _ k)
    table_filter-Builds (TableFilter.expression e) v out h = from_expr-Builds e v out h
    table_filter-Builds _ v out h = cc

    child_filters-Builds :
        (fs : TableFilters)
        → AllTableFilters fs
        → BuildsAll db session
            (build_child_filters db casts col_ref_ir fs)
            (child_filters_meaning db casts session name fs)
    child_filters-Builds TableFilters.nil v outs h = rw (← ok-injective h) BuiltAll.nil
    child_filters-Builds (TableFilters.cons f fs) v outs h =
        let (ir, e₁, k₁) = >>=-eq-ok (try_build_table_filter_ir_expr db casts col_ref_ir f) _ h in
        let (irs, e₂, k₂) = >>=-eq-ok (build_child_filters db casts col_ref_ir fs) _ k₁ in
        rw (← ok-injective k₂)
          (BuiltAll.cons (table_filter-Builds f v.0 ir e₁) (child_filters-Builds fs v.1 irs e₂))
