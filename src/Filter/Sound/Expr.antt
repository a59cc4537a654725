-- ===== src/Filter/Sound/Expr.antt =====
-- TryBuildLanceExprFilterIR encodes what the expression stands for.
use lance_duckdb.Common.{
  ◌≡◌, subst, Bytes, Bool, true, false, Option, some, Result, ok, ◌>>=◌, >>=-eq-ok, ok-injective,
}
use lance_duckdb.Wire.Reader.{ParseError}
use lance_duckdb.ExprIr.Types.{
  DuckDb, operator_not, operator_is_null, operator_is_not_null, compare_in, compare_not_in, Expr,
}
use lance_duckdb.ExprIr.Nodes.{try_encode_not, try_encode_is_null, try_encode_is_not_null}
use lance_duckdb.ExprIr.Parser.{Session}
use lance_duckdb.ExprIr.Exports.{Built, BuiltAll}
use lance_duckdb.Filter.Types.{Attempt, LogicalGet, Table, Expression, Expressions, Casts}
use lance_duckdb.Filter.Functions.{function_kind-kind_of}
use lance_duckdb.Filter.Calls.{function_kind, comparison_ir, literals_ir}
use lance_duckdb.Filter.Expr.{
  column_ir, try_build_expr_filter_ir, build_children, build_unary, build_in,
}
use lance_duckdb.Filter.Meaning.{
  call_meaning, filter_meaning, children_meaning, unary_meaning, in_meaning, comparison_meaning,
}
use lance_duckdb.Filter.Valid.{IsCasts, IsExpression, AllExpressions}
use lance_duckdb.Filter.Sound.Calls.{call_ir-Built, conjunction_ir-Built, comparison_ir-Built}
use lance_duckdb.Filter.Sound.Constants.{
  attempt-ok, Builds, BuildsAll, value-Built, cast_ir-Built, literals_ir-Built,
}
use lance_duckdb.Filter.Sound.Columns.{IsTable, column_meaning, column_ir-Builds}

module _ (db : DuckDb) (casts : Casts) (laws : IsCasts casts) (session : Session) (get : LogicalGet)
    (table : Table) (valid : IsTable table) (exclude : Bool) where
  abbrev build : Expression → Attempt Bytes
  build = try_build_expr_filter_ir db casts get table exclude

  abbrev meaning : Expression → Result ParseError Expr
  meaning = filter_meaning db casts session (column_meaning casts get table)

  column-Builds :
      (e : Expression)
      → Builds db session
          (column_ir db casts get table exclude e)
          (column_meaning casts get table e)
  column-Builds e = column_ir-Builds casts get table db session exclude e valid

  mutual
    unfolding try_build_expr_filter_ir filter_meaning IsExpression

    pub expr_filter-Builds :
        (e : Expression) → IsExpression e → Builds db session (build e) (meaning e)
    expr_filter-Builds Expression.null v out h = cc
    expr_filter-Builds Expression.other v out h = cc
    expr_filter-Builds (Expression.column_ref depth binding) v out h =
        column-Builds (Expression.column_ref depth binding) out h
    expr_filter-Builds (Expression.reference index) v out h =
        column-Builds (Expression.reference index) out h
    expr_filter-Builds (Expression.constant value) v out h =
        value-Built db casts laws session value v h
    expr_filter-Builds (Expression.cast try_cast type child) v out h =
        cast_ir-Built db casts laws session try_cast type child v h
    expr_filter-Builds (Expression.function name Expressions.nil) v out h = cc
    expr_filter-Builds (Expression.function name (Expressions.cons e rest)) v out h =
        subst
          (λ kind. Built db session out (
            call_meaning db casts session kind name
              (column_meaning casts get table (Expression.function name (Expressions.cons e rest)))
              (meaning e) rest))
          (function_kind-kind_of name)
          (call_ir-Built db casts laws session (build e) (meaning e) (expr_filter-Builds e v.1.0)
            (function_kind name) name _ _ rest v.0
            (column-Builds (Expression.function name (Expressions.cons e rest))) h)
    expr_filter-Builds (Expression.comparison type left right) v out h =
        comparison_ir-Built db casts laws session type (build left) (build right) (meaning left)
          (meaning right) (expr_filter-Builds left v.0) (expr_filter-Builds right v.1) out h
    expr_filter-Builds (Expression.conjunction type children) v out h =
        conjunction_ir-Built db casts laws session type _ _ (children-Builds children v) out h
    expr_filter-Builds (Expression.operator operator_not children) v out h =
        unary-Builds try_encode_not Expr.not (λ ir m o b e. Built.negation b e) children v out h
    expr_filter-Builds (Expression.operator operator_is_null children) v out h =
        unary-Builds try_encode_is_null Expr.is_null (λ ir m o b e. Built.is_null b e) children v
          out h
    expr_filter-Builds (Expression.operator operator_is_not_null children) v out h =
        unary-Builds try_encode_is_not_null Expr.is_not_null (λ ir m o b e. Built.is_not_null b e)
          children v out h
    expr_filter-Builds (Expression.operator compare_in children) v out h =
        in-Builds false children v out h
    expr_filter-Builds (Expression.operator compare_not_in children) v out h =
        in-Builds true children v out h
    expr_filter-Builds (Expression.operator _ children) v out h = cc
    expr_filter-Builds (Expression.between input lower upper lower_type upper_type) v out h =
        let lower-Builds : Builds db session (comparison_ir lower_type (build input) (build lower))
            (comparison_meaning lower_type (meaning input) (meaning lower)) =
          comparison_ir-Built db casts laws session lower_type (build input) (build lower)
            (meaning input) (meaning lower) (expr_filter-Builds input v.0)
            (expr_filter-Builds lower v.1) in
        let upper-Builds : Builds db session (comparison_ir upper_type (build input) (build upper))
            (comparison_meaning upper_type (meaning input) (meaning upper)) =
          comparison_ir-Built db casts laws session upper_type (build input) (build upper)
            (meaning input) (meaning upper) (expr_filter-Builds input v.0)
            (expr_filter-Builds upper v.2) in
        let (l, el, k₁) = >>=-eq-ok (comparison_ir lower_type (build input) (build lower)) _ h in
        let (u, eu, k₂) = >>=-eq-ok (comparison_ir upper_type (build input) (build upper)) _ k₁ in
        Built.all_of
          (BuiltAll.cons (lower-Builds l el) (BuiltAll.cons (upper-Builds u eu) BuiltAll.nil))
          (attempt-ok _ k₂)

    pub children-Builds :
        (es : Expressions)
        → AllExpressions es
        → BuildsAll db session
            (build_children db casts get table exclude es)
            (children_meaning db casts session (column_meaning casts get table) es)
    children-Builds Expressions.nil v outs h = rw (← ok-injective h) BuiltAll.nil
    children-Builds (Expressions.cons e es) v outs h =
        let (ir, e₁, k₁) = >>=-eq-ok (build e) _ h in
        let (irs, e₂, k₂) = >>=-eq-ok (build_children db casts get table exclude es) _ k₁ in
        rw (← ok-injective k₂)
          (BuiltAll.cons (expr_filter-Builds e v.0 ir e₁) (children-Builds es v.1 irs e₂))

    unary-Builds :
        (encode : Bytes → Option Bytes) (wrap : Expr → Expr)
        → ((ir : Bytes) (m : Result ParseError Expr) (out : Bytes)
            → Built db session ir m
            → encode ir ≡ some out
            → Built db session out (m >>= λ x. ok (wrap x)))
        → (es : Expressions) → AllExpressions es
        → Builds db session
            (build_unary db casts get table exclude encode es)
            (unary_meaning db casts session (column_meaning casts get table) wrap es)
    unary-Builds encode wrap b Expressions.nil v out h = cc
    unary-Builds encode wrap b (Expressions.cons e Expressions.nil) v out h =
        let (ir, e₁, k) = >>=-eq-ok (build e) _ h in
        b ir (meaning e) out (expr_filter-Builds e v.0 ir e₁) (attempt-ok _ k)
    unary-Builds encode wrap b (Expressions.cons e (Expressions.cons e' es)) v out h = cc

    in-Builds :
        (negated : Bool) (es : Expressions)
        → AllExpressions es
        → Builds db session
            (build_in db casts get table exclude negated es)
            (in_meaning db casts session (column_meaning casts get table) negated es)
    in-Builds negated Expressions.nil v out h = cc
    in-Builds negated (Expressions.cons e Expressions.nil) v out h = cc
    in-Builds negated (Expressions.cons e (Expressions.cons item items)) v out h =
        let (ir, e₁, k₁) = >>=-eq-ok (build e) _ h in
        let (irs, e₂, k₂) = >>=-eq-ok (literals_ir db (Expressions.cons item items)) _ k₁ in
        Built.in_list negated (expr_filter-Builds e v.0 ir e₁)
          (literals_ir-Built db casts laws session (Expressions.cons item items) v.1 irs e₂)
          (attempt-ok _ k₂)
