-- ===== src/ExprIr/Meaning.antt =====
-- The DataFusion expression that a bound DuckDB expression stands for, stated without bytes: the
-- specification of EncodeUpdateExprNode and of the parser together. The only way for it to fail is a
-- function name that the session does not know.
use lance_duckdb.Common.{
  ℕ, ◌≤◌, ◌≡◌, true, false, Bytes, Bool, Option, none, some, ◌||◌, [], ◌∷◌, bytes_eq, if◌then◌else◌,
  Result, ok, err, ◌>>=◌, ◌>>◌, get_elem?, or_throw, throw_if, not, ◌==◌,
}
use lance_duckdb.Wire.Writer.{u32_max}
use lance_duckdb.Wire.Reader.{ParseError, bad_tag, no_children, is_utf8}
use lance_duckdb.ExprIr.Types.{
  DuckDb, ExpressionType, compare_not_equal, compare_less_than, compare_less_than_or_equal,
  compare_greater_than, compare_greater_than_or_equal, compare_distinct_from,
  compare_not_distinct_from, compare_in, compare_not_in, operator_not, operator_is_null,
  operator_is_not_null, conjunction_or, ColumnBinding, BoundExpr, BoundExprs, BoundChecks, Operator,
  plus, minus, multiply, divide, and, or, eq, not_eq, lt, lt_eq, gt, gt_eq, is_distinct_from,
  is_not_distinct_from, Expr, Exprs, Checks,
}
use lance_duckdb.ExprIr.Nodes.{is_empty}
use lance_duckdb.ExprIr.Update.{
  word_add, word_subtract, word_multiply, word_divide, is_null_expr, count_exprs,
}
use lance_duckdb.ExprIr.Scope.{ColumnIndex, Scan, Scope, nth_expr}
use lance_duckdb.ExprIr.Parser.{Session, resolve_scalar_function}
use lance_duckdb.ExprIr.RoundTrip.Values.{IsValue, scalar_of}
use lance_duckdb.ExprIr.RoundTrip.Literals.{data_type_of}

-- The arithmetic that is no function call.
unfoldable pub arithmetic : Bytes → Option Operator
arithmetic name =
    if bytes_eq name (b'+' ∷ []) || bytes_eq name word_add
    then some plus
    else if bytes_eq name (b'-' ∷ []) || bytes_eq name word_subtract
    then some minus
    else if bytes_eq name (b'*' ∷ []) || bytes_eq name word_multiply
    then some multiply
    else if bytes_eq name (b'/' ∷ []) || bytes_eq name word_divide
    then some divide
    else none

unfoldable pub comparison_of : ExpressionType → Operator
comparison_of compare_not_equal = not_eq
comparison_of compare_less_than = lt
comparison_of compare_less_than_or_equal = lt_eq
comparison_of compare_greater_than = gt
comparison_of compare_greater_than_or_equal = gt_eq
comparison_of compare_distinct_from = is_distinct_from
comparison_of compare_not_distinct_from = is_not_distinct_from
comparison_of _ = eq

unfoldable pub conjunction_of : ExpressionType → Operator
conjunction_of conjunction_or = or
conjunction_of _ = and

unfoldable pub named_call : Session → Bytes → Exprs → Result ParseError Expr
named_call session name args = do
  udf ← resolve_scalar_function session name
  ok (Expr.scalar_function udf args)

unfoldable pub call_of : Session → Bytes → Exprs → Result ParseError Expr
unfolding named_call
call_of session name (Exprs.cons l (Exprs.cons r Exprs.nil)) = elim (arithmetic name) [
  | some op ↦ ok (Expr.binary l op r)
  | none ↦ named_call session name (Exprs.cons l (Exprs.cons r Exprs.nil))
]
call_of session name args = named_call session name args

-- Joined from the left.
unfoldable pub joined : Operator → Expr → Exprs → Expr
joined op e Exprs.nil = e
joined op e (Exprs.cons x xs) = joined op (Expr.binary e op x) xs

unfoldable pub conjunction : Operator → Exprs → Result ParseError Expr
conjunction op Exprs.nil = err no_children
conjunction op (Exprs.cons e es) = ok (joined op e es)

module _ (db : DuckDb) (session : Session) (of_binding : ColumnBinding → Result ParseError Expr)
    (of_index : ℕ → Result ParseError Expr) where
  unfoldable mutual
    pub meaning : BoundExpr → Result ParseError Expr
    meaning BoundExpr.null = err bad_tag
    meaning BoundExpr.other = err bad_tag
    meaning (BoundExpr.column_ref binding) = of_binding binding
    meaning (BoundExpr.reference alias index) =
        if is_empty alias then of_index index else ok (Expr.column alias)
    meaning (BoundExpr.constant value) = ok (Expr.literal (scalar_of db value))
    meaning (BoundExpr.cast try_cast type child) =
        meaning child >>= λ e. ok (Expr.cast e (data_type_of type))
    meaning (BoundExpr.function name children) =
        meanings children >>= λ args. call_of session (db.lower name) args
    meaning (BoundExpr.operator type children) = elim type [
      | operator_not ↦ meaning_unary Expr.not children
      | operator_is_null ↦ meaning_unary Expr.is_null children
      | operator_is_not_null ↦ meaning_unary Expr.is_not_null children
      | compare_in ↦ meaning_in false children
      | compare_not_in ↦ meaning_in true children
      | _ ↦ err bad_tag
    ]
    meaning (BoundExpr.comparison type left right) = do
      l ← meaning left
      r ← meaning right
      ok (Expr.binary l (comparison_of type) r)
    meaning (BoundExpr.conjunction type children) =
        meanings children >>= λ es. conjunction (conjunction_of type) es
    meaning (BoundExpr.case checks else_expr) = do
      cs ← meaning_checks checks
      elim (is_null_expr else_expr) [
        | true ↦ ok (Expr.case cs)
        | false ↦ meaning else_expr >>= λ e. ok (Expr.case_else cs e)
      ]
    meaning (BoundExpr.between input lower upper lower_type upper_type) = do
      x ← meaning input
      lo ← meaning lower
      x' ← meaning input
      hi ← meaning upper
      ok (
          Expr.binary (Expr.binary x (comparison_of lower_type) lo) and
            (Expr.binary x' (comparison_of upper_type) hi))

    pub meanings : BoundExprs → Result ParseError Exprs
    meanings BoundExprs.nil = ok Exprs.nil
    meanings (BoundExprs.cons e es) = do x ← meaning e; xs ← meanings es; ok (Exprs.cons x xs)

    pub meaning_unary : (Expr → Expr) → BoundExprs → Result ParseError Expr
    meaning_unary build BoundExprs.nil = err bad_tag
    meaning_unary build (BoundExprs.cons e es) = meaning e >>= λ x. ok (build x)

    pub meaning_in : Bool → BoundExprs → Result ParseError Expr
    meaning_in negated BoundExprs.nil = err bad_tag
    meaning_in negated (BoundExprs.cons e es) = do
      x ← meaning e
      items ← meanings es
      ok (Expr.in_list x items negated)

    pub meaning_checks : BoundChecks → Result ParseError Checks
    meaning_checks BoundChecks.end = ok Checks.end
    meaning_checks (BoundChecks.check when_expr then_expr checks) = do
      w ← meaning when_expr
      t ← meaning then_expr
      cs ← meaning_checks checks
      ok (Checks.check w t cs)

-- Constants lie in the ranges of their types, names are valid UTF-8, and an operator has fewer than
-- 2 ^ 32 children (an IN list is encoded with its length cast to uint32_t).
unfoldable mutual
  pub IsBound : BoundExpr → Type 0
  IsBound BoundExpr.null = Unit
  IsBound BoundExpr.other = Unit
  IsBound (BoundExpr.column_ref binding) = Unit
  IsBound (BoundExpr.reference alias index) = is_utf8 alias ≡ true
  IsBound (BoundExpr.constant value) = IsValue value
  IsBound (BoundExpr.cast try_cast type child) = IsBound child
  IsBound (BoundExpr.function name children) = (is_utf8 name ≡ true) × AllBound children
  IsBound (BoundExpr.operator type children) = (count_exprs children ≤ u32_max) × AllBound children
  IsBound (BoundExpr.comparison type left right) = IsBound left × IsBound right
  IsBound (BoundExpr.conjunction type children) = AllBound children
  IsBound (BoundExpr.case checks else_expr) = ChecksBound checks × IsBound else_expr
  IsBound (BoundExpr.between input lower upper lower_type upper_type) =
      IsBound input × IsBound lower × IsBound upper

  pub AllBound : BoundExprs → Type 0
  AllBound BoundExprs.nil = Unit
  AllBound (BoundExprs.cons e es) = IsBound e × AllBound es

  pub ChecksBound : BoundChecks → Type 0
  ChecksBound BoundChecks.end = Unit
  ChecksBound (BoundChecks.check when_expr then_expr checks) =
      IsBound when_expr × IsBound then_expr × ChecksBound checks

-- The name of a column of the scan.
unfoldable pub base_column : Scan → ℕ → Result ParseError Expr
base_column scan i = elim (get_elem? scan.column_ids i) [
  | some (ColumnIndex.primary col_id) ↦ elim (get_elem? scan.names col_id) [
    | some name ↦ ok (Expr.column name)
    | none ↦ err bad_tag
  ]
  | some ColumnIndex.virtual ↦ err bad_tag
  | none ↦ err bad_tag
]

-- A reference through a projection stands for the projected expression in the projection's own scope.
module _ (db : DuckDb) (session : Session) (scan : Scan) where
  unfoldable mutual
    pub index_meaning : Scope → ℕ → Result ParseError Expr
    index_meaning Scope.missing i = err bad_tag
    index_meaning Scope.other i = err bad_tag
    index_meaning Scope.get i = base_column scan i
    index_meaning (Scope.filter child) i = index_meaning child i
    index_meaning (Scope.projection t es child) i = do
      e ← or_throw (nth_expr es i) bad_tag
      meaning db session (binding_meaning child) (index_meaning child) e

    pub binding_meaning : Scope → ColumnBinding → Result ParseError Expr
    binding_meaning Scope.missing b = err bad_tag
    binding_meaning Scope.other b = err bad_tag
    binding_meaning Scope.get b =
        if b.table_index == scan.table_index then base_column scan b.column_index else err bad_tag
    binding_meaning (Scope.filter child) b = binding_meaning child b
    binding_meaning (Scope.projection t es child) b = do
      throw_if (not (b.table_index == t)) bad_tag
      e ← or_throw (nth_expr es b.column_index) bad_tag
      meaning db session (binding_meaning child) (index_meaning child) e

  unfoldable pub update_meaning : Scope → BoundExpr → Result ParseError Expr
  update_meaning scope e = meaning db session (binding_meaning scope) (index_meaning scope) e

-- Every projected expression of the scope is well formed too.
unfoldable pub IsScope : Scope → Type 0
IsScope Scope.missing = Unit
IsScope Scope.get = Unit
IsScope Scope.other = Unit
IsScope (Scope.filter child) = IsScope child
IsScope (Scope.projection t es child) = AllBound es × IsScope child
