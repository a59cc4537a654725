-- ===== src/Filter/Meaning.antt =====
-- The DataFusion expression that a filter stands for, stated without bytes: the specification of
-- src/lance_filter_ir.cpp and of the parser together. What has no counterpart is an error, and is never
-- encoded.
use lance_duckdb.Common.{
  ℕ, Bytes, Bool, true, false, List, [], ◌∷◌, Option, none, some, if◌then◌else◌, Result, ok, err,
  ◌>>=◌,
}
use lance_duckdb.Wire.Reader.{ParseError, bad_tag}
use lance_duckdb.ExprIr.Types.{
  DuckDb, LogicalType, Value, ExpressionType, operator_not, operator_is_null, operator_is_not_null,
  compare_in, compare_not_in, conjunction_and, conjunction_or, and, or, ScalarValue, Expr, Exprs,
}
use lance_duckdb.ExprIr.Parser.{Session}
use lance_duckdb.ExprIr.Meaning.{conjunction, comparison_of, named_call}
use lance_duckdb.ExprIr.RoundTrip.Values.{scalar_of}
use lance_duckdb.ExprIr.Exports.{flags_meaning, regexp_meaning}
use lance_duckdb.Filter.Types.{Expression, Expressions, TableFilter, TableFilters, Casts}
use lance_duckdb.Filter.Calls.{FunctionKind, field_access, text, search, regexp, like, other}
use lance_duckdb.Filter.Functions.{kind_of, constant_text}

abbrev pub one_argument : Result ParseError Expr → Result ParseError Exprs
one_argument m = m >>= λ x. ok (Exprs.cons x Exprs.nil)

abbrev pub two_arguments : Result ParseError Expr → Result ParseError Expr → Result ParseError Exprs
two_arguments m n = m >>= λ x. one_argument n >>= λ xs. ok (Exprs.cons x xs)

abbrev pub comparison_meaning :
    ExpressionType → Result ParseError Expr → Result ParseError Expr → Result ParseError Expr
comparison_meaning type left right =
    left >>= λ x. right >>= λ y. ok (Expr.binary x (comparison_of type) y)

unfoldable pub conjunction_meaning :
    ExpressionType → Result ParseError Exprs → Result ParseError Expr
conjunction_meaning conjunction_and children = children >>= conjunction and
conjunction_meaning conjunction_or children = children >>= conjunction or
conjunction_meaning _ children = err bad_tag

module _ (db : DuckDb) where
  abbrev pub value_meaning : Value → Result ParseError Expr
  value_meaning value = ok (Expr.literal (scalar_of db value))

  unfoldable pub values_meaning : List Value → Result ParseError Exprs
  values_meaning [] = ok Exprs.nil
  values_meaning (value ∷ values) = do
    x ← value_meaning value
    xs ← values_meaning values
    ok (Exprs.cons x xs)

  unfoldable pub literals_meaning : Expressions → Result ParseError Exprs
  literals_meaning Expressions.nil = ok Exprs.nil
  literals_meaning (Expressions.cons (Expression.constant value) rest) = do
    x ← value_meaning value
    xs ← literals_meaning rest
    ok (Exprs.cons x xs)
  literals_meaning _ = err bad_tag

-- A constant as a text.
abbrev text_literal : Option Bytes → Result ParseError Expr
text_literal (some s) = ok (Expr.literal (ScalarValue.utf8 s))
text_literal none = err bad_tag

-- The pattern is matched anywhere in the text (0), or against all of it (1).
abbrev pub match_mode : Bool → ℕ
match_mode false = 0
match_mode true = 1

abbrev literal_of : DuckDb → Option Value → Result ParseError Expr
literal_of db (some value) = value_meaning db value
literal_of db none = err bad_tag

module _ (db : DuckDb) (casts : Casts) (session : Session) where
  unfoldable pub text_meaning : Expression → Result ParseError Expr
  text_meaning e = text_literal (constant_text casts e)

  unfoldable pub cast_meaning : LogicalType → Expression → Result ParseError Expr
  cast_meaning return_type (Expression.constant value) =
      literal_of db (casts.cast_as value return_type)
  cast_meaning return_type child = err bad_tag

  unfoldable pub text_call_meaning :
      Bytes → Result ParseError Expr → Expressions → Result ParseError Expr
  text_call_meaning name input rest =
      one_argument input >>= λ es. named_call session (db.lower name) es

  unfoldable pub search_call_meaning :
      Bytes → Result ParseError Expr → Expressions → Result ParseError Expr
  search_call_meaning name input (Expressions.cons needle rest) =
      two_arguments input (text_meaning needle) >>= λ es. named_call session (db.lower name) es
  search_call_meaning name input rest = err bad_tag

  unfoldable pub regexp_call_meaning :
      Bool → Result ParseError Expr → Expressions → Result ParseError Expr
  regexp_call_meaning full_match input (Expressions.cons pattern Expressions.nil) = input >>= λ x.
      text_meaning pattern >>= λ y. regexp_meaning session (match_mode full_match) x y none
  regexp_call_meaning full_match input (Expressions.cons pattern (Expressions.cons flags rest)) =
      input >>= λ x. text_meaning pattern >>= λ y. flags_meaning (text_meaning flags) >>= λ o.
      regexp_meaning session (match_mode full_match) x y o
  regexp_call_meaning full_match input rest = err bad_tag

  unfoldable pub like_call_meaning :
      Bool → Bool → Result ParseError Expr → Expressions → Result ParseError Expr
  like_call_meaning ci has_escape input (Expressions.cons pattern rest) = input >>= λ x.
      text_meaning pattern >>= λ y. ok (Expr.like x y (if has_escape then some 92 else none) ci)
  like_call_meaning ci has_escape input rest = err bad_tag

  unfoldable pub call_meaning :
      FunctionKind
      → Bytes
      → (column input : Result ParseError Expr) → Expressions
      → Result ParseError Expr
  call_meaning field_access name column input rest = column
  call_meaning text name column input rest = text_call_meaning name input rest
  call_meaning search name column input rest = search_call_meaning name input rest
  call_meaning (regexp full_match) name column input rest =
      regexp_call_meaning full_match input rest
  call_meaning (like ci has_escape) name column input rest =
      like_call_meaning ci has_escape input rest
  call_meaning other name column input rest = err bad_tag

  -- A column, or an access to a field of one, is what the argument says.
  module _ (column : Expression → Result ParseError Expr) where
    unfoldable mutual
      pub filter_meaning : Expression → Result ParseError Expr
      filter_meaning Expression.null = err bad_tag
      filter_meaning Expression.other = err bad_tag
      filter_meaning (Expression.column_ref depth binding) =
          column (Expression.column_ref depth binding)
      filter_meaning (Expression.reference index) = column (Expression.reference index)
      filter_meaning (Expression.constant value) = value_meaning db value
      filter_meaning (Expression.cast try_cast return_type child) = cast_meaning return_type child
      filter_meaning (Expression.function name Expressions.nil) = err bad_tag
      filter_meaning (Expression.function name (Expressions.cons e rest)) =
          call_meaning (kind_of name) name
            (column (Expression.function name (Expressions.cons e rest))) (filter_meaning e) rest
      filter_meaning (Expression.comparison type left right) =
          comparison_meaning type (filter_meaning left) (filter_meaning right)
      filter_meaning (Expression.conjunction type children) =
          conjunction_meaning type (children_meaning children)
      filter_meaning (Expression.operator type children) = elim type [
        | operator_not ↦ unary_meaning Expr.not children
        | operator_is_null ↦ unary_meaning Expr.is_null children
        | operator_is_not_null ↦ unary_meaning Expr.is_not_null children
        | compare_in ↦ in_meaning false children
        | compare_not_in ↦ in_meaning true children
        | _ ↦ err bad_tag
      ]
      filter_meaning (Expression.between input lower upper lower_type upper_type) =
          two_arguments
            (comparison_meaning lower_type (filter_meaning input) (filter_meaning lower))
            (comparison_meaning upper_type (filter_meaning input) (filter_meaning upper))
          >>= conjunction and

      pub children_meaning : Expressions → Result ParseError Exprs
      children_meaning Expressions.nil = ok Exprs.nil
      children_meaning (Expressions.cons e es) = do
        x ← filter_meaning e
        xs ← children_meaning es
        ok (Exprs.cons x xs)

      pub unary_meaning : (Expr → Expr) → Expressions → Result ParseError Expr
      unary_meaning build Expressions.nil = err bad_tag
      unary_meaning build (Expressions.cons e es) = filter_meaning e >>= λ x. ok (build x)

      pub in_meaning : Bool → Expressions → Result ParseError Expr
      in_meaning negated Expressions.nil = err bad_tag
      in_meaning negated (Expressions.cons e es) = filter_meaning e >>= λ x.
          literals_meaning db es >>= λ items. ok (Expr.in_list x items negated)

  -- A filter on the column of that name. Where the code refers to the column by an index of its own
  -- expression, the index is not looked at.
  module _ (name : Bytes) where
    abbrev pub named_column : Expression → Result ParseError Expr
    named_column (Expression.reference index) = ok (Expr.column name)
    named_column _ = err bad_tag

    unfoldable mutual
      pub table_filter_meaning : TableFilter → Result ParseError Expr
      table_filter_meaning TableFilter.other = err bad_tag
      table_filter_meaning TableFilter.optional_empty = err bad_tag
      table_filter_meaning TableFilter.expression_empty = err bad_tag
      table_filter_meaning TableFilter.is_null = ok (Expr.is_null (Expr.column name))
      table_filter_meaning TableFilter.is_not_null = ok (Expr.is_not_null (Expr.column name))
      table_filter_meaning (TableFilter.optional child_filter) = table_filter_meaning child_filter
      table_filter_meaning (TableFilter.constant_comparison type value) =
          comparison_meaning type (ok (Expr.column name)) (value_meaning db value)
      table_filter_meaning (TableFilter.in_filter values) =
          values_meaning db values >>= λ items. ok (Expr.in_list (Expr.column name) items false)
      table_filter_meaning (TableFilter.conjunction_and filters) =
          child_filters_meaning filters >>= conjunction and
      table_filter_meaning (TableFilter.conjunction_or filters) =
          child_filters_meaning filters >>= conjunction or
      table_filter_meaning (TableFilter.expression e) = filter_meaning named_column e

      pub child_filters_meaning : TableFilters → Result ParseError Exprs
      child_filters_meaning TableFilters.nil = ok Exprs.nil
      child_filters_meaning (TableFilters.cons f fs) = do
        x ← table_filter_meaning f
        xs ← child_filters_meaning fs
        ok (Exprs.cons x xs)
