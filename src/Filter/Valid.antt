-- ===== src/Filter/Valid.antt =====
-- What is asked of the filters that src/lance_filter_ir.cpp is given, and of DuckDB's casts.
use lance_duckdb.Common.{◌≡◌, Bytes, true, some, All}
use lance_duckdb.Wire.Reader.{is_utf8}
use lance_duckdb.ExprIr.Types.{LogicalType, Value}
use lance_duckdb.ExprIr.RoundTrip.Values.{IsValue}
use lance_duckdb.Filter.Types.{Expression, Expressions, TableFilter, TableFilters, Casts}

-- What is asked of DuckDB's casts: a value in the range of its type stays one, and a text is UTF-8.
pub record IsCasts (casts : Casts) : Type 0 where
  pub in_range :
      (v : Value) (t : LogicalType) {w : Value} → IsValue v → casts.cast_as v t ≡ some w → IsValue w
  pub is_text : (v : Value) {s : Bytes} → casts.to_varchar v ≡ some s → is_utf8 s ≡ true

-- Constants lie in the ranges of their types, and the names of functions are valid UTF-8.
unfoldable mutual
  pub IsExpression : Expression → Type 0
  IsExpression Expression.null = Unit
  IsExpression Expression.other = Unit
  IsExpression (Expression.column_ref depth binding) = Unit
  IsExpression (Expression.reference index) = Unit
  IsExpression (Expression.constant value) = IsValue value
  IsExpression (Expression.cast try_cast return_type child) = IsExpression child
  IsExpression (Expression.function name children) = (is_utf8 name ≡ true) × AllExpressions children
  IsExpression (Expression.comparison type left right) = IsExpression left × IsExpression right
  IsExpression (Expression.conjunction type children) = AllExpressions children
  IsExpression (Expression.operator type children) = AllExpressions children
  IsExpression (Expression.between input lower upper lower_type upper_type) =
      IsExpression input × IsExpression lower × IsExpression upper

  pub AllExpressions : Expressions → Type 0
  AllExpressions Expressions.nil = Unit
  AllExpressions (Expressions.cons e es) = IsExpression e × AllExpressions es

unfoldable mutual
  unfolding IsExpression

  pub IsTableFilter : TableFilter → Type 0
  IsTableFilter TableFilter.other = Unit
  IsTableFilter TableFilter.is_null = Unit
  IsTableFilter TableFilter.is_not_null = Unit
  IsTableFilter TableFilter.optional_empty = Unit
  IsTableFilter TableFilter.expression_empty = Unit
  IsTableFilter (TableFilter.optional child_filter) = IsTableFilter child_filter
  IsTableFilter (TableFilter.constant_comparison type value) = IsValue value
  IsTableFilter (TableFilter.in_filter values) = All IsValue values
  IsTableFilter (TableFilter.conjunction_and filters) = AllTableFilters filters
  IsTableFilter (TableFilter.conjunction_or filters) = AllTableFilters filters
  IsTableFilter (TableFilter.expression e) = IsExpression e

  pub AllTableFilters : TableFilters → Type 0
  AllTableFilters TableFilters.nil = Unit
  AllTableFilters (TableFilters.cons f fs) = IsTableFilter f × AllTableFilters fs
