-- ===== src/Exec/Pushdown.antt =====
-- src/lance_exec_ir.cpp, IsExecIrSafeCast and IsExecIrPushdownableExpr: which expressions of a GROUP BY
-- may be evaluated elsewhere.
use lance_duckdb.Common.{Bool, true, false, leb, ◌||◌, ◌&&◌, not, none, some}
use lance_duckdb.ExprIr.Types.{LogicalType, big, plain}
use lance_duckdb.Exec.Types.{Info, Expression, DuckDb}
use lance_duckdb.Exec.Expr.{info_of}

abbrev pub signed_integer : LogicalType → Bool
signed_integer (LogicalType.signed size) = true
signed_integer _ = false

abbrev pub widens_to_double : LogicalType → Bool
widens_to_double (LogicalType.signed size) = true
widens_to_double LogicalType.float = true
widens_to_double LogicalType.double = true
widens_to_double _ = false

-- The casts between different types that cannot fail.
unfoldable pub widening : (from to : LogicalType) → Bool
widening (LogicalType.timestamp plain) LogicalType.date = true
widening LogicalType.date (LogicalType.timestamp plain) = true
widening (LogicalType.decimal from_width from_scale) (LogicalType.decimal to_width to_scale) =
    leb from_width to_width
widening from (LogicalType.signed big) = signed_integer from
widening from LogicalType.double = widens_to_double from
widening from to = false

unfoldable pub is_safe_cast : DuckDb → (from to : LogicalType) → Bool
is_safe_cast db from to = db.same_type from to || widening from to

-- A child that is there, with its return type.
abbrev pub safe_child : DuckDb → Expression → LogicalType → Bool
safe_child db child to = elim (info_of child) [
  | none ↦ false
  | some info ↦ is_safe_cast db info.return_type to
]

abbrev pub is_parametric : Info → Bool
is_parametric info = info.has_parameter || info.is_volatile

-- An expression that can throw is a cast that is safe, of an expression that may be pushed down.
unfoldable pub is_pushdownable_expr : DuckDb → Expression → Bool
is_pushdownable_expr db Expression.null = false
is_pushdownable_expr db (Expression.cast info child) =
    not (is_parametric info)
    && (not info.can_throw
        || (safe_child db child info.return_type && is_pushdownable_expr db child))
is_pushdownable_expr db (Expression.other info) = not (is_parametric info) && not info.can_throw
is_pushdownable_expr db (Expression.column_ref info binding) =
    not (is_parametric info) && not info.can_throw
is_pushdownable_expr db (Expression.reference info index) =
    not (is_parametric info) && not info.can_throw
is_pushdownable_expr db (Expression.constant info value) =
    not (is_parametric info) && not info.can_throw
is_pushdownable_expr db (Expression.function info name children) =
    not (is_parametric info) && not info.can_throw
is_pushdownable_expr db (Expression.operator info symbol children) =
    not (is_parametric info) && not info.can_throw
is_pushdownable_expr db (Expression.aggregate info name d f o children) =
    not (is_parametric info) && not info.can_throw

-- A column, or casts of one.
unfoldable pub is_supported_group_expr : Expression → Bool
is_supported_group_expr (Expression.column_ref info binding) = true
is_supported_group_expr (Expression.reference info index) = true
is_supported_group_expr (Expression.cast info child) = is_supported_group_expr child
is_supported_group_expr _ = false
