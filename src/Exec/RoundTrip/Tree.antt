-- ===== src/Exec/RoundTrip/Tree.antt =====
-- The bytes of an expression over a stack of projections.
use lance_duckdb.Common.{
  ◌≡◌, Bool-cases, Option-cases, List, [], ◌∷◌, ◌||◌, ◌==◌, not, inl, inr, All, ok, err,
  throw_if-ok, >>=-eq-ok,
}
use lance_duckdb.ExprIr.Scope.{Scan}
use lance_duckdb.ExprIr.RoundTrip.Columns.{IsUtf8}
use lance_duckdb.Exec.Types.{declined, Attempt, Expression, Expressions, DuckDb}
use lance_duckdb.Exec.Expr.{
  Encoded, Projection, projected, is_null_pointer, op_of_name, op_of_symbol, try_encode_exec_expr,
}
use lance_duckdb.Exec.Named.{op_of_name-named, op_of_symbol-named}
use lance_duckdb.Exec.Meaning.{exec_meaning, IsDuckDb, IsExpression, AllExpressions, IsStack}
use lance_duckdb.Exec.RoundTrip.Expr.{
  Stands, column-Stands, literal-Stands, binary-Stands, cast-Stands, projected-IsExpression,
}

not_ok : {p : Encoded} → ◌≡◌ {A = Attempt Encoded} (err declined) (ok p) → ⊥
not_ok h = cc

module _ (db : DuckDb) (laws : IsDuckDb db) (scan : Scan) (named : All IsUtf8 scan.names) where
  pub exec_expr-Stands :
      (stack : List Projection) (e : Expression)
      → IsStack stack
      → IsExpression e
      → Stands scan.names (try_encode_exec_expr db scan stack e) (exec_meaning db scan stack e)
  unfolding try_encode_exec_expr exec_meaning IsExpression AllExpressions
  exec_expr-Stands [] (Expression.column_ref info binding) s i p h =
      let (_, k) = throw_if-ok (not (binding.table_index == scan.table_index)) declined _ h in
      column-Stands db laws scan named binding.column_index p k
  exec_expr-Stands (projection ∷ stack) (Expression.column_ref info binding) s i p h =
      elim (Bool-cases (binding.table_index == scan.table_index)) [
        | inl t ↦
            rw (t, exec_meaning)
              (column-Stands db laws scan named binding.column_index p
                (rw (t, try_encode_exec_expr) at h))
        | inr f ↦
            rw (f, exec_meaning)
              (elim (Option-cases (projected projection binding.column_index)) [
                | inl n ↦ absurd (not_ok (rw (f, try_encode_exec_expr, n) at h))
                | inr (e, q) ↦
                    rw (q, exec_meaning)
                      (exec_expr-Stands stack e s.1
                        (projected-IsExpression projection binding.column_index s.0 q) p
                        (rw (f, try_encode_exec_expr, q) at h))
              ])
      ]
  exec_expr-Stands [] (Expression.reference info index) s i p h =
      column-Stands db laws scan named index p h
  exec_expr-Stands (projection ∷ stack) (Expression.reference info index) s i p h =
      elim (Option-cases (projected projection index)) [
        | inl n ↦
            rw (n, exec_meaning)
              (column-Stands db laws scan named index p (rw (n, try_encode_exec_expr) at h))
        | inr (e, q) ↦
            rw (q, exec_meaning)
              (exec_expr-Stands stack e s.1 (projected-IsExpression projection index s.0 q) p
                (rw (q, try_encode_exec_expr) at h))
      ]
  exec_expr-Stands stack (Expression.constant info value) s i p h =
      literal-Stands db laws scan named value i p h
  exec_expr-Stands stack (Expression.cast info child) s i p h =
      cast-Stands db laws scan named info child i (exec_expr-Stands stack child s i) p h
  exec_expr-Stands stack
        (Expression.function info name
          (Expressions.cons left (Expressions.cons right Expressions.nil)))
        s i p h =
      let (op, e, k) = >>=-eq-ok (op_of_name (db.lower name)) _ h in
      rw (← op_of_name-named (db.lower name), e)
        (binary-Stands db laws scan named info op left right i.0 i.1.0
          (exec_expr-Stands stack left s i.0) (exec_expr-Stands stack right s i.1.0) p k)
  exec_expr-Stands stack
        (Expression.operator info symbol
          (Expressions.cons left (Expressions.cons right Expressions.nil)))
        s i p h =
      let (_, h') = throw_if-ok (is_null_pointer left || is_null_pointer right) declined _ h in
      let (op, e, k) = >>=-eq-ok (op_of_symbol symbol) _ h' in
      rw (← op_of_symbol-named symbol, e)
        (binary-Stands db laws scan named info op left right i.0 i.1.0
          (exec_expr-Stands stack left s i.0) (exec_expr-Stands stack right s i.1.0) p k)
  exec_expr-Stands stack _ s i p h = cc
