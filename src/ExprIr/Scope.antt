-- ===== src/ExprIr/Scope.antt =====
-- src/lance_expr_ir.cpp: the resolution of column references through the operators between an
-- expression and the scan, and EncodeLanceExprIR.
use lance_duckdb.Common.{
  ℕ, zero, suc, Bytes, Bool, true, false, List, Option, none, some, get_elem?, ◌==◌, not, Result,
  ok, err, ◌>>=◌, ◌>>◌, throw_if, or_throw, Exception, not_implemented, internal,
}
use lance_duckdb.Wire.Writer.{encode_message}
use lance_duckdb.ExprIr.Types.{DuckDb, ColumnBinding, BoundExpr, BoundExprs}
use lance_duckdb.ExprIr.Nodes.{is_empty, encode_column_name}
use lance_duckdb.ExprIr.Update.{encode_node}

-- The columns of the scan: LogicalGet's table index and column ids, and the names of the bind data.
pub data ColumnIndex : Type 0 where
  virtual : ColumnIndex
  primary : ℕ → ColumnIndex

pub record Scan : Type 0 where
  pub table_index : ℕ
  pub column_ids : List ColumnIndex
  pub names : List Bytes

abbrev pub primary_index : ColumnIndex → Result Exception ℕ
primary_index ColumnIndex.virtual = err not_implemented
primary_index (ColumnIndex.primary col_id) = ok col_id

unfoldable pub resolve_base_column_name : Scan → ℕ → Result Exception Bytes
resolve_base_column_name scan column_index = do
  col_index ← or_throw (get_elem? scan.column_ids column_index) internal
  col_id ← primary_index col_index
  name ← or_throw (get_elem? scan.names col_id) internal
  throw_if (is_empty name) not_implemented
  ok name

-- A chain of operators, each with its first child; `missing` is a child that is not there.
pub data Scope : Type 0 where
  missing get other : Scope
  filter : Scope → Scope
  projection : (table_index : ℕ) → BoundExprs → Scope → Scope

-- GetSingleChildScope throws.
abbrev pub is_missing : Scope → Bool
is_missing Scope.missing = true
is_missing _ = false

unfoldable pub nth_expr : BoundExprs → ℕ → Option BoundExpr
nth_expr BoundExprs.nil i = none
nth_expr (BoundExprs.cons e es) zero = some e
nth_expr (BoundExprs.cons e es) (suc i) = nth_expr es i

module _ (db : DuckDb) (scan : Scan) where
  unfoldable mutual
    pub encode_scope_column_ref : Scope → ℕ → Result Exception Bytes
    encode_scope_column_ref Scope.missing i = err internal
    encode_scope_column_ref Scope.other i = err not_implemented
    encode_scope_column_ref Scope.get i = do
      name ← resolve_base_column_name scan i
      encode_column_name name
    encode_scope_column_ref (Scope.filter child) i = encode_scope_column_ref child i
    encode_scope_column_ref (Scope.projection t es child) i = do
      e ← or_throw (nth_expr es i) internal
      throw_if (is_missing child) internal
      encode_node db (encode_scope_column_binding child) (encode_scope_column_ref child) e

    pub encode_scope_column_binding : Scope → ColumnBinding → Result Exception Bytes
    encode_scope_column_binding Scope.missing b = err internal
    encode_scope_column_binding Scope.other b = err not_implemented
    encode_scope_column_binding Scope.get b = do
      throw_if (not (b.table_index == scan.table_index)) not_implemented
      name ← resolve_base_column_name scan b.column_index
      encode_column_name name
    encode_scope_column_binding (Scope.filter child) b = encode_scope_column_binding child b
    encode_scope_column_binding (Scope.projection t es child) b = do
      throw_if (not (b.table_index == t)) not_implemented
      e ← or_throw (nth_expr es b.column_index) internal
      throw_if (is_missing child) internal
      encode_node db (encode_scope_column_binding child) (encode_scope_column_ref child) e

  -- EncodeUpdateExprNode in a scope.
  unfoldable pub encode_update_expr_node : Scope → BoundExpr → Result Exception Bytes
  encode_update_expr_node scope e =
      encode_node db (encode_scope_column_binding scope) (encode_scope_column_ref scope) e

  unfoldable pub encode_lance_expr_ir : Scope → BoundExpr → Result Exception Bytes
  unfolding encode_update_expr_node
  encode_lance_expr_ir scope e = do root ← encode_update_expr_node scope e; ok (encode_message root)
