-- ===== src/ExprIr/RoundTrip/Message.antt =====
-- Whole messages: EncodeLanceExprIR, with its columns resolved through the scope, and parse_expr_ir.
use lance_duckdb.Common.{
  ℕ, zero, suc, ◌≡◌, refl, Bytes, Bool, true, false, not, List, [], ◌∷◌, some, length, All,
  get_elem?, ltb, bytes_eq, Result, ok, >>=-eq-ok, throw_if-ok, or_throw-ok, ap, ◌∙◌, arith,
  not_implemented, internal, subst, ok-injective, ◌==◌,
}
use mathlib.Core.Option.{some-injective}
use lance_duckdb.Wire.Writer.{encode_message}
use lance_duckdb.Wire.Reader.{ParseError}
use lance_duckdb.ExprIr.Types.{DuckDb, ColumnBinding, BoundExpr, BoundExprs, Expr}
use lance_duckdb.ExprIr.Nodes.{is_empty}
use lance_duckdb.ExprIr.Update.{encode_node}
use lance_duckdb.ExprIr.Scope.{
  ColumnIndex, Scan, primary_index, resolve_base_column_name, Scope, is_missing, nth_expr,
  encode_scope_column_ref, encode_scope_column_binding, encode_update_expr_node,
  encode_lance_expr_ir,
}
use lance_duckdb.ExprIr.Parser.{Session, parse_expr_ir}
use lance_duckdb.ExprIr.Meaning.{
  IsBound, AllBound, base_column, index_meaning, binding_meaning, update_meaning, IsScope,
}
use lance_duckdb.ExprIr.RoundTrip.Values.{IsDuckDb}
use lance_duckdb.ExprIr.RoundTrip.Columns.{IsUtf8}
use lance_duckdb.ExprIr.RoundTrip.Reads.{Reads, Reads-column}
use lance_duckdb.ExprIr.RoundTrip.Update.{encode_node-Reads}

All-get {ℓ κ} :
    {A : Type ℓ} (P : A → Type κ) (xs : List A) (i : ℕ) {x : A}
    → All P xs
    → get_elem? xs i ≡ some x
    → P x
All-get P [] i h e = cc
All-get P (x ∷ xs) zero h e = subst P (some-injective _ _ e) h.0
All-get P (x ∷ xs) (suc i) h e = All-get P xs i h.1 e

nth_expr-IsBound :
    (es : BoundExprs) (i : ℕ) {e : BoundExpr} → AllBound es → nth_expr es i ≡ some e → IsBound e
unfolding IsBound nth_expr
nth_expr-IsBound BoundExprs.nil i h e = cc
nth_expr-IsBound (BoundExprs.cons x xs) zero h e = subst IsBound (some-injective _ _ e) h.0
nth_expr-IsBound (BoundExprs.cons x xs) (suc i) h e = nth_expr-IsBound xs i h.1 e

not_not : (b : Bool) → not b ≡ false → b ≡ true
not_not true h = refl
not_not false h = cc

base_column-primary :
    (scan : Scan) (i : ℕ) (index : ColumnIndex) {col_id : ℕ} {name : Bytes}
    → get_elem? scan.column_ids i ≡ some index
    → primary_index index ≡ ok col_id
    → get_elem? scan.names col_id ≡ some name
    → base_column scan i ≡ ok (Expr.column name)
unfolding base_column
base_column-primary scan i ColumnIndex.virtual ch ih nh = cc
base_column-primary scan i (ColumnIndex.primary c) ch ih nh =
    rw (ch, base_column, ok-injective ih, nh)

module _ (db : DuckDb) (laws : IsDuckDb db) (session : Session) (scan : Scan)
    (named : All IsUtf8 scan.names) where
  base_column-resolve :
      (i : ℕ) {name : Bytes}
      → resolve_base_column_name scan i ≡ ok name
      → IsUtf8 name × (base_column scan i ≡ ok (Expr.column name))
  unfolding resolve_base_column_name
  base_column-resolve i h =
      let (index, ch, h₁) = or_throw-ok (get_elem? scan.column_ids i) internal _ h in
      let (col_id, ih, h₂) = >>=-eq-ok (primary_index index) _ h₁ in
      let (name, nh, h₃) = or_throw-ok (get_elem? scan.names col_id) internal _ h₂ in
      let (_, h₄) = throw_if-ok (is_empty name) not_implemented _ h₃ in
      let same = ok-injective h₄ in
      (
        subst IsUtf8 same (All-get IsUtf8 scan.names col_id named nh),
        base_column-primary scan i index ch ih nh ∙ ap (λ s. ok (Expr.column s)) same,
      )

  mutual
    unfolding encode_scope_column_ref index_meaning IsScope

    index-Reads :
        (scope : Scope)
        → IsScope scope
        → (i : ℕ) (out : Bytes) → encode_scope_column_ref db scan scope i ≡ ok out
        → Reads session out (index_meaning db session scan scope i)
    index-Reads Scope.missing v i out h = cc
    index-Reads Scope.other v i out h = cc
    index-Reads Scope.get v i out h =
        let (name, rh, eh) = >>=-eq-ok (resolve_base_column_name scan i) _ h in
        let (u, e) = base_column-resolve i rh in rw e (Reads-column session name u eh)
    index-Reads (Scope.filter child) v i out h = index-Reads child v i out h
    index-Reads (Scope.projection t es child) v i out h =
        let (e, nh, h₁) = or_throw-ok (nth_expr es i) internal _ h in
        let (_, h₂) = throw_if-ok (is_missing child) internal _ h₁ in
        rw nh (
          encode_node-Reads db laws session _ _ _ _ (binding-Reads child v.1)
            (index-Reads child v.1) e (nth_expr-IsBound es i v.0 nh) h₂)

    binding-Reads :
        (scope : Scope)
        → IsScope scope
        → (b : ColumnBinding) (out : Bytes) → encode_scope_column_binding db scan scope b ≡ ok out
        → Reads session out (binding_meaning db session scan scope b)
    binding-Reads Scope.missing v b out h = cc
    binding-Reads Scope.other v b out h = cc
    binding-Reads Scope.get v b out h =
        let (mine, h₁) =
          throw_if-ok (not (b.table_index == scan.table_index)) not_implemented _ h in
        let (name, rh, eh) = >>=-eq-ok (resolve_base_column_name scan b.column_index) _ h₁ in
        let (u, e) = base_column-resolve b.column_index rh in
        rw (not_not _ mine, e) (Reads-column session name u eh)
    binding-Reads (Scope.filter child) v b out h = binding-Reads child v b out h
    binding-Reads (Scope.projection t es child) v b out h =
        let (mine, h₁) = throw_if-ok (not (b.table_index == t)) not_implemented _ h in
        let (e, nh, h₂) = or_throw-ok (nth_expr es b.column_index) internal _ h₁ in
        let (_, h₃) = throw_if-ok (is_missing child) internal _ h₂ in
        rw (not_not _ mine, nh)
          (encode_node-Reads db laws session _ _ _ _ (binding-Reads child v.1)
            (index-Reads child v.1) e (nth_expr-IsBound es b.column_index v.0 nh) h₃)

pub parse_expr_ir-message :
    (session : Session) (root : Bytes) {m : Result ParseError Expr}
    → Reads session root m
    → parse_expr_ir session (encode_message root) ≡ m
unfolding parse_expr_ir encode_message bytes_eq
parse_expr_ir-message session root r = rw (long_enough root) (r (suc (length root)) (omega arith))
  where
    long_enough : (root : Bytes) → ltb (length (b'L' ∷ b'U' ∷ b'E' ∷ b'1' ∷ root)) 4 ≡ false
    long_enough root = ground arith

-- A bound expression whose constants lie in the ranges of their types, whose names are valid UTF-8 and
-- whose operators have fewer than 2 ^ 32 children, in a scope of such expressions over such column
-- names: if it is encoded at all, the parser's answer on the message is its meaning in that scope, the
-- DataFusion expression or the unknown function name.
pub parse_expr_ir-encode :
    (db : DuckDb) (session : Session) (scan : Scan) (scope : Scope) (e : BoundExpr) {msg : Bytes}
    → IsDuckDb db
    → All IsUtf8 scan.names
    → IsScope scope
    → IsBound e
    → encode_lance_expr_ir db scan scope e ≡ ok msg
    → parse_expr_ir session msg ≡ update_meaning db session scan scope e
unfolding encode_lance_expr_ir encode_update_expr_node update_meaning
parse_expr_ir-encode db session scan scope e laws named v b h =
    let (root, eh, h₁) = >>=-eq-ok (encode_node db _ _ e) _ h in
    rw (← ok-injective h₁) (
      parse_expr_ir-message session root (
        encode_node-Reads db laws session _ _ _ _ (binding-Reads db laws session scan named scope v)
          (index-Reads db laws session scan named scope v) e b eh))
