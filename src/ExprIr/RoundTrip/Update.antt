-- ===== src/ExprIr/RoundTrip/Update.antt =====
-- EncodeUpdateExprNode and EncodeLanceExprIR: the parser reads an encoded expression as its meaning.
use lance_duckdb.Common.{
  ℕ, suc, ◌≤◌, ◌≡◌, refl, ◌++◌, Bytes, Bool, true, false, List, [], ◌∷◌, ◌||◌, length, All, Result,
  ok, ◌>>=◌, >>=-eq-ok, throw_if-ok, ap, sym, ◌∙◌, arith, Exception, not_implemented, internal,
  subst, ok-injective,
}
use lance_duckdb.Wire.Writer.{append_u8, append_len_prefixed, u32_max}
use lance_duckdb.Wire.Reader.{ParseError}
use lance_duckdb.Wire.Frames.{Fits, frames, append_len_prefixed_inv}
use lance_duckdb.ExprIr.Types.{
  DuckDb, compare_in, compare_not_in, operator_not, operator_is_null, operator_is_not_null,
  ColumnBinding, BoundExpr, BoundExprs, BoundChecks, Expr,
}
use lance_duckdb.ExprIr.Nodes.{flag, encode_comparison_op, encode_unary_node}
use lance_duckdb.ExprIr.Literals.{encode_type_hint}
use lance_duckdb.ExprIr.Update.{
  is_null_expr, count_exprs, conjunction_code, encode_node, encode_nodes, encode_unary_child,
  encode_in, append_items, encode_checks,
}
use lance_duckdb.ExprIr.Parser.{Session}
use lance_duckdb.ExprIr.Meaning.{
  meaning, meanings, meaning_unary, meaning_in, meaning_checks, IsBound, AllBound, ChecksBound,
}
use lance_duckdb.ExprIr.RoundTrip.Values.{IsDuckDb}
use lance_duckdb.ExprIr.RoundTrip.Reads.{
  Reads, Reads-literal, Reads-column, Reads-not, Reads-is_null, Reads-is_not_null, Reads-cast,
  Reads-comparison,
}
use lance_duckdb.ExprIr.RoundTrip.ReadsLists.{
  ReadsAll, ReadsChecks, ReadsAll-nil, ReadsAll-cons, ReadsChecks-nil, ReadsChecks-cons,
  Reads-conjunction, Reads-in_list,
}
use lance_duckdb.ExprIr.RoundTrip.Calls.{Reads-call}
use lance_duckdb.ExprIr.RoundTrip.Compound.{
  comparison_op-encode, conjunction_op-code, in_shape, frames_shape, no_frames, Reads-between,
  Reads-else,
}

module _ (db : DuckDb) (laws : IsDuckDb db) (session : Session)
    (by_binding : ColumnBinding → Result Exception Bytes) (by_index : ℕ → Result Exception Bytes)
    (of_binding : ColumnBinding → Result ParseError Expr) (of_index : ℕ → Result ParseError Expr)
    (binding-Reads : (b : ColumnBinding) (out : Bytes)
      → by_binding b ≡ ok out
      → Reads session out (of_binding b))
    (index-Reads : (i : ℕ) (out : Bytes)
      → by_index i ≡ ok out
      → Reads session out (of_index i)) where
  mutual
    unfolding encode_node meaning IsBound append_u8 count_exprs

    pub encode_node-Reads :
        (e : BoundExpr) {out : Bytes}
        → IsBound e
        → encode_node db by_binding by_index e ≡ ok out
        → Reads session out (meaning db session of_binding of_index e)
    encode_node-Reads BoundExpr.null b h = cc
    encode_node-Reads BoundExpr.other b h = cc
    encode_node-Reads (BoundExpr.column_ref binding) b h = binding-Reads binding _ h
    encode_node-Reads (BoundExpr.reference [] index) b h = index-Reads index _ h
    encode_node-Reads (BoundExpr.reference (c ∷ cs) index) b h = Reads-column session (c ∷ cs) b h
    encode_node-Reads (BoundExpr.constant value) b h = Reads-literal session db laws value b h
    encode_node-Reads (BoundExpr.cast try_cast type child) b h =
        let (_, h₁) = throw_if-ok (is_null_expr child) internal _ h in
        let (_, h₂) = throw_if-ok try_cast not_implemented _ h₁ in
        let (child_ir, ch, h₃) = >>=-eq-ok (encode_node db by_binding by_index child) _ h₂ in
        let (type_ir, th, h₄) = >>=-eq-ok (encode_type_hint type) _ h₃ in
        Reads-cast session child_ir _ (encode_node-Reads child b ch) type th h₄
    encode_node-Reads (BoundExpr.function name children) b h =
        let (args, ah, h₁) = >>=-eq-ok (encode_nodes db by_binding by_index children) _ h in
        Reads-call session db name (laws.lower_utf8 name b.0) args _
          (encode_nodes-ReadsAll children b.1 ah) h₁
    encode_node-Reads (BoundExpr.operator operator_not children) b h =
        encode_unary_child-Reads 7 Expr.not (λ c m r _ e. Reads-not session c m r e) children b.1 h
    encode_node-Reads (BoundExpr.operator operator_is_null children) b h =
        encode_unary_child-Reads 10 Expr.is_null (λ c m r _ e. Reads-is_null session c m r e)
          children b.1 h
    encode_node-Reads (BoundExpr.operator operator_is_not_null children) b h =
        encode_unary_child-Reads 11 Expr.is_not_null
          (λ c m r _ e. Reads-is_not_null session c m r e) children b.1 h
    encode_node-Reads (BoundExpr.operator compare_in children) b h =
        encode_in-Reads false children b.0 b.1 h
    encode_node-Reads (BoundExpr.operator compare_not_in children) b h =
        encode_in-Reads true children b.0 b.1 h
    encode_node-Reads (BoundExpr.operator _ children) b h = cc
    encode_node-Reads (BoundExpr.comparison type left right) b h =
        let (l, lh, h₁) = >>=-eq-ok (encode_node db by_binding by_index left) _ h in
        let (r, rh, h₂) = >>=-eq-ok (encode_node db by_binding by_index right) _ h₁ in
        let (op, oh, h₃) = >>=-eq-ok (encode_comparison_op type) _ h₂ in
        Reads-comparison session l r _ _ (encode_node-Reads left b.0 lh)
          (encode_node-Reads right b.1 rh) op _ (comparison_op-encode type oh) h₃
    encode_node-Reads (BoundExpr.conjunction type children) b h =
        let (op, oh, h₁) = >>=-eq-ok (conjunction_code type) _ h in
        let (irs, ih, h₂) = >>=-eq-ok (encode_nodes db by_binding by_index children) _ h₁ in
        Reads-conjunction session op _ irs _ (conjunction_op-code type oh)
          (encode_nodes-ReadsAll children b ih) h₂
    encode_node-Reads (BoundExpr.case checks else_expr) b h =
        let (irs, ih, h₁) = >>=-eq-ok (encode_checks db by_binding by_index checks) _ h in
        Reads-else session irs _ _ _ (is_null_expr else_expr)
          (encode_checks-ReadsChecks checks b.0 ih)
          (λ else_ir eh. encode_node-Reads else_expr b.1 eh) h₁
    encode_node-Reads (BoundExpr.between input lower upper lower_type upper_type) b h =
        let (x, xh, h₁) = >>=-eq-ok (encode_node db by_binding by_index input) _ h in
        let (l, lh, h₂) = >>=-eq-ok (encode_node db by_binding by_index lower) _ h₁ in
        let (u, uh, h₃) = >>=-eq-ok (encode_node db by_binding by_index upper) _ h₂ in
        let (lower_op, loh, h₄) = >>=-eq-ok (encode_comparison_op lower_type) _ h₃ in
        let (upper_op, uoh, h₅) = >>=-eq-ok (encode_comparison_op upper_type) _ h₄ in
        Reads-between session x l u _ _ _ lower_type upper_type loh uoh
          (encode_node-Reads input b.0 xh) (encode_node-Reads lower b.1 lh)
          (encode_node-Reads upper b.2 uh) h₅

    pub encode_nodes-ReadsAll :
        (es : BoundExprs) {irs : List Bytes}
        → AllBound es
        → encode_nodes db by_binding by_index es ≡ ok irs
        → ReadsAll session irs (meanings db session of_binding of_index es)
    encode_nodes-ReadsAll BoundExprs.nil b h =
        subst (λ irs. ReadsAll session irs (meanings db session of_binding of_index BoundExprs.nil))
          (ok-injective h) (ReadsAll-nil session)
    encode_nodes-ReadsAll (BoundExprs.cons e es) b h =
        let (ir, eh, h₁) = >>=-eq-ok (encode_node db by_binding by_index e) _ h in
        let (irs, ih, h₂) = >>=-eq-ok (encode_nodes db by_binding by_index es) _ h₁ in
        subst
          (λ t. ReadsAll session t (meanings db session of_binding of_index (BoundExprs.cons e es)))
          (ok-injective h₂)
          (ReadsAll-cons session ir irs _ _ (encode_node-Reads e b.0 eh)
            (encode_nodes-ReadsAll es b.1 ih))

    encode_unary_child-Reads :
        (tag : ℕ) (build : Expr → Expr)
        (step : (c : Bytes) (m : Result ParseError Expr)
          → Reads session c m
          → (out : Bytes) → encode_unary_node tag c ≡ ok out
          → Reads session out (m >>= λ x. ok (build x)))
        (es : BoundExprs) {out : Bytes}
        → AllBound es
        → encode_unary_child db by_binding by_index tag es ≡ ok out
        → Reads session out (meaning_unary db session of_binding of_index build es)
    encode_unary_child-Reads tag build step BoundExprs.nil b h = cc
    encode_unary_child-Reads tag build step (BoundExprs.cons e BoundExprs.nil) b h =
        let (ir, eh, h₁) = >>=-eq-ok (encode_node db by_binding by_index e) _ h in
        step ir _ (encode_node-Reads e b.0 eh) _ h₁
    encode_unary_child-Reads tag build step (BoundExprs.cons e (BoundExprs.cons _ _)) b h = cc

    encode_in-Reads :
        (negated : Bool) (es : BoundExprs) {out : Bytes}
        → count_exprs es ≤ u32_max
        → AllBound es
        → encode_in db by_binding by_index negated es ≡ ok out
        → Reads session out (meaning_in db session of_binding of_index negated es)
    encode_in-Reads negated BoundExprs.nil few b h = cc
    encode_in-Reads negated (BoundExprs.cons e BoundExprs.nil) few b h = cc
    encode_in-Reads negated (BoundExprs.cons e (BoundExprs.cons item items)) few b h =
        let (lhs, lh, h₁) = >>=-eq-ok (encode_node db by_binding by_index e) _ h in
        let (o₁, fh, h₂) = >>=-eq-ok (append_len_prefixed (12 ∷ flag negated 1 ∷ []) lhs) _ h₁ in
        let (first, ih, h₃) = >>=-eq-ok (encode_node db by_binding by_index item) _ h₂ in
        let (o₂, gh, h₄) = >>=-eq-ok (append_len_prefixed _ first) _ h₃ in
        let (fl, e₁) = append_len_prefixed_inv (12 ∷ flag negated 1 ∷ []) lhs fh in
        let (ff, e₂) = append_len_prefixed_inv _ first gh in
        let (irs, count, fits, e₃, rs) = append_items-Reads o₂ items b.1.1 h₄ in
        Reads-in_list session negated lhs (first ∷ irs) _ _ (omega arith) fl (ff, fits)
          (in_shape (12 ∷ flag negated 1 ∷ []) lhs first irs (count_exprs items) e₁ e₂ e₃ count)
          (encode_node-Reads e b.0 lh)
          (ReadsAll-cons session first irs _ _ (encode_node-Reads item b.1.0 ih) rs)

    append_items-Reads :
        (out : Bytes) (es : BoundExprs) {res : Bytes}
        → AllBound es
        → append_items db by_binding by_index out es ≡ ok res
        → (irs : List Bytes) × (length irs ≡ count_exprs es)
          × All Fits irs
          × (res ≡ out ++ frames irs)
          × ReadsAll session irs (meanings db session of_binding of_index es)
    append_items-Reads out BoundExprs.nil b h =
        ([], refl, tt, sym (ok-injective h) ∙ no_frames out, ReadsAll-nil session)
    append_items-Reads out (BoundExprs.cons e es) b h =
        let (ir, eh, h₁) = >>=-eq-ok (encode_node db by_binding by_index e) _ h in
        let (out', oh, h₂) = >>=-eq-ok (append_len_prefixed out ir) _ h₁ in
        let (fits, e₁) = append_len_prefixed_inv out ir oh in
        let (irs, count, fs, e₂, rs) = append_items-Reads out' es b.1 h₂ in
        (
          ir ∷ irs,
          ap suc count,
          (fits, fs),
          e₂ ∙ ap (λ t. t ++ frames irs) e₁ ∙ frames_shape out ir irs,
          ReadsAll-cons session ir irs _ _ (encode_node-Reads e b.0 eh) rs,
        )

    encode_checks-ReadsChecks :
        (cs : BoundChecks) {irs : List (Bytes × Bytes)}
        → ChecksBound cs
        → encode_checks db by_binding by_index cs ≡ ok irs
        → ReadsChecks session irs (meaning_checks db session of_binding of_index cs)
    encode_checks-ReadsChecks BoundChecks.end b h =
        subst
          (λ irs.
            ReadsChecks session irs (meaning_checks db session of_binding of_index BoundChecks.end))
          (ok-injective h) (ReadsChecks-nil session)
    encode_checks-ReadsChecks (BoundChecks.check w t cs) b h =
        let (_, h₁) = throw_if-ok (is_null_expr w || is_null_expr t) internal _ h in
        let (wir, wh, h₂) = >>=-eq-ok (encode_node db by_binding by_index w) _ h₁ in
        let (tir, th, h₃) = >>=-eq-ok (encode_node db by_binding by_index t) _ h₂ in
        let (irs, ih, h₄) = >>=-eq-ok (encode_checks db by_binding by_index cs) _ h₃ in
        subst
          (λ s.
            ReadsChecks session s
              (meaning_checks db session of_binding of_index (BoundChecks.check w t cs)))
          (ok-injective h₄)
          (ReadsChecks-cons session wir tir irs _ _ _ (encode_node-Reads w b.0 wh)
            (encode_node-Reads t b.1 th) (encode_checks-ReadsChecks cs b.2 ih))
