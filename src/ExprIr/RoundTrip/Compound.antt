-- ===== src/ExprIr/RoundTrip/Compound.antt =====
-- BETWEEN, IN and the optional ELSE of CASE, whose bytes EncodeUpdateExprNode puts together itself, and
-- the codes of the operators.
use lance_duckdb.Common.{
  ℕ, suc, ◌≡◌, refl, ◌++◌, Bytes, Bool, true, false, List, [], ◌∷◌, none, some, length, Result, ok,
  ◌>>=◌, >>=_assoc, >>=-eq-ok, sym, ◌∙◌, arith, Exception, append-nil, append_assoc, subst,
}
use lance_duckdb.Wire.Writer.{append_u32}
use lance_duckdb.Wire.Reader.{ParseError}
use lance_duckdb.Wire.Frames.{frame, frames}
use lance_duckdb.ExprIr.Types.{
  ExpressionType, compare_equal, conjunction_and, Expr, Exprs, Checks, and,
}
use lance_duckdb.ExprIr.Nodes.{encode_comparison_op, encode_comparison_node, encode_case_node}
use lance_duckdb.ExprIr.Update.{conjunction_code, encode_between}
use lance_duckdb.ExprIr.Parser.{Session, comparison_op, conjunction_op}
use lance_duckdb.ExprIr.Meaning.{comparison_of, conjunction_of, conjunction, joined}
use lance_duckdb.ExprIr.RoundTrip.Nodes.{counted}
use lance_duckdb.ExprIr.RoundTrip.Reads.{Reads, Reads-comparison}
use lance_duckdb.ExprIr.RoundTrip.ReadsLists.{
  ReadsChecks, ReadsAll-nil, ReadsAll-cons, Reads-conjunction, Reads-case,
}

-- The codes of the operators, as they are written and read.
pub comparison_op-encode :
    (t : ExpressionType) {op : ℕ}
    → encode_comparison_op t ≡ ok op
    → comparison_op op ≡ ok (comparison_of t)
unfolding encode_comparison_op comparison_op comparison_of
comparison_op-encode compare_equal h = ground arith
comparison_op-encode _ h = ground arith

pub conjunction_op-code :
    (t : ExpressionType) {op : ℕ}
    → conjunction_code t ≡ ok op
    → conjunction_op op ≡ ok (conjunction_of t)
unfolding conjunction_code conjunction_op conjunction_of
conjunction_op-code conjunction_and h = ground arith
conjunction_op-code _ h = ground arith

-- An IN list that is written item by item is a counted list.
pub in_shape :
    (head lhs first : Bytes) (irs : List Bytes) (n : ℕ) {o₁ o₂ out : Bytes}
    → o₁ ≡ head ++ frame lhs
    → o₂ ≡ append_u32 o₁ (suc n) ++ frame first
    → out ≡ o₂ ++ frames irs
    → length irs ≡ n
    → out ≡ head ++ (frame lhs ++ counted (first ∷ irs))
unfolding counted append_u32 frames
in_shape head lhs first irs n e₁ e₂ e₃ count = rw (e₃, e₂, e₁, ← count) (simp append_assoc)

pub frames_shape :
    (out s : Bytes) (ss : List Bytes) → (out ++ frame s) ++ frames ss ≡ out ++ frames (s ∷ ss)
unfolding frames
frames_shape out s ss = append_assoc out (frame s) (frames ss)

pub no_frames : (out : Bytes) → out ≡ out ++ frames []
unfolding frames
no_frames out = sym (append-nil out)

pub pair_conjunction :
    (p q : Result ParseError Expr)
    → ((p >>= λ x. (q >>= λ y. ok (Exprs.cons y Exprs.nil)) >>= λ xs. ok (Exprs.cons x xs))
        >>= λ es. conjunction and es)
      ≡ (p >>= λ x. q >>= λ y. ok (Expr.binary x and y))
unfolding conjunction joined
pair_conjunction p q = simp >>=_assoc

-- BETWEEN is the conjunction of two comparisons with its input.
module _ (session : Session) (x l u : Bytes) (mx ml mu : Result ParseError Expr) where
  pub Reads-between :
      (lower_type upper_type : ExpressionType) {lower_op upper_op : ℕ} {out : Bytes}
      → encode_comparison_op lower_type ≡ ok lower_op
      → encode_comparison_op upper_type ≡ ok upper_op
      → Reads session x mx
      → Reads session l ml
      → Reads session u mu
      → encode_between lower_op upper_op x l u ≡ ok out
      → Reads session out (
          mx >>= λ e. ml >>= λ lo. mx >>= λ e'. mu >>= λ hi. ok (
            Expr.binary
              (Expr.binary e (comparison_of lower_type) lo)
              and
              (Expr.binary e' (comparison_of upper_type) hi)))
  unfolding encode_between
  Reads-between lower_type upper_type {lower_op} {upper_op} lh uh rx rl ru h =
      let (lower_ir, h₁, k₁) = >>=-eq-ok (encode_comparison_node lower_op x l) _ h in
      let (upper_ir, h₂, k₂) = >>=-eq-ok (encode_comparison_node upper_op x u) _ k₁ in
      let lower =
        Reads-comparison session x l _ _ rx rl lower_op _ (comparison_op-encode lower_type lh) h₁ in
      let upper =
        Reads-comparison session x u _ _ rx ru upper_op _ (comparison_op-encode upper_type uh) h₂ in
      subst (Reads session _) (pair_conjunction _ _ ∙ simp >>=_assoc) (
        Reads-conjunction session 1 and (lower_ir ∷ upper_ir ∷ []) _ (unfold conjunction_op in refl)
          (ReadsAll-cons session _ _ _ _ lower
            (ReadsAll-cons session _ _ _ _ upper (ReadsAll-nil session)))
          k₂)

-- CASE with what stands in its ELSE.
module _ (session : Session) (irs : List (Bytes × Bytes)) (ms : Result ParseError Checks)
    (m : Result ParseError Expr) (enc : Result Exception Bytes) where
  pub Reads-else :
      (no_else : Bool) {out : Bytes}
      → ReadsChecks session irs ms
      → ((else_ir : Bytes) → enc ≡ ok else_ir → Reads session else_ir m)
      → (elim no_else [
        | true ↦ encode_case_node irs none
        | false ↦ enc >>= λ else_ir. encode_case_node irs (some else_ir)
      ])
        ≡ ok out
      → Reads session out (
          ms >>= λ cs. elim no_else [
            | true ↦ ok (Expr.case cs)
            | false ↦ m >>= λ e. ok (Expr.case_else cs e)
          ])
  Reads-else true rs re h = Reads-case session irs none ms none rs tt h
  Reads-else false rs re h =
      let (else_ir, eh, h₁) = >>=-eq-ok enc _ h in
      Reads-case session irs (some else_ir) ms (some m) rs (re else_ir eh) h₁
