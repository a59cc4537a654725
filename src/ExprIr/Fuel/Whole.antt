-- ===== src/ExprIr/Fuel/Whole.antt =====
-- parse_subexpr and parse_expr_ir of rust/expr_ir.rs: one unit of fuel more than bytes is enough.
use lance_duckdb.Common.{
  ℕ, zero, suc, ◌≤◌, ◌≢◌, Bytes, Bool, true, false, not, [], ◌∷◌, length, take, drop, ltb, bytes_eq,
  Result, ok, err, ◌>>=◌, ◌>>◌, throw_if, arith,
}
use lance_duckdb.Wire.Reader.{ParseError, read_u8, out_of_fuel, too_short, magic_mismatch}
use lance_duckdb.Wire.Writer.{magic}
use lance_duckdb.ExprIr.Types.{Expr}
use lance_duckdb.ExprIr.Parser.{
  Session, parse_node, at_eof, parse_subexpr, parse_expr_ir, parse_expr_ir_payload,
}
use lance_duckdb.ExprIr.Fuel.{Safe, Fueled}
use lance_duckdb.ExprIr.Fuel.Nodes.{node-Safe}

at_eof-Fueled : (n : ℕ) (m : Result ParseError (Expr × Bytes)) → Safe n m → Fueled (m >>= at_eof)
at_eof-Fueled n (ok (e, [])) h = tt
at_eof-Fueled n (ok (e, _ ∷ _)) h = λ x. cc
at_eof-Fueled n (err x) h = h

too_long : (b : ℕ) (bs : Bytes) → ¬ (length (b ∷ bs) ≤ 0)
too_long b bs h = omega (arith, h)

empty_node :
    (session : Session) (sub : Bytes → Result ParseError Expr)
    → Fueled (parse_node session sub [] >>= at_eof)
unfolding parse_node read_u8
empty_node session sub = λ e. cc

subexpr-Fueled :
    (session : Session) (fuel : ℕ) (bs : Bytes)
    → length bs ≤ fuel
    → Fueled (parse_subexpr session (suc fuel) bs)
unfolding parse_subexpr
subexpr-Fueled session zero [] h = empty_node session (parse_subexpr session zero)
subexpr-Fueled session zero (b ∷ bs) h = absurd (too_long b bs h)
subexpr-Fueled session (suc fuel) bs h =
    at_eof-Fueled fuel (parse_node session (parse_subexpr session (suc fuel)) bs)
      (node-Safe session (parse_subexpr session (suc fuel)) fuel (subexpr-Fueled session fuel) bs h)

throw_if-Fueled :
    (b : Bool) (e : ParseError) (k : Result ParseError Expr)
    → e ≢ out_of_fuel
    → Fueled k
    → Fueled (throw_if b e >> k)
throw_if-Fueled true e k h s = h
throw_if-Fueled false e k h s = s

Fueled-out_of_fuel : (m : Result ParseError Expr) → Fueled m → m ≢ err out_of_fuel
Fueled-out_of_fuel (ok e) h = λ p. cc
Fueled-out_of_fuel (err e) h = λ p. h cc

-- Whatever bytes a message has, the parser does not run out of the fuel it starts with: it returns an
-- expression or one of the errors of the source.
pub parse_expr_ir_never_out_of_fuel :
    (session : Session) (bs : Bytes) → parse_expr_ir session bs ≢ err out_of_fuel
unfolding parse_expr_ir parse_expr_ir_payload
parse_expr_ir_never_out_of_fuel session bs = Fueled-out_of_fuel (parse_expr_ir session bs) (
    throw_if-Fueled (ltb (length bs) 4) too_short _ (λ e. cc)
      (throw_if-Fueled (not (bytes_eq (take 4 bs) magic)) magic_mismatch _ (λ e. cc)
        (subexpr-Fueled session (length (drop 4 bs)) (drop 4 bs) (omega arith))))
