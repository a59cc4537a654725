-- ===== src/Filter/Sound/Constants.antt =====
-- Constants, and what a declined step says.
use lance_duckdb.Common.{
  ℕ, ◌≡◌, sym, ◌∙◌, ok-injective, Bytes, Bool, true, List, [], ◌∷◌, ◌==◌, ==_eq, not, Result, ok,
  >>=-eq-ok, or_throw-ok, All,
}
use lance_duckdb.Wire.Reader.{ParseError, is_utf8}
use lance_duckdb.ExprIr.Types.{DuckDb, LogicalType, Value, Expr, Exprs}
use lance_duckdb.ExprIr.Nodes.{try_encode_literal}
use lance_duckdb.ExprIr.Parser.{Session}
use lance_duckdb.ExprIr.RoundTrip.Values.{IsValue, scalar_of}
use lance_duckdb.ExprIr.Exports.{Built, BuiltAll}
use lance_duckdb.Filter.Types.{declined, Attempt, attempt, Expression, Expressions, Casts}
use lance_duckdb.Filter.Columns.{is_null_value}
use lance_duckdb.Filter.Calls.{
  text_ir, cast_ir, literals_ir, value_literals, non_null_varchar, backslash, escape_of,
}
use lance_duckdb.Filter.Meaning.{
  text_meaning, cast_meaning, literals_meaning, values_meaning, value_meaning,
}
pub use lance_duckdb.Filter.Attempts.{attempt-ok, require-ok}
use lance_duckdb.Filter.Functions.{constant_text-non_null_varchar}
use lance_duckdb.Filter.Valid.{IsCasts, IsExpression, AllExpressions}

pub escape_of-ok : (s : Bytes) {c : ℕ} → escape_of s ≡ ok c → c ≡ backslash
escape_of-ok [] h = cc
escape_of-ok (c ∷ []) h =
    let (e, k) = require-ok (c == backslash) _ h in sym (ok-injective k) ∙ ==_eq c backslash e
escape_of-ok (c ∷ c' ∷ s) h = cc

-- What an encoder answers is built, and stands for that expression.
abbrev pub Builds : DuckDb → Session → Attempt Bytes → Result ParseError Expr → Type 0
Builds db session ir m = (out : Bytes) → ir ≡ ok out → Built db session out m

abbrev pub BuildsAll : DuckDb → Session → Attempt (List Bytes) → Result ParseError Exprs → Type 0
BuildsAll db session irs ms = (outs : List Bytes) → irs ≡ ok outs → BuiltAll db session outs ms

module _ (db : DuckDb) (casts : Casts) (laws : IsCasts casts) (session : Session) where
  pub value-Built :
      (value : Value) {ir : Bytes}
      → IsValue value
      → attempt (try_encode_literal db value) ≡ ok ir
      → Built db session ir (value_meaning db value)
  value-Built value v h = Built.literal value v (attempt-ok _ h)

  non_null_varchar_utf8 :
      (e : Expression) {s : Bytes} → non_null_varchar casts e ≡ ok s → is_utf8 s ≡ true
  unfolding non_null_varchar
  non_null_varchar_utf8 (Expression.constant value) h =
      let (_, k) = require-ok (not (is_null_value value)) _ h in laws.is_text value (attempt-ok _ k)
  non_null_varchar_utf8 (Expression.cast try_cast type (Expression.constant value)) h =
      let (_, k) = require-ok (not try_cast) _ h in
      let (_, l) = require-ok (not (is_null_value value)) _ k in
      let (casted, _, m) = or_throw-ok (casts.cast_as value type) declined _ l in
      laws.is_text casted (attempt-ok _ m)
  non_null_varchar_utf8 (Expression.cast try_cast type _) h = cc
  non_null_varchar_utf8 _ h = cc

  pub text_ir-Built :
      (e : Expression) {ir : Bytes}
      → text_ir db casts e ≡ ok ir
      → Built db session ir (text_meaning db casts session e)
  unfolding text_ir text_meaning scalar_of
  text_ir-Built e h =
      let (s, e₁, k) = >>=-eq-ok (non_null_varchar casts e) _ h in
      rw (constant_text-non_null_varchar casts e e₁)
        (value-Built (Value.varchar s) (non_null_varchar_utf8 e e₁) k)

  pub cast_ir-Built :
      (try_cast : Bool) (type : LogicalType) (child : Expression) {ir : Bytes}
      → IsExpression child
      → cast_ir db casts try_cast type child ≡ ok ir
      → Built db session ir (cast_meaning db casts session type child)
  unfolding cast_ir cast_meaning IsExpression
  cast_ir-Built try_cast type (Expression.constant value) v h =
      let (_, k) = require-ok (not try_cast) _ h in
      let (casted, e, l) = or_throw-ok (casts.cast_as value type) declined _ k in
      rw e (value-Built casted (laws.in_range value type v e) l)
  cast_ir-Built try_cast type _ v h = cc

  pub literals_ir-Built :
      (es : Expressions)
      → AllExpressions es
      → BuildsAll db session (literals_ir db es) (literals_meaning db es)
  unfolding literals_ir literals_meaning AllExpressions IsExpression
  literals_ir-Built Expressions.nil v outs h = rw (← ok-injective h) BuiltAll.nil
  literals_ir-Built (Expressions.cons (Expression.constant value) es) v outs h =
      let (ir, e, k) = or_throw-ok (try_encode_literal db value) declined _ h in
      let (irs, es', l) = >>=-eq-ok (literals_ir db es) _ k in
      rw (← ok-injective l)
        (BuiltAll.cons (Built.literal value v.0 e) (literals_ir-Built es v.1 irs es'))
  literals_ir-Built (Expressions.cons _ es) v outs h = cc

  pub value_literals-Built :
      (values : List Value)
      → All IsValue values
      → BuildsAll db session (value_literals db values) (values_meaning db values)
  unfolding value_literals values_meaning
  value_literals-Built [] v outs h = rw (← ok-injective h) BuiltAll.nil
  value_literals-Built (value ∷ values) v outs h =
      let (ir, e, k) = or_throw-ok (try_encode_literal db value) declined _ h in
      let (irs, es', l) = >>=-eq-ok (value_literals db values) _ k in
      rw (← ok-injective l)
        (BuiltAll.cons (Built.literal value v.0 e) (value_literals-Built values v.1 irs es'))
