-- ===== src/ExprIr/Exports.antt =====
-- The functions that src/include/lance_expr_ir.hpp exports to the other encoders of the extension,
-- TryEncodeLanceExprIR* and TryWrapLanceExprIRMessage: the byte strings that a caller can put together
-- with them, each with the expression that it stands for.
pub mod Regexp
pub mod Reading
use lance_duckdb.Common.{
  ℕ, ◌≡◌, Bytes, Bool, true, false, not, List, [], ◌∷◌, Option, none, some, All, Result, ok, ◌>>=◌,
  ◌>>◌, throw_if, if◌then◌else◌,
}
use lance_duckdb.Wire.Reader.{ParseError, is_utf8, bad_regexp}
use lance_duckdb.ExprIr.Types.{DuckDb, ExpressionType, Value, and, or, Expr, Exprs, regexp_like}
use lance_duckdb.ExprIr.Nodes.{
  try_encode_column_ref, try_encode_literal, try_encode_comparison_op, try_encode_and,
  try_encode_or, try_encode_not, try_encode_is_null, try_encode_is_not_null, try_encode_comparison,
  try_encode_in_list, try_encode_scalar_function, try_encode_like, try_encode_regexp,
}
use lance_duckdb.ExprIr.Parser.{Session, nest_fields, regexp_args}
use lance_duckdb.ExprIr.Exports.Regexp.{literal_text, pattern_text, options_in}
use lance_duckdb.ExprIr.Meaning.{conjunction, comparison_of, named_call}
use lance_duckdb.ExprIr.RoundTrip.Values.{IsValue, scalar_of}
use lance_duckdb.ExprIr.RoundTrip.Columns.{IsUtf8}

-- The flags of a regular expression, from the string literal that holds them.
unfoldable pub flags_meaning : Result ParseError Expr → Result ParseError (Option Bytes)
flags_meaning flags = do flags_expr ← flags; text ← literal_text flags_expr; options_in text

unfoldable pub regexp_meaning : Session → ℕ → Expr → Expr → Option Bytes → Result ParseError Expr
regexp_meaning session mode value pattern options = do
  text ← pattern_text mode pattern
  throw_if (not (session.compiles text options)) bad_regexp
  ok (Expr.scalar_function regexp_like (regexp_args value text options))

mutual
  pub data Built (db : DuckDb) (session : Session) : Bytes → Result ParseError Expr → Type 0 where
    column_ref :
        (s : Bytes) (ss : List Bytes) {out : Bytes}
        → All IsUtf8 (s ∷ ss)
        → try_encode_column_ref (s ∷ ss) ≡ some out
        → Built db session out (ok (nest_fields (Expr.column s) ss))
    literal :
        (v : Value) {out : Bytes}
        → IsValue v
        → try_encode_literal db v ≡ some out
        → Built db session out (ok (Expr.literal (scalar_of db v)))
    all_of :
        {irs : List Bytes} {ms : Result ParseError Exprs} {out : Bytes}
        → BuiltAll db session irs ms
        → try_encode_and irs ≡ some out
        → Built db session out (ms >>= conjunction and)
    any_of :
        {irs : List Bytes} {ms : Result ParseError Exprs} {out : Bytes}
        → BuiltAll db session irs ms
        → try_encode_or irs ≡ some out
        → Built db session out (ms >>= conjunction or)
    negation :
        {ir out : Bytes} {m : Result ParseError Expr}
        → Built db session ir m
        → try_encode_not ir ≡ some out
        → Built db session out (m >>= λ x. ok (Expr.not x))
    is_null :
        {ir out : Bytes} {m : Result ParseError Expr}
        → Built db session ir m
        → try_encode_is_null ir ≡ some out
        → Built db session out (m >>= λ x. ok (Expr.is_null x))
    is_not_null :
        {ir out : Bytes} {m : Result ParseError Expr}
        → Built db session ir m
        → try_encode_is_not_null ir ≡ some out
        → Built db session out (m >>= λ x. ok (Expr.is_not_null x))
    comparison :
        (type : ExpressionType) {op : ℕ} {l r out : Bytes} {ml mr : Result ParseError Expr}
        → Built db session l ml
        → Built db session r mr
        → try_encode_comparison_op type ≡ some op
        → try_encode_comparison op l r ≡ some out
        → Built db session out (ml >>= λ x. mr >>= λ y. ok (Expr.binary x (comparison_of type) y))
    in_list :
        (negated : Bool) {ir out : Bytes} {irs : List Bytes} {m : Result ParseError Expr}
        {ms : Result ParseError Exprs}
        → Built db session ir m
        → BuiltAll db session irs ms
        → try_encode_in_list negated ir irs ≡ some out
        → Built db session out (m >>= λ x. ms >>= λ es. ok (Expr.in_list x es negated))
    call :
        (name : Bytes) {irs : List Bytes} {ms : Result ParseError Exprs} {out : Bytes}
        → is_utf8 name ≡ true
        → BuiltAll db session irs ms
        → try_encode_scalar_function db name irs ≡ some out
        → Built db session out (ms >>= λ es. named_call session (db.lower name) es)
    like :
        (case_insensitive has_escape : Bool) (escape_char : ℕ) {e p out : Bytes}
        {me mp : Result ParseError Expr}
        → Built db session e me
        → Built db session p mp
        → try_encode_like case_insensitive has_escape escape_char e p ≡ some out
        → Built db session out (
            me >>= λ x. mp >>= λ y.
            ok (Expr.like x y (if has_escape then some escape_char else none) case_insensitive))
    regexp :
        (mode : ℕ) (flags : Bytes) {e p out : Bytes} {me mp : Result ParseError Expr}
        → Built db session e me
        → Built db session p mp
        → try_encode_regexp mode false e p flags ≡ some out
        → Built db session out (me >>= λ x. mp >>= λ y. regexp_meaning session mode x y none)
    regexp_with_flags :
        (mode : ℕ) {flags e p out : Bytes} {me mp mf : Result ParseError Expr}
        → Built db session e me
        → Built db session p mp
        → Built db session flags mf
        → try_encode_regexp mode true e p flags ≡ some out
        → Built db session out
            (me >>= λ x. mp >>= λ y. flags_meaning mf >>= λ o. regexp_meaning session mode x y o)

  pub data BuiltAll (db : DuckDb) (session : Session)
      : List Bytes → Result ParseError Exprs → Type 0 where
    nil : BuiltAll db session [] (ok Exprs.nil)
    cons :
        {ir : Bytes} {irs : List Bytes} {m : Result ParseError Expr} {ms : Result ParseError Exprs}
        → Built db session ir m
        → BuiltAll db session irs ms
        → BuiltAll db session (ir ∷ irs) (m >>= λ x. ms >>= λ xs. ok (Exprs.cons x xs))
