-- ===== src/Exec/RoundTrip/Arguments.antt =====
-- The parts of an expression that is encoded are valid as it is.
use lance_duckdb.Common.{
  ◌≡◌, ap, ◌∙◌, Bool, Option, some, ◌||◌, subst, ok, throw_if-ok, >>=-eq-ok, ok-injective,
}
use mathlib.Core.Option.{some-injective}
use lance_duckdb.ExprIr.RoundTrip.Columns.{IsUtf8}
use lance_duckdb.Exec.Types.{
  Attempt, attempt, Info, Expression, Expressions, DuckDb, AggFunc, count_star,
}
use lance_duckdb.Exec.Expr.{info_of}
pub use lance_duckdb.Exec.Refusals.{or_refuse-ok, attempt_inv}
use lance_duckdb.Exec.Aggregates.{try_map_agg_func, map_function_agg, agg_argument, agg_of}
use lance_duckdb.Exec.Meaning.{IsExpression, AllExpressions}
use lance_duckdb.Exec.Plan.{IsNamed}

pub info_name :
    (e : Expression) {info : Info}
    → IsNamed (info_of e)
    → attempt (info_of e) ≡ ok info
    → IsUtf8 info.name
info_name e n h = subst IsNamed (attempt_inv (info_of e) h) n

-- The argument of an aggregate is one of its children.
argument-IsExpression :
    (failfast : Bool) (func : AggFunc) (children : Expressions) {e : Expression}
    → AllExpressions children
    → agg_argument failfast func children ≡ ok (some e)
    → IsExpression e
unfolding agg_argument AllExpressions
argument-IsExpression failfast count_star Expressions.nil i h = cc
argument-IsExpression failfast count_star (Expressions.cons e es) i h = cc
argument-IsExpression failfast _ Expressions.nil i h = cc
argument-IsExpression failfast _ (Expressions.cons e Expressions.nil) i h =
    rw (← some-injective _ _ (ok-injective h)) i.0
argument-IsExpression failfast _ (Expressions.cons e (Expressions.cons e' es)) i h = cc

picked :
    {m : Attempt (Option Expression)} {func func' : AggFunc} {arg arg' : Option Expression}
    → m ≡ ok arg
    → ◌≡◌ {A = Attempt (AggFunc × Option Expression)} (ok (func, arg)) (ok (func', arg'))
    → m ≡ ok arg'
picked e k = e ∙ ap (λ p. ok p.1) (ok-injective k)

pub agg_of-IsExpression :
    (db : DuckDb) (failfast : Bool) (e : Expression) {func : AggFunc} {arg : Expression}
    → IsExpression e
    → agg_of db failfast e ≡ ok (func, some arg)
    → IsExpression arg
unfolding agg_of IsExpression
agg_of-IsExpression db failfast (Expression.aggregate info name distinct filtered ordered children)
      {arg = wanted} i h =
    let (_, k₁) = throw_if-ok (distinct || filtered || ordered) _ _ h in
    let (func, _, k₂) =
      or_refuse-ok failfast (attempt (try_map_agg_func (db.lower name) children)) _ k₁ in
    let (arg, e, k₃) = >>=-eq-ok (agg_argument failfast func children) _ k₂ in
    argument-IsExpression failfast func children {e = wanted} i (picked e k₃)
agg_of-IsExpression db failfast (Expression.function info name children) {arg = wanted} i h =
    let (func, _, k₂) =
      or_refuse-ok failfast (attempt (map_function_agg (db.lower name) children)) _ h in
    let (arg, e, k₃) = >>=-eq-ok (agg_argument failfast func children) _ k₂ in
    argument-IsExpression failfast func children {e = wanted} i (picked e k₃)
agg_of-IsExpression db failfast _ {arg = wanted} i h = cc
