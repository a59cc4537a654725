-- ===== src/Exec/RoundTrip/Items.antt =====
-- A group and an aggregate, as they are encoded and as they are read.
use lance_duckdb.Common.{
  ℕ, suc, ◌≤◌, ◌≡◌, refl, Bytes, Bool, List, [], ◌∷◌, ◌++◌, append-nil, Option, none, some, length,
  length-append, not, subst, All, ok, throw_if-ok, >>=-eq-ok, ok-injective, arith,
}
use mathlib.Core.List.{Forall₂}
use lance_duckdb.Wire.Writer.{u32_max}
use lance_duckdb.ExprIr.Scope.{Scan}
use lance_duckdb.ExprIr.RoundTrip.Columns.{IsUtf8}
use lance_duckdb.Exec.Types.{
  attempt, Info, Expression, DuckDb, OutputTypeHint, ExprIr, AggFunc, GroupIr, AggIr,
}
use lance_duckdb.Exec.Write.{try_encode_output_type_hint}
use lance_duckdb.Exec.Expr.{Encoded, Projection, info_of, try_encode_exec_expr}
use lance_duckdb.Exec.Pushdown.{is_pushdownable_expr, is_supported_group_expr}
use lance_duckdb.Exec.Aggregates.{
  agg_of, EncodedGroup, EncodedAgg, encode_argument, encode_group, encode_agg,
}
use lance_duckdb.Exec.Parser.{parse_exec_expr, parse_output_type_hint, read_times}
use lance_duckdb.Exec.Meaning.{columns_of, IsDuckDb, IsExpression, IsStack}
use lance_duckdb.Exec.Named.{agg_of-aggregate_of}
use lance_duckdb.Exec.Plan.{
  group_meaning, argument_meaning, agg_meaning, arguments_columns, IsPlanned,
}
use lance_duckdb.Exec.RoundTrip.Arguments.{or_refuse-ok, info_name, agg_of-IsExpression}
use lance_duckdb.Exec.RoundTrip.Leaves.{Takes, hint-Takes}
use lance_duckdb.Exec.RoundTrip.Expr.{ReadsExpr, Names}
use lance_duckdb.Exec.RoundTrip.Tree.{exec_expr-Stands}

-- What is encoded, and what it is read as.
pub record IsGroup (names : List Bytes) (g : EncodedGroup) (x : GroupIr) : Type 0 where
  pub hint : OutputTypeHint
  pub same_name : g.output_name ≡ x.output_name
  pub utf8_name : IsUtf8 x.output_name
  pub reads_expr : ReadsExpr g.encoded_expr x.expr
  pub same_hint : x.output_type ≡ some hint
  pub takes_hint : Takes parse_output_type_hint g.output_type_hint hint
  pub columns : Names names g.columns (columns_of x.expr)

pub record IsAgg (names : List Bytes) (a : EncodedAgg) (x : AggIr) : Type 0 where
  pub hint : OutputTypeHint
  pub same_func : a.func ≡ x.func
  pub same_name : a.output_name ≡ x.output_name
  pub utf8_name : IsUtf8 x.output_name
  pub few : a.arg_count ≤ u32_max
  pub takes_args : Takes (read_times parse_exec_expr a.arg_count) a.encoded_args x.args
  pub same_hint : x.output_type ≡ some hint
  pub takes_hint : Takes parse_output_type_hint a.output_type_hint hint
  pub columns : Names names a.columns (arguments_columns x.args)

pub expr-Takes : (bytes : Bytes) (x : ExprIr) → ReadsExpr bytes x → Takes parse_exec_expr bytes x
unfolding parse_exec_expr
expr-Takes bytes x reads rest =
    reads (suc (length (bytes ++ rest))) (omega (arith, length-append bytes rest)) rest

one-Takes :
    (bytes : Bytes) (x : ExprIr)
    → ReadsExpr bytes x
    → Takes (read_times parse_exec_expr 1) bytes (x ∷ [])
unfolding read_times
one-Takes bytes x reads rest = rw (expr-Takes bytes x reads rest)

module _ (db : DuckDb) (laws : IsDuckDb db) (failfast : Bool) (scan : Scan)
    (named : All IsUtf8 scan.names) (stack : List Projection) (valid : IsStack stack) where
  argument-Stands :
      (arg : Option Expression) {r : ℕ × Encoded}
      → ((e : Expression) → arg ≡ some e → IsExpression e)
      → encode_argument db failfast scan stack arg ≡ ok r
      → (xs : List ExprIr) × (argument_meaning db scan stack arg ≡ ok xs)
        × (r.0 ≤ u32_max)
        × Takes (read_times parse_exec_expr r.0) r.1.0 xs
        × Names scan.names r.1.1 (arguments_columns xs)
  unfolding encode_argument read_times
  argument-Stands none i h = (
    [],
    refl,
    rw (← ok-injective h) (omega arith),
    rw (← ok-injective h) (λ rest. refl),
    rw (← ok-injective h) Forall₂.nil,
  )
  argument-Stands (some Expression.null) i h = cc
  argument-Stands (some e) i h =
      let (q, e₁, k) = or_refuse-ok failfast (try_encode_exec_expr db scan stack e) _ h in
      let (x, m, reads, names) =
        exec_expr-Stands db laws scan named stack e valid (i e refl) q e₁ in
      (
        x ∷ [],
        rw m,
        rw (← ok-injective k) (omega arith),
        rw (← ok-injective k) (one-Takes q.0 x reads),
        rw (← ok-injective k, append-nil (columns_of x)) names,
      )

  grouped :
      (e : Expression) (info : Info) (p : Encoded) (bytes : Bytes)
      → IsPlanned e
      → attempt (info_of e) ≡ ok info
      → try_encode_exec_expr db scan stack e ≡ ok p
      → try_encode_output_type_hint info.return_type ≡ ok bytes
      → (x : GroupIr) × (group_meaning db scan stack e ≡ ok x)
        × IsGroup scan.names
            record {
              output_name = info.name;
              encoded_expr = p.0;
              output_type_hint = bytes;
              columns = p.1;
            }
            x
  unfolding group_meaning
  grouped e info p bytes i e₁ e₂ e₃ =
      let (x, m, reads, names) = exec_expr-Stands db laws scan named stack e valid i.0 p e₂ in
      let (hint, mh, takes) = hint-Takes info.return_type e₃ in
      (
        record { output_name = info.name; expr = x; output_type = some hint },
        rw (e₁, m, mh),
        record {
          hint = hint;
          same_name = refl;
          utf8_name = info_name e i.1 e₁;
          reads_expr = reads;
          same_hint = refl;
          takes_hint = takes;
          columns = names;
        },
      )

  pub encode_group-Stands :
      (e : Expression) (g : EncodedGroup)
      → IsPlanned e
      → encode_group db failfast scan stack e ≡ ok g
      → (x : GroupIr) × (group_meaning db scan stack e ≡ ok x) × IsGroup scan.names g x
  unfolding encode_group
  encode_group-Stands e g i h =
      let (info, e₁, k₁) = or_refuse-ok failfast (attempt (info_of e)) _ h in
      let (_, k₂) = throw_if-ok (not (is_pushdownable_expr db e)) _ _ k₁ in
      let (_, k₃) = throw_if-ok (not (is_supported_group_expr e)) _ _ k₂ in
      let (p, e₂, k₄) = or_refuse-ok failfast (try_encode_exec_expr db scan stack e) _ k₃ in
      let (bytes, e₃, k₅) =
        or_refuse-ok failfast (try_encode_output_type_hint info.return_type) _ k₄ in
      subst (λ g. (x : GroupIr) × (group_meaning db scan stack e ≡ ok x) × IsGroup scan.names g x)
        (ok-injective k₅) (grouped e info p bytes i e₁ e₂ e₃)

  aggregated :
      (e : Expression) (info : Info) (func : AggFunc) (arg : Option Expression) (bytes : Bytes)
      (r : ℕ × Encoded)
      → IsPlanned e
      → attempt (info_of e) ≡ ok info
      → agg_of db failfast e ≡ ok (func, arg)
      → try_encode_output_type_hint info.return_type ≡ ok bytes
      → encode_argument db failfast scan stack arg ≡ ok r
      → (x : AggIr) × (agg_meaning db scan stack e ≡ ok x)
        × IsAgg scan.names
            record {
              func = func;
              output_name = info.name;
              encoded_args = r.1.0;
              arg_count = r.0;
              output_type_hint = bytes;
              columns = r.1.1;
            }
            x
  unfolding agg_meaning
  aggregated e info func arg bytes r i e₁ e₂ e₃ e₄ =
      let (xs, m, few, takes_args, names) =
        argument-Stands arg (λ child same. agg_of-IsExpression db failfast e i.0 (rw same at e₂))
          e₄ in
      let (hint, mh, takes) = hint-Takes info.return_type e₃ in
      (
        record { func = func; output_name = info.name; args = xs; output_type = some hint },
        rw (e₁, agg_of-aggregate_of failfast db e e₂, mh, m),
        record {
          hint = hint;
          same_func = refl;
          same_name = refl;
          utf8_name = info_name e i.1 e₁;
          few = few;
          takes_args = takes_args;
          same_hint = refl;
          takes_hint = takes;
          columns = names;
        },
      )

  pub encode_agg-Stands :
      (e : Expression) (a : EncodedAgg)
      → IsPlanned e
      → encode_agg db failfast scan stack e ≡ ok a
      → (x : AggIr) × (agg_meaning db scan stack e ≡ ok x) × IsAgg scan.names a x
  unfolding encode_agg
  encode_agg-Stands e a i h =
      let (info, e₁, k₁) = or_refuse-ok failfast (attempt (info_of e)) _ h in
      let ((func, arg), e₂, k₂) = >>=-eq-ok (agg_of db failfast e) _ k₁ in
      let (bytes, e₃, k₃) =
        or_refuse-ok failfast (try_encode_output_type_hint info.return_type) _ k₂ in
      let (r, e₄, k₄) = >>=-eq-ok (encode_argument db failfast scan stack arg) _ k₃ in
      subst (λ a. (x : AggIr) × (agg_meaning db scan stack e ≡ ok x) × IsAgg scan.names a x)
        (ok-injective k₄) (aggregated e info func arg bytes r i e₁ e₂ e₃ e₄)
