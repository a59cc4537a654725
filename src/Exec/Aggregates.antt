-- ===== src/Exec/Aggregates.antt =====
-- src/lance_exec_ir.cpp, TryMapAggFunc and the loop over the aggregates of TryEncodeLanceExecIRv1.
use lance_duckdb.Common.{
  ℕ, Bytes, Bool, List, [], ◌∷◌, Option, none, some, bytes_eq, ◌||◌, not, if◌then◌else◌, ok, err,
  ◌>>=◌, ◌>>◌,
}
use lance_duckdb.ExprIr.Scope.{Scan}
use lance_duckdb.Exec.Types.{
  declined, Attempt, attempt, refusal, refuse_if, Info, Expression, Expressions, DuckDb, AggFunc,
  sum, count, count_star, min, max, avg,
}
use lance_duckdb.Exec.Write.{try_encode_output_type_hint}
use lance_duckdb.Exec.Expr.{Encoded, Projection, try_encode_exec_expr, info_of}
use lance_duckdb.Exec.Pushdown.{is_pushdownable_expr, is_supported_group_expr}

abbrev pub name_sum : Bytes
name_sum = b's' ∷ b'u' ∷ b'm' ∷ []

abbrev pub name_count : Bytes
name_count = b'c' ∷ b'o' ∷ b'u' ∷ b'n' ∷ b't' ∷ []

abbrev pub name_count_star : Bytes
name_count_star = b'c' ∷ b'o' ∷ b'u' ∷ b'n' ∷ b't' ∷ b'_' ∷ b's' ∷ b't' ∷ b'a' ∷ b'r' ∷ []

abbrev pub name_min : Bytes
name_min = b'm' ∷ b'i' ∷ b'n' ∷ []

abbrev pub name_max : Bytes
name_max = b'm' ∷ b'a' ∷ b'x' ∷ []

abbrev pub name_avg : Bytes
name_avg = b'a' ∷ b'v' ∷ b'g' ∷ []

abbrev pub name_average : Bytes
name_average = b'a' ∷ b'v' ∷ b'e' ∷ b'r' ∷ b'a' ∷ b'g' ∷ b'e' ∷ []

-- A function that answers false where its caller refuses.
abbrev pub or_refuse {ℓ} : {A : Type ℓ} → Bool → Attempt A → Attempt A
or_refuse failfast (ok a) = ok a
or_refuse failfast (err declined) = err (refusal failfast)
or_refuse failfast (err e) = err e

-- COUNT by the number of its arguments.
abbrev pub count_func : Expressions → Option AggFunc
count_func Expressions.nil = some count_star
count_func (Expressions.cons e Expressions.nil) = some count
count_func (Expressions.cons e (Expressions.cons e' es)) = none

unfoldable pub try_map_agg_func : Bytes → Expressions → Option AggFunc
try_map_agg_func name children =
    if bytes_eq name name_sum
    then some sum
    else if bytes_eq name name_count_star
    then some count_star
    else if bytes_eq name name_count
    then count_func children
    else if bytes_eq name name_min
    then some min
    else if bytes_eq name name_max
    then some max
    else if bytes_eq name name_avg || bytes_eq name name_average
    then some avg
    else none

-- The same for an aggregate that is still a function of the plan.
unfoldable pub map_function_agg : Bytes → Expressions → Option AggFunc
map_function_agg name children =
    if bytes_eq name name_sum
    then some sum
    else if bytes_eq name name_count
    then some (elim children [ Expressions.nil ↦ count_star | Expressions.cons e es ↦ count ])
    else if bytes_eq name name_min
    then some min
    else if bytes_eq name name_max
    then some max
    else if bytes_eq name name_avg || bytes_eq name name_average
    then some avg
    else none

-- The argument: none for COUNT(*), one for the others.
unfoldable pub agg_argument : Bool → AggFunc → Expressions → Attempt (Option Expression)
agg_argument failfast count_star Expressions.nil = ok none
agg_argument failfast count_star (Expressions.cons e es) = err (refusal failfast)
agg_argument failfast func (Expressions.cons e Expressions.nil) = ok (some e)
agg_argument failfast func _ = err (refusal failfast)

-- A group and an aggregate, with the columns of the table that it mentions.
pub record EncodedGroup : Type 0 where
  pub output_name : Bytes
  pub encoded_expr : Bytes
  pub output_type_hint : Bytes
  pub columns : List ℕ

pub record EncodedAgg : Type 0 where
  pub func : AggFunc
  pub output_name : Bytes
  pub encoded_args : Bytes
  pub arg_count : ℕ
  pub output_type_hint : Bytes
  pub columns : List ℕ

module _ (db : DuckDb) (failfast : Bool) where
  unfoldable pub agg_of : Expression → Attempt (AggFunc × Option Expression)
  agg_of (Expression.aggregate info name distinct filtered ordered children) = do
    refuse_if failfast (distinct || filtered || ordered)
    func ← or_refuse failfast (attempt (try_map_agg_func (db.lower name) children))
    arg ← agg_argument failfast func children
    ok (func, arg)
  agg_of (Expression.function info name children) = do
    func ← or_refuse failfast (attempt (map_function_agg (db.lower name) children))
    arg ← agg_argument failfast func children
    ok (func, arg)
  agg_of _ = err (refusal failfast)

  abbrev pub info_or_refuse : Expression → Attempt Info
  info_or_refuse e = or_refuse failfast (attempt (info_of e))

  module _ (scan : Scan) (stack : List Projection) where
    -- The number of arguments, and the argument.
    unfoldable pub encode_argument : Option Expression → Attempt (ℕ × Encoded)
    encode_argument none = ok (0, ([], []))
    encode_argument (some Expression.null) = err declined
    encode_argument (some e) = do
      encoded ← or_refuse failfast (try_encode_exec_expr db scan stack e)
      ok (1, encoded)

    unfoldable pub encode_group : Expression → Attempt EncodedGroup
    encode_group e = do
      info ← info_or_refuse e
      refuse_if failfast (not (is_pushdownable_expr db e))
      refuse_if failfast (not (is_supported_group_expr e))
      (bytes, columns) ← or_refuse failfast (try_encode_exec_expr db scan stack e)
      hint ← or_refuse failfast (try_encode_output_type_hint info.return_type)
      ok (record {
        output_name = info.name;
        encoded_expr = bytes;
        output_type_hint = hint;
        columns = columns;
      })

    unfoldable pub encode_agg : Expression → Attempt EncodedAgg
    encode_agg e = do
      info ← info_or_refuse e
      (func, arg) ← agg_of e
      hint ← or_refuse failfast (try_encode_output_type_hint info.return_type)
      (arg_count, (bytes, columns)) ← encode_argument arg
      ok (record {
        func = func;
        output_name = info.name;
        encoded_args = bytes;
        arg_count = arg_count;
        output_type_hint = hint;
        columns = columns;
      })

    unfoldable pub encode_groups : List Expression → Attempt (List EncodedGroup)
    encode_groups [] = ok []
    encode_groups (e ∷ es) = do
      group ← encode_group e
      groups ← encode_groups es
      ok (group ∷ groups)

    unfoldable pub encode_aggs : List Expression → Attempt (List EncodedAgg)
    encode_aggs [] = ok []
    encode_aggs (e ∷ es) = do agg ← encode_agg e; aggs ← encode_aggs es; ok (agg ∷ aggs)
