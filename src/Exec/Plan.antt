-- ===== src/Exec/Plan.antt =====
-- What a plan stands for: the groups, the aggregates and the order of the message, without bytes.
use lance_duckdb.Common.{
  Bytes, Bool, List, [], ◌∷◌, map, Option, none, some, ok, ◌>>=◌, All, ◌++◌, ℕ, ◌+◌, ltb, length,
  get_elem?, ◌==◌, if◌then◌else◌,
}
use lance_duckdb.ExprIr.Types.{ColumnBinding}
use lance_duckdb.ExprIr.Scope.{Scan}
use lance_duckdb.ExprIr.RoundTrip.Columns.{IsUtf8}
use lance_duckdb.Exec.Types.{
  Attempt, attempt, Info, Expression, DuckDb, ExprIr, GroupIr, AggIr, OrderByIr,
}
use lance_duckdb.Exec.Expr.{Projection, info_of}
use lance_duckdb.Exec.Named.{aggregate_of}
use lance_duckdb.Exec.Message.{LogicalAggregate, LogicalProjection, OrderNode, Names}
use lance_duckdb.Exec.Meaning.{hint_meaning, columns_of, exec_meaning, IsExpression}

unfoldable pub each {ℓ κ} : {A : Type ℓ} {B : Type κ} → (A → Attempt B) → List A → Attempt (List B)
each f [] = ok []
each f (x ∷ xs) = do y ← f x; ys ← each f xs; ok (y ∷ ys)

module _ (db : DuckDb) (scan : Scan) (stack : List Projection) where
  unfoldable pub group_meaning : Expression → Attempt GroupIr
  group_meaning e = do
    info ← attempt (info_of e)
    x ← exec_meaning db scan stack e
    hint ← hint_meaning info.return_type
    ok (record { output_name = info.name; expr = x; output_type = some hint })

  abbrev pub argument_meaning : Option Expression → Attempt (List ExprIr)
  argument_meaning none = ok []
  argument_meaning (some e) = exec_meaning db scan stack e >>= λ x. ok (x ∷ [])

  unfoldable pub agg_meaning : Expression → Attempt AggIr
  agg_meaning e = do
    info ← attempt (info_of e)
    (func, arg) ← attempt (aggregate_of db e)
    hint ← hint_meaning info.return_type
    args ← argument_meaning arg
    ok (record { func = func; output_name = info.name; args = args; output_type = some hint })

-- The names of the columns of the aggregation.
unfoldable pub names_of : List GroupIr → List AggIr → Names
names_of groups aggs =
    let gs = map (λ (g : GroupIr). g.output_name) groups in
    let ms = map (λ (a : AggIr). a.output_name) aggs in
    record { output_names = gs ++ ms; group_names = gs; agg_names = ms }

abbrev pub order_of : Bytes × Bool × Bool → OrderByIr
order_of (column, asc, nulls_first) = record {
  column = column;
  asc = asc;
  nulls_first = nulls_first;
}

-- The names of the columns of the message, in their order.
abbrev pub output_columns : List GroupIr → List AggIr → List Bytes
output_columns groups aggs =
    map (λ (g : GroupIr). g.output_name) groups ++ map (λ (a : AggIr). a.output_name) aggs

unfoldable pub name_of : Expression → Bytes
name_of e = elim (info_of e) [ some info ↦ info.name | none ↦ [] ]

-- The names that the columns have where they are sorted: those of the projection, if there is one.
unfoldable pub sort_columns : Option LogicalProjection → List GroupIr → List AggIr → List Bytes
sort_columns none groups aggs = output_columns groups aggs
sort_columns (some projection) groups aggs = map name_of projection.expressions

abbrev pub place_above : Option LogicalProjection → ColumnBinding → Option ℕ
place_above none binding = none
place_above (some projection) binding =
    if binding.table_index == projection.table_index then some binding.column_index else none

-- The place of the column that an expression of the order is: groups come first, then aggregates.
unfoldable pub sort_place :
    LogicalAggregate → Option LogicalProjection → (groups : ℕ) → Expression → Option ℕ
sort_place aggregate projection groups (Expression.reference info index) = some index
sort_place aggregate projection groups (Expression.column_ref info binding) =
    if binding.table_index == aggregate.group_index
    then (if ltb binding.column_index groups then some binding.column_index else none)
    else if binding.table_index == aggregate.aggregate_index
    then some (groups + binding.column_index)
    else place_above projection binding
sort_place aggregate projection groups _ = none

unfoldable pub order_meaning :
    LogicalAggregate
    → Option LogicalProjection
    → List GroupIr
    → List AggIr
    → OrderNode
    → Attempt OrderByIr
order_meaning aggregate projection groups aggs node = do
  place ← attempt (sort_place aggregate projection (length groups) node.expression)
  column ← attempt (get_elem? (sort_columns projection groups aggs) place)
  ok (order_of (column, node.ascending, node.nulls_first))

-- The columns that the expressions of the message read.
abbrev pub arguments_columns : List ExprIr → List Bytes
arguments_columns [] = []
arguments_columns (x ∷ xs) = columns_of x ++ arguments_columns xs

unfoldable pub groups_columns : List GroupIr → List Bytes
groups_columns [] = []
groups_columns (g ∷ gs) = columns_of g.expr ++ groups_columns gs

unfoldable pub aggs_columns : List AggIr → List Bytes
aggs_columns [] = []
aggs_columns (a ∷ more) = arguments_columns a.args ++ aggs_columns more

-- A name in UTF-8, where there is an expression.
abbrev pub IsNamed : Option Info → Type 0
IsNamed none = Unit
IsNamed (some info) = IsUtf8 info.name

abbrev pub IsPlanned : Expression → Type 0
IsPlanned e = IsExpression e × IsNamed (info_of e)

abbrev pub IsRenaming : Option LogicalProjection → Type 0
IsRenaming none = Unit
IsRenaming (some projection) = All (λ e. IsNamed (info_of e)) projection.expressions
