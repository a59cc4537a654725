-- ===== src/Exec/Message/Order.antt =====
-- src/lance_exec_ir.cpp, TryEncodeLanceExecIRv1: the plan's operators, and the columns' names and the order
-- above an aggregation.
use lance_duckdb.Common.{
  ℕ, zero, suc, ◌+◌, ◌-◌, Bytes, Bool, false, List, [], ◌∷◌, ◌++◌, map, Option, none, some, length,
  get_elem?, ltb, leb, ◌==◌, ◌||◌, not, if◌then◌else◌, ok, err, ◌>>=◌, ◌>>◌,
}
use lance_duckdb.ExprIr.Nodes.{is_empty}
use lance_duckdb.Exec.Types.{Attempt, attempt, refusal, refuse_if, Info, Expression}
use lance_duckdb.Exec.Write.{write_string}
use lance_duckdb.Exec.Expr.{info_of}
use lance_duckdb.Exec.Aggregates.{or_refuse, EncodedGroup, EncodedAgg}

-- A grouping set is the list of its members.
pub record LogicalAggregate : Type 0 where
  pub has_grouping_functions : Bool
  pub grouping_sets : List (List ℕ)
  pub groups : List Expression
  pub expressions : List Expression
  pub has_one_child : Bool
  pub group_index : ℕ
  pub aggregate_index : ℕ

pub record LogicalProjection : Type 0 where
  pub table_index : ℕ
  pub has_one_child : Bool
  pub expressions : List Expression

pub record OrderNode : Type 0 where
  pub expression : Expression
  pub ascending : Bool
  pub nulls_first : Bool

-- The names of the columns: all of them, and those of groups and aggregates, which are changed with them.
pub record Names : Type 0 where
  pub output_names : List Bytes
  pub group_names : List Bytes
  pub agg_names : List Bytes

unfoldable pub initial_names : List EncodedGroup → List EncodedAgg → Names
initial_names groups aggs =
    let gs = map (λ (g : EncodedGroup). g.output_name) groups in
    let ms = map (λ (a : EncodedAgg). a.output_name) aggs in
    record { output_names = gs ++ ms; group_names = gs; agg_names = ms }

unfoldable pub set_name : List Bytes → ℕ → Bytes → List Bytes
set_name [] i name = []
set_name (x ∷ xs) zero name = name ∷ xs
set_name (x ∷ xs) (suc i) name = x ∷ set_name xs i name

unfoldable pub rename : ℕ → Bytes → Names → Names
rename i name names =
    if ltb i (length names.group_names)
    then record names {
      output_names = set_name names.output_names i name;
      group_names = set_name names.group_names i name;
    }
    else record names {
      output_names = set_name names.output_names i name;
      agg_names = set_name names.agg_names (i - length names.group_names) name;
    }

abbrev pub is_movable : Info → Bool
is_movable info = not (info.has_parameter || info.is_volatile || info.can_throw)

module _ (failfast : Bool) (aggregate : LogicalAggregate) where
  -- Under its casts.
  unfoldable pub strip_casts : Expression → Attempt Expression
  strip_casts (Expression.cast info child) = strip_casts child
  strip_casts Expression.null = err (refusal failfast)
  strip_casts e = ok e

  -- The output column that an expression is.
  unfoldable pub output_index : (groups : ℕ) → Expression → Option ℕ
  output_index groups (Expression.reference info index) = some index
  output_index groups (Expression.column_ref info binding) =
      if binding.table_index == aggregate.group_index
      then some binding.column_index
      else if binding.table_index == aggregate.aggregate_index
      then some (groups + binding.column_index)
      else none
  output_index groups _ = none

  abbrev pub is_position : ℕ → Option ℕ → Bool
  is_position i none = false
  is_position i (some j) = i == j

  -- The projection keeps every column at its place, and may rename it.
  unfoldable pub project_names : ℕ → List Expression → Names → Attempt Names
  project_names i [] names = ok names
  project_names i (e ∷ es) names = do
    info ← or_refuse failfast (attempt (info_of e))
    refuse_if failfast (not (is_movable info))
    base ← strip_casts e
    refuse_if failfast (not (is_position i (output_index (length names.group_names) base)))
    refuse_if failfast (leb (length names.output_names) i)
    refuse_if failfast (is_empty info.name)
    project_names (i + 1) es (rename i info.name names)

  unfoldable pub post_project : Option LogicalProjection → Names → Attempt Names
  post_project none names = ok names
  post_project (some projection) names = do
    refuse_if failfast (not projection.has_one_child)
    refuse_if failfast (not (length projection.expressions == length names.output_names))
    project_names 0 projection.expressions names

  abbrev pub projects_to : Option LogicalProjection → ℕ → Bool
  projects_to none index = false
  projects_to (some projection) index = index == projection.table_index

  unfoldable pub order_name : Option LogicalProjection → Names → Expression → Attempt Bytes
  order_name projection names (Expression.reference info index) =
      or_refuse failfast (attempt (get_elem? names.output_names index))
  order_name projection names (Expression.column_ref info binding) =
      if binding.table_index == aggregate.group_index
      then or_refuse failfast (attempt (get_elem? names.group_names binding.column_index))
      else if binding.table_index == aggregate.aggregate_index
      then or_refuse failfast (attempt (get_elem? names.agg_names binding.column_index))
      else if projects_to projection binding.table_index
      then or_refuse failfast (attempt (get_elem? names.output_names binding.column_index))
      else err (refusal failfast)
  order_name projection names _ = err (refusal failfast)

  -- The name, whether ascending, and whether nulls come first.
  unfoldable pub order_entries :
      Option LogicalProjection → Names → List OrderNode → Attempt (List (Bytes × Bool × Bool))
  order_entries projection names [] = ok []
  order_entries projection names (node ∷ nodes) = do
    info ← or_refuse failfast (attempt (info_of node.expression))
    refuse_if failfast (not (is_movable info))
    name ← order_name projection names node.expression
    rest ← order_entries projection names nodes
    ok ((name, node.ascending, node.nulls_first) ∷ rest)

abbrev pub flag_byte : Bool → ℕ
flag_byte b = if b then 1 else 0

unfoldable pub write_orders : List (Bytes × Bool × Bool) → Attempt Bytes
write_orders [] = ok []
write_orders ((name, asc, nulls_first) ∷ entries) = do
  text ← write_string name
  rest ← write_orders entries
  ok (text ++ (flag_byte asc ∷ flag_byte nulls_first ∷ rest))
