-- ===== src/Exec/Message.antt =====
-- src/lance_exec_ir.cpp, TryEncodeLanceExecIRv1: the message for an aggregation over a scan, with an
-- optional projection and an optional order above it.
mod Order
pub use Order.{
  LogicalAggregate, LogicalProjection, OrderNode, Names, is_movable, is_position, projects_to,
  flag_byte,
}
unfoldable pub use Order.{
  initial_names, set_name, rename, strip_casts, output_index, project_names, post_project,
  order_name, order_entries, write_orders,
}
use lance_duckdb.Common.{
  ℕ, zero, suc, ◌+◌, ◌-◌, Bytes, Bool, true, false, List, [], ◌∷◌, ◌++◌, map, Option, none, some,
  length, get_elem?, ltb, leb, ◌==◌, ◌||◌, ◌&&◌, not, if◌then◌else◌, ok, err, ◌>>=◌, ◌>>◌,
}
use lance_duckdb.Wire.Writer.{u32_max}
use lance_duckdb.ExprIr.Nodes.{is_empty}
use lance_duckdb.ExprIr.Scope.{Scan}
use lance_duckdb.Exec.Types.{
  Attempt, attempt, refusal, refuse_if, decline_if, Info, Expression, DuckDb, AggFunc, sum, count,
  count_star, min, max, avg,
}
use lance_duckdb.Exec.Write.{write_u32, write_string, write_strings}
use lance_duckdb.Exec.Expr.{Projection, info_of}
use lance_duckdb.Exec.Aggregates.{or_refuse, EncodedGroup, EncodedAgg, encode_groups, encode_aggs}

unfoldable pub contains : ℕ → List ℕ → Bool
contains i [] = false
contains i (j ∷ js) = i == j || contains i js

-- 0 to n - 1 are members.
unfoldable pub contains_below : ℕ → List ℕ → Bool
contains_below zero set = true
contains_below (suc n) set = contains n set && contains_below n set

unfoldable pub check_grouping : Bool → LogicalAggregate → Attempt (Unit {0})
check_grouping failfast aggregate = do
  refuse_if failfast aggregate.has_grouping_functions
  elim aggregate.grouping_sets [
    | [] ↦ ok tt
    | set ∷ sets ↦ elim sets [
      | [] ↦
          refuse_if failfast (not (length set == length aggregate.groups))
          >> refuse_if failfast (not (contains_below (length aggregate.groups) set))
      | _ ∷ _ ↦ err (refusal failfast)
    ]
  ]

-- An unordered_set of columns is a list of its members: one that is there already is not added.
unfoldable pub emplace : ℕ → List ℕ → List ℕ
emplace i set = if contains i set then set else i ∷ set

unfoldable pub emplace_all : List ℕ → List ℕ → List ℕ
emplace_all [] set = set
emplace_all (i ∷ is) set = emplace_all is (emplace i set)

unfoldable pub group_columns : List EncodedGroup → List ℕ → List ℕ
group_columns [] set = set
group_columns (g ∷ gs) set = group_columns gs (emplace_all g.columns set)

unfoldable pub agg_columns : List EncodedAgg → List ℕ → List ℕ
agg_columns [] set = set
agg_columns (a ∷ more) set = agg_columns more (emplace_all a.columns set)

-- std::sort of the members.
unfoldable pub insert_index : ℕ → List ℕ → List ℕ
insert_index i [] = i ∷ []
insert_index i (j ∷ js) = if leb i j then i ∷ j ∷ js else j ∷ insert_index i js

unfoldable pub sort_indexes : List ℕ → List ℕ
sort_indexes [] = []
sort_indexes (i ∷ is) = insert_index i (sort_indexes is)

unfoldable pub scanned_names : Bool → List Bytes → List ℕ → Attempt (List Bytes)
scanned_names failfast names [] = ok []
scanned_names failfast names (i ∷ is) = do
  name ← or_refuse failfast (attempt (get_elem? names i))
  refuse_if failfast (is_empty name)
  rest ← scanned_names failfast names is
  ok (name ∷ rest)

unfoldable pub func_tag : AggFunc → ℕ
func_tag sum = 1
func_tag count = 2
func_tag count_star = 3
func_tag min = 4
func_tag max = 5
func_tag avg = 6

unfoldable pub write_groups : List EncodedGroup → Attempt Bytes
write_groups [] = ok []
write_groups (g ∷ gs) = do
  name ← write_string g.output_name
  rest ← write_groups gs
  ok (name ++ (g.encoded_expr ++ (g.output_type_hint ++ rest)))

unfoldable pub write_aggs : List EncodedAgg → Attempt Bytes
write_aggs [] = ok []
write_aggs (a ∷ more) = do
  name ← write_string a.output_name
  rest ← write_aggs more
  ok (
      func_tag a.func
      ∷ (name ++ (write_u32 a.arg_count ++ (a.encoded_args ++ (a.output_type_hint ++ rest)))))

-- A count of at most 2 ^ 32 - 1, or false.
abbrev pub write_count : ℕ → Attempt Bytes
write_count n = do decline_if (ltb u32_max n); ok (write_u32 n)

abbrev pub exec_magic : Bytes
exec_magic = b'L' ∷ b'E' ∷ b'X' ∷ b'1' ∷ []

-- No order is no entry.
abbrev pub nodes_of : Option (List OrderNode) → List OrderNode
nodes_of none = []
nodes_of (some nodes) = nodes

-- The names of the order come from the columns' names after the projection.
unfoldable pub encode_order :
    (failfast : Bool)
    → LogicalAggregate
    → Option (List OrderNode)
    → Option LogicalProjection
    → List EncodedGroup
    → List EncodedAgg
    → Attempt Bytes
encode_order failfast aggregate order post_projection groups aggs = do
  names ← post_project failfast aggregate post_projection (initial_names groups aggs)
  entries ← order_entries failfast aggregate post_projection names (nodes_of order)
  order_len ← write_count (length entries)
  order_bytes ← write_orders entries
  ok (order_len ++ order_bytes)

-- The parts of the message are written in their order, and put together in the end.
unfoldable pub write_exec_ir :
    (failfast : Bool)
    → (filter_ir_msg : Bytes) → (projection : List Bytes) → List EncodedGroup
    → List EncodedAgg
    → LogicalAggregate
    → Option (List OrderNode)
    → Option LogicalProjection
    → Attempt Bytes
write_exec_ir failfast filter_ir_msg projection groups aggs aggregate order post_projection = do
  filter_len ← write_count (length filter_ir_msg)
  projection_len ← write_count (length projection)
  projection_bytes ← write_strings projection
  groups_len ← write_count (length groups)
  groups_bytes ← write_groups groups
  aggs_len ← write_count (length aggs)
  aggs_bytes ← write_aggs aggs
  order_bytes ← encode_order failfast aggregate order post_projection groups aggs
  ok (
      exec_magic
      ++ (write_u32 4
          ++ (write_u32 0
              ++ (filter_len
                  ++ (filter_ir_msg
                      ++ (projection_len
                          ++ (projection_bytes
                              ++ (groups_len
                                  ++ (groups_bytes
                                      ++ (aggs_len ++ (aggs_bytes ++ order_bytes)))))))))))

-- `same_size` says that the bind data has as many types as names.
unfoldable pub try_encode_exec_ir :
    DuckDb
    → (failfast : Bool) → Scan
    → (same_size : Bool) → (filter_ir_msg : Bytes) → (extra_scan_col_ids : List ℕ) → List Projection
    → LogicalAggregate
    → Option (List OrderNode)
    → Option LogicalProjection
    → Attempt Bytes
try_encode_exec_ir db failfast scan same_size filter_ir_msg extra_scan_col_ids stack aggregate order
      post_projection =
    do
      check_grouping failfast aggregate
      decline_if (not aggregate.has_one_child)
      decline_if (not same_size)
      groups ← encode_groups db failfast scan stack aggregate.groups
      aggs ← encode_aggs db failfast scan stack aggregate.expressions
      projection ← scanned_names failfast scan.names (
          sort_indexes
            (agg_columns aggs (group_columns groups (emplace_all extra_scan_col_ids []))))
      write_exec_ir failfast filter_ir_msg projection groups aggs aggregate order post_projection
