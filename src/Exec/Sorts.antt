-- ===== src/Exec/Sorts.antt =====
-- By which columns of the message its order sorts.
use lance_duckdb.Common.{
  ℕ, ◌≡◌, refl, Bytes, Bool, List, [], ◌∷◌, ◌++◌, map, Option, none, some, length, get_elem?, subst,
  All, ok, >>=-eq-ok, ok-injective,
}
use mathlib.Core.List.{Forall₂}
use lance_duckdb.ExprIr.Scope.{Scan}
use lance_duckdb.ExprIr.RoundTrip.Columns.{IsUtf8}
use lance_duckdb.Exec.Types.{attempt, Expression, DuckDb, GroupIr, AggIr, OrderByIr, ExecIr}
use lance_duckdb.Exec.Expr.{Projection, info_of}
use lance_duckdb.Exec.Message.{
  LogicalAggregate, LogicalProjection, OrderNode, nodes_of, try_encode_exec_ir,
}
use lance_duckdb.Exec.Parser.{parse_exec_ir_v1}
use lance_duckdb.Exec.Meaning.{IsDuckDb, IsStack, hint_meaning, exec_meaning}
use lance_duckdb.Exec.Named.{aggregate_of}
use lance_duckdb.Exec.Plan.{
  each, group_meaning, argument_meaning, agg_meaning, output_columns, name_of, sort_columns,
  sort_place, order_meaning, IsPlanned, IsRenaming,
}
use lance_duckdb.Exec.RoundTrip.Arguments.{attempt_inv}
use lance_duckdb.Exec.RoundTrip.Message.{parse_exec_ir_v1-try_encode_exec_ir}

-- The names that the groups and the aggregates have in the plan.
abbrev pub plan_names : LogicalAggregate → List Bytes
plan_names aggregate = map name_of aggregate.groups ++ map name_of aggregate.expressions

-- No projection above, or one that gives each column the name that it has.
abbrev pub KeepsNames : LogicalAggregate → Option LogicalProjection → Type 0
KeepsNames aggregate none = Unit
KeepsNames aggregate (some projection) = map name_of projection.expressions ≡ plan_names aggregate

-- An entry of the order names the column, of those that the message computes, at the place that the node
-- refers to, and sorts in the node's direction.
pub record SortsBy (aggregate : LogicalAggregate) (projection : Option LogicalProjection)
    (groups : List GroupIr) (aggs : List AggIr) (node : OrderNode) (entry : OrderByIr)
    : Type 0 where
  pub place : ℕ
  pub refers : sort_place aggregate projection (length groups) node.expression ≡ some place
  pub names_column : get_elem? (output_columns groups aggs) place ≡ some entry.column
  pub same_direction : entry.asc ≡ node.ascending
  pub same_nulls : entry.nulls_first ≡ node.nulls_first

module _ (aggregate : LogicalAggregate) (projection : Option LogicalProjection)
    (groups : List GroupIr) (aggs : List AggIr)
    (same : sort_columns projection groups aggs ≡ output_columns groups aggs) where
  node-SortsBy :
      (node : OrderNode) (entry : OrderByIr)
      → order_meaning aggregate projection groups aggs node ≡ ok entry
      → SortsBy aggregate projection groups aggs node entry
  unfolding order_meaning
  node-SortsBy node entry h =
      let (i, e₁, k₁) =
        >>=-eq-ok (attempt (sort_place aggregate projection (length groups) node.expression)) _ h in
      let (column, e₂, k₂) =
        >>=-eq-ok (attempt (get_elem? (sort_columns projection groups aggs) i)) _ k₁ in
      subst (SortsBy aggregate projection groups aggs node) (ok-injective k₂) record {
        place = i;
        refers = attempt_inv _ e₁;
        names_column = subst (λ t. get_elem? t i ≡ some column) same (attempt_inv _ e₂);
        same_direction = refl;
        same_nulls = refl;
      }

  nodes-SortBy :
      (nodes : List OrderNode) (entries : List OrderByIr)
      → each (order_meaning aggregate projection groups aggs) nodes ≡ ok entries
      → Forall₂ (SortsBy aggregate projection groups aggs) nodes entries
  unfolding each
  nodes-SortBy [] entries h = rw (← ok-injective h) Forall₂.nil
  nodes-SortBy (node ∷ nodes) entries h =
      let (entry, e₁, k₁) = >>=-eq-ok (order_meaning aggregate projection groups aggs node) _ h in
      let (more, e₂, k₂) =
        >>=-eq-ok (each (order_meaning aggregate projection groups aggs) nodes) _ k₁ in
      subst (Forall₂ (SortsBy aggregate projection groups aggs) (node ∷ nodes)) (ok-injective k₂)
        (Forall₂.cons (node-SortsBy node entry e₁) (nodes-SortBy nodes more e₂))

module _ (db : DuckDb) (scan : Scan) (stack : List Projection) where
  group-name_of :
      (e : Expression) {g : GroupIr}
      → group_meaning db scan stack e ≡ ok g
      → g.output_name ≡ name_of e
  unfolding group_meaning name_of
  group-name_of e h =
      let (info, e₁, k₁) = >>=-eq-ok (attempt (info_of e)) _ h in
      let (x, _, k₂) = >>=-eq-ok (exec_meaning db scan stack e) _ k₁ in
      let (hint, _, k₃) = >>=-eq-ok (hint_meaning info.return_type) _ k₂ in
      rw (← ok-injective k₃, attempt_inv (info_of e) e₁, name_of) refl

  agg-name_of :
      (e : Expression) {a : AggIr} → agg_meaning db scan stack e ≡ ok a → a.output_name ≡ name_of e
  unfolding agg_meaning name_of
  agg-name_of e h =
      let (info, e₁, k₁) = >>=-eq-ok (attempt (info_of e)) _ h in
      let ((func, arg), _, k₂) = >>=-eq-ok (attempt (aggregate_of db e)) _ k₁ in
      let (hint, _, k₃) = >>=-eq-ok (hint_meaning info.return_type) _ k₂ in
      let (args, _, k₄) = >>=-eq-ok (argument_meaning db scan stack arg) _ k₃ in
      rw (← ok-injective k₄, attempt_inv (info_of e) e₁, name_of) refl

  groups-names :
      (es : List Expression) (gs : List GroupIr)
      → each (group_meaning db scan stack) es ≡ ok gs
      → map (λ (g : GroupIr). g.output_name) gs ≡ map name_of es
  unfolding each
  groups-names [] gs h = rw (← ok-injective h) refl
  groups-names (e ∷ es) gs h =
      let (g, e₁, k₁) = >>=-eq-ok (group_meaning db scan stack e) _ h in
      let (more, e₂, k₂) = >>=-eq-ok (each (group_meaning db scan stack) es) _ k₁ in
      rw (← ok-injective k₂, group-name_of e e₁, groups-names es more e₂) refl

  aggs-names :
      (es : List Expression) (xs : List AggIr)
      → each (agg_meaning db scan stack) es ≡ ok xs
      → map (λ (a : AggIr). a.output_name) xs ≡ map name_of es
  unfolding each
  aggs-names [] xs h = rw (← ok-injective h) refl
  aggs-names (e ∷ es) xs h =
      let (a, e₁, k₁) = >>=-eq-ok (agg_meaning db scan stack e) _ h in
      let (more, e₂, k₂) = >>=-eq-ok (each (agg_meaning db scan stack) es) _ k₁ in
      rw (← ok-injective k₂, agg-name_of e e₁, aggs-names es more e₂) refl

  kept_names :
      (aggregate : LogicalAggregate) (projection : Option LogicalProjection) (groups : List GroupIr)
      (aggs : List AggIr)
      → KeepsNames aggregate projection
      → each (group_meaning db scan stack) aggregate.groups ≡ ok groups
      → each (agg_meaning db scan stack) aggregate.expressions ≡ ok aggs
      → sort_columns projection groups aggs ≡ output_columns groups aggs
  unfolding sort_columns
  kept_names aggregate none groups aggs k g a = refl
  kept_names aggregate (some projection) groups aggs k g a =
      rw (groups-names aggregate.groups groups g, aggs-names aggregate.expressions aggs a) k

module _ (db : DuckDb) (laws : IsDuckDb db) (failfast : Bool) (scan : Scan)
    (named : All IsUtf8 scan.names) (stack : List Projection) (valid : IsStack stack) where
  -- An aggregation whose expressions have names in UTF-8 and constants that their types hold, with no
  -- projection above it or one that gives each column the name that it has: if TryEncodeLanceExecIRv1
  -- makes a message of it, then each entry of the order that parse_exec_ir_v1 reads has the name of
  -- the column of the message, among its groups and then its aggregates, at the place that the node of
  -- the plan refers to, and the direction and the place of nulls of the node.
  pub order_by-SortsBy :
      (same_size : Bool) (filter_ir : Bytes) (extra : List ℕ) (aggregate : LogicalAggregate)
      (order : Option (List OrderNode)) (projection : Option LogicalProjection) {msg : Bytes}
      → All IsPlanned aggregate.groups
      → All IsPlanned aggregate.expressions
      → IsRenaming projection
      → KeepsNames aggregate projection
      → try_encode_exec_ir db failfast scan same_size filter_ir extra stack aggregate order
          projection
        ≡ ok msg
      → (ir : ExecIr) × (parse_exec_ir_v1 msg ≡ ok ir)
        × Forall₂ (SortsBy aggregate projection ir.groups ir.aggs) (nodes_of order) ir.order_by
  order_by-SortsBy same_size filter_ir extra aggregate order projection pg pa r keeps h =
      let (ir, parses, plan) =
        parse_exec_ir_v1-try_encode_exec_ir db laws failfast scan named stack valid same_size
          filter_ir extra aggregate order projection pg pa r h in
      (
        ir,
        parses,
        nodes-SortBy aggregate projection ir.groups ir.aggs
            (kept_names db scan stack aggregate projection ir.groups ir.aggs keeps plan.groups_of
              plan.aggs_of)
            (nodes_of order) ir.order_by plan.orders_of,
      )
