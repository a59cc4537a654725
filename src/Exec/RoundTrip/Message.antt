-- ===== src/Exec/RoundTrip/Message.antt =====
-- What parse_exec_ir_v1 reads from the messages of TryEncodeLanceExecIRv1.
use lance_duckdb.Common.{
  ℕ, ◌≡◌, refl, Bytes, Bool, true, List, [], ◌++◌, map, append-nil, append_assoc, Option, length,
  bytes_eq, ltb, not, subst, All, ok, throw_if-ok, >>=-eq-ok, ok-injective, arith,
}
use mathlib.Core.List.{Forall₂}
use lance_duckdb.Wire.Reader.{Reader, read_string}
use lance_duckdb.Wire.Writer.{u32_max}
use lance_duckdb.Wire.Words.{read_bytes_exact}
use lance_duckdb.ExprIr.Scope.{Scan}
use lance_duckdb.ExprIr.RoundTrip.Columns.{IsUtf8}
use lance_duckdb.Exec.Types.{declined, DuckDb, GroupIr, AggIr, OrderByIr, ExecIr}
use lance_duckdb.Exec.Write.{write_u32, write_strings}
use lance_duckdb.Exec.Expr.{Projection}
use lance_duckdb.Exec.Aggregates.{EncodedGroup, EncodedAgg, encode_groups, encode_aggs}
use lance_duckdb.Exec.Message.{
  LogicalAggregate, LogicalProjection, OrderNode, sort_indexes, check_grouping, emplace_all,
  group_columns, agg_columns, scanned_names, write_groups, write_aggs, write_count, initial_names,
  post_project, order_entries, write_orders, nodes_of, exec_magic, encode_order, write_exec_ir,
  try_encode_exec_ir,
}
use lance_duckdb.Exec.Parser.{
  read_counted, parse_group, parse_agg, parse_order, read_if, parse_exec_ir_v1,
}
use lance_duckdb.Exec.Meaning.{IsDuckDb, IsStack}
use lance_duckdb.Exec.Plan.{
  each, group_meaning, agg_meaning, names_of, order_of, order_meaning, groups_columns, aggs_columns,
  IsPlanned, IsRenaming,
}
use lance_duckdb.Exec.RoundTrip.Leaves.{Takes, write_u32-Takes}
use lance_duckdb.Exec.RoundTrip.Expr as Expr
use lance_duckdb.Exec.RoundTrip.Items.{IsGroup, IsAgg}
use lance_duckdb.Exec.RoundTrip.Lists.{
  Counted, write_count-Counted, strings-Takes, groups-Takes, aggs-Takes, orders-Takes, groups-Stand,
  aggs-Stand,
}
use lance_duckdb.Exec.RoundTrip.Order.{
  initial_names-names_of, post_project-AreUtf8, order_entries-IsUtf8,
}
use lance_duckdb.Exec.RoundTrip.Places.{order-Stands}
use lance_duckdb.Exec.RoundTrip.Columns.{Covers, plan-Covers, extra-Covers, scanned_names-IsUtf8}

end-Takes :
    {A : Type 0} (read : Reader A) {bytes : Bytes} {x : A}
    → Takes read bytes x
    → read bytes ≡ ok (x, [])
end-Takes read {bytes} {x} t = subst (λ b. read b ≡ ok (x, [])) (append-nil bytes) (t [])

-- The message, part by part.
pub parse_parts :
    (filter_ir : Bytes) (projection : List Bytes) (groups : List GroupIr) (aggs : List AggIr)
    (orders : List OrderByIr) (l₁ l₂ b₂ l₃ b₃ l₄ b₄ b₅ : Bytes)
    → write_count (length filter_ir) ≡ ok l₁
    → Counted read_string l₂ b₂ projection
    → Counted parse_group l₃ b₃ groups
    → Counted (parse_agg true) l₄ b₄ aggs
    → Takes (read_counted parse_order) b₅ orders
    → parse_exec_ir_v1 (
        exec_magic
        ++ (write_u32 4
            ++ (write_u32 0
                ++ (l₁ ++ (filter_ir ++ (l₂ ++ (b₂ ++ (l₃ ++ (b₃ ++ (l₄ ++ (b₄ ++ b₅)))))))))))
      ≡ ok (record {
        filter_ir = filter_ir;
        scan_projection = projection;
        groups = groups;
        aggs = aggs;
        order_by = orders;
      })
unfolding parse_exec_ir_v1 read_if bytes_eq
parse_parts filter_ir projection groups aggs orders l₁ l₂ b₂ l₃ b₃ l₄ b₄ b₅ h p g a o =
    let rest₃ = l₄ ++ (b₄ ++ b₅) in
    let rest₂ = l₃ ++ (b₃ ++ rest₃) in
    let rest₁ = l₂ ++ (b₂ ++ rest₂) in
    let (few, k) = throw_if-ok (ltb u32_max (length filter_ir)) declined _ h in
    rw
      (
        ← ok-injective k,
        read_bytes_exact exec_magic (
            write_u32 4 ++ (write_u32 0 ++ (write_u32 (length filter_ir) ++ (filter_ir ++ rest₁)))),
        write_u32-Takes 4 (omega arith)
            (write_u32 0 ++ (write_u32 (length filter_ir) ++ (filter_ir ++ rest₁))),
        write_u32-Takes 0 (omega arith) (write_u32 (length filter_ir) ++ (filter_ir ++ rest₁)),
        write_u32-Takes (length filter_ir) (ground arith) (filter_ir ++ rest₁),
        read_bytes_exact filter_ir rest₁,
        p rest₂,
        g rest₃,
        a b₅,
        end-Takes (read_counted parse_order) o,
      )
      refl

module _ (failfast : Bool) (names : List Bytes) (aggregate : LogicalAggregate)
    (order : Option (List OrderNode)) (projection : Option LogicalProjection)
    (renaming : IsRenaming projection) (gs : List EncodedGroup) (xs : List GroupIr)
    (es : List EncodedAgg) (ys : List AggIr) (are_groups : Forall₂ (IsGroup names) gs xs)
    (are_aggs : Forall₂ (IsAgg names) es ys) where
  order-Takes :
      (bytes : Bytes)
      → encode_order failfast aggregate order projection gs es ≡ ok bytes
      → (orders : List OrderByIr) × (each
            (order_meaning aggregate projection xs ys)
            (nodes_of order)
          ≡ ok orders)
        × Takes (read_counted parse_order) bytes orders
  unfolding encode_order
  order-Takes bytes h =
      let (same, utf8) = initial_names-names_of names gs xs es ys are_groups are_aggs in
      let (ns, e₁, k₁) =
        >>=-eq-ok (post_project failfast aggregate projection (initial_names gs es)) _ h in
      let (entries, e₂, k₂) =
        >>=-eq-ok (order_entries failfast aggregate projection ns (nodes_of order)) _ k₁ in
      let (len, e₃, k₃) = >>=-eq-ok (write_count (length entries)) _ k₂ in
      let (b, e₄, k₄) = >>=-eq-ok (write_orders entries) _ k₃ in
      let projected = subst (λ n. post_project failfast aggregate projection n ≡ ok ns) same e₁ in
      let renamed =
        post_project-AreUtf8 failfast aggregate projection (names_of xs ys) ns renaming utf8
          projected in
      let taken =
        orders-Takes entries b
          (order_entries-IsUtf8 failfast aggregate projection ns (nodes_of order) entries renamed
            e₂)
          e₄ in
      (
        map order_of entries,
        order-Stands failfast aggregate projection xs ys (nodes_of order) projected e₂,
        λ rest. rw (
          ← ok-injective k₄,
          append_assoc len b rest,
          write_count-Counted parse_order (length entries) b (map order_of entries) e₃ taken rest,
        ),
      )

  written-Parses :
      (filter_ir : Bytes) (scanned : List Bytes) {msg : Bytes}
      → All IsUtf8 scanned
      → write_exec_ir failfast filter_ir scanned gs es aggregate order projection ≡ ok msg
      → (orders : List OrderByIr) × (each
            (order_meaning aggregate projection xs ys)
            (nodes_of order)
          ≡ ok orders)
        × (parse_exec_ir_v1 msg
            ≡ ok (record {
              filter_ir = filter_ir;
              scan_projection = scanned;
              groups = xs;
              aggs = ys;
              order_by = orders;
            }))
  unfolding write_exec_ir
  written-Parses filter_ir scanned {msg} utf8 h =
      let (l₁, e₁, k₁) = >>=-eq-ok (write_count (length filter_ir)) _ h in
      let (l₂, e₂, k₂) = >>=-eq-ok (write_count (length scanned)) _ k₁ in
      let (b₂, e₃, k₃) = >>=-eq-ok (write_strings scanned) _ k₂ in
      let (l₃, e₄, k₄) = >>=-eq-ok (write_count (length gs)) _ k₃ in
      let (b₃, e₅, k₅) = >>=-eq-ok (write_groups gs) _ k₄ in
      let (l₄, e₆, k₆) = >>=-eq-ok (write_count (length es)) _ k₅ in
      let (b₄, e₇, k₇) = >>=-eq-ok (write_aggs es) _ k₆ in
      let (b₅, e₈, k₈) = >>=-eq-ok (encode_order failfast aggregate order projection gs es) _ k₇ in
      let (orders, m, o) = order-Takes b₅ e₈ in
      (
        orders,
        m,
        subst
            (λ m.
              parse_exec_ir_v1 m
              ≡ ok (record {
                filter_ir = filter_ir;
                scan_projection = scanned;
                groups = xs;
                aggs = ys;
                order_by = orders;
              }))
            (ok-injective k₈)
            (parse_parts filter_ir scanned xs ys orders l₁ l₂ b₂ l₃ b₃ l₄ b₄ b₅ e₁
              (write_count-Counted read_string (length scanned) b₂ scanned e₂
                (strings-Takes scanned b₂ utf8 e₃))
              (write_count-Counted parse_group (length gs) b₃ xs e₄
                (groups-Takes names gs xs b₃ are_groups e₅))
              (write_count-Counted (parse_agg true) (length es) b₄ ys e₆
                (aggs-Takes names es ys b₄ are_aggs e₇))
              o),
      )

module _ (db : DuckDb) (scan : Scan) (stack : List Projection) where
  -- The message of a plan: its filter, groups, aggregates and order, and a scan of all columns that the
  -- expressions read or the filter needs besides.
  pub record IsPlan (filter_ir : Bytes) (extra : List ℕ) (aggregate : LogicalAggregate)
      (order : Option (List OrderNode)) (projection : Option LogicalProjection) (ir : ExecIr)
      : Type 0 where
    pub same_filter : ir.filter_ir ≡ filter_ir
    pub groups_of : each (group_meaning db scan stack) aggregate.groups ≡ ok ir.groups
    pub aggs_of : each (agg_meaning db scan stack) aggregate.expressions ≡ ok ir.aggs
    pub orders_of :
        each (order_meaning aggregate projection ir.groups ir.aggs) (nodes_of order)
        ≡ ok ir.order_by
    pub scans_read : Covers ir.scan_projection (groups_columns ir.groups ++ aggs_columns ir.aggs)
    pub scans_extra :
        (names : List Bytes) → Expr.Names scan.names extra names → Covers ir.scan_projection names

module _ (db : DuckDb) (laws : IsDuckDb db) (failfast : Bool) (scan : Scan)
    (named : All IsUtf8 scan.names) (stack : List Projection) (valid : IsStack stack) where
  -- An aggregation whose expressions have names in UTF-8 and constants that their types hold: if
  -- TryEncodeLanceExecIRv1 makes a message of it, then parse_exec_ir_v1 reads this as the filter, the groups
  -- and aggregates that the plan stands for, a scan of all columns that these read or that the filter needs
  -- besides, and an order of the columns at the places that its nodes refer to, by their names. These are the
  -- names of the groups and aggregates, and under a projection those that the projection gives.
  pub parse_exec_ir_v1-try_encode_exec_ir :
      (same_size : Bool) (filter_ir : Bytes) (extra : List ℕ) (aggregate : LogicalAggregate)
      (order : Option (List OrderNode)) (projection : Option LogicalProjection) {msg : Bytes}
      → All IsPlanned aggregate.groups
      → All IsPlanned aggregate.expressions
      → IsRenaming projection
      → try_encode_exec_ir db failfast scan same_size filter_ir extra stack aggregate order
          projection
        ≡ ok msg
      → (ir : ExecIr) × (parse_exec_ir_v1 msg ≡ ok ir)
        × IsPlan db scan stack filter_ir extra aggregate order projection ir
  unfolding try_encode_exec_ir
  parse_exec_ir_v1-try_encode_exec_ir same_size filter_ir extra aggregate order projection {msg} pg
        pa r h =
      let (_, _, k₀) = >>=-eq-ok (check_grouping failfast aggregate) _ h in
      let (_, k₁) = throw_if-ok (not aggregate.has_one_child) declined _ k₀ in
      let (_, k₂) = throw_if-ok (not same_size) declined _ k₁ in
      let (gs, e₃, k₃) = >>=-eq-ok (encode_groups db failfast scan stack aggregate.groups) _ k₂ in
      let (es, e₄, k₄) =
        >>=-eq-ok (encode_aggs db failfast scan stack aggregate.expressions) _ k₃ in
      let columns = sort_indexes (agg_columns es (group_columns gs (emplace_all extra []))) in
      let (scanned, e₅, k₅) = >>=-eq-ok (scanned_names failfast scan.names columns) _ k₄ in
      let (xs, groups_of, is) =
        groups-Stand db laws failfast scan named stack valid aggregate.groups gs pg e₃ in
      let (ys, aggs_of, js) =
        aggs-Stand db laws failfast scan named stack valid aggregate.expressions es pa e₄ in
      let (orders, orders_of, parses) =
        written-Parses failfast scan.names aggregate order projection r gs xs es ys is js filter_ir
          scanned (scanned_names-IsUtf8 failfast scan.names columns scanned named e₅) k₅ in
      (
        _,
        parses,
        record {
          same_filter = refl;
          groups_of = groups_of;
          aggs_of = aggs_of;
          orders_of = orders_of;
          scans_read = plan-Covers failfast scan.names extra scanned gs xs es ys is js e₅;
          scans_extra = λ names n. extra-Covers failfast scan.names extra scanned gs es names e₅ n;
        },
      )
