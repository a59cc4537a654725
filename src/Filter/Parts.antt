-- ===== src/Filter/Parts.antt =====
-- src/lance_filter_ir.cpp: the filters of a scan, one part of the message each, and the message.
pub mod Laws
pub mod Probe
use lance_duckdb.Common.{
  ℕ, zero, suc, ◌+◌, ◌^◌, ◌-◌, Bytes, Bool, true, false, List, [], ◌∷◌, ◌++◌, Option, none, some,
  get_elem?, length, ltb, leb, ◌==◌, ◌||◌, not, if◌then◌else◌, ok, err, ◌>>=◌, ◌>>◌,
}
use lance_duckdb.ExprIr.Types.{DuckDb}
use lance_duckdb.ExprIr.Literals.{supports_logical_type}
use lance_duckdb.ExprIr.Nodes.{try_encode_and, try_encode_column_name}
use lance_duckdb.Filter.Types.{
  declined, Attempt, attempt, require, logical_type, Table, TableFilter, Casts,
}
use lance_duckdb.Filter.Columns.{is_computed_search_column}
use lance_duckdb.Filter.Table.{try_build_table_filter_ir_expr}

-- The filters by the index of their column, in the order of the map; `none` is a null pointer.
abbrev pub TableFilterSet : Type 0
TableFilterSet = List (ℕ × Option TableFilter)

pub record BuildResult : Type 0 where
  pub parts : List Bytes
  pub all_filters_pushed : Bool
  pub all_prefilterable_filters_pushed : Bool

abbrev pub empty_result : BuildResult
empty_result = record {
  parts = [];
  all_filters_pushed = true;
  all_prefilterable_filters_pushed = true;
}

-- What one round of the loop makes of a filter: a part, or nothing, and then whether it could have
-- been evaluated before the search.
pub data Push : Type 0 where
  pushed : Bytes → Push
  not_pushed computed : Push

abbrev pub add_push : Push → BuildResult → BuildResult
add_push (pushed part) rest = record rest { parts = part ∷ rest.parts }
add_push not_pushed rest = record rest {
  all_filters_pushed = false;
  all_prefilterable_filters_pushed = false;
}
add_push computed rest = record rest { all_filters_pushed = false }

abbrev pub push_of : Attempt Bytes → Push
push_of (ok part) = pushed part
push_of (err e) = not_pushed

abbrev pub in_table : Table → ℕ → Bool
in_table table col_id = not (leb (length table.names) col_id || leb (length table.types) col_id)

-- The greatest column id, unless one is not in the table.
unfoldable pub max_column_id : Table → ℕ → TableFilterSet → Option ℕ
max_column_id table max_col_id [] = some max_col_id
max_column_id table max_col_id ((col_id, filter) ∷ filters) =
    if in_table table col_id
    then max_column_id table (if ltb max_col_id col_id then col_id else max_col_id) filters
    else none

-- start, start + 1, and so on.
unfoldable pub ids_from : ℕ → ℕ → List ℕ
ids_from start zero = []
ids_from start (suc n) = start ∷ ids_from (start + 1) n

module _ (db : DuckDb) (casts : Casts) (table : Table) where
  -- A filter on the column of that id, whose name and type are looked up.
  unfoldable pub column_filter_ir : ℕ → TableFilter → Attempt Bytes
  column_filter_ir col_id filter = do
    name ← attempt (get_elem? table.names col_id)
    type ← attempt (get_elem? table.types col_id)
    require (supports_logical_type (logical_type type))
    col_ref_ir ← attempt (try_encode_column_name name)
    try_build_table_filter_ir_expr db casts col_ref_ir filter

  -- A computed column is in the table, by its name and type.
  abbrev pub is_computed : ℕ → Bool
  is_computed col_id = elim (get_elem? table.names col_id) [
    | none ↦ false
    | some name ↦ elim (get_elem? table.types col_id) [
      | none ↦ false
      | some type ↦ is_computed_search_column name
    ]
  ]

  unfoldable pub push_filter :
      (column_ids : List ℕ) (exclude_computed_columns : Bool) → ℕ × Option TableFilter → Push
  push_filter column_ids exclude (scan_col_idx, none) = not_pushed
  push_filter column_ids exclude (scan_col_idx, some filter) =
      elim (get_elem? column_ids scan_col_idx) [
        | none ↦ not_pushed
        | some col_id ↦
            if (if exclude then is_computed col_id else false)
            then computed
            else push_of (column_filter_ir col_id filter)
      ]

  unfoldable pub build_table_filter_ir_parts :
      (column_ids : List ℕ) (exclude_computed_columns : Bool) → TableFilterSet → BuildResult
  build_table_filter_ir_parts column_ids exclude [] = empty_result
  build_table_filter_ir_parts column_ids exclude (filter ∷ filters) =
      add_push (push_filter column_ids exclude filter)
        (build_table_filter_ir_parts column_ids exclude filters)

  unfoldable pub probe_table_filter_ir : TableFilterSet → BuildResult
  probe_table_filter_ir [] = empty_result
  probe_table_filter_ir (filter ∷ filters) = elim (max_column_id table 0 (filter ∷ filters)) [
    | none ↦ record {
      parts = [];
      all_filters_pushed = false;
      all_prefilterable_filters_pushed = false;
    }
    | some max_col_id ↦
        build_table_filter_ir_parts (ids_from 0 (max_col_id + 1)) false (filter ∷ filters)
  ]

  -- DuckDB's COLUMN_IDENTIFIER_ROW_ID and COLUMN_IDENTIFIER_EMPTY.
  module _ (row_id empty_id : ℕ) where
    unfoldable pub try_build_table_filter_ir_parts : TableFilterSet → Attempt (List Bytes)
    try_build_table_filter_ir_parts [] = ok []
    try_build_table_filter_ir_parts ((col_id, none) ∷ filters) =
        try_build_table_filter_ir_parts filters
    try_build_table_filter_ir_parts ((col_id, some filter) ∷ filters) = do
      require (not (col_id == row_id || col_id == empty_id))
      part_ir ← column_filter_ir col_id filter
      parts ← try_build_table_filter_ir_parts filters
      ok (part_ir ∷ parts)

abbrev pub filter_magic : Bytes
filter_magic = b'L' ∷ b'F' ∷ b'T' ∷ b'1' ∷ []

-- LanceFilterIREncodeMessage.
unfoldable pub encode_filter_message : Bytes → Bytes
encode_filter_message root_node = filter_magic ++ root_node

-- No part makes no message, which is empty.
unfoldable pub try_encode_filter_ir_message : List Bytes → Attempt Bytes
try_encode_filter_ir_message [] = ok []
try_encode_filter_ir_message (part ∷ []) = ok (encode_filter_message part)
try_encode_filter_ir_message (part ∷ part' ∷ parts) = do
  root_node ← attempt (try_encode_and (part ∷ part' ∷ parts))
  ok (encode_filter_message root_node)

unfoldable pub try_build_table_filter_ir_message :
    DuckDb → Casts → Table → ℕ → ℕ → TableFilterSet → Attempt Bytes
try_build_table_filter_ir_message db casts table row_id empty_id filters = do
  parts ← try_build_table_filter_ir_parts db casts table row_id empty_id filters
  try_encode_filter_ir_message parts
