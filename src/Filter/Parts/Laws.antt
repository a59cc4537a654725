-- ===== src/Filter/Parts/Laws.antt =====
-- The flags of BuildLanceTableFilterIRParts.
use lance_duckdb.Common.{
  ℕ, suc, ◌+◌, ◌≤◌, ◌≡◌, ◌↔◌, refl, ap, Bool, true, List, [], ◌∷◌, Option, length, arith,
}
use lance_duckdb.ExprIr.Types.{DuckDb}
use lance_duckdb.Filter.Types.{Table, TableFilter, Casts}
use lance_duckdb.Filter.Parts.{
  TableFilterSet, BuildResult, Push, pushed, not_pushed, computed, add_push, push_filter,
  build_table_filter_ir_parts,
}

-- How many filters are on a computed column, and left to be evaluated after the search.
abbrev count_push : Push → ℕ
count_push computed = 1
count_push _ = 0

module _ (db : DuckDb) (casts : Casts) (table : Table) (column_ids : List ℕ) (exclude : Bool) where
  unfoldable pub computed_filters : TableFilterSet → ℕ
  computed_filters [] = 0
  computed_filters (f ∷ fs) =
      count_push (push_filter db casts table column_ids exclude f) + computed_filters fs

  abbrev Flags : TableFilterSet → BuildResult → ℕ → Type 0
  Flags filters r n =
      (length r.parts + n ≤ length filters)
      × (r.all_filters_pushed ≡ true → length r.parts ≡ length filters)
      × (length r.parts ≡ length filters → r.all_filters_pushed ≡ true)
      × (r.all_prefilterable_filters_pushed ≡ true → length r.parts + n ≡ length filters)
      × (length r.parts + n ≡ length filters → r.all_prefilterable_filters_pushed ≡ true)

  add_push-Flags :
      (p : Push) (f : ℕ × Option TableFilter) (fs : TableFilterSet) (r : BuildResult) (n : ℕ)
      → Flags fs r n
      → Flags (f ∷ fs) (add_push p r) (count_push p + n)
  add_push-Flags (pushed part) f fs r n (le, a, b, c, d) = (
    omega arith,
    λ h. ap suc (a h),
    λ h. b (omega arith),
    λ h. omega (arith, c h),
    λ h. d (omega arith),
  )
  add_push-Flags not_pushed f fs r n (le, a, b, c, d) =
      (omega arith, λ h. cc, λ h. absurd (omega arith), λ h. cc, λ h. absurd (omega arith))
  add_push-Flags computed f fs r n (le, a, b, c, d) = (
    omega arith,
    λ h. cc,
    λ h. absurd (omega arith),
    λ h. omega (arith, c h),
    λ h. d (omega arith),
  )

  build-Flags :
      (filters : TableFilterSet)
      → Flags filters
          (build_table_filter_ir_parts db casts table column_ids exclude filters)
          (computed_filters filters)
  unfolding build_table_filter_ir_parts computed_filters
  build-Flags [] = (omega arith, λ h. refl, λ h. refl, λ h. refl, λ h. refl)
  build-Flags (f ∷ fs) =
      add_push-Flags (push_filter db casts table column_ids exclude f) f fs
        (build_table_filter_ir_parts db casts table column_ids exclude fs) (computed_filters fs)
        (build-Flags fs)

  -- BuildLanceTableFilterIRParts reports that all filters are pushed exactly if there is a part for each
  -- of them, and that all filters which do not need the search are pushed exactly if there is a part for
  -- each but those on a computed column that it has set aside.
  pub build_table_filter_ir_parts-flags :
      (filters : TableFilterSet)
      → let r = build_table_filter_ir_parts db casts table column_ids exclude filters in
        ((r.all_filters_pushed ≡ true) ↔ (length r.parts ≡ length filters))
        × ((r.all_prefilterable_filters_pushed ≡ true)
            ↔ (length r.parts + computed_filters filters ≡ length filters))
  build_table_filter_ir_parts-flags filters =
      let (_, a, b, c, d) = build-Flags filters in ((a, b), (c, d))
