-- ===== src/Filter/Parts/Probe.antt =====
-- ProbeLanceTableFilterIR agrees with what is built from the filters later.
use lance_duckdb.Common.{
  ℕ, zero, suc, ◌+◌, ◌≤◌, ◌<◌, ◌≡◌, refl, sym, ◌∙◌, ap, Bytes, Bool-cases, Option-cases, true,
  false, List, [], ◌∷◌, Option, none, some, get_elem?, length, ltb, ◌==◌, ◌||◌, not, if◌then◌else◌,
  All, inl, inr, ok, err, arith,
}
use mathlib.Core.Option
use mathlib.Core.Option.{some-injective}
use mathlib.Core.List.{Permᴰ}
use lance_duckdb.ExprIr.Types.{DuckDb}
use lance_duckdb.Filter.Types.{Attempt, require, Table, TableFilter, Casts}
use lance_duckdb.Filter.Parts.{
  TableFilterSet, BuildResult, Push, pushed, not_pushed, computed, add_push, push_of, push_filter,
  build_table_filter_ir_parts, max_column_id, in_table, ids_from, probe_table_filter_ir,
  column_filter_ir, try_build_table_filter_ir_parts,
}

get_elem-ids_from : (start n i : ℕ) → i < n → get_elem? (ids_from start n) i ≡ some (start + i)
unfolding ids_from
get_elem-ids_from start zero i h = absurd (omega arith)
get_elem-ids_from start (suc n) zero h = ap some (omega arith)
get_elem-ids_from start (suc n) (suc i) h =
    get_elem-ids_from (start + 1) n i (omega arith) ∙ ap some (omega arith)

-- Every filter is on a column up to that id.
abbrev Within : ℕ → TableFilterSet → Type 0
Within n filters = All (λ (f : ℕ × Option TableFilter). f.0 ≤ n) filters

-- Every filter is on a column of the table.
abbrev OnTable : Table → TableFilterSet → Type 0
OnTable table filters =
    All (λ (f : ℕ × Option TableFilter). (f.0 < length table.names) × (f.0 < length table.types))
      filters

in_table-lt :
    (table : Table) (c : ℕ)
    → in_table table c ≡ true
    → (c < length table.names) × (c < length table.types)
in_table-lt table c h = ground arith

max_column_id-Within :
    (table : Table) (max : ℕ) (filters : TableFilterSet) {n : ℕ}
    → max_column_id table max filters ≡ some n
    → (max ≤ n) × Within n filters × OnTable table filters
unfolding max_column_id
max_column_id-Within table max [] h = (rw (some-injective _ _ h) (omega arith), tt, tt)
max_column_id-Within table max ((c, f) ∷ fs) h = elim (Bool-cases (in_table table c)) [
  | inl e ↦
      let (le, within, on) =
        max_column_id-Within table (if ltb max c then c else max) fs (rw e at h) in
      let (m, k) = both max c _ le in (m, (k, within), (in_table-lt table c e, on))
  | inr e ↦ let h' : none ≡ some _ = rw e at h in cc
]
  where
    both : (max c n : ℕ) → (if ltb max c then c else max) ≤ n → (max ≤ n) × (c ≤ n)
    both max c n h = ground arith

Within-Permᴰ : (n : ℕ) {xs ys : TableFilterSet} → Permᴰ xs ys → Within n ys → Within n xs
Within-Permᴰ n Permᴰ.nil w = tt
Within-Permᴰ n (Permᴰ.cons e d) w = (rw e w.0, Within-Permᴰ n d w.1)
Within-Permᴰ n (Permᴰ.swap e e') w = (rw e w.1.0, (rw e' w.0, w.1.1))
Within-Permᴰ n (Permᴰ.trans d d') w = Within-Permᴰ n d (Within-Permᴰ n d' w)

length-Permᴰ : {xs ys : TableFilterSet} → Permᴰ xs ys → length xs ≡ length ys
length-Permᴰ Permᴰ.nil = refl
length-Permᴰ (Permᴰ.cons e d) = ap suc (length-Permᴰ d)
length-Permᴰ (Permᴰ.swap e e') = refl
length-Permᴰ (Permᴰ.trans d d') = length-Permᴰ d ∙ length-Permᴰ d'

no_Permᴰ : {f : ℕ × Option TableFilter} {fs : TableFilterSet} → Permᴰ (f ∷ fs) [] → ⊥
no_Permᴰ {f} {fs} d = let e : suc (length fs) ≡ 0 = length-Permᴰ d in omega arith

-- Everything is pushed in both, as the same parts.
abbrev pub AllPushed : BuildResult → BuildResult → Type 0
AllPushed r r' = (r.all_filters_pushed ≡ true) × Permᴰ r.parts r'.parts

-- The filters of a scan, each on the column that its position stands for. A TableFilterSet is iterated by
-- its keys, so that these come in the order of the positions, and not in that of the columns.
unfoldable pub rebound : List ℕ → TableFilterSet → Option TableFilterSet
rebound column_ids [] = some []
rebound column_ids ((scan_col_idx, f) ∷ fs) = elim (get_elem? column_ids scan_col_idx) [
  | none ↦ none
  | some col_id ↦ Option.map (λ rest. (col_id, f) ∷ rest) (rebound column_ids fs)
]

rebound-cons :
    (column_ids : List ℕ) (s : ℕ) (f : Option TableFilter) (fs filters : TableFilterSet)
    → rebound column_ids ((s, f) ∷ fs) ≡ some filters
    → (c : ℕ) × (rest : TableFilterSet) × (get_elem? column_ids s ≡ some c)
      × (rebound column_ids fs ≡ some rest)
      × (filters ≡ (c, f) ∷ rest)
unfolding rebound
rebound-cons column_ids s f fs filters h = elim (Option-cases (get_elem? column_ids s)) [
  | inl e ↦ let h' : none ≡ some filters = rw (e, rebound) at h in cc
  | inr (c, e) ↦ elim (Option-cases (rebound column_ids fs)) [
    | inl e' ↦ let h' : none ≡ some filters = rw (e, e', rebound) at h in cc
    | inr (rest, e') ↦ (c, rest, e, e', sym (some-injective _ _ (rw (e, e', rebound) at h)))
  ]
]

module _ (db : DuckDb) (casts : Casts) (table : Table) where
  abbrev build : List ℕ → TableFilterSet → BuildResult
  build column_ids filters = build_table_filter_ir_parts db casts table column_ids false filters

  abbrev push : List ℕ → ℕ × Option TableFilter → Push
  push column_ids f = push_filter db casts table column_ids false f

  push-rebound :
      (column_ids ids : List ℕ) (s c : ℕ) (f : Option TableFilter)
      → get_elem? column_ids s ≡ some c
      → get_elem? ids c ≡ some c
      → push_filter db casts table column_ids false (s, f)
        ≡ push_filter db casts table ids false (c, f)
  unfolding push_filter
  push-rebound column_ids ids s c none e e' = refl
  push-rebound column_ids ids s c (some f) e e' = rw (e, e', push_filter)

  build-rebound :
      (column_ids : List ℕ) (n : ℕ) (scan filters : TableFilterSet)
      → rebound column_ids scan ≡ some filters
      → Within n filters
      → build column_ids scan ≡ build (ids_from 0 (n + 1)) filters
  unfolding rebound build_table_filter_ir_parts
  build-rebound column_ids n [] filters h w = rw (← some-injective _ _ h)
  build-rebound column_ids n ((s, f) ∷ scan) filters h w =
      let (c, rest, e, e', eq) = rebound-cons column_ids s f scan filters h in
      let w' : Within n ((c, f) ∷ rest) = rw eq at w in
      rw eq (
        rw
          (push-rebound column_ids (ids_from 0 (n + 1)) s c f e
            (get_elem-ids_from 0 (n + 1) c (omega arith) ∙ ap some (omega arith)))
          (rw (build-rebound column_ids n scan rest e' w'.1)))

  -- What one filter of a set contributes, if all of them are pushed.
  all_pushed-head :
      (q : Push) (r : BuildResult)
      → (add_push q r).all_filters_pushed ≡ true
      → (part : Bytes) × (q ≡ pushed part) × (r.all_filters_pushed ≡ true)
  all_pushed-head (pushed part) r h = (part, refl, h)
  all_pushed-head not_pushed r h = cc
  all_pushed-head computed r h = cc

  -- The same filters in another order.
  build-Permᴰ :
      (ids : List ℕ) {xs ys : TableFilterSet}
      → Permᴰ xs ys
      → (build ids ys).all_filters_pushed ≡ true
      → AllPushed (build ids xs) (build ids ys)
  unfolding build_table_filter_ir_parts
  build-Permᴰ ids Permᴰ.nil p = (p, Permᴰ.nil)
  build-Permᴰ ids (Permᴰ.cons {a} {b} {l₁} {l₂} e d) p =
      let (part, eb, p') = all_pushed-head (push ids b) (build ids l₂) p in
      let (q, d') = build-Permᴰ ids d p' in rw (e, eb) (q, Permᴰ.cons refl d')
  build-Permᴰ ids (Permᴰ.swap {a} {b} {a'} {b'} {l} e e') p =
      let (part, ea, p') = all_pushed-head (push ids a') (build ids (b' ∷ l)) p in
      let (part', eb, p'') = all_pushed-head (push ids b') (build ids l) p' in
      rw (e, e', ea, eb) (p'', Permᴰ.swap refl refl)
  build-Permᴰ ids (Permᴰ.trans d d') p =
      let (q, perm') = build-Permᴰ ids d' p in
      let (r, perm) = build-Permᴰ ids d q in (r, Permᴰ.trans perm perm')

  -- If the probe finds that every filter of a table can be pushed, then a scan with the same filters,
  -- whose positions stand for these columns in any order, so that its filters come in another order
  -- too, pushes every one of them, and its parts are those that the probe saw, in another order.
  pub probe_table_filter_ir-rebound :
      (column_ids : List ℕ) (scan bound filters : TableFilterSet)
      → rebound column_ids scan ≡ some bound
      → Permᴰ bound filters
      → (probe_table_filter_ir db casts table filters).all_filters_pushed ≡ true
      → AllPushed
          (build_table_filter_ir_parts db casts table column_ids false scan)
          (probe_table_filter_ir db casts table filters)
  unfolding probe_table_filter_ir build_table_filter_ir_parts
  probe_table_filter_ir-rebound column_ids [] [] [] h d p = (refl, Permᴰ.nil)
  probe_table_filter_ir-rebound column_ids ((s, g) ∷ scan) [] [] h d p =
      let (_, _, _, _, eq) = rebound-cons column_ids s g scan [] h in cc
  probe_table_filter_ir-rebound column_ids scan (b ∷ bound) [] h d p = absurd (no_Permᴰ d)
  probe_table_filter_ir-rebound column_ids scan bound (f ∷ fs) h d p =
      elim (Option-cases (max_column_id table 0 (f ∷ fs))) [
        | inl e ↦ let p' : false ≡ true = rw (e, probe_table_filter_ir) at p in cc
        | inr (n, e) ↦
            let within = (max_column_id-Within table 0 (f ∷ fs) e).1 in
            rw (e, probe_table_filter_ir)
              (rw (build-rebound column_ids n scan bound h (Within-Permᴰ n d within))
                (build-Permᴰ (ids_from 0 (n + 1)) d (rw (e, probe_table_filter_ir) at p)))
      ]

  push_of-pushed : (m : Attempt Bytes) {part : Bytes} → push_of m ≡ pushed part → m ≡ ok part
  push_of-pushed (ok x) h = cc
  push_of-pushed (err e) h = cc

  push-column_filter :
      (ids : List ℕ) (c : ℕ) (f : Option TableFilter) {part : Bytes}
      → get_elem? ids c ≡ some c
      → push_filter db casts table ids false (c, f) ≡ pushed part
      → (filter : TableFilter) × (f ≡ some filter)
        × (column_filter_ir db casts table c filter ≡ ok part)
  unfolding push_filter
  push-column_filter ids c none e h = cc
  push-column_filter ids c (some filter) e h =
      (filter, refl, push_of-pushed _ (rw (e, push_filter) at h))

  module _ (row_id empty_id : ℕ) (no_row : length table.names ≤ row_id)
      (no_empty : length table.names ≤ empty_id) where
    try_build-all_pushed :
        (n : ℕ) (filters : TableFilterSet)
        → Within n filters
        → OnTable table filters
        → (build (ids_from 0 (n + 1)) filters).all_filters_pushed ≡ true
        → try_build_table_filter_ir_parts db casts table row_id empty_id filters
          ≡ ok (build (ids_from 0 (n + 1)) filters).parts
    unfolding build_table_filter_ir_parts try_build_table_filter_ir_parts
    try_build-all_pushed n [] w on p = refl
    try_build-all_pushed n ((c, f) ∷ fs) w on p =
        let ids : List ℕ = ids_from 0 (n + 1) in
        let (part, ep, p') =
          all_pushed-head (push_filter db casts table ids false (c, f)) (build ids fs) p in
        let (filter, ef, ec) =
          push-column_filter ids c f
            (get_elem-ids_from 0 (n + 1) c (omega arith) ∙ ap some (omega arith)) ep in
        let no_id : require (not (c == row_id || c == empty_id)) ≡ ok tt = ground arith in
        rw ep (rw ef (rw (no_id, ec, try_build-all_pushed n fs w.1 on.1 p')))

    -- The filters that the probe pushes are all encoded by TryBuildLanceTableFilterIRParts, as the same
    -- parts, where the identifiers of row ids and of empty columns are no columns of the table.
    pub try_build_table_filter_ir_parts-probe :
        (filters : TableFilterSet)
        → (probe_table_filter_ir db casts table filters).all_filters_pushed ≡ true
        → try_build_table_filter_ir_parts db casts table row_id empty_id filters
          ≡ ok (probe_table_filter_ir db casts table filters).parts
    unfolding probe_table_filter_ir try_build_table_filter_ir_parts
    try_build_table_filter_ir_parts-probe [] p = refl
    try_build_table_filter_ir_parts-probe (f ∷ fs) p =
        elim (Option-cases (max_column_id table 0 (f ∷ fs))) [
          | inl e ↦ let p' : false ≡ true = rw (e, probe_table_filter_ir) at p in cc
          | inr (n, e) ↦
              let (_, within, on) = max_column_id-Within table 0 (f ∷ fs) e in
              rw (e, probe_table_filter_ir)
                (try_build-all_pushed n (f ∷ fs) within on (rw (e, probe_table_filter_ir) at p))
        ]
