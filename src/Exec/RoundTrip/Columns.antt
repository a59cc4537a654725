-- ===== src/Exec/RoundTrip/Columns.antt =====
-- The scan's columns have each column that an expression of the message reads.
use lance_duckdb.Common.{
  ℕ, ◌≡◌, refl, sym, ap, ◌∙◌, Bytes, Bool, Bool-cases, true, leb, List, [], ◌∷◌, ◌++◌, some,
  get_elem?, ◌==◌, inl, inr, subst, All, ok, throw_if-ok, >>=-eq-ok, ok-injective, arith,
}
use mathlib.Core.Option.{some-injective}
use mathlib.Core.List.{Forall₂, Memᴰ}
use lance_duckdb.ExprIr.Nodes.{is_empty}
use lance_duckdb.ExprIr.RoundTrip.Columns.{IsUtf8}
use lance_duckdb.Filter.Sound.Columns.{All-get_elem}
use lance_duckdb.Exec.Types.{attempt, GroupIr, AggIr}
use lance_duckdb.Exec.Aggregates.{EncodedGroup, EncodedAgg}
use lance_duckdb.Exec.Message.{
  contains, emplace, emplace_all, insert_index, sort_indexes, group_columns, agg_columns,
  scanned_names,
}
use lance_duckdb.Exec.Meaning.{columns_of}
use lance_duckdb.Exec.Plan.{arguments_columns, groups_columns, aggs_columns}
use lance_duckdb.Exec.RoundTrip.Expr.{Names}
use lance_duckdb.Exec.RoundTrip.Arguments.{attempt_inv, or_refuse-ok}
use lance_duckdb.Exec.RoundTrip.Items.{IsGroup, IsAgg}

contains-Mem : (i : ℕ) (set : List ℕ) → contains i set ≡ true → Memᴰ i set
unfolding contains
contains-Mem i [] h = cc
contains-Mem i (j ∷ js) h = elim (Bool-cases (i == j)) [
  | inl t ↦ Memᴰ.head (ground arith)
  | inr f ↦ Memᴰ.tail (contains-Mem i js (ground arith))
]

emplace-Mem : (i : ℕ) (set : List ℕ) → Memᴰ i (emplace i set)
unfolding emplace
emplace-Mem i set = elim (Bool-cases (contains i set)) [
  | inl t ↦ rw t (contains-Mem i set t)
  | inr f ↦ rw f (Memᴰ.head refl)
]

emplace-keeps : (i j : ℕ) (set : List ℕ) → Memᴰ i set → Memᴰ i (emplace j set)
unfolding emplace
emplace-keeps i j set m = elim (Bool-cases (contains j set)) [
  | inl t ↦ rw t m
  | inr f ↦ rw f (Memᴰ.tail m)
]

insert_index-Mem : (i : ℕ) (js : List ℕ) → Memᴰ i (insert_index i js)
unfolding insert_index
insert_index-Mem i [] = Memᴰ.head refl
insert_index-Mem i (j ∷ js) = elim (Bool-cases (leb i j)) [
  | inl t ↦ rw t (Memᴰ.head refl)
  | inr f ↦ rw f (Memᴰ.tail (insert_index-Mem i js))
]

insert_index-keeps : (i j : ℕ) (js : List ℕ) → Memᴰ i js → Memᴰ i (insert_index j js)
unfolding insert_index
insert_index-keeps i j [] m = Memᴰ.tail m
insert_index-keeps i j (k ∷ ks) m = elim (Bool-cases (leb j k)) [
  | inl t ↦ rw t (Memᴰ.tail m)
  | inr f ↦ rw f (elim m [
    | Memᴰ.head e ↦ Memᴰ.head e
    | Memᴰ.tail m' ↦ Memᴰ.tail (insert_index-keeps i j ks m')
  ])
]

sort_indexes-keeps : (i : ℕ) (set : List ℕ) → Memᴰ i set → Memᴰ i (sort_indexes set)
unfolding sort_indexes
sort_indexes-keeps i [] m = m
sort_indexes-keeps i (j ∷ js) (Memᴰ.head e) =
    subst (λ k. Memᴰ i (insert_index k (sort_indexes js))) e (insert_index-Mem i (sort_indexes js))
sort_indexes-keeps i (j ∷ js) (Memᴰ.tail m) =
    insert_index-keeps i j (sort_indexes js) (sort_indexes-keeps i js m)

emplace_all-keeps : (i : ℕ) (is set : List ℕ) → Memᴰ i set → Memᴰ i (emplace_all is set)
unfolding emplace_all
emplace_all-keeps i [] set m = m
emplace_all-keeps i (j ∷ js) set m =
    emplace_all-keeps i js (emplace j set) (emplace-keeps i j set m)

emplace_all-Mem : (i : ℕ) (is set : List ℕ) → Memᴰ i is → Memᴰ i (emplace_all is set)
unfolding emplace_all
emplace_all-Mem i [] set m = elim m [ ]
emplace_all-Mem i (j ∷ js) set (Memᴰ.head e) =
    emplace_all-keeps i js (emplace j set)
      (subst (λ k. Memᴰ i (emplace k set)) e (emplace-Mem i set))
emplace_all-Mem i (j ∷ js) set (Memᴰ.tail m) = emplace_all-Mem i js (emplace j set) m

group_columns-keeps :
    (i : ℕ) (gs : List EncodedGroup) (set : List ℕ) → Memᴰ i set → Memᴰ i (group_columns gs set)
unfolding group_columns
group_columns-keeps i [] set m = m
group_columns-keeps i (g ∷ gs) set m =
    group_columns-keeps i gs (emplace_all g.columns set) (emplace_all-keeps i g.columns set m)

agg_columns-keeps :
    (i : ℕ) (es : List EncodedAgg) (set : List ℕ) → Memᴰ i set → Memᴰ i (agg_columns es set)
unfolding agg_columns
agg_columns-keeps i [] set m = m
agg_columns-keeps i (a ∷ es) set m =
    agg_columns-keeps i es (emplace_all a.columns set) (emplace_all-keeps i a.columns set m)

same_name :
    (names : List Bytes) (i j : ℕ) {m n : Bytes}
    → i ≡ j
    → get_elem? names i ≡ some m
    → attempt (get_elem? names j) ≡ ok n
    → m ≡ n
same_name names i j same e h =
    some-injective _ _ (sym e ∙ ap (get_elem? names) same ∙ attempt_inv (get_elem? names j) h)

-- The name of a column of the set is one of the scan's.
scanned_names-Mem :
    (failfast : Bool) (names : List Bytes) (set : List ℕ) (projection : List Bytes) (i : ℕ)
    (name : Bytes)
    → scanned_names failfast names set ≡ ok projection
    → Memᴰ i set
    → get_elem? names i ≡ some name
    → Memᴰ name projection
unfolding scanned_names
scanned_names-Mem failfast names (j ∷ js) projection i name h m e =
    let (n, e₁, k₁) = or_refuse-ok failfast (attempt (get_elem? names j)) _ h in
    let (_, k₂) = throw_if-ok (is_empty n) _ _ k₁ in
    let (rest, e₃, k₃) = >>=-eq-ok (scanned_names failfast names js) _ k₂ in
    subst (Memᴰ name) (ok-injective k₃) (elim m [
      | Memᴰ.head same ↦ Memᴰ.head (same_name names i j same e e₁)
      | Memᴰ.tail m' ↦ Memᴰ.tail (scanned_names-Mem failfast names js rest i name e₃ m' e)
    ])
scanned_names-Mem failfast names [] projection i name h m e = elim m [ ]

pub scanned_names-IsUtf8 :
    (failfast : Bool) (names : List Bytes) (set : List ℕ) (projection : List Bytes)
    → All IsUtf8 names
    → scanned_names failfast names set ≡ ok projection
    → All IsUtf8 projection
unfolding scanned_names
scanned_names-IsUtf8 failfast names [] projection u h = subst (All IsUtf8) (ok-injective h) tt
scanned_names-IsUtf8 failfast names (i ∷ is) projection u h =
    let (n, e₁, k₁) = or_refuse-ok failfast (attempt (get_elem? names i)) _ h in
    let (_, k₂) = throw_if-ok (is_empty n) _ _ k₁ in
    let (rest, e₃, k₃) = >>=-eq-ok (scanned_names failfast names is) _ k₂ in
    subst (All IsUtf8) (ok-injective k₃) (
      All-get_elem IsUtf8 names i u (attempt_inv (get_elem? names i) e₁),
      scanned_names-IsUtf8 failfast names is rest u e₃,
    )

abbrev pub Covers : List Bytes → List Bytes → Type 0
Covers projection = All (λ name. Memᴰ name projection)

Covers-append :
    (projection xs ys : List Bytes)
    → Covers projection xs
    → Covers projection ys
    → Covers projection (xs ++ ys)
Covers-append projection [] ys a b = b
Covers-append projection (x ∷ xs) ys a b = (a.0, Covers-append projection xs ys a.1 b)

module _ (failfast : Bool) (names : List Bytes) (set : List ℕ) (projection : List Bytes)
    (scanned : scanned_names failfast names set ≡ ok projection) where
  names-Covers :
      (is : List ℕ) (ns : List Bytes)
      → Names names is ns
      → ((i : ℕ) → Memᴰ i is → Memᴰ i set)
      → Covers projection ns
  names-Covers [] [] n m = tt
  names-Covers [] (x ∷ xs) n m = elim n [ ]
  names-Covers (i ∷ is) [] n m = elim n [ ]
  names-Covers (i ∷ is) (x ∷ xs) (Forall₂.cons h n) m = (
    scanned_names-Mem failfast names set projection i x scanned (m i (Memᴰ.head refl)) h,
    names-Covers is xs n (λ j k. m j (Memᴰ.tail k)),
  )

  groups-Covers :
      (gs : List EncodedGroup) (xs : List GroupIr) (before : List ℕ)
      → Forall₂ (IsGroup names) gs xs
      → ((i : ℕ) → Memᴰ i (group_columns gs before) → Memᴰ i set)
      → Covers projection (groups_columns xs)
  unfolding group_columns groups_columns
  groups-Covers [] [] before f m = tt
  groups-Covers [] (x ∷ xs) before f m = elim f [ ]
  groups-Covers (g ∷ gs) [] before f m = elim f [ ]
  groups-Covers (g ∷ gs) (x ∷ xs) before (Forall₂.cons i is) m =
      Covers-append projection (columns_of x.expr) (groups_columns xs)
        (names-Covers g.columns (columns_of x.expr) i.columns (λ j k. m j (
          group_columns-keeps j gs (emplace_all g.columns before)
            (emplace_all-Mem j g.columns before k))))
        (groups-Covers gs xs (emplace_all g.columns before) is m)

  aggs-Covers :
      (es : List EncodedAgg) (xs : List AggIr) (before : List ℕ)
      → Forall₂ (IsAgg names) es xs
      → ((i : ℕ) → Memᴰ i (agg_columns es before) → Memᴰ i set)
      → Covers projection (aggs_columns xs)
  unfolding agg_columns aggs_columns
  aggs-Covers [] [] before f m = tt
  aggs-Covers [] (x ∷ xs) before f m = elim f [ ]
  aggs-Covers (g ∷ gs) [] before f m = elim f [ ]
  aggs-Covers (g ∷ gs) (x ∷ xs) before (Forall₂.cons i is) m =
      Covers-append projection (arguments_columns x.args) (aggs_columns xs)
        (names-Covers g.columns (arguments_columns x.args) i.columns (λ j k. m j (
          agg_columns-keeps j gs (emplace_all g.columns before)
            (emplace_all-Mem j g.columns before k))))
        (aggs-Covers gs xs (emplace_all g.columns before) is m)

-- The set of all columns.
abbrev pub all_columns : List ℕ → List EncodedGroup → List EncodedAgg → List ℕ
all_columns extra gs es = agg_columns es (group_columns gs (emplace_all extra []))

pub plan-Covers :
    (failfast : Bool) (names : List Bytes) (extra : List ℕ) (projection : List Bytes)
    (gs : List EncodedGroup) (xs : List GroupIr) (es : List EncodedAgg) (ys : List AggIr)
    → Forall₂ (IsGroup names) gs xs
    → Forall₂ (IsAgg names) es ys
    → scanned_names failfast names (sort_indexes (all_columns extra gs es)) ≡ ok projection
    → Covers projection (groups_columns xs ++ aggs_columns ys)
plan-Covers failfast names extra projection gs xs es ys i j h =
    let grouped = group_columns gs (emplace_all extra []) in
    let set = sort_indexes (agg_columns es grouped) in
    Covers-append projection (groups_columns xs) (aggs_columns ys)
      (groups-Covers failfast names set projection h gs xs (emplace_all extra []) i
        (λ k m. sort_indexes-keeps k _ (agg_columns-keeps k es grouped m)))
      (aggs-Covers failfast names set projection h es ys grouped j
        (λ k m. sort_indexes-keeps k _ m))

pub extra-Covers :
    (failfast : Bool) (names : List Bytes) (extra : List ℕ) (projection : List Bytes)
    (gs : List EncodedGroup) (es : List EncodedAgg) (ns : List Bytes)
    → scanned_names failfast names (sort_indexes (all_columns extra gs es)) ≡ ok projection
    → Names names extra ns
    → Covers projection ns
extra-Covers failfast names extra projection gs es ns h n =
    names-Covers failfast names (sort_indexes (all_columns extra gs es)) projection h extra ns n
      λ i m. sort_indexes-keeps i (all_columns extra gs es) (
        agg_columns-keeps i es (group_columns gs (emplace_all extra []))
          (group_columns-keeps i gs (emplace_all extra []) (emplace_all-Mem i extra [] m)))
