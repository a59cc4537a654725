-- ===== src/Filter/Sound/Paths.antt =====
-- The path of a column reference (TryBuildLanceExprColumnRefIR) leads through the fields of the column.
use lance_duckdb.Common.{
  ℕ, suc, ◌+◌, ◌≡◌, refl, ap, Bytes, Bool-cases, true, List, [], ◌∷◌, ◌++◌, some, get_elem?,
  bytes_eq, bytes_eq_eq, ◌==◌, not, if◌then◌else◌, ◌⊎◌, inl, inr, ok, err, >>=-eq-ok, or_throw-ok,
  ok-injective,
}
use lance_duckdb.Cache.Keys.{to_string}
use lance_duckdb.ExprIr.Types.{Value}
use lance_duckdb.ExprIr.Nodes.{is_empty}
use lance_duckdb.Filter.Types.{
  declined, Attempt, ColumnType, Fields, nth_field, LogicalGet, Table, Expression, Expressions,
  Casts,
}
use lance_duckdb.Filter.Columns.{
  linearize_child_indexes, follow_path, primary_column, field_of_name, fields_of, extract_by_name,
  extract_by_index, extract, struct_extract_name, struct_extract_at_name, access, zero_based,
  is_null_value, column_segments, build_segments,
}
use lance_duckdb.Filter.Place.{fields_of-ok}
use lance_duckdb.Filter.Attempts.{require-ok}

-- A field of that type, by its name, or by its number, counted from 1, where it has no name.
abbrev pub NamesField : Fields → Bytes → ColumnType → Type 0
NamesField fields segment type =
    (i : ℕ) × (name : Bytes) × (nth_field fields i ≡ some (name, type))
    × ((segment ≡ name) ⊎ ((name ≡ []) × (segment ≡ to_string (i + 1))))

pub data IsPath : ColumnType → List Bytes → ColumnType → Type 0 where
  here : (type : ColumnType) → IsPath type [] type
  below :
      {fields : Fields} {segment : Bytes} {type leaf : ColumnType} {segments : List Bytes}
      → NamesField fields segment type
      → IsPath type segments leaf
      → IsPath (ColumnType.struct fields) (segment ∷ segments) leaf

IsPath-append :
    {type mid leaf : ColumnType} {segments rest : List Bytes}
    → IsPath type segments mid
    → IsPath mid rest leaf
    → IsPath type (segments ++ rest) leaf
IsPath-append (IsPath.here t) q = q
IsPath-append (IsPath.below f p) q = IsPath.below f (IsPath-append p q)

-- A path and its end, as the code returns them.
abbrev pub Leads : ColumnType → List Bytes × ColumnType → Type 0
Leads type (segments, leaf) = IsPath type segments leaf

follow_path-Leads :
    (path : List ℕ) (type : ColumnType) {p : List Bytes × ColumnType}
    → follow_path path type ≡ ok p
    → Leads type p
unfolding follow_path
follow_path-Leads [] type h = rw (← ok-injective h) (IsPath.here type)
follow_path-Leads (i ∷ path) (ColumnType.plain type) h = cc
follow_path-Leads (i ∷ path) (ColumnType.struct fields) h =
    let ((name, type), e, k) = or_throw-ok (nth_field fields i) declined _ h in
    let (p, e', l) = >>=-eq-ok (follow_path path type) _ k in
    rw (← ok-injective l) (IsPath.below (i, name, e, inl refl) (follow_path-Leads path type e'))

field_of_name-nth_field :
    (wanted : Bytes) (fields : Fields) {type : ColumnType}
    → field_of_name wanted fields ≡ some type
    → (i : ℕ) × (nth_field fields i ≡ some (wanted, type))
unfolding field_of_name nth_field
field_of_name-nth_field wanted Fields.end h = cc
field_of_name-nth_field wanted (Fields.field name type rest) h =
    elim (Bool-cases (bytes_eq name wanted)) [
      | inl e ↦ (0, cc (rw e at h, bytes_eq_eq name wanted e))
      | inr e ↦ let (i, k) = field_of_name-nth_field wanted rest (rw e at h) in (suc i, k)
    ]

is_empty-eq : (s : Bytes) → is_empty s ≡ true → s ≡ []
is_empty-eq [] h = refl
is_empty-eq (b ∷ s) h = cc

extract_by_name-NamesField :
    (fields : Fields) (value : Value) {p : Bytes × ColumnType}
    → extract_by_name fields value ≡ ok p
    → NamesField fields p.0 p.1
unfolding extract_by_name
extract_by_name-NamesField fields (Value.varchar name) h =
    let (type, e, k) = or_throw-ok (field_of_name name fields) declined _ h in
    let (i, e') = field_of_name-nth_field name fields e in
    rw (← ok-injective k) (i, name, e', inl refl)
extract_by_name-NamesField fields _ h = cc

extract_by_index-NamesField :
    (casts : Casts) (fields : Fields) (value : Value) {p : Bytes × ColumnType}
    → extract_by_index casts fields value ≡ ok p
    → NamesField fields p.0 p.1
unfolding extract_by_index
extract_by_index-NamesField casts fields value h =
    let (one_based, _, k) = or_throw-ok (casts.to_bigint value) declined _ h in
    let (i, _, l) = >>=-eq-ok (zero_based one_based) _ k in
    let ((name, type), e, q) = or_throw-ok (nth_field fields i) declined _ l in
    rw (← ok-injective q) (i, name, e, numbered name i)
  where
    numbered :
        (name : Bytes) (i : ℕ)
        → ((if is_empty name then to_string (i + 1) else name) ≡ name)
          ⊎ ((name ≡ [])
              × ((if is_empty name then to_string (i + 1) else name) ≡ to_string (i + 1)))
    numbered [] i = inr (refl, refl)
    numbered (b ∷ s) i = inl refl

extract-NamesField :
    (casts : Casts) (name : Bytes) (fields : Fields) (value : Value) {p : Bytes × ColumnType}
    → extract casts name fields value ≡ ok p
    → NamesField fields p.0 p.1
unfolding extract
extract-NamesField casts name fields value h =
    elim (Bool-cases (bytes_eq name struct_extract_name)) [
      | inl e ↦ extract_by_name-NamesField fields value (rw e at h)
      | inr e ↦ elim (Bool-cases (bytes_eq name struct_extract_at_name)) [
        | inl e' ↦ extract_by_index-NamesField casts fields value (rw (e, e') at h)
        | inr e' ↦ let h' : err declined ≡ ok _ = rw (e, e') at h in cc
      ]
    ]

-- The path begins at a column of the table.
abbrev pub NamesColumn : Table → List Bytes × ColumnType → Type 0
NamesColumn table (segments, leaf) =
    (col_id : ℕ) × (name : Bytes) × (type : ColumnType) × (rest : List Bytes) × (get_elem?
        table.names col_id
      ≡ some name)
    × (get_elem? table.types col_id ≡ some type)
    × (segments ≡ name ∷ rest)
    × IsPath type rest leaf

module _ (casts : Casts) (table : Table) where
  access-NamesColumn :
      (name : Bytes) (base : Attempt (List Bytes × ColumnType)) (rest : Expressions)
      {p : List Bytes × ColumnType}
      → ((q : List Bytes × ColumnType) → base ≡ ok q → NamesColumn table q)
      → access casts name base rest ≡ ok p
      → NamesColumn table p
  unfolding access
  access-NamesColumn name base (Expressions.cons (Expression.constant value) Expressions.nil) ih h =
      let ((segments, type), e₁, k₁) = >>=-eq-ok base _ h in
      let (fields, e₂, k₂) = >>=-eq-ok (fields_of type) _ k₁ in
      let (_, k₃) = require-ok (not (is_null_value value)) _ k₂ in
      let ((child_name, child_type), e₃, k₄) = >>=-eq-ok (extract casts name fields value) _ k₃ in
      let (col_id, column, column_type, path, en, et, es, leads) = ih (segments, type) e₁ in
      let step : IsPath type (child_name ∷ []) child_type =
        rw (fields_of-ok type e₂)
          (IsPath.below (extract-NamesField casts name fields value e₃) (IsPath.here child_type)) in
      rw (← ok-injective k₄) (
        col_id,
        column,
        column_type,
        path ++ child_name ∷ [],
        en,
        et,
        ap (λ t. t ++ child_name ∷ []) es,
        IsPath-append leads step,
      )
  access-NamesColumn name base _ ih h = cc

  module _ (get : LogicalGet) where
    column_segments-NamesColumn :
        (index : ℕ) {p : List Bytes × ColumnType}
        → column_segments casts get table index ≡ ok p
        → NamesColumn table p
    unfolding column_segments
    column_segments-NamesColumn index h =
        let (col_index, _, k₁) = or_throw-ok (get_elem? get.column_ids index) declined _ h in
        let ((col_id, children), _, k₂) = >>=-eq-ok (primary_column col_index) _ k₁ in
        let (name, en, k₃) = or_throw-ok (get_elem? table.names col_id) declined _ k₂ in
        let (type, et, k₄) = or_throw-ok (get_elem? table.types col_id) declined _ k₃ in
        let (path, _, k₅) = >>=-eq-ok (linearize_child_indexes children) _ k₄ in
        let ((segments, leaf), ep, k₆) = >>=-eq-ok (follow_path path type) _ k₅ in
        rw (← ok-injective k₆)
          (col_id, name, type, segments, en, et, refl, follow_path-Leads path type ep)

    -- The segments that a column reference, or a field access, is encoded with: the name of a column of the
    -- table, and then names of fields, each of the struct that the segments before it lead to (or the
    -- number of the field where it has no name). The type that is tested is the type at the end.
    pub build_segments-NamesColumn :
        (e : Expression) {p : List Bytes × ColumnType}
        → build_segments casts get table e ≡ ok p
        → NamesColumn table p
    unfolding build_segments
    build_segments-NamesColumn (Expression.column_ref depth binding) h =
        let (_, k₁) = require-ok (depth == 0) _ h in
        let (_, k₂) = require-ok (binding.table_index == get.table_index) _ k₁ in
        column_segments-NamesColumn binding.column_index k₂
    build_segments-NamesColumn (Expression.reference index) h = column_segments-NamesColumn index h
    build_segments-NamesColumn (Expression.function name (Expressions.cons base rest)) h =
        access-NamesColumn name (build_segments casts get table base) rest
          (λ q e. build_segments-NamesColumn base e) h
    build_segments-NamesColumn (Expression.function name Expressions.nil) h = cc
    build_segments-NamesColumn _ h = cc
