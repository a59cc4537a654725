-- ===== src/Filter/Place.antt =====
-- Which column of the table, and which field of it, an expression is: a description of its own of what
-- TryBuildLanceExprColumnRefIR of src/lance_filter_ir.cpp finds.
use lance_duckdb.Common.{
  ℕ, zero, suc, ◌+◌, ◌≡◌, refl, ap, Bytes, Bool, Bool-cases, true, false, List, [], ◌∷◌, ◌++◌,
  append-nil, Option, none, some, get_elem?, bytes_eq, bytes_eq_eq, ◌>>=◌, ◌==◌, ◌&&◌, not,
  if◌then◌else◌, inl, inr, ok, err, ok-injective, >>=-eq-ok, or_throw-ok,
}
use lance_duckdb.Common.Int.{ℤ, pos, negsuc}
use lance_duckdb.Cache.Keys.{to_string}
use lance_duckdb.ExprIr.Types.{Value}
use lance_duckdb.ExprIr.Nodes.{is_empty}
use lance_duckdb.Filter.Types.{
  declined, attempt, ColumnType, Fields, nth_field, ChildIndexes, no_children, child, ColumnIndex,
  LogicalGet, Table, Expression, Expressions, Casts,
}
use lance_duckdb.Filter.Columns.{
  sibling_indexes, linearize_child_indexes, follow_path, primary_column, field_of_name, fields_of,
  extract_by_name, zero_based, extract_by_index, struct_extract_name, struct_extract_at_name,
  extract, access, is_null_value, column_segments, build_segments,
}
use lance_duckdb.Filter.Attempts.{require-ok}

abbrev pub and_then {ℓ κ} : {A : Type ℓ} {B : Type κ} → Option A → (A → Option B) → Option B
and_then none f = none
and_then (some x) f = f x

-- The numbers on a path, whichever of its two forms it has.
unfoldable pub index_path : ChildIndexes → List ℕ
index_path no_children = []
index_path (child i below beside) = i ∷ (index_path below ++ index_path beside)

-- The fields on a path.
unfoldable pub descend : List ℕ → ColumnType → Option (List Bytes × ColumnType)
descend [] type = some ([], type)
descend (i ∷ path) (ColumnType.plain type) = none
descend (i ∷ path) (ColumnType.struct fields) =
    and_then (nth_field fields i)
      λ field. and_then (descend path field.1) λ rest. some (field.0 ∷ rest.0, rest.1)

abbrev pub is_by_number : Bytes → Bool
is_by_number name = bytes_eq name (
    b's' ∷ b't' ∷ b'r' ∷ b'u' ∷ b'c' ∷ b't' ∷ b'_' ∷ b'e' ∷ b'x' ∷ b't' ∷ b'r' ∷ b'a' ∷ b'c' ∷ b't'
    ∷ b'_' ∷ b'a' ∷ b't' ∷ [])

abbrev pub field_by_name : Fields → Value → Option (Bytes × ColumnType)
field_by_name fields (Value.varchar s) = and_then (field_of_name s fields) λ type. some (s, type)
field_by_name fields _ = none

abbrev pub field_by_number : Fields → Option ℤ → Option (Bytes × ColumnType)
field_by_number fields (some (pos (suc i))) =
    and_then (nth_field fields i)
      λ field. some ((if is_empty field.0 then to_string (i + 1) else field.0), field.1)
field_by_number fields _ = none

-- A field by its name, or by its number from 1 on, which is its name where it has none.
unfoldable pub field_place : Casts → Bytes → ColumnType → Value → Option (Bytes × ColumnType)
field_place casts name (ColumnType.plain type) value = none
field_place casts name (ColumnType.struct fields) value =
    if is_by_number name
    then field_by_number fields (casts.to_bigint value)
    else field_by_name fields value

module _ (casts : Casts) (get : LogicalGet) (table : Table) where
  abbrev pub column_place : ColumnIndex → Option (List Bytes × ColumnType)
  column_place ColumnIndex.virtual = none
  column_place (ColumnIndex.primary col_id children) =
      and_then (get_elem? table.names col_id) λ name.
        and_then (get_elem? table.types col_id)
          λ type. and_then (descend (index_path children) type) λ rest. some (name ∷ rest.0, rest.1)

  unfoldable pub scan_place : ℕ → Option (List Bytes × ColumnType)
  scan_place index = and_then (get_elem? get.column_ids index) column_place

  unfoldable pub place_of : Expression → Option (List Bytes × ColumnType)
  place_of (Expression.column_ref depth binding) =
      if depth == 0 && binding.table_index == get.table_index
      then scan_place binding.column_index
      else none
  place_of (Expression.reference index) = scan_place index
  place_of
        (Expression.function name
          (Expressions.cons base (Expressions.cons (Expression.constant value) Expressions.nil))) =
      and_then (place_of base) λ place.
        and_then (field_place casts name place.1 value)
          λ field. some (place.0 ++ field.0 ∷ [], field.1)
  place_of _ = none

siblings-index_path :
    (c : ChildIndexes) {path : List ℕ} → sibling_indexes c ≡ ok path → index_path c ≡ path
unfolding sibling_indexes index_path
siblings-index_path no_children h = ok-injective h
siblings-index_path (child i no_children rest) h =
    let (path, e, k) = >>=-eq-ok (sibling_indexes rest) _ h in
    rw (siblings-index_path rest e) (ok-injective k)
siblings-index_path (child i (child j below beside) rest) h = cc

linearize-index_path :
    (c : ChildIndexes) {path : List ℕ} → linearize_child_indexes c ≡ ok path → index_path c ≡ path
unfolding linearize_child_indexes index_path
linearize-index_path no_children h = ok-injective h
linearize-index_path (child i below no_children) h =
    let (path, e, k) = >>=-eq-ok (linearize_child_indexes below) _ h in
    rw (append-nil (index_path below), linearize-index_path below e) (ok-injective k)
linearize-index_path (child i below (child j beneath rest)) h =
    siblings-index_path (child i below (child j beneath rest)) h

follow_path-descend :
    (path : List ℕ) (type : ColumnType) {p : List Bytes × ColumnType}
    → follow_path path type ≡ ok p
    → descend path type ≡ some p
unfolding follow_path descend
follow_path-descend [] type h = ap some (ok-injective h)
follow_path-descend (i ∷ path) (ColumnType.plain type) h = cc
follow_path-descend (i ∷ path) (ColumnType.struct fields) h =
    let (field, e, k) = or_throw-ok (nth_field fields i) declined _ h in
    let (rest, e', l) = >>=-eq-ok (follow_path path field.1) _ k in
    rw (e, follow_path-descend path field.1 e') (ap some (ok-injective l))

extract_by_number :
    (casts : Casts) (fields : Fields) (value : Value) {p : Bytes × ColumnType}
    → extract_by_index casts fields value ≡ ok p
    → field_by_number fields (casts.to_bigint value) ≡ some p
unfolding extract_by_index
extract_by_number casts fields value h =
    let (z, e, k) = or_throw-ok (casts.to_bigint value) declined _ h in rw e (numbered z k)
  where
    numbered :
        (z : ℤ) {p : Bytes × ColumnType}
        → (zero_based z >>= λ i. attempt (nth_field fields i) >>= λ f.
            ok ((if is_empty f.0 then to_string (i + 1) else f.0), f.1))
          ≡ ok p
        → field_by_number fields (some z) ≡ some p
    numbered (pos zero) k = cc
    numbered (pos (suc i)) k =
        let (field, e, l) = or_throw-ok (nth_field fields i) declined _ k in
        rw e (ap some (ok-injective l))
    numbered (negsuc n) k = cc

extracted_by_name :
    (fields : Fields) (value : Value) {p : Bytes × ColumnType}
    → extract_by_name fields value ≡ ok p
    → field_by_name fields value ≡ some p
unfolding extract_by_name
extracted_by_name fields (Value.varchar s) h =
    let (type, e, k) = or_throw-ok (field_of_name s fields) declined _ h in
    rw e (ap some (ok-injective k))
extracted_by_name fields _ h = cc

not_by_number :
    (name : Bytes) → bytes_eq name struct_extract_name ≡ true → is_by_number name ≡ false
unfolding bytes_eq
not_by_number name h = rw (bytes_eq_eq name struct_extract_name h) refl

extract-field_place :
    (casts : Casts) (name : Bytes) (fields : Fields) (value : Value) {p : Bytes × ColumnType}
    → extract casts name fields value ≡ ok p
    → field_place casts name (ColumnType.struct fields) value ≡ some p
unfolding extract field_place
extract-field_place casts name fields value h =
    elim (Bool-cases (bytes_eq name struct_extract_name)) [
      | inl t ↦ rw (not_by_number name t) (extracted_by_name fields value (rw t at h))
      | inr f ↦ elim (Bool-cases (bytes_eq name struct_extract_at_name)) [
        | inl t ↦ rw t (extract_by_number casts fields value (rw (f, t) at h))
        | inr f' ↦ let h' : err declined ≡ ok _ = rw (f, f') at h in cc
      ]
    ]

pub fields_of-ok :
    (type : ColumnType) {fields : Fields}
    → fields_of type ≡ ok fields
    → type ≡ ColumnType.struct fields
fields_of-ok (ColumnType.plain type) h = cc
fields_of-ok (ColumnType.struct fields) h = ap ColumnType.struct (ok-injective h)

module _ (casts : Casts) (get : LogicalGet) (table : Table) where
  segments-scan_place :
      (index : ℕ) {p : List Bytes × ColumnType}
      → column_segments casts get table index ≡ ok p
      → scan_place casts get table index ≡ some p
  unfolding column_segments scan_place
  segments-scan_place index h =
      let (col_index, e, k) = or_throw-ok (get_elem? get.column_ids index) declined _ h in
      rw e (column col_index k)
    where
      column :
          (c : ColumnIndex) {p : List Bytes × ColumnType}
          → (primary_column c >>= λ q. attempt (get_elem? table.names q.0) >>= λ name.
              attempt (get_elem? table.types q.0) >>= λ type.
              linearize_child_indexes q.1 >>= λ path.
              follow_path path type >>= λ r. ok (name ∷ r.0, r.1))
            ≡ ok p
          → column_place casts get table c ≡ some p
      column ColumnIndex.virtual k = cc
      column (ColumnIndex.primary col_id children) k =
          let (name, e₁, k₁) = or_throw-ok (get_elem? table.names col_id) declined _ k in
          let (type, e₂, k₂) = or_throw-ok (get_elem? table.types col_id) declined _ k₁ in
          let (path, e₃, k₃) = >>=-eq-ok (linearize_child_indexes children) _ k₂ in
          let (r, e₄, k₄) = >>=-eq-ok (follow_path path type) _ k₃ in
          rw (e₁, e₂, linearize-index_path children e₃, follow_path-descend path type e₄)
            (ap some (ok-injective k₄))

  pub build_segments-place_of :
      (e : Expression) {p : List Bytes × ColumnType}
      → build_segments casts get table e ≡ ok p
      → place_of casts get table e ≡ some p
  unfolding build_segments place_of access
  build_segments-place_of (Expression.column_ref depth binding) h =
      let (outer, k) = require-ok (depth == 0) _ h in
      let (mine, k') = require-ok (binding.table_index == get.table_index) _ k in
      rw (outer, mine) (segments-scan_place binding.column_index k')
  build_segments-place_of (Expression.reference index) h = segments-scan_place index h
  build_segments-place_of
        (Expression.function name
          (Expressions.cons base (Expressions.cons (Expression.constant value) Expressions.nil)))
        h =
      let ((segments, type), e₁, k₁) = >>=-eq-ok (build_segments casts get table base) _ h in
      let (fields, e₂, k₂) = >>=-eq-ok (fields_of type) _ k₁ in
      let (_, k₃) = require-ok (not (is_null_value value)) _ k₂ in
      let (field, e₃, k₄) = >>=-eq-ok (extract casts name fields value) _ k₃ in
      rw
        (
          build_segments-place_of base e₁,
          fields_of-ok type e₂,
          extract-field_place casts name fields value e₃,
        )
        (ap some (ok-injective k₄))
  build_segments-place_of _ h = cc
