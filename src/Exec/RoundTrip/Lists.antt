-- ===== src/Exec/RoundTrip/Lists.antt =====
-- The lists of the message: columns, groups, aggregates and the order.
use lance_duckdb.Common.{
  ℕ, suc, ◌≡◌, refl, sym, Bytes, Bool, true, false, List, [], ◌∷◌, ◌++◌, map, append_assoc, length,
  ltb, ◌==◌, not, subst, All, ok, throw_if-ok, >>=-eq-ok, ok-injective, arith,
}
use mathlib.Core.List.{Forall₂}
use lance_duckdb.Wire.Reader.{Reader, read_u8, read_string}
use lance_duckdb.Wire.Writer.{u32_max}
use lance_duckdb.ExprIr.Scope.{Scan}
use lance_duckdb.ExprIr.RoundTrip.Columns.{IsUtf8}
use lance_duckdb.Exec.Types.{
  declined, Expression, DuckDb, AggFunc, sum, count, count_star, min, max, avg, GroupIr, AggIr,
}
use lance_duckdb.Exec.Write.{write_u32, write_string, write_strings}
use lance_duckdb.Exec.Expr.{Projection}
use lance_duckdb.Exec.Aggregates.{
  EncodedGroup, EncodedAgg, encode_group, encode_groups, encode_agg, encode_aggs,
}
use lance_duckdb.Exec.Message.{
  func_tag, write_groups, write_aggs, write_count, flag_byte, write_orders,
}
use lance_duckdb.Exec.Parser.{
  read_times, read_counted, parse_group, agg_func, parse_hint_if, parse_agg, parse_order,
}
use lance_duckdb.Exec.Meaning.{IsDuckDb, IsStack}
use lance_duckdb.Exec.Plan.{each, group_meaning, agg_meaning, order_of, IsPlanned}
use lance_duckdb.Exec.RoundTrip.Leaves.{Takes, write_u32-Takes, write_string-Takes}
use lance_duckdb.Exec.RoundTrip.Items.{
  IsGroup, IsAgg, expr-Takes, encode_group-Stands, encode_agg-Stands,
}

pub cons-Takes :
    {A : Type 0} (read : Reader A) (n : ℕ) (b bs : Bytes) (x : A) (xs : List A)
    → Takes read b x
    → Takes (read_times read n) bs xs
    → Takes (read_times read (suc n)) (b ++ bs) (x ∷ xs)
unfolding read_times
cons-Takes read n b bs x xs t ts rest = rw (append_assoc b bs rest, t (bs ++ rest), ts rest)

-- A count, and as many items.
abbrev pub Counted : {A : Type 0} → Reader A → (len bytes : Bytes) → List A → Type 0
Counted read len bytes xs =
    (rest : Bytes) → read_counted read (len ++ (bytes ++ rest)) ≡ ok (xs, rest)

pub write_count-Counted :
    {A : Type 0} (read : Reader A) (n : ℕ) (bytes : Bytes) (xs : List A) {len : Bytes}
    → write_count n ≡ ok len
    → Takes (read_times read n) bytes xs
    → Counted read len bytes xs
unfolding read_counted
write_count-Counted read n bytes xs h t rest =
    let (few, k) = throw_if-ok (ltb u32_max n) declined _ h in
    rw (← ok-injective k, write_u32-Takes n (ground arith) (bytes ++ rest), t rest)

pub strings-Takes :
    (names : List Bytes) (bytes : Bytes)
    → All IsUtf8 names
    → write_strings names ≡ ok bytes
    → Takes (read_times read_string (length names)) bytes names
unfolding write_strings
strings-Takes [] bytes u h = rw (← ok-injective h) (λ rest. unfold read_times in refl)
strings-Takes (s ∷ ss) bytes u h =
    let (b, e₁, k₁) = >>=-eq-ok (write_string s) _ h in
    let (bs, e₂, k₂) = >>=-eq-ok (write_strings ss) _ k₁ in
    rw (← ok-injective k₂) (
      cons-Takes read_string (length ss) b bs s ss (write_string-Takes s u.0 e₁)
        (strings-Takes ss bs u.1 e₂))

func-Takes : (f : AggFunc) → agg_func (func_tag f) ≡ ok f
unfolding agg_func func_tag
func-Takes sum = refl
func-Takes count = refl
func-Takes count_star = refl
func-Takes min = refl
func-Takes max = refl
func-Takes avg = refl

flag : (b : Bool) → not (flag_byte b == 0) ≡ b
flag true = refl
flag false = refl

pub orders-Takes :
    (entries : List (Bytes × Bool × Bool)) (bytes : Bytes)
    → All (λ entry. IsUtf8 entry.0) entries
    → write_orders entries ≡ ok bytes
    → Takes (read_times parse_order (length entries)) bytes (map order_of entries)
unfolding write_orders parse_order read_u8
orders-Takes [] bytes u h = rw (← ok-injective h) (λ rest. unfold read_times in refl)
orders-Takes ((name, asc, nulls_first) ∷ entries) bytes u h =
    let (b, e₁, k₁) = >>=-eq-ok (write_string name) _ h in
    let (bs, e₂, k₂) = >>=-eq-ok (write_orders entries) _ k₁ in
    rw (← ok-injective k₂) (
      subst
        (λ l.
          Takes (read_times parse_order (suc (length entries))) l
            (map order_of ((name, asc, nulls_first) ∷ entries)))
        (append_assoc b (flag_byte asc ∷ flag_byte nulls_first ∷ []) bs)
        (cons-Takes parse_order (length entries) (b ++ (flag_byte asc ∷ flag_byte nulls_first ∷ []))
          bs _ (map order_of entries)
          (λ rest. rw (
            append_assoc b (flag_byte asc ∷ flag_byte nulls_first ∷ []) rest,
            write_string-Takes name u.0 e₁ (flag_byte asc ∷ flag_byte nulls_first ∷ rest),
            flag asc,
            flag nulls_first,
          ))
          (orders-Takes entries bs u.1 e₂)))

module _ (names : List Bytes) where
  group-Takes :
      (g : EncodedGroup) (x : GroupIr) {name : Bytes} (rest : Bytes)
      → IsGroup names g x
      → write_string g.output_name ≡ ok name
      → parse_group (name ++ (g.encoded_expr ++ (g.output_type_hint ++ rest))) ≡ ok (x, rest)
  unfolding parse_group
  group-Takes g x {name} rest i h =
      rw
        (
          write_string-Takes g.output_name (subst IsUtf8 (sym i.same_name) i.utf8_name) h
              (g.encoded_expr ++ (g.output_type_hint ++ rest)),
          expr-Takes g.encoded_expr x.expr i.reads_expr (g.output_type_hint ++ rest),
          i.takes_hint rest,
          i.same_name,
          ← i.same_hint,
        )
        refl

  pub groups-Takes :
      (gs : List EncodedGroup) (xs : List GroupIr) (bytes : Bytes)
      → Forall₂ (IsGroup names) gs xs
      → write_groups gs ≡ ok bytes
      → Takes (read_times parse_group (length gs)) bytes xs
  unfolding write_groups read_times
  groups-Takes [] [] bytes i h rest = rw (← ok-injective h)
  groups-Takes [] (x ∷ xs) bytes i h rest = elim i [ ]
  groups-Takes (g ∷ gs) [] bytes i h rest = elim i [ ]
  groups-Takes (g ∷ gs) (x ∷ xs) bytes (Forall₂.cons i is) h rest =
      let (name, e₁, k₁) = >>=-eq-ok (write_string g.output_name) _ h in
      let (bs, e₂, k₂) = >>=-eq-ok (write_groups gs) _ k₁ in
      rw
        (
          ← ok-injective k₂,
          append_assoc name (g.encoded_expr ++ (g.output_type_hint ++ bs)) rest,
          append_assoc g.encoded_expr (g.output_type_hint ++ bs) rest,
          append_assoc g.output_type_hint bs rest,
          group-Takes g x (bs ++ rest) i e₁,
          groups-Takes gs xs bs is e₂ rest,
        )
        refl

  agg-Takes :
      (a : EncodedAgg) (x : AggIr) {name : Bytes} (rest : Bytes)
      → IsAgg names a x
      → write_string a.output_name ≡ ok name
      → parse_agg true (
          func_tag a.func
          ∷ (name ++ (write_u32 a.arg_count ++ (a.encoded_args ++ (a.output_type_hint ++ rest)))))
        ≡ ok (x, rest)
  unfolding parse_agg read_u8 read_counted parse_hint_if
  agg-Takes a x {name} rest i h =
      rw
        (
          func-Takes a.func,
          write_string-Takes a.output_name (subst IsUtf8 (sym i.same_name) i.utf8_name) h
              (write_u32 a.arg_count ++ (a.encoded_args ++ (a.output_type_hint ++ rest))),
          write_u32-Takes a.arg_count (omega (arith, i.few))
              (a.encoded_args ++ (a.output_type_hint ++ rest)),
          i.takes_args (a.output_type_hint ++ rest),
          i.takes_hint rest,
          i.same_name,
          i.same_func,
          ← i.same_hint,
        )
        refl

  pub aggs-Takes :
      (es : List EncodedAgg) (xs : List AggIr) (bytes : Bytes)
      → Forall₂ (IsAgg names) es xs
      → write_aggs es ≡ ok bytes
      → Takes (read_times (parse_agg true) (length es)) bytes xs
  unfolding write_aggs read_times
  aggs-Takes [] [] bytes i h rest = rw (← ok-injective h)
  aggs-Takes [] (x ∷ xs) bytes i h rest = elim i [ ]
  aggs-Takes (a ∷ es) [] bytes i h rest = elim i [ ]
  aggs-Takes (a ∷ es) (x ∷ xs) bytes (Forall₂.cons i is) h rest =
      let (name, e₁, k₁) = >>=-eq-ok (write_string a.output_name) _ h in
      let (bs, e₂, k₂) = >>=-eq-ok (write_aggs es) _ k₁ in
      rw
        (
          ← ok-injective k₂,
          append_assoc name
              (write_u32 a.arg_count ++ (a.encoded_args ++ (a.output_type_hint ++ bs))) rest,
          append_assoc (write_u32 a.arg_count) (a.encoded_args ++ (a.output_type_hint ++ bs)) rest,
          append_assoc a.encoded_args (a.output_type_hint ++ bs) rest,
          append_assoc a.output_type_hint bs rest,
          agg-Takes a x (bs ++ rest) i e₁,
          aggs-Takes es xs bs is e₂ rest,
        )
        refl

module _ (db : DuckDb) (laws : IsDuckDb db) (failfast : Bool) (scan : Scan)
    (named : All IsUtf8 scan.names) (stack : List Projection) (valid : IsStack stack) where
  pub groups-Stand :
      (es : List Expression) (gs : List EncodedGroup)
      → All IsPlanned es
      → encode_groups db failfast scan stack es ≡ ok gs
      → (xs : List GroupIr) × (each (group_meaning db scan stack) es ≡ ok xs)
        × Forall₂ (IsGroup scan.names) gs xs
  unfolding encode_groups each
  groups-Stand [] gs i h = ([], refl, rw (← ok-injective h) Forall₂.nil)
  groups-Stand (e ∷ es) gs i h =
      let (g, e₁, k₁) = >>=-eq-ok (encode_group db failfast scan stack e) _ h in
      let (more, e₂, k₂) = >>=-eq-ok (encode_groups db failfast scan stack es) _ k₁ in
      let (x, m, is_group) =
        encode_group-Stands db laws failfast scan named stack valid e g i.0 e₁ in
      let (xs, ms, are_groups) = groups-Stand es more i.1 e₂ in
      (
        x ∷ xs,
        rw (m, ms),
        subst (λ gs. Forall₂ (IsGroup scan.names) gs (x ∷ xs)) (ok-injective k₂)
            (Forall₂.cons is_group are_groups),
      )

  pub aggs-Stand :
      (es : List Expression) (encoded : List EncodedAgg)
      → All IsPlanned es
      → encode_aggs db failfast scan stack es ≡ ok encoded
      → (xs : List AggIr) × (each (agg_meaning db scan stack) es ≡ ok xs)
        × Forall₂ (IsAgg scan.names) encoded xs
  unfolding encode_aggs each
  aggs-Stand [] gs i h = ([], refl, rw (← ok-injective h) Forall₂.nil)
  aggs-Stand (e ∷ es) gs i h =
      let (a, e₁, k₁) = >>=-eq-ok (encode_agg db failfast scan stack e) _ h in
      let (more, e₂, k₂) = >>=-eq-ok (encode_aggs db failfast scan stack es) _ k₁ in
      let (x, m, is_agg) = encode_agg-Stands db laws failfast scan named stack valid e a i.0 e₁ in
      let (xs, ms, are_aggs) = aggs-Stand es more i.1 e₂ in
      (
        x ∷ xs,
        rw (m, ms),
        subst (λ gs. Forall₂ (IsAgg scan.names) gs (x ∷ xs)) (ok-injective k₂)
            (Forall₂.cons is_agg are_aggs),
      )
