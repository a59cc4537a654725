-- ===== src/ExprIr/Fuel/Leaves.antt =====
-- Literals, types, column references and the parts of regular expressions.
use lance_duckdb.Common.{ℕ, zero, suc, Bytes, List, [], ◌∷◌, ◌==◌, ok, ◌>>=◌}
use lance_duckdb.Wire.Reader.{
  read_u8, read_u32, read_u64, read_i32, read_i64, read_i128, read_f32, read_f64, read_string,
  no_segments,
}
use lance_duckdb.ExprIr.Types.{ScalarValue}
use lance_duckdb.ExprIr.Parser.{
  parse_unit, parse_scalar, parse_literal, plain_type, parse_type_tag, parse_type, read_strings,
  column_path, parse_column_ref, binary_op, comparison_op, conjunction_op, as_i8,
}
use lance_duckdb.ExprIr.Fuel.{
  Safe, Fueled, SafeReader, bind-Safe, then-Safe, throw_if-Safe, if-Safe, if-Fueled,
  or_throw-Fueled,
}
use lance_duckdb.ExprIr.Fuel.Readers.{
  read_u8-Safe, read_u32-Safe, read_u64-Safe, read_i32-Safe, read_i64-Safe, read_i128-Safe,
  read_f32-Safe, read_f64-Safe, read_string-Safe,
}

parse_unit-Fueled : (u : ℕ) → Fueled (parse_unit u)
unfolding parse_unit
parse_unit-Fueled u =
    if-Fueled (u == 0) _ _ tt
      (if-Fueled (u == 1) _ _ tt (if-Fueled (u == 2) _ _ tt (if-Fueled (u == 3) _ _ tt (λ e. cc))))

parse_scalar-Safe : (tag : ℕ) → SafeReader (parse_scalar tag)
unfolding parse_scalar
parse_scalar-Safe tag n bs h = if-Safe n (tag == 0) _ _ h (
    if-Safe n (tag == 1) _ _ (bind-Safe n (read_u8 bs) _ (read_u8-Safe n bs h) (λ x rest k. k)) (
      if-Safe n (tag == 2) _ _ (bind-Safe n (read_i64 bs) _ (read_i64-Safe n bs h) (λ x rest k. k))
        (if-Safe n (tag == 3) _ _
          (bind-Safe n (read_u64 bs) _ (read_u64-Safe n bs h) (λ x rest k. k))
          (if-Safe n (tag == 4) _ _
            (bind-Safe n (read_f32 bs) _ (read_f32-Safe n bs h) (λ x rest k. k))
            (if-Safe n (tag == 5) _ _
              (bind-Safe n (read_f64 bs) _ (read_f64-Safe n bs h) (λ x rest k. k))
              (if-Safe n (tag == 6) _ _
                (bind-Safe n (read_string bs) _ (read_string-Safe n bs h) (λ x rest k. k))
                (if-Safe n (tag == 7) _ _
                  (bind-Safe n (read_i32 bs) _ (read_i32-Safe n bs h) (λ x rest k. k))
                  (if-Safe n (tag == 8) _ _ timestamp
                    (if-Safe n (tag == 9) _ _ decimal (λ e. cc))))))))))
  where
    timestamp : Safe n (
        read_u8 bs >>= λ (u, bs'). read_i64 bs' >>= λ (v, rest).
        parse_unit u >>= λ unit. ok (ScalarValue.timestamp unit v, rest))
    timestamp = bind-Safe n (read_u8 bs) _ (read_u8-Safe n bs h) λ u bs' k.
        bind-Safe n (read_i64 bs') _ (read_i64-Safe n bs' k)
          λ v rest l. then-Safe n (parse_unit u) _ (parse_unit-Fueled u) (λ unit. l)

    decimal : Safe n (
        read_u8 bs >>= λ (precision, bs'). read_u8 bs' >>= λ (scale, bs'').
        read_i128 bs'' >>= λ (v, rest). ok (ScalarValue.decimal128 v precision (as_i8 scale), rest))
    decimal = bind-Safe n (read_u8 bs) _ (read_u8-Safe n bs h) λ precision bs' k.
        bind-Safe n (read_u8 bs') _ (read_u8-Safe n bs' k)
          λ scale bs'' l. bind-Safe n (read_i128 bs'') _ (read_i128-Safe n bs'' l) (λ v rest m. m)

pub parse_literal-Safe : SafeReader parse_literal
unfolding parse_literal
parse_literal-Safe n bs h = bind-Safe n (read_u8 bs) _ (read_u8-Safe n bs h) λ tag bs' k.
    bind-Safe n (parse_scalar tag bs') _ (parse_scalar-Safe tag n bs' k) (λ x rest l. l)

parse_type_tag-Safe : (tag : ℕ) → SafeReader (parse_type_tag tag)
unfolding parse_type_tag
parse_type_tag-Safe tag n bs h =
    if-Safe n (tag == 14) _ _
      (bind-Safe n (read_u8 bs) _ (read_u8-Safe n bs h)
        λ u rest k. then-Safe n (parse_unit u) _ (parse_unit-Fueled u) (λ unit. k))
      (if-Safe n (tag == 15) _ _
        (bind-Safe n (read_u8 bs) _ (read_u8-Safe n bs h)
          λ precision bs' k. bind-Safe n (read_u8 bs') _ (read_u8-Safe n bs' k) (λ scale rest l. l))
        (then-Safe n _ _ (or_throw-Fueled (plain_type tag) _ (λ e. cc)) (λ type. h)))

pub parse_type-Safe : SafeReader parse_type
unfolding parse_type
parse_type-Safe n bs h =
    bind-Safe n (read_u8 bs) _ (read_u8-Safe n bs h)
      (λ tag rest k. parse_type_tag-Safe tag n rest k)

read_strings-Safe : (count : ℕ) → SafeReader (read_strings count)
unfolding read_strings
read_strings-Safe zero n bs h = h
read_strings-Safe (suc count) n bs h =
    bind-Safe n (read_string bs) _ (read_string-Safe n bs h) λ s bs' k.
      bind-Safe n (read_strings count bs') _ (read_strings-Safe count n bs' k) (λ ss rest l. l)

column_path-Fueled : (ss : List Bytes) → Fueled (column_path ss)
unfolding column_path
column_path-Fueled [] = λ e. cc
column_path-Fueled (s ∷ ss) = tt

pub parse_column_ref-Safe : SafeReader parse_column_ref
unfolding parse_column_ref
parse_column_ref-Safe n bs h = bind-Safe n (read_u32 bs) _ (read_u32-Safe n bs h) λ count bs' k.
    throw_if-Safe n (count == 0) no_segments _ (λ e. cc)
      (bind-Safe n (read_strings count bs') _ (read_strings-Safe count n bs' k)
        λ ss rest l. then-Safe n (column_path ss) _ (column_path-Fueled ss) (λ e. l))

pub binary_op-Fueled : (o : ℕ) → Fueled (binary_op o)
unfolding binary_op
binary_op-Fueled o =
    if-Fueled (o == 1) _ _ tt
      (if-Fueled (o == 2) _ _ tt (if-Fueled (o == 3) _ _ tt (if-Fueled (o == 4) _ _ tt (λ e. cc))))

pub comparison_op-Fueled : (o : ℕ) → Fueled (comparison_op o)
unfolding comparison_op
comparison_op-Fueled o = if-Fueled (o == 0) _ _ tt (
    if-Fueled (o == 1) _ _ tt (
      if-Fueled (o == 2) _ _ tt (
        if-Fueled (o == 3) _ _ tt (
          if-Fueled (o == 4) _ _ tt (
            if-Fueled (o == 5) _ _ tt
              (if-Fueled (o == 6) _ _ tt (if-Fueled (o == 7) _ _ tt (λ e. cc))))))))

pub conjunction_op-Fueled : (o : ℕ) → Fueled (conjunction_op o)
unfolding conjunction_op
conjunction_op-Fueled o = if-Fueled (o == 1) _ _ tt (if-Fueled (o == 2) _ _ tt (λ e. cc))
