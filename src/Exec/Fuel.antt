-- ===== src/Exec/Fuel.antt =====
-- rust/exec_ir.rs: the fuel of the model's parser is enough on every input, since each level reads a byte.
use lance_duckdb.Common.{
  ℕ, zero, suc, ◌≤◌, ◌<◌, ◌≢◌, Bytes, Bool, true, false, not, [], ◌∷◌, length, bytes_eq, ltb, ◌==◌,
  ◌||◌, Result, ok, err, ◌>>=◌, ◌>>◌, throw_if, arith,
}
use lance_duckdb.Wire.Reader.{
  ParseError, Reader, out_of_fuel, bad_version, magic_mismatch, trailing_bytes, read_u8, read_u32,
  read_u64, read_i64, read_i128, read_bytes, read_string,
}
use lance_duckdb.ExprIr.Fuel.{Safe, Fueled, SafeReader, bind-Safe, then-Safe, if-Safe, if-Fueled}
use lance_duckdb.ExprIr.Fuel.Readers.{
  read_u8-Safe, read_u32-Safe, read_u64-Safe, read_i64-Safe, read_i128-Safe, read_bytes-Safe,
  read_string-Safe,
}
use lance_duckdb.Exec.Types.{ExprIr}
use lance_duckdb.Exec.Message.{exec_magic}
use lance_duckdb.Exec.Parser.{
  hint_of_tag, parse_output_type_hint, literal_of_tag, parse_literal_ir, op_of_tag, parse_binary_op,
  node_of_tag, parse_expr_node, parse_expr_ir_fuel, parse_exec_expr, read_times, read_counted,
  parse_group, agg_func, parse_hint_if, parse_agg, parse_order, read_if, parse_exec_ir_v1,
}

hint_of_tag-Safe : (tag : ℕ) → SafeReader (hint_of_tag tag)
unfolding hint_of_tag
hint_of_tag-Safe tag n bs h = if-Safe n (tag == 1) _ _ h (
    if-Safe n (tag == 2) _ _ h (
      if-Safe n (tag == 3) _ _ h (
        if-Safe n (tag == 4) _ _ h (
          if-Safe n (tag == 5) _ _ h (
            if-Safe n (tag == 6) _ _ h (
              if-Safe n (tag == 7) _ _
                (bind-Safe n (read_u8 bs) _ (read_u8-Safe n bs h)
                  λ p rest k. bind-Safe n (read_u8 rest) _ (read_u8-Safe n rest k) (λ s rest' l. l))
                (λ e. cc)))))))

hint-Safe : SafeReader parse_output_type_hint
unfolding parse_output_type_hint
hint-Safe n bs h =
    bind-Safe n (read_u8 bs) _ (read_u8-Safe n bs h) (λ tag rest k. hint_of_tag-Safe tag n rest k)

literal_of_tag-Safe : (tag : ℕ) → SafeReader (literal_of_tag tag)
unfolding literal_of_tag
literal_of_tag-Safe tag n bs h = if-Safe n (tag == 0) _ _ h (
    if-Safe n (tag == 1) _ _ (bind-Safe n (read_i64 bs) _ (read_i64-Safe n bs h) (λ x rest k. k)) (
      if-Safe n (tag == 2) _ _ (bind-Safe n (read_u64 bs) _ (read_u64-Safe n bs h) (λ x rest k. k))
        (if-Safe n (tag == 3) _ _ (bind-Safe n (read_u8 bs) _ (read_u8-Safe n bs h) (λ x rest k. k))
          (if-Safe n (tag == 4) _ _
            (bind-Safe n (read_string bs) _ (read_string-Safe n bs h) (λ x rest k. k))
            (if-Safe n (tag == 5) _ _
              (bind-Safe n (read_u8 bs) _ (read_u8-Safe n bs h) λ p rest k.
                bind-Safe n (read_u8 rest) _ (read_u8-Safe n rest k) λ s rest' l.
                  bind-Safe n (read_i128 rest') _ (read_i128-Safe n rest' l) (λ v rest'' m. m))
              (λ e. cc))))))

op_of_tag-Safe : (tag : ℕ) → SafeReader (op_of_tag tag)
unfolding op_of_tag
op_of_tag-Safe tag n bs h =
    if-Safe n (tag == 1) _ _ h (
      if-Safe n (tag == 2) _ _ h
        (if-Safe n (tag == 3) _ _ h (if-Safe n (tag == 4) _ _ h (λ e. cc))))

literal-Safe : SafeReader parse_literal_ir
unfolding parse_literal_ir
literal-Safe n bs h =
    bind-Safe n (read_u8 bs) _ (read_u8-Safe n bs h)
      (λ tag rest k. literal_of_tag-Safe tag n rest k)

op-Safe : SafeReader parse_binary_op
unfolding parse_binary_op
op-Safe n bs h =
    bind-Safe n (read_u8 bs) _ (read_u8-Safe n bs h) (λ tag rest k. op_of_tag-Safe tag n rest k)

node-Safe :
    (operand : Reader ExprIr) (n : ℕ)
    → ((bs : Bytes) → length bs ≤ n → Safe n (operand bs))
    → (tag : ℕ) (bs : Bytes) → length bs ≤ n
    → Safe n (node_of_tag operand tag bs)
unfolding node_of_tag
node-Safe operand n sub tag bs h =
    if-Safe n (tag == 1) _ _
      (bind-Safe n (read_string bs) _ (read_string-Safe n bs h) (λ x rest k. k))
      (if-Safe n (tag == 2) _ _
        (bind-Safe n (parse_literal_ir bs) _ (literal-Safe n bs h) (λ x rest k. k))
        (if-Safe n (tag == 3) _ _
          (bind-Safe n (parse_binary_op bs) _ (op-Safe n bs h) λ op rest k.
            bind-Safe n (operand rest) _ (sub rest k)
              λ lhs rest' l. bind-Safe n (operand rest') _ (sub rest' l) (λ rhs rest'' m. m))
          (if-Safe n (tag == 4) _ _
            (bind-Safe n (parse_output_type_hint bs) _ (hint-Safe n bs h)
              λ to rest k. bind-Safe n (operand rest) _ (sub rest k) (λ e rest' l. l))
            (λ e. cc))))

weaken : {A : Type 0} (m n : ℕ) → m ≤ n → (r : Result ParseError (A × Bytes)) → Safe m r → Safe n r
weaken m n lt (ok (x, rest)) h = omega (arith, lt, h)
weaken m n lt (err e) h = h

expr-Safe :
    (fuel n : ℕ) → n < fuel → (bs : Bytes) → length bs ≤ n → Safe n (parse_expr_ir_fuel fuel bs)
unfolding parse_expr_ir_fuel parse_expr_node read_u8
expr-Safe zero n lt bs h = absurd (omega (arith, lt))
expr-Safe (suc fuel) n lt [] h = λ e. cc
expr-Safe (suc fuel) zero lt (tag ∷ rest) h = absurd (omega (arith, h))
expr-Safe (suc fuel) (suc n) lt (tag ∷ rest) h =
    weaken n (suc n) (omega arith) (node_of_tag (parse_expr_ir_fuel fuel) tag rest) (
      node-Safe (parse_expr_ir_fuel fuel) n (expr-Safe fuel n (omega (arith, lt))) tag rest
        (omega (arith, h)))

exec_expr-Safe : SafeReader parse_exec_expr
unfolding parse_exec_expr
exec_expr-Safe n bs h =
    weaken (length bs) n h (parse_expr_ir_fuel (suc (length bs)) bs)
      (expr-Safe (suc (length bs)) (length bs) (omega arith) bs (omega arith))

times-Safe :
    {A : Type 0} (read : Reader A)
    → SafeReader read
    → (count : ℕ) → SafeReader (read_times read count)
unfolding read_times
times-Safe read r zero n bs h = h
times-Safe read r (suc count) n bs h = bind-Safe n (read bs) _ (r n bs h) λ x rest k.
    bind-Safe n (read_times read count rest) _ (times-Safe read r count n rest k) (λ xs rest' l. l)

counted-Safe : {A : Type 0} (read : Reader A) → SafeReader read → SafeReader (read_counted read)
unfolding read_counted
counted-Safe read r n bs h =
    bind-Safe n (read_u32 bs) _ (read_u32-Safe n bs h)
      (λ count rest k. times-Safe read r count n rest k)

group-Safe : SafeReader parse_group
unfolding parse_group
group-Safe n bs h = bind-Safe n (read_string bs) _ (read_string-Safe n bs h) λ name rest k.
    bind-Safe n (parse_exec_expr rest) _ (exec_expr-Safe n rest k) λ e rest' l.
      bind-Safe n (parse_output_type_hint rest') _ (hint-Safe n rest' l) (λ hint rest'' m. m)

func-Fueled : (tag : ℕ) → Fueled (agg_func tag)
unfolding agg_func
func-Fueled tag = if-Fueled (tag == 1) _ _ tt (
    if-Fueled (tag == 2) _ _ tt (
      if-Fueled (tag == 3) _ _ tt (
        if-Fueled (tag == 4) _ _ tt
          (if-Fueled (tag == 5) _ _ tt (if-Fueled (tag == 6) _ _ tt (λ e. cc))))))

hint_if-Safe : (b : Bool) → SafeReader (parse_hint_if b)
unfolding parse_hint_if
hint_if-Safe false n bs h = h
hint_if-Safe true n bs h =
    bind-Safe n (parse_output_type_hint bs) _ (hint-Safe n bs h) (λ x rest k. k)

agg-Safe : (b : Bool) → SafeReader (parse_agg b)
unfolding parse_agg
agg-Safe b n bs h = bind-Safe n (read_u8 bs) _ (read_u8-Safe n bs h) λ tag rest k.
    then-Safe n (agg_func tag) _ (func-Fueled tag) λ func.
      bind-Safe n (read_string rest) _ (read_string-Safe n rest k) λ name rest₁ l.
        bind-Safe n (read_counted parse_exec_expr rest₁) _
          (counted-Safe parse_exec_expr exec_expr-Safe n rest₁ l)
          λ args rest₂ m.
            bind-Safe n (parse_hint_if b rest₂) _ (hint_if-Safe b n rest₂ m) (λ hint rest₃ o. o)

order-Safe : SafeReader parse_order
unfolding parse_order
order-Safe n bs h = bind-Safe n (read_string bs) _ (read_string-Safe n bs h) λ name rest k.
    bind-Safe n (read_u8 rest) _ (read_u8-Safe n rest k)
      λ asc rest' l. bind-Safe n (read_u8 rest') _ (read_u8-Safe n rest' l) (λ nulls rest'' m. m)

read_if-Safe :
    {A : Type 0} (b : Bool) (read : Reader A) → SafeReader read → SafeReader (read_if b read)
unfolding read_if
read_if-Safe false read r n bs h = h
read_if-Safe true read r n bs h = counted-Safe read r n bs h

-- A reader, and what comes after it.
reads :
    {A B : Type 0} (read : Reader A) (bs : Bytes) (f : A × Bytes → Result ParseError B)
    → SafeReader read
    → ((x : A) (rest : Bytes) → Fueled (f (x, rest)))
    → Fueled (read bs >>= f)
reads {A} read bs f r k = after (read bs) (r (length bs) bs (omega arith))
  where
    after : (m : Result ParseError (A × Bytes)) → Safe (length bs) m → Fueled (m >>= f)
    after (ok (x, rest)) s = k x rest
    after (err e) s = s

guarded :
    {B : Type 0} (b : Bool) (e : ParseError) (k : Result ParseError B)
    → e ≢ out_of_fuel
    → Fueled k
    → Fueled (throw_if b e >> k)
guarded true e k h s = h
guarded false e k h s = s

fueled : {B : Type 0} (m : Result ParseError B) → Fueled m → m ≢ err out_of_fuel
fueled (ok x) h = λ p. cc
fueled (err e) h = λ p. h cc

-- Whatever bytes a message has, parse_exec_ir_v1 does not run out of fuel: it returns a plan or one of the
-- errors of the source.
pub parse_exec_ir_v1_never_out_of_fuel : (bs : Bytes) → parse_exec_ir_v1 bs ≢ err out_of_fuel
unfolding parse_exec_ir_v1
parse_exec_ir_v1_never_out_of_fuel bs = fueled (parse_exec_ir_v1 bs) (
    reads (read_bytes 4) bs _ (read_bytes-Safe 4) λ magic rest₁.
      guarded (not (bytes_eq magic exec_magic)) magic_mismatch _ (λ e. cc)
        (reads read_u32 rest₁ _ read_u32-Safe λ version rest₂.
          guarded (not (version == 1 || version == 2 || version == 3 || version == 4)) bad_version _
            (λ e. cc)
            (reads read_u32 rest₂ _ read_u32-Safe λ flags rest₃.
              reads read_u32 rest₃ _ read_u32-Safe λ filter_len rest₄.
                reads (read_bytes filter_len) rest₄ _ (read_bytes-Safe filter_len)
                  λ filter_ir rest₅.
                    reads (read_counted read_string) rest₅ _
                      (counted-Safe read_string read_string-Safe)
                      λ names rest₆.
                        reads (read_if (not (ltb version 3)) parse_group) rest₆ _
                          (read_if-Safe _ parse_group group-Safe)
                          λ groups rest₇.
                            reads (read_counted (parse_agg (not (ltb version 2)))) rest₇ _
                              (counted-Safe _ (agg-Safe _))
                              λ aggs rest₈.
                                reads (read_if (not (ltb version 3)) parse_order) rest₈ _
                                  (read_if-Safe _ parse_order order-Safe)
                                  λ orders rest₉.
                                    guarded (not (length rest₉ == 0)) trailing_bytes _ (λ e. cc)
                                      tt)))
