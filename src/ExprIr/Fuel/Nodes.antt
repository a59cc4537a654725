-- ===== src/ExprIr/Fuel/Nodes.antt =====
-- rust/expr_ir.rs: the nodes, over a parser of subexpressions that has fuel for what is shorter than
-- the node.
use lance_duckdb.Common.{
  ℕ, zero, suc, ◌-◌, ◌≤◌, Bytes, false, not, [], ◌∷◌, length, ◌==◌, bit_and, Result, arith,
}
use lance_duckdb.Wire.Reader.{
  ParseError, read_u8, read_u32, read_len_prefixed_bytes, read_string, no_children, no_branches,
  bad_regexp,
}
use lance_duckdb.ExprIr.Types.{Expr, Operator}
use lance_duckdb.ExprIr.Parser.{
  Session, parse_type, binary_op, comparison_op, conjunction_op, resolve_scalar_function,
  string_literal, regexp_options, match_pattern, parse_child, parse_children, parse_conjuncts,
  parse_checks, parse_cast, parse_binary, parse_conjunction, parse_unary, parse_function,
  parse_else, parse_case, parse_in_list, parse_escape, parse_like, parse_options, parse_regexp,
  parse_tagged, parse_node,
}
use lance_duckdb.ExprIr.Fuel.{Safe, Fueled, bind-Safe, then-Safe, throw_if-Safe, if-Safe, bind-Cut}
use lance_duckdb.ExprIr.Fuel.Readers.{read_u8-Safe, read_u32-Safe, read_string-Safe}
use lance_duckdb.ExprIr.Fuel.Leaves.{
  parse_literal-Safe, parse_type-Safe, parse_column_ref-Safe, binary_op-Fueled,
  comparison_op-Fueled, conjunction_op-Fueled,
}
use lance_duckdb.ExprIr.Fuel.Calls.{
  resolve-Fueled, string_literal-Fueled, regexp_options-Fueled, match_pattern-Fueled,
  read_len_prefixed_bytes-Cut,
}

module _ (session : Session) (sub : Bytes → Result ParseError Expr) (n : ℕ)
    (fueled : (bs : Bytes) → length bs ≤ n → Fueled (sub bs)) where
  child-Safe : (bs : Bytes) → length bs ≤ n → Safe n (parse_child session sub bs)
  unfolding parse_child
  child-Safe bs h =
      bind-Cut n (read_len_prefixed_bytes bs) _ (read_len_prefixed_bytes-Cut n bs h)
        (λ raw rest k l. then-Safe n (sub raw) _ (fueled raw k) (λ e. l))

  children-Safe :
      (count : ℕ) (bs : Bytes) → length bs ≤ n → Safe n (parse_children session sub count bs)
  unfolding parse_children
  children-Safe zero bs h = h
  children-Safe (suc count) bs h =
      bind-Safe n (parse_child session sub bs) _ (child-Safe bs h) λ e bs' k.
        bind-Safe n (parse_children session sub count bs') _ (children-Safe count bs' k)
          (λ es rest l. l)

  conjuncts-Safe :
      (op : Operator) (count : ℕ) (e : Expr) (bs : Bytes)
      → length bs ≤ n
      → Safe n (parse_conjuncts session sub op count e bs)
  unfolding parse_conjuncts
  conjuncts-Safe op zero e bs h = h
  conjuncts-Safe op (suc count) e bs h =
      bind-Safe n (parse_child session sub bs) _ (child-Safe bs h)
        (λ rhs bs' k. conjuncts-Safe op count (Expr.binary e op rhs) bs' k)

  checks-Safe :
      (count : ℕ) (bs : Bytes) → length bs ≤ n → Safe n (parse_checks session sub count bs)
  unfolding parse_checks
  checks-Safe zero bs h = h
  checks-Safe (suc count) bs h =
      bind-Safe n (parse_child session sub bs) _ (child-Safe bs h) λ w bs' k.
        bind-Safe n (parse_child session sub bs') _ (child-Safe bs' k) λ t bs'' l.
          bind-Safe n (parse_checks session sub count bs'') _ (checks-Safe count bs'' l)
            (λ cs rest m. m)

  cast-Safe : (bs : Bytes) → length bs ≤ n → Safe n (parse_cast session sub bs)
  unfolding parse_cast
  cast-Safe bs h =
      bind-Safe n (parse_type bs) _ (parse_type-Safe n bs h)
        λ type bs' k. bind-Safe n (parse_child session sub bs') _ (child-Safe bs' k) (λ e rest l. l)

  binary-Safe :
      (op_of : ℕ → Result ParseError Operator)
      → ((o : ℕ) → Fueled (op_of o))
      → (bs : Bytes) → length bs ≤ n
      → Safe n (parse_binary session sub op_of bs)
  unfolding parse_binary
  binary-Safe op_of known bs h = bind-Safe n (read_u8 bs) _ (read_u8-Safe n bs h) λ o bs' k.
      then-Safe n (op_of o) _ (known o) λ op.
        bind-Safe n (parse_child session sub bs') _ (child-Safe bs' k) λ l bs'' m.
          bind-Safe n (parse_child session sub bs'') _ (child-Safe bs'' m) (λ r rest q. q)

  conjunction-Safe : (bs : Bytes) → length bs ≤ n → Safe n (parse_conjunction session sub bs)
  unfolding parse_conjunction
  conjunction-Safe bs h = bind-Safe n (read_u8 bs) _ (read_u8-Safe n bs h) λ o bs₁ k.
      then-Safe n (conjunction_op o) _ (conjunction_op-Fueled o) λ op.
        bind-Safe n (read_u32 bs₁) _ (read_u32-Safe n bs₁ k) λ count bs₂ l.
          throw_if-Safe n (count == 0) no_children _ (λ e. cc)
            (bind-Safe n (parse_child session sub bs₂) _ (child-Safe bs₂ l)
              (λ first bs₃ m. conjuncts-Safe op (count - 1) first bs₃ m))

  unary-Safe :
      (build : Expr → Expr) (bs : Bytes) → length bs ≤ n → Safe n (parse_unary session sub build bs)
  unfolding parse_unary
  unary-Safe build bs h =
      bind-Safe n (parse_child session sub bs) _ (child-Safe bs h) (λ e rest k. k)

  function-Safe : (bs : Bytes) → length bs ≤ n → Safe n (parse_function session sub bs)
  unfolding parse_function
  function-Safe bs h = bind-Safe n (read_string bs) _ (read_string-Safe n bs h) λ name bs₁ k.
      bind-Safe n (read_u32 bs₁) _ (read_u32-Safe n bs₁ k) λ count bs₂ l.
        bind-Safe n (parse_children session sub count bs₂) _ (children-Safe count bs₂ l)
          λ args rest m.
            then-Safe n (resolve_scalar_function session name) _ (resolve-Fueled session name)
              (λ udf. m)

  case-Safe : (bs : Bytes) → length bs ≤ n → Safe n (parse_case session sub bs)
  unfolding parse_case parse_else
  case-Safe bs h = bind-Safe n (read_u32 bs) _ (read_u32-Safe n bs h) λ count bs₁ k.
      throw_if-Safe n (count == 0) no_branches _ (λ e. cc)
        (bind-Safe n (parse_checks session sub count bs₁) _ (checks-Safe count bs₁ k)
          λ checks bs₂ l. bind-Safe n (read_u8 bs₂) _ (read_u8-Safe n bs₂ l) λ has_else bs₃ m.
            if-Safe n (has_else == 0) _ _ m
              (bind-Safe n (parse_child session sub bs₃) _ (child-Safe bs₃ m) (λ e rest q. q)))

  in_list-Safe : (bs : Bytes) → length bs ≤ n → Safe n (parse_in_list session sub bs)
  unfolding parse_in_list
  in_list-Safe bs h = bind-Safe n (read_u8 bs) _ (read_u8-Safe n bs h) λ negated bs₁ k.
      bind-Safe n (parse_child session sub bs₁) _ (child-Safe bs₁ k) λ e bs₂ l.
        bind-Safe n (read_u32 bs₂) _ (read_u32-Safe n bs₂ l) λ count bs₃ m.
          bind-Safe n (parse_children session sub count bs₃) _ (children-Safe count bs₃ m)
            (λ items rest q. q)

  escape-Safe :
      (flags : ℕ) (bs : Bytes) → length bs ≤ n → Safe n (parse_escape session sub flags bs)
  unfolding parse_escape
  escape-Safe flags bs h =
      if-Safe n (bit_and flags 2 == 0) _ _ h
        (bind-Safe n (read_u8 bs) _ (read_u8-Safe n bs h) (λ c rest k. k))

  like-Safe : (bs : Bytes) → length bs ≤ n → Safe n (parse_like session sub bs)
  unfolding parse_like
  like-Safe bs h = bind-Safe n (read_u8 bs) _ (read_u8-Safe n bs h) λ flags bs₁ k.
      bind-Safe n (parse_child session sub bs₁) _ (child-Safe bs₁ k) λ e bs₂ l.
        bind-Safe n (parse_child session sub bs₂) _ (child-Safe bs₂ l) λ p bs₃ m.
          bind-Safe n (parse_escape session sub flags bs₃) _ (escape-Safe flags bs₃ m)
            (λ c rest q. q)

  options-Safe :
      (has_flags : ℕ) (bs : Bytes) → length bs ≤ n → Safe n (parse_options session sub has_flags bs)
  unfolding parse_options
  options-Safe has_flags bs h = if-Safe n (has_flags == 0) _ _ h (
      bind-Safe n (parse_child session sub bs) _ (child-Safe bs h) λ e rest k.
        then-Safe n (string_literal e) _ (string_literal-Fueled e) λ flags.
          then-Safe n (regexp_options false false flags) _ (regexp_options-Fueled false false flags)
            (λ has. k))

  regexp-Safe : (bs : Bytes) → length bs ≤ n → Safe n (parse_regexp session sub bs)
  unfolding parse_regexp
  regexp-Safe bs h = bind-Safe n (read_u8 bs) _ (read_u8-Safe n bs h) λ mode bs₁ k.
      bind-Safe n (read_u8 bs₁) _ (read_u8-Safe n bs₁ k) λ has_flags bs₂ l.
        bind-Safe n (parse_child session sub bs₂) _ (child-Safe bs₂ l) λ value bs₃ m.
          bind-Safe n (parse_child session sub bs₃) _ (child-Safe bs₃ m) λ pattern bs₄ q.
            bind-Safe n (parse_options session sub has_flags bs₄) _ (options-Safe has_flags bs₄ q)
              λ flags rest z.
                then-Safe n (match_pattern mode pattern) _ (match_pattern-Fueled mode pattern)
                  (λ s. throw_if-Safe n (not (session.compiles s flags)) bad_regexp _ (λ e. cc) z)

  tagged-Safe : (tag : ℕ) (bs : Bytes) → length bs ≤ n → Safe n (parse_tagged session sub tag bs)
  unfolding parse_tagged
  tagged-Safe tag bs h = if-Safe n (tag == 1) _ _ (parse_column_ref-Safe n bs h) (
      if-Safe n (tag == 2) _ _ (parse_literal-Safe n bs h) (
        if-Safe n (tag == 3) _ _ (cast-Safe bs h) (
          if-Safe n (tag == 4) _ _ (binary-Safe binary_op binary_op-Fueled bs h) (
            if-Safe n (tag == 5) _ _ (binary-Safe comparison_op comparison_op-Fueled bs h) (
              if-Safe n (tag == 6) _ _ (conjunction-Safe bs h) (
                if-Safe n (tag == 7) _ _ (unary-Safe _ bs h) (
                  if-Safe n (tag == 8) _ _ (function-Safe bs h) (
                    if-Safe n (tag == 9) _ _ (case-Safe bs h) (
                      if-Safe n (tag == 10) _ _ (unary-Safe _ bs h) (
                        if-Safe n (tag == 11) _ _ (unary-Safe _ bs h) (
                          if-Safe n (tag == 12) _ _ (in_list-Safe bs h) (
                            if-Safe n (tag == 13) _ _ (like-Safe bs h)
                              (if-Safe n (tag == 14) _ _ (regexp-Safe bs h) (λ e. cc))))))))))))))

  -- The tag is a byte of the node, so the rest is shorter.
  pub node-Safe : (bs : Bytes) → length bs ≤ suc n → Safe n (parse_node session sub bs)
  unfolding parse_node read_u8
  node-Safe [] h = λ e. cc
  node-Safe (tag ∷ rest) h = tagged-Safe tag rest (omega (arith, h))
