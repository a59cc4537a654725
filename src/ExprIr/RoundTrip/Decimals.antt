-- ===== src/ExprIr/RoundTrip/Decimals.antt =====
-- The number that the text of a decimal is: a description of its own of what EncodeLiteral of
-- src/lance_expr_ir.cpp reads, by the digits before the dot and the digits behind it.
use lance_duckdb.Common.{
  ℕ, zero, suc, ◌+◌, ◌-◌, ◌≡◌, refl, sym, ap, ◌∙◌, Bytes, Bool-cases, true, false, [], ◌∷◌, length,
  ltb, leb, ◌==◌, ◌||◌, if◌then◌else◌, inl, inr, ok, err, >>=-eq-ok, ok-injective, Exception,
  Result, arith,
}
use lance_duckdb.Common.Int.{ℤ, pos}
use lance_duckdb.ExprIr.Types.{DuckDb}
use lance_duckdb.ExprIr.Literals.{
  DecimalScan, scan_char, scan_decimal, pad_decimal, decimal_digits, decimal_value,
}

unfoldable pub before_dot : Bytes → Bytes
before_dot [] = []
before_dot (c ∷ text) = if c == b'.' then [] else c ∷ before_dot text

unfoldable pub after_dot : Bytes → Bytes
after_dot [] = []
after_dot (c ∷ text) = if c == b'.' then text else after_dot text

module _ (db : DuckDb) where
  -- The digits, from the left, by hugeint_t's arithmetic.
  unfoldable pub digits : ℤ → Bytes → ℤ
  digits acc [] = acc
  digits acc (c ∷ text) = digits (db.hugeint_add (db.hugeint_mul acc (pos 10)) (pos (c - 48))) text

  unfoldable pub times_ten : ℕ → ℤ → ℤ
  times_ten zero z = z
  times_ten (suc n) z = times_ten n (db.hugeint_mul z (pos 10))

  -- All digits, as if there were as many behind the dot as the scale says.
  unfoldable pub unscaled : ℕ → Bytes → ℤ
  unscaled scale text =
      times_ten (scale - length (after_dot text))
        (digits (digits (pos 0) (before_dot text)) (after_dot text))

  unfoldable pub decimal_number : ℕ → Bytes → ℤ
  decimal_number scale [] = unscaled scale []
  decimal_number scale (c ∷ text) =
      if c == b'-'
      then db.hugeint_neg (unscaled scale text)
      else if c == b'+'
      then unscaled scale text
      else unscaled scale (c ∷ text)

  pad-times_ten : (n : ℕ) (z : ℤ) → pad_decimal db n z ≡ times_ten n z
  unfolding pad_decimal times_ten
  pad-times_ten zero z = refl
  pad-times_ten (suc n) z = pad-times_ten n (db.hugeint_mul z (pos 10))

  next : ℤ → ℕ → ℤ
  next acc c = db.hugeint_add (db.hugeint_mul acc (pos 10)) (pos (c - 48))

  -- One byte behind the dot, and one before it.
  char-behind :
      (scale c frac : ℕ) (acc : ℤ) {s : DecimalScan}
      → scan_char db scale c (record { acc = acc; seen_dot = true; frac_digits = frac }) ≡ ok s
      → s ≡ record { acc = next acc c; seen_dot = true; frac_digits = frac + 1 }
  unfolding scan_char next
  char-behind scale c frac acc h = elim (Bool-cases (c == b'.')) [
    | inl t ↦ let h' : ◌≡◌ {A = Result Exception DecimalScan} (err _) (ok _) = rw t at h in cc
    | inr f ↦ elim (Bool-cases (ltb c b'0' || ltb b'9' c)) [
      | inl t ↦
          let h' : ◌≡◌ {A = Result Exception DecimalScan} (err _) (ok _) = rw (f, t) at h in cc
      | inr f' ↦ elim (Bool-cases (leb scale frac)) [
        | inl t ↦
            let h' : ◌≡◌ {A = Result Exception DecimalScan} (err _) (ok _) = rw (f, f', t) at h in
            cc
        | inr f'' ↦ ok-injective (sym (rw (f, f', f'') at h))
      ]
    ]
  ]

  char-before :
      (scale c frac : ℕ) (acc : ℤ) {s : DecimalScan}
      → (c == b'.') ≡ false
      → scan_char db scale c (record { acc = acc; seen_dot = false; frac_digits = frac }) ≡ ok s
      → s ≡ record { acc = next acc c; seen_dot = false; frac_digits = frac }
  unfolding scan_char next
  char-before scale c frac acc f h = elim (Bool-cases (ltb c b'0' || ltb b'9' c)) [
    | inl t ↦ let h' : ◌≡◌ {A = Result Exception DecimalScan} (err _) (ok _) = rw (f, t) at h in cc
    | inr f' ↦ ok-injective (sym (rw (f, f') at h))
  ]

  behind-digits :
      (scale frac : ℕ) (acc : ℤ) (text : Bytes) {s : DecimalScan}
      → scan_decimal db scale text (record { acc = acc; seen_dot = true; frac_digits = frac })
        ≡ ok s
      → (s.acc ≡ digits acc text) × (s.frac_digits ≡ frac + length text)
  unfolding scan_decimal digits next
  behind-digits scale frac acc [] h = rw (← ok-injective h) (refl, omega arith)
  behind-digits scale frac acc (c ∷ text) h =
      let (s₁, first, rest) =
        >>=-eq-ok (scan_char db scale c (record { acc = acc; seen_dot = true; frac_digits = frac }))
          _ h in
      let (same, few) =
        behind-digits scale (frac + 1) (next acc c) text
          (rw (char-behind scale c frac acc first) at rest) in
      (same, omega (arith, few))

  dot :
      (scale c : ℕ) (acc : ℤ)
      → (c == b'.') ≡ true
      → scan_char db scale c (record { acc = acc; seen_dot = false; frac_digits = 0 })
        ≡ ok (record { acc = acc; seen_dot = true; frac_digits = 0 })
  unfolding scan_char
  dot scale c acc t = rw t refl

  before-digits :
      (scale : ℕ) (acc : ℤ) (text : Bytes) {s : DecimalScan}
      → scan_decimal db scale text (record { acc = acc; seen_dot = false; frac_digits = 0 }) ≡ ok s
      → (s.acc ≡ digits (digits acc (before_dot text)) (after_dot text))
        × (s.frac_digits ≡ length (after_dot text))
  unfolding scan_decimal before_dot after_dot digits next
  before-digits scale acc [] h = rw (← ok-injective h) (refl, refl)
  before-digits scale acc (c ∷ text) h = elim (Bool-cases (c == b'.')) [
    | inl t ↦
        let (same, few) = behind-digits scale 0 acc text (rw (dot scale c acc t) at h) in
        rw t (same, few ∙ (omega arith))
    | inr f ↦
        let (s₁, first, rest) =
          >>=-eq-ok (scan_char db scale c (record { acc = acc; seen_dot = false; frac_digits = 0 }))
            _ h in
        rw f
          (before-digits scale (next acc c) text (rw (char-before scale c 0 acc f first) at rest))
  ]

  digits-unscaled :
      (scale : ℕ) (text : Bytes) {z : ℤ}
      → decimal_digits db scale text ≡ ok z
      → z ≡ unscaled scale text
  unfolding decimal_digits unscaled
  digits-unscaled scale text h =
      let (s, scanned, e) = >>=-eq-ok (scan_decimal db scale text _) _ h in
      let (same, few) = before-digits scale (pos 0) text scanned in
      sym (ok-injective e)
      ∙ pad-times_ten (scale - s.frac_digits) s.acc
      ∙ ap (λ n. times_ten (scale - n) s.acc) few
      ∙ ap (times_ten (scale - length (after_dot text))) same

  -- The text that is read is that number.
  pub decimal_value-decimal_number :
      (scale : ℕ) (text : Bytes) {z : ℤ}
      → decimal_value db scale text ≡ ok z
      → z ≡ decimal_number scale text
  unfolding decimal_value decimal_number
  decimal_value-decimal_number scale [] h = digits-unscaled scale [] h
  decimal_value-decimal_number scale (c ∷ text) h = elim (Bool-cases (c == b'-')) [
    | inl minus ↦
        let (acc, e, k) = >>=-eq-ok (decimal_digits db scale text) _ (rw minus at h) in
        rw minus (sym (ok-injective k) ∙ ap db.hugeint_neg (digits-unscaled scale text e))
    | inr f ↦ elim (Bool-cases (c == b'+')) [
      | inl plus ↦ rw (f, plus) (digits-unscaled scale text (rw (f, plus) at h))
      | inr f' ↦ rw (f, f') (digits-unscaled scale (c ∷ text) (rw (f, f') at h))
    ]
  ]
