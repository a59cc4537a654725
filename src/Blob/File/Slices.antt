-- ===== src/Blob/File/Slices.antt =====
-- Slices of byte strings.
use lance_duckdb.Common.{
  ℕ, zero, suc, ◌+◌, ◌≤◌, ◌≡◌, refl, ap, sym, ◌∙◌, List, [], ◌∷◌, length, take, drop, length-take,
  length-drop, arith,
}

module _ {ℓ} {A : Type ℓ} where
  drop_nil : (k : ℕ) → drop {A = A} k [] ≡ []
  drop_nil zero = refl
  drop_nil (suc k) = refl

  pub drop-drop : (k m : ℕ) (xs : List A) → drop k (drop m xs) ≡ drop (m + k) xs
  drop-drop k zero xs = ap (λ (n : ℕ). drop n xs) (omega arith)
  drop-drop k (suc m) [] = drop_nil k ∙ sym (drop_nil (suc m + k))
  drop-drop k (suc m) (x ∷ xs) = drop-drop k m xs ∙ ap (λ (n : ℕ). drop n (x ∷ xs)) (succ_first m k)
    where
      succ_first : (m k : ℕ) → suc (m + k) ≡ suc m + k
      succ_first m k = omega arith

  -- A slice that lies in the first n.
  pub take-drop-take :
      (n k c : ℕ) (xs : List A) → k + c ≤ n → take c (drop k (take n xs)) ≡ take c (drop k xs)
  take-drop-take zero zero zero xs h = refl
  take-drop-take zero (suc k) c xs h = absurd (omega arith)
  take-drop-take zero zero (suc c) xs h = absurd (omega arith)
  take-drop-take (suc n) zero zero xs h = refl
  take-drop-take (suc n) zero (suc c) [] h = refl
  take-drop-take (suc n) zero (suc c) (x ∷ xs) h =
      ap (◌∷◌ x) (take-drop-take n zero c xs (omega arith))
  take-drop-take (suc n) (suc k) c [] h = refl
  take-drop-take (suc n) (suc k) c (x ∷ xs) h = take-drop-take n k c xs (omega arith)

  pub length-slice : (c k : ℕ) (xs : List A) → k + c ≤ length xs → length (take c (drop k xs)) ≡ c
  length-slice c k xs h = omega (arith, length-take c (drop k xs), length-drop k xs)

  pub take_all : (n : ℕ) (xs : List A) → length xs ≡ n → take n xs ≡ xs
  take_all zero [] h = refl
  take_all zero (x ∷ xs) h = absurd (omega arith)
  take_all (suc n) [] h = refl
  take_all (suc n) (x ∷ xs) h = ap (◌∷◌ x) (take_all n xs (omega arith))
