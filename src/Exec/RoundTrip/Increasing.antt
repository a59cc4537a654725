-- ===== src/Exec/RoundTrip/Increasing.antt =====
-- The scan's columns are a sorted set.
use lance_duckdb.Common.{ℕ, ◌<◌, ◌≡◌, List, [], ◌∷◌, All}

-- Each column greater than the one before.
unfoldable pub Increasing : List ℕ → Type 0
Increasing [] = Unit
Increasing (i ∷ is) = All (λ j. i < j) is × Increasing is

-- No column twice, in any order.
unfoldable pub Distinct : List ℕ → Type 0
Distinct [] = Unit
Distinct (i ∷ is) = All (λ j. ¬ (i ≡ j)) is × Distinct is
