-- ===== src/Filter/Attempts.antt =====
-- What a step that did not decline says.
use lance_duckdb.Common.{◌≡◌, refl, Bool, true, false, Option, none, some, ok, ◌>>◌}
use lance_duckdb.Filter.Types.{Attempt, attempt, require}

pub attempt-ok {ℓ} : {A : Type ℓ} (o : Option A) {a : A} → attempt o ≡ ok a → o ≡ some a
attempt-ok none h = cc
attempt-ok (some x) h = cc

pub require-ok {ℓ} :
    {A : Type ℓ} (b : Bool) (k : Attempt A) {a : A}
    → (require b >> k) ≡ ok a
    → (b ≡ true) × (k ≡ ok a)
require-ok true k h = (refl, h)
require-ok false k h = cc
