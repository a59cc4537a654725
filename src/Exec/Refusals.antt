-- ===== src/Exec/Refusals.antt =====
-- What it means that a step of src/lance_exec_ir.cpp answers true.
use lance_duckdb.Common.{◌≡◌, refl, Bool, Option, none, some, ok, err, ◌>>=◌}
use lance_duckdb.Exec.Types.{declined, Attempt, attempt}
use lance_duckdb.Exec.Aggregates.{or_refuse}

pub or_refuse-ok {ℓ κ} :
    {A : Type ℓ} {B : Type κ} (failfast : Bool) (m : Attempt A) (f : A → Attempt B) {r : B}
    → (or_refuse failfast m >>= f) ≡ ok r
    → (x : A) × (m ≡ ok x) × (f x ≡ ok r)
or_refuse-ok failfast (ok x) f h = (x, refl, h)
or_refuse-ok failfast (err declined) f h = cc
or_refuse-ok failfast (err _) f h = cc

pub attempt_inv : {A : Type 0} (o : Option A) {x : A} → attempt o ≡ ok x → o ≡ some x
attempt_inv none h = cc
attempt_inv (some x) h = cc
