-- ===== src/ExprIr/Fuel.antt =====
-- rust/expr_ir.rs: the fuel of the model's parser is enough on every input, well formed or not, since
-- each level of the recursion is given fewer bytes than the one above it.
pub mod Readers
pub mod Leaves
pub mod Calls
pub mod Nodes
pub mod Whole
use lance_duckdb.Common.{
  ℕ, ◌≤◌, ◌≡◌, ◌≢◌, refl, Bytes, Bool, true, false, [], ◌∷◌, length, Result, ok, err, ◌>>=◌, ◌>>◌,
  throw_if, or_throw, Option, none, some, if◌then◌else◌,
}
use lance_duckdb.Wire.Reader.{ParseError, Reader, out_of_fuel}

-- An answer that is no lack of fuel, and leaves n bytes at most.
abbrev pub Safe {ℓ} : {A : Type ℓ} → ℕ → Result ParseError (A × Bytes) → Type 0
Safe n (ok (x, rest)) = length rest ≤ n
Safe n (err e) = e ≢ out_of_fuel

-- The same for a function that reads nothing.
abbrev pub Fueled {ℓ} : {A : Type ℓ} → Result ParseError A → Type 0
Fueled (ok x) = Unit
Fueled (err e) = e ≢ out_of_fuel

abbrev pub SafeReader {ℓ} : {A : Type ℓ} → Reader A → Type 0
SafeReader r = (n : ℕ) (bs : Bytes) → length bs ≤ n → Safe n (r bs)

pub bind-Safe {ℓ κ} :
    {A : Type ℓ} {B : Type κ} (n : ℕ) (m : Result ParseError (A × Bytes))
    (f : A × Bytes → Result ParseError (B × Bytes))
    → Safe n m
    → ((x : A) (rest : Bytes) → length rest ≤ n → Safe n (f (x, rest)))
    → Safe n (m >>= f)
bind-Safe n (ok (x, rest)) f h k = k x rest h
bind-Safe n (err e) f h k = h

pub then-Safe {ℓ κ} :
    {A : Type ℓ} {B : Type κ} (n : ℕ) (m : Result ParseError A)
    (f : A → Result ParseError (B × Bytes))
    → Fueled m
    → ((x : A) → Safe n (f x))
    → Safe n (m >>= f)
then-Safe n (ok x) f h k = k x
then-Safe n (err e) f h k = h

pub bind-Fueled {ℓ κ} :
    {A : Type ℓ} {B : Type κ} (m : Result ParseError A) (f : A → Result ParseError B)
    → Fueled m
    → ((x : A) → Fueled (f x))
    → Fueled (m >>= f)
bind-Fueled (ok x) f h k = k x
bind-Fueled (err e) f h k = h

pub throw_if-Safe {ℓ} :
    {B : Type ℓ} (n : ℕ) (b : Bool) (e : ParseError) (k : Result ParseError (B × Bytes))
    → e ≢ out_of_fuel
    → Safe n k
    → Safe n (throw_if b e >> k)
throw_if-Safe n true e k h s = h
throw_if-Safe n false e k h s = s

pub if-Safe {ℓ} :
    {A : Type ℓ} (n : ℕ) (b : Bool) (x y : Result ParseError (A × Bytes))
    → Safe n x
    → Safe n y
    → Safe n (if b then x else y)
if-Safe n true x y h k = h
if-Safe n false x y h k = k

pub if-Fueled {ℓ} :
    {A : Type ℓ} (b : Bool) (x y : Result ParseError A)
    → Fueled x
    → Fueled y
    → Fueled (if b then x else y)
if-Fueled true x y h k = h
if-Fueled false x y h k = k

pub or_throw-Fueled {ℓ} :
    {A : Type ℓ} (o : Option A) (e : ParseError) → e ≢ out_of_fuel → Fueled (or_throw o e)
or_throw-Fueled none e h = h
or_throw-Fueled (some x) e h = tt

-- A byte string that was cut off, and the rest.
abbrev pub Cut : ℕ → Result ParseError (Bytes × Bytes) → Type 0
Cut n (ok (raw, rest)) = (length raw ≤ n) × (length rest ≤ n)
Cut n (err e) = e ≢ out_of_fuel

pub bind-Cut {ℓ} :
    {B : Type ℓ} (n : ℕ) (m : Result ParseError (Bytes × Bytes))
    (f : Bytes × Bytes → Result ParseError (B × Bytes))
    → Cut n m
    → ((raw rest : Bytes) → length raw ≤ n → length rest ≤ n → Safe n (f (raw, rest)))
    → Safe n (m >>= f)
bind-Cut n (ok (raw, rest)) f (h, h') k = k raw rest h h'
bind-Cut n (err e) f h k = h
