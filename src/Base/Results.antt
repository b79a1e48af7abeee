-- ===== src/Base/Results.antt =====
-- A run of the Go program: a value, or a panic (a nil function called, an index out of range).
-- `out_of_fuel` belongs to the model only.
use mathlib.Core.Path.{◌≡◌, refl}

pub data Result {ℓ} (A : Type ℓ) : Type ℓ where
  ok : A → Result A
  panic : Result A
  out_of_fuel : Result A

infixl 5 ◌>>=◌
abbrev pub ◌>>=◌ {ℓ κ} : {A : Type ℓ} {B : Type κ} → Result A → (A → Result B) → Result B
ok a >>= f = f a
panic >>= f = panic
out_of_fuel >>= f = out_of_fuel

-- The run ends with a value of which `P` holds.
abbrev pub Returns {ℓ} : {A : Type ℓ} → (A → Type 0) → Result A → Type 0
Returns P (ok a) = P a
Returns P _ = ⊥

pub Returns-ok {ℓ} :
    {A : Type ℓ} {P : A → Type 0} (r : Result A) → Returns P r → (a : A) × (r ≡ ok a) × P a
Returns-ok (ok a) h = (a, refl, h)
Returns-ok panic h = elim h [ ]
Returns-ok out_of_fuel h = elim h [ ]
