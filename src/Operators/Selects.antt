-- ===== src/Operators/Selects.antt =====
-- The shape that the loops of mutator/statement/remove.go and mutator/distributed/readzero.go have:
-- one mutation for each statement of a list that is wanted.
use mutation_framework.Base.{ℕ, suc, List, [], ◌∷◌}

-- The items of the second list belong to the items of the first that satisfy P, one to each, in
-- order. R relates an item that is selected, with its index, to the one that belongs to it.
pub data Selects {ℓ κ μ ν} {A : Type ℓ} {B : Type κ} (P : A → Type μ) (R : ℕ → A → B → Type ν)
    : ℕ → List A → List B → Type (ℓ ⊔ κ ⊔ μ ⊔ ν) where
  nothing : {i : ℕ} → Selects P R i [] []
  selected :
      {i : ℕ} {x : A} {y : B} {xs : List A} {ys : List B}
      → P x
      → R i x y
      → Selects P R (suc i) xs ys
      → Selects P R i (x ∷ xs) (y ∷ ys)
  passed :
      {i : ℕ} {x : A} {xs : List A} {ys : List B}
      → ¬ (P x)
      → Selects P R (suc i) xs ys
      → Selects P R i (x ∷ xs) ys
