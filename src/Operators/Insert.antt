-- ===== src/Operators/Insert.antt =====
-- createMutant of mutator/distributed/readzero.go: append, shift by copy and write insert a
-- statement.
use mutation_framework.Base.{ℕ, zero, suc, ◌+◌, ◌≤◌, ◌<◌, List, [], ◌∷◌, ◌++◌, ◌≡◌, refl, ap, arith}
use mutation_framework.Base.{length, take, drop, set, length-append, ◌==◌, Bool-cases}
use mutation_framework.Base.{inl, inr, ==_iff}
use native.Mathlib.Numerals.{add-one}
use mutation_framework.Operators.Distributed.{copy, copy_at, insert_statement}

module _ {ℓ} {A : Type ℓ} where
  copy_shift : (a x : A) (xs : List A) → copy (xs ++ a ∷ []) (x ∷ (xs ++ a ∷ [])) ≡ x ∷ xs
  unfolding copy
  copy_shift a x [] = refl
  copy_shift a x (y ∷ ys) = ap (λ zs. x ∷ zs) (copy_shift a y ys)

  insert_middle :
      (old : List A) (a : A) (i : ℕ)
      → i < length old
      → set (copy_at (suc i) (old ++ a ∷ []) (drop i (old ++ a ∷ []))) i a
        ≡ take i old ++ a ∷ drop i old
  insert_middle [] a i h = elim h [ ]
  insert_middle (x ∷ xs) a zero h = ap (λ zs. a ∷ zs) (copy_shift a x xs)
  insert_middle (x ∷ xs) a (suc i) h = ap (λ zs. x ∷ zs) (insert_middle xs a i (omega arith))

  insert_last :
      (old : List A) (a : A) → old ++ a ∷ [] ≡ take (length old) old ++ a ∷ drop (length old) old
  insert_last [] a = refl
  insert_last (x ∷ xs) a = ap (λ zs. x ∷ zs) (insert_last xs a)

  -- createMutant puts the new statement at the index and keeps all others in their order.
  pub insert_statement_lem :
      (old : List A) (new_assign : A) (index : ℕ)
      → index ≤ length old
      → insert_statement old new_assign index ≡ take index old ++ new_assign ∷ drop index old
  unfolding insert_statement
  insert_statement_lem old a i h = elim (Bool-cases (length (old ++ a ∷ []) == i + 1)) [
    | inl e ↦
        let same : i ≡ length old =
          omega (arith, (==_iff _ _).0 e, length-append {ℓ} old (a ∷ [])) in
        rw (e, same) (insert_last old a)
    | inr e ↦
        rw (e, add-one) (insert_middle old a i (ground (arith, length-append {ℓ} old (a ∷ []))))
  ]
