-- ===== src/Config/Expand/Pieces.antt =====
-- The pieces of a path in the expansion of wild cards (cmd/mutation-framework/config.go), and runs
-- one after the other.
use mutation_framework.Base.{
  ℕ, zero, suc, ◌<◌, ◌≤◌, List, [], ◌∷◌, ◌++◌, some, length, get_elem?, set, Result, ok, panic,
  out_of_fuel, ◌>>=◌, Returns, ◌≡◌, refl, ap, sym, ◌∙◌, arith, append_assoc,
}
use mutation_framework.Base.Text.{Text}
use mutation_framework.Paths.{slash, get_current_path, get_parent_path}
use mutation_framework.Config.Expand.{drop_last}

pub Returns-bind :
    {A B : Type 0} (P : A → Type 0) (Q : B → Type 0) (r : Result A) (f : A → Result B)
    → Returns P r
    → ((a : A) → P a → Returns Q (f a))
    → Returns Q (r >>= f)
Returns-bind P Q (ok a) f h k = k a h
Returns-bind P Q panic f h k = elim h [ ]
Returns-bind P Q out_of_fuel f h k = elim h [ ]

pub length-set : {A : Type 0} (xs : List A) (i : ℕ) (v : A) → length (set xs i v) ≡ length xs
length-set [] i v = refl
length-set (x ∷ xs) zero v = refl
length-set (x ∷ xs) (suc i) v = ap suc (length-set xs i v)

pub get_elem?-set :
    {A : Type 0} (xs : List A) (i : ℕ) (v : A) → i < length xs → get_elem? (set xs i v) i ≡ some v
get_elem?-set [] i v h = elim none_left [ ]
  where
    none_left : ⊥
    none_left = omega (arith, h)
get_elem?-set (x ∷ xs) zero v h = refl
get_elem?-set (x ∷ xs) (suc i) v h = get_elem?-set xs i v (omega (arith, h))

-- A path of the form that getCurrentPath gives.
abbrev pub Slashed : Text → Type 0
Slashed path = (front : Text) × (path ≡ front ++ slash ∷ [])

pub get_current_path-Slashed :
    (i : ℕ) (pieces : List Text) → i < length pieces → Returns Slashed (get_current_path i pieces)
unfolding get_current_path
get_current_path-Slashed i [] h = omega (arith, h)
get_current_path-Slashed zero (piece ∷ pieces) h = (piece, refl)
get_current_path-Slashed (suc i) (piece ∷ pieces) h =
    go (get_current_path i pieces) (get_current_path-Slashed i pieces (omega (arith, h)))
  where
    go :
        (r : Result Text)
        → Returns Slashed r
        → Returns Slashed (elim r [ ok path ↦ ok (piece ++ slash ∷ path) | other ↦ other ])
    go (ok path) (front, e) = (
      piece ++ slash ∷ front,
      ap (λ t. piece ++ slash ∷ t) e ∙ sym (append_assoc piece (slash ∷ front) (slash ∷ [])),
    )
    go panic e = e
    go out_of_fuel e = e

pub get_parent_path-Returns :
    (pieces : List Text) (i : ℕ)
    → i ≤ length pieces
    → Returns (λ path. Unit) (get_parent_path pieces i)
unfolding get_parent_path
get_parent_path-Returns pieces zero h = tt
get_parent_path-Returns [] (suc i) h = omega (arith, h)
get_parent_path-Returns (piece ∷ pieces) (suc i) h =
    go (get_parent_path pieces i) (get_parent_path-Returns pieces i (omega (arith, h)))
  where
    go :
        (r : Result Text)
        → Returns (λ path. Unit) r
        → Returns (λ path. Unit) (elim r [ ok path ↦ ok (piece ++ slash ∷ path) | other ↦ other ])
    go (ok path) e = tt
    go panic e = e
    go out_of_fuel e = e

pub drop_last-slash : (s : Text) → drop_last (s ++ slash ∷ []) ≡ s
unfolding drop_last
drop_last-slash [] = refl
drop_last-slash (c ∷ []) = refl
drop_last-slash (c ∷ d ∷ s) = ap (λ t. c ∷ t) (drop_last-slash (d ∷ s))
