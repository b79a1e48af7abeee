-- ===== src/MutantNames/Laws.antt =====
-- The names of the mutants tell them apart.
use mutation_framework.Base.{
  ℕ, zero, suc, ◌+◌, ◌*◌, ◌-◌, ◌/◌, ◌%◌, ◌≤◌, ◌<◌, false, [], ◌∷◌, ◌++◌, ◌≡◌, ◌≢◌, refl, subst, ap,
  sym, ◌∙◌, arith, ltb, Bool-cases, inl, inr, All,
}
use mutation_framework.Base.Text.{Text}
use mutation_framework.MutantNames.{digits, decimal, safe_mutation_name, build_mutant_name}

-- The number that a text of digits stands for, behind the digits read before.
read : ℕ → Text → ℕ
read acc [] = acc
read acc (c ∷ s) = read (acc * 10 + (c - b'0')) s

not_small : (n : ℕ) → ltb n 10 ≡ false → 10 ≤ n
not_small n h = ground arith

read-digits : (f n : ℕ) (s : Text) → n < f → read 0 (digits f n s) ≡ read n s
unfolding digits read
read-digits zero n s h = omega (arith, h)
read-digits (suc f) n s h = elim (Bool-cases (ltb n 10)) [
  | inl e ↦ rw e (ap (λ m. read m s) (omega arith))
  | inr e ↦ rw e (
      read-digits f (n / 10) ((b'0' + n % 10) ∷ s) (omega (arith, h, not_small n e))
      ∙ ap (λ m. read m s) (omega arith))
]

abbrev NoDot : ℕ → Type 0
NoDot c = c ≢ b'.'

digits-NoDot : (f n : ℕ) (s : Text) → All NoDot s → All NoDot (digits f n s)
unfolding digits
digits-NoDot zero n s h = h
digits-NoDot (suc f) n s h = elim (Bool-cases (ltb n 10)) [
  | inl e ↦ rw e (omega arith, h)
  | inr e ↦ rw e (digits-NoDot f (n / 10) ((b'0' + n % 10) ∷ s) (omega arith, h))
]

dot_inside : {A : Type 0} (t e : Text) → All NoDot (t ++ b'.' ∷ e) → A
dot_inside [] e (h, hs) = elim (h refl) [ ]
dot_inside (c ∷ t) e (h, hs) = dot_inside t e hs

-- A text ends at its last dot in one way.
last_dot :
    (s t d e : Text) → All NoDot d → All NoDot e → s ++ b'.' ∷ d ≡ t ++ b'.' ∷ e → (s ≡ t) × (d ≡ e)
last_dot [] [] d e hd he h = (refl, cc)
last_dot [] (c ∷ t) d e hd he h = dot_inside t e (subst (All NoDot) (tails h) hd)
  where
    tails : b'.' ∷ d ≡ c ∷ (t ++ b'.' ∷ e) → d ≡ t ++ b'.' ∷ e
    tails h = cc
last_dot (c ∷ s) [] d e hd he h = dot_inside s d (subst (All NoDot) (tails h) he)
  where
    tails : c ∷ (s ++ b'.' ∷ d) ≡ b'.' ∷ e → e ≡ s ++ b'.' ∷ d
    tails h = cc
last_dot (c ∷ s) (b ∷ t) d e hd he h = go (last_dot s t d e hd he (tails h))
  where
    tails : c ∷ (s ++ b'.' ∷ d) ≡ b ∷ (t ++ b'.' ∷ e) → s ++ b'.' ∷ d ≡ t ++ b'.' ∷ e
    tails h = cc

    go : (s ≡ t) × (d ≡ e) → (c ∷ s ≡ b ∷ t) × (d ≡ e)
    go (same, rest) = (cc, rest)

cancel : (f s t : Text) → f ++ s ≡ f ++ t → s ≡ t
cancel [] s t h = h
cancel (c ∷ f) s t h = cancel f s t (tails h)
  where
    tails : c ∷ (f ++ s) ≡ c ∷ (f ++ t) → f ++ s ≡ f ++ t
    tails h = cc

decimal-injective : (m n : ℕ) → decimal m ≡ decimal n → m ≡ n
unfolding decimal read
decimal-injective m n h =
    sym (read-digits (suc m) m [] (omega arith))
    ∙ ap (read 0) h
    ∙ read-digits (suc n) n [] (omega arith)

decimal-NoDot : (n : ℕ) → All NoDot (decimal n)
unfolding decimal
decimal-NoDot n = digits-NoDot (suc n) n [] tt

-- Two mutants of one file have the same name only if they have the same number and their
-- operators' names differ at most in slashes and hyphens.
pub build_mutant_name-injective :
    (operator other file : Text) (id id' : ℕ)
    → build_mutant_name operator file id ≡ build_mutant_name other file id'
    → (safe_mutation_name operator ≡ safe_mutation_name other) × (id ≡ id')
unfolding build_mutant_name
build_mutant_name-injective operator other file id id' h = go (
    last_dot (safe_mutation_name operator) (safe_mutation_name other) (decimal id) (decimal id')
      (decimal-NoDot id) (decimal-NoDot id')
      (cancel (b'.' ∷ []) (safe_mutation_name operator ++ b'.' ∷ decimal id)
        (safe_mutation_name other ++ b'.' ∷ decimal id')
        (cancel file (b'.' ∷ (safe_mutation_name operator ++ b'.' ∷ decimal id))
          (b'.' ∷ (safe_mutation_name other ++ b'.' ∷ decimal id')) h)))
  where
    go :
        (safe_mutation_name operator ≡ safe_mutation_name other) × (decimal id ≡ decimal id')
        → (safe_mutation_name operator ≡ safe_mutation_name other) × (id ≡ id')
    go (same, number) = (same, decimal-injective id id' number)
