-- ===== src/MutantNames/Registered.antt =====
-- The names of the mutants of all registered operators.
use mutation_framework.Base.{
  ◌||◌, ℕ, zero, suc, true, false, List, [], ◌∷◌, some, ◌≡◌, refl, ap, sym, ◌∙◌, map, get_elem?,
  arith,
}
use mutation_framework.Base.Text.{Text, text_mem, text_eq, text_eq_refl}
use mutation_framework.Registry.Laws.{AreDistinct, names}
use mutation_framework.Operators.Init.{all_operators}
use mutation_framework.MutantNames.{safe_mutation_name, build_mutant_name}
use mutation_framework.MutantNames.Laws.{build_mutant_name-injective}

text_mem-get_elem? :
    (ss : List Text) (i : ℕ) (s : Text) → get_elem? ss i ≡ some s → text_mem s ss ≡ true
unfolding text_mem
text_mem-get_elem? [] i s h = cc
text_mem-get_elem? (t ∷ ss) zero s h = head_is (found h) (text_eq_refl s)
  where
    found : some t ≡ some s → s ≡ t
    found h = cc

    head_is : s ≡ t → text_eq s s ≡ true → (text_eq s t || text_mem s ss) ≡ true
    head_is e r = ground (arith, sym (ap (text_eq s) e) ∙ r)
text_mem-get_elem? (t ∷ ss) (suc i) s h = ground (arith, text_mem-get_elem? ss i s h)

clash :
    {t s : Text} (ss : List Text) {A : Type 0}
    → text_mem t ss ≡ false
    → text_mem s ss ≡ true
    → some t ≡ some s
    → A
clash {t} {s} ss new old e = elim (differ (same e)) [ ]
  where
    same : some t ≡ some s → t ≡ s
    same e = cc

    differ : t ≡ s → ⊥
    differ e = cc (new, old, ap (λ u. text_mem u ss) e)

AreDistinct-get_elem? :
    (ss : List Text) (i j : ℕ) (s : Text)
    → AreDistinct ss
    → get_elem? ss i ≡ some s
    → get_elem? ss j ≡ some s
    → i ≡ j
AreDistinct-get_elem? [] i j s d h k = cc
AreDistinct-get_elem? (t ∷ ss) zero zero s d h k = refl
AreDistinct-get_elem? (t ∷ ss) zero (suc j) s (new, d) h k =
    clash ss new (text_mem-get_elem? ss j s k) h
AreDistinct-get_elem? (t ∷ ss) (suc i) zero s (new, d) h k =
    clash ss new (text_mem-get_elem? ss i s h) k
AreDistinct-get_elem? (t ∷ ss) (suc i) (suc j) s (new, d) h k =
    ap suc (AreDistinct-get_elem? ss i j s d h k)

get_elem?-map :
    (f : Text → Text) (ss : List Text) (i : ℕ) (s : Text)
    → get_elem? ss i ≡ some s
    → get_elem? (map f ss) i ≡ some (f s)
get_elem?-map f [] i s h = cc
get_elem?-map f (t ∷ ss) zero s h = ap some (ap f (found h))
  where
    found : some t ≡ some s → t ≡ s
    found h = cc
get_elem?-map f (t ∷ ss) (suc i) s h = get_elem?-map f ss i s h

registered-AreDistinct :
    (random : ℕ) → AreDistinct (map safe_mutation_name (names (all_operators random)))
unfolding all_operators safe_mutation_name text_mem
registered-AreDistinct random =
    (refl, (refl, (refl, (refl, (refl, (refl, (refl, (refl, (refl, tt)))))))))

-- Two mutants of one file that two registered operators make have the same name only if they are
-- made by the same operator and have the same number.
pub build_mutant_name-registered :
    (random : ℕ) (file : Text) (i j : ℕ) (operator other : Text) (id id' : ℕ)
    → get_elem? (names (all_operators random)) i ≡ some operator
    → get_elem? (names (all_operators random)) j ≡ some other
    → build_mutant_name operator file id ≡ build_mutant_name other file id'
    → (i ≡ j) × (id ≡ id')
build_mutant_name-registered random file i j operator other id id' at_i at_j h =
    go (build_mutant_name-injective operator other file id id' h)
  where
    go :
        (safe_mutation_name operator ≡ safe_mutation_name other) × (id ≡ id') → (i ≡ j) × (id ≡ id')
    go (same, number) = (
      AreDistinct-get_elem? (map safe_mutation_name (names (all_operators random))) i j
          (safe_mutation_name operator) (registered-AreDistinct random)
          (get_elem?-map safe_mutation_name (names (all_operators random)) i operator at_i)
          (get_elem?-map safe_mutation_name (names (all_operators random)) j other at_j
            ∙ ap some (sym same)),
      number,
    )
