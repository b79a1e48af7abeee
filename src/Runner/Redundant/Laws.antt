-- ===== src/Runner/Redundant/Laws.antt =====
-- What the table of failed tests holds after a series of test runs.
use mutation_framework.Base.{
  Bool, true, false, List, [], ◌∷◌, ◌++◌, ◌≡◌, refl, ap, sym, ◌∙◌, Option, none, some, inl, inr,
  Bool-cases, if◌then◌else◌, append_assoc, append-nil,
}
use mutation_framework.Base.Text.{Text, text_eq, text_eq_refl, text_eq_sound}
use mutation_framework.Runner.{TestsMap, lookup, insert}
use mutation_framework.Runner.Redundant.{
  get_failed_tests, get_test_key, put_key, put_failed_tests, new_value, put_failed_tests_in_map,
}

differ :
    (k key other : Text)
    → text_eq k key ≡ false
    → text_eq k other ≡ true
    → text_eq key other ≡ false
differ k key other e d = elim (Bool-cases (text_eq key other)) [
  | inl f ↦ cc (text_eq_sound k other d, text_eq_sound key other f, text_eq_refl other)
  | inr f ↦ f
]

module _ {ℓ} {A : Type ℓ} where
  -- A key that is written holds the value, and the other keys hold what they held.
  pub lookup-insert :
      (key other : Text) (v : A) (m : List (Text × A))
      → lookup other (insert key v m) ≡ (if text_eq key other then some v else lookup other m)
  unfolding lookup insert
  lookup-insert key other v [] = refl
  lookup-insert key other v ((k, u) ∷ m) = elim (Bool-cases (text_eq k key)) [
    | inl e ↦ rw (e, text_eq_sound k key e) (split (text_eq key other))
    | inr e ↦ rw e (elim (Bool-cases (text_eq k other)) [
      | inl d ↦ rw (d, differ k key other e d) refl
      | inr d ↦ rw d (lookup-insert key other v m)
    ])
  ]
    where
      split :
          (b : Bool)
          → (if b then some v else lookup other m)
            ≡ (if b then some v else (if b then some u else lookup other m))
      split true = refl
      split false = refl

-- The test runs one after the other: a mutant and the output of its tests.
pub put_all : List (Text × Text) → TestsMap → TestsMap
put_all [] m = m
put_all ((mutant, output) ∷ runs) m = put_all runs (put_failed_tests_in_map mutant output m)

-- Whether the tests that failed are there, and are those of the key.
abbrev pub has_key : Text → List Text → Bool
has_key key [] = false
has_key key (test ∷ tests) = text_eq (get_test_key (test ∷ tests)) key

-- The mutants whose failed tests have the key, in the order of the runs.
abbrev pub killed_by : Text → List (Text × Text) → List Text
killed_by key [] = []
killed_by key ((mutant, output) ∷ runs) =
    let rest = killed_by key runs in
    if has_key key (get_failed_tests output) then mutant ∷ rest else rest

-- What is stored under a key, after more mutants with it.
abbrev pub stored : Option (List Text) → List Text → Option (List Text)
stored none [] = none
stored none (mutant ∷ mutants) = some mutants
stored (some before) mutants = some (before ++ mutants)

lookup-put_key :
    (k key mutant : Text) (m : TestsMap)
    → lookup key (put_key k mutant m)
      ≡ (if text_eq k key then some (new_value mutant (lookup key m)) else lookup key m)
unfolding put_key
lookup-put_key k key mutant m =
    lookup-insert k key (new_value mutant (lookup k m)) m ∙ (elim (Bool-cases (text_eq k key)) [
      | inl e ↦ rw (e, text_eq_sound k key e) refl
      | inr e ↦ rw e refl
    ])

lookup-put :
    (key mutant output : Text) (m : TestsMap)
    → lookup key (put_failed_tests_in_map mutant output m) ≡ (
        if has_key key (get_failed_tests output)
        then some (new_value mutant (lookup key m))
        else lookup key m)
unfolding put_failed_tests_in_map
lookup-put key mutant output m = go (get_failed_tests output)
  where
    go :
        (tests : List Text)
        → lookup key (put_failed_tests mutant tests m)
          ≡ (if has_key key tests then some (new_value mutant (lookup key m)) else lookup key m)
    go [] = refl
    go (test ∷ tests) = lookup-put_key (get_test_key (test ∷ tests)) key mutant m

put_all_from :
    (key : Text) (runs : List (Text × Text)) (m : TestsMap)
    → lookup key (put_all runs m) ≡ stored (lookup key m) (killed_by key runs)
unfolding put_all
put_all_from key [] m = go (lookup key m)
  where
    go : (o : Option (List Text)) → o ≡ stored o []
    go none = refl
    go (some before) = ap some (sym (append-nil before))
put_all_from key ((mutant, output) ∷ runs) m =
    put_all_from key runs (put_failed_tests_in_map mutant output m)
    ∙ ap (λ o. stored o (killed_by key runs)) (lookup-put key mutant output m)
    ∙ (elim (Bool-cases (has_key key (get_failed_tests output))) [
      | inl e ↦ rw e (go (lookup key m))
      | inr e ↦ rw e refl
    ])
  where
    go :
        (o : Option (List Text))
        → stored (some (new_value mutant o)) (killed_by key runs)
          ≡ stored o (mutant ∷ killed_by key runs)
    go none = refl
    go (some before) = ap some (append_assoc before (mutant ∷ []) (killed_by key runs))

-- After any series of test runs, the entry of a key is there if some mutant was killed by exactly
-- the tests of the key, and it holds all these mutants in the order of the runs but the first.
pub put_all-lookup :
    (key : Text) (runs : List (Text × Text))
    → lookup key (put_all runs []) ≡ stored none (killed_by key runs)
unfolding lookup
put_all-lookup key runs = put_all_from key runs []
