-- ===== src/Search/Pattern.antt =====
-- How the expression for the names of mutants (isMutant of cmd/mutation-framework/test_runner.go)
-- matches a file's name, an operator's name and a number.
use mathlib.Core.Option.{or_else}
use mutation_framework.Base.{
  ℕ, Bool, true, false, ◌&&◌, ◌||◌, List, [], ◌∷◌, ◌++◌, none, some, ◌==◌, All, ◌≡◌, refl, ap, ◌∙◌,
  inl, inr, arith, Bool-cases, append_assoc,
}
use mutation_framework.Base.Text.{Text, codes, is_prefix, occurs_in}
use mutation_framework.Regex.{
  Item, chars, one, plus, star, Found, keep, run_star, match_here, any_char, is_digit, literal,
}
use mutation_framework.Config.Expand.{is_name_char}
use mutation_framework.Search.{mutant_pattern}

abbrev pub IsName : Text → Type 0
IsName s = All (λ c. is_name_char c ≡ true) s

abbrev pub IsDigits : Text → Type 0
IsDigits s = All (λ c. is_digit c ≡ true) s

-- The parts of the expression behind `[\w\-. ]+`, and behind the group.
abbrev after_name : List Item
after_name =
    chars one true any_char
    ∷ (literal true (codes "go")
        ++ chars star false is_name_char
          ∷ chars one false any_char
          ∷ chars plus false is_digit
          ∷ [])

abbrev number_part : List Item
number_part = chars one false any_char ∷ chars plus false is_digit ∷ []

-- A match that captures nothing.
data Matches (m : Found) : Type 0 where
  matches : (rest : Text) → m ≡ some ([], rest) → Matches m

data MayMatch (m : Found) : Type 0 where
  no_match : m ≡ none → MayMatch m
  may_match : (rest : Text) → m ≡ some ([], rest) → MayMatch m

or_else-Matches : (m k : Found) → Matches m → Matches (or_else m k)
unfolding or_else
or_else-Matches m k (matches rest e) = rw e (matches rest refl)

digit_run : (ds : Text) → Matches (run_star is_digit false (match_here []) ds)
unfolding run_star match_here
digit_run [] = matches [] refl
digit_run (d ∷ ds) = elim (Bool-cases (is_digit d)) [
  | inl e ↦ rw e (or_else-Matches _ (some ([], d ∷ ds)) (digit_run ds))
  | inr e ↦ rw e (matches (d ∷ ds) refl)
]

number_part-MayMatch : (s : Text) → MayMatch (match_here number_part s)
unfolding match_here
number_part-MayMatch [] = no_match refl
number_part-MayMatch (c ∷ []) = elim (Bool-cases (any_char c)) [
  | inl e ↦ rw e (no_match refl)
  | inr e ↦ rw e (no_match refl)
]
number_part-MayMatch (c ∷ d ∷ s) = elim (Bool-cases (any_char c)) [
  | inl e ↦ rw e (elim (Bool-cases (is_digit d)) [
    | inl i ↦ rw i (go (digit_run s))
    | inr i ↦ rw i (no_match refl)
  ])
  | inr e ↦ rw e (no_match refl)
]
  where
    go : {m : Found} → Matches m → MayMatch m
    go (matches rest e) = may_match rest e

-- A star that captures nothing, in front of a part of the same kind.
module _ (p : ℕ → Bool) (k : Text → Found) (may : (s : Text) → MayMatch (k s)) where
  run_star-MayMatch : (s : Text) → MayMatch (run_star p false k s)
  unfolding run_star or_else
  run_star-MayMatch [] = may []
  run_star-MayMatch (c ∷ s) = elim (Bool-cases (p c)) [
    | inl e ↦ rw e (either (run_star-MayMatch s) (may (c ∷ s)))
    | inr e ↦ rw e (may (c ∷ s))
  ]
    where
      either : {m n : Found} → MayMatch m → MayMatch n → MayMatch (or_else m n)
      either (no_match e) right = rw e right
      either (may_match rest e) right = rw e (may_match rest refl)

  run_star-Matches :
      (front s : Text)
      → All (λ c. p c ≡ true) front
      → Matches (k s)
      → Matches (run_star p false k (front ++ s))
  unfolding run_star
  run_star-Matches [] [] h found = found
  run_star-Matches [] (c ∷ s) h found = elim (Bool-cases (p c)) [
    | inl e ↦ rw e (either (run_star-MayMatch s) found)
    | inr e ↦ rw e found
  ]
    where
      either : {m n : Found} → MayMatch m → Matches n → Matches (or_else m n)
      either (no_match e) right = rw e right
      either (may_match rest e) right = rw e (matches rest refl)
  run_star-Matches (c ∷ front) s (h, hs) found =
      rw h (or_else-Matches _ (k (c ∷ (front ++ s))) (run_star-Matches front s hs found))

-- A greedy star that captures takes all of the front, if the rest matches behind it.
run_star-greedy :
    (p : ℕ → Bool) (k : Text → Found) (front s group rest : Text)
    → All (λ c. p c ≡ true) front
    → run_star p true k s ≡ some (group, rest)
    → run_star p true k (front ++ s) ≡ some (front ++ group, rest)
unfolding run_star
run_star-greedy p k [] s group rest h e = e
run_star-greedy p k (c ∷ front) s group rest (h, hs) e =
    rw (h, run_star-greedy p k front s group rest hs e) refl

-- Behind the last "go" the group finds no end.
after_name-none :
    (c : ℕ) (s : Text) → is_prefix (codes "go") s ≡ false → match_here after_name (c ∷ s) ≡ none
unfolding match_here literal is_prefix
after_name-none c [] h = elim (Bool-cases (any_char c)) [ inl e ↦ rw e refl | inr e ↦ rw e refl ]
after_name-none c (g ∷ []) h = elim (Bool-cases (any_char c)) [
  | inl e ↦ rw e (elim (Bool-cases (g == b'g')) [ inl i ↦ rw i refl | inr i ↦ rw i refl ])
  | inr e ↦ rw e refl
]
after_name-none c (g ∷ o ∷ s) h = elim (Bool-cases (any_char c)) [
  | inl e ↦ rw e (elim (Bool-cases (g == b'g')) [
    | inl i ↦
        rw i (elim (Bool-cases (o == b'o')) [ inl j ↦ absurd (both i j h) | inr j ↦ rw j refl ])
    | inr i ↦ rw i refl
  ])
  | inr e ↦ rw e refl
]
  where
    both : (g == b'g') ≡ true → (o == b'o') ≡ true → (b'g' == g && (b'o' == o && true)) ≡ false → ⊥
    both i j h = ground arith

run_star_fails :
    (p : ℕ → Bool) (k : Text → Found) (c : ℕ) (s : Text)
    → run_star p true k s ≡ none
    → k (c ∷ s) ≡ none
    → run_star p true k (c ∷ s) ≡ none
unfolding run_star
run_star_fails p k c s e f = elim (Bool-cases (p c)) [
  | inl h ↦ rw (h, e, f) refl
  | inr h ↦ rw (h, f) refl
]

first_char :
    (c : ℕ) (s : Text)
    → is_name_char c ≡ true
    → match_here mutant_pattern (c ∷ s)
      ≡ keep true c (run_star is_name_char true (match_here after_name) s)
unfolding mutant_pattern match_here
first_char c s h = rw h refl

run_star_skips :
    (p : ℕ → Bool) (k : Text → Found) (c : ℕ) (s : Text)
    → p c ≡ true
    → run_star p true k s ≡ none
    → run_star p true k (c ∷ s) ≡ k (c ∷ s)
unfolding run_star or_else
run_star_skips p k c s h e = rw (h, e) refl

or_is_false : (a b : Bool) → a ≡ false → b ≡ false → (a || b) ≡ false
or_is_false a b h k = ground arith

and_is_false : (a b : Bool) → a ≡ false → (a && b) ≡ false
and_is_false a b h = ground arith

or_false : (a b : Bool) → (a || b) ≡ false → (a ≡ false) × (b ≡ false)
or_false a b h = (ground arith, ground arith)

is_prefix-occurs_in : (t s : Text) → occurs_in t s ≡ false → is_prefix t s ≡ false
unfolding occurs_in
is_prefix-occurs_in t [] h = h
is_prefix-occurs_in t (c ∷ s) h = (or_false _ _ h).0

run_star-none :
    (s : Text)
    → occurs_in (codes "go") s ≡ false
    → run_star is_name_char true (match_here after_name) s ≡ none
unfolding run_star match_here occurs_in
run_star-none [] h = refl
run_star-none (c ∷ s) h =
    let rest = (or_false _ _ h).1 in
    run_star_fails is_name_char (match_here after_name) c s (run_star-none s rest)
      (after_name-none c s (is_prefix-occurs_in (codes "go") s rest))

-- "go" does not stand across a dot.
occurs_in-dot :
    (s t : Text)
    → occurs_in (codes "go") s ≡ false
    → occurs_in (codes "go") t ≡ false
    → occurs_in (codes "go") (s ++ b'.' ∷ t) ≡ false
unfolding occurs_in is_prefix
occurs_in-dot [] t hs ht = ht
occurs_in-dot (c ∷ []) t hs ht = or_is_false _ _ (and_false _) ht
  where
    and_false : (a : Bool) → (a && false) ≡ false
    and_false a = ground arith
occurs_in-dot (c ∷ d ∷ s) t hs ht =
    or_is_false _ _ ((or_false _ _ hs).0) (occurs_in-dot (d ∷ s) t ((or_false _ _ hs).1) ht)

digits-occurs_in : (s : Text) → IsDigits s → occurs_in (codes "go") s ≡ false
unfolding occurs_in is_prefix
digits-occurs_in [] h = refl
digits-occurs_in (d ∷ s) (h, hs) =
    or_is_false _ _ (and_is_false _ _ no_letter) (digits-occurs_in s hs)
  where
    no_letter : (b'g' == d) ≡ false
    no_letter = ground arith

-- The name of a mutant: the file, a dot, the operator, a dot, digits.
abbrev pub name_of : Text → Text → ℕ → Text → Text
name_of stem op d ds = (stem ++ codes ".go") ++ b'.' ∷ (op ++ b'.' ∷ d ∷ ds)

abbrev pub suffix_of : Text → ℕ → Text → Text
suffix_of op d ds = b'.' ∷ (op ++ b'.' ∷ d ∷ ds)

module _ (op : Text) (d : ℕ) (ds : Text) (plain : IsName op)
    (no_go : occurs_in (codes "go") op ≡ false) (numbered : IsDigits (d ∷ ds)) where
  suffix-none : occurs_in (codes "go") (suffix_of op d ds) ≡ false
  unfolding occurs_in is_prefix
  suffix-none =
      occurs_in-dot [] (op ++ b'.' ∷ d ∷ ds) refl
        (occurs_in-dot op (d ∷ ds) no_go (digits-occurs_in (d ∷ ds) numbered))

  number-Matches : Matches (match_here number_part (b'.' ∷ d ∷ ds))
  unfolding match_here
  number-Matches = rw (numbered.0) (digit_run ds)

  suffix-Matches :
      Matches (match_here (chars star false is_name_char ∷ number_part) (suffix_of op d ds))
  unfolding match_here
  suffix-Matches =
      run_star-Matches is_name_char (match_here number_part) number_part-MayMatch (b'.' ∷ op)
        (b'.' ∷ d ∷ ds) (refl, plain) number-Matches

  abbrev go_suffix : Text
  go_suffix = codes ".go" ++ suffix_of op d ds

  go-found : (rest : Text) × (match_here after_name go_suffix ≡ some (codes ".go", rest))
  unfolding match_here literal
  go-found = go suffix-Matches
    where
      go :
          Matches (match_here (chars star false is_name_char ∷ number_part) (suffix_of op d ds))
          → (rest : Text) × (match_here after_name go_suffix ≡ some (codes ".go", rest))
      go (matches rest e) = (rest, rw e refl)

  star-found :
      (rest : Text) × (run_star is_name_char true (match_here after_name) go_suffix
        ≡ some (codes ".go", rest))
  unfolding occurs_in is_prefix
  star-found =
      let (rest, e) = go-found in
      let behind_g = run_star-none (b'o' ∷ suffix_of op d ds) suffix-none in
      (
        rest,
        run_star_skips is_name_char (match_here after_name) b'.' _ refl (
              run_star_fails is_name_char (match_here after_name) b'g' _ behind_g
                (after_name-none b'g' _ refl))
            ∙ e,
      )

  -- The group of the whole match is the file.
  pub name-found :
      (c : ℕ) (stem : Text)
      → IsName (c ∷ stem)
      → (rest : Text) × (match_here mutant_pattern (name_of (c ∷ stem) op d ds)
          ≡ some ((c ∷ stem) ++ codes ".go", rest))
  name-found c stem (h, hs) =
      let (rest, e) = star-found in
      (
        rest,
        ap (match_here mutant_pattern) (append_assoc (c ∷ stem) (codes ".go") (suffix_of op d ds))
            ∙ first_char c (stem ++ go_suffix) h
            ∙ ap (keep true c) (
                run_star-greedy is_name_char (match_here after_name) stem go_suffix (codes ".go")
                  rest hs e),
      )
