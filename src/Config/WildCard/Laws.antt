-- ===== src/Config/WildCard/Laws.antt =====
-- Which pieces of a path are valid wild cards.
use mathlib.Core.Option.{or_else}
use mutation_framework.Base.{
  ℕ, zero, suc, ◌≤◌, ◌<◌, Bool, true, false, not, ◌&&◌, ◌||◌, List, [], ◌∷◌, ◌++◌, none, some, ◌≡◌,
  refl, ap, sym, ◌∙◌, append-nil, if◌then◌else◌, inl, inr, Bool-cases, ◌==◌, length, arith,
}
use mutation_framework.Base.Text.{Text, text_mem, text_eq, text_eq_sound}
use mutation_framework.Regex.{chars, star, find_all, find_from, match_here, run_star, keep, Found}
use mutation_framework.Config.WildCard.{
  valid_wild_card, only_match, is_valid_wild_card, remove_wild_card_paths,
}

pub count_stars : Text → ℕ
count_stars [] = 0
count_stars (c ∷ s) = let n = count_stars s in if c == b'*' then suc n else n

-- The text before the first star, and from it on.
before : Text → Text
before [] = []
before (c ∷ s) = let t = before s in if c == b'*' then [] else c ∷ t

behind : Text → Text
behind [] = []
behind (c ∷ s) = let t = behind s in if c == b'*' then c ∷ s else t

tail_match :
    (s : Text)
    → match_here (chars star true (λ c. not (c == b'*')) ∷ []) s ≡ some (before s, behind s)
unfolding match_here run_star before behind
tail_match [] = refl
tail_match (c ∷ s) = elim (Bool-cases (c == b'*')) [
  | inl e ↦ rw e refl
  | inr e ↦ rw (e, tail_match s) refl
]

before-behind : (s : Text) → before s ++ behind s ≡ s
unfolding before behind
before-behind [] = refl
before-behind (c ∷ s) = elim (Bool-cases (c == b'*')) [
  | inl e ↦ rw e refl
  | inr e ↦ rw e (ap (λ t. c ∷ t) (before-behind s))
]

count_stars-behind : (s : Text) → count_stars (behind s) ≡ count_stars s
unfolding count_stars behind
count_stars-behind [] = refl
count_stars-behind (c ∷ s) = elim (Bool-cases (c == b'*')) [
  | inl e ↦ rw e (rw e refl)
  | inr e ↦ rw e (count_stars-behind s)
]

length-behind : (s : Text) → length (behind s) ≤ length s
unfolding behind
length-behind [] = omega arith
length-behind (c ∷ s) = elim (Bool-cases (c == b'*')) [
  | inl e ↦ rw e (omega arith)
  | inr e ↦ rw e (omega (arith, length-behind s))
]

no_suc : {A : Type 0} (n : ℕ) → suc n ≡ 0 → A
no_suc {A = A} n h = elim none_left [ ]
  where
    none_left : ⊥
    none_left = omega (arith, h)

behind-nil : (s : Text) → count_stars (behind s) ≡ 0 → behind s ≡ []
unfolding count_stars behind
behind-nil [] = λ h. refl
behind-nil (c ∷ s) = elim (Bool-cases (c == b'*')) [
  | inl e ↦ rw e (rw e (no_suc (count_stars s)))
  | inr e ↦ rw e (behind-nil s)
]

-- The match that a text with a star begins with: up to the second star.
abbrev Matches : Text → ℕ → Type 0
Matches s n =
    (group : Text) × (rest : Text) × (match_here valid_wild_card s ≡ some (group, rest))
    × (group ++ rest ≡ s)
    × (count_stars rest ≡ n)
    × (count_stars rest ≡ 0 → rest ≡ [])
    × (length rest < length s)

match_star :
    (c : ℕ) (s : Text)
    → (c == b'*') ≡ true
    → match_here valid_wild_card (c ∷ s) ≡ some (c ∷ before s, behind s)
unfolding match_here run_star valid_wild_card
match_star c s e = rw (e, tail_match s) refl

match_other :
    (c : ℕ) (s : Text)
    → (c == b'*') ≡ false
    → match_here valid_wild_card (c ∷ s) ≡ keep true c (match_here valid_wild_card s)
unfolding match_here run_star valid_wild_card or_else
match_other c s e = rw e (or_none (keep true c (match_here valid_wild_card s)))
  where
    or_none : (m : Found) → or_else m none ≡ m
    or_none none = refl
    or_none (some r) = refl

match_nil : match_here valid_wild_card [] ≡ none
unfolding match_here run_star valid_wild_card
match_nil = refl

no_match : (s : Text) → count_stars s ≡ 0 → match_here valid_wild_card s ≡ none
unfolding count_stars
no_match [] = λ h. match_nil
no_match (c ∷ s) = elim (Bool-cases (c == b'*')) [
  | inl e ↦ rw e (no_suc (count_stars s))
  | inr e ↦ rw e (λ h. match_other c s e ∙ ap (keep true c) (no_match s h))
]

first_match : (s : Text) (n : ℕ) → count_stars s ≡ suc n → Matches s n
unfolding count_stars
first_match [] n = λ h. no_suc n (sym h)
first_match (c ∷ s) n = elim (Bool-cases (c == b'*')) [
  | inl e ↦ rw e (at_star e)
  | inr e ↦ rw e (λ h. longer e (first_match s n h))
]
  where
    at_star : (c == b'*') ≡ true → suc (count_stars s) ≡ suc n → Matches (c ∷ s) n
    at_star e h = (
      c ∷ before s,
      behind s,
      match_star c s e,
      ap (λ t. c ∷ t) (before-behind s),
      omega (arith, count_stars-behind s, h),
      behind-nil s,
      omega (arith, length-behind s),
    )

    longer : (c == b'*') ≡ false → Matches s n → Matches (c ∷ s) n
    longer e (group, rest, m, whole, stars, nothing, shorter) = (
      c ∷ group,
      rest,
      match_other c s e ∙ ap (keep true c) m,
      ap (λ t. c ∷ t) whole,
      stars,
      nothing,
      omega (arith, shorter),
    )

-- With a star, the search finds the match at the beginning and goes on behind it.
abbrev Finds : ℕ → Text → ℕ → Type 0
Finds f s n =
    (group : Text) × (rest : Text) × (g : ℕ) × (find_from f valid_wild_card s
      ≡ group ∷ find_from g valid_wild_card rest)
    × (group ++ rest ≡ s)
    × (count_stars rest ≡ n)
    × (count_stars rest ≡ 0 → rest ≡ [])
    × (length rest ≤ g)

find_first : (f n : ℕ) (s : Text) → count_stars s ≡ suc n → length s ≤ f → Finds f s n
unfolding find_from count_stars
find_first f n [] h k = no_suc n (sym h)
find_first zero n (c ∷ s) h k = no_suc (length s) (omega (arith, k))
find_first (suc f) n (c ∷ s) h k = go (first_match (c ∷ s) n h)
  where
    go : Matches (c ∷ s) n → Finds (suc f) (c ∷ s) n
    go (group, rest, m, whole, stars, nothing, shorter) =
        (group, rest, f, rw (m, find_from) refl, whole, stars, nothing, omega (arith, shorter, k))

count_stars-tail : (c : ℕ) (s : Text) → count_stars (c ∷ s) ≡ 0 → count_stars s ≡ 0
unfolding count_stars
count_stars-tail c s = elim (Bool-cases (c == b'*')) [
  | inl e ↦ rw e (no_suc (count_stars s))
  | inr e ↦ rw e (λ h. h)
]

find_none : (f : ℕ) (s : Text) → count_stars s ≡ 0 → find_from f valid_wild_card s ≡ []
unfolding find_from
find_none zero s h = refl
find_none (suc f) [] h = refl
find_none (suc f) (c ∷ s) h =
    rw (no_match (c ∷ s) h, find_from) (find_none f s (count_stars-tail c s h))

only_find :
    (n f : ℕ) (s : Text)
    → count_stars s ≡ n
    → length s ≤ f
    → only_match (find_from f valid_wild_card s) ≡ (if n == 1 then some s else none)
only_find zero f s h k = rw (find_none f s h) refl
only_find (suc zero) f s h k = go (find_first f 0 s h k)
  where
    go : Finds f s 0 → only_match (find_from f valid_wild_card s) ≡ some s
    go (group, rest, g, found, whole, stars, nothing, short) =
        rw (found, find_none g rest stars)
          (ap some (sym (append-nil group) ∙ ap (λ t. group ++ t) (sym (nothing stars)) ∙ whole))
only_find (suc (suc n)) f s h k = go (find_first f (suc n) s h k)
  where
    go :
        Finds f s (suc n)
        → only_match (find_from f valid_wild_card s) ≡ (if suc (suc n) == 1 then some s else none)
    go (group, rest, g, found, whole, stars, nothing, short) =
        rw found (again (find_first g n rest stars short))
      where
        again :
            Finds g rest n
            → only_match (group ∷ find_from g valid_wild_card rest)
              ≡ (if suc (suc n) == 1 then some s else none)
        again (group', rest', g', found', whole', stars', nothing', short') =
            rw found' (ground arith)

-- A piece is a valid wild card when it holds exactly one star, and the glob is then the whole
-- piece: isValidWildCard refuses a piece with two stars.
pub is_valid_wild_card_iff :
    (piece : Text)
    → is_valid_wild_card piece ≡ (if count_stars piece == 1 then some piece else none)
unfolding is_valid_wild_card find_all
is_valid_wild_card_iff piece = only_find (count_stars piece) (length piece) piece refl (omega arith)

-- removeWildCardPaths drops the paths with exactly one star and keeps all others, also those with
-- more stars.
pub text_mem-remove_wild_card_paths :
    (path : Text) (paths : List Text)
    → text_mem path (remove_wild_card_paths paths)
      ≡ (text_mem path paths && not (count_stars path == 1))
unfolding remove_wild_card_paths text_mem
text_mem-remove_wild_card_paths path [] = refl
text_mem-remove_wild_card_paths path (file ∷ paths) =
    rw (is_valid_wild_card_iff file) (elim (Bool-cases (count_stars file == 1)) [
      | inl e ↦
          rw (e, text_mem-remove_wild_card_paths path paths)
            (dropped (text_eq path file) (text_mem path paths) (count_stars path == 1) (at_path e))
      | inr e ↦
          rw (e, text_mem-remove_wild_card_paths path paths)
            (kept (text_eq path file) (text_mem path paths) (count_stars path == 1) (off_path e))
    ])
  where
    dropped : (a m b : Bool) → (a ≡ true → b ≡ true) → (m && not b) ≡ ((a || m) && not b)
    dropped a m b h = ground arith

    kept : (a m b : Bool) → (a ≡ true → b ≡ false) → (a || (m && not b)) ≡ ((a || m) && not b)
    kept a m b h = ground arith

    at_path :
        (count_stars file == 1) ≡ true → text_eq path file ≡ true → (count_stars path == 1) ≡ true
    at_path e h = rw (text_eq_sound path file h) e

    off_path :
        (count_stars file == 1) ≡ false → text_eq path file ≡ true → (count_stars path == 1) ≡ false
    off_path e h = rw (text_eq_sound path file h) e
