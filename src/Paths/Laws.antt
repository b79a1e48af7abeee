-- ===== src/Paths/Laws.antt =====
-- Paths are joined with one slash, and taken apart at the slashes.
use mutation_framework.Base.{
  ℕ, zero, suc, true, false, List, [], ◌∷◌, ◌++◌, ◌≡◌, refl, ap, sym, ◌∙◌, ◌==◌, if◌then◌else◌,
  Bool-cases, inl, inr, ==_iff, append_assoc, length, ok,
}
use mutation_framework.Base.Text.{Text}
use mutation_framework.Paths.{
  slash, has_prefix_slash, has_suffix_slash, drop_first, concat_adding_slash_if_needed,
  append_slash, get_current_path, get_parent_path, add_to_first, split,
}

-- The text without one slash at its end.
pub trim_suffix : Text → Text
trim_suffix [] = []
trim_suffix (c ∷ []) = if c == slash then [] else c ∷ []
trim_suffix (c ∷ d ∷ s) = c ∷ trim_suffix (d ∷ s)

-- The text without one slash at its beginning.
pub trim_prefix : Text → Text
trim_prefix [] = []
trim_prefix (c ∷ s) = if c == slash then s else c ∷ s

trim_suffix-slash : (s : Text) → has_suffix_slash s ≡ true → trim_suffix s ++ slash ∷ [] ≡ s
unfolding trim_suffix has_suffix_slash
trim_suffix-slash [] h = cc
trim_suffix-slash (c ∷ []) h = rw h (ap (λ d. d ∷ []) (sym ((==_iff c slash).0 h)))
trim_suffix-slash (c ∷ d ∷ s) h = ap (λ t. c ∷ t) (trim_suffix-slash (d ∷ s) h)

trim_suffix-plain : (s : Text) → has_suffix_slash s ≡ false → trim_suffix s ≡ s
unfolding trim_suffix has_suffix_slash
trim_suffix-plain [] h = refl
trim_suffix-plain (c ∷ []) h = rw h
trim_suffix-plain (c ∷ d ∷ s) h = ap (λ t. c ∷ t) (trim_suffix-plain (d ∷ s) h)

trim_prefix-slash :
    (s : Text)
    → has_prefix_slash s ≡ true
    → (slash ∷ trim_prefix s ≡ s) × (trim_prefix s ≡ drop_first s)
unfolding trim_prefix has_prefix_slash
trim_prefix-slash [] h = cc
trim_prefix-slash (c ∷ s) h = rw h (ap (λ d. d ∷ s) (sym ((==_iff c slash).0 h)), refl)

trim_prefix-plain : (s : Text) → has_prefix_slash s ≡ false → trim_prefix s ≡ s
unfolding trim_prefix has_prefix_slash
trim_prefix-plain [] h = refl
trim_prefix-plain (c ∷ s) h = rw h

-- The two paths with one slash between them: one slash at the end of the parent and one at the
-- beginning of the child are not doubled, and one is added where there is none.
pub concat_adding_slash_if_needed_lem :
    (parent child : Text)
    → concat_adding_slash_if_needed parent child ≡ trim_suffix parent ++ slash ∷ trim_prefix child
unfolding concat_adding_slash_if_needed
concat_adding_slash_if_needed_lem p c = elim (Bool-cases (has_suffix_slash p)) [
  | inl hp ↦ elim (Bool-cases (has_prefix_slash c)) [
    | inl hc ↦
        rw (hp, hc)
          (ap (λ t. t ++ drop_first c) (sym (trim_suffix-slash p hp))
            ∙ append_assoc (trim_suffix p) (slash ∷ []) (drop_first c)
            ∙ ap (λ t. trim_suffix p ++ slash ∷ t) (sym ((trim_prefix-slash c hc).1)))
    | inr hc ↦
        rw (hp, hc)
          (ap (λ t. t ++ c) (sym (trim_suffix-slash p hp))
            ∙ append_assoc (trim_suffix p) (slash ∷ []) c
            ∙ ap (λ t. trim_suffix p ++ slash ∷ t) (sym (trim_prefix-plain c hc)))
  ]
  | inr hp ↦ elim (Bool-cases (has_prefix_slash c)) [
    | inl hc ↦
        rw (hp, hc)
          (ap (λ t. t ++ c) (sym (trim_suffix-plain p hp))
            ∙ ap (λ t. trim_suffix p ++ t) (sym ((trim_prefix-slash c hc).0)))
    | inr hc ↦
        rw (hp, hc)
          (ap (λ t. t ++ slash ∷ c) (sym (trim_suffix-plain p hp))
            ∙ ap (λ t. trim_suffix p ++ slash ∷ t) (sym (trim_prefix-plain c hc)))
  ]
]

-- A path that appendSlash returns ends with a slash, and appendSlash leaves it as it is.
has_suffix_slash-append : (s : Text) → has_suffix_slash (s ++ slash ∷ []) ≡ true
unfolding has_suffix_slash
has_suffix_slash-append [] = refl
has_suffix_slash-append (c ∷ []) = refl
has_suffix_slash-append (c ∷ d ∷ s) = has_suffix_slash-append (d ∷ s)

has_suffix_slash-append_slash : (s : Text) → has_suffix_slash (append_slash s) ≡ true
unfolding append_slash has_suffix_slash
has_suffix_slash-append_slash [] = refl
has_suffix_slash-append_slash (c ∷ s) = elim (Bool-cases (has_suffix_slash (c ∷ s))) [
  | inl h ↦ rw h h
  | inr h ↦ rw h (has_suffix_slash-append (c ∷ s))
]

append_slash-plain : (s : Text) → has_suffix_slash s ≡ true → append_slash s ≡ s
unfolding append_slash has_suffix_slash
append_slash-plain [] h = cc
append_slash-plain (c ∷ s) h = rw h refl

-- The path that appendSlash returns ends with a slash, and a second appendSlash leaves it as it is.
pub append_slash_idem :
    (path : Text)
    → (has_suffix_slash (append_slash path) ≡ true)
      × (append_slash (append_slash path) ≡ append_slash path)
append_slash_idem path = (
  has_suffix_slash-append_slash path,
  append_slash-plain (append_slash path) (has_suffix_slash-append_slash path),
)

get_parent_path-suc :
    (pieces : List Text) (i : ℕ) → get_parent_path pieces (suc i) ≡ get_current_path i pieces
unfolding get_parent_path get_current_path
get_parent_path-suc [] i = refl
get_parent_path-suc (piece ∷ pieces) zero = refl
get_parent_path-suc (piece ∷ pieces) (suc i) = rw (get_parent_path-suc pieces i) refl

-- The pieces, each with a slash.
with_slashes : List Text → Text
with_slashes [] = []
with_slashes (piece ∷ pieces) = piece ++ slash ∷ with_slashes pieces

get_parent_path-length :
    (pieces : List Text) → get_parent_path pieces (length pieces) ≡ ok (with_slashes pieces)
unfolding get_parent_path with_slashes
get_parent_path-length [] = refl
get_parent_path-length (piece ∷ pieces) = rw (get_parent_path-length pieces) refl

split-cons : (s : Text) → (piece : Text) × (pieces : List Text) × (split slash s ≡ piece ∷ pieces)
unfolding split
split-cons [] = ([], [], refl)
split-cons (c ∷ s) = elim (Bool-cases (c == slash)) [
  | inl e ↦ ([], split slash s, rw e refl)
  | inr e ↦ rw e (longer (split-cons s))
]
  where
    longer :
        ((piece : Text) × (pieces : List Text) × (split slash s ≡ piece ∷ pieces))
        → (piece : Text) × (pieces : List Text) × (add_to_first c (split slash s) ≡ piece ∷ pieces)
    longer (piece, pieces, e) = (c ∷ piece, pieces, rw e refl)

with_slashes-split : (s : Text) → with_slashes (split slash s) ≡ s ++ slash ∷ []
unfolding split with_slashes
with_slashes-split [] = refl
with_slashes-split (c ∷ s) = elim (Bool-cases (c == slash)) [
  | inl e ↦ rw e (
      ap (λ t. slash ∷ t) (with_slashes-split s)
      ∙ ap (λ d. d ∷ (s ++ slash ∷ [])) (sym ((==_iff c slash).0 e)))
  | inr e ↦ rw e (longer (split-cons s) (with_slashes-split s))
]
  where
    longer :
        ((piece : Text) × (pieces : List Text) × (split slash s ≡ piece ∷ pieces))
        → with_slashes (split slash s) ≡ s ++ slash ∷ []
        → with_slashes (add_to_first c (split slash s)) ≡ c ∷ (s ++ slash ∷ [])
    longer (piece, pieces, e) h = rw e (ap (λ t. c ∷ t) (sym (rw e refl) ∙ h))

-- getCurrentPath at the last piece of a path gives the path back, with a slash behind it, and
-- getParentPath at the number of pieces gives the same.
pub get_current_path-split :
    (path : Text) (i : ℕ)
    → length (split slash path) ≡ suc i
    → (get_current_path i (split slash path) ≡ ok (path ++ slash ∷ []))
      × (get_parent_path (split slash path) (suc i) ≡ ok (path ++ slash ∷ []))
get_current_path-split path i h = (sym (get_parent_path-suc (split slash path) i) ∙ whole, whole)
  where
    whole : get_parent_path (split slash path) (suc i) ≡ ok (path ++ slash ∷ [])
    whole =
        ap (get_parent_path (split slash path)) (sym h)
        ∙ get_parent_path-length (split slash path)
        ∙ ap ok (with_slashes-split path)
