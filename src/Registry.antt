-- ===== src/Registry.antt =====
-- mutator/mutator.go: the table of mutators by name, as an association list in the order of
-- registration, and its operations New, List and Register.
pub mod Laws
use mutation_framework.Base.{Bool, true, false, List, [], ◌∷◌, Option, none, some, map, ltb}
use mutation_framework.Base.{if◌then◌else◌, Result, ok, panic, ◌>>=◌, ◌==◌}
use mutation_framework.Base.Text.{Text, text_eq}

-- The order of sort.Strings.
unfoldable pub text_leb : Text → Text → Bool
text_leb [] t = true
text_leb (a ∷ s) [] = false
text_leb (a ∷ s) (b ∷ t) = if a == b then text_leb s t else ltb a b

unfoldable pub insert_sorted : Text → List Text → List Text
unfolding text_leb
insert_sorted s [] = s ∷ []
insert_sorted s (t ∷ ts) = if text_leb s t then s ∷ t ∷ ts else t ∷ insert_sorted s ts

-- sort.Strings
unfoldable pub sort_texts : List Text → List Text
unfolding insert_sorted
sort_texts [] = []
sort_texts (s ∷ ss) = insert_sorted s (sort_texts ss)

abbrev pub Lookup {ℓ} : Type ℓ → Type ℓ
Lookup M = List (Text × M)

module _ {ℓ} {M : Type ℓ} where
  -- New; `none` is the error "unknown mutator".
  unfoldable pub new : Text → Lookup M → Option M
  unfolding text_eq
  new name [] = none
  new name ((key, mutator) ∷ rest) = if text_eq key name then some mutator else new name rest

  -- List
  unfoldable pub list : Lookup M → List Text
  unfolding sort_texts
  list lookup = sort_texts (map (λ entry. entry.0) lookup)

  abbrev add_new : Text → M → Lookup M → Option M → Result (Lookup M)
  add_new name mutator lookup none = ok ((name, mutator) ∷ lookup)
  add_new name mutator lookup (some _) = panic

  -- Register: a nil mutator and a name that is taken make it panic.
  unfoldable pub register : Text → Option M → Lookup M → Result (Lookup M)
  unfolding new
  register name none lookup = panic
  register name (some mutator) lookup = add_new name mutator lookup (new name lookup)

  -- The init functions, one after the other.
  unfoldable pub register_all : List (Text × M) → Lookup M → Result (Lookup M)
  unfolding register
  register_all [] lookup = ok lookup
  register_all ((name, mutator) ∷ rest) lookup = do
    lookup' ← register name (some mutator) lookup
    register_all rest lookup'
