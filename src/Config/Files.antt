-- ===== src/Config/Files.antt =====
-- getIncludedFiles and getRelativeAndAbsoluteFiles of cmd/mutation-framework/config.go. A set is a
-- list without duplicates; the theorems do not depend on its order, which Go leaves open.
use mutation_framework.Base.{
  Bool, true, false, not, ◌&&◌, ◌||◌, List, [], ◌∷◌, none, some, ◌≡◌, refl, ap, sym, ◌∙◌,
  if◌then◌else◌, inl, inr, Bool-cases, arith,
}
use mutation_framework.Base.Text.{Text, text_eq, text_mem, text_eq_sound}
use mutation_framework.Paths.{concat_adding_slash_if_needed}
use mutation_framework.Runner.{lookup, insert}
use mutation_framework.Runner.Redundant.Laws.{lookup-insert}
use mutation_framework.Config.{MutationConfig}

unfoldable pub add_file : Text → List Text → List Text
unfolding text_mem
add_file file files = if text_mem file files then files else file ∷ files

unfoldable pub add_files : List Text → List Text → List Text
unfolding add_file
add_files [] files = files
add_files (file ∷ rest) files = add_files rest (add_file file files)

unfoldable pub delete_file : Text → List Text → List Text
unfolding text_eq
delete_file file [] = []
delete_file file (other ∷ files) =
    let rest = delete_file file files in if text_eq other file then rest else other ∷ rest

unfoldable pub delete_files : List Text → List Text → List Text
unfolding delete_file
delete_files [] files = files
delete_files (file ∷ rest) files = delete_files rest (delete_file file files)

unfoldable pub get_included_files : MutationConfig → List Text
unfolding add_files delete_files
get_included_files config =
    delete_files config.mutate.files_to_exclude (add_files config.mutate.files_to_include [])

unfoldable pub map_files : Text → List Text → List (Text × Text) → List (Text × Text)
unfolding concat_adding_slash_if_needed insert
map_files root [] file_map = file_map
map_files root (file ∷ files) file_map =
    map_files root files (insert file (concat_adding_slash_if_needed root file) file_map)

unfoldable pub get_relative_and_absolute_files : MutationConfig → List (Text × Text)
unfolding get_included_files map_files
get_relative_and_absolute_files config =
    map_files config.project_root (get_included_files config) []

pub text_eq_sym : (s t : Text) → text_eq s t ≡ text_eq t s
text_eq_sym s t = elim (Bool-cases (text_eq s t)) [
  | inl e ↦ rw (text_eq_sound s t e) refl
  | inr e ↦ elim (Bool-cases (text_eq t s)) [
    | inl d ↦ rw (text_eq_sound t s d) refl
    | inr d ↦ rw (e, d) refl
  ]
]

text_mem-add_file :
    (f file : Text) (files : List Text)
    → text_mem f (add_file file files) ≡ (text_eq f file || text_mem f files)
unfolding add_file text_mem
text_mem-add_file f file files = elim (Bool-cases (text_mem file files)) [
  | inl h ↦ rw h (elim (Bool-cases (text_eq f file)) [
    | inl e ↦ rw e (rw (text_eq_sound f file e) h)
    | inr e ↦ rw e refl
  ])
  | inr h ↦ rw h refl
]

text_mem-add_files :
    (f : Text) (new files : List Text)
    → text_mem f (add_files new files) ≡ (text_mem f new || text_mem f files)
unfolding add_files text_mem
text_mem-add_files f [] files = refl
text_mem-add_files f (file ∷ new) files =
    text_mem-add_files f new (add_file file files)
    ∙ ap (λ b. text_mem f new || b) (text_mem-add_file f file files)
    ∙ swap (text_eq f file) (text_mem f new) (text_mem f files)
  where
    swap : (a b c : Bool) → (b || (a || c)) ≡ ((a || b) || c)
    swap a b c = ground arith

text_mem-delete_file :
    (f file : Text) (files : List Text)
    → text_mem f (delete_file file files) ≡ (text_mem f files && not (text_eq f file))
unfolding delete_file text_mem
text_mem-delete_file f file [] = refl
text_mem-delete_file f file (other ∷ files) = elim (Bool-cases (text_eq other file)) [
  | inl e ↦ rw e (
      rw (text_mem-delete_file f file files, text_eq_sound other file e)
        (gone (text_eq f file) (text_mem f files)))
  | inr e ↦ rw e (
      rw (text_mem-delete_file f file files)
        (stays (text_eq f other) (text_eq f file) (text_mem f files) (differ e)))
]
  where
    gone : (a m : Bool) → (m && not a) ≡ ((a || m) && not a)
    gone a m = ground arith

    stays : (o a m : Bool) → (o ≡ true → a ≡ false) → (o || (m && not a)) ≡ ((o || m) && not a)
    stays o a m h = ground arith

    differ : text_eq other file ≡ false → text_eq f other ≡ true → text_eq f file ≡ false
    differ e h = rw (text_eq_sound f other h) e

text_mem-delete_files :
    (f : Text) (gone files : List Text)
    → text_mem f (delete_files gone files) ≡ (text_mem f files && not (text_mem f gone))
unfolding delete_files text_mem
text_mem-delete_files f [] files = ground arith
text_mem-delete_files f (file ∷ gone) files =
    text_mem-delete_files f gone (delete_file file files)
    ∙ ap (λ b. b && not (text_mem f gone)) (text_mem-delete_file f file files)
    ∙ both (text_mem f files) (text_eq f file) (text_mem f gone)
  where
    both : (m a g : Bool) → ((m && not a) && not g) ≡ (m && not (a || g))
    both m a g = ground arith

lookup-map_files :
    (f root : Text) (files : List Text) (m : List (Text × Text))
    → lookup f (map_files root files m)
      ≡ (if text_mem f files then some (concat_adding_slash_if_needed root f) else lookup f m)
unfolding map_files text_mem
lookup-map_files f root [] m = refl
lookup-map_files f root (file ∷ files) m =
    lookup-map_files f root files (insert file (concat_adding_slash_if_needed root file) m)
    ∙ ap (λ o. if text_mem f files then some (concat_adding_slash_if_needed root f) else o)
        (lookup-insert file f (concat_adding_slash_if_needed root file) m
          ∙ ap (λ b. if b then some (concat_adding_slash_if_needed root file) else lookup f m)
              (text_eq_sym file f))
    ∙ (elim (Bool-cases (text_eq f file)) [
      | inl e ↦ rw (e, sym (text_eq_sound f file e)) (same (text_mem f files) _)
      | inr e ↦ rw e refl
    ])
  where
    same : {A : Type 0} (b : Bool) (x : A) → (if b then x else x) ≡ x
    same true x = refl
    same false x = refl

text_mem-get_included_files :
    (config : MutationConfig) (file : Text)
    → text_mem file (get_included_files config) ≡ (
        text_mem file config.mutate.files_to_include
        && not (text_mem file config.mutate.files_to_exclude))
unfolding get_included_files text_mem
text_mem-get_included_files config file =
    text_mem-delete_files file config.mutate.files_to_exclude
      (add_files config.mutate.files_to_include [])
    ∙ ap (λ b. b && not (text_mem file config.mutate.files_to_exclude))
        (text_mem-add_files file config.mutate.files_to_include []
          ∙ or_false (text_mem file config.mutate.files_to_include))
  where
    or_false : (b : Bool) → (b || false) ≡ b
    or_false b = ground arith

-- The map holds exactly the files that are included and not excluded, each with its path below
-- the project root.
pub lookup-get_relative_and_absolute_files :
    (config : MutationConfig) (file : Text)
    → lookup file (get_relative_and_absolute_files config) ≡ (
        if text_mem file config.mutate.files_to_include
          && not (text_mem file config.mutate.files_to_exclude)
        then some (concat_adding_slash_if_needed config.project_root file)
        else none)
unfolding get_relative_and_absolute_files lookup
lookup-get_relative_and_absolute_files config file =
    lookup-map_files file config.project_root (get_included_files config) []
    ∙ ap (λ b. if b then some (concat_adding_slash_if_needed config.project_root file) else none)
        (text_mem-get_included_files config file)
