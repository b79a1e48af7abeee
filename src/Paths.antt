-- ===== src/Paths.antt =====
-- Paths as texts: appendFolder (cmd/mutation-framework/test_runner.go), concatAddingSlashIfNeeded,
-- appendSlash, getCurrentPath and getParentPath (config.go), doNotCopyDir and getFirstElementInPath
-- (copy_utils.go), and what they use of strings and path/filepath. The separator is the slash.
pub mod Laws
use mutation_framework.Base.{
  ℕ, zero, suc, ◌+◌, ◌-◌, Bool, true, false, not, ◌&&◌, ◌||◌, List, [], ◌∷◌, ◌++◌, Option, none,
  some, ltb, ◌==◌, if◌then◌else◌, Result, ok, panic,
}
use mutation_framework.Base.Text.{Text, codes, text_eq}

abbrev pub slash : ℕ
slash = b'/'

unfoldable pub has_prefix_slash : Text → Bool
has_prefix_slash [] = false
has_prefix_slash (c ∷ s) = c == slash

unfoldable pub has_suffix_slash : Text → Bool
has_suffix_slash [] = false
has_suffix_slash (c ∷ []) = c == slash
has_suffix_slash (c ∷ d ∷ s) = has_suffix_slash (d ∷ s)

-- child[1:]
abbrev pub drop_first : Text → Text
drop_first [] = []
drop_first (c ∷ s) = s

unfoldable pub concat_adding_slash_if_needed : Text → Text → Text
unfolding has_prefix_slash has_suffix_slash
concat_adding_slash_if_needed parent child =
    if has_suffix_slash parent && has_prefix_slash child
    then parent ++ drop_first child
    else if has_suffix_slash parent || has_prefix_slash child
    then parent ++ child
    else parent ++ slash ∷ child

unfoldable pub append_folder : Text → Text → Text
unfolding concat_adding_slash_if_needed text_eq
append_folder original folder =
    if text_eq original [] || text_eq original (codes ".")
    then folder
    else concat_adding_slash_if_needed original folder

unfoldable pub append_slash : Text → Text
unfolding has_suffix_slash
append_slash [] = slash ∷ []
append_slash (c ∷ s) = if has_suffix_slash (c ∷ s) then c ∷ s else (c ∷ s) ++ slash ∷ []

abbrev add_to_first : ℕ → List Text → List Text
add_to_first c [] = (c ∷ []) ∷ []
add_to_first c (piece ∷ pieces) = (c ∷ piece) ∷ pieces

-- strings.Split at a separator of one character
unfoldable pub split : ℕ → Text → List Text
split separator [] = [] ∷ []
split separator (c ∷ s) =
    let rest = split separator s in if c == separator then [] ∷ rest else add_to_first c rest

-- getCurrentPath: the pieces up to the index, each with a slash; an index behind the pieces panics.
unfoldable pub get_current_path : ℕ → List Text → Result Text
get_current_path i [] = panic
get_current_path zero (piece ∷ pieces) = ok (piece ++ slash ∷ [])
get_current_path (suc i) (piece ∷ pieces) = elim (get_current_path i pieces) [
  | ok path ↦ ok (piece ++ slash ∷ path)
  | other ↦ other
]

-- getParentPath: the pieces before the index.
unfoldable pub get_parent_path : List Text → ℕ → Result Text
get_parent_path pieces zero = ok []
get_parent_path [] (suc i) = panic
get_parent_path (piece ∷ pieces) (suc i) = elim (get_parent_path pieces i) [
  | ok path ↦ ok (piece ++ slash ∷ path)
  | other ↦ other
]

abbrev second_or_first : Text → List Text → Text
second_or_first first [] = first
second_or_first [] (second ∷ _) = second
second_or_first (c ∷ first) _ = c ∷ first

abbrev first_element : Text → List Text → Text
first_element path [] = path
first_element path (only ∷ []) = path
first_element path (first ∷ second ∷ rest) = second_or_first first (second ∷ rest)

unfoldable pub get_first_element_in_path : Text → Text
unfolding text_eq split
get_first_element_in_path path =
    if text_eq path (slash ∷ []) then path else first_element path (split slash path)

-- The pieces that filepath.Clean keeps, the last one first. `rooted` tells whether the path begins
-- with a slash, where `..` has nothing to go up to.
abbrev clean_step : Bool → List Text → Text → List Text
clean_step rooted [] piece =
    if text_eq piece (codes "..") then if rooted then [] else piece ∷ [] else piece ∷ []
clean_step rooted (last ∷ kept) piece =
    if text_eq piece (codes "..")
    then if text_eq last (codes "..") then piece ∷ last ∷ kept else kept
    else piece ∷ last ∷ kept

unfoldable pub clean_pieces : Bool → List Text → List Text → List Text
unfolding text_eq
clean_pieces rooted kept [] = kept
clean_pieces rooted kept (piece ∷ pieces) =
    clean_pieces rooted
      (if text_eq piece [] || text_eq piece (codes ".") then kept else clean_step rooted kept piece)
      pieces

-- The pieces, the last one first, joined by slashes in front of a text.
abbrev join_reversed : List Text → Text → Text
join_reversed [] path = path
join_reversed (piece ∷ []) path = piece ++ path
join_reversed (piece ∷ next ∷ rest) path = join_reversed (next ∷ rest) (slash ∷ (piece ++ path))

abbrev with_root : Bool → List Text → Text
with_root true kept = slash ∷ join_reversed kept []
with_root false [] = codes "."
with_root false (piece ∷ kept) = join_reversed (piece ∷ kept) []

-- filepath.Clean
unfoldable pub clean : Text → Text
unfolding clean_pieces split has_prefix_slash
clean path =
    with_root (has_prefix_slash path) (clean_pieces (has_prefix_slash path) [] (split slash path))

unfoldable pub do_not_copy_dir : Text → Text → Bool
unfolding clean get_first_element_in_path text_eq
do_not_copy_dir dir inner_folder =
    text_eq dir (clean inner_folder)
    || text_eq dir (codes ".git")
    || text_eq dir (get_first_element_in_path inner_folder)
