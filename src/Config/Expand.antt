-- ===== src/Config/Expand.antt =====
-- The expansion of wild cards in cmd/mutation-framework/config.go: filterFileNames,
-- expandWildCardRecursive and expandWildCards. The slice pathPieces is one array that all calls
-- share, so a call returns it together with the paths.
pub mod Pieces
pub mod Exist
pub mod Laws
use mathlib.Core.List
use mutation_framework.Base.{
  ℕ, zero, suc, ◌+◌, Bool, true, false, not, ◌&&◌, ◌||◌, List, [], ◌∷◌, ◌++◌, Option, none, some,
  length, get_elem?, set, ltb, leb, ◌==◌, if◌then◌else◌, Result, ok, panic, out_of_fuel, ◌>>=◌,
}
use mutation_framework.Base.Text.{Text, codes, occurs_in, text_eq}
use mutation_framework.Regex.{
  Item, chars, one, plus, match_string, any_char, is_word, is_digit, is_letter,
}
use mutation_framework.Paths.{slash, split, clean, get_current_path, get_parent_path}
use mutation_framework.FileSystem.{
  FileSystem, StatResult, found, missing, FsError, not_exist, other_error, Listing, listed,
  unlisted, History,
}
use mutation_framework.Config.{MutationConfig}
use mutation_framework.Config.WildCard.{is_valid_wild_card, remove_wild_card_paths}

-- `[\w\-. ]`
abbrev pub is_name_char : ℕ → Bool
is_name_char c = is_word c || c == b'-' || c == b'.' || c == b' '

-- The characters that stand for themselves in an expression.
abbrev pub is_plain : ℕ → Bool
is_plain c = is_word c || c == b'-' || c == b' ' || c == b'/' || c == b',' || c == b'='

abbrev add_item : Option Item → Option (List Item) → Option (List Item)
add_item (some item) (some items) = some (item ∷ items)
add_item _ _ = none

abbrev glob_item : ℕ → Option Item
glob_item c =
    if c == b'*'
    then some (chars plus false is_name_char)
    else if c == b'.'
    then some (chars one false any_char)
    else if is_plain c
    then some (chars one false (λ d. d == c))
    else none

-- validFilePattern, compiled, for a glob of plain characters, dots and stars.
unfoldable pub glob_items : Text → Option (List Item)
glob_items [] = some []
glob_items (c ∷ s) = add_item (glob_item c) (glob_items s)

-- What regexp makes of another glob: an expression that is compiled, or none.
abbrev pub OtherGlobs : Type 0
OtherGlobs = Text → Option (Text → Bool)

-- regexp.MustCompile
abbrev pub must_compile : OtherGlobs → Text → Option (List Item) → Result (Text → Bool)
must_compile others glob (some items) = ok (match_string items)
must_compile others glob none = elim (others glob) [ some valid ↦ ok valid | none ↦ panic ]

-- The loop over the files.
unfoldable pub valid_files : (Text → Bool) → List Text → List Text
valid_files valid [] = []
valid_files valid (file ∷ files) =
    let rest = valid_files valid files in if valid file then file ∷ rest else rest

unfoldable pub filter_file_names : OtherGlobs → Text → List Text → Result (List Text)
unfolding glob_items match_string valid_files
filter_file_names others glob files = do
  valid ← must_compile others glob (glob_items glob)
  ok (valid_files valid files)

-- The names of a listing that are directories, or those that are not.
unfoldable pub names_of : Bool → List (Text × Bool) → List Text
names_of dirs [] = []
names_of true ((name, is_dir) ∷ entries) =
    let rest = names_of true entries in if is_dir then name ∷ rest else rest
names_of false ((name, is_dir) ∷ entries) =
    let rest = names_of false entries in if is_dir then rest else name ∷ rest

abbrev pub is_found : StatResult → Bool
is_found (found is_dir mode) = true
is_found (missing e) = false

abbrev pub is_found_dir : StatResult → Bool
is_found_dir (found is_dir mode) = is_dir
is_found_dir (missing e) = false

abbrev pub is_missing : StatResult → Bool
is_missing (missing not_exist) = true
is_missing _ = false

-- currentPath[:len(currentPath)-1]
unfoldable pub drop_last : Text → Text
drop_last [] = []
drop_last (c ∷ []) = []
drop_last (c ∷ d ∷ s) = c ∷ drop_last (d ∷ s)

abbrev pub Expanded : Type 0
Expanded = Result (List Text × List Text)

-- The glob of the piece at an index.
abbrev pub piece_at : List Text → ℕ → Option Text
piece_at pieces index = get_elem? pieces index

abbrev pub wild_card_at : Option Text → Option Text
wild_card_at none = none
wild_card_at (some piece) = is_valid_wild_card piece

module _ (fs : FileSystem) (h : History) (others : OtherGlobs) (basepath : Text) where
  -- The closure isDirectory.
  unfoldable pub is_directory : Text → Bool
  is_directory [] = true
  is_directory (c ∷ path) = is_found_dir (fs.stat h (basepath ++ c ∷ path))

  -- The closure exists.
  unfoldable pub exists : Text → Bool
  unfolding clean
  exists [] = true
  exists (c ∷ path) =
      is_found (fs.stat h (basepath ++ c ∷ path))
      || not (is_missing (fs.stat h (basepath ++ clean (c ∷ path))))

  -- The closure expandWildCardFile, over the files in a folder.
  unfoldable pub expand_files : Text → List Text → List Text
  unfolding exists
  expand_files parent [] = []
  expand_files parent (file ∷ files) =
      let rest = expand_files parent files in
      if exists (parent ++ file) then (parent ++ file) ∷ rest else rest

  -- The loop over the directories: each takes the place of the wild card in the shared pieces.
  unfoldable pub expand_dirs : (List Text → Expanded) → ℕ → List Text → List Text → Expanded
  expand_dirs step index [] pieces = ok ([], pieces)
  expand_dirs step index (dir ∷ dirs) pieces = do
    (paths, pieces') ← step (set pieces index dir)
    (more, pieces'') ← expand_dirs step index dirs pieces'
    ok (paths ++ more, pieces'')

  -- A glob of one character is the star alone.
  abbrev pub filter_glob : Text → List Text → Result (List Text)
  filter_glob glob names =
      if ltb 1 (length glob) then filter_file_names others glob names else ok names

  abbrev pub expand_listing :
      (List Text → Expanded) → ℕ → List Text → Text → Text → Listing → Expanded
  expand_listing step index pieces glob parent (unlisted e) = panic
  expand_listing step index pieces glob parent (listed entries) = do
    files ← filter_glob glob (names_of false entries)
    dirs ← filter_glob glob (names_of true entries)
    (paths, pieces') ← expand_dirs step index dirs pieces
    parent' ← get_parent_path pieces' index
    ok (if suc index == length pieces' then paths ++ expand_files parent' files else paths, pieces')

  -- A piece that is no wild card, in a directory.
  abbrev pub expand_plain : Expanded → List Text → Text → Expanded
  expand_plain deeper pieces current =
      if not (is_directory current) && exists current
      then ok (drop_last current ∷ [], pieces)
      else deeper

  abbrev pub expand_piece :
      (List Text → Expanded) → Expanded → ℕ → List Text → Text → Text → Option Text → Expanded
  expand_piece step deeper index pieces current parent (some glob) =
      expand_listing step index pieces glob parent (fs.read_dir h (basepath ++ parent))
  expand_piece step deeper index pieces current parent none = expand_plain deeper pieces current

  -- expandWildCardRecursive. The fuel is for the calls: one for each piece and one more for each
  -- wild card, unless a directory has the name of a wild card.
  unfoldable pub expand_wild_card_recursive : ℕ → ℕ → List Text → Expanded
  unfolding is_directory exists expand_files expand_dirs filter_file_names names_of drop_last
      get_current_path get_parent_path is_valid_wild_card
  expand_wild_card_recursive zero index pieces = out_of_fuel
  expand_wild_card_recursive (suc f) index pieces =
      if leb (length pieces) index then ok ([], pieces) else do
        current ← get_current_path index pieces
        parent ← get_parent_path pieces index
        if is_directory parent
            then expand_piece (expand_wild_card_recursive f index)
                (expand_wild_card_recursive f (suc index) pieces) index pieces current parent
                (wild_card_at (piece_at pieces index))
            else if exists current
            then ok (drop_last current ∷ [], pieces)
            else ok ([], pieces)

  -- expandWildCard
  unfoldable pub expand_wild_card : ℕ → Text → Result (List Text)
  unfolding expand_wild_card_recursive split
  expand_wild_card fuel path = do
    (paths, pieces) ← expand_wild_card_recursive fuel 0 (split slash path)
    ok paths

  -- The paths that contain a star, expanded.
  unfoldable pub expand_paths : ℕ → List Text → Result (List Text)
  unfolding expand_wild_card occurs_in
  expand_paths fuel [] = ok []
  expand_paths fuel (path ∷ paths) =
      if occurs_in (codes "*") path
      then (do
        these ← expand_wild_card fuel path
        rest ← expand_paths fuel paths
        ok (these ++ rest))
      else expand_paths fuel paths

-- expandWildCards
unfoldable pub expand_wild_cards :
    FileSystem → History → OtherGlobs → ℕ → MutationConfig → Result MutationConfig
unfolding expand_paths remove_wild_card_paths
expand_wild_cards fs h others fuel config = do
  include ← expand_paths fs h others config.project_root fuel config.mutate.files_to_include
  exclude ← expand_paths fs h others config.project_root fuel config.mutate.files_to_exclude
  ok (record config {
    mutate = record config.mutate {
      files_to_include = remove_wild_card_paths config.mutate.files_to_include ++ include;
      files_to_exclude = remove_wild_card_paths config.mutate.files_to_exclude ++ exclude;
    };
  })
