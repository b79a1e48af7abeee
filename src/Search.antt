-- ===== src/Search.antt =====
-- The search for mutants of an earlier run (cmd/mutation-framework/test_runner.go):
-- findAllMutantsInFolder and what it calls. It only reads the file system, whose state is given by
-- the calls before.
pub mod Found
pub mod Laws
pub mod Pattern
pub mod Names
use mutation_framework.Base.{
  ℕ, zero, suc, Bool, true, false, ◌||◌, List, [], ◌∷◌, ◌++◌, Option, none, some, ◌==◌,
  if◌then◌else◌, Result, ok, panic, out_of_fuel, ◌>>=◌,
}
use mutation_framework.Base.Text.{Text, codes}
use mutation_framework.Regex.{
  Item, chars, one, plus, star, any_char, is_digit, literal, match_string, find_all,
}
use mutation_framework.Paths.{append_folder, clean}
use mutation_framework.Config.{MutationConfig}
use mutation_framework.Config.Expand.{is_name_char}
use mutation_framework.MutantNames.{get_absolute_mutation_folder_path}
use mutation_framework.Runner.{MutantInfo, no_stats, StatsMap, lookup, insert}
use mutation_framework.FileSystem.{FileSystem, History, Listing, listed, unlisted}
use mutation_framework.Parsing.{Loader, Parsed, parse_and_type_check_file}

-- `([\w\-. ]+.go)[\w\-. ]*.[\d]+`
unfoldable pub mutant_pattern : List Item
unfolding literal
mutant_pattern =
    chars plus true is_name_char
    ∷ chars one true any_char
    ∷ (literal true (codes "go")
        ++ chars star false is_name_char
          ∷ chars one false any_char
          ∷ chars plus false is_digit
          ∷ [])

unfoldable pub is_mutant : Text → Bool
unfolding mutant_pattern match_string clean
is_mutant candidate = match_string mutant_pattern (clean candidate)

abbrev pub first_group : Text → List Text → Result Text
first_group path_so_far [] = panic
first_group path_so_far (group ∷ groups) = ok (append_folder path_so_far group)

-- getMutatedFileRelativePath; a name without a match panics.
unfoldable pub get_mutated_file_relative_path : Text → Text → Result Text
unfolding mutant_pattern find_all append_folder
get_mutated_file_relative_path path_so_far mutant_folder =
    first_group path_so_far (find_all mutant_pattern mutant_folder)

-- What createNewMutantInfo returns: an error, nil, a mutant.
pub data NewInfo : Type 0 where
  unreadable not_wanted : NewInfo
  new_info : MutantInfo → NewInfo

-- The mutants so far, and allStats.
abbrev pub Search : Type 0
Search = List MutantInfo × StatsMap

-- What findMutantsRecursive returns, true for nil, and the variables that it writes.
abbrev pub Searched : Type 0
Searched = Result (Bool × Search)

abbrev pub package_of : Option Parsed → Option Text
package_of none = none
package_of (some parsed) = some parsed.pkg_path

abbrev pub sum_of : (Text → Text) → Option Text → Option Text
sum_of md5 none = none
sum_of md5 (some content) = some (md5 content)

abbrev pub all_or_none : Bool × Search → Option (List MutantInfo) × StatsMap
all_or_none (true, (mutants, all_stats)) = (some mutants, all_stats)
all_or_none (false, (mutants, all_stats)) = (none, all_stats)

module _ (fs : FileSystem) (h : History) (md5 : Text → Text) (loader : Loader)
    (files : List (Text × Text)) where
  -- getChecksum
  abbrev pub get_checksum : Text → Option Text
  get_checksum path = sum_of md5 (fs.read_file h path)

  -- createNewMutantInfo behind the check of the specified files; the error of the parser is ignored.
  abbrev pub accept : Text → Text → Text → StatsMap → Result (NewInfo × StatsMap)
  accept original current checksum all_stats = do
    parsed ← parse_and_type_check_file fs loader original h
    ok (
      new_info (record {
        pkg = package_of parsed;
        original_file_relative_path = original;
        mutant_dir_path_abs_path = current;
        mutation_file_abs_path = append_folder current original;
        checksum = checksum;
      }),
      insert original no_stats all_stats,
    )

  abbrev pub check_files :
      Text → Text → Option Text → Option Text → StatsMap → Result (NewInfo × StatsMap)
  check_files original current none accepted all_stats = ok (unreadable, all_stats)
  check_files original current (some checksum) none all_stats = ok (not_wanted, all_stats)
  check_files original current (some checksum) (some _) all_stats =
      accept original current checksum all_stats

  unfoldable pub create_new_mutant_info :
      Text → Text → Text → StatsMap → Result (NewInfo × StatsMap)
  unfolding get_mutated_file_relative_path parse_and_type_check_file append_folder lookup insert
  create_new_mutant_info path_so_far name abs_path all_stats = do
    original ← get_mutated_file_relative_path path_so_far name
    check_files original (append_folder abs_path name)
        (get_checksum (append_folder (append_folder abs_path name) original))
        (lookup original files) all_stats

  -- The loop behind a mutant directory: an error ends it.
  abbrev pub after_info : List MutantInfo → NewInfo × StatsMap → (Search → Searched) → Searched
  after_info mutants (unreadable, all_stats) next = ok (false, (mutants, all_stats))
  after_info mutants (not_wanted, all_stats) next = next (mutants, all_stats)
  after_info mutants (new_info info, all_stats) next = next (mutants ++ info ∷ [], all_stats)

  -- The loop of findMutantsRecursive over a directory. What a call for a directory below returns
  -- is dropped.
  unfoldable pub find_in_entries :
      (Text → Text → Search → Searched) → Text → Text → List (Text × Bool) → Search → Searched
  unfolding create_new_mutant_info is_mutant append_folder
  find_in_entries step abs_path path_so_far [] state = ok (true, state)
  find_in_entries step abs_path path_so_far ((name, false) ∷ entries) state =
      find_in_entries step abs_path path_so_far entries state
  find_in_entries step abs_path path_so_far ((name, true) ∷ entries) (mutants, all_stats) =
      if is_mutant name
      then create_new_mutant_info path_so_far name abs_path all_stats >>= (λ info.
        after_info mutants info (λ state. find_in_entries step abs_path path_so_far entries state))
      else (step (append_folder abs_path name) (append_folder path_so_far name) (mutants, all_stats)
          >>= λ below. find_in_entries step abs_path path_so_far entries (below.1))

  abbrev pub in_listing :
      (Text → Text → Search → Searched) → Text → Text → Listing → Search → Searched
  in_listing step abs_path path_so_far (unlisted e) state = ok (false, state)
  in_listing step abs_path path_so_far (listed entries) state =
      find_in_entries step abs_path path_so_far entries state

  -- findMutantsRecursive, with fuel for the levels of directories.
  unfoldable pub find_mutants_recursive : ℕ → Text → Text → Search → Searched
  unfolding find_in_entries
  find_mutants_recursive zero abs_path path_so_far state = out_of_fuel
  find_mutants_recursive (suc f) abs_path path_so_far state =
      in_listing (λ abs_path path_so_far state. find_mutants_recursive f abs_path path_so_far state)
        abs_path path_so_far (fs.read_dir h abs_path) state

  -- findAllMutantsInFolder; `none` is an error.
  unfoldable pub find_all_mutants_in_folder :
      ℕ → MutationConfig → StatsMap → Result (Option (List MutantInfo) × StatsMap)
  unfolding find_mutants_recursive get_absolute_mutation_folder_path
  find_all_mutants_in_folder fuel config all_stats = do
    answer ←
        find_mutants_recursive fuel (get_absolute_mutation_folder_path config) [] ([], all_stats)
    ok (all_or_none answer)
