-- ===== src/Runner/Redundant.antt =====
-- The table testsToMutants of cmd/mutation-framework/test_runner.go: getFailedTests, getTestKey,
-- putFailedTestsInMap and the groups that getRedundantCandidates logs.
pub mod Laws
pub mod Keys
use mutation_framework.Base.{
  ℕ, Bool, true, false, List, [], ◌∷◌, ◌++◌, Option, none, some, length, ltb,
}
use mutation_framework.Base.{◌==◌, if◌then◌else◌}
use mutation_framework.Base.Text.{Text, codes}
use mutation_framework.Regex.{Item, chars, opt, star, literal, find_all, is_space, is_word}
use mutation_framework.Registry.{sort_texts}
use mutation_framework.Runner.{TestsMap, lookup, insert}

-- `FAIL:?[\s]*([\w]*)`
unfoldable pub test_name_regex : List Item
unfolding literal
test_name_regex =
    literal false (codes "FAIL")
    ++ chars opt false (λ c. c == b':') ∷ chars star false is_space ∷ chars star true is_word ∷ []

unfoldable pub get_failed_tests : Text → List Text
unfolding find_all test_name_regex
get_failed_tests output = find_all test_name_regex output

-- strings.Join with ", "
unfoldable pub join_names : List Text → Text
join_names [] = []
join_names (name ∷ []) = name
join_names (name ∷ next ∷ rest) = name ++ codes ", " ++ join_names (next ∷ rest)

unfoldable pub get_test_key : List Text → Text
unfolding sort_texts join_names
get_test_key tests = join_names (sort_texts tests)

-- The value that is stored: nil, or the mutants of the key and the new one.
abbrev pub new_value : Text → Option (List Text) → List Text
new_value mutation_file none = []
new_value mutation_file (some existing) = existing ++ mutation_file ∷ []

-- The map, from the key on.
unfoldable pub put_key : Text → Text → TestsMap → TestsMap
unfolding lookup insert
put_key key mutation_file tests_to_mutants =
    insert key (new_value mutation_file (lookup key tests_to_mutants)) tests_to_mutants

abbrev put_failed_tests : Text → List Text → TestsMap → TestsMap
put_failed_tests mutation_file [] tests_to_mutants = tests_to_mutants
put_failed_tests mutation_file (test ∷ tests) tests_to_mutants =
    put_key (get_test_key (test ∷ tests)) mutation_file tests_to_mutants

unfoldable pub put_failed_tests_in_map : Text → Text → TestsMap → TestsMap
unfolding get_failed_tests get_test_key put_key
put_failed_tests_in_map mutation_file output tests_to_mutants =
    put_failed_tests mutation_file (get_failed_tests output) tests_to_mutants

-- The groups that getRedundantCandidates logs as potential duplicates.
unfoldable pub get_redundant_candidates : TestsMap → List (List Text)
get_redundant_candidates [] = []
get_redundant_candidates ((key, mutants) ∷ rest) =
    if ltb 1 (length mutants)
    then mutants ∷ get_redundant_candidates rest
    else get_redundant_candidates rest
