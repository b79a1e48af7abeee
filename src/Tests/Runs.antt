-- ===== src/Tests/Runs.antt =====
-- The runner and the paths, at a concrete system and concrete texts.
use mathlib.Core.List.{Permᴰ}
use mutation_framework.Runner.Redundant.Keys.{get_test_key-Perm}
use mutation_framework.Base.{length}
use mutation_framework.Base.{
  true, false, List, [], ◌∷◌, ◌++◌, none, some, ◌≡◌, refl, inl, inr, ◌⊎◌, ok, panic,
}
use mutation_framework.Base.Text.{Text, codes, text_eq}
use mutation_framework.Paths.{
  split, concat_adding_slash_if_needed, slash, get_current_path, get_parent_path, clean,
  do_not_copy_dir,
}
use mutation_framework.Paths.Laws.{
  trim_suffix, trim_prefix, concat_adding_slash_if_needed_lem, get_current_path-split,
}
use mutation_framework.Runner.{
  ℤ, pos, MutantInfo, TestConfig, Command, build_command, diff_command, custom_test, default_test,
  clean_up_command, CommandError, no_error, exit_error, System, World, no_stats, return_ok, lookup,
  Event, ran, moved, return_error,
}
use mutation_framework.Runner.Redundant.{get_failed_tests, get_test_key}
use mutation_framework.Runner.Redundant.Laws.{put_all, put_all-lookup, killed_by, stored}
use mutation_framework.Runner.Execute.{
  execute_mutants, execute_all_mutants, run_tests_for_mutant, original_artifact_folder, log_event,
  exit_status,
}
use mutation_framework.Runner.Execute.Trace.Ends.{
  MovesBack, execute_all_mutants-restores, run_tests_for_mutant-cleans_up,
}
use mutation_framework.Runner.Execute.Counts.{Answers, Counted}
use mutation_framework.Runner.Execute.Counts.Loop.{execute_mutants-IsCounted}

-- A system on which every test fails.
abbrev answer : Command → CommandError × Text
answer (build_command c) = (no_error, [])
answer (diff_command file mutant) = (exit_error (pos 1), [])
answer (custom_test args) = (exit_error (pos 1), codes "--- FAIL: TestSend (0.00s)")
answer (default_test seconds name) = (exit_error (pos 1), codes "--- FAIL: TestSend (0.00s)")
answer (clean_up_command c) = (no_error, [])

abbrev failing : System
failing = record { command = λ _ c. answer c; move = λ _ _ _. true }

abbrev config : TestConfig
config = record {
  disable = false;
  timeout = 10;
  test = codes "./test.sh -v";
  build = codes "./build.sh";
  clean_up = codes "./clean.sh";
  mutant_folder = codes "mutants/";
}

abbrev mutant : MutantInfo
mutant = record {
  pkg = none;
  original_file_relative_path = codes "a.go";
  mutant_dir_path_abs_path = codes "mutants/a.go.branch-if.0";
  mutation_file_abs_path = codes "mutants/a.go.branch-if.0/a.go";
  checksum = codes "d41d8";
}

abbrev world : World
world = record { all_stats = (codes "a.go", no_stats) ∷ []; tests_to_mutants = []; trace = [] }

failing-Answers : Answers failing config
failing-Answers = record {
  build = λ h. refl;
  clean = λ h. refl;
  diff = λ h file m. inr refl;
  test = λ h c e. go c;
}
  where
    go : (c : Command) → (code : ℤ) × (exit_status ((answer c).0) ≡ ok code)
    go (build_command c) = (pos 0, refl)
    go (diff_command file m) = (pos 1, refl)
    go (custom_test args) = (pos 1, refl)
    go (default_test seconds name) = (pos 1, refl)
    go (clean_up_command c) = (pos 0, refl)

no_text : text_eq config.test [] ≡ false
unfolding text_eq
no_text = refl

to_clean : text_eq config.clean_up [] ≡ false
unfolding text_eq
to_clean = refl

has_stats : lookup mutant.original_file_relative_path world.all_stats ≡ some no_stats
unfolding lookup
has_stats = refl

execute_mutants-IsCounted_example :
    Counted failing world (execute_mutants failing config return_ok (mutant ∷ mutant ∷ []) world)
execute_mutants-IsCounted_example =
    execute_mutants-IsCounted failing config failing-Answers return_ok (mutant ∷ mutant ∷ []) world
      ((inl no_text, (no_stats, has_stats)), ((inl no_text, (no_stats, has_stats)), tt))
      (refl, refl, refl)

-- The failing tests of the two mutants are counted as passed, and only the second is in the table.
two_mutants :
    ((execute_mutants failing config return_ok (mutant ∷ mutant ∷ []) world).1.all_stats
      ≡ (codes "a.go", record { passed = 2; failed = 0; duplicated = 0; skipped = 0 }) ∷ [])
    × ((execute_mutants failing config return_ok (mutant ∷ mutant ∷ []) world).1.tests_to_mutants
        ≡ (codes "TestSend", mutant.mutation_file_abs_path ∷ []) ∷ [])
unfolding execute_mutants
two_mutants = (refl, refl)

execute_all_mutants-restores_example :
    (failing.move [] (codes ".") (original_artifact_folder failing config) ≡ false)
      × (execute_all_mutants failing config (mutant ∷ []) world ≡ (
        ok return_error,
        log_event (moved (codes ".") (original_artifact_folder failing config) false) world,
      ))
    ⊎ (failing.move [] (codes ".") (original_artifact_folder failing config) ≡ true)
      × MovesBack failing config
          (original_artifact_folder failing config)
          (moved (codes ".") (original_artifact_folder failing config) true ∷ [])
          (execute_all_mutants failing config (mutant ∷ []) world)
execute_all_mutants-restores_example =
    execute_all_mutants-restores failing config (mutant ∷ []) world

run_tests_for_mutant-cleans_up_example :
    ((events : List Event) × ((run_tests_for_mutant failing config mutant world).1.trace
        ≡ ran (clean_up_command config.clean_up) ∷ events))
    ⊎ (run_tests_for_mutant failing config mutant world
        ≡ (panic, log_event (ran (build_command config.build)) world))
run_tests_for_mutant-cleans_up_example =
    run_tests_for_mutant-cleans_up failing config mutant world to_clean

abbrev test_runs : List (Text × Text)
test_runs =
    (codes "m0", codes "--- FAIL: TestB (0.00s)\n--- FAIL: TestA (0.00s)\n")
    ∷ (codes "m1", codes "ok")
    ∷ (codes "m2", codes "--- FAIL: TestA (0.01s)\n--- FAIL: TestB (0.01s)\n")
    ∷ []

-- The first mutant of the two is not in the table.
put_all-lookup_example :
    lookup (codes "TestA, TestB") (put_all test_runs [])
    ≡ stored none (killed_by (codes "TestA, TestB") test_runs)
put_all-lookup_example = put_all-lookup (codes "TestA, TestB") test_runs

two_killed : killed_by (codes "TestA, TestB") test_runs ≡ codes "m0" ∷ codes "m2" ∷ []
unfolding get_failed_tests get_test_key text_eq
two_killed = refl

one_slash : concat_adding_slash_if_needed (codes "mutants/") (codes "/a.go") ≡ codes "mutants/a.go"
unfolding concat_adding_slash_if_needed
one_slash = refl

concat_adding_slash_if_needed_lem_example :
    concat_adding_slash_if_needed (codes "mutants/") (codes "/a.go")
    ≡ trim_suffix (codes "mutants/") ++ slash ∷ trim_prefix (codes "/a.go")
concat_adding_slash_if_needed_lem_example =
    concat_adding_slash_if_needed_lem (codes "mutants/") (codes "/a.go")

three_pieces : length (split slash (codes "a/b/c.go")) ≡ 3
unfolding split
three_pieces = refl

get_current_path-split_example :
    (get_current_path 2 (split slash (codes "a/b/c.go")) ≡ ok (codes "a/b/c.go" ++ slash ∷ []))
    × (get_parent_path (split slash (codes "a/b/c.go")) 3 ≡ ok (codes "a/b/c.go" ++ slash ∷ []))
get_current_path-split_example = get_current_path-split (codes "a/b/c.go") 2 three_pieces

cleaned : clean (codes "a//b/../c/.") ≡ codes "a/c"
unfolding clean
cleaned = refl

git_stays : do_not_copy_dir (codes ".git") (codes "mutants/original") ≡ true
unfolding do_not_copy_dir
git_stays = refl

get_test_key-Perm_example :
    get_test_key (codes "TestB" ∷ codes "TestA" ∷ [])
    ≡ get_test_key (codes "TestA" ∷ codes "TestB" ∷ [])
get_test_key-Perm_example =
    get_test_key-Perm (codes "TestB" ∷ codes "TestA" ∷ []) (codes "TestA" ∷ codes "TestB" ∷ [])
      (Permᴰ.swap refl refl)
