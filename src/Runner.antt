-- ===== src/Runner.antt =====
-- The state of the test runner (cmd/mutation-framework/test_runner.go): mutationStats and the
-- codes of main.go, the table of statistics, the table of failed tests, MutantInfo, and the
-- commands that the runner gives to the system. What a command answers is a parameter, which may
-- depend on everything that was done before.
pub mod Redundant
pub mod Execute
use mutation_framework.Base.{
  ℕ, ◌+◌, List, [], ◌∷◌, Bool, true, false, Option, none, some, if◌then◌else◌,
}
use mutation_framework.Base.Text.{Text, text_eq}

-- An exit status: -1 (`negsuc 0`) when a signal ended the process.
pub data ℤ : Type 0 where
  pos negsuc : ℕ → ℤ

abbrev pub exec_passed : ℤ
exec_passed = pos 0

abbrev pub exec_failed : ℤ
exec_failed = pos 1

abbrev pub exec_skipped : ℤ
exec_skipped = pos 2

abbrev pub return_ok : ℤ
return_ok = pos 0

abbrev pub return_error : ℤ
return_error = pos 3

pub record MutationStats : Type 0 where
  pub passed : ℕ
  pub failed : ℕ
  pub duplicated : ℕ
  pub skipped : ℕ

abbrev pub no_stats : MutationStats
no_stats = record { passed = 0; failed = 0; duplicated = 0; skipped = 0 }

unfoldable pub total : MutationStats → ℕ
total ms = ms.passed + ms.failed + ms.skipped

-- pkg is nil where the file did not parse.
pub record MutantInfo : Type 0 where
  pub pkg : Option Text
  pub original_file_relative_path : Text
  pub mutant_dir_path_abs_path : Text
  pub mutation_file_abs_path : Text
  pub checksum : Text

-- Of the configuration, what the runner reads.
pub record TestConfig : Type 0 where
  pub disable : Bool
  pub timeout : ℕ
  pub test : Text
  pub build : Text
  pub clean_up : Text
  pub mutant_folder : Text

pub data Command : Type 0 where
  build_command : Text → Command
  diff_command : Text → Text → Command
  custom_test : List Text → Command
  default_test : ℕ → Text → Command
  clean_up_command : Text → Command

-- What the runner called: a command, moveAllContentsExceptMutantFolder from a folder to another and
-- whether that succeeded, os.Symlink, os.RemoveAll.
pub data Event : Type 0 where
  ran : Command → Event
  moved : Text → Text → Bool → Event
  linked : Text → Event
  removed : Text → Event

-- How CombinedOutput ends: without an error, with an ExitError, with another error.
pub data CommandError : Type 0 where
  no_error : CommandError
  exit_error : ℤ → CommandError
  other_error : CommandError

-- The answers of the system, given the events before, the last one first: a command's end and its
-- output, and whether moving the contents succeeds.
pub record System : Type 0 where
  pub command : List Event → Command → CommandError × Text
  pub move : List Event → Text → Text → Bool

abbrev pub StatsMap : Type 0
StatsMap = List (Text × MutationStats)

abbrev pub TestsMap : Type 0
TestsMap = List (Text × List Text)

-- The package's variables, allStats, and the events, the last one first.
pub record World : Type 0 where
  pub all_stats : StatsMap
  pub tests_to_mutants : TestsMap
  pub trace : List Event

module _ {ℓ} {A : Type ℓ} where
  unfoldable pub lookup : Text → List (Text × A) → Option A
  unfolding text_eq
  lookup key [] = none
  lookup key ((k, v) ∷ rest) = if text_eq k key then some v else lookup key rest

  -- m[key] = value
  unfoldable pub insert : Text → A → List (Text × A) → List (Text × A)
  unfolding text_eq
  insert key value [] = (key, value) ∷ []
  insert key value ((k, v) ∷ rest) =
      if text_eq k key then (k, value) ∷ rest else (k, v) ∷ insert key value rest
