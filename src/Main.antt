-- ===== src/Main.antt =====
-- The command line (cmd/mutation-framework/main.go): the flags, what they change in the
-- configuration, and the two phases of a run. go-flags is a parameter, so is the order in which the
-- loop over the map of files meets its entries.
pub mod Arguments
pub mod Laws
pub mod Whole
use mutation_framework.Base.{
  ℕ, Bool, true, false, not, ◌&&◌, ◌||◌, List, [], ◌∷◌, Option, none, some, leb, ◌==◌,
  if◌then◌else◌, Result, ok, panic, out_of_fuel, ◌>>=◌,
}
use mutation_framework.Base.Text.{Text}
use mutation_framework.Registry.{Lookup}
use mutation_framework.Operators.Init.{Operator}
use mutation_framework.FileSystem.{FileSystem, History}
use mutation_framework.Config.{MutationConfig}
use mutation_framework.Config.Files.{get_relative_and_absolute_files}
use mutation_framework.Config.Expand.{OtherGlobs}
use mutation_framework.Config.Load.{Formats, Loaded, get_config}
use mutation_framework.Parsing.{Loader}
use mutation_framework.Making.{Printing, FilesMade, mutate_files}
use mutation_framework.Search.{find_all_mutants_in_folder}
use mutation_framework.Runner.{
  ℤ, pos, negsuc, return_ok, return_error, MutantInfo, TestConfig, System, World, StatsMap,
}
use mutation_framework.Runner.Execute.{Run, execute_all_mutants}
use mutation_framework.Main.Arguments.{
  Args, Flags, Checked, check_arguments, deref, consolidate_args_into_config, set_up_logging, exits,
  goes_on,
}

-- What the runner reads of the configuration.
abbrev pub runner_config : MutationConfig → TestConfig
runner_config config = record {
  disable = config.test_config.disable_test;
  timeout = config.test_config.timeout_seconds;
  test = config.test_config.commands.test_command;
  build = config.test_config.commands.build_script;
  clean_up = config.test_config.commands.clean_up_script;
  mutant_folder = config.mutate.folder;
}

abbrev is_return_error : ℤ → Bool
is_return_error (pos n) = n == 3
is_return_error (negsuc n) = false

-- What surrounds the program; the system answers given the calls of the file system before.
pub record Surroundings : Type 0 where
  pub fs : FileSystem
  pub printing : Printing
  pub loader : Loader
  pub others : OtherGlobs
  pub formats : Formats
  pub cwd : Option Text
  pub system : History → System
  pub order : List (Text × Text) → List (Text × Text)

-- The pointer that getConfig returns: nil with an error.
abbrev pub config_of : Option Loaded → Option MutationConfig
config_of none = none
config_of (some (config, operators)) = some config

abbrev pub operators_of : Option Loaded → List (Text × Operator)
operators_of none = []
operators_of (some (config, operators)) = operators

module _ (s : Surroundings) (fuel : ℕ) where
  -- The second phase of performMutationTesting.
  unfoldable pub run_tests : MutationConfig → List MutantInfo → StatsMap → World → History → Run ℤ
  unfolding execute_all_mutants
  run_tests config mutants all_stats w h =
      if config.test_config.disable_test
      then (ok return_ok, record w { all_stats = all_stats })
      else execute_all_mutants (s.system h) (runner_config config) mutants
          (record w { all_stats = all_stats })

  abbrev pub after_mutating : MutationConfig → World → Result FilesMade → Run ℤ
  after_mutating config w (ok (all_stats, infos, code, h)) =
      if is_return_error code then (ok code, w) else run_tests config infos all_stats w h
  after_mutating config w panic = (panic, w)
  after_mutating config w out_of_fuel = (out_of_fuel, w)

  abbrev pub after_search :
      MutationConfig → World → History → Result (Option (List MutantInfo) × StatsMap) → Run ℤ
  after_search config w h (ok (some mutants, all_stats)) = run_tests config mutants all_stats w h
  after_search config w h (ok (none, all_stats)) = (ok return_error, w)
  after_search config w h panic = (panic, w)
  after_search config w h out_of_fuel = (out_of_fuel, w)

  unfoldable pub perform_mutation_testing :
      MutationConfig → List (Text × Operator) → List (Text × Text) → World → History → Run ℤ
  unfolding mutate_files find_all_mutants_in_folder run_tests
  perform_mutation_testing config operators files w h =
      if config.mutate.disable_mutate
      then after_search config w h
          (find_all_mutants_in_folder s.fs h s.printing.md5 s.loader files fuel config [])
      else after_mutating config w
          (mutate_files s.fs s.printing s.loader config operators s.cwd fuel files [] [] h)

  -- initializeExecution behind checkArguments. Where getConfig fails, its error is only logged,
  -- and the pointer to the configuration is nil.
  unfoldable pub initialize_execution : Lookup Operator → Args → History → Result Loaded
  unfolding get_config consolidate_args_into_config set_up_logging
  initialize_execution mutators opts h = do
    loaded ← get_config s.formats mutators s.fs h s.others fuel opts.general.config_path
    config ← consolidate_args_into_config opts (config_of loaded)
    logging ← set_up_logging config
    c ← deref config
    ok (c, operators_of loaded)

  abbrev pub after_initialize : World → History → Result Loaded → Run ℤ
  after_initialize w h (ok (config, operators)) =
      perform_mutation_testing config operators (s.order (get_relative_and_absolute_files config)) w
        h
  after_initialize w h panic = (panic, w)
  after_initialize w h out_of_fuel = (out_of_fuel, w)

  abbrev pub after_check : Lookup Operator → World → History → Checked → Run ℤ
  after_check mutators w h (exits code) = (ok code, w)
  after_check mutators w h (goes_on opts) =
      after_initialize w h (initialize_execution mutators opts h)

  -- mainCmd
  unfoldable pub main_cmd : Flags → Text → Lookup Operator → List Text → World → History → Run ℤ
  unfolding check_arguments initialize_execution perform_mutation_testing
      get_relative_and_absolute_files
  main_cmd flags completion mutators args w h =
      after_check mutators w h (check_arguments flags completion args)
