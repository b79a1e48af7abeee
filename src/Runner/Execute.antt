-- ===== src/Runner/Execute.antt =====
-- The runs of cmd/mutation-framework/test_runner.go, from executeAllMutants down to the commands.
-- A run keeps the world also when it panics, since the deferred calls still work on it.
pub mod Trace
pub mod Counts
use mutation_framework.Base.{
  ℕ, suc, Bool, true, false, List, [], ◌∷◌, ◌++◌, Option, none, some, ◌==◌, ◌||◌,
}
use mutation_framework.Base.{if◌then◌else◌, Result, ok, panic, out_of_fuel}
use mutation_framework.Base.Text.{Text, codes, text_eq}
use mutation_framework.Paths.{append_folder, split}
use mutation_framework.Runner.{
  ℤ, pos, negsuc, exec_passed, exec_failed, exec_skipped, return_ok, return_error, MutationStats,
  MutantInfo, TestConfig, Command, build_command, diff_command, custom_test, default_test,
  clean_up_command, Event, ran, moved, linked, removed, CommandError, no_error, exit_error,
  other_error, System, World, StatsMap, lookup, insert,
}
use mutation_framework.Runner.Redundant.{put_failed_tests_in_map}

abbrev pub Run : Type 0 → Type 0
Run A = Result A × World

infixl 5 ◌>>=◌
unfoldable pub ◌>>=◌ : {A B : Type 0} → Run A → (A → World → Run B) → Run B
(ok a, w) >>= f = f a w
(panic, w) >>= f = (panic, w)
(out_of_fuel, w) >>= f = (out_of_fuel, w)

abbrev after : {A : Type 0} → Result A → Run Unit → Run A
after r (ok _, w) = (r, w)
after r (panic, w) = (panic, w)
after r (out_of_fuel, w) = (out_of_fuel, w)

-- A run with a deferred call, which happens also when the run panics.
unfoldable pub deferred : {A : Type 0} → Run A → (World → Run Unit) → Run A
deferred (r, w) call = after r (call w)

abbrev pub log_event : Event → World → World
log_event event w = record w { trace = event ∷ w.trace }

-- The switch on the test command's exit status in determinePassOrFail.
unfoldable pub determine_pass_or_fail : ℤ → ℤ
determine_pass_or_fail (pos n) =
    if n == 0
    then exec_failed
    else if n == 1
    then exec_passed
    else if n == 2
    then exec_skipped
    else pos n
determine_pass_or_fail (negsuc n) = negsuc n

-- The exit status of a command that CombinedOutput ran; another error than an ExitError panics.
abbrev pub exit_status : CommandError → Result ℤ
exit_status no_error = ok exec_passed
exit_status (exit_error code) = ok code
exit_status other_error = panic

abbrev no_failure : CommandError → World → Run Unit
no_failure no_error w = (ok tt, w)
no_failure (exit_error code) w = (panic, w)
no_failure other_error w = (panic, w)

-- The switch on the exit code in executeForMutant.
abbrev pub count_code : ℤ → MutationStats → MutationStats
count_code (pos n) stats =
    if n == 0
    then record stats { passed = suc stats.passed }
    else if n == 1
    then record stats { failed = suc stats.failed }
    else if n == 2
    then record stats { skipped = suc stats.skipped }
    else stats
count_code (negsuc n) stats = stats

-- Whether the switch writes to the statistics.
abbrev pub is_counted : ℤ → Bool
is_counted (pos n) = n == 0 || n == 1 || n == 2
is_counted (negsuc n) = false

-- Writing through the pointer of the file's statistics; a nil pointer panics.
abbrev count_at : Text → ℤ → Option MutationStats → World → Run ℤ
count_at file code (some stats) w =
    (ok code, record w { all_stats = insert file (count_code code stats) w.all_stats })
count_at file code none w = if is_counted code then (panic, w) else (ok code, w)

abbrev pub count_for : Text → ℤ → World → Run ℤ
count_for file code w = count_at file code (lookup file w.all_stats) w

module _ (system : System) (config : TestConfig) where
  -- runBuildCommand
  unfoldable pub run_build_command : World → Run Unit
  unfolding text_eq
  run_build_command w =
      if text_eq config.build []
      then (ok tt, w)
      else no_failure ((system.command w.trace (build_command config.build)).0)
          (log_event (ran (build_command config.build)) w)

  -- runCleanUpCommand
  unfoldable pub run_clean_up_command : World → Run Unit
  unfolding text_eq
  run_clean_up_command w =
      if text_eq config.clean_up []
      then (ok tt, w)
      else no_failure ((system.command w.trace (clean_up_command config.clean_up)).0)
          (log_event (ran (clean_up_command config.clean_up)) w)

  abbrev diff_status : Result ℤ → World → Run Unit
  diff_status (ok (pos n)) w = if n == 0 || n == 1 then (ok tt, w) else (panic, w)
  diff_status _ w = (panic, w)

  -- showDiff
  unfoldable pub show_diff : Text → Text → World → Run Unit
  show_diff file mutation_file w =
      diff_status (exit_status ((system.command w.trace (diff_command file mutation_file)).0))
        (log_event (ran (diff_command file mutation_file)) w)

  abbrev test_status : Text → Text → Result ℤ → World → Run ℤ
  test_status mutation_file output (ok code) w = (
    ok (determine_pass_or_fail code),
    record w { tests_to_mutants = put_failed_tests_in_map mutation_file output w.tests_to_mutants },
  )
  test_status mutation_file output panic w = (panic, w)
  test_status mutation_file output out_of_fuel w = (out_of_fuel, w)

  -- executeTestCommand, from the test command on
  unfoldable pub run_test_command : Text → Command → World → Run ℤ
  unfolding determine_pass_or_fail put_failed_tests_in_map
  run_test_command mutation_file test_command w =
      test_status mutation_file ((system.command w.trace test_command).1)
        (exit_status ((system.command w.trace test_command).0)) (log_event (ran test_command) w)

  -- executeTestCommand
  unfoldable pub execute_test_command : Text → Text → Command → World → Run ℤ
  unfolding show_diff run_test_command ◌>>=◌
  execute_test_command file mutation_file test_command w =
      show_diff file mutation_file w >>= λ _ w. run_test_command mutation_file test_command w

  -- customTestMutateExec
  abbrev custom_test_mutate_exec : Text → Text → Text → World → Run ℤ
  custom_test_mutate_exec original_file mutation_file test_command w =
      execute_test_command original_file mutation_file (custom_test (split b' ' test_command)) w

  -- defaultMutateExec; a nil package panics.
  abbrev default_mutate_exec : Option Text → Text → Text → World → Run ℤ
  default_mutate_exec none file mutation_file w = (panic, w)
  default_mutate_exec (some pkg_name) file mutation_file w =
      execute_test_command file mutation_file (default_test config.timeout pkg_name) w

  -- The test command of a mutant, custom or not.
  unfoldable pub mutate_exec : MutantInfo → World → Run ℤ
  unfolding text_eq split execute_test_command
  mutate_exec mutant w =
      if text_eq config.test []
      then default_mutate_exec mutant.pkg mutant.mutant_dir_path_abs_path
          mutant.mutation_file_abs_path w
      else custom_test_mutate_exec mutant.original_file_relative_path mutant.mutation_file_abs_path
          config.test w

  unfoldable pub run_tests_for_mutant : MutantInfo → World → Run ℤ
  unfolding run_build_command run_clean_up_command mutate_exec ◌>>=◌ deferred
  run_tests_for_mutant mutant w =
      run_build_command w >>= λ _ w. deferred (mutate_exec mutant w) run_clean_up_command

  unfoldable pub execute_for_mutant : MutantInfo → World → Run ℤ
  unfolding run_tests_for_mutant lookup insert ◌>>=◌
  execute_for_mutant mutant w =
      if config.disable
      then (ok return_ok, w)
      else run_tests_for_mutant mutant w >>= count_for mutant.original_file_relative_path

  -- The loop of executeAllMutants over the mutants, with the exit code so far.
  unfoldable pub execute_mutants : ℤ → List MutantInfo → World → Run ℤ
  unfolding execute_for_mutant ◌>>=◌
  execute_mutants exit_code [] w = (ok exit_code, w)
  execute_mutants exit_code (mutant ∷ mutants) w =
      execute_for_mutant mutant (log_event (linked mutant.mutant_dir_path_abs_path) w) >>= λ code w.
      execute_mutants code mutants w

  -- The deferred call of executeAllMutants: move back, and remove the folder. The error of moving
  -- back is not assigned, and err is that of the first move, nil.
  abbrev pub restore : Text → World → Run Unit
  restore original w = (
    ok tt,
    log_event (removed original)
        (log_event (moved original (codes ".") (system.move w.trace original (codes "."))) w),
  )

  abbrev pub original_artifact_folder : Text
  original_artifact_folder = append_folder config.mutant_folder (codes "original")

  -- executeAllMutants
  unfoldable pub execute_all_mutants : List MutantInfo → World → Run ℤ
  unfolding append_folder execute_mutants deferred
  execute_all_mutants mutants w =
      if system.move w.trace (codes ".") original_artifact_folder
      then deferred
          (execute_mutants return_ok mutants
            (log_event (moved (codes ".") original_artifact_folder true) w))
          (restore original_artifact_folder)
      else (ok return_error, log_event (moved (codes ".") original_artifact_folder false) w)
