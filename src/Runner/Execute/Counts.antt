-- ===== src/Runner/Execute/Counts.antt =====
-- The statistics of a whole run, counted again from the trace and the answers of the system.
pub mod Tally
pub mod Tests
pub mod Loop
use mutation_framework.Base.{
  ℕ, ◌+◌, Bool, true, false, List, [], ◌∷◌, ◌≡◌, refl, ap, sym, ◌∙◌, arith, ◌⊎◌, inl, inr,
  Bool-cases, Result, ok, if◌then◌else◌, some, All, All-map, ◌==◌,
}
use mutation_framework.Base.Text.{Text, text_eq}
use mutation_framework.Runner.{
  ℤ, pos, negsuc, MutantInfo, TestConfig, Event, ran, moved, linked, removed, clean_up_command,
  build_command, diff_command, custom_test, default_test, System, World, return_ok, no_error,
  exit_error, Command, lookup, insert, MutationStats, StatsMap,
}
use mutation_framework.Paths.{split}
use mutation_framework.Runner.Redundant.{put_failed_tests_in_map}
use mutation_framework.Runner.Execute.{
  Run, ◌>>=◌, deferred, log_event, run_build_command, run_clean_up_command, show_diff, exit_status,
  run_test_command, execute_test_command, mutate_exec, run_tests_for_mutant, execute_for_mutant,
  execute_mutants, count_for, count_code, determine_pass_or_fail,
}

-- Whether an exit status is the given one, as a number.
abbrev pub hit : ℕ → ℤ → ℕ
hit n (pos k) = if k == n then 1 else 0
hit n (negsuc k) = 0

abbrev pub is_test : Command → Bool
is_test (custom_test args) = true
is_test (default_test seconds name) = true
is_test _ = false

abbrev pub hit_result : ℕ → Result ℤ → ℕ
hit_result n (ok code) = hit n code
hit_result n _ = 0

-- How many test commands of a trace ended with the status, by the answers of the system.
abbrev pub tests_with : System → ℕ → List Event → ℕ
tests_with system n [] = 0
tests_with system n (ran c ∷ h) =
    (if is_test c then hit_result n (exit_status ((system.command h c).0)) else 0)
    + tests_with system n h
tests_with system n (moved from to done ∷ h) = tests_with system n h
tests_with system n (linked path ∷ h) = tests_with system n h
tests_with system n (removed path ∷ h) = tests_with system n h

-- A statistic summed over all files.
abbrev pub tally : (MutationStats → ℕ) → StatsMap → ℕ
tally f [] = 0
tally f ((file, stats) ∷ rest) = f stats + tally f rest

-- The sums over the files are what the trace tells: a test command that fails makes a mutant
-- pass, one that succeeds makes it fail, and one that does not compile skips it.
abbrev pub IsCounted : System → World → Type 0
IsCounted system w =
    (tally (λ s. s.passed) w.all_stats ≡ tests_with system 1 w.trace)
    × (tally (λ s. s.failed) w.all_stats ≡ tests_with system 0 w.trace)
    × (tally (λ s. s.skipped) w.all_stats ≡ tests_with system 2 w.trace)

-- The system runs every command to its end: the build and the clean-up without an error, diff
-- with the status 0 or 1, the tests with some status.
pub record Answers (system : System) (config : TestConfig) : Type 0 where
  pub build : (h : List Event) → (system.command h (build_command config.build)).0 ≡ no_error
  pub clean : (h : List Event) → (system.command h (clean_up_command config.clean_up)).0 ≡ no_error
  pub diff :
      (h : List Event) (file m : Text)
      → ((system.command h (diff_command file m)).0 ≡ no_error)
        ⊎ ((system.command h (diff_command file m)).0 ≡ exit_error (pos 1))
  pub test :
      (h : List Event) (c : Command)
      → is_test c ≡ true
      → (code : ℤ) × (exit_status ((system.command h c).0) ≡ ok code)

-- The file of the mutant has statistics, and there is a test command for the mutant.
abbrev pub HasStats : World → Text → Type 0
HasStats w file = (stats : MutationStats) × (lookup file w.all_stats ≡ some stats)

abbrev pub HasTest : TestConfig → MutantInfo → Type 0
HasTest config m = (text_eq config.test [] ≡ false) ⊎ ((name : Text) × (m.pkg ≡ some name))

-- A run that returns with the statistics counted and without taking statistics away.
pub data Counted (system : System) (w : World) (r : Run ℤ) : Type 0 where
  counted :
      (code : ℤ) (v : World)
      → r ≡ (ok code, v)
      → IsCounted system v
      → ((file : Text) → HasStats w file → HasStats v file)
      → Counted system w r
