-- ===== src/Runner/Execute/Counts/Tests.antt =====
-- Every run of runTestsForMutant has one test command, when the system runs all commands to their
-- end.
use mutation_framework.Base.{ℕ, ◌+◌, true, [], ◌≡◌, refl, ◌∙◌, arith, inl, inr, Bool-cases, ok}
use mutation_framework.Base.Text.{Text, text_eq}
use mutation_framework.Runner.{
  ℤ, MutantInfo, TestConfig, ran, clean_up_command, build_command, diff_command, custom_test,
  default_test, System, World, Command,
}
use mutation_framework.Paths.{split}
use mutation_framework.Runner.Redundant.{put_failed_tests_in_map}
use mutation_framework.Runner.Execute.{
  Run, ◌>>=◌, deferred, log_event, run_build_command, run_clean_up_command, show_diff,
  run_test_command, execute_test_command, mutate_exec, run_tests_for_mutant, determine_pass_or_fail,
}
use mutation_framework.Runner.Execute.Counts.{hit, is_test, tests_with, Answers, HasTest}

-- A run that returns, without tests and without writing statistics.
data Quiet (system : System) (w : World) (r : Run Unit) : Type 0 where
  quiet :
      (v : World)
      → r ≡ (ok tt, v)
      → v.all_stats ≡ w.all_stats
      → ((n : ℕ) → tests_with system n v.trace ≡ tests_with system n w.trace)
      → Quiet system w r

-- A run with one test command, which ended with the status.
pub data Tested (system : System) (w : World) (r : Run ℤ) : Type 0 where
  tested :
      (code : ℤ) (v : World)
      → r ≡ (ok (determine_pass_or_fail code), v)
      → v.all_stats ≡ w.all_stats
      → ((n : ℕ) → tests_with system n v.trace ≡ hit n code + tests_with system n w.trace)
      → Tested system w r

Tested-bind :
    (system : System) (w : World) (r : Run Unit) (f : Unit → World → Run ℤ)
    → Quiet system w r
    → ((v : World) → Tested system v (f tt v))
    → Tested system w (r >>= f)
unfolding ◌>>=◌
Tested-bind system w r f (quiet v e s t) k = go (k v)
  where
    go : Tested system v (f tt v) → Tested system w (r >>= f)
    go (tested code u e' s' t') = tested code u (rw e e') (s' ∙ s) (λ n. omega (arith, t' n, t n))

Tested-deferred :
    (system : System) (w : World) (r : Run ℤ) (d : World → Run Unit)
    → Tested system w r
    → ((v : World) → Quiet system v (d v))
    → Tested system w (deferred r d)
unfolding deferred
Tested-deferred system w r d (tested code v e s t) k = go (k v)
  where
    go : Quiet system v (d v) → Tested system w (deferred r d)
    go (quiet u e' s' t') =
        tested code u (rw e (rw e' refl)) (s' ∙ s) (λ n. omega (arith, t' n, t n))

module _ (system : System) (config : TestConfig) (answers : Answers system config) where
  build-Quiet : (w : World) → Quiet system w (run_build_command system config w)
  unfolding run_build_command
  build-Quiet w = elim (Bool-cases (text_eq config.build [])) [
    | inl e ↦ quiet w (rw e refl) refl (λ n. omega arith)
    | inr e ↦
        quiet (log_event (ran (build_command config.build)) w)
          (rw e (rw (answers.build w.trace) refl)) refl (λ n. omega arith)
  ]

  clean-Quiet : (w : World) → Quiet system w (run_clean_up_command system config w)
  unfolding run_clean_up_command
  clean-Quiet w = elim (Bool-cases (text_eq config.clean_up [])) [
    | inl e ↦ quiet w (rw e refl) refl (λ n. omega arith)
    | inr e ↦
        quiet (log_event (ran (clean_up_command config.clean_up)) w)
          (rw e (rw (answers.clean w.trace) refl)) refl (λ n. omega arith)
  ]

  diff-Quiet : (file m : Text) (w : World) → Quiet system w (show_diff system config file m w)
  unfolding show_diff
  diff-Quiet file m w = elim (answers.diff w.trace file m) [
    | inl e ↦ quiet (log_event (ran (diff_command file m)) w) (rw e refl) refl (λ n. omega arith)
    | inr e ↦ quiet (log_event (ran (diff_command file m)) w) (rw e refl) refl (λ n. omega arith)
  ]

  test-Tested :
      (m : Text) (c : Command) (w : World)
      → is_test c ≡ true
      → Tested system w (run_test_command system config m c w)
  unfolding run_test_command
  test-Tested m c w h =
      tested ((answers.test w.trace c h).0)
        (record (log_event (ran c) w) {
          tests_to_mutants =
              put_failed_tests_in_map m ((system.command w.trace c).1) w.tests_to_mutants;
        })
        (rw ((answers.test w.trace c h).1) refl) refl
        (λ n. rw (h, (answers.test w.trace c h).1) refl)

  command-Tested :
      (file m : Text) (c : Command) (w : World)
      → is_test c ≡ true
      → Tested system w (execute_test_command system config file m c w)
  unfolding execute_test_command
  command-Tested file m c w h =
      Tested-bind system w (show_diff system config file m w)
        (λ _ v. run_test_command system config m c v) (diff-Quiet file m w)
        (λ v. test-Tested m c v h)

  exec-Tested :
      (m : MutantInfo) (w : World)
      → HasTest config m
      → Tested system w (mutate_exec system config m w)
  unfolding mutate_exec
  exec-Tested m w h = elim (Bool-cases (text_eq config.test [])) [
    | inr e ↦ rw e (
        command-Tested m.original_file_relative_path m.mutation_file_abs_path
          (custom_test (split b' ' config.test)) w refl)
    | inl e ↦ elim h [
      | inl e' ↦ cc
      | inr (name, p) ↦
          rw (e, p)
            (command-Tested m.mutant_dir_path_abs_path m.mutation_file_abs_path
              (default_test config.timeout name) w refl)
    ]
  ]

  pub run-Tested :
      (m : MutantInfo) (w : World)
      → HasTest config m
      → Tested system w (run_tests_for_mutant system config m w)
  unfolding run_tests_for_mutant
  run-Tested m w h =
      Tested-bind system w (run_build_command system config w)
        (λ _ v. deferred (mutate_exec system config m v) (run_clean_up_command system config))
        (build-Quiet w)
        (λ v.
          Tested-deferred system v (mutate_exec system config m v)
            (run_clean_up_command system config) (exec-Tested m v h) clean-Quiet)
