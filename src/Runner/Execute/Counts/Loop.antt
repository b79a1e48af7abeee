-- ===== src/Runner/Execute/Counts/Loop.antt =====
-- The loop over the mutants keeps the statistics and the trace in agreement.
use mutation_framework.Base.{List, [], ◌∷◌, refl, inl, inr, Bool-cases, All, All-map}
use mutation_framework.Runner.{ℤ, MutantInfo, TestConfig, linked, System, World, return_ok}
use mutation_framework.Runner.Execute.{
  Run, ◌>>=◌, log_event, execute_for_mutant, execute_mutants, count_for,
}
use mutation_framework.Runner.Execute.Counts.{
  IsCounted, Answers, HasStats, HasTest, Counted, counted,
}
use mutation_framework.Runner.Execute.Counts.Tally.{Counted-bind, Counted-count}
use mutation_framework.Runner.Execute.Counts.Tests.{Tested, tested, run-Tested}

module _ (system : System) (config : TestConfig) (answers : Answers system config) where
  execute-Counted :
      (m : MutantInfo) (w : World)
      → HasTest config m
      → HasStats w m.original_file_relative_path
      → IsCounted system w
      → Counted system w (execute_for_mutant system config m w)
  unfolding execute_for_mutant ◌>>=◌
  execute-Counted m w h has ok_w = elim (Bool-cases config.disable) [
    | inl e ↦ counted return_ok w (rw e refl) ok_w (λ file k. k)
    | inr e ↦ rw e (go (run-Tested system config answers m w h))
  ]
    where
      go :
          {r : Run ℤ}
          → Tested system w r
          → Counted system w (r >>= count_for m.original_file_relative_path)
      go (tested code v e same t) =
          rw e (Counted-count system w v code m.original_file_relative_path ok_w has same t)

  -- Where the system runs every command to its end, and every mutant has a test command and
  -- statistics for its file, the loop over the mutants returns an exit code. If the statistics
  -- summed over the files agreed with the trace before, they agree afterwards: passed counts the
  -- test commands that ended with the status 1, failed those with 0, skipped those with 2.
  pub execute_mutants-IsCounted :
      (exit_code : ℤ) (mutants : List MutantInfo) (w : World)
      → All (λ m. HasTest config m × HasStats w m.original_file_relative_path) mutants
      → IsCounted system w
      → Counted system w (execute_mutants system config exit_code mutants w)
  unfolding execute_mutants
  execute_mutants-IsCounted exit_code [] w h k = counted exit_code w refl k (λ file k. k)
  execute_mutants-IsCounted exit_code (m ∷ ms) w ((h, s), hs) k =
      Counted-bind system w _ (λ code v. execute_mutants system config code ms v)
        (logged (execute-Counted m (log_event (linked m.mutant_dir_path_abs_path) w) h s k))
        (λ code v k keep.
          execute_mutants-IsCounted code ms v
            (All-map _ _ (λ m both. (both.0, keep m.original_file_relative_path (both.1))) ms hs) k)
    where
      logged :
          {r : Run ℤ}
          → Counted system (log_event (linked m.mutant_dir_path_abs_path) w) r
          → Counted system w r
      logged (counted code v e k keep) = counted code v e k keep
