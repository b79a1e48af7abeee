-- ===== src/Runner/Execute/Trace/Ends.antt =====
-- How the runs end: the clean-up after the tests, the calls that restore the project.
use mutation_framework.Base.{
  true, false, List, [], ◌∷◌, ◌++◌, ◌≡◌, refl, ap, ◌∙◌, ◌⊎◌, inl, inr, Bool-cases, ok, panic,
  if-elim,
}
use mutation_framework.Base.Text.{Text, codes, text_eq}
use mutation_framework.Runner.{
  ℤ, MutantInfo, TestConfig, Event, ran, moved, removed, clean_up_command, build_command, System,
  World, return_ok, return_error, CommandError, no_error, exit_error, other_error,
}
use mutation_framework.Runner.Execute.{
  Run, ◌>>=◌, deferred, log_event, run_build_command, run_clean_up_command, mutate_exec,
  run_tests_for_mutant, execute_all_mutants, original_artifact_folder, restore, no_failure,
}
use mutation_framework.Runner.Execute.Trace.{
  Extends, added, Keeps, keeps, deferred_world, Keeps-mutants,
}

module _ (system : System) (config : TestConfig) where
  -- The trace of a run that ends with moving the contents back, as the system answers then, and
  -- with removing the folder, after all the events of a trace.
  abbrev pub MovesBack : Text → List Event → Run ℤ → Type 0
  MovesBack original h r =
      (events : List Event) × (r.1.trace
        ≡ removed original
            ∷ moved original (codes ".") (system.move (events ++ h) original (codes "."))
            ∷ events
          ++ h)

  restore_trace :
      (original : Text) (w : World) (r : Run ℤ)
      → Keeps w r
      → MovesBack original w.trace (deferred r (restore system config original))
  restore_trace original w r (keeps k) =
      rw (deferred_world r (restore system config original)) (go k)
    where
      go :
          {h h' : List Event}
          → Extends h h'
          → (events : List Event) × (removed original
                ∷ moved original (codes ".") (system.move h' original (codes "."))
                ∷ h'
              ≡ removed original
                  ∷ moved original (codes ".") (system.move (events ++ h) original (codes "."))
                  ∷ events
                ++ h)
      go (added es) = (es, refl)

  -- executeAllMutants first moves the project into the folder of the originals. When that fails
  -- it returns the error code and does nothing else. Otherwise its last two calls, also when a
  -- mutant's run panics, are to move the contents back and to remove the folder, which is removed
  -- whether or not moving back succeeds.
  pub execute_all_mutants-restores :
      (mutants : List MutantInfo) (w : World)
      → (system.move w.trace (codes ".") (original_artifact_folder system config) ≡ false)
          × (execute_all_mutants system config mutants w ≡ (
            ok return_error,
            log_event (moved (codes ".") (original_artifact_folder system config) false) w,
          ))
        ⊎ (system.move w.trace (codes ".") (original_artifact_folder system config) ≡ true)
          × MovesBack
              (original_artifact_folder system config)
              (moved (codes ".") (original_artifact_folder system config) true ∷ w.trace)
              (execute_all_mutants system config mutants w)
  unfolding execute_all_mutants
  execute_all_mutants-restores mutants w =
      elim (Bool-cases (system.move w.trace (codes ".") (original_artifact_folder system config))) [
        | inl h ↦
            inr (h, rw h (restore_trace _ _ _ (Keeps-mutants system config return_ok mutants _)))
        | inr h ↦ inl (h, rw h refl)
      ]

  clean_trace :
      (w : World)
      → text_eq config.clean_up [] ≡ false
      → (run_clean_up_command system config w).1
        ≡ log_event (ran (clean_up_command config.clean_up)) w
  unfolding run_clean_up_command
  clean_trace w h = rw h (go ((system.command w.trace (clean_up_command config.clean_up)).0) _)
    where
      go : (e : CommandError) (v : World) → (no_failure e v).1 ≡ v
      go no_error v = refl
      go (exit_error c) v = refl
      go other_error v = refl

  build_result :
      (w : World)
      → ((v : World) × (run_build_command system config w ≡ (ok tt, v)))
        ⊎ (run_build_command system config w
            ≡ (panic, log_event (ran (build_command config.build)) w))
  unfolding run_build_command
  build_result w =
      if-elim
        (λ r.
          ((v : World) × (r ≡ (ok tt, v)))
          ⊎ (r ≡ (panic, log_event (ran (build_command config.build)) w)))
        (text_eq config.build []) (inl (w, refl))
        (go ((system.command w.trace (build_command config.build)).0) _)
    where
      go :
          (e : CommandError) (u : World)
          → ((v : World) × (no_failure e u ≡ (ok tt, v))) ⊎ (no_failure e u ≡ (panic, u))
      go no_error u = inl (u, refl)
      go (exit_error c) u = inr refl
      go other_error u = inr refl

  -- When a clean-up command is configured, runTestsForMutant ends with it on every path, also
  -- when the tests panic, except for the one where the build command fails: that run panics
  -- directly after the build command.
  pub run_tests_for_mutant-cleans_up :
      (mutant : MutantInfo) (w : World)
      → text_eq config.clean_up [] ≡ false
      → ((events : List Event) × ((run_tests_for_mutant system config mutant w).1.trace
            ≡ ran (clean_up_command config.clean_up) ∷ events))
        ⊎ (run_tests_for_mutant system config mutant w
            ≡ (panic, log_event (ran (build_command config.build)) w))
  unfolding run_tests_for_mutant ◌>>=◌
  run_tests_for_mutant-cleans_up mutant w h = elim (build_result w) [
    | inl (v, e) ↦ inl (
      (mutate_exec system config mutant v).1.trace,
      rw e (
          ap (λ u. u.trace)
            (deferred_world (mutate_exec system config mutant v)
                (run_clean_up_command system config)
              ∙ clean_trace ((mutate_exec system config mutant v).1) h)),
    )
    | inr e ↦ inr (rw e refl)
  ]
