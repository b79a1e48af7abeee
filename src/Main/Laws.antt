-- ===== src/Main/Laws.antt =====
-- A whole run of cmd/mutation-framework: the mutants that are made or found, run against the tests.
use mutation_framework.Base.{
  ℕ, Bool, true, false, ◌∷◌, List, [], Option, none, some, All, All-map, Result, ok, panic,
  out_of_fuel, Returns, ◌≡◌, refl, ap, subst, if◌then◌else◌, sym, ◌∙◌, ◌⊎◌, inl, inr,
}
use mutation_framework.Base.Text.{Text, codes, text_eq}
use mutation_framework.Mutator.{IsReversible}
use mutation_framework.Operators.Init.{Operator}
use mutation_framework.Registry.{Lookup}
use mutation_framework.FileSystem.{History}
use mutation_framework.Parsing.{parse_and_type_check_file}
use mutation_framework.Config.{MutationConfig}
use mutation_framework.Config.Load.{get_config}
use mutation_framework.MutantNames.{get_absolute_mutation_folder_path}
use mutation_framework.Runner.{
  ℤ, return_ok, return_error, MutantInfo, MutationStats, no_stats, StatsMap, TestConfig, System,
  World, Event, moved,
}
use mutation_framework.Runner.Execute.{
  Run, log_event, deferred, restore, execute_all_mutants, original_artifact_folder,
}
use mutation_framework.Runner.Execute.Counts.{
  IsCounted, Answers, HasTest, HasStats, tally, Counted, counted, tests_with,
}
use mutation_framework.Runner.Execute.Counts.Loop.{execute_mutants-IsCounted}
use mutation_framework.Making.{FilesMade}
use mutation_framework.Making.Laws.{Writable, CopiesEnd, MutantPlace}
use mutation_framework.Making.Files.{
  Sources, Parses, IsFresh, tally-IsFresh, MakesAll, makes_all, mutate_files-wanted_in_files,
}
use mutation_framework.Search.{find_all_mutants_in_folder}
use mutation_framework.Search.Found.{EndsWithin, IsSearched}
use mutation_framework.Search.Laws.{find_all_mutants_in_folder-IsSound}
use mutation_framework.Main.{
  Surroundings, runner_config, run_tests, after_mutating, after_search, perform_mutation_testing,
  initialize_execution, main_cmd,
}
use mutation_framework.Main.Arguments.{
  Args, is_blank, goes_on, Flags, check_arguments, assign_all, assignments,
  consolidate_args_into_config, set_up_logging,
}

-- A run that returns an exit code, with the statistics that the trace tells.
pub data Counts (system : System) (r : Run ℤ) : Type 0 where
  counts : (code : ℤ) (v : World) → r ≡ (ok code, v) → IsCounted system v → Counts system r

-- The assignments whose conditions hold, on the configuration itself.
unfoldable pub assigned {ℓ} : {A : Type ℓ} → List (Bool × (A → A)) → A → A
assigned [] a = a
assigned ((b, f) ∷ rest) a = assigned rest (if b then f a else a)

-- The configuration with the flags in the place of its fields.
unfoldable pub consolidated : Args → MutationConfig → MutationConfig
unfolding assigned is_blank
consolidated opts config = assigned (assignments opts) config

pub assign_all-some :
    {A : Type 0} (l : List (Bool × (A → A))) (a : A)
    → assign_all l (some a) ≡ ok (some (assigned l a))
unfolding assign_all assigned
assign_all-some [] a = refl
assign_all-some ((false, f) ∷ rest) a = assign_all-some rest a
assign_all-some ((true, f) ∷ rest) a = assign_all-some rest (f a)

-- Without a configuration every assignment through its pointer panics, so does the log.
assign_all-nil :
    {A : Type 0} (l : List (Bool × (A → A)))
    → (assign_all l none ≡ panic) ⊎ (assign_all l none ≡ ok none)
unfolding assign_all
assign_all-nil [] = inr refl
assign_all-nil ((false, f) ∷ rest) = assign_all-nil rest
assign_all-nil ((true, f) ∷ rest) = inl refl

execute_all_mutants-Counts :
    (system : System) (config : TestConfig) (mutants : List MutantInfo) (w : World)
    → Answers system config
    → system.move w.trace (codes ".") (original_artifact_folder system config) ≡ true
    → IsCounted system w
    → All (λ m. HasTest config m × HasStats w m.original_file_relative_path) mutants
    → Counts system (execute_all_mutants system config mutants w)
unfolding execute_all_mutants
execute_all_mutants-Counts system config mutants w answers moves before ready = rw moves (
    go (
      execute_mutants-IsCounted system config answers return_ok mutants
        (log_event (moved (codes ".") (original_artifact_folder system config) true) w) ready
        before))
  where
    go :
        {w' : World} {r : Run ℤ}
        → Counted system w' r
        → Counts system
            (deferred r (restore system config (original_artifact_folder system config)))
    go (counted code v e after keep) = rw e (counts code _ refl after)

module _ (s : Surroundings) (fuel : ℕ) where
  -- The runner is set up: it runs the tests, every command runs to its end and the contents of
  -- the working directory can be moved.
  pub record Runs (config : MutationConfig) : Type 0 where
    pub enabled : config.test_config.disable_test ≡ false
    pub answers : (h : History) → Answers (s.system h) (runner_config config)
    pub moves :
        (h : History) (trace : List Event)
        → (s.system h).move trace
            (codes ".")
            (original_artifact_folder (s.system h) (runner_config config))
          ≡ true

  run_tests-Counts :
      (config : MutationConfig) (mutants : List MutantInfo) (all_stats : StatsMap) (w : World)
      (h : History)
      → Runs config
      → w.trace ≡ []
      → IsFresh all_stats
      → All
          (λ m.
            HasTest (runner_config config) m
            × HasStats (record w { all_stats = all_stats }) m.original_file_relative_path)
          mutants
      → Counts (s.system h) (run_tests s fuel config mutants all_stats w h)
  unfolding run_tests execute_all_mutants
  run_tests-Counts config mutants all_stats w h runs start fresh ready =
      subst
        (λ b. Counts (s.system h) (
          if b
          then (ok return_ok, record w { all_stats = all_stats })
          else execute_all_mutants (s.system h) (runner_config config) mutants
              (record w { all_stats = all_stats })))
        (sym runs.enabled)
        (execute_all_mutants-Counts (s.system h) (runner_config config) mutants
          (record w { all_stats = all_stats }) (runs.answers h) (runs.moves h w.trace)
          (
            nothing (λ x. x.passed) refl 1,
            nothing (λ x. x.failed) refl 0,
            nothing (λ x. x.skipped) refl 2,
          )
          ready)
    where
      nothing :
          (f : MutationStats → ℕ)
          → f no_stats ≡ 0
          → (n : ℕ) → tally f all_stats ≡ tests_with (s.system h) n w.trace
      nothing f e n = tally-IsFresh f all_stats e fresh ∙ sym (ap (tests_with (s.system h) n) start)

  -- Where the tests are enabled and the program's surroundings work, a run that mutates its files
  -- returns an exit code, and the statistics that it ends with are those that the trace tells. The
  -- hypotheses: mutation is enabled, every file parses, the operators can be undone, folders can be
  -- made, printing and writing succeed, the fuel is enough for the copies, every command runs to its
  -- end and the contents of the working directory can be moved.
  pub perform_mutation_testing-mutates :
      (sources : Sources) (config : MutationConfig) (operators : List (Text × Operator))
      (dir : Text) (files : List (Text × Text)) (w : World) (h : History)
      → config.mutate.disable_mutate ≡ false
      → s.cwd ≡ some dir
      → Writable s.fs s.printing
      → CopiesEnd s.fs config fuel dir
      → ((h : History) (path : Text) → s.fs.mkdir_all h path 493 ≡ none)
      → All (Parses s.fs s.loader sources) files
      → All (λ file. All (λ op. IsReversible (op.1 (sources.info (file.1)))) operators) files
      → Runs config
      → w.trace ≡ []
      → (h' : History) × Counts
          (s.system h')
          (perform_mutation_testing s fuel config operators files w h)
  unfolding perform_mutation_testing
  perform_mutation_testing-mutates sources config operators dir files w h enabled at works ends dirs
        parses rev runs start =
      rw (enabled, at)
        (go (
          mutate_files-wanted_in_files s.fs s.printing s.loader sources config operators dir fuel
            works ends dirs files [] [] h parses rev tt tt))
    where
      go :
          {r : Result FilesMade} {places : List MutantPlace}
          → MakesAll r [] places
          → (h' : History) × Counts (s.system h') (after_mutating s fuel config w r)
      go (makes_all all_stats infos h' e at ready fresh) = (
        h',
        rw e (
            run_tests-Counts config infos all_stats w h' runs start fresh
              (All-map _ _ (λ m both. (inr (both.0), both.1)) infos ready)),
      )

  -- Where the tests are enabled with a test command of the configuration and the program's
  -- surroundings work, a run on mutants of an earlier run returns an exit code; either the search
  -- fails, or the statistics that the run ends with are those that the trace tells. The hypotheses:
  -- mutation is disabled, the loader never panics, the fuel is enough for the directories, ReadDir
  -- gives plain names, every command runs to its end and the contents of the working directory can
  -- be moved.
  pub perform_mutation_testing-searches :
      (config : MutationConfig) (operators : List (Text × Operator)) (files : List (Text × Text))
      (w : World) (h : History)
      → config.mutate.disable_mutate ≡ true
      → text_eq config.test_config.commands.test_command [] ≡ false
      → ((file : Text) → Returns (λ parsed. Unit) (parse_and_type_check_file s.fs s.loader file h))
      → EndsWithin s.fs h s.printing.md5 s.loader files fuel
          (get_absolute_mutation_folder_path config)
      → Runs config
      → w.trace ≡ []
      → (perform_mutation_testing s fuel config operators files w h ≡ (ok return_error, w))
        ⊎ Counts (s.system h) (perform_mutation_testing s fuel config operators files w h)
  unfolding perform_mutation_testing
  perform_mutation_testing-searches config operators files w h disabled has_test parses ends runs
        start =
      rw disabled (
        go (find_all_mutants_in_folder s.fs h s.printing.md5 s.loader files fuel config []) (
          find_all_mutants_in_folder-IsSound s.fs h s.printing.md5 s.loader files parses fuel config
            ends))
    where
      go :
          (r : Result (Option (List MutantInfo) × StatsMap))
          → Returns (IsSearched s.fs h s.printing.md5 s.loader files) r
          → (after_search s fuel config w h r ≡ (ok return_error, w))
            ⊎ Counts (s.system h) (after_search s fuel config w h r)
      go (ok (none, all_stats)) fresh = inl refl
      go (ok (some mutants, all_stats)) (sound, fresh) = inr (
          run_tests-Counts config mutants all_stats w h runs start fresh
            (All-map _ _ (λ m found. (inl has_test, found.1)) mutants sound))
      go panic never = elim never [ ]
      go out_of_fuel never = elim never [ ]

  -- When the arguments are accepted and the configuration cannot be loaded, the program panics
  -- instead of returning the exit code of an error, with every combination of flags.
  pub main_cmd-unreadable :
      (flags : Flags) (completion : Text) (mutators : Lookup Operator) (args : List Text)
      (opts : Args) (w : World) (h : History)
      → check_arguments flags completion args ≡ goes_on opts
      → get_config s.formats mutators s.fs h s.others fuel opts.general.config_path ≡ ok none
      → main_cmd s fuel flags completion mutators args w h ≡ (panic, w)
  unfolding main_cmd initialize_execution consolidate_args_into_config set_up_logging
  main_cmd-unreadable flags completion mutators args opts w h checked unreadable =
      rw (checked, unreadable)
        (elim (assign_all-nil (assignments opts)) [ inl e ↦ rw e refl | inr e ↦ rw e refl ])
