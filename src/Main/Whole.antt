-- ===== src/Main/Whole.antt =====
-- mainCmd of cmd/mutation-framework/main.go as a whole, from the arguments to the statistics.
use mutation_framework.Base.{ℕ, false, List, [], ◌∷◌, none, some, All, ok, ◌≡◌, ◌≢◌}
use mutation_framework.Base.Text.{Text}
use mutation_framework.Mutator.{IsReversible}
use mutation_framework.Operators.Init.{Operator, all_operators}
use mutation_framework.FileSystem.{History}
use mutation_framework.Config.{MutationConfig}
use mutation_framework.Config.Files.{get_relative_and_absolute_files}
use mutation_framework.Config.Load.{get_config}
use mutation_framework.Config.Load.Operators.{protocols, IsSafe, get_config-IsSafe}
use mutation_framework.Runner.{World}
use mutation_framework.Making.Laws.{Writable, CopiesEnd}
use mutation_framework.Making.Files.{Sources, Parses}
use mutation_framework.Main.{Surroundings, initialize_execution, main_cmd}
use mutation_framework.Main.Arguments.{
  Args, goes_on, Flags, check_arguments, assignments, consolidate_args_into_config, set_up_logging,
}
use mutation_framework.Main.Laws.{
  consolidated, assign_all-some, Counts, Runs, perform_mutation_testing-mutates,
}

undone :
    (sources : Sources) (operators : List (Text × Operator)) (files : List (Text × Text))
    → All (λ op. op.0 ≢ protocols) operators
    → ((file : Text × Text) → All (IsSafe (sources.info (file.1))) operators)
    → All (λ file. All (λ op. IsReversible (op.1 (sources.info (file.1)))) operators) files
undone sources operators [] others safe = tt
undone sources operators (file ∷ files) others safe =
    (all_undone operators others (safe file), undone sources operators files others safe)
  where
    all_undone :
        (operators : List (Text × Operator))
        → All (λ op. op.0 ≢ protocols) operators
        → All (IsSafe (sources.info (file.1))) operators
        → All (λ op. IsReversible (op.1 (sources.info (file.1)))) operators
    all_undone [] others safe = tt
    all_undone (op ∷ operators) (h, hs) (k, ks) = (k h, all_undone operators hs ks)

module _ (s : Surroundings) (fuel : ℕ) where
  -- Where the program's surroundings work, mainCmd that mutates and runs the tests returns an exit
  -- code, and the statistics that it ends with are those that the trace tells. The hypotheses: the
  -- arguments are accepted, the configuration is loaded and names no operator
  -- distributed/protocols, mutation and tests are enabled behind the flags, every file of the
  -- configuration parses, folders can be made, printing and writing succeed, the fuel is enough for
  -- the copies, every command runs to its end and the contents of the working directory can be
  -- moved.
  pub main_cmd-Counts :
      (random : ℕ) (flags : Flags) (completion : Text) (args : List Text) (opts : Args)
      (config : MutationConfig) (operators : List (Text × Operator)) (sources : Sources)
      (dir : Text) (w : World) (h : History)
      → check_arguments flags completion args ≡ goes_on opts
      → get_config s.formats (all_operators random) s.fs h s.others fuel opts.general.config_path
        ≡ ok (some (config, operators))
      → All (λ op. op.0 ≢ protocols) operators
      → (consolidated opts config).mutate.disable_mutate ≡ false
      → s.cwd ≡ some dir
      → Writable s.fs s.printing
      → CopiesEnd s.fs (consolidated opts config) fuel dir
      → ((h : History) (path : Text) → s.fs.mkdir_all h path 493 ≡ none)
      → All
          (Parses s.fs s.loader sources)
          (s.order (get_relative_and_absolute_files (consolidated opts config)))
      → Runs s fuel (consolidated opts config)
      → w.trace ≡ []
      → (h' : History) × Counts
          (s.system h')
          (main_cmd s fuel flags completion (all_operators random) args w h)
  unfolding main_cmd initialize_execution consolidate_args_into_config set_up_logging consolidated
  main_cmd-Counts random flags completion args opts config operators sources dir w h checked loaded
        others enabled at works ends dirs parses runs start =
      rw (checked, loaded, assign_all-some (assignments opts) config)
        (perform_mutation_testing-mutates s fuel sources (consolidated opts config) operators dir
          (s.order (get_relative_and_absolute_files (consolidated opts config))) w h enabled at
          works ends dirs parses
          (undone sources operators _ others (λ file.
            get_config-IsSafe s.formats random s.fs h s.others fuel (sources.info (file.1))
              opts.general.config_path config operators loaded))
          runs start)
