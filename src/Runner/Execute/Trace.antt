-- ===== src/Runner/Execute/Trace.antt =====
-- A run only adds events to the trace.
pub mod Ends
use mutation_framework.Base.{
  true, false, List, [], ◌∷◌, ◌++◌, ◌≡◌, refl, subst, ap, ◌∙◌, append_assoc, ◌⊎◌, inl, inr,
  Bool-cases, Result, ok, panic, out_of_fuel, if-elim, Option, none, some,
}
use mutation_framework.Base.Text.{Text, codes, text_eq}
use mutation_framework.Runner.{
  ℤ, MutantInfo, TestConfig, Event, ran, moved, linked, removed, clean_up_command, build_command,
  diff_command, System, World, return_ok, return_error, CommandError, no_error, exit_error,
  other_error, Command, pos, negsuc, lookup, MutationStats,
}
use mutation_framework.Runner.Execute.{
  Run, ◌>>=◌, deferred, log_event, run_build_command, run_clean_up_command, show_diff, exit_status,
  run_test_command, execute_test_command, mutate_exec, run_tests_for_mutant, execute_for_mutant,
  execute_mutants, execute_all_mutants, original_artifact_folder, restore, count_at, is_counted,
  no_failure, after, default_mutate_exec, diff_status, test_status,
}

-- The events of the one trace are the last events of the other.
pub data Extends (h : List Event) : List Event → Type 0 where
  added : (events : List Event) → Extends h (events ++ h)

Extends-refl : (h : List Event) → Extends h h
Extends-refl h = added []

Extends-trans : {g h i : List Event} → Extends g h → Extends h i → Extends g i
Extends-trans {g = g} (added es) (added fs) =
    subst (Extends g) (append_assoc fs es g) (added (fs ++ es))

-- A run that only adds events.
pub data Keeps {A : Type 0} (w : World) (r : Run A) : Type 0 where
  keeps : Extends w.trace r.1.trace → Keeps w r

pub Keeps-Extends : {A : Type 0} (w : World) (r : Run A) → Keeps w r → Extends w.trace r.1.trace
Keeps-Extends w r (keeps e) = e

Keeps-done : {A : Type 0} (w : World) (r : Result A) → Keeps w (r, w)
Keeps-done w r = keeps (Extends-refl w.trace)

Keeps-log : {A : Type 0} (e : Event) (w : World) (r : Run A) → Keeps (log_event e w) r → Keeps w r
Keeps-log e w r (keeps k) = keeps (Extends-trans (added (e ∷ [])) k)

Keeps-bind :
    {A B : Type 0} (w : World) (r : Run A) (f : A → World → Run B)
    → Keeps w r
    → ((a : A) (v : World) → Keeps v (f a v))
    → Keeps w (r >>= f)
unfolding ◌>>=◌
Keeps-bind w (ok a, v) f (keeps h) k = keeps (Extends-trans h (Keeps-Extends v (f a v) (k a v)))
Keeps-bind w (panic, v) f (keeps h) k = keeps h
Keeps-bind w (out_of_fuel, v) f (keeps h) k = keeps h

-- The world after a deferred call is the one that the call leaves.
pub deferred_world :
    {A : Type 0} (r : Run A) (d : World → Run Unit) → (deferred r d).1 ≡ (d (r.1)).1
unfolding deferred
deferred_world (r, w) d = go r (d w)
  where
    go : {A : Type 0} (r : Result A) (d : Run Unit) → (after r d).1 ≡ d.1
    go r (ok _, w) = refl
    go r (panic, w) = refl
    go r (out_of_fuel, w) = refl

Keeps-deferred :
    {A : Type 0} (w : World) (r : Run A) (d : World → Run Unit)
    → Keeps w r
    → ((v : World) → Keeps v (d v))
    → Keeps w (deferred r d)
Keeps-deferred w r d (keeps h) k =
    keeps (rw (deferred_world r d) (Extends-trans h (Keeps-Extends (r.1) (d (r.1)) (k (r.1)))))

Keeps-no_failure : (e : CommandError) (w : World) → Keeps w (no_failure e w)
Keeps-no_failure no_error w = Keeps-done w (ok tt)
Keeps-no_failure (exit_error c) w = Keeps-done w panic
Keeps-no_failure other_error w = Keeps-done w panic

module _ (system : System) (config : TestConfig) where
  Keeps-build : (w : World) → Keeps w (run_build_command system config w)
  unfolding run_build_command
  Keeps-build w =
      if-elim (Keeps w) (text_eq config.build []) (Keeps-done w (ok tt))
        (Keeps-log (ran (build_command config.build)) w _ (Keeps-no_failure _ _))

  Keeps-clean : (w : World) → Keeps w (run_clean_up_command system config w)
  unfolding run_clean_up_command
  Keeps-clean w =
      if-elim (Keeps w) (text_eq config.clean_up []) (Keeps-done w (ok tt))
        (Keeps-log (ran (clean_up_command config.clean_up)) w _ (Keeps-no_failure _ _))

  Keeps-diff_status : (r : Result ℤ) (w : World) → Keeps w (diff_status system config r w)
  Keeps-diff_status (ok (pos n)) w = if-elim (Keeps w) _ (Keeps-done w (ok tt)) (Keeps-done w panic)
  Keeps-diff_status (ok (negsuc n)) w = Keeps-done w panic
  Keeps-diff_status panic w = Keeps-done w panic
  Keeps-diff_status out_of_fuel w = Keeps-done w panic

  Keeps-test_status :
      (m out : Text) (r : Result ℤ) (w : World) → Keeps w (test_status system config m out r w)
  Keeps-test_status m out (ok code) w = keeps (Extends-refl w.trace)
  Keeps-test_status m out panic w = Keeps-done w panic
  Keeps-test_status m out out_of_fuel w = Keeps-done w out_of_fuel

  Keeps-diff : (file m : Text) (w : World) → Keeps w (show_diff system config file m w)
  unfolding show_diff
  Keeps-diff file m w =
      Keeps-log (ran (diff_command file m)) w _
        (Keeps-diff_status (exit_status ((system.command w.trace (diff_command file m)).0)) _)

  Keeps-test : (m : Text) (c : Command) (w : World) → Keeps w (run_test_command system config m c w)
  unfolding run_test_command
  Keeps-test m c w = Keeps-log (ran c) w _ (
      Keeps-test_status m ((system.command w.trace c).1)
        (exit_status ((system.command w.trace c).0)) _)

  Keeps-test_command :
      (file m : Text) (c : Command) (w : World)
      → Keeps w (execute_test_command system config file m c w)
  unfolding execute_test_command
  Keeps-test_command file m c w =
      Keeps-bind w (show_diff system config file m w) (λ _ v. run_test_command system config m c v)
        (Keeps-diff file m w) (λ _ v. Keeps-test m c v)

  Keeps-default :
      (pkg : Option Text) (file m : Text) (w : World)
      → Keeps w (default_mutate_exec system config pkg file m w)
  Keeps-default none file m w = Keeps-done w panic
  Keeps-default (some p) file m w = Keeps-test_command file m _ w

  Keeps-mutate_exec : (m : MutantInfo) (w : World) → Keeps w (mutate_exec system config m w)
  unfolding mutate_exec
  Keeps-mutate_exec m w =
      if-elim (Keeps w) (text_eq config.test [])
        (Keeps-default m.pkg m.mutant_dir_path_abs_path m.mutation_file_abs_path w)
        (Keeps-test_command m.original_file_relative_path m.mutation_file_abs_path _ w)

  Keeps-run_tests : (m : MutantInfo) (w : World) → Keeps w (run_tests_for_mutant system config m w)
  unfolding run_tests_for_mutant
  Keeps-run_tests m w =
      Keeps-bind w _ _ (Keeps-build w)
        (λ _ v. Keeps-deferred v _ _ (Keeps-mutate_exec m v) Keeps-clean)

  Keeps-execute : (m : MutantInfo) (w : World) → Keeps w (execute_for_mutant system config m w)
  unfolding execute_for_mutant
  Keeps-execute m w = if-elim (Keeps w) config.disable (Keeps-done w (ok return_ok)) (
      Keeps-bind w _ _ (Keeps-run_tests m w)
        (λ code v. go code (lookup m.original_file_relative_path v.all_stats) v))
    where
      go :
          (code : ℤ) (o : Option MutationStats) (v : World)
          → Keeps v (count_at m.original_file_relative_path code o v)
      go code (some s) v = keeps (Extends-refl v.trace)
      go code none v =
          if-elim (Keeps v) (is_counted code) (Keeps-done v panic) (Keeps-done v (ok code))

  pub Keeps-mutants :
      (c : ℤ) (ms : List MutantInfo) (w : World) → Keeps w (execute_mutants system config c ms w)
  unfolding execute_mutants
  Keeps-mutants c [] w = Keeps-done w (ok c)
  Keeps-mutants c (m ∷ ms) w =
      Keeps-bind w _ _ (Keeps-log (linked m.mutant_dir_path_abs_path) w _ (Keeps-execute m _))
        (λ code v. Keeps-mutants code ms v)
