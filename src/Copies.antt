-- ===== src/Copies.antt =====
-- The copies of the project: copyRecursive and copyProject of cmd/mutation-framework/copy_utils.go,
-- and CopyFile and AferoCopyFile of osutil/copy.go.
pub mod Handles
pub mod Trees
use mutation_framework.Base.{
  ℕ, zero, suc, Bool, true, false, List, [], ◌∷◌, Option, none, some, if◌then◌else◌,
}
use mutation_framework.Base.{Result, ok, panic}
use mutation_framework.Base.Text.{Text}
use mutation_framework.Paths.{append_folder, do_not_copy_dir}
use mutation_framework.Config.{MutationConfig}
use mutation_framework.MutantNames.{get_absolute_mutation_folder_path}
use mutation_framework.FileSystem.{
  FsError, not_exist, other_error, FsEvent, opened, created, closed, made_dir, copied, mode_set,
  History, StatResult, found, missing, Listing, listed, unlisted, FileSystem, Outcome, done, failed,
  would_overwrite, out_of_fuel, FsRun, ◌then◌, attempt,
}

-- The error of the deferred Close counts only when there was none before.
abbrev pub close_result : Outcome → Option FsError → Outcome
close_result done (some e) = failed e
close_result done none = done
close_result (failed e) _ = failed e
close_result would_overwrite _ = would_overwrite
close_result out_of_fuel _ = out_of_fuel

module _ (fs : FileSystem) where
  -- The deferred Close.
  unfoldable pub closing : Text → FsRun → FsRun
  closing path (r, h) = (close_result r (fs.close_file h path), closed path ∷ h)

  abbrev pub set_mode : Text → StatResult → History → FsRun
  set_mode dst (found is_dir mode) h = attempt (fs.chmod h dst mode) (mode_set dst mode ∷ h)
  set_mode dst (missing e) h = (failed e, h)

  -- From io.Copy to the end.
  unfoldable pub fill : Text → Text → History → FsRun
  unfolding ◌then◌
  fill src dst h =
      attempt (fs.io_copy h src dst) (copied src dst ∷ h) then λ h. set_mode dst (fs.stat h src) h

  abbrev pub with_dest : Text → Text → Option FsError → History → FsRun
  with_dest src dst none h = closing dst (fill src dst (created dst true ∷ h))
  with_dest src dst (some e) h = (failed e, created dst false ∷ h)

  unfoldable pub copy_into : Text → Text → History → FsRun
  unfolding closing fill
  copy_into src dst h = with_dest src dst (fs.create h dst) h

  abbrev pub with_source : Text → Text → Option FsError → History → FsRun
  with_source src dst none h = closing src (copy_into src dst (opened src true ∷ h))
  with_source src dst (some e) h = (failed e, opened src false ∷ h)

  -- AferoCopyFile; CopyFile is the same over the package os.
  unfoldable pub afero_copy_file : Text → Text → History → FsRun
  unfolding closing copy_into
  afero_copy_file src dst h = with_source src dst (fs.open_file h src) h

  -- The loop of copyRecursive over the entries of a directory.
  unfoldable pub copy_entries :
      (Text → Text → History → FsRun) → Text → Text → Text → List (Text × Bool) → History → FsRun
  unfolding ◌then◌ afero_copy_file append_folder do_not_copy_dir
  copy_entries step source dest mutant_folder [] h = (done, h)
  copy_entries step source dest mutant_folder ((name, false) ∷ entries) h =
      afero_copy_file (append_folder source name) (append_folder dest name) h then λ h.
      copy_entries step source dest mutant_folder entries h
  copy_entries step source dest mutant_folder ((name, true) ∷ entries) h =
      (if do_not_copy_dir name mutant_folder
        then (done, h)
        else step (append_folder source name) (append_folder dest name) h)
      then λ h. copy_entries step source dest mutant_folder entries h

  abbrev pub with_listing :
      (Text → Text → History → FsRun) → Text → Text → Text → Listing → History → FsRun
  with_listing step source dest mutant_folder (listed entries) h =
      copy_entries step source dest mutant_folder entries h
  with_listing step source dest mutant_folder (unlisted e) h = (failed e, h)

  abbrev pub with_stat :
      (Text → Text → History → FsRun) → Text → Text → Text → StatResult → History → FsRun
  with_stat step source dest mutant_folder (missing e) h = (failed e, h)
  with_stat step source dest mutant_folder (found false mode) h = (done, h)
  with_stat step source dest mutant_folder (found true mode) h =
      attempt (fs.mkdir_all h dest mode) (made_dir dest mode ∷ h) then λ h.
      with_listing step source dest mutant_folder (fs.read_dir h source) h

  -- copyRecursive behind the check of the destination.
  unfoldable pub copy_source :
      (Text → Text → History → FsRun) → Text → Text → Text → History → FsRun
  unfolding ◌then◌ copy_entries
  copy_source step source dest mutant_folder h =
      with_stat step source dest mutant_folder (fs.stat h source) h

  -- Opening the destination. Its file is closed only where the function goes on.
  abbrev pub with_opened : Bool → Text → Option FsError → History → (History → FsRun) → FsRun
  with_opened overwrite dest (some not_exist) h next = next (opened dest false ∷ h)
  with_opened overwrite dest (some other_error) h next = (failed other_error, opened dest false ∷ h)
  with_opened true dest none h next = next (closed dest ∷ opened dest true ∷ h)
  with_opened false dest none h next = (would_overwrite, opened dest true ∷ h)

  -- copyRecursive, with fuel for the levels of directories.
  unfoldable pub copy_recursive : ℕ → Bool → Text → Text → Text → History → FsRun
  unfolding copy_source
  copy_recursive zero overwrite source dest mutant_folder h = (out_of_fuel, h)
  copy_recursive (suc f) overwrite source dest mutant_folder h =
      with_opened overwrite dest (fs.open_file h dest) h (
        copy_source (λ source dest h. copy_recursive f overwrite source dest mutant_folder h) source
          dest mutant_folder)

  -- copyProject; without a working directory it panics.
  unfoldable pub copy_project :
      ℕ → MutationConfig → Option Text → Text → History → Result (Text × FsRun)
  unfolding copy_recursive append_folder get_absolute_mutation_folder_path
  copy_project fuel config none name h = panic
  copy_project fuel config (some dir) name h =
      let project_name = append_folder (get_absolute_mutation_folder_path config) name in
      ok (
        project_name,
        copy_recursive fuel config.mutate.overwrite dir project_name config.mutate.folder h,
      )
