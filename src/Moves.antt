-- ===== src/Moves.antt =====
-- moveAllContentsExceptMutantFolder and copyFolderContents of
-- cmd/mutation-framework/copy_utils.go, which the runner calls before and after the mutants.
pub mod Fuel
pub mod Laws
use mutation_framework.Base.{
  ℕ, zero, suc, Bool, true, false, not, ◌||◌, List, [], ◌∷◌, if◌then◌else◌,
}
use mutation_framework.Base.Text.{Text, occurs_in}
use mutation_framework.Paths.{slash, append_folder, clean, split}
use mutation_framework.FileSystem.{
  FsError, made_dir, History, Listing, listed, unlisted, FileSystem, Outcome, done, failed,
  would_overwrite, out_of_fuel, FsRun, ◌then◌, attempt,
}
use mutation_framework.Copies.{afero_copy_file}

abbrev first_piece : Text → List Text → Text
first_piece path [] = path
first_piece path (piece ∷ pieces) = piece

-- What the closure isNotMutantsFolder makes of its variable mutantFolder. It does so at every call,
-- and from the second on it finds no slash any more.
unfoldable pub first_of_folder : Text → Text
unfolding occurs_in clean split
first_of_folder mutant_folder =
    if occurs_in (slash ∷ []) (clean mutant_folder)
    then first_piece mutant_folder (split slash mutant_folder)
    else mutant_folder

-- isNotMutantsFolder
unfoldable pub is_not_mutants_folder : Text → Text → Bool
unfolding first_of_folder occurs_in
is_not_mutants_folder mutant_folder name = not (
    occurs_in (first_of_folder mutant_folder) name
    || occurs_in name (first_of_folder mutant_folder))

-- os.FileMode(0700)
abbrev pub owner_mode : ℕ
owner_mode = 448

-- The error that copyFolderContents returns for a directory inside is dropped.
abbrev pub dropped_error : FsRun → FsRun
dropped_error (done, h) = (done, h)
dropped_error (failed e, h) = (done, h)
dropped_error (would_overwrite, h) = (done, h)
dropped_error (out_of_fuel, h) = (out_of_fuel, h)

module _ (fs : FileSystem) (pred : Text → Bool) where
  -- The loop over the items.
  unfoldable pub copy_items :
      (Text → Text → History → FsRun) → Text → Text → List (Text × Bool) → History → FsRun
  unfolding ◌then◌ afero_copy_file append_folder
  copy_items step source dest [] h = (done, h)
  copy_items step source dest ((name, is_dir) ∷ items) h =
      (if pred name
        then if is_dir
          then dropped_error (step (append_folder source name) (append_folder dest name) h)
          else afero_copy_file fs (append_folder source name) (append_folder dest name) h
        else (done, h))
      then λ h. copy_items step source dest items h

  abbrev pub with_items : (Text → Text → History → FsRun) → Text → Text → Listing → History → FsRun
  with_items step source dest (unlisted e) h = (failed e, h)
  with_items step source dest (listed items) h =
      attempt (fs.mkdir_all h dest owner_mode) (made_dir dest owner_mode ∷ h) then λ h.
      copy_items step source dest items h

  -- copyFolderContents, with fuel for the levels of directories.
  unfoldable pub copy_folder_contents : ℕ → Text → Text → History → FsRun
  unfolding ◌then◌ copy_items
  copy_folder_contents zero source dest h = (out_of_fuel, h)
  copy_folder_contents (suc f) source dest h =
      with_items (λ s d h. copy_folder_contents f s d h) source dest (fs.read_dir h source) h

unfoldable pub move_all_contents_except_mutant_folder :
    FileSystem → ℕ → Text → Text → Text → History → FsRun
unfolding copy_folder_contents is_not_mutants_folder
move_all_contents_except_mutant_folder fs fuel source dest mutant_folder h =
    copy_folder_contents fs (is_not_mutants_folder mutant_folder) fuel source dest h
