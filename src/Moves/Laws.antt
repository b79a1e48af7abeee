-- ===== src/Moves/Laws.antt =====
-- Which folders of mutants let anything be moved, and which errors are seen.
use mutation_framework.Base.{
  ℕ, zero, suc, Bool, true, false, List, [], ◌∷◌, ◌≡◌, refl, ◌⊎◌, inl, inr, Option, none, some,
  if◌then◌else◌, if-elim, ◌==◌, All,
}
use mutation_framework.Base.Text.{Text, occurs_in, is_prefix}
use mutation_framework.Paths.{slash, has_prefix_slash, clean, split, append_folder}
use mutation_framework.FileSystem.{
  FsError, made_dir, History, listed, FileSystem, Outcome, done, failed, would_overwrite,
  out_of_fuel, FsRun, ◌then◌, attempt,
}
use mutation_framework.Moves.{
  first_of_folder, is_not_mutants_folder, owner_mode, dropped_error, copy_items,
  copy_folder_contents, move_all_contents_except_mutant_folder,
}
use mutation_framework.Moves.Fuel.{InTime, Levels, InTime-copy_folder_contents}

-- Everything contains the empty text.
occurs_in-nil : (s : Text) → occurs_in [] s ≡ true
unfolding occurs_in is_prefix
occurs_in-nil [] = refl
occurs_in-nil (c ∷ s) = refl

clean-slash :
    (path : Text) → has_prefix_slash path ≡ true → occurs_in (slash ∷ []) (clean path) ≡ true
unfolding clean occurs_in is_prefix
clean-slash path h = rw h refl

first_of_folder-absolute :
    (folder : Text) → has_prefix_slash folder ≡ true → first_of_folder folder ≡ []
unfolding first_of_folder split has_prefix_slash
first_of_folder-absolute [] h = cc
first_of_folder-absolute (c ∷ s) h =
    let e : (c == slash) ≡ true = h in rw (clean-slash (c ∷ s) h, e) refl

is_not_mutants_folder-absolute :
    (folder name : Text)
    → has_prefix_slash folder ≡ true
    → is_not_mutants_folder folder name ≡ false
unfolding is_not_mutants_folder
is_not_mutants_folder-absolute folder name h =
    rw (first_of_folder-absolute folder h, occurs_in-nil name) refl

module _ (fs : FileSystem) where
  nothing_copied :
      (pred : Text → Bool) (step : Text → Text → History → FsRun) (s d : Text)
      (items : List (Text × Bool)) (h : History)
      → ((name : Text) → pred name ≡ false)
      → copy_items fs pred step s d items h ≡ (done, h)
  unfolding copy_items ◌then◌
  nothing_copied pred step s d [] h none_kept = refl
  nothing_copied pred step s d ((name, is_dir) ∷ items) h none_kept =
      rw (none_kept name) (nothing_copied pred step s d items h none_kept)

  -- With a folder of mutants that begins with a slash nothing is copied: when the source can be
  -- read, the destination is made and nothing else.
  pub move_all_contents_except_mutant_folder-absolute :
      (fuel : ℕ) (source dest folder : Text) (items : List (Text × Bool)) (h : History)
      → has_prefix_slash folder ≡ true
      → fs.read_dir h source ≡ listed items
      → move_all_contents_except_mutant_folder fs (suc fuel) source dest folder h
        ≡ attempt (fs.mkdir_all h dest owner_mode) (made_dir dest owner_mode ∷ h)
  unfolding move_all_contents_except_mutant_folder copy_folder_contents ◌then◌
  move_all_contents_except_mutant_folder-absolute fuel source dest folder items h absolute reads =
      rw reads (go (fs.mkdir_all h dest owner_mode))
    where
      go :
          (e : Option FsError)
          → (attempt e (made_dir dest owner_mode ∷ h) then λ h.
              copy_items fs
                (is_not_mutants_folder folder)
                (λ s d h. copy_folder_contents fs (is_not_mutants_folder folder) fuel s d h)
                source
                dest
                items
                h)
            ≡ attempt e (made_dir dest owner_mode ∷ h)
      go none =
          nothing_copied (is_not_mutants_folder folder)
            (λ s d h. copy_folder_contents fs (is_not_mutants_folder folder) fuel s d h) source dest
            items (made_dir dest owner_mode ∷ h)
            (λ name. is_not_mutants_folder-absolute folder name absolute)
      go (some e) = refl

  -- A run that returns no error, or has no fuel left.
  abbrev NoError : Outcome → Type 0
  NoError r = (r ≡ done) ⊎ (r ≡ out_of_fuel)

  dropped_error-NoError : (r : FsRun) → NoError ((dropped_error r).0)
  dropped_error-NoError (done, h) = inl refl
  dropped_error-NoError (failed e, h) = inl refl
  dropped_error-NoError (would_overwrite, h) = inl refl
  dropped_error-NoError (out_of_fuel, h) = inr refl

  then-NoError :
      (r : FsRun) (next : History → FsRun)
      → NoError (r.0)
      → ((v : History) → NoError ((next v).0))
      → NoError ((r then next).0)
  unfolding ◌then◌
  then-NoError (done, h) next k l = l h
  then-NoError (failed e, h) next k l = k
  then-NoError (would_overwrite, h) next k l = k
  then-NoError (out_of_fuel, h) next k l = k

  dirs-NoError :
      (pred : Text → Bool) (step : Text → Text → History → FsRun) (s d : Text)
      (items : List (Text × Bool)) (h : History)
      → All (λ item. item.1 ≡ true) items
      → NoError ((copy_items fs pred step s d items h).0)
  unfolding copy_items ◌then◌
  dirs-NoError pred step s d [] h dirs = inl refl
  dirs-NoError pred step s d ((name, is_dir) ∷ items) h (here, dirs) =
      then-NoError _ (λ v. copy_items fs pred step s d items v)
        (rw here (
          if-elim (λ (r : FsRun). NoError (r.0)) (pred name)
            (dropped_error-NoError (step (append_folder s name) (append_folder d name) h))
            (inl refl)))
        (λ v. dirs-NoError pred step s d items v dirs)

  NoError-copy_folder_contents :
      (fuel : ℕ) (pred : Text → Bool) (source dest : Text) (items : List (Text × Bool))
      (h : History)
      → fs.read_dir h source ≡ listed items
      → All (λ item. item.1 ≡ true) items
      → fs.mkdir_all h dest owner_mode ≡ none
      → NoError ((copy_folder_contents fs pred fuel source dest h).0)
  unfolding copy_folder_contents ◌then◌
  NoError-copy_folder_contents zero pred source dest items h reads dirs makes = inr refl
  NoError-copy_folder_contents (suc f) pred source dest items h reads dirs makes =
      rw (reads, makes)
        (dirs-NoError pred (λ s d h. copy_folder_contents fs pred f s d h) source dest items
          (made_dir dest owner_mode ∷ h) dirs)

  NoError-done : (r : FsRun) → NoError (r.0) → InTime r → r.0 ≡ done
  NoError-done (done, h) e t = refl
  NoError-done (failed x, h) (inl e) t = e
  NoError-done (failed x, h) (inr e) t = cc
  NoError-done (would_overwrite, h) (inl e) t = e
  NoError-done (would_overwrite, h) (inr e) t = cc
  NoError-done (out_of_fuel, h) e t = elim t [ ]

  -- The errors inside of directories are lost: when the folder holds directories alone, can be read
  -- and its destination is made, copyFolderContents returns nil whatever happens inside. The levels
  -- of the directories are fuel enough.
  pub copy_folder_contents-done :
      (fuel : ℕ) (pred : Text → Bool) (source dest : Text) (items : List (Text × Bool))
      (h : History)
      → Levels fs fuel source
      → fs.read_dir h source ≡ listed items
      → All (λ item. item.1 ≡ true) items
      → fs.mkdir_all h dest owner_mode ≡ none
      → (copy_folder_contents fs pred fuel source dest h).0 ≡ done
  copy_folder_contents-done fuel pred source dest items h levels reads dirs makes =
      NoError-done (copy_folder_contents fs pred fuel source dest h)
        (NoError-copy_folder_contents fuel pred source dest items h reads dirs makes)
        (InTime-copy_folder_contents fs pred fuel source dest h levels)
