-- ===== src/Moves/Fuel.antt =====
-- How much fuel copyFolderContents takes.
use mutation_framework.Base.{
  ℕ, zero, suc, Bool, true, false, List, [], ◌∷◌, Option, none, some, ◌≡◌, refl, if◌then◌else◌,
  if-elim, All, All-map,
}
use mutation_framework.Base.Text.{Text}
use mutation_framework.Paths.{append_folder}
use mutation_framework.FileSystem.{
  FsError, opened, created, closed, copied, mode_set, made_dir, History, StatResult, found, missing,
  Listing, listed, unlisted, FileSystem, Outcome, done, failed, would_overwrite, out_of_fuel, FsRun,
  ◌then◌, attempt,
}
use mutation_framework.Copies.{
  close_result, closing, set_mode, fill, with_dest, copy_into, with_source, afero_copy_file,
}
use mutation_framework.Moves.{
  owner_mode, dropped_error, copy_items, with_items, copy_folder_contents,
}

abbrev pub InTime : FsRun → Type 0
InTime (done, h) = Unit
InTime (failed e, h) = Unit
InTime (would_overwrite, h) = Unit
InTime (out_of_fuel, h) = ⊥

-- Whatever was written before, the directories below a path have no more levels than the number.
abbrev pub Levels : FileSystem → ℕ → Text → Type 0
Levels fs zero path = ⊥
Levels fs (suc f) path =
    (h : History) (items : List (Text × Bool))
    → fs.read_dir h path ≡ listed items
    → All (λ item. item.1 ≡ true → Levels fs f (append_folder path (item.0))) items

pub InTime-then :
    (r : FsRun) (next : History → FsRun)
    → InTime r
    → ((v : History) → InTime (next v))
    → InTime (r then next)
unfolding ◌then◌
InTime-then (done, h) next t k = k h
InTime-then (failed e, h) next t k = tt
InTime-then (would_overwrite, h) next t k = tt
InTime-then (out_of_fuel, h) next t k = t

InTime-attempt : (e : Option FsError) (h : History) → InTime (attempt e h)
InTime-attempt none h = tt
InTime-attempt (some e) h = tt

InTime-dropped_error : (r : FsRun) → InTime r → InTime (dropped_error r)
InTime-dropped_error (done, h) t = tt
InTime-dropped_error (failed e, h) t = tt
InTime-dropped_error (would_overwrite, h) t = tt
InTime-dropped_error (out_of_fuel, h) t = t

module _ (fs : FileSystem) where
  InTime-closing : (path : Text) (r : FsRun) → InTime r → InTime (closing fs path r)
  unfolding closing
  InTime-closing path (r, h) t = go r (fs.close_file h path) t
    where
      go :
          (r : Outcome) (e : Option FsError)
          → InTime (r, h)
          → InTime (close_result r e, closed path ∷ h)
      go done none t = tt
      go done (some e) t = tt
      go (failed f) e t = tt
      go would_overwrite e t = tt
      go out_of_fuel e t = t

  InTime-fill : (src dst : Text) (h : History) → InTime (fill fs src dst h)
  unfolding fill
  InTime-fill src dst h =
      InTime-then (attempt (fs.io_copy h src dst) (copied src dst ∷ h))
        (λ v. set_mode fs dst (fs.stat v src) v) (InTime-attempt _ _) (λ v. go (fs.stat v src) v)
    where
      go : (s : StatResult) (v : History) → InTime (set_mode fs dst s v)
      go (found d mode) v = InTime-attempt (fs.chmod v dst mode) (mode_set dst mode ∷ v)
      go (missing e) v = tt

  InTime-copy_into : (src dst : Text) (h : History) → InTime (copy_into fs src dst h)
  unfolding copy_into
  InTime-copy_into src dst h = go (fs.create h dst)
    where
      go : (e : Option FsError) → InTime (with_dest fs src dst e h)
      go none = InTime-closing dst (fill fs src dst (created dst true ∷ h)) (InTime-fill src dst _)
      go (some e) = tt

  InTime-afero_copy_file : (src dst : Text) (h : History) → InTime (afero_copy_file fs src dst h)
  unfolding afero_copy_file
  InTime-afero_copy_file src dst h = go (fs.open_file h src)
    where
      go : (e : Option FsError) → InTime (with_source fs src dst e h)
      go none =
          InTime-closing src (copy_into fs src dst (opened src true ∷ h))
            (InTime-copy_into src dst _)
      go (some e) = tt

  module _ (pred : Text → Bool) where
    pub InTime-copy_items :
        (step : Text → Text → History → FsRun) (s d : Text) (items : List (Text × Bool))
        (h : History)
        → All
            (λ item.
              item.1 ≡ true
              → (d : Text) (h : History) → InTime (step (append_folder s (item.0)) d h))
            items
        → InTime (copy_items fs pred step s d items h)
    unfolding copy_items
    InTime-copy_items step s d [] h all = tt
    InTime-copy_items step s d ((name, is_dir) ∷ items) h (here, all) =
        InTime-then _ (λ v. copy_items fs pred step s d items v)
          (if-elim InTime (pred name) (inside is_dir here) tt)
          (λ v. InTime-copy_items step s d items v all)
      where
        inside :
            (b : Bool)
            → (b ≡ true → (d : Text) (h : History) → InTime (step (append_folder s name) d h))
            → InTime (
                if b
                then dropped_error (step (append_folder s name) (append_folder d name) h)
                else afero_copy_file fs (append_folder s name) (append_folder d name) h)
        inside true k = InTime-dropped_error _ (k refl (append_folder d name) h)
        inside false k = InTime-afero_copy_file (append_folder s name) (append_folder d name) h

    InTime-with_items :
        (step : Text → Text → History → FsRun) (s d : Text) (l : Listing) (h : History)
        → ((items : List (Text × Bool))
            → l ≡ listed items
            → All
                (λ item.
                  item.1 ≡ true
                  → (d : Text) (h : History) → InTime (step (append_folder s (item.0)) d h))
                items)
        → InTime (with_items fs pred step s d l h)
    InTime-with_items step s d (unlisted e) h k = tt
    InTime-with_items step s d (listed items) h k =
        InTime-then (attempt (fs.mkdir_all h d owner_mode) (made_dir d owner_mode ∷ h))
          (λ v. copy_items fs pred step s d items v) (InTime-attempt _ _)
          (λ v. InTime-copy_items step s d items v (k items refl))

    -- As many levels as there are directories inside each other are fuel enough.
    pub InTime-copy_folder_contents :
        (fuel : ℕ) (source dest : Text) (h : History)
        → Levels fs fuel source
        → InTime (copy_folder_contents fs pred fuel source dest h)
    unfolding copy_folder_contents
    InTime-copy_folder_contents zero source dest h levels = levels
    InTime-copy_folder_contents (suc f) source dest h levels =
        InTime-with_items (λ s d h. copy_folder_contents fs pred f s d h) source dest
          (fs.read_dir h source) h
          (λ items e.
            All-map _ _
              (λ item below is_dir d h.
                InTime-copy_folder_contents f (append_folder source (item.0)) d h (below is_dir))
              items (levels h items e))
