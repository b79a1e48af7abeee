-- ===== src/Copies/Handles.antt =====
-- The open files of a copy, path by path.
use mutation_framework.Base.{
  ℕ, zero, suc, ◌+◌, Bool, true, false, List, [], ◌∷◌, Option, none, some, ◌≡◌, ◌≢◌, refl, ◌⊎◌, inl,
  inr, arith, if◌then◌else◌, if-elim,
}
use mutation_framework.Base.Text.{Text, text_eq}
use mutation_framework.Paths.{append_folder, do_not_copy_dir}
use mutation_framework.FileSystem.{
  FsError, not_exist, other_error, FsEvent, opened, created, closed, made_dir, copied, mode_set,
  History, StatResult, found, missing, Listing, listed, unlisted, FileSystem, Outcome, done, failed,
  would_overwrite, out_of_fuel, FsRun, ◌then◌, attempt,
}
use mutation_framework.Copies.{
  close_result, closing, set_mode, fill, with_dest, copy_into, with_source, afero_copy_file,
  copy_entries, with_listing, with_stat, copy_source, with_opened, copy_recursive,
}

-- How often a path was opened or created, and how often it was closed.
abbrev pub opens : Text → History → ℕ
opens p [] = 0
opens p (opened path true ∷ h) = (if text_eq path p then 1 else 0) + opens p h
opens p (created path true ∷ h) = (if text_eq path p then 1 else 0) + opens p h
opens p (_ ∷ h) = opens p h

abbrev pub closes : Text → History → ℕ
closes p [] = 0
closes p (closed path ∷ h) = (if text_eq path p then 1 else 0) + closes p h
closes p (_ ∷ h) = closes p h

-- How many files of each path are open behind a run that were not before: none, but for one of one
-- path when the run refuses to overwrite.
abbrev Leaves : Outcome → (Text → ℕ) → Type 0
Leaves would_overwrite left = (q : Text) × ((p : Text) → left p ≡ (if text_eq q p then 1 else 0))
Leaves done left = (p : Text) → left p ≡ 0
Leaves (failed e) left = (p : Text) → left p ≡ 0
Leaves out_of_fuel left = (p : Text) → left p ≡ 0

-- The run closes what it opens and what was open before, but for what it leaves.
data Balanced (before : Text → ℕ) (h : History) (r : FsRun) : Type 0 where
  balanced :
      (left : Text → ℕ)
      → Leaves (r.0) left
      → ((p : Text)
          → opens p (r.1) + closes p h ≡ before p + (left p + (opens p h + closes p (r.1))))
      → Balanced before h r

-- Every path is closed as often as it is opened or created.
abbrev pub Closed : History → History → Type 0
Closed h v = (p : Text) → opens p v + closes p h ≡ opens p h + closes p v

-- Every path is closed as often as it is opened or created, but for one, once less often.
abbrev pub ClosedBut : Text → History → History → Type 0
ClosedBut q h v =
    (p : Text) → opens p v + closes p h ≡ (if text_eq q p then 1 else 0) + (opens p h + closes p v)

abbrev zeros : Text → ℕ
zeros p = 0

abbrev only : Text → Text → ℕ
only path p = if text_eq path p then 1 else 0

Balanced-done : (h : History) → Balanced zeros h (done, h)
Balanced-done h = balanced zeros (λ p. refl) (λ p. omega arith)

Balanced-failed : (e : FsError) (h : History) → Balanced zeros h (failed e, h)
Balanced-failed e h = balanced zeros (λ p. refl) (λ p. omega arith)

Balanced-attempt : (e : Option FsError) (h : History) → Balanced zeros h (attempt e h)
Balanced-attempt none h = Balanced-done h
Balanced-attempt (some e) h = Balanced-failed e h

Balanced-then :
    (h : History) (r : FsRun) (next : History → FsRun)
    → Balanced zeros h r
    → ((v : History) → Balanced zeros v (next v))
    → Balanced zeros h (r then next)
unfolding ◌then◌
Balanced-then h (done, v) next (balanced left l b) k = go (k v)
  where
    go : Balanced zeros v (next v) → Balanced zeros h (next v)
    go (balanced left' l' c) = balanced left' l' (λ p. omega (arith, b p, c p, l p))
Balanced-then h (failed e, v) next b k = b
Balanced-then h (would_overwrite, v) next b k = b
Balanced-then h (out_of_fuel, v) next b k = b

module _ (fs : FileSystem) where
  Balanced-closing :
      (path : Text) (h : History) (r : FsRun)
      → Balanced (only path) h r
      → Balanced zeros h (closing fs path r)
  unfolding closing
  Balanced-closing path h (r, v) (balanced left l b) =
      balanced left (go r (fs.close_file v path) l) (λ p. omega (arith, b p))
    where
      go : (r : Outcome) (e : Option FsError) → Leaves r left → Leaves (close_result r e) left
      go done none l = l
      go done (some e) l = l
      go (failed f) e l = l
      go would_overwrite e l = l
      go out_of_fuel e l = l

  Balanced-step :
      (e : FsEvent) (h : History) (r : FsRun)
      → ((p : Text) → opens p (e ∷ h) ≡ opens p h)
      → ((p : Text) → closes p (e ∷ h) ≡ closes p h)
      → Balanced zeros (e ∷ h) r
      → Balanced zeros h r
  Balanced-step e h r o c (balanced left l b) = balanced left l (λ p. omega (arith, o p, c p, b p))

  -- What runs with a file open.
  Balanced-open :
      (e : FsEvent) (path : Text) (h : History) (r : FsRun)
      → ((p : Text) → opens p (e ∷ h) ≡ only path p + opens p h)
      → ((p : Text) → closes p (e ∷ h) ≡ closes p h)
      → Balanced zeros (e ∷ h) r
      → Balanced (only path) h r
  Balanced-open e path h r o c (balanced left l b) =
      balanced left l (λ p. omega (arith, o p, c p, b p))

  Balanced-set_mode :
      (dst : Text) (s : StatResult) (h : History) → Balanced zeros h (set_mode fs dst s h)
  Balanced-set_mode dst (found d mode) h =
      Balanced-step (mode_set dst mode) h _ (λ p. refl) (λ p. refl) (Balanced-attempt _ _)
  Balanced-set_mode dst (missing e) h = Balanced-failed e h

  Balanced-fill : (src dst : Text) (h : History) → Balanced zeros h (fill fs src dst h)
  unfolding fill
  Balanced-fill src dst h =
      Balanced-then h (attempt (fs.io_copy h src dst) (copied src dst ∷ h))
        (λ v. set_mode fs dst (fs.stat v src) v)
        (Balanced-step (copied src dst) h _ (λ p. refl) (λ p. refl) (Balanced-attempt _ _))
        (λ v. Balanced-set_mode dst (fs.stat v src) v)

  Balanced-copy_into : (src dst : Text) (h : History) → Balanced zeros h (copy_into fs src dst h)
  unfolding copy_into
  Balanced-copy_into src dst h = go (fs.create h dst)
    where
      go : (e : Option FsError) → Balanced zeros h (with_dest fs src dst e h)
      go none = Balanced-closing dst h (fill fs src dst (created dst true ∷ h)) (
          Balanced-open (created dst true) dst h _ (λ p. refl) (λ p. refl)
            (Balanced-fill src dst _))
      go (some e) = Balanced-step _ h _ (λ p. refl) (λ p. refl) (Balanced-failed e _)

  Balanced-afero_copy_file :
      (src dst : Text) (h : History) → Balanced zeros h (afero_copy_file fs src dst h)
  unfolding afero_copy_file
  Balanced-afero_copy_file src dst h = go (fs.open_file h src)
    where
      go : (e : Option FsError) → Balanced zeros h (with_source fs src dst e h)
      go none = Balanced-closing src h (copy_into fs src dst (opened src true ∷ h)) (
          Balanced-open (opened src true) src h _ (λ p. refl) (λ p. refl)
            (Balanced-copy_into src dst _))
      go (some e) = Balanced-step _ h _ (λ p. refl) (λ p. refl) (Balanced-failed e _)

  module _ (step : Text → Text → History → FsRun) where
    Balanced-copy_entries :
        ((s d : Text) (h : History) → Balanced zeros h (step s d h))
        → (source dest folder : Text) (entries : List (Text × Bool)) (h : History)
        → Balanced zeros h (copy_entries fs step source dest folder entries h)
    unfolding copy_entries
    Balanced-copy_entries b source dest folder [] h = Balanced-done h
    Balanced-copy_entries b source dest folder ((name, false) ∷ entries) h =
        Balanced-then h (afero_copy_file fs (append_folder source name) (append_folder dest name) h)
          (λ v. copy_entries fs step source dest folder entries v)
          (Balanced-afero_copy_file (append_folder source name) (append_folder dest name) h)
          (λ v. Balanced-copy_entries b source dest folder entries v)
    Balanced-copy_entries b source dest folder ((name, true) ∷ entries) h =
        Balanced-then h _ (λ v. copy_entries fs step source dest folder entries v)
          (if-elim (Balanced zeros h) (do_not_copy_dir name folder) (Balanced-done h)
            (b (append_folder source name) (append_folder dest name) h))
          (λ v. Balanced-copy_entries b source dest folder entries v)

    Balanced-copy_source :
        ((s d : Text) (h : History) → Balanced zeros h (step s d h))
        → (source dest folder : Text) (h : History)
        → Balanced zeros h (copy_source fs step source dest folder h)
    unfolding copy_source
    Balanced-copy_source b source dest folder h = go (fs.stat h source)
      where
        entries :
            (l : Listing) (v : History)
            → Balanced zeros v (with_listing fs step source dest folder l v)
        entries (listed es) v = Balanced-copy_entries b source dest folder es v
        entries (unlisted e) v = Balanced-failed e v

        go : (s : StatResult) → Balanced zeros h (with_stat fs step source dest folder s h)
        go (missing e) = Balanced-failed e h
        go (found false mode) = Balanced-done h
        go (found true mode) =
            Balanced-then h (attempt (fs.mkdir_all h dest mode) (made_dir dest mode ∷ h))
              (λ v. with_listing fs step source dest folder (fs.read_dir v source) v)
              (Balanced-step (made_dir dest mode) h _ (λ p. refl) (λ p. refl)
                (Balanced-attempt _ _))
              (λ v. entries (fs.read_dir v source) v)

  Balanced-copy_recursive :
      (fuel : ℕ) (overwrite : Bool) (source dest folder : Text) (h : History)
      → Balanced zeros h (copy_recursive fs fuel overwrite source dest folder h)
  unfolding copy_recursive
  Balanced-copy_recursive zero overwrite source dest folder h =
      balanced zeros (λ p. refl) (λ p. omega arith)
  Balanced-copy_recursive (suc f) overwrite source dest folder h =
      go overwrite (fs.open_file h dest) (λ v.
        Balanced-copy_source (λ s d v. copy_recursive fs f overwrite s d folder v)
          (λ s d v. Balanced-copy_recursive f overwrite s d folder v) source dest folder v)
    where
      go :
          {next : History → FsRun} (over : Bool) (e : Option FsError)
          → ((v : History) → Balanced zeros v (next v))
          → Balanced zeros h (with_opened fs over dest e h next)
      go over (some not_exist) k =
          Balanced-step (opened dest false) h _ (λ p. refl) (λ p. refl) (k _)
      go over (some other_error) k =
          Balanced-step (opened dest false) h _ (λ p. refl) (λ p. refl)
            (Balanced-failed other_error _)
      go true none k = closed_again (k _)
        where
          closed_again :
              {r : FsRun}
              → Balanced zeros (closed dest ∷ opened dest true ∷ h) r
              → Balanced zeros h r
          closed_again (balanced left l b) = balanced left l (λ p. omega (arith, b p))
      go false none k = balanced (only dest) (dest, λ p. refl) (λ p. omega arith)

  -- Whatever the file system answers, copyRecursive closes each path as often as it opens or
  -- creates it, but for one path, once less often, exactly when it refuses to overwrite.
  pub copy_recursive-closes :
      (fuel : ℕ) (overwrite : Bool) (source dest folder : Text) (h : History)
      → let r = copy_recursive fs fuel overwrite source dest folder h in
        (r.0 ≢ would_overwrite) × Closed h (r.1)
        ⊎ (r.0 ≡ would_overwrite) × ((q : Text) × ClosedBut q h (r.1))
  copy_recursive-closes fuel overwrite source dest folder h =
      go (copy_recursive fs fuel overwrite source dest folder h)
        (Balanced-copy_recursive fuel overwrite source dest folder h)
    where
      go :
          (r : FsRun)
          → Balanced zeros h r
          → (r.0 ≢ would_overwrite) × Closed h (r.1)
            ⊎ (r.0 ≡ would_overwrite) × ((q : Text) × ClosedBut q h (r.1))
      go (would_overwrite, v) (balanced left (q, l) b) =
          inr (refl, (q, λ p. omega (arith, b p, l p)))
      go (done, v) (balanced left l b) = inl (λ e. cc, λ p. omega (arith, b p, l p))
      go (failed x, v) (balanced left l b) = inl (λ e. cc, λ p. omega (arith, b p, l p))
      go (out_of_fuel, v) (balanced left l b) = inl (λ e. cc, λ p. omega (arith, b p, l p))
