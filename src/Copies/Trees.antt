-- ===== src/Copies/Trees.antt =====
-- What copyRecursive copies out of a tree of directories.
use mutation_framework.Base.{
  ℕ, zero, suc, ◌≤◌, max, Bool, true, false, List, [], ◌∷◌, ◌++◌, none, some, ◌≡◌, refl, ap, sym,
  ◌∙◌, arith, ◌⊎◌, inl, inr, if◌then◌else◌, Bool-cases, append_assoc, append-nil,
}
use mutation_framework.Base.Text.{Text}
use mutation_framework.Paths.{append_folder, do_not_copy_dir}
use mutation_framework.FileSystem.{
  not_exist, opened, created, closed, made_dir, copied, mode_set, History, found, listed,
  FileSystem, done, FsRun, ◌then◌,
}
use mutation_framework.Copies.{
  closing, fill, copy_into, afero_copy_file, copy_entries, copy_source, copy_recursive,
}

-- A directory: its entries, each a file of a mode or a directory of a mode.
pub data Tree : Type 0 where
  empty : Tree
  file : Text → ℕ → Tree → Tree
  dir : Text → ℕ → Tree → Tree → Tree

abbrev pub entries : Tree → List (Text × Bool)
entries empty = []
entries (file name mode rest) = (name, false) ∷ entries rest
entries (dir name mode inner rest) = (name, true) ∷ entries rest

-- The levels of directories.
abbrev pub depth : Tree → ℕ
depth empty = 1
depth (file name mode rest) = depth rest
depth (dir name mode inner rest) = max (suc (depth inner)) (depth rest)

-- The file system shows the tree below a path, whatever was written before; nothing is said of the
-- directories that are not copied.
abbrev pub ShowsAll : FileSystem → Text → Text → Tree → Type 0
ShowsAll fs folder path empty = Unit
ShowsAll fs folder path (file name mode rest) =
    ((h : History) → fs.open_file h (append_folder path name) ≡ none)
    × ((h : History) → fs.stat h (append_folder path name) ≡ found false mode)
    × ShowsAll fs folder path rest
ShowsAll fs folder path (dir name mode inner rest) =
    (do_not_copy_dir name folder ≡ false
      → ((h : History) → fs.stat h (append_folder path name) ≡ found true mode)
        × ((h : History) → fs.read_dir h (append_folder path name) ≡ listed (entries inner))
        × ShowsAll fs folder (append_folder path name) inner)
    × ShowsAll fs folder path rest

-- No call that writes or closes fails, and a path that cannot be opened does not exist.
pub record Writes (fs : FileSystem) : Type 0 where
  pub opens :
      (h : History) (p : Text) → (fs.open_file h p ≡ none) ⊎ (fs.open_file h p ≡ some not_exist)
  pub creates : (h : History) (p : Text) → fs.create h p ≡ none
  pub closes : (h : History) (p : Text) → fs.close_file h p ≡ none
  pub copies : (h : History) (p q : Text) → fs.io_copy h p q ≡ none
  pub makes : (h : History) (p : Text) (mode : ℕ) → fs.mkdir_all h p mode ≡ none
  pub sets : (h : History) (p : Text) (mode : ℕ) → fs.chmod h p mode ≡ none

-- The copies that were made, the first one first.
abbrev pub copies_made : History → List (Text × Text)
copies_made [] = []
copies_made (copied src dst ∷ h) = copies_made h ++ (src, dst) ∷ []
copies_made (_ ∷ h) = copies_made h

-- The copies that a tree wants: every file, and all in the directories that are copied.
abbrev pub wanted : Text → Text → Text → Tree → List (Text × Text)
wanted folder source dest empty = []
wanted folder source dest (file name mode rest) =
    (append_folder source name, append_folder dest name) ∷ wanted folder source dest rest
wanted folder source dest (dir name mode inner rest) =
    (if do_not_copy_dir name folder
      then []
      else wanted folder (append_folder source name) (append_folder dest name) inner)
    ++ wanted folder source dest rest

-- A run that returns nil with these copies made.
data Copies (h : History) (pairs : List (Text × Text)) (r : FsRun) : Type 0 where
  copies_done :
      (v : History) → r ≡ (done, v) → copies_made v ≡ copies_made h ++ pairs → Copies h pairs r

Copies-then :
    (h : History) (xs ys : List (Text × Text)) (r : FsRun) (next : History → FsRun)
    → Copies h xs r
    → ((v : History) → Copies v ys (next v))
    → Copies h (xs ++ ys) (r then next)
unfolding ◌then◌
Copies-then h xs ys r next (copies_done v e c) k = go (k v)
  where
    go : Copies v ys (next v) → Copies h (xs ++ ys) (r then next)
    go (copies_done u d f) =
        copies_done u (rw e d) (f ∙ ap (λ l. l ++ ys) c ∙ append_assoc (copies_made h) xs ys)

Copies-from :
    (h v : History) {pairs : List (Text × Text)} {r : FsRun}
    → copies_made v ≡ copies_made h
    → Copies v pairs r
    → Copies h pairs r
Copies-from h v {pairs} same (copies_done u e c) = copies_done u e (c ∙ ap (λ l. l ++ pairs) same)

depth-positive : (t : Tree) → 1 ≤ depth t
depth-positive empty = omega arith
depth-positive (file name mode rest) = depth-positive rest
depth-positive (dir name mode inner rest) = omega (arith, depth-positive rest)

module _ (fs : FileSystem) (folder : Text) (writes : Writes fs) where
  file-Copies :
      (src dst : Text) (mode : ℕ) (h : History)
      → ((h : History) → fs.open_file h src ≡ none)
      → ((h : History) → fs.stat h src ≡ found false mode)
      → Copies h ((src, dst) ∷ []) (afero_copy_file fs src dst h)
  unfolding afero_copy_file copy_into fill closing ◌then◌
  file-Copies src dst mode h o s =
      copies_done
        (closed src
          ∷ closed dst
          ∷ mode_set dst mode
          ∷ copied src dst
          ∷ created dst true
          ∷ opened src true
          ∷ h)
        (rw
          (
            o h,
            writes.creates (opened src true ∷ h) dst,
            writes.copies (created dst true ∷ opened src true ∷ h) src dst,
            s (copied src dst ∷ created dst true ∷ opened src true ∷ h),
            writes.sets (copied src dst ∷ created dst true ∷ opened src true ∷ h) dst mode,
            writes.closes
                (mode_set dst mode ∷ copied src dst ∷ created dst true ∷ opened src true ∷ h) dst,
            writes.closes
                (closed dst
                  ∷ mode_set dst mode
                  ∷ copied src dst
                  ∷ created dst true
                  ∷ opened src true
                  ∷ h)
                src,
          )
          refl)
        refl

  -- What is asked of the call for a directory inside.
  abbrev Recurses : ℕ → Type 0
  Recurses f =
      (t : Tree) (mode : ℕ) (s d : Text) (h : History)
      → depth t ≤ f
      → ((h : History) → fs.stat h s ≡ found true mode)
      → ((h : History) → fs.read_dir h s ≡ listed (entries t))
      → ShowsAll fs folder s t
      → Copies h (wanted folder s d t) (copy_recursive fs f true s d folder h)

  loop-Copies :
      (f : ℕ)
      → Recurses f
      → (t : Tree) (s d : Text) (h : History) → depth t ≤ suc f
      → ShowsAll fs folder s t
      → Copies h (wanted folder s d t) (
          copy_entries fs (λ s d h. copy_recursive fs f true s d folder h) s d folder (entries t) h)
  unfolding copy_entries
  loop-Copies f ih empty s d h le shows = copies_done h refl (sym (append-nil (copies_made h)))
  loop-Copies f ih (file name mode rest) s d h le (o, st, shows) =
      Copies-then h ((append_folder s name, append_folder d name) ∷ []) (wanted folder s d rest)
        (afero_copy_file fs (append_folder s name) (append_folder d name) h)
        (λ h.
          copy_entries fs (λ s d h. copy_recursive fs f true s d folder h) s d folder (entries rest)
            h)
        (file-Copies (append_folder s name) (append_folder d name) mode h o st)
        (λ v. loop-Copies f ih rest s d v le shows)
  loop-Copies f ih (dir name mode inner rest) s d h le (here, shows) =
      Copies-then h _ (wanted folder s d rest) _
        (λ h.
          copy_entries fs (λ s d h. copy_recursive fs f true s d folder h) s d folder (entries rest)
            h)
        (elim (Bool-cases (do_not_copy_dir name folder)) [
          | inl e ↦ rw e (copies_done h refl (sym (append-nil (copies_made h))))
          | inr e ↦ rw e (inside (here e))
        ])
        (λ v. loop-Copies f ih rest s d v (omega (arith, le)) shows)
    where
      inside :
          ((h : History) → fs.stat h (append_folder s name) ≡ found true mode)
            × ((h : History) → fs.read_dir h (append_folder s name) ≡ listed (entries inner))
            × ShowsAll fs folder (append_folder s name) inner
          → Copies h
              (wanted folder (append_folder s name) (append_folder d name) inner)
              (copy_recursive fs f true (append_folder s name) (append_folder d name) folder h)
      inside (st, rd, all) =
          ih inner mode (append_folder s name) (append_folder d name) h (omega (arith, le)) st rd
            all

  recursive-Copies : (f : ℕ) → Recurses f
  unfolding copy_recursive copy_source ◌then◌
  recursive-Copies zero t mode s d h le st rd shows = elim none_left [ ]
    where
      none_left : ⊥
      none_left = omega (arith, le, depth-positive t)
  recursive-Copies (suc f) t mode s d h le st rd shows = elim (writes.opens h d) [
    | inl e ↦
        rw e (go (closed d ∷ opened d true ∷ h) refl (loop-Copies f (recursive-Copies f) t s d))
    | inr e ↦ rw e (go (opened d false ∷ h) refl (loop-Copies f (recursive-Copies f) t s d))
  ]
    where
      go :
          (v : History)
          → copies_made v ≡ copies_made h
          → ((h : History)
              → depth t ≤ suc f
              → ShowsAll fs folder s t
              → Copies h (wanted folder s d t) (
                  copy_entries fs
                    (λ s d h. copy_recursive fs f true s d folder h)
                    s
                    d
                    folder
                    (entries t)
                    h))
          → Copies h
              (wanted folder s d t)
              (copy_source fs (λ s d h. copy_recursive fs f true s d folder h) s d folder v)
      go v same loop =
          rw (st v, writes.makes v d mode, rd (made_dir d mode ∷ v))
            (Copies-from h (made_dir d mode ∷ v) same (loop (made_dir d mode ∷ v) le shows))

  -- Where no write fails and the source is a tree of directories, copyRecursive with overwrite
  -- returns nil, and the files that it copied are those of the tree, but for the directories .git
  -- and those of the mutants, each once and in the order of the directories. The depth of the tree
  -- is fuel enough.
  pub copy_recursive-wanted :
      (fuel : ℕ) (t : Tree) (mode : ℕ) (source dest : Text) (h : History)
      → depth t ≤ fuel
      → ((h : History) → fs.stat h source ≡ found true mode)
      → ((h : History) → fs.read_dir h source ≡ listed (entries t))
      → ShowsAll fs folder source t
      → (v : History) × (copy_recursive fs fuel true source dest folder h ≡ (done, v))
        × (copies_made v ≡ copies_made h ++ wanted folder source dest t)
  copy_recursive-wanted fuel t mode source dest h le st rd shows =
      go (recursive-Copies fuel t mode source dest h le st rd shows)
    where
      go :
          {r : FsRun} {pairs : List (Text × Text)}
          → Copies h pairs r
          → (v : History) × (r ≡ (done, v)) × (copies_made v ≡ copies_made h ++ pairs)
      go (copies_done v e c) = (v, e, c)
