-- ===== src/Config/Expand/Exist.antt =====
-- Which paths the expansion of a wild card may give: those that exist, and those that the code takes
-- for such; and the filter of names by a glob.
use mutation_framework.Base.{
  ℕ, Bool, true, not, ◌||◌, List, [], ◌∷◌, ◌++◌, Option, none, some, length, ltb, Returns, ◌≡◌,
  refl, ap, sym, ◌∙◌, ◌⊎◌, inl, inr, Bool-cases, All, append-nil, if-elim,
}
use mutation_framework.Base.Text.{Text}
use mutation_framework.Paths.{slash, clean}
use mutation_framework.FileSystem.{
  FileSystem, StatResult, found, missing, not_exist, other_error, listed, History,
}
use mutation_framework.Config.WildCard.{is_valid_wild_card}
use mutation_framework.Config.Expand.{
  OtherGlobs, glob_items, must_compile, valid_files, filter_file_names, names_of, drop_last,
  is_directory, is_found, is_missing, exists, expand_files, filter_glob,
}
use mutation_framework.Config.Expand.Pieces.{Returns-bind, drop_last-slash}

-- The base path is there, Stat fails only for what does not exist, the file system lists what it
-- says is a directory, with names of directories that are no wild cards, and regexp compiles the
-- globs.
pub record Listable (fs : FileSystem) (h : History) (others : OtherGlobs) (basepath : Text)
    : Type 0 where
  pub root : (is_dir : Bool) × (mode : ℕ) × (fs.stat h basepath ≡ found is_dir mode)
  pub answers : (path : Text) → ¬ (fs.stat h path ≡ missing other_error)
  pub lists :
      (path : Text)
      → is_directory fs h others basepath path ≡ true
      → (entries : List (Text × Bool)) × (fs.read_dir h (basepath ++ path) ≡ listed entries)
  pub plain :
      (path : Text) (entries : List (Text × Bool))
      → fs.read_dir h path ≡ listed entries
      → All (λ name. is_valid_wild_card name ≡ none) (names_of true entries)
  pub compiles : (glob : Text) → (valid : Text → Bool) × (others glob ≡ some valid)

module _ (fs : FileSystem) (h : History) (others : OtherGlobs) (basepath : Text) where
  -- Stat finds the path below the base path, as it is or after filepath.Clean.
  abbrev pub IsFound : Text → Type 0
  IsFound path =
      (is_dir : Bool) × (mode : ℕ) × ((fs.stat h (basepath ++ path) ≡ found is_dir mode)
        ⊎ (fs.stat h (basepath ++ clean path) ≡ found is_dir mode))

  -- The path exists, perhaps with a slash behind it.
  abbrev pub Exists : Text → Type 0
  Exists path = IsFound path ⊎ IsFound (path ++ slash ∷ [])

  -- The closure exists of the code takes the path, perhaps with a slash behind it.
  abbrev pub Accepted : Text → Type 0
  Accepted path =
      (exists fs h others basepath path ≡ true)
      ⊎ (exists fs h others basepath (path ++ slash ∷ []) ≡ true)

  pub exists-IsFound :
      Listable fs h others basepath
      → (path : Text) → exists fs h others basepath path ≡ true
      → IsFound path
  unfolding exists
  exists-IsFound listable [] t =
      let (d, m, e) = listable.root in (d, m, inl (rw (append-nil basepath) e))
  exists-IsFound listable (c ∷ path) t =
      go (fs.stat h (basepath ++ c ∷ path)) (fs.stat h (basepath ++ clean (c ∷ path))) refl refl t
    where
      go :
          (a b : StatResult)
          → fs.stat h (basepath ++ c ∷ path) ≡ a
          → fs.stat h (basepath ++ clean (c ∷ path)) ≡ b
          → is_found a || not (is_missing b) ≡ true
          → IsFound (c ∷ path)
      go (found d m) b e f t = (d, m, inl e)
      go (missing x) (found d m) e f t = (d, m, inr f)
      go (missing x) (missing not_exist) e f t = cc
      go (missing x) (missing other_error) e f t = absurd (listable.answers _ f)

  pub found_path :
      (front : Text) {current : Text}
      → current ≡ front ++ slash ∷ []
      → exists fs h others basepath current ≡ true
      → Accepted (drop_last current)
  found_path front {current} e t = inr (
      ap (exists fs h others basepath)
        (ap (λ p. p ++ slash ∷ []) (ap drop_last e ∙ drop_last-slash front) ∙ sym e)
      ∙ t)

  pub expand_files-Accepted :
      (parent : Text) (files : List Text)
      → All Accepted (expand_files fs h others basepath parent files)
  unfolding expand_files
  expand_files-Accepted parent [] = tt
  expand_files-Accepted parent (file ∷ files) =
      elim (Bool-cases (exists fs h others basepath (parent ++ file))) [
        | inl e ↦ rw e (inl e, expand_files-Accepted parent files)
        | inr e ↦ rw e (expand_files-Accepted parent files)
      ]

  -- The filter keeps only names that it was given.
  pub valid_files-All :
      (P : Text → Type 0) (valid : Text → Bool) (names : List Text)
      → All P names
      → All P (valid_files valid names)
  unfolding valid_files
  valid_files-All P valid [] k = tt
  valid_files-All P valid (file ∷ files) (k, ks) =
      if-elim (All P) (valid file) (k, valid_files-All P valid files ks)
        (valid_files-All P valid files ks)

  pub filter-Returns :
      (P : Text → Type 0) (glob : Text) (names : List Text)
      → ((glob : Text) → (valid : Text → Bool) × (others glob ≡ some valid))
      → All P names
      → Returns (All P) (filter_file_names others glob names)
  unfolding filter_file_names
  filter-Returns P glob names c k =
      Returns-bind (λ valid. Unit {0}) (All P) (must_compile others glob (glob_items glob)) _
        (compiled (glob_items glob)) (λ valid _. valid_files-All P valid names k)
    where
      compiled :
          (items : Option (List mutation_framework.Regex.Item))
          → Returns (λ valid. Unit {0}) (must_compile others glob items)
      compiled none = rw (must_compile, (c glob).1) tt
      compiled (some items) = tt

  pub glob-Returns :
      (P : Text → Type 0) (glob : Text) (names : List Text)
      → ((glob : Text) → (valid : Text → Bool) × (others glob ≡ some valid))
      → All P names
      → Returns (All P) (filter_glob fs h others basepath glob names)
  glob-Returns P glob names c k =
      if-elim (Returns (All P)) (ltb 1 (length glob)) (filter-Returns P glob names c k) k

  pub Accepted-Exists : Listable fs h others basepath → (path : Text) → Accepted path → Exists path
  Accepted-Exists listable path (inl t) = inl (exists-IsFound listable path t)
  Accepted-Exists listable path (inr t) = inr (exists-IsFound listable (path ++ slash ∷ []) t)
