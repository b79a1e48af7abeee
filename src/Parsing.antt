-- ===== src/Parsing.antt =====
-- Loading and parsing files (parse.go). The file system, the parser and the loader of packages are
-- parameters; what they answer may depend on the calls of the file system that were made before.

use mutation_framework.Base.{
  ℕ, ◌==◌, List, [], ◌∷◌, Option, none, some, if◌then◌else◌, Result, ok, panic,
}
use mutation_framework.Base.Text.{Text, codes, text_eq}
use mutation_framework.Ast.{Node}
use mutation_framework.Ast.Info.{Info}
use mutation_framework.Paths.{slash, clean}
use mutation_framework.FileSystem.{History, FileSystem}

-- A package of the loader: its path, its files with their names, types.Info.
pub record Package : Type 0 where
  pub pkg_path : Text
  pub files : List (Text × Node)
  pub info : Info

-- filepath.Abs, the import path that build.ImportDir finds, parser.ParseFile, and the initial
-- packages of loader.Config.Load, for an import path or for one file of a directory.
pub record Loader : Type 0 where
  pub abs_path : Text → Option Text
  pub import_dir : History → Text → Option Text
  pub parse_source : Text → Option Node
  pub load_import : History → Text → Option (List Package)
  pub load_file : History → Text → Text → Option (List Package)

-- What ParseAndTypeCheckFile returns without an error; the file is nil where the package has no
-- file of that name.
pub record Parsed : Type 0 where
  pub syntax : Option Node
  pub pkg_path : Text
  pub info : Info

abbrev keep_before : ℕ → Text → Text
keep_before c [] = if c == slash then c ∷ [] else []
keep_before c (d ∷ s) = c ∷ d ∷ s

-- The text up to its last slash.
unfoldable pub up_to_slash : Text → Text
up_to_slash [] = []
up_to_slash (c ∷ s) = keep_before c (up_to_slash s)

-- filepath.Dir
unfoldable pub dir_of : Text → Text
unfolding up_to_slash clean
dir_of path = clean (up_to_slash path)

-- The loop over the files of the package.
unfoldable pub find_file : Text → List (Text × Node) → Option Node
unfolding text_eq
find_file name [] = none
find_file name ((other, file) ∷ files) =
    if text_eq other name then some file else find_file name files

module _ (fs : FileSystem) (loader : Loader) where
  -- LoadFile
  abbrev pub load_file : Text → History → Option Text
  load_file file h = fs.read_file h file

  -- ParseSource
  abbrev pub parse_source : Text → Option Node
  parse_source src = loader.parse_source src

  abbrev parse_data : Option Text → Option Node
  parse_data none = none
  parse_data (some src) = parse_source src

  -- ParseFile
  unfoldable pub parse_file : Text → History → Option Node
  parse_file file h = parse_data (fs.read_file h file)

  -- From the first of the initial packages on.
  abbrev pub first_package : Text → Option (List Package) → Result (Option Parsed)
  first_package file_abs none = ok none
  first_package file_abs (some []) = panic
  first_package file_abs (some (pkg_info ∷ _)) = ok (
      some (record {
        syntax = find_file file_abs pkg_info.files;
        pkg_path = pkg_info.pkg_path;
        info = pkg_info.info;
      }))

  abbrev pub load_package : Text → Option Text → History → Result (Option Parsed)
  load_package file_abs none h = ok none
  load_package file_abs (some path) h = first_package file_abs (
      if text_eq path (codes ".")
      then loader.load_file h (dir_of file_abs) file_abs
      else loader.load_import h path)

  abbrev pub load_abs : Option Text → History → Result (Option Parsed)
  load_abs none h = ok none
  load_abs (some file_abs) h = load_package file_abs (loader.import_dir h (dir_of file_abs)) h

  -- ParseAndTypeCheckFile; `none` is an error.
  unfoldable pub parse_and_type_check_file : Text → History → Result (Option Parsed)
  unfolding find_file dir_of text_eq
  parse_and_type_check_file file h = load_abs (loader.abs_path file) h
