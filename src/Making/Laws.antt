-- ===== src/Making/Laws.antt =====
-- The mutants that mutate of cmd/mutation-framework/mutate.go makes, against CountWalk and the
-- names of mutants.
use mathlib.Core.List.{map-append}
use mutation_framework.Base.{
  ℕ, zero, suc, List, [], ◌∷◌, ◌++◌, map, length, Option, none, some, All, Result, ok, panic,
  out_of_fuel, ◌≡◌, refl, ◌≢◌,
}
use mutation_framework.Base.Text.{Text}
use mutation_framework.Ast.{Node}
use mutation_framework.Ast.Info.{Info}
use mutation_framework.Mutator.{IsReversible}
use mutation_framework.MutateWalk.{count_walk}
use mutation_framework.MutateWalk.Files.{signals, mutate_file-count_walk}
use mutation_framework.Operators.Init.{Operator}
use mutation_framework.Paths.{append_folder, clean}
use mutation_framework.Config.{MutationConfig}
use mutation_framework.MutantNames.{build_mutant_name, get_absolute_mutation_folder_path}
use mutation_framework.Runner.{MutantInfo, MutationStats}
use mutation_framework.FileSystem.{
  History, wrote, FileSystem, out_of_fuel as no_fuel, done, failed, would_overwrite, FsRun,
}
use mutation_framework.Copies.{copy_project, copy_recursive}
use mutation_framework.Making.{
  Printing, saved, save_ast, make_mutant, make_mutants, mutate, Made, save_into,
}

-- Printing and formatting succeed, and so does writing a file.
pub record Writable (fs : FileSystem) (printing : Printing) : Type 0 where
  pub prints : (node : Node) → (src : Text) × (printing.print node ≡ some src)
  pub formats : (src : Text) → (formatted : Text) × (printing.format_source src ≡ some formatted)
  pub writes : (h : History) (file src : Text) → fs.write_file h file src ≡ none

-- The fuel is enough for every copy of the directory.
abbrev pub CopiesEnd : FileSystem → MutationConfig → ℕ → Text → Type 0
CopiesEnd fs config fuel dir =
    (dest : Text) (h : History)
    → (copy_recursive fs fuel config.mutate.overwrite dir dest config.mutate.folder h).0 ≢ no_fuel

-- A mutant without its checksum: the package, the directory, the mutated file, and the file that
-- it is a mutant of.
abbrev pub MutantPlace : Type 0
MutantPlace = Option Text × Text × Text × Text

abbrev pub place : MutantInfo → MutantPlace
place info = (
  info.pkg, info.mutant_dir_path_abs_path, info.mutation_file_abs_path,
  info.original_file_relative_path,
)

abbrev pub count : Result ℕ → ℕ
count (ok n) = n
count panic = 0
count out_of_fuel = 0

module _ (config : MutationConfig) (pkg : Option Text) (rel : Text) where
  -- The place of the mutant with the number k.
  abbrev pub wanted_place : Text → ℕ → MutantPlace
  wanted_place name k =
      let dir =
        clean (
          append_folder (get_absolute_mutation_folder_path config)
            (build_mutant_name name rel k)) in
      (pkg, dir, append_folder dir rel, rel)

  abbrev pub places_from : Text → ℕ → ℕ → List (MutantPlace)
  places_from name k zero = []
  places_from name k (suc n) = wanted_place name k ∷ places_from name (suc k) n

  -- For each operator as many mutants as CountWalk counts, numbered from 0.
  abbrev pub wanted_places : Info → Node → List (Text × Operator) → List (MutantPlace)
  wanted_places info node [] = []
  wanted_places info node ((name, operator) ∷ operators) =
      places_from name 0 (count (count_walk (operator info) node))
      ++ wanted_places info node operators

-- A result with mutants in the places, and the statistics unchanged.
data Makes (r : Result Made) (places : List (MutantPlace)) (stats : MutationStats) : Type 0 where
  makes :
      (infos : List MutantInfo) (h : History)
      → r ≡ ok (infos, stats, h)
      → map place infos ≡ places
      → Makes r places stats

module _ (fs : FileSystem) (printing : Printing) (config : MutationConfig) (dir : Text) (fuel : ℕ)
    (pkg : Option Text) (rel : Text) (works : Writable fs printing)
    (ends : CopiesEnd fs config fuel dir) where
  save_ast-saved :
      (file : Text) (node : Node) (h : History)
      → (checksum : Text) × (blacklist : List Text) × (h' : History) × (save_ast fs printing [] file
            node h
          ≡ (saved checksum, blacklist, h'))
  unfolding save_ast
  save_ast-saved file node h =
      let (src, prints) = works.prints node in
      let (formatted, formats) = works.formats src in
      (
        printing.md5 src,
        printing.md5 src ∷ [],
        wrote file formatted ∷ h,
        rw (prints, formats, works.writes h file formatted) refl,
      )

  abbrev mutant_at : Text → Text → MutantInfo
  mutant_at path checksum = record {
    pkg = pkg;
    original_file_relative_path = rel;
    mutant_dir_path_abs_path = clean path;
    mutation_file_abs_path = append_folder (clean path) rel;
    checksum = checksum;
  }

  save_into_lem :
      (path : Text) (run : FsRun) (node : Node) (stats : MutationStats)
      → run.0 ≢ no_fuel
      → (info : MutantInfo) × (h' : History) × (save_into fs printing config
            (some dir)
            fuel
            pkg
            rel
            node
            stats
            (path, run)
          ≡ ok (some info, stats, h'))
        × (place info ≡ (pkg, clean path, append_folder (clean path) rel, rel))
  save_into_lem path (no_fuel, h) node stats ne = absurd (ne refl)
  save_into_lem path (done, h) node stats ne =
      let (checksum, blacklist, h', e) = save_ast-saved (append_folder (clean path) rel) node h in
      (mutant_at path checksum, h', rw e refl, refl)
  save_into_lem path (failed err, h) node stats ne =
      let (checksum, blacklist, h', e) = save_ast-saved (append_folder (clean path) rel) node h in
      (mutant_at path checksum, h', rw e refl, refl)
  save_into_lem path (would_overwrite, h) node stats ne =
      let (checksum, blacklist, h', e) = save_ast-saved (append_folder (clean path) rel) node h in
      (mutant_at path checksum, h', rw e refl, refl)

  make_mutant_lem :
      (name : Text) (k : ℕ) (node : Node) (stats : MutationStats) (h : History)
      → (info : MutantInfo) × (h' : History) × (make_mutant fs printing config
            (some dir)
            fuel
            pkg
            rel
            name
            k
            node
            stats
            h
          ≡ ok (some info, stats, h'))
        × (place info ≡ wanted_place config pkg rel name k)
  unfolding make_mutant copy_project
  make_mutant_lem name k node stats h =
      let path =
        append_folder (get_absolute_mutation_folder_path config) (build_mutant_name name rel k) in
      save_into_lem path
        (copy_recursive fs fuel config.mutate.overwrite dir path config.mutate.folder h) node stats
        (ends path h)

  make_mutants_lem :
      (name : Text) (k : ℕ) (files : List Node) (original : Node) (stats : MutationStats)
      (h : History)
      → Makes
          (make_mutants fs printing config
            (some dir)
            fuel
            pkg
            rel
            name
            k
            (signals files original)
            stats
            h)
          (places_from config pkg rel name k (length files))
          stats
  unfolding make_mutants
  make_mutants_lem name k [] original stats h = makes [] h refl refl
  make_mutants_lem name k (file ∷ files) original stats h =
      let (info, h', made, at) = make_mutant_lem name k file stats h in
      elim (make_mutants_lem name (suc k) files original stats h') [
        | makes infos h'' more rest ↦
            makes (info ∷ infos) h'' (rw (made, more) refl) (rw (at, rest) refl)
      ]

  -- Where printing and writing succeed and the fuel is enough for the copies, mutate with
  -- operators that can be undone returns; it makes for each operator as many mutants as CountWalk
  -- counts in the file, numbered from 0, each in the directory of its name and with the
  -- package of the file, and counts no duplicate.
  pub mutate-wanted_places :
      (info : Info) (operators : List (Text × Operator)) (node : Node) (stats : MutationStats)
      (h : History)
      → All (λ op. IsReversible (op.1 info)) operators
      → (infos : List MutantInfo) × (h' : History) × (mutate fs printing config
            (some dir)
            fuel
            pkg
            rel
            info
            operators
            node
            stats
            h
          ≡ ok (infos, stats, h'))
        × (map place infos ≡ wanted_places config pkg rel info node operators)
  unfolding mutate
  mutate-wanted_places info [] node stats h rev = ([], h, refl, refl)
  mutate-wanted_places info ((name, operator) ∷ operators) node stats h (rev, revs) =
      let (files, walks, edits, counts) = mutate_file-count_walk (operator info) node rev in
      elim (make_mutants_lem name 0 files node stats h) [
        | makes first h' made at ↦
            let (more, h'', rest, at') = mutate-wanted_places info operators node stats h' revs in
            (first ++ more, h'', rw (walks, made, rest) refl, simp (map-append, at, at', counts))
      ]
