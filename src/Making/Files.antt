-- ===== src/Making/Files.antt =====
-- The loop of mutateFiles (cmd/mutation-framework/mutate.go) over the files.
use mathlib.Core.List.{map-append}
use mutation_framework.Base.{
  ℕ, zero, suc, List, [], ◌∷◌, ◌++◌, map, Option, none, some, All, All-append, All-map, Result, ok,
  ◌≡◌, refl, ap, sym, ◌∙◌, arith, Bool-cases, inl, inr,
}
use mutation_framework.Base.Text.{Text, text_eq, text_eq_refl, occurs_in}
use mutation_framework.Paths.{slash, append_folder}
use mutation_framework.Base.{append-nil, append_assoc, subst, if◌then◌else◌}
use mutation_framework.Ast.{Node}
use mutation_framework.Ast.Info.{Info}
use mutation_framework.Mutator.{IsReversible}
use mutation_framework.MutateWalk.{count_walk}
use mutation_framework.Operators.Init.{Operator}
use mutation_framework.Config.{MutationConfig}
use mutation_framework.Runner.{
  MutantInfo, MutationStats, no_stats, StatsMap, lookup, insert, return_ok,
}
use mutation_framework.Runner.Redundant.Laws.{lookup-insert}
use mutation_framework.Runner.Execute.Counts.{tally}
use mutation_framework.Runner.Execute.Counts.Tally.{HasStats-insert}
use mutation_framework.FileSystem.{History, FileSystem, made_dir}
use mutation_framework.Parsing.{Loader, Parsed, parse_and_type_check_file, dir_of}
use mutation_framework.Making.{
  Printing, FilesMade, make_dir, create_mutant_folder_path, mutate_entry, mutate_files,
}
use mutation_framework.Making.Laws.{
  Writable, CopiesEnd, MutantPlace, place, count, places_from, wanted_places, mutate-wanted_places,
}

-- Of a file by its absolute path: what the loader finds whenever it is asked.
pub record Sources : Type 0 where
  pub tree : Text → Node
  pub info : Text → Info
  pub pkg_path : Text → Text

abbrev pub parsed_at : Sources → Text → Parsed
parsed_at sources abs = record {
  syntax = some (sources.tree abs);
  pkg_path = sources.pkg_path abs;
  info = sources.info abs;
}

abbrev pub Parses : FileSystem → Loader → Sources → Text × Text → Type 0
Parses fs loader sources (rel, abs) =
    (h : History) → parse_and_type_check_file fs loader abs h ≡ ok (some (parsed_at sources abs))

-- The places of all mutants, file after file.
abbrev pub wanted_in_files :
    MutationConfig → Sources → List (Text × Operator) → List (Text × Text) → List MutantPlace
wanted_in_files config sources operators [] = []
wanted_in_files config sources operators ((rel, abs) ∷ files) =
    wanted_places config (some (sources.pkg_path abs)) rel (sources.info abs) (sources.tree abs)
      operators
    ++ wanted_in_files config sources operators files

-- A mutant of the file in the package.
abbrev pub IsIn : Option Text → Text → MutantPlace → Type 0
IsIn pkg rel (pkg', dir, file, rel') = (pkg' ≡ pkg) × (rel' ≡ rel)

places_from-IsIn :
    (config : MutationConfig) (pkg : Option Text) (rel name : Text) (k n : ℕ)
    → All (IsIn pkg rel) (places_from config pkg rel name k n)
places_from-IsIn config pkg rel name k zero = tt
places_from-IsIn config pkg rel name k (suc n) =
    ((refl, refl), places_from-IsIn config pkg rel name (suc k) n)

wanted_places-IsIn :
    (config : MutationConfig) (pkg : Option Text) (rel : Text) (info : Info) (node : Node)
    (operators : List (Text × Operator))
    → All (IsIn pkg rel) (wanted_places config pkg rel info node operators)
wanted_places-IsIn config pkg rel info node [] = tt
wanted_places-IsIn config pkg rel info node ((name, operator) ∷ operators) =
    All-append _ _ _
      (places_from-IsIn config pkg rel name 0 (count (count_walk (operator info) node)))
      (wanted_places-IsIn config pkg rel info node operators)

All-unmapped :
    {A B : Type 0} (P : B → Type 0) (f : A → B) (xs : List A)
    → All P (map f xs)
    → All (λ x. P (f x)) xs
All-unmapped P f [] h = tt
All-unmapped P f (x ∷ xs) (h, hs) = (h, All-unmapped P f xs hs)

-- A mutant with a package and with statistics for its file.
abbrev pub IsReady : StatsMap → MutantInfo → Type 0
IsReady all_stats m =
    ((name : Text) × (m.pkg ≡ some name))
    × ((stats : MutationStats) × (lookup m.original_file_relative_path all_stats ≡ some stats))

-- Nothing is counted yet.
abbrev pub IsFresh : StatsMap → Type 0
IsFresh all_stats = All (λ entry. entry.1 ≡ no_stats) all_stats

keep-IsReady :
    (file : Text) (all_stats : StatsMap) (m : MutantInfo)
    → IsReady all_stats m
    → IsReady (insert file no_stats all_stats) m
keep-IsReady file all_stats m (pkg, has) =
    (pkg, HasStats-insert m.original_file_relative_path file no_stats all_stats has)

new-IsReady :
    (rel name : Text) (all_stats : StatsMap) (m : MutantInfo)
    → IsIn (some name) rel (place m)
    → IsReady (insert rel no_stats all_stats) m
new-IsReady rel name all_stats m (pkg, file) = (
  (name, pkg),
  (
    no_stats,
    rw file (
        lookup-insert rel rel no_stats all_stats
        ∙ ap (λ b. if b then some no_stats else lookup rel all_stats) (text_eq_refl rel)),
  ),
)

-- The mutants of one file are ready when the file has its statistics.
made-IsReady :
    (config : MutationConfig) (rel name : Text) (info : Info) (node : Node)
    (operators : List (Text × Operator)) (all_stats : StatsMap) (made : List MutantInfo)
    → map place made ≡ wanted_places config (some name) rel info node operators
    → All (IsReady (insert rel no_stats all_stats)) made
made-IsReady config rel name info node operators all_stats made at =
    All-map _ _ (new-IsReady rel name all_stats) made (
      All-unmapped (IsIn (some name) rel) place made (
        subst (All (IsIn (some name) rel)) (sym at)
          (wanted_places-IsIn config (some name) rel info node operators)))

pub insert-IsFresh : (file : Text) (m : StatsMap) → IsFresh m → IsFresh (insert file no_stats m)
unfolding insert
insert-IsFresh file [] h = (refl, tt)
insert-IsFresh file ((k, s) ∷ m) (h, hs) = elim (Bool-cases (text_eq k file)) [
  | inl e ↦ rw e (refl, hs)
  | inr e ↦ rw e (h, insert-IsFresh file m hs)
]

pub tally-IsFresh :
    (f : MutationStats → ℕ) (m : StatsMap) → f no_stats ≡ 0 → IsFresh m → tally f m ≡ 0
tally-IsFresh f [] e h = refl
tally-IsFresh f ((k, s) ∷ m) e (h, hs) = omega (arith, ap f h, e, tally-IsFresh f m e hs)

-- A run of mutateFiles that ends well, with the given mutants behind those before.
pub data MakesAll (r : Result FilesMade) (before : List MutantInfo) (places : List MutantPlace)
    : Type 0 where
  makes_all :
      (all_stats : StatsMap) (infos : List MutantInfo) (h : History)
      → r ≡ ok (all_stats, before ++ infos, return_ok, h)
      → map place infos ≡ places
      → All (IsReady all_stats) (before ++ infos)
      → IsFresh all_stats
      → MakesAll r before places

module _ (fs : FileSystem) (printing : Printing) (loader : Loader) (sources : Sources)
    (config : MutationConfig) (operators : List (Text × Operator)) (dir : Text) (fuel : ℕ)
    (works : Writable fs printing) (ends : CopiesEnd fs config fuel dir)
    (makes_dirs : (h : History) (path : Text) → fs.mkdir_all h path 493 ≡ none) where
  make_dir_lem :
      (path : Text) (h : History) → make_dir fs printing path h ≡ ok (made_dir path 493 ∷ h)
  make_dir_lem path h = rw (makes_dirs h path) refl

  create_mutant_folder_path_lem :
      (file : Text) (h : History)
      → (h' : History) × (create_mutant_folder_path fs printing file h ≡ ok h')
  unfolding create_mutant_folder_path
  create_mutant_folder_path_lem file h = elim (Bool-cases (occurs_in (slash ∷ []) file)) [
    | inl e ↦ (made_dir (dir_of file) 493 ∷ h, rw (e, make_dir_lem (dir_of file) h) refl)
    | inr e ↦ (h, rw e refl)
  ]

  mutate_entry_lem :
      (rel abs : Text) (h : History)
      → All (λ op. IsReversible (op.1 (sources.info abs))) operators
      → (infos : List MutantInfo) × (h' : History) × (mutate_entry fs printing loader config
            operators
            (some dir)
            fuel
            rel
            (parsed_at sources abs)
            h
          ≡ ok (infos, no_stats, h'))
        × (map place infos
            ≡ wanted_places config
                (some (sources.pkg_path abs))
                rel
                (sources.info abs)
                (sources.tree abs)
                operators)
  unfolding mutate_entry
  mutate_entry_lem rel abs h rev =
      let (h₂, made) =
        create_mutant_folder_path_lem (append_folder config.mutate.folder rel)
          (made_dir config.mutate.folder 493 ∷ h) in
      let (infos, h', mutated, places) =
        mutate-wanted_places fs printing config dir fuel (some (sources.pkg_path abs)) rel works
          ends (sources.info abs) operators (sources.tree abs) no_stats h₂ rev in
      (infos, h', rw (make_dir_lem config.mutate.folder h, made) mutated, places)

  -- Where every file parses, the operators can be undone, folders can be made, printing and writing
  -- succeed and the fuel is enough for the copies, mutateFiles returns the exit code of success. It
  -- makes for each file and operator as many mutants as CountWalk counts, each in the place of its
  -- name; every mutant has a package and statistics for its file, which count nothing yet.
  pub mutate_files-wanted_in_files :
      (files : List (Text × Text)) (all_stats : StatsMap) (infos : List MutantInfo) (h : History)
      → All (Parses fs loader sources) files
      → All (λ file. All (λ op. IsReversible (op.1 (sources.info (file.1)))) operators) files
      → All (IsReady all_stats) infos
      → IsFresh all_stats
      → MakesAll
          (mutate_files fs printing loader config operators (some dir) fuel files all_stats infos h)
          infos
          (wanted_in_files config sources operators files)
  unfolding mutate_files
  mutate_files-wanted_in_files [] all_stats infos h parses rev ready fresh =
      makes_all all_stats [] h (rw (append-nil infos) refl) refl (rw (append-nil infos) ready) fresh
  mutate_files-wanted_in_files ((rel, abs) ∷ files) all_stats infos h (parse, parses) (rev, revs)
        ready fresh =
      let (made, h', entry, at) = mutate_entry_lem rel abs h rev in
      elim (mutate_files-wanted_in_files files (insert rel no_stats all_stats) (infos ++ made) h'
        parses revs
        (All-append _ infos made (All-map _ _ (keep-IsReady rel all_stats) infos ready) (
          made-IsReady config rel (sources.pkg_path abs) (sources.info abs) (sources.tree abs)
            operators all_stats made at))
        (insert-IsFresh rel all_stats fresh)) [
          | makes_all final more h'' rest places final_ready final_fresh ↦
              makes_all final (made ++ more) h''
                (rw (parse h, entry, rest)
                  (ap (λ is. ok (final, is, return_ok, h'')) (append_assoc infos made more)))
                (simp (map-append, at, places))
                (subst (All (IsReady final)) (append_assoc infos made more) final_ready) final_fresh
        ]
