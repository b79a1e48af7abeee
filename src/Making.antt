-- ===== src/Making.antt =====
-- The making of mutants (cmd/mutation-framework/mutate.go): mutateFiles, mutate and saveAST. The
-- printer, the formatter and MD5 are parameters; so is the order in which the loop over
-- the map of files meets its entries.
pub mod Laws
pub mod Files
use mutation_framework.Base.{
  ℕ, zero, suc, Bool, true, false, List, [], ◌∷◌, ◌++◌, Option, none, some, if◌then◌else◌, Result,
  ok, panic, out_of_fuel, ◌>>=◌,
}
use mutation_framework.Base.Text.{Text, text_mem, occurs_in}
use mutation_framework.Ast.{Node}
use mutation_framework.Ast.Info.{Info}
use mutation_framework.MutateWalk.{mutate_file}
use mutation_framework.Operators.Init.{Operator}
use mutation_framework.Paths.{slash, append_folder, clean}
use mutation_framework.Config.{MutationConfig}
use mutation_framework.MutantNames.{build_mutant_name}
use mutation_framework.Runner.{MutantInfo, MutationStats, no_stats, StatsMap, insert}
use mutation_framework.FileSystem.{
  FsError, made_dir, wrote, History, FileSystem, Outcome, done, failed, would_overwrite,
  out_of_fuel as no_fuel, FsRun,
}
use mutation_framework.Copies.{copy_project}
use mutation_framework.Parsing.{Loader, Parsed, parse_and_type_check_file, dir_of}
use mutation_framework.Runner.{ℤ, return_ok, return_error}

-- printer.Fprint, format.Source and the MD5 sum in hexadecimal; `none` is an error.
pub record Printing : Type 0 where
  pub print : Node → Option Text
  pub format_source : Text → Option Text
  pub md5 : Text → Text

-- What saveAST returns: the checksum, the checksum of a duplicate, an error.
pub data Saved : Type 0 where
  saved duplicate : Text → Saved
  not_saved : Saved

abbrev written : Text → Option FsError → Saved
written checksum none = saved checksum
written checksum (some e) = not_saved

-- The branches behind saveAST: no mutant, or one more.
abbrev pub after_save :
    Option Text → Text → Text → Text → MutationStats → Saved → Option MutantInfo × MutationStats
after_save pkg rel dir file stats not_saved = (none, stats)
after_save pkg rel dir file stats (duplicate checksum) =
    (none, record stats { duplicated = suc stats.duplicated })
after_save pkg rel dir file stats (saved checksum) = (
  some (record {
    pkg = pkg;
    original_file_relative_path = rel;
    mutant_dir_path_abs_path = dir;
    mutation_file_abs_path = file;
    checksum = checksum;
  }),
  stats,
)

abbrev pub Made : Type 0
Made = List MutantInfo × MutationStats × History

abbrev add_info : Option MutantInfo → List MutantInfo → List MutantInfo
add_info none infos = infos
add_info (some info) infos = info ∷ infos

-- What mutateFiles returns: allStats, the mutants, the exit code.
abbrev pub FilesMade : Type 0
FilesMade = StatsMap × List MutantInfo × ℤ × History

abbrev after_mkdir : Text → History → Option FsError → Result History
after_mkdir path h none = ok (made_dir path 493 ∷ h)
after_mkdir path h (some e) = panic

module _ (fs : FileSystem) (printing : Printing) where
  abbrev pub write_formatted : Text → Text → Option Text → History → Saved × History
  write_formatted file checksum none h = (not_saved, h)
  write_formatted file checksum (some src) h =
      (written checksum (fs.write_file h file src), wrote file src ∷ h)

  abbrev pub save_printed : List Text → Text → Option Text → History → Saved × List Text × History
  save_printed blacklist file none h = (not_saved, blacklist, h)
  save_printed blacklist file (some printed) h =
      if text_mem (printing.md5 printed) blacklist
      then (duplicate (printing.md5 printed), blacklist, h)
      else let (result, h') =
          write_formatted file (printing.md5 printed) (printing.format_source printed) h in
        (result, printing.md5 printed ∷ blacklist, h')

  -- saveAST, with the table of checksums.
  unfoldable pub save_ast : List Text → Text → Node → History → Saved × List Text × History
  unfolding text_mem
  save_ast blacklist file node h = save_printed blacklist file (printing.print node) h

  module _ (config : MutationConfig) (cwd : Option Text) (fuel : ℕ) (pkg : Option Text)
      (rel : Text) where
    -- One round of the loop of mutate: the project is copied, and the file as it stands saved into
    -- the copy. An error of the copy is only logged.
    abbrev pub save_into :
        Node → MutationStats → Text × FsRun → Result (Option MutantInfo × MutationStats × History)
    save_into node stats (path, (no_fuel, h)) = out_of_fuel
    save_into node stats (path, (outcome, h)) =
        let file = append_folder (clean path) rel in
        let (result, blacklist, h') = save_ast [] file node h in
        let (info, stats') = after_save pkg rel (clean path) file stats result in
        ok (info, stats', h')

    unfoldable pub make_mutant :
        Text
        → ℕ
        → Node
        → MutationStats
        → History
        → Result (Option MutantInfo × MutationStats × History)
    unfolding build_mutant_name copy_project save_ast append_folder clean
    make_mutant name mutation_id node stats h = do
      copy ← copy_project fs fuel config cwd (build_mutant_name name rel mutation_id) h
      save_into node stats copy

    -- The rounds for one operator, at what the file holds at each signal: the second signal of a
    -- mutation, with the original file, is ignored. Were it missing, the answer to it would go to a
    -- closed channel, which panics.
    unfoldable pub make_mutants : Text → ℕ → List Node → MutationStats → History → Result Made
    unfolding make_mutant
    make_mutants name mutation_id [] stats h = ok ([], stats, h)
    make_mutants name mutation_id (node ∷ []) stats h = do
      made ← make_mutant name mutation_id node stats h
      panic
    make_mutants name mutation_id (node ∷ original ∷ rest) stats h = do
      (info, stats', h') ← make_mutant name mutation_id node stats h
      (infos, stats'', h'') ← make_mutants name (suc mutation_id) rest stats' h'
      ok (add_info info infos, stats'', h'')

    -- mutate: the operators one after the other. The walk of each starts with the file that the
    -- one before left.
    unfoldable pub mutate :
        Info → List (Text × Operator) → Node → MutationStats → History → Result Made
    unfolding mutate_file make_mutants
    mutate info [] node stats h = ok ([], stats, h)
    mutate info ((name, operator) ∷ operators) node stats h = do
      (signals, node') ← mutate_file (operator info) node
      (infos, stats', h') ← make_mutants name 0 signals stats h
      (more, stats'', h'') ← mutate info operators node' stats' h'
      ok (infos ++ more, stats'', h'')

  -- os.MkdirAll with mode 0755, where an error panics.
  abbrev pub make_dir : Text → History → Result History
  make_dir path h = after_mkdir path h (fs.mkdir_all h path 493)

  unfoldable pub create_mutant_folder_path : Text → History → Result History
  unfolding occurs_in dir_of
  create_mutant_folder_path file h =
      if occurs_in (slash ∷ []) file then make_dir (dir_of file) h else ok h

  module _ (loader : Loader) (config : MutationConfig) (operators : List (Text × Operator))
      (cwd : Option Text) (fuel : ℕ) where
    -- mutate, at the file that was parsed. With a nil file the first walk panics.
    abbrev pub mutate_parsed : Text → Parsed → Option Node → History → Result Made
    mutate_parsed rel parsed (some node) h =
        mutate config cwd fuel (some parsed.pkg_path) rel parsed.info operators node no_stats h
    mutate_parsed rel parsed none h = elim operators [ [] ↦ ok ([], no_stats, h) | _ ∷ _ ↦ panic ]

    -- One round of mutateFiles, from the folders on.
    unfoldable pub mutate_entry : Text → Parsed → History → Result Made
    unfolding create_mutant_folder_path append_folder mutate
    mutate_entry rel parsed h = do
      h₁ ← make_dir config.mutate.folder h
      h₂ ← create_mutant_folder_path (append_folder config.mutate.folder rel) h₁
      mutate_parsed rel parsed parsed.syntax h₂

    -- A file that does not compile ends mutateFiles with nothing but the exit code.
    abbrev pub after_parse :
        Text
        → StatsMap
        → List MutantInfo
        → History
        → (StatsMap → List MutantInfo → History → Result FilesMade)
        → Option Parsed
        → Result FilesMade
    after_parse rel all_stats all_infos h next none = ok ([], [], return_error, h)
    after_parse rel all_stats all_infos h next (some parsed) = do
      (infos, stats, h') ← mutate_entry rel parsed h
      next (insert rel stats all_stats) (all_infos ++ infos) h'

    -- The loop of mutateFiles, with the statistics and the mutants so far.
    unfoldable pub mutate_files :
        List (Text × Text) → StatsMap → List MutantInfo → History → Result FilesMade
    unfolding parse_and_type_check_file mutate_entry insert
    mutate_files [] all_stats all_infos h = ok (all_stats, all_infos, return_ok, h)
    mutate_files ((rel, abs) ∷ files) all_stats all_infos h =
        parse_and_type_check_file fs loader abs h >>= λ answer.
        after_parse rel all_stats all_infos h
          (λ all_stats all_infos h. mutate_files files all_stats all_infos h) answer
