-- ===== src/Tests/Phases.antt =====
-- The two phases of a run and the search, at concrete data.
use mutation_framework.Base.{
  true, false, List, [], ◌∷◌, ◌++◌, none, some, All, ok, panic, Returns, ◌≡◌, refl, ◌⊎◌, inl,
}
use mutation_framework.Base.Text.{Text, codes, text_eq, occurs_in}
use mutation_framework.Ast.{Node, nil, cons, nil_node, call_expr, expr_stmt, if_stmt, new_ident}
use mutation_framework.Ast.Info.{Info}
use mutation_framework.Mutator.{IsReversible}
use mutation_framework.Paths.{append_folder, clean}
use mutation_framework.Config.{MutationConfig}
use mutation_framework.Config.Load.{get_config}
use mutation_framework.MutantNames.{
  build_mutant_name, safe_mutation_name, get_absolute_mutation_folder_path,
}
use mutation_framework.Operators.Init.{Operator}
use mutation_framework.Operators.Branch.{mutator_if}
use mutation_framework.Operators.Reversible.{mutator_if-IsReversible}
use mutation_framework.Runner.{return_error, System, World, no_error, pos}
use mutation_framework.FileSystem.{FileSystem, History, listed, done, out_of_fuel as no_fuel}
use mutation_framework.Copies.{copy_recursive}
use mutation_framework.Parsing.{Loader, parse_and_type_check_file}
use mutation_framework.Making.{Printing, mutate_files}
use mutation_framework.Making.Laws.{Writable, CopiesEnd}
use mutation_framework.Making.Files.{
  Sources, Parses, wanted_in_files, MakesAll, mutate_files-wanted_in_files,
}
use mutation_framework.Search.{
  is_mutant, get_mutated_file_relative_path, find_all_mutants_in_folder,
}
use mutation_framework.Search.Found.{EndsWithin, IsSearched}
use mutation_framework.Search.Laws.{find_all_mutants_in_folder-IsSound}
use mutation_framework.Search.Pattern.{IsName}
use mutation_framework.Search.Names.{get_mutated_file_relative_path-build_mutant_name}
use mutation_framework.Main.{Surroundings, perform_mutation_testing, main_cmd}
use mutation_framework.Main.Arguments.{Args, Flags, check_arguments, goes_on}
use mutation_framework.Operators.Init.{all_operators}
use mutation_framework.Base.{◌≢◌}
use mutation_framework.Config.Files.{get_relative_and_absolute_files}
use mutation_framework.Config.Load.Operators.{protocols}
use mutation_framework.Main.Whole.{main_cmd-Counts}
use mutation_framework.Main.Laws.{
  Counts, Runs, consolidated, perform_mutation_testing-searches, main_cmd-unreadable,
}
use mutation_framework.Tests.Copying.{flat, no_globs}

-- if x { f() }
abbrev tree : Node
tree =
    if_stmt nil_node (new_ident (codes "x"))
      (cons (expr_stmt (call_expr (new_ident (codes "f")) nil)) nil) nil_node

abbrev pub info : Info
info = record { uses = λ r. none; defs = []; implicits = [] }

abbrev loader : Loader
loader = record {
  abs_path = λ p. some p;
  import_dir = λ h p. some (codes ".");
  parse_source = λ src. none;
  load_import = λ h p. none;
  load_file = λ h d p. some (
      record { pkg_path = codes "project"; files = (codes "/project/a.go", tree) ∷ []; info = info }
      ∷ []);
}

abbrev printing : Printing
printing = record {
  print = λ n. some (codes "src");
  format_source = λ s. some s;
  md5 = λ s. codes "00";
}

abbrev sources : Sources
sources = record { tree = λ p. tree; info = λ p. info; pkg_path = λ p. codes "project" }

abbrev config : MutationConfig
config = record {
  verbose = false;
  json = false;
  project_root = codes "/project/";
  mutate = record {
    disable_mutate = false;
    operators = codes "branch/if" ∷ [];
    files_to_include = codes "a.go" ∷ [];
    files_to_exclude = [];
    folder = codes "mutants/";
    overwrite = true;
  };
  test_config = record {
    disable_test = false;
    timeout_seconds = 10;
    composition = 0;
    commands = record { test_command = codes "./test.sh"; build_script = []; clean_up_script = [] };
  };
}

abbrev operators : List (Text × Operator)
operators = (codes "branch/if", mutator_if) ∷ []

abbrev files : List (Text × Text)
files = (codes "a.go", codes "/project/a.go") ∷ []

flat-Writable : Writable flat printing
flat-Writable = record {
  prints = λ n. (codes "src", refl);
  formats = λ s. (s, refl);
  writes = λ h p s. refl;
}

flat-CopiesEnd : CopiesEnd flat config 1 (codes "/project")
unfolding copy_recursive
flat-CopiesEnd dest h e = different e
  where
    different : done ≡ no_fuel → ⊥
    different e = cc

parses : All (Parses flat loader sources) files
unfolding parse_and_type_check_file
parses = ((λ h. refl), tt)

reversible : All (λ file. All (λ op. IsReversible (op.1 (sources.info (file.1)))) operators) files
reversible = ((mutator_if-IsReversible info, tt), tt)

mutate_files-wanted_in_files_example :
    MakesAll
      (mutate_files flat printing loader config operators
        (some (codes "/project"))
        1
        files
        []
        []
        [])
      []
      (wanted_in_files config sources operators files)
mutate_files-wanted_in_files_example =
    mutate_files-wanted_in_files flat printing loader sources config operators (codes "/project") 1
      flat-Writable flat-CopiesEnd (λ h p. refl) files [] [] [] parses reversible tt tt

-- One directory of a mutant stands in the folder of mutants.
abbrev kept : FileSystem
kept = record flat {
  read_dir = λ h p. listed ((codes "a.go.branch-if.0", true) ∷ (codes "log.txt", false) ∷ []);
}

abbrev to_search : List (Text × Text)
to_search = files

loads : (path : Text) → Returns (λ parsed. Unit) (parse_and_type_check_file kept loader path [])
unfolding parse_and_type_check_file
loads path = tt

kept-EndsWithin :
    EndsWithin kept [] printing.md5 loader to_search 1 (get_absolute_mutation_folder_path config)
unfolding is_mutant clean
kept-EndsWithin = ((λ e. (refl, λ h. different h)), ((λ e. (refl, λ h. wrong e)), tt))
  where
    different : true ≡ false → {A : Type 0} → A
    different e = cc

    wrong : false ≡ true → {A : Type 0} → A
    wrong e = cc

find_all_mutants_in_folder-IsSound_example :
    Returns
      (IsSearched kept [] printing.md5 loader to_search)
      (find_all_mutants_in_folder kept [] printing.md5 loader to_search 1 config [])
find_all_mutants_in_folder-IsSound_example =
    find_all_mutants_in_folder-IsSound kept [] printing.md5 loader to_search loads 1 config
      kept-EndsWithin

if-no_go : occurs_in (codes "go") (safe_mutation_name (codes "branch/if")) ≡ false
unfolding occurs_in safe_mutation_name
if-no_go = refl

if-IsName : IsName (safe_mutation_name (codes "branch/if"))
unfolding safe_mutation_name
if-IsName = (refl, (refl, (refl, (refl, (refl, (refl, (refl, (refl, (refl, tt)))))))))

get_mutated_file_relative_path-build_mutant_name_example :
    (is_mutant (build_mutant_name (codes "branch/if") (b'a' ∷ codes "b" ++ codes ".go") 12) ≡ true)
    × (get_mutated_file_relative_path
          (codes "src")
          (build_mutant_name (codes "branch/if") (b'a' ∷ codes "b" ++ codes ".go") 12)
        ≡ ok (append_folder (codes "src") (b'a' ∷ codes "b" ++ codes ".go")))
get_mutated_file_relative_path-build_mutant_name_example =
    get_mutated_file_relative_path-build_mutant_name b'a' (codes "b") (codes "branch/if") 12
      (codes "src") (refl, (refl, tt)) if-IsName if-no_go

-- Every command succeeds.
abbrev passing : System
passing = record { command = λ h c. (no_error, []); move = λ h from to. true }

abbrev surroundings : FileSystem → Surroundings
surroundings fs = record {
  fs = fs;
  printing = printing;
  loader = loader;
  others = no_globs;
  formats = record { from_json = λ content. none; yaml_to_json = λ content. none };
  cwd = some (codes "/project");
  system = λ h. passing;
  order = λ entries. entries;
}

abbrev world : World
world = record { all_stats = []; tests_to_mutants = []; trace = [] }

abbrev search_config : MutationConfig
search_config = record config { mutate = record config.mutate { disable_mutate = true } }

kept-Runs : Runs (surroundings kept) 1 search_config
kept-Runs = record {
  enabled = refl;
  answers = λ h. record {
    build = λ t. refl;
    clean = λ t. refl;
    diff = λ t f m. inl refl;
    test = λ t c e. (pos 0, refl);
  };
  moves = λ h t. refl;
}

has_test : text_eq (codes "./test.sh") [] ≡ false
unfolding text_eq
has_test = refl

perform_mutation_testing-searches_example :
    (perform_mutation_testing (surroundings kept) 1 search_config operators files world []
      ≡ (ok return_error, world))
    ⊎ Counts passing
        (perform_mutation_testing (surroundings kept) 1 search_config operators files world [])
perform_mutation_testing-searches_example =
    perform_mutation_testing-searches (surroundings kept) 1 search_config operators files world []
      refl has_test loads kept-EndsWithin kept-Runs refl

abbrev opts : Args
opts = record {
  general = record {
    debug = false;
    help = false;
    verbose = false;
    config_path = codes "config.json";
    list_mutators = false;
    json = false;
  };
  exec = record {
    composition = 0;
    mutate_only = false;
    timeout = 10;
    exec_only = false;
    custom_test = [];
    overwrite = false;
  };
}

abbrev flags : Flags
flags = record { add_group_fails = false; parse_args = λ args. (opts, false) }

accepted : check_arguments flags [] (codes "--config=config.json" ∷ []) ≡ goes_on opts
unfolding check_arguments
accepted = refl

abbrev bare : FileSystem
bare = record flat { read_file = λ h p. none }

not_loaded :
    get_config (surroundings bare).formats [] bare [] no_globs 1 opts.general.config_path ≡ ok none
unfolding get_config
not_loaded = refl

main_cmd-unreadable_example :
    main_cmd (surroundings bare) 1 flags [] [] (codes "--config=config.json" ∷ []) world []
    ≡ (panic, world)
main_cmd-unreadable_example =
    main_cmd-unreadable (surroundings bare) 1 flags [] [] (codes "--config=config.json" ∷ []) opts
      world [] accepted not_loaded

-- The same command line, with a configuration that is there.
abbrev whole : Surroundings
whole = record (surroundings flat) {
  formats = record { from_json = λ content. some config; yaml_to_json = λ content. some content };
}

loaded :
    get_config whole.formats (all_operators 3) flat [] no_globs 1 opts.general.config_path
    ≡ ok (some (config, operators))
unfolding get_config all_operators
loaded = refl

no_protocols : All (λ op. op.0 ≢ protocols) operators
no_protocols = (different, tt)
  where
    different : codes "branch/if" ≢ protocols
    different e = cc

abbrev final_config : MutationConfig
final_config = consolidated opts config

enabled : final_config.mutate.disable_mutate ≡ false
unfolding consolidated
enabled = refl

final-CopiesEnd : CopiesEnd flat final_config 1 (codes "/project")
unfolding copy_recursive consolidated
final-CopiesEnd dest h e = different e
  where
    different : done ≡ no_fuel → ⊥
    different e = cc

final-Parses : All (Parses flat loader sources) (get_relative_and_absolute_files final_config)
unfolding parse_and_type_check_file get_relative_and_absolute_files consolidated
final-Parses = ((λ h. refl), tt)

final-Runs : Runs whole 1 final_config
unfolding consolidated
final-Runs = record {
  enabled = refl;
  answers = λ h. record {
    build = λ t. refl;
    clean = λ t. refl;
    diff = λ t f m. inl refl;
    test = λ t c e. (pos 0, refl);
  };
  moves = λ h t. refl;
}

main_cmd-Counts_example :
    (h' : History) × Counts passing
      (main_cmd whole 1 flags [] (all_operators 3) (codes "--config=config.json" ∷ []) world [])
main_cmd-Counts_example =
    main_cmd-Counts whole 1 3 flags [] (codes "--config=config.json" ∷ []) opts config operators
      sources (codes "/project") world [] accepted loaded no_protocols enabled refl flat-Writable
      final-CopiesEnd (λ h p. refl) final-Parses final-Runs refl
