-- ===== src/Tests/Configs.antt =====
-- The configuration and the names of mutants, at concrete texts.
use mutation_framework.Base.{
  ℕ, true, false, not, ◌&&◌, [], ◌∷◌, none, some, ◌≡◌, refl, get_elem?, if◌then◌else◌, ◌==◌,
}
use mutation_framework.Base.Text.{codes, text_mem}
use mutation_framework.Paths.{concat_adding_slash_if_needed}
use mutation_framework.Runner.{lookup}
use mutation_framework.Config.{
  MutationConfig, append_mutant_folder_slash_or_replace_with_default,
  validate_important_config_fields,
}
use mutation_framework.Config.Files.{
  get_relative_and_absolute_files, lookup-get_relative_and_absolute_files,
}
use mutation_framework.Config.WildCard.{is_valid_wild_card, remove_wild_card_paths}
use mutation_framework.Config.WildCard.Laws.{
  count_stars, is_valid_wild_card_iff, text_mem-remove_wild_card_paths,
}
use mutation_framework.MutantNames.{build_mutant_name, get_absolute_mutation_folder_path}
use mutation_framework.MutantNames.Registered.{build_mutant_name-registered}
use mutation_framework.Registry.Laws.{names}
use mutation_framework.Operators.Init.{all_operators}

abbrev config : MutationConfig
config = record {
  verbose = false;
  json = false;
  project_root = codes "/home/project/";
  mutate = record {
    disable_mutate = false;
    operators = codes "branch/if" ∷ [];
    files_to_include = codes "a.go" ∷ codes "b.go" ∷ codes "a.go" ∷ [];
    files_to_exclude = codes "b.go" ∷ [];
    folder = codes "mutants";
    overwrite = false;
  };
  test_config = record {
    disable_test = false;
    timeout_seconds = 10;
    composition = 0;
    commands = record { test_command = []; build_script = []; clean_up_script = [] };
  };
}

lookup-get_relative_and_absolute_files_example :
    lookup (codes "a.go") (get_relative_and_absolute_files config) ≡ (
      if text_mem (codes "a.go") config.mutate.files_to_include
        && not (text_mem (codes "a.go") config.mutate.files_to_exclude)
      then some (concat_adding_slash_if_needed config.project_root (codes "a.go"))
      else none)
lookup-get_relative_and_absolute_files_example =
    lookup-get_relative_and_absolute_files config (codes "a.go")

one_file : get_relative_and_absolute_files config ≡ (codes "a.go", codes "/home/project/a.go") ∷ []
unfolding get_relative_and_absolute_files
one_file = refl

is_valid_wild_card_iff_example :
    is_valid_wild_card (codes "*.go")
    ≡ (if count_stars (codes "*.go") == 1 then some (codes "*.go") else none)
is_valid_wild_card_iff_example = is_valid_wild_card_iff (codes "*.go")

two_stars : is_valid_wild_card (codes "a*/b*.go") ≡ none
unfolding is_valid_wild_card
two_stars = refl

text_mem-remove_wild_card_paths_example :
    text_mem (codes "*/*.go") (remove_wild_card_paths (codes "*/*.go" ∷ codes "*.go" ∷ [])) ≡ (
      text_mem (codes "*/*.go") (codes "*/*.go" ∷ codes "*.go" ∷ [])
      && not (count_stars (codes "*/*.go") == 1))
text_mem-remove_wild_card_paths_example =
    text_mem-remove_wild_card_paths (codes "*/*.go") (codes "*/*.go" ∷ codes "*.go" ∷ [])

two_stars_stay :
    remove_wild_card_paths (codes "*/*.go" ∷ codes "*.go" ∷ codes "a.go" ∷ [])
    ≡ codes "*/*.go" ∷ codes "a.go" ∷ []
unfolding remove_wild_card_paths
two_stars_stay = refl

mutant_name : build_mutant_name (codes "branch/if") (codes "a.go") 12 ≡ codes "a.go.branch-if.12"
unfolding build_mutant_name
mutant_name = refl

with_slash :
    (append_mutant_folder_slash_or_replace_with_default config).mutate.folder ≡ codes "mutants/"
unfolding append_mutant_folder_slash_or_replace_with_default
with_slash = refl

valid : validate_important_config_fields config ≡ true
unfolding validate_important_config_fields
valid = refl

mutant_folder : get_absolute_mutation_folder_path config ≡ codes "/home/project/mutants"
unfolding get_absolute_mutation_folder_path
mutant_folder = refl

sixth_name : get_elem? (names (all_operators 7)) 5 ≡ some (codes "statement/removeblock")
unfolding all_operators
sixth_name = refl

build_mutant_name-registered_example : (◌≡◌ {A = ℕ} 5 5) × (◌≡◌ {A = ℕ} 12 12)
build_mutant_name-registered_example =
    build_mutant_name-registered 7 (codes "a.go") 5 5 (codes "statement/removeblock")
      (codes "statement/removeblock") 12 12 sixth_name sixth_name refl
