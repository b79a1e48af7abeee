-- ===== src/Config.antt =====
-- The configuration (cmd/mutation-framework/config.go) and what the command line changes in it
-- (main.go). The operators are their names. A log line is left out.
pub mod Files
pub mod WildCard
pub mod Expand
pub mod Load
use mutation_framework.Base.{
  ℕ, Bool, true, false, not, ◌&&◌, ◌||◌, List, [], ◌∷◌, Option, none, some, ◌==◌, if◌then◌else◌,
}
use mutation_framework.Base.Text.{Text, codes, text_eq}
use mutation_framework.Paths.{append_slash}

pub record Commands : Type 0 where
  pub test_command : Text
  pub build_script : Text
  pub clean_up_script : Text

pub record Test : Type 0 where
  pub disable_test : Bool
  pub timeout_seconds : ℕ
  pub composition : ℕ
  pub commands : Commands

pub record Mutate : Type 0 where
  pub disable_mutate : Bool
  pub operators : List Text
  pub files_to_include : List Text
  pub files_to_exclude : List Text
  pub folder : Text
  pub overwrite : Bool

pub record MutationConfig : Type 0 where
  pub verbose : Bool
  pub json : Bool
  pub project_root : Text
  pub mutate : Mutate
  pub test_config : Test

abbrev pub default_mutation_folder : Text
default_mutation_folder = codes "mutants/"

-- validateImportantConfigFields: whether it returns nil. What it only logs is left out.
unfoldable pub validate_important_config_fields : MutationConfig → Bool
unfolding text_eq
validate_important_config_fields config = not (text_eq config.project_root [])

unfoldable pub append_mutant_folder_slash_or_replace_with_default : MutationConfig → MutationConfig
unfolding text_eq append_slash
append_mutant_folder_slash_or_replace_with_default config = record config {
  mutate = record config.mutate {
    folder =
        if text_eq config.mutate.folder []
        then default_mutation_folder
        else append_slash config.mutate.folder;
  };
}
