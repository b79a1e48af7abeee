-- ===== src/Config/Load.antt =====
-- Loading the configuration: getConfig, parseConfig and the two UnmarshalJSON of
-- cmd/mutation-framework/config.go. encoding/json and the converter from YAML are parameters.
pub mod Operators
use mutation_framework.Base.{
  ℕ, Bool, false, List, [], ◌∷◌, Option, none, some, ◌==◌, if◌then◌else◌, Result, ok, ◌>>=◌,
}
use mutation_framework.Base.Text.{Text}
use mutation_framework.Regex.{Item, chars, one, star, any_char, is_space, match_string}
use mutation_framework.Paths.{append_slash}
use mutation_framework.Registry.{Lookup, new}
use mutation_framework.Operators.Init.{Operator}
use mutation_framework.FileSystem.{FileSystem, History}
use mutation_framework.Config.{
  MutationConfig, validate_important_config_fields,
  append_mutant_folder_slash_or_replace_with_default,
}
use mutation_framework.Config.Expand.{OtherGlobs, expand_wild_cards}

-- json.Unmarshal into the fields, with the operators as the strings that stand there; `none` is an
-- error. yaml.YAMLToJSON.
pub record Formats : Type 0 where
  pub from_json : Text → Option MutationConfig
  pub yaml_to_json : Text → Option Text

-- A configuration and its operators.
abbrev pub Loaded : Type 0
Loaded = MutationConfig × List (Text × Operator)

-- `[\s]*{.*`
unfoldable pub json_pattern : List Item
json_pattern =
    chars star false is_space ∷ chars one false (λ c. c == b'{') ∷ chars star false any_char ∷ []

unfoldable pub is_json : Text → Bool
unfolding json_pattern match_string
is_json content = match_string json_pattern content

abbrev with_mutator : Text → Option Operator → Option (Text × Operator)
with_mutator name none = none
with_mutator name (some operator) = some (name, operator)

-- Operator.UnmarshalJSON
unfoldable pub unmarshal_operator : Lookup Operator → Text → Option (Text × Operator)
unfolding new
unmarshal_operator mutators name = with_mutator name (new name mutators)

abbrev pub add_operator :
    Option (Text × Operator) → Option (List (Text × Operator)) → Option (List (Text × Operator))
add_operator (some operator) (some operators) = some (operator ∷ operators)
add_operator _ _ = none

-- The operators of the configuration: one that is unknown makes json.Unmarshal fail.
unfoldable pub unmarshal_operators : Lookup Operator → List Text → Option (List (Text × Operator))
unfolding unmarshal_operator
unmarshal_operators mutators [] = some []
unmarshal_operators mutators (name ∷ names) =
    add_operator (unmarshal_operator mutators name) (unmarshal_operators mutators names)

-- The content as JSON. The error of the conversion is overwritten by that of parseConfig, and the
-- data is then nil.
abbrev converted : Option Text → Text
converted none = []
converted (some content) = content

module _ (formats : Formats) (mutators : Lookup Operator) (fs : FileSystem) (h : History)
    (others : OtherGlobs) (fuel : ℕ) where
  -- MutationConfig.UnmarshalJSON behind the decoding; `none` is an error. The project root gets its
  -- slash when the wild cards are expanded already.
  unfoldable pub finish_config : MutationConfig → Result (Option MutationConfig)
  unfolding validate_important_config_fields append_mutant_folder_slash_or_replace_with_default
      expand_wild_cards append_slash
  finish_config config =
      if validate_important_config_fields config
      then (do
        expanded ←
            expand_wild_cards fs h others fuel
              (append_mutant_folder_slash_or_replace_with_default config)
        ok (some (record expanded { project_root = append_slash expanded.project_root })))
      else ok none

  abbrev pub with_operators : List (Text × Operator) → Option MutationConfig → Option Loaded
  with_operators operators none = none
  with_operators operators (some config) = some (config, operators)

  abbrev pub finish_loaded :
      MutationConfig → Option (List (Text × Operator)) → Result (Option Loaded)
  finish_loaded config none = ok none
  finish_loaded config (some operators) = do
    finished ← finish_config config
    ok (with_operators operators finished)

  abbrev pub decoded : Option MutationConfig → Result (Option Loaded)
  decoded none = ok none
  decoded (some config) =
      finish_loaded config (unmarshal_operators mutators config.mutate.operators)

  -- parseConfig
  unfoldable pub parse_config : Text → Result (Option Loaded)
  unfolding finish_config unmarshal_operators
  parse_config content = decoded (formats.from_json content)

  abbrev pub load_content : Option Text → Result (Option Loaded)
  load_content none = ok none
  load_content (some content) =
      if is_json content
      then parse_config content
      else parse_config (converted (formats.yaml_to_json content))

  -- getConfig
  unfoldable pub get_config : Text → Result (Option Loaded)
  unfolding parse_config is_json
  get_config path = load_content (fs.read_file h path)
