-- ===== src/MutantNames.antt =====
-- buildMutantName and getAbsoluteMutationFolderPath of cmd/mutation-framework/mutate.go.
pub mod Laws
pub mod Registered
use mutation_framework.Base.{
  ℕ, zero, suc, ◌+◌, ◌/◌, ◌%◌, List, [], ◌∷◌, ◌++◌, map, ltb, ◌==◌, if◌then◌else◌,
}
use mutation_framework.Base.Text.{Text, codes}
use mutation_framework.Paths.{slash, has_prefix_slash, append_folder}
use mutation_framework.Config.{MutationConfig}

-- The decimal digits in front of a text; a number below the fuel has fewer digits than it.
unfoldable pub digits : ℕ → ℕ → Text → Text
digits zero n s = s
digits (suc f) n s =
    let rest = digits f (n / 10) ((b'0' + n % 10) ∷ s) in if ltb n 10 then (b'0' + n) ∷ s else rest

-- %d
unfoldable pub decimal : ℕ → Text
unfolding digits
decimal n = digits (suc n) n []

-- strings.Replace of every slash by a hyphen
unfoldable pub safe_mutation_name : Text → Text
safe_mutation_name = map (λ c. if c == slash then b'-' else c)

unfoldable pub build_mutant_name : Text → Text → ℕ → Text
unfolding safe_mutation_name decimal
build_mutant_name operator_name file_path mutation_id =
    file_path ++ b'.' ∷ (safe_mutation_name operator_name ++ b'.' ∷ decimal mutation_id)

unfoldable pub get_absolute_mutation_folder_path : MutationConfig → Text
unfolding has_prefix_slash append_folder
get_absolute_mutation_folder_path config =
    if has_prefix_slash config.mutate.folder
    then config.mutate.folder
    else append_folder config.project_root config.mutate.folder
