-- ===== src/Config/Load/Operators.antt =====
-- The operators of a loaded configuration (cmd/mutation-framework/config.go) are registered ones.
use mutation_framework.Base.{
  ℕ, List, [], ◌∷◌, Option, none, some, All, All-append, All-map, Result, ok, panic, out_of_fuel,
  ◌≡◌, ◌≢◌, refl, subst, Bool-cases, inl, inr, ◌>>=◌,
}
use mutation_framework.Base.Text.{Text, codes, text_eq, text_eq_sound}
use mutation_framework.Ast.Info.{Info}
use mutation_framework.Mutator.{IsReversible}
use mutation_framework.Registry.{Lookup, new}
use mutation_framework.Operators.Init.{
  Operator, tree_operators, all_operators, tree_operators-IsReversible,
}
use mutation_framework.Operators.Distributed.{mutator_swap}
use mutation_framework.FileSystem.{FileSystem, History}
use mutation_framework.Config.{MutationConfig}
use mutation_framework.Config.Expand.{OtherGlobs}
use mutation_framework.Config.Load.{
  Formats, Loaded, is_json, add_operator, unmarshal_operator, unmarshal_operators, finish_config,
  with_operators, finish_loaded, decoded, parse_config, load_content, get_config,
}

abbrev pub protocols : Text
protocols = codes "distributed/protocols"

-- An operator that can be undone, or distributed/protocols.
abbrev pub IsSafe : Info → Text × Operator → Type 0
IsSafe info (name, operator) = name ≢ protocols → IsReversible (operator info)

all_operators-IsSafe : (random : ℕ) (info : Info) → All (IsSafe info) (all_operators random)
unfolding all_operators
all_operators-IsSafe random info =
    All-append (IsSafe info) tree_operators ((protocols, λ info. mutator_swap random) ∷ [])
      (All-map _ (IsSafe info) (λ op undone other. undone) tree_operators
        (tree_operators-IsReversible info))
      ((λ other. absurd (other refl)), tt)

abbrev SafeOption : Info → Option (Text × Operator) → Type 0
SafeOption info none = Unit
SafeOption info (some op) = IsSafe info op

abbrev SafeOptions : Info → Option (List (Text × Operator)) → Type 0
SafeOptions info none = Unit
SafeOptions info (some ops) = All (IsSafe info) ops

unmarshal_operator-SafeOption :
    (info : Info) (mutators : Lookup Operator) (name : Text)
    → All (IsSafe info) mutators
    → SafeOption info (unmarshal_operator mutators name)
unfolding unmarshal_operator new
unmarshal_operator-SafeOption info [] name h = tt
unmarshal_operator-SafeOption info ((key, operator) ∷ mutators) name (h, hs) =
    elim (Bool-cases (text_eq key name)) [
      | inl e ↦
          rw e
            (subst (λ k. k ≢ protocols → IsReversible (operator info)) (text_eq_sound key name e) h)
      | inr e ↦ rw e (unmarshal_operator-SafeOption info mutators name hs)
    ]

unmarshal_operators-SafeOptions :
    (info : Info) (mutators : Lookup Operator) (names : List Text)
    → All (IsSafe info) mutators
    → SafeOptions info (unmarshal_operators mutators names)
unfolding unmarshal_operators
unmarshal_operators-SafeOptions info mutators [] h = tt
unmarshal_operators-SafeOptions info mutators (name ∷ names) h =
    go (unmarshal_operator mutators name) (unmarshal_operators mutators names)
      (unmarshal_operator-SafeOption info mutators name h)
      (unmarshal_operators-SafeOptions info mutators names h)
  where
    go :
        (op : Option (Text × Operator)) (ops : Option (List (Text × Operator)))
        → SafeOption info op
        → SafeOptions info ops
        → SafeOptions info (add_operator op ops)
    go none ops k ks = tt
    go (some op) none k ks = tt
    go (some op) (some ops) k ks = (k, ks)

-- A configuration that was loaded has safe operators.
abbrev SafeLoaded : Info → Result (Option Loaded) → Type 0
SafeLoaded info (ok (some (config, operators))) = All (IsSafe info) operators
SafeLoaded info _ = Unit

module _ (formats : Formats) (random : ℕ) (fs : FileSystem) (h : History) (others : OtherGlobs)
    (fuel : ℕ) (info : Info) where
  parse_config-SafeLoaded :
      (content : Text)
      → SafeLoaded info (parse_config formats (all_operators random) fs h others fuel content)
  unfolding parse_config
  parse_config-SafeLoaded content = go (formats.from_json content)
    where
      done :
          (ops : List (Text × Operator)) (r : Result (Option MutationConfig))
          → All (IsSafe info) ops
          → SafeLoaded info (
              r >>= λ finished.
              ok (with_operators formats (all_operators random) fs h others fuel ops finished))
      done ops (ok none) k = tt
      done ops (ok (some config)) k = k
      done ops panic k = tt
      done ops out_of_fuel k = tt

      finish :
          (config : MutationConfig) (ops : Option (List (Text × Operator)))
          → SafeOptions info ops
          → SafeLoaded info
              (finish_loaded formats (all_operators random) fs h others fuel config ops)
      finish config none k = tt
      finish config (some ops) k =
          done ops (finish_config formats (all_operators random) fs h others fuel config) k

      go :
          (config : Option MutationConfig)
          → SafeLoaded info (decoded formats (all_operators random) fs h others fuel config)
      go none = tt
      go (some config) =
          finish config (unmarshal_operators (all_operators random) config.mutate.operators) (
            unmarshal_operators-SafeOptions info (all_operators random) config.mutate.operators
              (all_operators-IsSafe random info))

  -- The operators that getConfig loads are registered ones: each can be undone but for
  -- distributed/protocols.
  pub get_config-IsSafe :
      (path : Text) (config : MutationConfig) (operators : List (Text × Operator))
      → get_config formats (all_operators random) fs h others fuel path
        ≡ ok (some (config, operators))
      → All (IsSafe info) operators
  unfolding get_config
  get_config-IsSafe path config operators e = subst (SafeLoaded info) e (go (fs.read_file h path))
    where
      go :
          (data_read : Option Text)
          → SafeLoaded info (load_content formats (all_operators random) fs h others fuel data_read)
      go none = tt
      go (some content) = elim (Bool-cases (is_json content)) [
        | inl j ↦ rw j (parse_config-SafeLoaded content)
        | inr j ↦ rw j (parse_config-SafeLoaded _)
      ]
