-- ===== src/Main/Arguments.antt =====
-- The command line flags (cmd/mutation-framework/main.go): checkArguments,
-- consolidateArgsIntoConfig and setUpLogging. go-flags is a parameter.
use mutation_framework.Base.{
  ℕ, Bool, true, false, not, ◌&&◌, ◌||◌, List, [], ◌∷◌, Option, none, some, leb, ◌==◌,
  if◌then◌else◌, Result, ok, panic, ◌>>=◌,
}
use mutation_framework.Base.Text.{Text}
use mutation_framework.Config.{MutationConfig}
use mutation_framework.Runner.{ℤ, pos, return_error}

abbrev pub return_help : ℤ
return_help = pos 1

abbrev pub return_bash_completion : ℤ
return_bash_completion = pos 2

pub record General : Type 0 where
  pub debug : Bool
  pub help : Bool
  pub verbose : Bool
  pub config_path : Text
  pub list_mutators : Bool
  pub json : Bool

pub record Exec : Type 0 where
  pub composition : ℕ
  pub mutate_only : Bool
  pub timeout : ℕ
  pub exec_only : Bool
  pub custom_test : Text
  pub overwrite : Bool

pub record Args : Type 0 where
  pub general : General
  pub exec : Exec

-- go-flags: whether AddGroup fails, and what ParseArgs leaves in the flags, with an error or not.
pub record Flags : Type 0 where
  pub add_group_fails : Bool
  pub parse_args : List Text → Args × Bool

-- unicode.IsSpace
abbrev pub is_unicode_space : ℕ → Bool
is_unicode_space c =
    leb 9 c && leb c 13
    || c == 32
    || c == 0x85
    || c == 0xa0
    || c == 0x1680
    || leb 0x2000 c && leb c 0x200a
    || c == 0x2028
    || c == 0x2029
    || c == 0x202f
    || c == 0x205f
    || c == 0x3000

-- strings.TrimSpace(s) == ""
unfoldable pub is_blank : Text → Bool
is_blank [] = true
is_blank (c ∷ s) = is_unicode_space c && is_blank s

abbrev is_empty : {A : Type 0} → List A → Bool
is_empty [] = true
is_empty (x ∷ xs) = false

abbrev with_debug : Args → Args
with_debug opts = record opts {
  general = record opts.general { verbose = opts.general.debug || opts.general.verbose };
}

-- What checkArguments returns: the exit code where the program exits, or the flags.
pub data Checked : Type 0 where
  exits : ℤ → Checked
  goes_on : Args → Checked

abbrev pub check_parsed : Bool → List Text → Args × Bool → Checked
check_parsed completion args (opts, fails) =
    if (opts.general.help || is_empty args) && not completion
    then exits return_help
    else if opts.general.list_mutators
    then exits return_help
    else if fails
    then exits return_error
    else if completion
    then exits return_bash_completion
    else goes_on (with_debug opts)

-- checkArguments, at the value of GO_FLAGS_COMPLETION.
unfoldable pub check_arguments : Flags → Text → List Text → Checked
check_arguments flags completion args =
    if flags.add_group_fails
    then exits return_error
    else check_parsed (not (is_empty completion)) args (flags.parse_args args)

-- A field behind a pointer; a nil pointer panics.
abbrev pub deref {ℓ} : {A : Type ℓ} → Option A → Result A
deref none = panic
deref (some a) = ok a

-- `if b { *p = f(*p) }`, one after the other.
unfoldable pub assign_all {ℓ} : {A : Type ℓ} → List (Bool × (A → A)) → Option A → Result (Option A)
assign_all [] p = ok p
assign_all ((false, f) ∷ rest) p = assign_all rest p
assign_all ((true, f) ∷ rest) p = do a ← deref p; assign_all rest (some (f a))

-- The assignments of consolidateArgsIntoConfig, each with its condition.
abbrev pub assignments : Args → List (Bool × (MutationConfig → MutationConfig))
assignments opts =
    (
      not (is_blank opts.exec.custom_test),
      λ c. record c {
        test_config = record c.test_config {
          commands = record c.test_config.commands { test_command = opts.exec.custom_test };
        };
      },
    )
    ∷ (opts.exec.exec_only, λ c. record c { mutate = record c.mutate { disable_mutate = true } })
    ∷ (
      opts.exec.mutate_only,
      λ c. record c { test_config = record c.test_config { disable_test = true } },
    )
    ∷ (opts.general.verbose, λ c. record c { verbose = true })
    ∷ (
      not (opts.exec.composition == 0),
      λ c. record c { test_config = record c.test_config { composition = opts.exec.composition } },
    )
    ∷ (
      not (opts.exec.timeout == 0),
      λ c. record c { test_config = record c.test_config { timeout_seconds = opts.exec.timeout } },
    )
    ∷ (opts.general.json, λ c. record c { json = true })
    ∷ (opts.exec.overwrite, λ c. record c { mutate = record c.mutate { overwrite = true } })
    ∷ []

-- consolidateArgsIntoConfig, through the pointer to the configuration
unfoldable pub consolidate_args_into_config :
    Args → Option MutationConfig → Result (Option MutationConfig)
unfolding assign_all is_blank
consolidate_args_into_config opts config = assign_all (assignments opts) config

-- The formatter and the level of the log.
pub record Logging : Type 0 where
  pub json_formatter : Bool
  pub debug_level : Bool

-- setUpLogging
unfoldable pub set_up_logging : Option MutationConfig → Result Logging
set_up_logging config = do
  c ← deref config
  ok (record { json_formatter = c.json; debug_level = c.verbose })
