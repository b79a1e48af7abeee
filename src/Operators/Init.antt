-- ===== src/Operators/Init.antt =====
-- The init functions of mutator/branch, mutator/expression, mutator/statement and
-- mutator/distributed: the names under which they register the operators.
use mutation_framework.Base.{ℕ, List, [], ◌∷◌, ◌++◌, ◌≡◌, refl, panic, All}
use mutation_framework.Base.{◌≢◌}
use mutation_framework.Base.Text.{Text, codes}
use mutation_framework.Ast.{Node, Nodes, nil_node, call_expr}
use mutation_framework.Ast.Children.{height}
use mutation_framework.Ast.Info.{Info}
use mutation_framework.Mutator.{Mutator, IsReversible}
use mutation_framework.MutateWalk.{mutate_file}
use mutation_framework.Operators.Branch.{mutator_case, mutator_else, mutator_if}
use mutation_framework.Operators.Expression.{mutator_remove_term}
use mutation_framework.Operators.Statement.{
  mutator_remove_statement, mutator_remove_block, mutator_timeout,
}
use mutation_framework.Operators.Distributed.{mutator_read_zero, mutator_swap}
use mutation_framework.Operators.Reversible.{
  mutator_case-IsReversible, mutator_else-IsReversible, mutator_if-IsReversible,
  mutator_remove_term-IsReversible, mutator_remove_statement-IsReversible,
  mutator_timeout-IsReversible, mutator_read_zero-IsReversible,
}
use mutation_framework.Operators.RemoveBlock.{mutator_remove_block-IsReversible}

-- An operator, at the results of the type checker.
abbrev pub Operator : Type 0
Operator = Info → Mutator

-- The operators of branch, expression and statement, and distributed/readzero.
unfoldable pub tree_operators : List (Text × Operator)
tree_operators =
    (codes "branch/case", mutator_case)
    ∷ (codes "branch/else", mutator_else)
    ∷ (codes "branch/if", mutator_if)
    ∷ (codes "expression/remove", λ info. mutator_remove_term)
    ∷ (codes "statement/remove", mutator_remove_statement)
    ∷ (codes "statement/removeblock", mutator_remove_block)
    ∷ (codes "statement/timeout", mutator_timeout)
    ∷ (codes "distributed/readzero", mutator_read_zero)
    ∷ []

-- All that is registered. `random` is what rand.Int returns.
unfoldable pub all_operators : ℕ → List (Text × Operator)
unfolding tree_operators
all_operators random =
    tree_operators ++ (codes "distributed/protocols", λ info. mutator_swap random) ∷ []

-- Each of the operators but distributed/protocols answers at every node of every file, and its
-- Reset undoes its Change.
pub tree_operators-IsReversible :
    (info : Info) → All (λ op. IsReversible (op.1 info)) tree_operators
unfolding tree_operators
tree_operators-IsReversible info = (
  mutator_case-IsReversible info,
  (
    mutator_else-IsReversible info,
    (
      mutator_if-IsReversible info,
      (
        mutator_remove_term-IsReversible,
        (
          mutator_remove_statement-IsReversible info,
          (
            mutator_remove_block-IsReversible info,
            (mutator_timeout-IsReversible info, (mutator_read_zero-IsReversible info, tt)),
          ),
        ),
      ),
    ),
  ),
)

-- MutateWalk with distributed/protocols panics at every root that is no call: the mutation has nil
-- closures there, and Change is called all the same.
pub mutate_file-mutator_swap :
    (random : ℕ) (file : Node)
    → file ≢ nil_node
    → ((fun : Node) (args : Nodes) → file ≢ call_expr fun args)
    → mutate_file (mutator_swap random) file ≡ panic
unfolding mutate_file mutator_swap height
mutate_file-mutator_swap random nil_node real no_call = absurd (real refl)
mutate_file-mutator_swap random (call_expr fun args) real no_call = absurd (no_call fun args refl)
mutate_file-mutator_swap random _ real no_call = refl
