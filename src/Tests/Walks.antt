-- ===== src/Tests/Walks.antt =====
-- The walks, the exchange and the table of operators, at the sample file.
use mutation_framework.Base.{
  ℕ, ◌≤◌, ◌*◌, ◌+◌, true, false, List, [], ◌∷◌, none, some, ◌≡◌, refl, ◌≢◌, ◌↔◌, All, length, ok,
  panic, if◌then◌else◌,
}
use mutation_framework.Base.Text.{Text, codes, text_eq, text_mem}
use mutation_framework.Ast.{Node}
use mutation_framework.Mutator.{IsReversible}
use mutation_framework.MutateWalk.{mutate_file, count_walk}
use mutation_framework.MutateWalk.Files.{signals, Edit, mutate_file-count_walk}
use mutation_framework.Operators.Branch.{mutator_if}
use mutation_framework.Operators.Reversible.{mutator_if-IsReversible}
use mutation_framework.Operators.Distributed.{mutator_swap}
use mutation_framework.Operators.Init.{
  Operator, tree_operators, all_operators, tree_operators-IsReversible, mutate_file-mutator_swap,
}
use mutation_framework.Registry.{Lookup, register_all, new, register, list}
use mutation_framework.Registry.Laws.{
  register_all-AreDistinct, list-new, new-register, IsSorted, AreDistinct, names,
}
use mutation_framework.Exchange.{
  Reach, here, next, write_file, send_mutant, save, start, State, state, write, send, receive,
  close, answering,
}
use mutation_framework.Exchange.Phases.{Reach-IsSound, IsSound, steps, steps-le}
use mutation_framework.Tests.Samples.{info, file, handler}

-- One if statement, so one mutant and the original behind it.
counts_one : count_walk (mutator_if info) file ≡ ok 1
unfolding count_walk mutator_if
counts_one = refl

mutate_file-count_walk_example :
    (files : List Node) × (mutate_file (mutator_if info) file ≡ ok (signals files file, file))
    × All (Edit (mutator_if info) file) files
    × (count_walk (mutator_if info) file ≡ ok (length files))
mutate_file-count_walk_example =
    mutate_file-count_walk (mutator_if info) file (mutator_if-IsReversible info)

tree_operators-IsReversible_example : All (λ op. IsReversible (op.1 info)) tree_operators
tree_operators-IsReversible_example = tree_operators-IsReversible info

mutate_file-mutator_swap_example : mutate_file (mutator_swap 5) file ≡ panic
mutate_file-mutator_swap_example = mutate_file-mutator_swap 5 file (λ e. cc) (λ fun args e. cc)

-- The first three steps of the exchange over one mutant: it is saved while the file holds it.
abbrev saved_one : State
saved_one =
    state handler (receive ∷ write file ∷ send ∷ receive ∷ close ∷ []) false answering
      (handler ∷ [])

abbrev one_mutant : Reach (start file (signals (handler ∷ []) file)) saved_one
one_mutant = next (next (next here write_file) send_mutant) save

Reach-IsSound_example : IsSound (handler ∷ []) file saved_one
Reach-IsSound_example = Reach-IsSound (handler ∷ []) file one_mutant

steps-le_example : steps one_mutant ≤ 18 * 1 + 4
steps-le_example = steps-le (handler ∷ []) file one_mutant

abbrev two_names : List (Text × ℕ)
two_names = (codes "branch/if", 1) ∷ (codes "branch/case", 2) ∷ []

all_operators-AreDistinct : AreDistinct (names (all_operators 0))
unfolding all_operators text_mem
all_operators-AreDistinct =
    (refl, (refl, (refl, (refl, (refl, (refl, (refl, (refl, (refl, tt)))))))))

register_all-AreDistinct_example :
    (lookup : Lookup Operator) × (register_all (all_operators 0) [] ≡ ok lookup)
    × All (λ op. new op.0 lookup ≡ some op.1) (all_operators 0)
register_all-AreDistinct_example =
    register_all-AreDistinct (all_operators 0) all_operators-AreDistinct

list-new_example :
    IsSorted (list two_names)
    × ((t : Text) → (text_mem t (list two_names) ≡ true) ↔ (new t two_names ≢ none))
list-new_example = list-new two_names

new-register_example :
    (new (codes "b") two_names ≡ none
      → (lookup : Lookup ℕ) × (register (codes "b") (some 3) two_names ≡ ok lookup)
        × (new (codes "c") lookup
            ≡ (if text_eq (codes "b") (codes "c") then some 3 else new (codes "c") two_names)))
    × (new (codes "b") two_names ≢ none → register (codes "b") (some 3) two_names ≡ panic)
new-register_example = new-register (codes "b") (codes "c") 3 two_names

listed : list two_names ≡ codes "branch/case" ∷ codes "branch/if" ∷ []
unfolding list
listed = refl
