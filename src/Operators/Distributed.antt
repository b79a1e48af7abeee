-- ===== src/Operators/Distributed.antt =====
-- mutator/distributed: readzero.go, swapprotocols.go.
use mutation_framework.Base.{ℕ, suc, ◌+◌, List, [], ◌∷◌, ◌++◌, some, none, Result, ok, ◌>>=◌}
use mutation_framework.Base.{set, take, drop, length, if◌then◌else◌, ◌==◌, Option}
use mutation_framework.Ast.{Node, block_stmt, to_list, of_list}
use mutation_framework.Ast.Info.{Info}
use mutation_framework.Astutil.ReadZero.{create_read_zero_assignment}
use mutation_framework.Astutil.Protocol.{swap_protocol_version}
use mutation_framework.Mutator.{Mutation, Mutator}

-- copy(dst, src): as many items as both slices have; the ranges may overlap.
unfoldable pub copy {ℓ} : {A : Type ℓ} → List A → List A → List A
copy [] src = []
copy (d ∷ dst) [] = d ∷ dst
copy (d ∷ dst) (s ∷ src) = s ∷ copy dst src

-- copy(l[i:], src)
abbrev pub copy_at {ℓ} : {A : Type ℓ} → ℕ → List A → List A → List A
copy_at i l src = take i l ++ copy (drop i l) src

-- Change of createMutant: the new list of statements.
unfoldable pub insert_statement {ℓ} : {A : Type ℓ} → List A → A → ℕ → List A
unfolding copy
insert_statement old new_assign index =
    let new_list = old ++ new_assign ∷ [] in
    if length new_list == index + 1
    then new_list
    else set (copy_at (index + 1) new_list (drop index new_list)) index new_assign

-- blockToAugment.List = l
abbrev set_list : List Node → Node → Result Node
set_list l (block_stmt old) = ok (block_stmt (of_list l))
set_list l n = ok n

unfoldable pub create_mutant : List Node → Node → ℕ → Mutation
unfolding insert_statement of_list
create_mutant old_stmt_list new_assign index = record {
  change = some (set_list (insert_statement old_stmt_list new_assign index));
  reset = some (set_list old_stmt_list);
}

-- The body of the loop of MutatorReadZero: the mutation for a statement that reads, if it is one.
unfoldable pub add_mutant : List Node → ℕ → Option Node → List Mutation → List Mutation
unfolding create_mutant
add_mutant all i none more = more
add_mutant all i (some new_assign) more = create_mutant all new_assign (i + 1) ∷ more

-- The loop over blocks.List, from index i on.
unfoldable pub read_zero_mutations : Info → List Node → ℕ → List Node → List Mutation
unfolding add_mutant create_read_zero_assignment
read_zero_mutations info all i [] = []
read_zero_mutations info all i (block ∷ rest) =
    add_mutant all i (create_read_zero_assignment info block)
      (read_zero_mutations info all (suc i) rest)

-- MutatorReadZero
unfoldable pub mutator_read_zero : Info → Mutator
unfolding read_zero_mutations to_list
mutator_read_zero info (block_stmt l) = ok (read_zero_mutations info (to_list l) 0 (to_list l))
mutator_read_zero info _ = ok []

-- MutatorSwap, at the number that rand.Int returns
unfoldable pub mutator_swap : ℕ → Mutator
unfolding swap_protocol_version
mutator_swap random n = do mutation ← swap_protocol_version random n; ok (mutation ∷ [])
