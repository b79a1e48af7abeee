-- ===== src/MutateWalk.antt =====
-- walk.go: CountWalk and MutateWalk. The walk with mutations changes the tree under its own feet,
-- so it runs on fuel: one unit for each level of the tree. `k` puts a node back into the whole
-- file, and the walk lists the file as it stands at each `w.changed <- true`.
pub mod Files
use mutation_framework.Base.{ℕ, zero, suc, ◌+◌, List, [], ◌∷◌, ◌++◌, true, length}
use mutation_framework.Base.{Result, ok, out_of_fuel, ◌>>=◌}
use mutation_framework.Ast.{Node, nil_node}
use mutation_framework.Ast.Children.{children, with_children, height}
use mutation_framework.Ast.Walk.{Visitor, walk}
use mutation_framework.Mutator.{Mutation, Mutator, call}

-- countWalk.Visit
abbrev pub count_visitor : Mutator → Visitor (Result ℕ)
count_visitor m = record {
  enter = λ count n. (do c ← count; ms ← m n; ok (c + length ms), true);
  leave = λ count. count;
}

-- CountWalk
unfoldable pub count_walk : Mutator → Node → Result ℕ
unfolding walk
count_walk m n = walk (count_visitor m) (ok 0) n

abbrev pub Walked : Type 0 → Type 0
Walked A = Result (List Node × A)

-- mutateWalk.Visit: the loop over the mutations of one node.
unfoldable pub visit : (Node → Node) → List Mutation → Node → Walked Node
visit k [] n = ok ([], n)
visit k (mu ∷ ms) n = do
  changed ← call mu.change n
  back ← call mu.reset changed
  (files, n') ← visit k ms back
  ok (k changed ∷ k back ∷ files, n')

-- The children of a node, one after the other, each in the place that it has.
unfoldable pub walk_children :
    ((Node → Node) → Node → Walked Node) → (List Node → Node) → List Node → Walked (List Node)
walk_children step k [] = ok ([], [])
walk_children step k (c ∷ cs) = do
  (files, c') ← step (λ x. k (x ∷ cs)) c
  (more, cs') ← walk_children step (λ xs. k (c' ∷ xs)) cs
  ok (files ++ more, c' ∷ cs')

-- ast.Walk with the visitor mutateWalk
unfoldable pub mutate_walk : ℕ → Mutator → (Node → Node) → Node → Walked Node
unfolding visit walk_children
mutate_walk zero m k n = out_of_fuel
mutate_walk (suc f) m k nil_node = ok ([], nil_node)
mutate_walk (suc f) m k n = do
  ms ← m n
  (files, n') ← visit k ms n
  (more, cs) ← walk_children (mutate_walk f m) (λ xs. k (with_children n' xs)) (children n')
  ok (files ++ more, with_children n' cs)

-- MutateWalk on a whole file: what stands in the file at each signal, and at the end.
unfoldable pub mutate_file : Mutator → Node → Walked Node
unfolding mutate_walk height
mutate_file m file = mutate_walk (height file) m (λ n. n) file
