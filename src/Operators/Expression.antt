-- ===== src/Operators/Expression.antt =====
-- mutator/expression/remove.go.
use mutation_framework.Base.{List, [], ◌∷◌, some, Result, ok}
use mutation_framework.Base.Text.{codes}
use mutation_framework.Ast.{Node, land, lor, binary_expr, new_ident}
use mutation_framework.Mutator.{Mutation, Mutator}

abbrev set_x : Node → Node → Result Node
set_x r (binary_expr x op y) = ok (binary_expr r op y)
set_x r n = ok n

abbrev set_y : Node → Node → Result Node
set_y r (binary_expr x op y) = ok (binary_expr x op r)
set_y r n = ok n

abbrev term_mutations : Node → Node → Node → List Mutation
term_mutations r x y =
    record { change = some (set_x r); reset = some (set_x x) }
    ∷ record { change = some (set_y r); reset = some (set_y y) }
    ∷ []

-- MutatorRemoveTerm
unfoldable pub mutator_remove_term : Mutator
mutator_remove_term (binary_expr x land y) = ok (term_mutations (new_ident (codes "true")) x y)
mutator_remove_term (binary_expr x lor y) = ok (term_mutations (new_ident (codes "false")) x y)
mutator_remove_term _ = ok []
