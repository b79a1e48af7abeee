-- ===== src/Operators/Branch.antt =====
-- mutator/branch: mutatecase.go, mutateelse.go, mutateif.go.
use mutation_framework.Base.{List, [], ◌∷◌, some, Result, ok}
use mutation_framework.Ast.{Node, Nodes, nil_node, block_stmt, case_clause, if_stmt, cons, nil}
use mutation_framework.Ast.{to_list}
use mutation_framework.Ast.Info.{Info}
use mutation_framework.Astutil.Create.{create_noop_of_statement, create_noop_of_statements}
use mutation_framework.Mutator.{Mutation, Mutator}

-- n.Body of a case clause: Change reads it when it is called.
abbrev noop_case_body : Info → Node → Result Node
noop_case_body info (case_clause l body) =
    ok (case_clause l (cons (create_noop_of_statements info (to_list body)) nil))
noop_case_body info n = ok n

abbrev set_case_body : Nodes → Node → Result Node
set_case_body old (case_clause l body) = ok (case_clause l old)
set_case_body old n = ok n

-- MutatorCase
unfoldable pub mutator_case : Info → Mutator
mutator_case info (case_clause l body) =
    ok (record { change = some (noop_case_body info); reset = some (set_case_body body) } ∷ [])
mutator_case info _ = ok []

abbrev set_else : Node → Node → Result Node
set_else e (if_stmt init cond body els) = ok (if_stmt init cond body e)
set_else e n = ok n

abbrev else_mutation : Info → Node → Mutation
else_mutation info old = record {
  change = some (set_else (create_noop_of_statement info old));
  reset = some (set_else old);
}

-- The else branch: an else if and a missing one are left alone.
abbrev mutate_else : Info → Node → List Mutation
mutate_else info (if_stmt _ _ _ _) = []
mutate_else info nil_node = []
mutate_else info old = else_mutation info old ∷ []

-- MutatorElse
unfoldable pub mutator_else : Info → Mutator
mutator_else info (if_stmt init cond body els) = ok (mutate_else info els)
mutator_else info _ = ok []

-- n.Body.List of an if statement
abbrev set_body_list : Nodes → Node → Result Node
set_body_list l (if_stmt init cond body els) = ok (if_stmt init cond l els)
set_body_list l n = ok n

abbrev noop_body_list : Info → Node → Result Node
noop_body_list info (if_stmt init cond body els) =
    ok (if_stmt init cond (cons (create_noop_of_statement info (block_stmt body)) nil) els)
noop_body_list info n = ok n

-- MutatorIf
unfoldable pub mutator_if : Info → Mutator
mutator_if info (if_stmt init cond body els) =
    ok (record { change = some (noop_body_list info); reset = some (set_body_list body) } ∷ [])
mutator_if info _ = ok []
