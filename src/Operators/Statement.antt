-- ===== src/Operators/Statement.antt =====
-- mutator/statement: remove.go, removeblock.go, removetimeout.go.
use mutation_framework.Base.{ℕ, suc, Bool, true, false, List, [], ◌∷◌, some, none, Result, ok}
use mutation_framework.Base.{set, if◌then◌else◌, ◌>>=◌, Option}
use mutation_framework.Base.Text.{codes}
use mutation_framework.Ast.{Node, Nodes, Token, define, int_lit, assign_stmt, expr_stmt}
use mutation_framework.Ast.{inc_dec_stmt, block_stmt, case_clause, call_expr, basic_lit, cons, nil}
use mutation_framework.Ast.{to_list, of_list}
use mutation_framework.Ast.Info.{Info}
use mutation_framework.Astutil.Create.{create_noop_of_statement}
use mutation_framework.Astutil.ErrorCode.{Place, is_error_handling_code, block_at, write_at}
use mutation_framework.Astutil.Timeout.{is_timeout_call}
use mutation_framework.Mutator.{Mutation, Mutator, Closure}

abbrev is_define : Token → Bool
is_define define = true
is_define _ = false

unfoldable pub check_remove_statement : Node → Bool
check_remove_statement (assign_stmt lhs tok rhs) = if is_define tok then false else true
check_remove_statement (expr_stmt x) = true
check_remove_statement (inc_dec_stmt x tok) = true
check_remove_statement _ = false

-- The slice `l`: the statements of a block or of a case clause.
unfoldable pub statements : Node → List Node
unfolding to_list
statements (block_stmt l) = to_list l
statements (case_clause l body) = to_list body
statements _ = []

-- The same node with other statements in the array of that slice.
unfoldable pub with_statements : Node → List Node → Node
unfolding of_list
with_statements (block_stmt l) stmts = block_stmt (of_list stmts)
with_statements (case_clause l body) stmts = case_clause l (of_list stmts)
with_statements n stmts = n

-- l[li] = s
unfoldable pub write_statement : ℕ → Node → Node → Result Node
unfolding statements with_statements
write_statement li s n = ok (with_statements n (set (statements n) li s))

abbrev pub statement_mutation : Info → ℕ → Node → Mutation
statement_mutation info li old = record {
  change = some (write_statement li (create_noop_of_statement info old));
  reset = some (write_statement li old);
}

-- The loop over the statements, from index i on.
unfoldable pub statement_mutations : Info → ℕ → List Node → List Mutation
unfolding check_remove_statement
statement_mutations info i [] = []
statement_mutations info i (ni ∷ rest) =
    let more = statement_mutations info (suc i) rest in
    if check_remove_statement ni then statement_mutation info i ni ∷ more else more

-- MutatorRemoveStatement
unfoldable pub mutator_remove_statement : Info → Mutator
unfolding statement_mutations statements
mutator_remove_statement info n = ok (statement_mutations info 0 (statements n))

-- A closure on the block at a place, as it acts on the statement that holds the block.
abbrev pub at_place : Place → Closure → Closure
at_place p none = none
at_place p (some f) = some (λ n. do block ← f (block_at p n); ok (write_at p n block))

abbrev pub mutation_at : Place → Mutation → Mutation
mutation_at p mu = record { change = at_place p mu.change; reset = at_place p mu.reset }

abbrev pub mutations_at : Place → List Mutation → List Mutation
mutations_at p [] = []
mutations_at p (mu ∷ ms) = mutation_at p mu ∷ mutations_at p ms

-- The statements of the block that was found.
unfoldable pub remove_at : Info → Node → Option Place → Result (List Mutation)
unfolding mutator_remove_statement block_at write_at
remove_at info n none = ok []
remove_at info n (some p) = do
  ms ← mutator_remove_statement info (block_at p n)
  ok (mutations_at p ms)

-- MutatorRemoveBlock
unfoldable pub mutator_remove_block : Info → Mutator
unfolding is_error_handling_code remove_at
mutator_remove_block info n = remove_at info n (is_error_handling_code info n)

-- n.Args of a call
abbrev set_args : Nodes → Node → Result Node
set_args args (call_expr fun old) = ok (call_expr fun args)
set_args args n = ok n

-- MutatorTimeout
unfoldable pub mutator_timeout : Info → Mutator
unfolding is_timeout_call
mutator_timeout info (call_expr fun args) = ok (
    if is_timeout_call info fun
    then record {
      change = some (set_args (cons (basic_lit int_lit (codes "0")) nil));
      reset = some (set_args args);
    }
      ∷ []
    else [])
mutator_timeout info _ = ok []
