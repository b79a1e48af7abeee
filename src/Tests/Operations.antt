-- ===== src/Tests/Operations.antt =====
-- The operators and what they are made of, at concrete nodes.
use mutation_framework.Base.{
  ℕ, List, [], ◌∷◌, ◌++◌, none, some, ◌≡◌, refl, ◌↔◌, ◌⊎◌, arith, ok, panic, take, drop,
}
use mutation_framework.Base.Text.{codes}
use mutation_framework.Ast.{
  Node, block_stmt, assign_stmt, basic_lit, int_lit, call_expr, selector_expr, cons, nil, assign,
  to_list, new_ident,
}
use mutation_framework.Mutator.{Mutation}
use mutation_framework.Astutil.ErrorCode.{then_place, is_error_handling_code}
use mutation_framework.Astutil.ErrorCode.Handles.{Handles, is_error_handling_code_iff}
use mutation_framework.Astutil.Create.{create_noop_of_statements, create_noop_of_statement}
use mutation_framework.Astutil.Create.Collects.{CollectsAll}
use mutation_framework.Astutil.Create.Noop.{IsNoop, create_noop_of_statements-IsNoop}
use mutation_framework.Astutil.Protocol.{get_network_version, swap_network_version}
use mutation_framework.Astutil.Protocol.Unchanged.{
  get_network_version_fails, swap_network_version_unchanged,
}
use mutation_framework.Astutil.ReadZero.{create_read_zero_assignment}
use mutation_framework.Operators.Statement.{mutator_remove_statement, statements}
use mutation_framework.Operators.Distributed.{mutator_read_zero, insert_statement}
use mutation_framework.Operators.Insert.{insert_statement_lem}
use mutation_framework.Operators.Selects.{Selects}
use mutation_framework.Operators.Changes.{
  Removable, Removes, Reads, ZeroesOne, mutator_remove_statement-RemovesOne,
  mutator_read_zero-ZeroesOne,
}
use mutation_framework.Tests.Samples.{info, n_ident, handler, log_stmt, read_stmt, body}

zero_behind_read :
    create_read_zero_assignment info read_stmt
    ≡ some (assign_stmt (cons n_ident nil) assign (cons (basic_lit int_lit (codes "0")) nil))
unfolding create_read_zero_assignment
zero_behind_read = refl

handler_found : is_error_handling_code info handler ≡ some then_place
unfolding is_error_handling_code
handler_found = refl

-- The log call becomes `_, _ = log, err`.
noop_of_log :
    create_noop_of_statement info log_stmt
    ≡ assign_stmt
        (cons (new_ident (codes "_")) (cons (new_ident (codes "_")) nil))
        assign
        (cons (new_ident (codes "log")) (cons (new_ident (codes "err")) nil))
unfolding create_noop_of_statement
noop_of_log = refl

no_version : get_network_version (codes "tcp4") ≡ ok none
unfolding get_network_version
no_version = refl

mutator_remove_statement-RemovesOne_example :
    (ms : List Mutation) × (mutator_remove_statement info (block_stmt body) ≡ ok ms)
    × Selects Removable (Removes info (block_stmt body)) 0 (statements (block_stmt body)) ms
mutator_remove_statement-RemovesOne_example =
    mutator_remove_statement-RemovesOne info (block_stmt body)

mutator_read_zero-ZeroesOne_example :
    (ms : List Mutation) × (mutator_read_zero info (block_stmt body) ≡ ok ms)
    × Selects (Reads info) (ZeroesOne info (to_list body)) 0 (to_list body) ms
mutator_read_zero-ZeroesOne_example = mutator_read_zero-ZeroesOne info body

is_error_handling_code_iff_example :
    (is_error_handling_code info handler ≡ some then_place) ↔ Handles info then_place handler
is_error_handling_code_iff_example = is_error_handling_code_iff info handler then_place

create_noop_of_statements-IsNoop_example :
    (ids : List Node) × CollectsAll info (log_stmt ∷ read_stmt ∷ []) ids
    × IsNoop ids (create_noop_of_statements info (log_stmt ∷ read_stmt ∷ []))
create_noop_of_statements-IsNoop_example =
    create_noop_of_statements-IsNoop info (log_stmt ∷ read_stmt ∷ [])

abbrev three : List ℕ
three = 1 ∷ 2 ∷ 3 ∷ []

insert_statement_lem_example : insert_statement three 9 1 ≡ take 1 three ++ 9 ∷ drop 1 three
insert_statement_lem_example = insert_statement_lem three 9 1 (omega arith)

get_network_version_fails_example :
    (get_network_version (codes "tcp4") ≡ panic) ⊎ (get_network_version (codes "tcp4") ≡ ok none)
get_network_version_fails_example = get_network_version_fails (codes "tcp4")

-- net.ListenTCP(tcp4, addr)
abbrev listen : Node
listen =
    call_expr (selector_expr (new_ident (codes "net")) none (codes "ListenTCP"))
      (cons (new_ident (codes "tcp4")) (cons (new_ident (codes "addr")) nil))

swap_network_version_unchanged_example :
    (swap_network_version 7 (codes "tcp") listen ≡ ok listen)
    ⊎ (swap_network_version 7 (codes "tcp") listen ≡ panic)
swap_network_version_unchanged_example = swap_network_version_unchanged 7 (codes "tcp") listen
