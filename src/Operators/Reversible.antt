-- ===== src/Operators/Reversible.antt =====
-- Reset undoes Change, for each operator of the four directories but distributed/protocols.
use mutation_framework.Base.{ℕ, suc, ◌+◌, List, [], ◌∷◌, some, none}
use mutation_framework.Base.{◌≡◌, refl, sym, ◌∙◌, ap, arith, ok, ◌>>=◌, All, set}
use mutation_framework.Base.{get_elem?, set-set, set-get_elem?, if-elim, Option}
use mutation_framework.Ast.{Node, Nodes, to_list, of_list-to_list, to_list-of_list}
use mutation_framework.Ast.{
  nil_node, call_expr, binary_expr, block_stmt, case_clause, if_stmt, land, lor,
}
use mutation_framework.Ast.Info.{Info}
use mutation_framework.Mutator.{Mutation, Undoes, IsReversible}
use mutation_framework.Astutil.Timeout.{is_timeout_call}
use mutation_framework.Astutil.ReadZero.{create_read_zero_assignment}
use mutation_framework.Operators.Branch.{mutator_case, mutator_else, mutator_if}
use mutation_framework.Operators.Expression.{mutator_remove_term}
use mutation_framework.Operators.Statement.{
  mutator_remove_statement, mutator_timeout, statements, with_statements, statement_mutations,
  check_remove_statement, write_statement,
}
use mutation_framework.Operators.Distributed.{mutator_read_zero, add_mutant, read_zero_mutations}

pub mutator_case-IsReversible : (info : Info) → IsReversible (mutator_case info)
unfolding mutator_case
mutator_case-IsReversible info (case_clause l body) = (refl, tt)
mutator_case-IsReversible info _ = tt

pub mutator_else-IsReversible : (info : Info) → IsReversible (mutator_else info)
unfolding mutator_else
mutator_else-IsReversible info (if_stmt init cond body (if_stmt _ _ _ _)) = tt
mutator_else-IsReversible info (if_stmt init cond body nil_node) = tt
mutator_else-IsReversible info (if_stmt init cond body els) = (refl, tt)
mutator_else-IsReversible info _ = tt

pub mutator_if-IsReversible : (info : Info) → IsReversible (mutator_if info)
unfolding mutator_if
mutator_if-IsReversible info (if_stmt init cond body els) = (refl, tt)
mutator_if-IsReversible info _ = tt

pub mutator_remove_term-IsReversible : IsReversible mutator_remove_term
unfolding mutator_remove_term
mutator_remove_term-IsReversible (binary_expr x land y) = (refl, (refl, tt))
mutator_remove_term-IsReversible (binary_expr x lor y) = (refl, (refl, tt))
mutator_remove_term-IsReversible _ = tt

statements-with_statements :
    (n : Node) (i : ℕ) (s : Node)
    → statements (with_statements n (set (statements n) i s)) ≡ set (statements n) i s
unfolding statements with_statements
statements-with_statements (block_stmt l) i s = to_list-of_list _
statements-with_statements (case_clause l body) i s = to_list-of_list _
statements-with_statements _ i s = refl

with_statements-with_statements :
    (n : Node) (a b : List Node) → with_statements (with_statements n a) b ≡ with_statements n b
unfolding with_statements
with_statements-with_statements (block_stmt l) a b = refl
with_statements-with_statements _ a b = refl

with_statements-statements : (n : Node) → with_statements n (statements n) ≡ n
unfolding with_statements statements
with_statements-statements (block_stmt l) = ap block_stmt (of_list-to_list l)
with_statements-statements (case_clause l body) = ap (case_clause l) (of_list-to_list body)
with_statements-statements _ = refl

-- A write of the old statement undoes a write of another.
pub write_statement_undo :
    (n : Node) (i : ℕ) (s old : Node)
    → get_elem? (statements n) i ≡ some old
    → (write_statement i s n >>= write_statement i old) ≡ ok n
unfolding write_statement
write_statement_undo n i s old h = simp (
  statements-with_statements,
  with_statements-with_statements,
  set-set,
  set-get_elem? (statements n) i old h,
  with_statements-statements,
)

shift : (i j : ℕ) → i + suc j ≡ suc i + j
shift i j = omega arith

plus_zero : (i : ℕ) → i ≡ i + 0
plus_zero i = omega arith

zero_plus : (j : ℕ) → j ≡ 0 + j
zero_plus j = omega arith

pub statement_mutations-Undoes :
    (info : Info) (n : Node) (i : ℕ) (rest : List Node)
    → ((j : ℕ) → get_elem? rest j ≡ get_elem? (statements n) (i + j))
    → All (Undoes n) (statement_mutations info i rest)
unfolding statement_mutations
statement_mutations-Undoes info n i [] h = tt
statement_mutations-Undoes info n i (s ∷ rest) h =
    let more =
      statement_mutations-Undoes info n (suc i) rest
        (λ j. h (suc j) ∙ ap (get_elem? (statements n)) (shift i j)) in
    if-elim (All (Undoes n)) (check_remove_statement s)
      (write_statement_undo n i _ s (ap (get_elem? (statements n)) (plus_zero i) ∙ sym (h 0)), more)
      more

pub mutator_remove_statement-IsReversible :
    (info : Info) → IsReversible (mutator_remove_statement info)
unfolding mutator_remove_statement
mutator_remove_statement-IsReversible info n =
    statement_mutations-Undoes info n 0 (statements n)
      (λ j. ap (get_elem? (statements n)) (zero_plus j))

pub mutator_timeout-IsReversible : (info : Info) → IsReversible (mutator_timeout info)
unfolding mutator_timeout
mutator_timeout-IsReversible info (call_expr fun args) =
    if-elim (All (Undoes (call_expr fun args))) (is_timeout_call info fun) (refl, tt) tt
mutator_timeout-IsReversible info _ = tt

add_mutant-Undoes :
    (l : Nodes) (i : ℕ) (found : Option Node) (more : List Mutation)
    → All (Undoes (block_stmt l)) more
    → All (Undoes (block_stmt l)) (add_mutant (to_list l) i found more)
unfolding add_mutant
add_mutant-Undoes l i none more h = h
add_mutant-Undoes l i (some new_assign) more h = (rw of_list-to_list, h)

read_zero_mutations-Undoes :
    (info : Info) (l : Nodes) (i : ℕ) (rest : List Node)
    → All (Undoes (block_stmt l)) (read_zero_mutations info (to_list l) i rest)
unfolding read_zero_mutations
read_zero_mutations-Undoes info l i [] = tt
read_zero_mutations-Undoes info l i (block ∷ rest) =
    add_mutant-Undoes l i (create_read_zero_assignment info block) _
      (read_zero_mutations-Undoes info l (suc i) rest)

pub mutator_read_zero-IsReversible : (info : Info) → IsReversible (mutator_read_zero info)
unfolding mutator_read_zero
mutator_read_zero-IsReversible info (block_stmt l) = read_zero_mutations-Undoes info l 0 (to_list l)
mutator_read_zero-IsReversible info _ = tt
