-- ===== src/Operators/RemoveBlock.antt =====
-- mutator/statement/removeblock.go: Reset undoes Change through the pointer to the block.
use mutation_framework.Base.{ℕ, List, [], ◌∷◌, some, none, ◌≡◌, refl, ap, sym, ok}
use mutation_framework.Base.{Option, Returns, All, if-elim, suc, ◌>>=◌}
use mutation_framework.Ast.{Node, Nodes, block_stmt, if_stmt}
use mutation_framework.Ast.Info.{Info}
use mutation_framework.Mutator.{Mutation, Closure, call, Undoes, IsReversible}
use mutation_framework.Astutil.ErrorCode.{Place, is_error_handling_code, block_at, write_at}
use mutation_framework.Astutil.ErrorCode.Handles.{
  Handles, not_nil, is_nil, is_nil_else_if, is_error_handling_code_iff,
}
use mutation_framework.Operators.Statement.{
  mutator_remove_block, remove_at, mutations_at, mutation_at, at_place, statements, write_statement,
  statement_mutations, check_remove_statement,
}
use mutation_framework.Operators.Reversible.{mutator_remove_statement-IsReversible}

-- What is at the place of an error block is a block, and a block written there can be read.
module _ (info : Info) where
  block_at-Handles :
      {p : Place} {n : Node} → Handles info p n → (l : Nodes) × (block_at p n ≡ block_stmt l)
  unfolding block_at
  block_at-Handles (not_nil {body} t) = (body, refl)
  block_at-Handles (is_nil {l} t) = (l, refl)
  block_at-Handles (is_nil_else_if t h) = block_at-Handles h

  write_at-block_at :
      {p : Place} {n : Node} (l : Nodes)
      → Handles info p n
      → block_at p (write_at p n (block_stmt l)) ≡ block_stmt l
  unfolding block_at write_at
  write_at-block_at l (not_nil t) = refl
  write_at-block_at l (is_nil t) = refl
  write_at-block_at l (is_nil_else_if t h) = write_at-block_at l h

  -- A second write covers the first.
  write_at-write_at :
      {p : Place} {n : Node} (l l' : Nodes)
      → Handles info p n
      → block_at p n ≡ block_stmt l'
      → write_at p (write_at p n (block_stmt l)) (block_stmt l') ≡ n
  unfolding block_at write_at
  write_at-write_at l l' (not_nil {init} {cond} {els} t) e = ap (λ b. if_stmt init cond b els) cc
  write_at-write_at l l' (is_nil {init} {cond} {body} t) e =
      ap (λ b. if_stmt init cond body b) (sym e)
  write_at-write_at l l' (is_nil_else_if {init} {cond} {body} t h) e =
      ap (λ b. if_stmt init cond body b) (write_at-write_at l l' h e)

call-at_place :
    (p : Place) (c : Closure) (n : Node)
    → call (at_place p c) n ≡ (call c (block_at p n) >>= λ b. ok (write_at p n b))
call-at_place p none n = refl
call-at_place p (some f) n = refl

-- Change leaves a block where a block was.
abbrev KeepsBlock : Nodes → Mutation → Type 0
KeepsBlock l mu = (l' : Nodes) × (call mu.change (block_stmt l) ≡ ok (block_stmt l'))

statement_mutations-KeepsBlock :
    (info : Info) (l : Nodes) (i : ℕ) (rest : List Node)
    → All (KeepsBlock l) (statement_mutations info i rest)
unfolding statement_mutations write_statement
statement_mutations-KeepsBlock info l i [] = tt
statement_mutations-KeepsBlock info l i (s ∷ rest) =
    let more = statement_mutations-KeepsBlock info l (suc i) rest in
    if-elim (All (KeepsBlock l)) (check_remove_statement s) ((_, refl), more) more

-- A mutation of the block can be undone through the statement that holds the block.
mutation_at-Undoes :
    (info : Info) (p : Place) (n : Node) (l : Nodes) (mu : Mutation)
    → Handles info p n
    → block_at p n ≡ block_stmt l
    → KeepsBlock l mu
    → Undoes (block_stmt l) mu
    → Undoes n (mutation_at p mu)
mutation_at-Undoes info p n l mu h e (l', changes) u =
    let resets : call mu.reset (block_stmt l') ≡ ok (block_stmt l) = rw changes at u in
    rw (call-at_place p mu.change n, e, changes, call-at_place p mu.reset)
      (rw (write_at-block_at info l' h, resets) (ap ok (write_at-write_at info l' l h e)))

mutations_at-Undoes :
    (info : Info) (p : Place) (n : Node) (l : Nodes) (ms : List Mutation)
    → Handles info p n
    → block_at p n ≡ block_stmt l
    → All (KeepsBlock l) ms
    → All (Undoes (block_stmt l)) ms
    → All (Undoes n) (mutations_at p ms)
mutations_at-Undoes info p n l [] h e ks us = tt
mutations_at-Undoes info p n l (mu ∷ ms) h e (k, ks) (u, us) =
    (mutation_at-Undoes info p n l mu h e k u, mutations_at-Undoes info p n l ms h e ks us)

remove_at-Returns :
    (info : Info) (n : Node) (o : Option Place)
    → is_error_handling_code info n ≡ o
    → Returns (All (Undoes n)) (remove_at info n o)
unfolding remove_at
remove_at-Returns info n none found = tt
remove_at-Returns info n (some p) found =
    let h = (is_error_handling_code_iff info n p).0 found in
    let (l, e) = block_at-Handles info h in
    rw e (
      mutations_at-Undoes info p n l _ h e
        (statement_mutations-KeepsBlock info l 0 (statements (block_stmt l)))
        (mutator_remove_statement-IsReversible info (block_stmt l)))

pub mutator_remove_block-IsReversible : (info : Info) → IsReversible (mutator_remove_block info)
unfolding mutator_remove_block
mutator_remove_block-IsReversible info n =
    remove_at-Returns info n (is_error_handling_code info n) refl
