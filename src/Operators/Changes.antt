-- ===== src/Operators/Changes.antt =====
-- What the mutants of statement/remove and distributed/readzero look like, and to which statements
-- they belong.
use native.Mathlib.Numerals.{add-one}
use mutation_framework.Base.{
  ℕ, zero, suc, ◌+◌, ◌<◌, true, false, List, [], ◌∷◌, ◌++◌, Option, none, some, ◌≡◌, ◌≢◌, refl, ap,
  sym, ◌∙◌, arith, get_elem?, set, take, drop, length, ok, Bool-cases, inl, inr,
}
use mutation_framework.Ast.{
  Node, Nodes, Token, define, assign_stmt, expr_stmt, inc_dec_stmt, block_stmt, to_list, of_list,
}
use mutation_framework.Ast.Info.{Info}
use mutation_framework.Mutator.{Mutation, call}
use mutation_framework.Astutil.Create.{create_noop_of_statement}
use mutation_framework.Astutil.ReadZero.{create_read_zero_assignment}
use mutation_framework.Operators.Statement.{
  statements, with_statements, write_statement, statement_mutations, check_remove_statement,
  mutator_remove_statement,
}
use mutation_framework.Operators.Distributed.{
  read_zero_mutations, add_mutant, insert_statement, mutator_read_zero,
}
use mutation_framework.Operators.Insert.{insert_statement_lem}
use mutation_framework.Operators.Selects.{Selects, nothing, selected, passed}
use mutation_framework.Operators.Reads.{
  Zeroes, IsZeroOf, zeroed, not_zeroed, read_zero_assignment-IsZeroOf,
}

-- An assignment that defines nothing, an expression, or an increment.
abbrev pub Removable : Node → Type 0
Removable (assign_stmt lhs tok rhs) = tok ≢ define
Removable (expr_stmt x) = Unit
Removable (inc_dec_stmt x tok) = Unit
Removable _ = ⊥

-- Change puts the no-op of the statement in its place.
abbrev pub Removes : Info → Node → ℕ → Node → Mutation → Type 0
Removes info n i s mu =
    call mu.change n
    ≡ ok (with_statements n (set (statements n) i (create_noop_of_statement info s)))

assign-Removable :
    (lhs rhs : Nodes) (tok : Token)
    → check_remove_statement (assign_stmt lhs tok rhs) ≡ true
    → tok ≢ define
unfolding check_remove_statement
assign-Removable lhs rhs define h = cc
assign-Removable lhs rhs _ h = λ e. cc

assign-not-Removable :
    (lhs rhs : Nodes) (tok : Token)
    → check_remove_statement (assign_stmt lhs tok rhs) ≡ false
    → ¬ (tok ≢ define)
unfolding check_remove_statement
assign-not-Removable lhs rhs define h = λ other. other refl
assign-not-Removable lhs rhs _ h = cc

check-Removable :
    (s : Node)
    → (check_remove_statement s ≡ true → Removable s)
      × (check_remove_statement s ≡ false → ¬ (Removable s))
unfolding check_remove_statement
check-Removable (assign_stmt lhs tok rhs) =
    (assign-Removable lhs rhs tok, assign-not-Removable lhs rhs tok)
check-Removable (expr_stmt x) = (λ h. tt, λ h. cc)
check-Removable (inc_dec_stmt x tok) = (λ h. tt, λ h. cc)
check-Removable _ = (λ h. cc, λ h r. r)

IsSuffix : List Node → ℕ → List Node → Type 0
IsSuffix all i rest = (j : ℕ) → get_elem? rest j ≡ get_elem? all (i + j)

IsSuffix-here :
    (all : List Node) (i : ℕ) (s : Node) (rest : List Node)
    → IsSuffix all i (s ∷ rest)
    → get_elem? all i ≡ some s
unfolding IsSuffix
IsSuffix-here all i s rest h =
    let same : i ≡ i + 0 = omega arith in ap (get_elem? all) same ∙ sym (h 0)

IsSuffix-next :
    (all : List Node) (i : ℕ) (s : Node) (rest : List Node)
    → IsSuffix all i (s ∷ rest)
    → IsSuffix all (suc i) rest
unfolding IsSuffix
IsSuffix-next all i s rest h j =
    let same : i + suc j ≡ suc i + j = omega arith in h (suc j) ∙ ap (get_elem? all) same

IsSuffix-all : (all : List Node) → IsSuffix all 0 all
unfolding IsSuffix
IsSuffix-all all j = let same : j ≡ 0 + j = omega arith in ap (get_elem? all) same

inserted :
    (stmts : List Node) (i : ℕ) (a : Node)
    → i < length stmts
    → ok (block_stmt (of_list (insert_statement stmts a (i + 1))))
      ≡ ok (block_stmt (of_list (take (suc i) stmts ++ a ∷ drop (suc i) stmts)))
inserted stmts i a h =
    rw add-one (ap (λ k. ok (block_stmt (of_list k))) (insert_statement_lem stmts a (suc i) h))

module _ (info : Info) where
  each_removed :
      (n : Node) (i : ℕ) (rest : List Node)
      → Selects Removable (Removes info n) i rest (statement_mutations info i rest)
  unfolding statement_mutations write_statement
  each_removed n i [] = nothing
  each_removed n i (s ∷ rest) = elim (Bool-cases (check_remove_statement s)) [
    | inl e ↦ rw e (selected ((check-Removable s).0 e) refl (each_removed n (suc i) rest))
    | inr e ↦ rw e (passed ((check-Removable s).1 e) (each_removed n (suc i) rest))
  ]

  -- The mutations of statement/remove belong to the statements of the list that are an assignment
  -- and no definition, an expression or an increment: one to each of them, in order. The Change of
  -- each replaces its statement, at the index where that stands, by the no-op of it, and no other.
  pub mutator_remove_statement-RemovesOne :
      (n : Node)
      → (ms : List Mutation) × (mutator_remove_statement info n ≡ ok ms)
        × Selects Removable (Removes info n) 0 (statements n) ms
  unfolding mutator_remove_statement
  mutator_remove_statement-RemovesOne n = (_, refl, each_removed n 0 (statements n))

  -- Change puts the assignment of zero directly behind the read that it belongs to.
  abbrev pub ZeroesOne : List Node → ℕ → Node → Mutation → Type 0
  ZeroesOne stmts i s mu =
      (zeroed : Node) × Zeroes info s zeroed
      × ((l : Nodes)
          → call mu.change (block_stmt l)
            ≡ ok (block_stmt (of_list (take (suc i) stmts ++ zeroed ∷ drop (suc i) stmts))))

  -- Whether there is an assignment of zero for a statement.
  abbrev pub Reads : Node → Type 0
  Reads s = (zeroed : Node) × Zeroes info s zeroed

  elem-lt-length :
      (stmts : List Node) (i : ℕ) {s : Node} → get_elem? stmts i ≡ some s → i < length stmts
  elem-lt-length [] i h = cc
  elem-lt-length (x ∷ xs) zero h = omega arith
  elem-lt-length (x ∷ xs) (suc i) h = omega (arith, elem-lt-length xs i h)

  add_mutant-ZeroesOne :
      (stmts : List Node) (i : ℕ) (s : Node) {rest : List Node} (found : Option Node)
      (more : List Mutation)
      → get_elem? stmts i ≡ some s
      → IsZeroOf (Zeroes info s) found
      → Selects Reads (ZeroesOne stmts) (suc i) rest more
      → Selects Reads (ZeroesOne stmts) i (s ∷ rest) (add_mutant stmts i found more)
  unfolding add_mutant
  add_mutant-ZeroesOne stmts i s none more at_i (not_zeroed never) h =
      passed (λ (z, w). never z w) h
  add_mutant-ZeroesOne stmts i s (some a) more at_i (zeroed w) h =
      selected (a, w) (a, w, λ l. inserted stmts i a (elem-lt-length stmts i at_i)) h

  each_zeroed :
      (stmts : List Node) (i : ℕ) (rest : List Node)
      → IsSuffix stmts i rest
      → Selects Reads (ZeroesOne stmts) i rest (read_zero_mutations info stmts i rest)
  unfolding read_zero_mutations
  each_zeroed stmts i [] h = nothing
  each_zeroed stmts i (s ∷ rest) h =
      add_mutant-ZeroesOne stmts i s (create_read_zero_assignment info s) _
        (IsSuffix-here stmts i s rest h) (read_zero_assignment-IsZeroOf info s)
        (each_zeroed stmts (suc i) rest (IsSuffix-next stmts i s rest h))

  -- The mutations of distributed/readzero belong to the statements of the block that assign from a
  -- call of a selector named read to an identifier whose type is not error: one to each of them, in
  -- order. Its mutant is the block with the assignment of zero to the first such identifier directly
  -- behind the statement.
  pub mutator_read_zero-ZeroesOne :
      (l : Nodes)
      → (ms : List Mutation) × (mutator_read_zero info (block_stmt l) ≡ ok ms)
        × Selects Reads (ZeroesOne (to_list l)) 0 (to_list l) ms
  unfolding mutator_read_zero
  mutator_read_zero-ZeroesOne l = (_, refl, each_zeroed (to_list l) 0 (to_list l) (IsSuffix-all _))
