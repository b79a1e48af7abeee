-- ===== src/Astutil/Create/Noop.antt =====
-- What a no-op is made of (astutil/create.go).
use mutation_framework.Base.{
  ℕ, suc, zero, ◌<◌, true, false, List, [], ◌∷◌, ◌++◌, Option, none, ◌≡◌, refl, ap, sym, ◌∙◌, arith,
  ◌⊎◌, inl, inr, All, All-append, length, replicate, Bool-cases, append_assoc, append-nil,
}
use mutation_framework.Base.Text.{Text}
use mutation_framework.Ast.{
  Node, ident, composite_lit, selector_expr, assign_stmt, empty_stmt, nil, assign, new_ident,
  of_list,
}
use mutation_framework.Ast.Walk.{walk, walk_list}
use mutation_framework.Ast.Walk.Invariant.{walk_invariant}
use mutation_framework.Ast.Info.{Info}
use mutation_framework.Astutil.Query.{
  identifiers_in_statement, identifier_walker, visit_identifier, is_variable_name, initialize,
  check_for_selector_expr, blank,
}
use mutation_framework.Astutil.Create.{
  create_noop_of_statement, create_noop_of_statements, noop_of, identifiers_in_statements,
}
use mutation_framework.Astutil.Create.Collects.{CollectsAll}
use mutation_framework.Astutil.Create.Collects.Walk.{identifiers_in_statements-CollectsAll}

-- What a no-op uses: a variable, a field that is reached by selectors alone, or an empty literal
-- of the type that such selectors name. Nothing of it is a call.
pub data IsOperand (info : Info) : Node → Type 0 where
  variable :
      (name : Text) → is_variable_name info none name ≡ true → IsOperand info (ident none name)
  field :
      (x : Node) (sel : Option ℕ) (name : Text)
      → check_for_selector_expr x ≡ true
      → initialize info sel ≡ false
      → IsOperand info (selector_expr x sel name)
  literal :
      (x : Node) (sel : Option ℕ) (name : Text)
      → check_for_selector_expr x ≡ true
      → initialize info sel ≡ true
      → IsOperand info (composite_lit (selector_expr x sel name) nil)

-- A name that is collected from the file is collected again from the no-op.
is_variable_name-none :
    (info : Info) (r : Option ℕ) (name : Text)
    → is_variable_name info r name ≡ true
    → is_variable_name info none name ≡ true
unfolding is_variable_name
is_variable_name-none info r name h = ground arith

-- The empty statement, or an assignment of the expressions to as many blank identifiers.
pub IsNoop : List Node → Node → Type 0
IsNoop ids s =
    (ids ≡ []) × (s ≡ empty_stmt)
    ⊎ (0 < length ids)
      × (s ≡ assign_stmt (of_list (replicate (length ids) (new_ident blank))) assign (of_list ids))

noop_of-IsNoop : (ids : List Node) → IsNoop ids (noop_of ids)
unfolding noop_of IsNoop
noop_of-IsNoop [] = inl (refl, refl)
noop_of-IsNoop (id ∷ ids) = inr (omega arith, refl)

module _ (info : Info) where
  visit_identifier-IsOperand :
      (ids : List Node) (n : Node)
      → All (IsOperand info) ids
      → All (IsOperand info) (visit_identifier info ids n).0
  unfolding visit_identifier
  visit_identifier-IsOperand ids (ident r name) h =
      elim (Bool-cases (is_variable_name info r name)) [
        | inl e ↦ rw e (
            All-append (IsOperand info) ids _ h
              (variable name (is_variable_name-none info r name e), tt))
        | inr e ↦ rw e h
      ]
  visit_identifier-IsOperand ids (selector_expr x sel name) h =
      elim (Bool-cases (check_for_selector_expr x)) [
        | inl e ↦ rw e (
            All-append (IsOperand info) ids _ h (elim (Bool-cases (initialize info sel)) [
              | inl i ↦ rw i (literal x sel name e i, tt)
              | inr i ↦ rw i (field x sel name e i, tt)
            ]))
        | inr e ↦ rw e h
      ]
  visit_identifier-IsOperand ids _ h = h

  identifiers-IsOperand : (stmt : Node) → All (IsOperand info) (identifiers_in_statement info stmt)
  unfolding identifiers_in_statement
  identifiers-IsOperand stmt =
      walk_invariant (identifier_walker info) (All (IsOperand info)) visit_identifier-IsOperand
        (λ ids h. h) [] stmt tt

  identifiers_in_statements-IsOperand :
      (ids stmts : List Node)
      → All (IsOperand info) ids
      → All (IsOperand info) (identifiers_in_statements info ids stmts)
  unfolding identifiers_in_statements
  identifiers_in_statements-IsOperand ids [] h = h
  identifiers_in_statements-IsOperand ids (stmt ∷ stmts) h =
      identifiers_in_statements-IsOperand (ids ++ identifiers_in_statement info stmt) stmts
        (All-append (IsOperand info) ids _ h (identifiers-IsOperand stmt))

  -- A walk over an operand collects it and nothing else.
  walk-operand :
      (ids : List Node) {n : Node}
      → IsOperand info n
      → walk (identifier_walker info) ids n ≡ ids ++ n ∷ []
  unfolding walk visit_identifier
  walk-operand ids (variable name h) = rw h
  walk-operand ids (field x sel name h i) = rw (h, i)
  walk-operand ids (literal x sel name h i) = rw (h, i)

  walk_list-operands :
      (ids ns : List Node)
      → All (IsOperand info) ns
      → walk_list (identifier_walker info) ids (of_list ns) ≡ ids ++ ns
  unfolding walk of_list
  walk_list-operands ids [] h = sym (append-nil ids)
  walk_list-operands ids (n ∷ ns) (h, hs) =
      rw (walk-operand ids h)
        (walk_list-operands (ids ++ n ∷ []) ns hs ∙ append_assoc ids (n ∷ []) ns)

  walk_list-blanks :
      (ids : List Node) (k : ℕ)
      → walk_list (identifier_walker info) ids (of_list (replicate k (new_ident blank))) ≡ ids
  unfolding walk of_list visit_identifier
  walk_list-blanks ids zero = refl
  walk_list-blanks ids (suc k) = walk_list-blanks ids k

  identifiers-noop_of :
      (ids : List Node)
      → All (IsOperand info) ids
      → identifiers_in_statement info (noop_of ids) ≡ ids
  unfolding identifiers_in_statement noop_of
  identifiers-noop_of [] h = refl
  identifiers-noop_of (id ∷ ids) h =
      rw (walk_list-blanks [] (length (id ∷ ids))) (walk_list-operands [] (id ∷ ids) h)

  -- The statement that CreateNoopOfStatements makes assigns to blank identifiers, one for each, the
  -- expressions that are collected of the statements, in their order: the identifiers that are
  -- neither blank nor keywords and that are not used for anything but a variable, and the selectors
  -- of identifiers alone, as an empty literal where one is used for an array, a map, a slice or a
  -- struct; nothing inside of an identifier or of a selector is collected. Without any it is empty.
  pub create_noop_of_statements-IsNoop :
      (stmts : List Node)
      → (ids : List Node) × CollectsAll info stmts ids
        × IsNoop ids (create_noop_of_statements info stmts)
  unfolding create_noop_of_statements
  create_noop_of_statements-IsNoop stmts = (
    identifiers_in_statements info [] stmts,
    identifiers_in_statements-CollectsAll info stmts,
    noop_of-IsNoop (identifiers_in_statements info [] stmts),
  )

  -- The no-op of a no-op is the same statement.
  pub create_noop_of_statement_idem :
      (stmts : List Node)
      → let noop = create_noop_of_statements info stmts in create_noop_of_statement info noop ≡ noop
  unfolding create_noop_of_statement
  create_noop_of_statement_idem stmts =
      ap noop_of (identifiers-noop_of _ (identifiers_in_statements-IsOperand [] stmts tt))
