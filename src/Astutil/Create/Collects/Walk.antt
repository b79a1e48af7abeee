-- ===== src/Astutil/Create/Collects/Walk.antt =====
-- That IdentifiersInStatement and the loop of CreateNoopOfStatements collect what is described.
use mutation_framework.Base.{
  ℕ, Bool, true, false, List, [], ◌∷◌, ◌++◌, Option, none, some, ◌≡◌, refl, ap, sym, ◌∙◌, ◌⊎◌, inl,
  subst, inr, Bool-cases, append-nil, append_assoc, if◌then◌else◌,
}
use mutation_framework.Base.Text.{Text, text_eq}
use mutation_framework.Ast.{
  Node, Nodes, nil_node, ident, basic_lit, composite_lit, selector_expr, call_expr, binary_expr,
  block_stmt, case_clause, if_stmt, assign_stmt, expr_stmt, inc_dec_stmt, empty_stmt, func_decl,
  other, nil, cons, to_list,
}
use mutation_framework.Ast.Children.{children}
use mutation_framework.Ast.Walk.{walk, walk_list}
use mutation_framework.Ast.Info.{Info, Object, Underlying, other_type, uses_of}
use mutation_framework.Astutil.Query.{
  identifiers_in_statement, identifier_walker, visit_identifier, is_variable_name, is_not_variable,
  needs_literal, initialize, check_for_selector_expr, blank, is_keyword,
}
use mutation_framework.Astutil.Create.{identifiers_in_statements}
use mutation_framework.Astutil.Create.Collects.{
  IsVariable, IsPath, IsComposite, IsInstantiated, IsInner, Collects, variable, no_variable, field,
  literal, no_path, inner, CollectsAll, no_nodes, next,
}

-- What a walk adds to the expressions so far.
data Adds (s : List Node) (P : List Node → Type 0) (t : List Node) : Type 0 where
  adds : (ids : List Node) → P ids → t ≡ s ++ ids → Adds s P t

module _ (info : Info) where
  Adds-nothing : (s : List Node) → Adds s (CollectsAll info []) s
  Adds-nothing s = adds [] no_nodes (sym (append-nil s))

  Adds-next :
      {s t u : List Node} {n : Node} {ns : List Node}
      → Adds s (Collects info n) t
      → Adds t (CollectsAll info ns) u
      → Adds s (CollectsAll info (n ∷ ns)) u
  Adds-next {s} {t} {u} {n} {ns} (adds ids c e) (adds more d f) =
      adds (ids ++ more) (next n ns ids more c d)
        (f ∙ ap (λ l. l ++ more) e ∙ append_assoc s ids more)

  CollectsAll-append :
      {ms ns ids more : List Node}
      → CollectsAll info ms ids
      → CollectsAll info ns more
      → CollectsAll info (ms ++ ns) (ids ++ more)
  CollectsAll-append no_nodes d = d
  CollectsAll-append {ns = ns} {more = more} (next n ms ids rest c cs) d =
      subst (CollectsAll info (n ∷ (ms ++ ns))) (sym (append_assoc ids rest more))
        (next n (ms ++ ns) ids (rest ++ more) c (CollectsAll-append cs d))

  Adds-append :
      {s t u ms ns : List Node}
      → Adds s (CollectsAll info ms) t
      → Adds t (CollectsAll info ns) u
      → Adds s (CollectsAll info (ms ++ ns)) u
  Adds-append {s = s} (adds ids c e) (adds more d f) =
      adds (ids ++ more) (CollectsAll-append c d)
        (f ∙ ap (λ l. l ++ more) e ∙ append_assoc s ids more)

  Adds-inner :
      {s t : List Node} (n : Node)
      → IsInner n
      → Adds s (CollectsAll info (children n)) t
      → Adds s (Collects info n) t
  Adds-inner n is (adds ids c e) = adds ids (inner n ids is c) e

  same_object : {a b : Object} → some a ≡ some b → a ≡ b
  same_object e = cc

  is_var : (b : Bool) → (if b then false else true) ≡ false → b ≡ true
  is_var true h = refl
  is_var false h = cc

  no_var : (b : Bool) → (if b then false else true) ≡ true → ¬ (b ≡ true)
  no_var true h e = cc
  no_var false h e = cc

  not_variable :
      (o : Option Object)
      → (is_not_variable o ≡ false → (obj : Object) → o ≡ some obj → obj.is_var ≡ true)
        × (is_not_variable o ≡ true → ((obj : Object) → o ≡ some obj → obj.is_var ≡ true) → ⊥)
  not_variable none = (λ h obj e. cc, λ h k. cc)
  not_variable (some obj) = (
    λ h obj' e. sym (ap (λ o. o.is_var) (same_object e)) ∙ is_var (obj.is_var) h,
    λ h k. no_var (obj.is_var) h (k obj refl),
  )

  IsVariable-cases :
      (r : Option ℕ) (name : Text)
      → (is_variable_name info r name ≡ true) × IsVariable info r name
        ⊎ (is_variable_name info r name ≡ false) × ¬ (IsVariable info r name)
  unfolding is_variable_name
  IsVariable-cases r name = elim (Bool-cases (text_eq name blank)) [
    | inl a ↦ inr (rw a refl, λ (b, c, d). cc)
    | inr a ↦ rw a (elim (Bool-cases (is_keyword name)) [
      | inl b ↦ inr (rw b refl, λ (c, d, e). cc)
      | inr b ↦ rw b (elim (Bool-cases (is_not_variable (uses_of info r))) [
        | inl c ↦ inr (rw c refl, λ (d, e, f). (not_variable (uses_of info r)).1 c f)
        | inr c ↦ inl (rw c refl, (refl, refl, (not_variable (uses_of info r)).0 c))
      ])
    ])
  ]

  IsPath-cases :
      (x : Node)
      → (check_for_selector_expr x ≡ true) × IsPath x
        ⊎ (check_for_selector_expr x ≡ false) × ¬ (IsPath x)
  unfolding check_for_selector_expr
  IsPath-cases (ident r name) = inl (refl, tt)
  IsPath-cases (selector_expr x r name) = IsPath-cases x
  IsPath-cases _ = inr (refl, λ h. h)

  IsComposite-cases :
      (u : Underlying)
      → (needs_literal u ≡ true) × IsComposite u ⊎ (needs_literal u ≡ false) × ¬ (IsComposite u)
  IsComposite-cases (other_type k) = inr (refl, λ h. h)
  IsComposite-cases _ = inl (refl, tt)

  IsInstantiated-cases :
      (sel : Option ℕ)
      → (initialize info sel ≡ true) × IsInstantiated info sel
        ⊎ (initialize info sel ≡ false) × ¬ (IsInstantiated info sel)
  unfolding initialize
  IsInstantiated-cases sel = go (uses_of info sel) refl
    where
      go :
          (o : Option Object)
          → uses_of info sel ≡ o
          → (elim o [ none ↦ false | some obj ↦ needs_literal obj.underlying ] ≡ true)
              × IsInstantiated info sel
            ⊎ (elim o [ none ↦ false | some obj ↦ needs_literal obj.underlying ] ≡ false)
              × ¬ (IsInstantiated info sel)
      go none e = inr (refl, λ (obj, f, c). cc)
      go (some obj) e = elim (IsComposite-cases obj.underlying) [
        | inl (t, c) ↦ inl (t, (obj, e, c))
        | inr (t, c) ↦ inr (
          t,
          λ (obj', f, d).
              c (subst (λ o. IsComposite (o.underlying)) (sym (same_object (sym e ∙ f))) d),
        )
      ]

  mutual
    unfolding walk visit_identifier children to_list

    Collects-walk :
        (s : List Node) (n : Node) → Adds s (Collects info n) (walk (identifier_walker info) s n)
    Collects-walk s nil_node = Adds-inner nil_node tt (Adds-nothing s)
    Collects-walk s (ident r name) = elim (IsVariable-cases r name) [
      | inl (e, is) ↦ rw e (adds _ (variable r name is) refl)
      | inr (e, not_is) ↦ rw e (adds [] (no_variable r name not_is) (sym (append-nil s)))
    ]
    Collects-walk s (basic_lit k x) = Adds-inner (basic_lit k x) tt (Adds-nothing s)
    Collects-walk s (composite_lit t es) =
        Adds-inner (composite_lit t es) tt (Adds-next (Collects-walk s t) (Collects-walk_list _ es))
    Collects-walk s (selector_expr x sel name) = elim (IsPath-cases x) [
      | inr (e, not_is) ↦ rw e (adds [] (no_path x sel name not_is) (sym (append-nil s)))
      | inl (e, is) ↦ elim (IsInstantiated-cases sel) [
        | inl (f, at) ↦ rw (e, f) (adds _ (literal x sel name is at) refl)
        | inr (f, not_at) ↦ rw (e, f) (adds _ (field x sel name is not_at) refl)
      ]
    ]
    Collects-walk s (call_expr fun args) =
        Adds-inner (call_expr fun args) tt
          (Adds-next (Collects-walk s fun) (Collects-walk_list _ args))
    Collects-walk s (binary_expr x op y) =
        Adds-inner (binary_expr x op y) tt
          (Adds-next (Collects-walk s x) (Adds-next (Collects-walk _ y) (Adds-nothing _)))
    Collects-walk s (block_stmt l) = Adds-inner (block_stmt l) tt (Collects-walk_list s l)
    Collects-walk s (case_clause l body) =
        Adds-inner (case_clause l body) tt
          (Adds-append (Collects-walk_list s l) (Collects-walk_list _ body))
    Collects-walk s (if_stmt init cond body els) = Adds-inner (if_stmt init cond body els) tt (
        Adds-next (Collects-walk s init) (
          Adds-next (Collects-walk _ cond) (
            Adds-next (Adds-inner (block_stmt body) tt (Collects-walk_list _ body))
              (Adds-next (Collects-walk _ els) (Adds-nothing _)))))
    Collects-walk s (assign_stmt lhs tok rhs) =
        Adds-inner (assign_stmt lhs tok rhs) tt
          (Adds-append (Collects-walk_list s lhs) (Collects-walk_list _ rhs))
    Collects-walk s (expr_stmt x) =
        Adds-inner (expr_stmt x) tt (Adds-next (Collects-walk s x) (Adds-nothing _))
    Collects-walk s (inc_dec_stmt x tok) =
        Adds-inner (inc_dec_stmt x tok) tt (Adds-next (Collects-walk s x) (Adds-nothing _))
    Collects-walk s empty_stmt = Adds-inner empty_stmt tt (Adds-nothing s)
    Collects-walk s (func_decl parts) = Adds-inner (func_decl parts) tt (Collects-walk_list s parts)
    Collects-walk s (other kind parts) =
        Adds-inner (other kind parts) tt (Collects-walk_list s parts)

    Collects-walk_list :
        (s : List Node) (ns : Nodes)
        → Adds s (CollectsAll info (to_list ns)) (walk_list (identifier_walker info) s ns)
    Collects-walk_list s nil = Adds-nothing s
    Collects-walk_list s (cons n ns) = Adds-next (Collects-walk s n) (Collects-walk_list _ ns)

  statements-Adds :
      (ids stmts : List Node)
      → Adds ids (CollectsAll info stmts) (identifiers_in_statements info ids stmts)
  unfolding identifiers_in_statements identifiers_in_statement
  statements-Adds ids [] = Adds-nothing ids
  statements-Adds ids (stmt ∷ stmts) =
      go (Collects-walk [] stmt)
        (statements-Adds (ids ++ walk (identifier_walker info) [] stmt) stmts)
    where
      go :
          {t u : List Node}
          → Adds [] (Collects info stmt) t
          → Adds (ids ++ t) (CollectsAll info stmts) u
          → Adds ids (CollectsAll info (stmt ∷ stmts)) u
      go (adds more c e) rest = Adds-next (adds more c (ap (λ l. ids ++ l) e)) rest

  -- The expressions that are collected of the statements.
  pub identifiers_in_statements-CollectsAll :
      (stmts : List Node) → CollectsAll info stmts (identifiers_in_statements info [] stmts)
  identifiers_in_statements-CollectsAll stmts = go (statements-Adds [] stmts)
    where
      go : {t : List Node} → Adds [] (CollectsAll info stmts) t → CollectsAll info stmts t
      go (adds ids c e) = subst (CollectsAll info stmts) (sym e) c
