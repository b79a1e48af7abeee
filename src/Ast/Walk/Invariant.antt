-- ===== src/Ast/Walk/Invariant.antt =====
-- What a visitor keeps at every visit, the walk keeps.
use mutation_framework.Base.{if-elim}
use mutation_framework.Ast.{
  Node, Nodes, nil_node, ident, basic_lit, composite_lit, selector_expr, call_expr, binary_expr,
  block_stmt, case_clause, if_stmt, assign_stmt, expr_stmt, inc_dec_stmt, empty_stmt, func_decl,
  other, nil, cons,
}
use mutation_framework.Ast.Walk.{Visitor, walk, walk_list, scoped}

module _ {S : Type 0} (v : Visitor S) (P : S → Type 0)
    (enter-P : (s : S) (n : Node) → P s → P (v.enter s n).0)
    (leave-P : (s : S) → P s → P (v.leave s)) where
  scoped-P :
      (s : S) (n : Node) (inner : S → S)
      → ((t : S) → P t → P (inner t))
      → P s
      → P (scoped v s n inner)
  scoped-P s n inner keeps h =
      if-elim P (v.enter s n).1 (leave-P _ (keeps _ (enter-P s n h))) (enter-P s n h)

  mutual
    unfolding walk

    pub walk-P : (s : S) (n : Node) → P s → P (walk v s n)
    walk-P s nil_node h = h
    walk-P s (ident r x) h = scoped-P s _ _ (λ t k. k) h
    walk-P s (basic_lit k x) h = scoped-P s _ _ (λ t k. k) h
    walk-P s (composite_lit t es) h = scoped-P s _ _ (λ u k. walk_list-P _ es (walk-P u t k)) h
    walk-P s (selector_expr x r name) h =
        scoped-P s _ _ (λ u k. scoped-P _ (ident r name) _ (λ t k. k) (walk-P u x k)) h
    walk-P s (call_expr fun args) h = scoped-P s _ _ (λ u k. walk_list-P _ args (walk-P u fun k)) h
    walk-P s (binary_expr x op y) h = scoped-P s _ _ (λ u k. walk-P _ y (walk-P u x k)) h
    walk-P s (block_stmt l) h = scoped-P s _ _ (λ u k. walk_list-P u l k) h
    walk-P s (case_clause l body) h =
        scoped-P s _ _ (λ u k. walk_list-P _ body (walk_list-P u l k)) h
    walk-P s (if_stmt init cond body els) h =
        scoped-P s _ _
          (λ u k. walk-P _ els (
            scoped-P _ (block_stmt body) _ (λ t k. walk_list-P t body k)
              (walk-P _ cond (walk-P u init k))))
          h
    walk-P s (assign_stmt lhs tok rhs) h =
        scoped-P s _ _ (λ u k. walk_list-P _ rhs (walk_list-P u lhs k)) h
    walk-P s (expr_stmt x) h = scoped-P s _ _ (λ u k. walk-P u x k) h
    walk-P s (inc_dec_stmt x tok) h = scoped-P s _ _ (λ u k. walk-P u x k) h
    walk-P s empty_stmt h = scoped-P s _ _ (λ t k. k) h
    walk-P s (func_decl parts) h = scoped-P s _ _ (λ u k. walk_list-P u parts k) h
    walk-P s (other kind parts) h = scoped-P s _ _ (λ u k. walk_list-P u parts k) h

    walk_list-P : (s : S) (ns : Nodes) → P s → P (walk_list v s ns)
    walk_list-P s nil h = h
    walk_list-P s (cons n ns) h = walk_list-P _ ns (walk-P s n h)

  pub walk_invariant : (s : S) (n : Node) → P s → P (walk v s n)
  walk_invariant s n h = walk-P s n h
