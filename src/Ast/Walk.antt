-- ===== src/Ast/Walk.antt =====
-- ast.Walk with a visitor that does not change the tree (astutil/query.go, walk.go: CountWalk,
-- PrintWalk). `enter` is Visit at a node, and tells whether the visitor that it returns is not
-- nil; `leave` is Visit(nil), which ast.Walk calls behind the children.
pub mod Invariant
use mutation_framework.Base.{ℕ, Bool, true, List, [], ◌∷◌, ◌++◌, Option, some, none}
use mutation_framework.Base.{if◌then◌else◌, ◌≡◌, ◌≢◌, refl, ◌∙◌, ap, arith}
use mutation_framework.Ast.{Node, Nodes}
use mutation_framework.Ast.{nil_node, ident, basic_lit, composite_lit, selector_expr, call_expr}
use mutation_framework.Ast.{binary_expr, block_stmt, case_clause, if_stmt, assign_stmt, expr_stmt}
use mutation_framework.Ast.{inc_dec_stmt, empty_stmt, func_decl, other, nil, cons, to_list}
use mutation_framework.Ast.Children.{children}

pub record Visitor (S : Type 0) : Type 0 where
  pub enter : S → Node → S × Bool
  pub leave : S → S

module _ {S : Type 0} (v : Visitor S) where
  abbrev pub go_on : S × Bool → (S → S) → S
  go_on (s, deeper) inner = if deeper then v.leave (inner s) else s

  abbrev pub scoped : S → Node → (S → S) → S
  scoped s n inner = go_on (v.enter s n) inner

  unfoldable mutual
    pub walk : S → Node → S
    walk s nil_node = s
    walk s (ident r x) = scoped s (ident r x) (λ t. t)
    walk s (basic_lit k x) = scoped s (basic_lit k x) (λ t. t)
    walk s (composite_lit t es) = scoped s (composite_lit t es) (λ u. walk_list (walk u t) es)
    walk s (selector_expr x r name) =
        scoped s (selector_expr x r name) (λ u. scoped (walk u x) (ident r name) (λ t. t))
    walk s (call_expr fun args) = scoped s (call_expr fun args) (λ u. walk_list (walk u fun) args)
    walk s (binary_expr x op y) = scoped s (binary_expr x op y) (λ u. walk (walk u x) y)
    walk s (block_stmt l) = scoped s (block_stmt l) (λ u. walk_list u l)
    walk s (case_clause l body) =
        scoped s (case_clause l body) (λ u. walk_list (walk_list u l) body)
    walk s (if_stmt init cond body els) =
        scoped s (if_stmt init cond body els) (λ u.
          walk (scoped (walk (walk u init) cond) (block_stmt body) (λ t. walk_list t body)) els)
    walk s (assign_stmt lhs tok rhs) =
        scoped s (assign_stmt lhs tok rhs) (λ u. walk_list (walk_list u lhs) rhs)
    walk s (expr_stmt x) = scoped s (expr_stmt x) (λ u. walk u x)
    walk s (inc_dec_stmt x tok) = scoped s (inc_dec_stmt x tok) (λ u. walk u x)
    walk s empty_stmt = scoped s empty_stmt (λ t. t)
    walk s (func_decl parts) = scoped s (func_decl parts) (λ u. walk_list u parts)
    walk s (other kind parts) = scoped s (other kind parts) (λ u. walk_list u parts)

    pub walk_list : S → Nodes → S
    walk_list s nil = s
    walk_list s (cons n ns) = walk_list (walk s n) ns

  -- The children one after the other.
  abbrev pub walk_all : S → List Node → S
  walk_all s [] = s
  walk_all s (n ∷ ns) = walk_all (walk s n) ns

  pub walk_list-to_list : (s : S) (ns : Nodes) → walk_list s ns ≡ walk_all s (to_list ns)
  unfolding walk to_list
  walk_list-to_list s nil = refl
  walk_list-to_list s (cons n ns) = walk_list-to_list (walk s n) ns

  pub walk_all-append :
      (s : S) (ms ns : List Node) → walk_all s (ms ++ ns) ≡ walk_all (walk_all s ms) ns
  walk_all-append s [] ns = refl
  walk_all-append s (m ∷ ms) ns = walk_all-append (walk s m) ms ns

  -- A visit of a node is the visitor's step, then the children in order, then the step with nil.
  pub walk_lem :
      (s : S) (n : Node) → n ≢ nil_node → walk s n ≡ scoped s n (λ u. walk_all u (children n))
  unfolding walk children
  walk_lem s nil_node h = absurd (h refl)
  walk_lem s (ident r x) h = refl
  walk_lem s (basic_lit k x) h = refl
  walk_lem s (composite_lit t es) h = simp walk_list-to_list
  walk_lem s (selector_expr x r name) h = refl
  walk_lem s (call_expr fun args) h = simp walk_list-to_list
  walk_lem s (binary_expr x op y) h = refl
  walk_lem s (block_stmt l) h = simp walk_list-to_list
  walk_lem s (case_clause l body) h = simp (walk_list-to_list, walk_all-append)
  walk_lem s (if_stmt init cond body els) h = refl
  walk_lem s (assign_stmt lhs tok rhs) h = simp (walk_list-to_list, walk_all-append)
  walk_lem s (expr_stmt x) h = refl
  walk_lem s (inc_dec_stmt x tok) h = refl
  walk_lem s empty_stmt h = refl
  walk_lem s (func_decl parts) h = simp walk_list-to_list
  walk_lem s (other kind parts) h = simp walk_list-to_list
