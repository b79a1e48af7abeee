-- ===== src/Ast/Children.antt =====
-- The children of a node, in the order in which ast.Walk visits them, the node with other
-- children put in their places, and the height of a tree.
use mutation_framework.Base.{ℕ, suc, max, ◌≤◌, List, [], ◌∷◌, ◌++◌, ◌≡◌, refl, arith}
use mutation_framework.Base.{length, take, drop, All, All-append, Option}
use mutation_framework.Base.{take-length_append, drop-length_append}
use mutation_framework.Base.Text.{Text}
use mutation_framework.Ast.{Node, Nodes}
use mutation_framework.Ast.{nil_node, ident, basic_lit, composite_lit, selector_expr, call_expr}
use mutation_framework.Ast.{binary_expr, block_stmt, case_clause, if_stmt, assign_stmt, expr_stmt}
use mutation_framework.Ast.{inc_dec_stmt, empty_stmt, func_decl, other, nil, cons}
use mutation_framework.Ast.{to_list, of_list, of_list-to_list}

unfoldable pub children : Node → List Node
unfolding to_list
children nil_node = []
children (ident r x) = []
children (basic_lit k v) = []
children (composite_lit t es) = t ∷ to_list es
children (selector_expr x r name) = x ∷ ident r name ∷ []
children (call_expr fun args) = fun ∷ to_list args
children (binary_expr x op y) = x ∷ y ∷ []
children (block_stmt l) = to_list l
children (case_clause l body) = to_list l ++ to_list body
children (if_stmt init cond body els) = init ∷ cond ∷ block_stmt body ∷ els ∷ []
children (assign_stmt lhs tok rhs) = to_list lhs ++ to_list rhs
children (expr_stmt x) = x ∷ []
children (inc_dec_stmt x tok) = x ∷ []
children empty_stmt = []
children (func_decl parts) = to_list parts
children (other kind parts) = to_list parts

-- A child that is a block takes the place of a body; no other node fits there.
abbrev set_body : Nodes → Node → Nodes
set_body old (block_stmt l) = l
set_body old _ = old

abbrev set_sel : Node → Option ℕ → Text → Node → Node
set_sel x r name (ident r' name') = selector_expr x r' name'
set_sel x r name _ = selector_expr x r name

abbrev with_if : Node → Nodes → List Node → Node
with_if old body (init ∷ cond ∷ block ∷ els ∷ []) = if_stmt init cond (set_body body block) els
with_if old body _ = old

-- The node with other children.
unfoldable pub with_children : Node → List Node → Node
unfolding to_list of_list
with_children (composite_lit t es) (t' ∷ cs) = composite_lit t' (of_list cs)
with_children (selector_expr x r name) (x' ∷ sel ∷ []) = set_sel x' r name sel
with_children (call_expr fun args) (fun' ∷ cs) = call_expr fun' (of_list cs)
with_children (binary_expr x op y) (x' ∷ y' ∷ []) = binary_expr x' op y'
with_children (block_stmt l) cs = block_stmt (of_list cs)
with_children (case_clause l body) cs =
    let n = length (to_list l) in case_clause (of_list (take n cs)) (of_list (drop n cs))
with_children (if_stmt init cond body els) cs = with_if (if_stmt init cond body els) body cs
with_children (assign_stmt lhs tok rhs) cs =
    let n = length (to_list lhs) in assign_stmt (of_list (take n cs)) tok (of_list (drop n cs))
with_children (expr_stmt x) (x' ∷ []) = expr_stmt x'
with_children (inc_dec_stmt x tok) (x' ∷ []) = inc_dec_stmt x' tok
with_children (func_decl parts) cs = func_decl (of_list cs)
with_children (other kind parts) cs = other kind (of_list cs)
with_children n _ = n

-- A node with its own children is the node itself.
pub with_children-children : (n : Node) → with_children n (children n) ≡ n
unfolding with_children children
with_children-children nil_node = refl
with_children-children (ident r x) = refl
with_children-children (basic_lit k v) = refl
with_children-children (composite_lit t es) = rw of_list-to_list
with_children-children (selector_expr x r name) = refl
with_children-children (call_expr fun args) = rw of_list-to_list
with_children-children (binary_expr x op y) = refl
with_children-children (block_stmt l) = rw of_list-to_list
with_children-children (case_clause l body) =
    simp (take-length_append, drop-length_append, of_list-to_list)
with_children-children (if_stmt init cond body els) = refl
with_children-children (assign_stmt lhs tok rhs) =
    simp (take-length_append, drop-length_append, of_list-to_list)
with_children-children (expr_stmt x) = refl
with_children-children (inc_dec_stmt x tok) = refl
with_children-children empty_stmt = refl
with_children-children (func_decl parts) = rw of_list-to_list
with_children-children (other kind parts) = rw of_list-to_list

-- The height of a tree bounds the depth of a walk.
unfoldable mutual
  pub height : Node → ℕ
  height nil_node = 1
  height (ident r x) = 1
  height (basic_lit k v) = 1
  height (composite_lit t es) = suc (max (height t) (height_nodes es))
  height (selector_expr x r name) = suc (max (height x) 1)
  height (call_expr fun args) = suc (max (height fun) (height_nodes args))
  height (binary_expr x op y) = suc (max (height x) (height y))
  height (block_stmt l) = suc (height_nodes l)
  height (case_clause l body) = suc (max (height_nodes l) (height_nodes body))
  height (if_stmt init cond body els) =
      suc (max (max (height init) (height cond)) (max (suc (height_nodes body)) (height els)))
  height (assign_stmt lhs tok rhs) = suc (max (height_nodes lhs) (height_nodes rhs))
  height (expr_stmt x) = suc (height x)
  height (inc_dec_stmt x tok) = suc (height x)
  height empty_stmt = 1
  height (func_decl parts) = suc (height_nodes parts)
  height (other kind parts) = suc (height_nodes parts)

  pub height_nodes : Nodes → ℕ
  height_nodes nil = 0
  height_nodes (cons n ns) = max (height n) (height_nodes ns)

abbrev pub Below : ℕ → Node → Type 0
Below h c = height c ≤ h

to_list-Below : (ns : Nodes) (h : ℕ) → height_nodes ns ≤ h → All (Below h) (to_list ns)
unfolding to_list height
to_list-Below nil h le = tt
to_list-Below (cons n ns) h le = (omega arith, to_list-Below ns h (omega arith))

-- Every child is lower than its node.
pub children-Below : (n : Node) (h : ℕ) → height n ≤ suc h → All (Below h) (children n)
unfolding children height
children-Below nil_node h le = tt
children-Below (ident r x) h le = tt
children-Below (basic_lit k v) h le = tt
children-Below (composite_lit t es) h le = (omega arith, to_list-Below es h (omega arith))
children-Below (selector_expr x r name) h le = (omega arith, (omega arith, tt))
children-Below (call_expr fun args) h le = (omega arith, to_list-Below args h (omega arith))
children-Below (binary_expr x op y) h le = (omega arith, (omega arith, tt))
children-Below (block_stmt l) h le = to_list-Below l h (omega arith)
children-Below (case_clause l body) h le =
    All-append (Below h) (to_list l) (to_list body) (to_list-Below l h (omega arith))
      (to_list-Below body h (omega arith))
children-Below (if_stmt init cond body els) h le =
    (omega arith, (omega arith, (omega arith, (omega arith, tt))))
children-Below (assign_stmt lhs tok rhs) h le =
    All-append (Below h) (to_list lhs) (to_list rhs) (to_list-Below lhs h (omega arith))
      (to_list-Below rhs h (omega arith))
children-Below (expr_stmt x) h le = (omega arith, tt)
children-Below (inc_dec_stmt x tok) h le = (omega arith, tt)
children-Below empty_stmt h le = tt
children-Below (func_decl parts) h le = to_list-Below parts h (omega arith)
children-Below (other kind parts) h le = to_list-Below parts h (omega arith)
