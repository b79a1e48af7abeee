-- ===== src/Ast.antt =====
-- The part of go/ast, go/token and go/types that the mutators read and write. A file is a tree of
-- nodes: the parser gives each node one parent, so a node that a closure points to is the node at
-- one place of the tree. Positions and comments are left out.
pub mod Children
pub mod Walk
pub mod Info
use mutation_framework.Base.{List, [], ◌∷◌, ℕ, Option, none, some, ◌≡◌, refl, ap}
use mutation_framework.Base.Text.{Text}

-- token.Token, as far as it is tested
pub data Token : Type 0 where
  land lor neq eql assign define int_lit : Token
  other_token : ℕ → Token

-- An identifier carries the pointer under which types.Info knows it; the nodes that a mutator
-- makes have none. `nil_node` is a nil ast.Node. `other` is a node of any kind that the mutators
-- do not look at, with its children in the order in which ast.Walk takes them.
mutual
  pub data Node : Type 0 where
    nil_node : Node
    ident : Option ℕ → Text → Node
    basic_lit : Token → Text → Node
    composite_lit : Node → Nodes → Node
    selector_expr : Node → Option ℕ → Text → Node
    call_expr : Node → Nodes → Node
    binary_expr : Node → Token → Node → Node
    block_stmt : Nodes → Node
    case_clause : Nodes → Nodes → Node
    if_stmt : Node → Node → Nodes → Node → Node
    assign_stmt : Nodes → Token → Nodes → Node
    expr_stmt : Node → Node
    inc_dec_stmt : Node → Token → Node
    empty_stmt : Node
    func_decl : Nodes → Node
    other : ℕ → Nodes → Node

  -- A slice of nodes.
  pub data Nodes : Type 0 where
    nil : Nodes
    cons : Node → Nodes → Nodes

unfoldable pub to_list : Nodes → List Node
to_list nil = []
to_list (cons n ns) = n ∷ to_list ns

unfoldable pub of_list : List Node → Nodes
of_list [] = nil
of_list (n ∷ ns) = cons n (of_list ns)

pub of_list-to_list : (ns : Nodes) → of_list (to_list ns) ≡ ns
unfolding to_list of_list
of_list-to_list nil = refl
of_list-to_list (cons n ns) = ap (cons n) (of_list-to_list ns)

pub to_list-of_list : (ns : List Node) → to_list (of_list ns) ≡ ns
unfolding to_list of_list
to_list-of_list [] = refl
to_list-of_list (n ∷ ns) = ap (λ ms. n ∷ ms) (to_list-of_list ns)

-- ast.NewIdent
abbrev pub new_ident : Text → Node
new_ident name = ident none name
