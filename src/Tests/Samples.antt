-- ===== src/Tests/Samples.antt =====
-- A small file, what the type checker says of it, and the operators at it.
use mutation_framework.Base.{true, false, [], none, some, if◌then◌else◌, ◌==◌}
use mutation_framework.Base.Text.{Text, codes}
use mutation_framework.Ast.{
  Node, Nodes, ident, selector_expr, call_expr, binary_expr, block_stmt, if_stmt, assign_stmt,
  expr_stmt, func_decl, other, nil_node, nil, cons, neq, assign,
}
use mutation_framework.Ast.Info.{Info, Object, other_type}

abbrev pub variable_of : Text → Object
variable_of type = record {
  is_var = true;
  type_string = type;
  underlying = other_type 0;
  type_is_untyped_nil = false;
  name = codes "x";
  object_string = codes "var x";
}

abbrev pub nil_object : Object
nil_object = record {
  is_var = false;
  type_string = codes "untyped nil";
  underlying = other_type 1;
  type_is_untyped_nil = true;
  name = codes "nil";
  object_string = codes "nil";
}

-- Identifier 1 is an error, 2 is nil, 3 is an int.
abbrev pub info : Info
info = record {
  uses = λ r.
      if r == 1
      then some (variable_of (codes "error"))
      else if r == 2
      then some nil_object
      else if r == 3
      then some (variable_of (codes "int"))
      else none;
  defs = [];
  implicits = [];
}

abbrev pub err : Node
err = ident (some 1) (codes "err")

abbrev pub nil_ident : Node
nil_ident = ident (some 2) (codes "nil")

abbrev pub n_ident : Node
n_ident = ident (some 3) (codes "n")

-- n, err = conn.Read(buf)
abbrev pub read_stmt : Node
read_stmt = assign_stmt (cons n_ident (cons err nil)) assign (
    cons
      (call_expr (selector_expr (ident (some 4) (codes "conn")) none (codes "Read"))
        (cons (ident (some 5) (codes "buf")) nil))
      nil)

-- log(err)
abbrev pub log_stmt : Node
log_stmt = expr_stmt (call_expr (ident none (codes "log")) (cons err nil))

-- if err != nil { log(err) }
abbrev pub handler : Node
handler = if_stmt nil_node (binary_expr err neq nil_ident) (cons log_stmt nil) nil_node

abbrev pub body : Nodes
body = cons read_stmt (cons handler nil)

-- The whole file: one function with that body.
abbrev pub file : Node
file = other 0 (cons (func_decl (cons (block_stmt body) nil)) nil)
