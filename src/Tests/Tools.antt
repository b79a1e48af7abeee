-- ===== src/Tests/Tools.antt =====
-- The roles of nodes and the replacement of network calls, at concrete data.
use mutation_framework.Base.{
  Bool, true, false, List, [], ◌∷◌, none, some, Option, ok, panic, ◌≡◌, refl, ◌⊎◌,
}
use mutation_framework.Base.Text.{codes}
use mutation_framework.Ast.{Node, nil, ident, selector_expr, call_expr, expr_stmt}
use mutation_framework.Ast.Info.{Info, Object, other_type}
use mutation_framework.Runner.{pos}
use mutation_framework.Roles.{NodeRole}
use mutation_framework.Astutil.Network.{NetConn, replace_communication_node}
use mutation_framework.Astutil.Network.Laws.{replace_communication_node-unchanged}
use mutation_framework.Tests.Phases.{info}

abbrev server : NodeRole
server = record {
  name = codes "server";
  addresses = record { ip = codes "10.0.0.1"; port = codes "80" } ∷ [];
  source_code =
      record { path = codes "a.go"; start_line = pos 3; end_line = pos 9 }
      ∷ record { path = codes "a.go"; start_line = pos 20; end_line = pos 22 }
      ∷ [];
}

-- net.Dial(), as an expression statement
abbrev dial : Node
dial = expr_stmt (call_expr (selector_expr (ident (some 1) (codes "net")) none (codes "Dial")) nil)

abbrev net_conn : NetConn
net_conn = record {
  net_type = codes "net";
  sender_functions = record { name = codes "Dial"; args = 2; returns = 2 } ∷ [];
  receiving_functions = [];
  connection_functions = [];
}

abbrev net : Object
net = record {
  is_var = false;
  type_string = [];
  underlying = other_type 0;
  type_is_untyped_nil = false;
  name = codes "net";
  object_string = [];
}

-- The objects are told apart by being nil.
abbrev same_object : Option Object → Option Object → Bool
same_object none none = true
same_object (some a) (some b) = true
same_object _ _ = false

abbrev net_info : Info
net_info = record info { uses = λ r. some net }

abbrev database : List (Option Object × NetConn)
database = (some net, net_conn) ∷ (none, record net_conn { net_type = codes "rpc" }) ∷ []

replace_communication_node-unchanged_example :
    (replace_communication_node same_object (some database) net_info dial ≡ panic)
    ⊎ (replace_communication_node same_object (some database) net_info dial ≡ ok dial)
replace_communication_node-unchanged_example =
    replace_communication_node-unchanged same_object (some database) net_info dial

-- The other library has a function of the same signature, and still nothing is replaced.
not_replaced : replace_communication_node same_object (some database) net_info dial ≡ ok dial
unfolding replace_communication_node
not_replaced = refl
