-- ===== src/Astutil/Network.antt =====
-- The replacement of network calls (astutil/locate.go, from IsSendingMessageNode on). What the
-- third-party package capture finds out about the libraries of a program is a parameter: the
-- database. A loop over it meets the entries in the order of the list.
pub mod Laws
use mutation_framework.Base.{
  ℕ, Bool, true, false, not, ◌&&◌, ◌||◌, List, [], ◌∷◌, ◌++◌, Option, none, some, ◌==◌,
  if◌then◌else◌, Result, ok, panic, ◌>>=◌,
}
use mutation_framework.Base.Text.{Text, text_eq}
use mutation_framework.Ast.{
  Node, Nodes, nil, cons, ident, selector_expr, call_expr, expr_stmt, assign_stmt, new_ident,
}
use mutation_framework.Ast.Info.{Object, Implicit, Definition, Info, uses_of}

-- capture.NetFunc; what `==` compares of the arguments and the results is coded by numbers.
pub record NetFunc : Type 0 where
  pub name : Text
  pub args : ℕ
  pub returns : ℕ

-- capture.NetConn
pub record NetConn : Type 0 where
  pub net_type : Text
  pub sender_functions : List NetFunc
  pub receiving_functions : List NetFunc
  pub connection_functions : List NetFunc

pub data CallType : Type 0 where
  send receive both neither : CallType

abbrev is_empty : {A : Type 0} → List A → Bool
is_empty [] = true
is_empty (x ∷ xs) = false

-- IsSendingMessageNode: whether it returns nil. A nil map is empty.
abbrev pub is_sending_message_node : {A : Type 0} → Option (List A) → Bool
is_sending_message_node none = false
is_sending_message_node (some database) = not (true || is_empty database)

abbrev call_of : Node → Option (Node × Nodes)
call_of (call_expr fun args) = some (fun, args)
call_of _ = none

abbrev first_call : Nodes → Result (Option (Node × Nodes))
first_call nil = panic
first_call (cons n ns) = ok (call_of n)

-- getCallExpressionFromNode: the function and the arguments of the call.
unfoldable pub get_call_expression_from_node : Node → Result (Option (Node × Nodes))
get_call_expression_from_node (expr_stmt x) = ok (call_of x)
get_call_expression_from_node (assign_stmt lhs tok rhs) = first_call rhs
get_call_expression_from_node _ = ok none

unfoldable pub contains : Text → List NetFunc → Bool
unfolding text_eq
contains name [] = false
contains name (f ∷ funcs) = text_eq f.name name || contains name funcs

unfoldable pub get_call_type : Text → NetConn → CallType
unfolding contains
get_call_type name conn =
    if contains name conn.sender_functions
    then send
    else if contains name conn.receiving_functions
    then receive
    else if contains name conn.connection_functions
    then both
    else neither

unfoldable pub get_original_call : Text → List NetFunc → Option NetFunc
unfolding text_eq
get_original_call name [] = none
get_original_call name (f ∷ funcs) =
    if text_eq f.name name then some f else get_original_call name funcs

-- The loop of getReplacementCall; `none` is the error.
abbrev pub same_signature : NetFunc → List NetFunc → Option NetFunc
same_signature original [] = none
same_signature original (f ∷ funcs) =
    if original.args == f.args && original.returns == f.returns
    then some f
    else same_signature original funcs

-- getReplacementCall; a nil original panics.
unfoldable pub get_replacement_call : Option NetFunc → List NetFunc → Result (Option NetFunc)
get_replacement_call none candidates = panic
get_replacement_call (some original) candidates = ok (same_signature original candidates)

abbrev pub functions_of : CallType → NetConn → Option (List NetFunc)
functions_of send conn = some conn.sender_functions
functions_of receive conn = some conn.receiving_functions
functions_of both conn = some conn.connection_functions
functions_of neither conn = none

-- The variables of the loop: the function, the library, whether err is an error.
pub record Replacement : Type 0 where
  pub function : Option NetFunc
  pub library : Option NetConn
  pub is_error : Bool

abbrev pub is_none : {A : Type 0} → Option A → Bool
is_none none = true
is_none (some _) = false

abbrev pub replaced : NetConn → Option NetFunc → Replacement
replaced library found = record {
  function = found;
  library = some library;
  is_error = is_none found;
}

-- The switch on the type of the original call.
abbrev pub try_library :
    Text
    → NetConn
    → Option (List NetFunc)
    → Option (List NetFunc)
    → Replacement
    → Result Replacement
try_library name library (some originals) (some candidates) state = do
  found ← get_replacement_call (get_original_call name originals) candidates
  ok (replaced library found)
try_library name library _ _ state = ok (record state { library = some library })

module _ {K : Type 0} (same : K → K → Bool) where
  unfoldable pub find_conn : K → List (K × NetConn) → Option NetConn
  find_conn key [] = none
  find_conn key ((k, conn) ∷ rest) = if same k key then some conn else find_conn key rest

  -- The loop over the database.
  unfoldable pub try_libraries :
      K → Text → CallType → NetConn → List (K × NetConn) → Replacement → Result Replacement
  unfolding get_replacement_call get_original_call
  try_libraries lib name call_type original [] state = ok state
  try_libraries lib name call_type original ((key, conn) ∷ rest) state =
      if same lib key
      then try_libraries lib name call_type original rest state
      else (try_library name conn (functions_of call_type original) (functions_of call_type conn)
            state
          >>= λ state'. try_libraries lib name call_type original rest state')

  -- The test at the end: the function and the library come with an error only, which is dropped.
  abbrev pub answer : Replacement → Option NetFunc × Option NetConn × Bool
  answer state =
      if state.is_error then (state.function, state.library, false) else (none, none, false)

  abbrev pub find_from_conn :
      K
      → Text
      → List (K × NetConn)
      → Option NetConn
      → Result (Option NetFunc × Option NetConn × Bool)
  find_from_conn lib name database none = panic
  find_from_conn lib name database (some original) = do
    state ←
        try_libraries lib name (get_call_type name original) original database
          (record { function = none; library = none; is_error = false })
    ok (answer state)

  -- findSubstitutableNetworkCall: the function, the library, whether there is an error.
  unfoldable pub find_substitutable_network_call :
      Option (List (K × NetConn)) → K → Text → Result (Option NetFunc × Option NetConn × Bool)
  unfolding try_libraries get_call_type find_conn
  find_substitutable_network_call none lib name = ok (none, none, true)
  find_substitutable_network_call (some database) lib name =
      find_from_conn lib name database (find_conn lib database)

-- The Implicits of import specs under the name.
unfoldable pub find_implicit : ℕ → List Implicit → Option Object
find_implicit identifier [] = none
find_implicit identifier (entry ∷ entries) = elim entry.import_name [
  | none ↦ find_implicit identifier entries
  | some n ↦ if n == identifier then some entry.object else find_implicit identifier entries
]

unfoldable pub find_definition : ℕ → List Definition → Option Object
find_definition identifier [] = none
find_definition identifier (entry ∷ entries) =
    if entry.identifier == identifier then entry.object else find_definition identifier entries

abbrev first_of : Option Object → Option Object → Option Object
first_of none other = other
first_of (some object) other = some object

-- getImportObject; an identifier that a mutator made is in no map.
unfoldable pub get_import_object : Option ℕ → Info → Option Object
unfolding find_implicit find_definition
get_import_object none info = none
get_import_object (some r) info =
    first_of (find_implicit r info.implicits) (first_of (find_definition r info.defs) (info.uses r))

-- The call with another function.
abbrev with_function : Node → Node → Node
with_function (expr_stmt (call_expr _ args)) fun = expr_stmt (call_expr fun args)
with_function (assign_stmt lhs tok (cons (call_expr _ args) rest)) fun =
    assign_stmt lhs tok (cons (call_expr fun args) rest)
with_function n fun = n

module _ (same : Option Object → Option Object → Bool) where
  -- newLib.NetType and newCall.Name, where a nil pointer panics.
  abbrev pub new_function : Option NetFunc → Option NetConn → Result Node
  new_function (some call) (some lib) = ok (selector_expr (new_ident lib.net_type) none call.name)
  new_function _ _ = panic

  abbrev pub with_substitute : Node → Option NetFunc × Option NetConn × Bool → Result Node
  with_substitute n (call, lib, false) = ok n
  with_substitute n (call, lib, true) = do fun ← new_function call lib; ok (with_function n fun)

  -- netConn.SenderFunctions of a nil pointer panics.
  abbrev pub at_conn :
      Option (List (Option Object × NetConn))
      → Node
      → Option Object
      → Text
      → Option NetConn
      → Result Node
  at_conn database n lib name none = panic
  at_conn database n lib name (some conn) = do
    substitute ← find_substitutable_network_call same database lib name
    with_substitute n substitute

  abbrev pub conn_of : Option (List (Option Object × NetConn)) → Option Object → Option NetConn
  conn_of none lib = none
  conn_of (some database) lib = find_conn same lib database

  abbrev pub at_call :
      Option (List (Option Object × NetConn)) → Info → Node → Option (Node × Nodes) → Result Node
  at_call database info n (some (selector_expr (ident r pkg) r' name, args)) =
      at_conn database n (get_import_object r info) name
        (conn_of database (get_import_object r info))
  at_call database info n _ = ok n

  -- replaceCommunicationNode: the node as it leaves it.
  unfoldable pub replace_communication_node :
      Option (List (Option Object × NetConn)) → Info → Node → Result Node
  unfolding get_call_expression_from_node find_substitutable_network_call get_import_object
      find_conn
  replace_communication_node database info n =
      get_call_expression_from_node n >>= at_call database info n
