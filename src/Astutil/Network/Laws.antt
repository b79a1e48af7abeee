-- ===== src/Astutil/Network/Laws.antt =====
-- What the functions on network calls of astutil/locate.go come to.
use mutation_framework.Base.{
  Bool, true, false, List, [], ◌∷◌, Option, none, some, Result, ok, panic, ◌>>=◌, ◌≡◌, refl, sym,
  ◌∙◌, Bool-cases, inl, inr, ◌⊎◌,
}
use mutation_framework.Base.Text.{Text, text_eq}
use mutation_framework.Ast.{Node, Nodes, nil, cons, ident, selector_expr, expr_stmt, assign_stmt}
use mutation_framework.Ast.Info.{Object, Info}
use mutation_framework.Astutil.Network.{
  NetFunc, NetConn, CallType, contains, get_call_type, get_original_call, get_replacement_call,
  same_signature, try_library, try_libraries, Replacement, replaced, functions_of, find_conn,
  find_substitutable_network_call, get_call_expression_from_node, at_call, at_conn, conn_of,
  get_import_object, replace_communication_node, answer,
}

contains-get_original_call :
    (name : Text) (funcs : List NetFunc)
    → contains name funcs ≡ true
    → (f : NetFunc) × (get_original_call name funcs ≡ some f)
unfolding contains get_original_call
contains-get_original_call name [] h = cc
contains-get_original_call name (f ∷ funcs) h = elim (Bool-cases (text_eq f.name name)) [
  | inl e ↦ rw e (f, refl)
  | inr e ↦ rw e (contains-get_original_call name funcs (sym (rw e refl) ∙ h))
]

-- The original call is found among the functions of its type.
abbrev Knows : Text → Option (List NetFunc) → Type 0
Knows name none = Unit
Knows name (some originals) = (f : NetFunc) × (get_original_call name originals ≡ some f)

get_call_type-Knows :
    (name : Text) (conn : NetConn) → Knows name (functions_of (get_call_type name conn) conn)
unfolding get_call_type
get_call_type-Knows name conn = elim (Bool-cases (contains name conn.sender_functions)) [
  | inl e ↦ rw e (contains-get_original_call name conn.sender_functions e)
  | inr e ↦ rw e (elim (Bool-cases (contains name conn.receiving_functions)) [
    | inl d ↦ rw d (contains-get_original_call name conn.receiving_functions d)
    | inr d ↦ rw d (elim (Bool-cases (contains name conn.connection_functions)) [
      | inl k ↦ rw k (contains-get_original_call name conn.connection_functions k)
      | inr k ↦ rw k tt
    ])
  ])
]

-- With an error there is no function.
data NoFunction (state : Replacement) : Type 0 where
  no_function : (state.is_error ≡ true → state.function ≡ none) → NoFunction state

data Tries (r : Result Replacement) : Type 0 where
  tries : (state : Replacement) → r ≡ ok state → NoFunction state → Tries r

replaced-NoFunction :
    (library : NetConn) (found : Option NetFunc) → NoFunction (replaced library found)
replaced-NoFunction library none = no_function (λ e. refl)
replaced-NoFunction library (some f) = no_function (λ e. cc)

try_library-Tries :
    (name : Text) (library : NetConn) (originals candidates : Option (List NetFunc))
    (state : Replacement)
    → Knows name originals
    → NoFunction state
    → Tries (try_library name library originals candidates state)
unfolding get_replacement_call
try_library-Tries name library none candidates state knows (no_function h) =
    tries (record state { library = some library }) refl (no_function h)
try_library-Tries name library (some originals) none state knows (no_function h) =
    tries (record state { library = some library }) refl (no_function h)
try_library-Tries name library (some originals) (some candidates) state (f, e) h =
    tries (replaced library (same_signature f candidates)) (rw e refl)
      (replaced-NoFunction library (same_signature f candidates))

module _ {K : Type 0} (same : K → K → Bool) where
  Tries-bind :
      (f : Replacement → Result Replacement) {r : Result Replacement}
      → Tries r
      → ((state : Replacement) → NoFunction state → Tries (f state))
      → Tries (r >>= f)
  Tries-bind f (tries state e h) next = rw e (next state h)

  try_libraries-Tries :
      (lib : K) (name : Text) (call_type : CallType) (original : NetConn)
      (database : List (K × NetConn)) (state : Replacement)
      → Knows name (functions_of call_type original)
      → NoFunction state
      → Tries (try_libraries same lib name call_type original database state)
  unfolding try_libraries
  try_libraries-Tries lib name call_type original [] state knows h = tries state refl h
  try_libraries-Tries lib name call_type original ((key, conn) ∷ rest) state knows h =
      elim (Bool-cases (same lib key)) [
        | inl e ↦ rw e (try_libraries-Tries lib name call_type original rest state knows h)
        | inr e ↦ rw e (
            Tries-bind (λ state. try_libraries same lib name call_type original rest state)
              (try_library-Tries name conn (functions_of call_type original)
                (functions_of call_type conn) state knows h)
              (λ state h. try_libraries-Tries lib name call_type original rest state knows h))
      ]

  answer-none :
      (state : Replacement)
      → NoFunction state
      → (library : Option NetConn) × (answer same state ≡ (none, library, false))
  answer-none state (no_function h) = elim (Bool-cases state.is_error) [
    | inl e ↦ (state.library, rw (e, h e) refl)
    | inr e ↦ (none, rw e refl)
  ]

  -- For a library of the database findSubstitutableNetworkCall returns without an error and without
  -- a function, whatever the other libraries offer.
  pub find_substitutable_network_call-none :
      (database : List (K × NetConn)) (lib : K) (name : Text) (original : NetConn)
      → find_conn same lib database ≡ some original
      → (library : Option NetConn) × (find_substitutable_network_call same (some database) lib name
          ≡ ok (none, library, false))
  unfolding find_substitutable_network_call
  find_substitutable_network_call-none database lib name original found = rw found (
      go (
        try_libraries-Tries lib name (get_call_type name original) original database _
          (get_call_type-Knows name original) (no_function (λ e. refl))))
    where
      go :
          {r : Result Replacement}
          → Tries r
          → (library : Option NetConn) × ((r >>= λ state. ok (answer same state))
              ≡ ok (none, library, false))
      go (tries state e h) = let (library, f) = answer-none state h in (library, rw (e, f) refl)

-- A run that panics or leaves the node.
data Leaves (n : Node) (r : Result Node) : Type 0 where
  panics : r ≡ panic → Leaves n r
  leaves : r ≡ ok n → Leaves n r

call-cases :
    (n : Node)
    → (get_call_expression_from_node n ≡ panic)
      ⊎ ((call : Option (Node × Nodes)) × (get_call_expression_from_node n ≡ ok call))
unfolding get_call_expression_from_node
call-cases (expr_stmt x) = inr (_, refl)
call-cases (assign_stmt lhs tok nil) = inl refl
call-cases (assign_stmt lhs tok (cons x rest)) = inr (_, refl)
call-cases _ = inr (none, refl)

module _ (same : Option Object → Option Object → Bool)
    (database : Option (List (Option Object × NetConn))) (info : Info) (n : Node) where
  at_conn-Leaves :
      (lib : Option Object) (name : Text) (conn : Option NetConn)
      → conn_of same database lib ≡ conn
      → Leaves n (at_conn same database n lib name conn)
  at_conn-Leaves lib name none e = panics refl
  at_conn-Leaves lib name (some conn) e = go database e
    where
      go :
          (database : Option (List (Option Object × NetConn)))
          → conn_of same database lib ≡ some conn
          → Leaves n (at_conn same database n lib name (some conn))
      go none e = absurd (no_conn e)
        where
          no_conn : {A : Type 0} {a : A} → none ≡ some a → ⊥
          no_conn e = cc
      go (some entries) e =
          let (library, found) =
            find_substitutable_network_call-none same entries lib name conn e in
          leaves (rw found refl)

  at_call-Leaves : (call : Option (Node × Nodes)) → Leaves n (at_call same database info n call)
  at_call-Leaves none = leaves refl
  at_call-Leaves (some (selector_expr (ident r pkg) r' name, args)) =
      at_conn-Leaves (get_import_object r info) name _ refl
  at_call-Leaves (some (selector_expr _ r' name, args)) = leaves refl
  at_call-Leaves (some (_, args)) = leaves refl

-- replaceCommunicationNode replaces nothing: it panics, or leaves the node as it is.
pub replace_communication_node-unchanged :
    (same : Option Object → Option Object → Bool)
    (database : Option (List (Option Object × NetConn))) (info : Info) (n : Node)
    → (replace_communication_node same database info n ≡ panic)
      ⊎ (replace_communication_node same database info n ≡ ok n)
unfolding replace_communication_node
replace_communication_node-unchanged same database info n = elim (call-cases n) [
  | inl e ↦ inl (rw e refl)
  | inr (call, e) ↦ rw e (go (at_call-Leaves same database info n call))
]
  where
    go : {r : Result Node} → Leaves n r → (r ≡ panic) ⊎ (r ≡ ok n)
    go (panics e) = inl e
    go (leaves e) = inr e
