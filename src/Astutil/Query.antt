-- ===== src/Astutil/Query.antt =====
-- astutil/query.go: the identifiers in a statement, and the functions of a file.
use mutation_framework.Base.{ℕ, Bool, true, false, List, [], ◌∷◌, ◌++◌, Option, none, some}
use mutation_framework.Base.{if◌then◌else◌}
use mutation_framework.Base.Text.{Text, codes, text_eq, text_mem}
use mutation_framework.Ast.{Node, nil, ident, selector_expr, composite_lit, func_decl}
use mutation_framework.Ast.Walk.{Visitor, walk}
use mutation_framework.Ast.Info.{Info, Object, Underlying, uses_of}
use mutation_framework.Ast.Info.{array_type, map_type, slice_type, struct_type, other_type}

-- The keywords of Go: token.Lookup gives token.IDENT for every other name.
abbrev keywords : List Text
keywords =
    codes "break"
    ∷ codes "case"
    ∷ codes "chan"
    ∷ codes "const"
    ∷ codes "continue"
    ∷ codes "default"
    ∷ codes "defer"
    ∷ codes "else"
    ∷ codes "fallthrough"
    ∷ codes "for"
    ∷ codes "func"
    ∷ codes "go"
    ∷ codes "goto"
    ∷ codes "if"
    ∷ codes "import"
    ∷ codes "interface"
    ∷ codes "map"
    ∷ codes "package"
    ∷ codes "range"
    ∷ codes "return"
    ∷ codes "select"
    ∷ codes "struct"
    ∷ codes "switch"
    ∷ codes "type"
    ∷ codes "var"
    ∷ []

unfoldable pub is_keyword : Text → Bool
unfolding text_mem
is_keyword name = text_mem name keywords

abbrev pub blank : Text
blank = codes "_"

unfoldable pub check_for_selector_expr : Node → Bool
check_for_selector_expr (ident r name) = true
check_for_selector_expr (selector_expr x r name) = check_for_selector_expr x
check_for_selector_expr _ = false

-- An identifier in types.Info.Uses that is no variable.
abbrev pub is_not_variable : Option Object → Bool
is_not_variable none = false
is_not_variable (some obj) = if obj.is_var then false else true

-- The first case of identifierWalker.Visit: whether the identifier is collected.
unfoldable pub is_variable_name : Info → Option ℕ → Text → Bool
unfolding text_eq is_keyword
is_variable_name info r name =
    if text_eq name blank
    then false
    else if is_keyword name
    then false
    else if is_not_variable (uses_of info r)
    then false
    else true

abbrev pub needs_literal : Underlying → Bool
needs_literal array_type = true
needs_literal map_type = true
needs_literal slice_type = true
needs_literal struct_type = true
needs_literal (other_type k) = false

-- `initialize` in the second case
unfoldable pub initialize : Info → Option ℕ → Bool
initialize info sel = elim (uses_of info sel) [
  | none ↦ false
  | some obj ↦ needs_literal obj.underlying
]

unfoldable pub visit_identifier : Info → List Node → Node → List Node × Bool
unfolding is_variable_name check_for_selector_expr initialize
visit_identifier info ids (ident r name) =
    (if is_variable_name info r name then ids ++ ident none name ∷ [] else ids, false)
visit_identifier info ids (selector_expr x sel name) = (
  if check_for_selector_expr x
      then ids
        ++ (if initialize info sel
            then composite_lit (selector_expr x sel name) nil
            else selector_expr x sel name)
          ∷ []
      else ids,
  false,
)
visit_identifier info ids _ = (ids, true)

abbrev pub identifier_walker : Info → Visitor (List Node)
identifier_walker info = record { enter = visit_identifier info; leave = λ ids. ids }

-- IdentifiersInStatement
unfoldable pub identifiers_in_statement : Info → Node → List Node
unfolding walk visit_identifier
identifiers_in_statement info stmt = walk (identifier_walker info) [] stmt

unfoldable pub visit_function : List Node → Node → List Node × Bool
visit_function found (func_decl parts) = (found ++ func_decl parts ∷ [], false)
visit_function found _ = (found, true)

-- Functions
unfoldable pub functions : Node → List Node
unfolding walk visit_function
functions n = walk (record { enter = visit_function; leave = λ found. found }) [] n
