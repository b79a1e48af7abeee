-- ===== src/Astutil/ReadZero.antt =====
-- astutil/locate.go: the assignment of zero behind a read.
use mutation_framework.Base.{ℕ, Bool, true, false, List, [], ◌∷◌, Option, none, some}
use mutation_framework.Base.{if◌then◌else◌, ◌==◌}
use mutation_framework.Base.Text.{Text, codes, text_eq, equal_fold}
use mutation_framework.Ast.{Node, ident, selector_expr, call_expr, assign_stmt, basic_lit}
use mutation_framework.Ast.{assign, int_lit, nil, cons, to_list}
use mutation_framework.Ast.Info.{Info, Object, Definition, uses_of}

unfoldable pub is_read_operation : Node → Bool
unfolding equal_fold
is_read_operation (call_expr (selector_expr x r name) args) = equal_fold name (codes "read")
is_read_operation _ = false

-- info.Defs at an identifier
unfoldable pub lookup_definition : ℕ → List Definition → Option Object
lookup_definition r [] = none
lookup_definition r (entry ∷ entries) =
    if entry.identifier == r then entry.object else lookup_definition r entries

abbrev pub defs_of : Info → Option ℕ → Option Object
defs_of info none = none
defs_of info (some r) = lookup_definition r info.defs

unfoldable pub find_read_bytes_variable : Info → Option ℕ → Option Object
unfolding lookup_definition
find_read_bytes_variable info r = elim (uses_of info r) [
  | some obj ↦ some obj
  | none ↦ defs_of info r
]

unfoldable pub construct_zero_assignment : Option ℕ → Text → Node
construct_zero_assignment r name =
    assign_stmt (cons (ident r name) nil) assign (cons (basic_lit int_lit (codes "0")) nil)

abbrev pub is_count : Option Object → Bool
is_count none = false
is_count (some obj) = if text_eq obj.type_string (codes "error") then false else true

-- createZeroAssignment: the first variable on the left whose type is not `error`
unfoldable pub create_zero_assignment : Info → List Node → Option Node
unfolding find_read_bytes_variable construct_zero_assignment
create_zero_assignment info [] = none
create_zero_assignment info (ident r name ∷ assigns) =
    if is_count (find_read_bytes_variable info r)
    then some (construct_zero_assignment r name)
    else create_zero_assignment info assigns
create_zero_assignment info (_ ∷ assigns) = create_zero_assignment info assigns

-- The loop over the right side: the first read decides.
unfoldable pub has_read : List Node → Bool
unfolding is_read_operation
has_read [] = false
has_read (expr ∷ exprs) = if is_read_operation expr then true else has_read exprs

-- CreateReadZeroAssignment
unfoldable pub create_read_zero_assignment : Info → Node → Option Node
unfolding create_zero_assignment has_read to_list
create_read_zero_assignment info (assign_stmt lhs tok rhs) =
    if has_read (to_list rhs) then create_zero_assignment info (to_list lhs) else none
create_read_zero_assignment info _ = none
