-- ===== src/Astutil/ErrorCode.antt =====
-- astutil/locate.go: the block that handles an error. IsErrorHandlingCode returns a pointer to a
-- block of the statement; here it is the place of that block.
pub mod Handles
use mathlib.Core.Option
use mutation_framework.Base.{ℕ, Bool, true, false, Option, none, some, ◌&&◌, ◌||◌}
use mutation_framework.Base.{if◌then◌else◌}
use mutation_framework.Base.Text.{codes, text_eq}
use mutation_framework.Ast.{Node, Nodes, Token, neq, eql, ident, binary_expr, block_stmt, if_stmt}
use mutation_framework.Ast.{assign, land, lor, define, int_lit, other_token}
use mutation_framework.Ast.Info.{Info, Object, uses_of}

-- The body of the statement, its else block, or a place in the statement behind its else.
pub data Place : Type 0 where
  then_place : Place
  else_place : Place
  else_if : Place → Place

unfoldable pub is_untyped_nil : Object → Bool
is_untyped_nil candidate = candidate.type_is_untyped_nil

unfoldable pub is_error : Object → Bool
unfolding text_eq
is_error obj = text_eq obj.type_string (codes "error")

unfoldable pub compares_error : Option Object → Option Object → Bool
unfolding is_error is_untyped_nil
compares_error (some x) (some y) = is_error x && is_untyped_nil y || is_error y && is_untyped_nil x
compares_error _ _ = false

-- isConditionalErrorHandling, at the operands of the condition
unfoldable pub is_conditional_error_handling : Info → Node → Node → Bool
unfolding compares_error
is_conditional_error_handling info (ident x _) (ident y _) =
    compares_error (uses_of info x) (uses_of info y)
is_conditional_error_handling info _ _ = false

-- What the condition says: the operator, if an error is compared with nil.
unfoldable pub error_test : Info → Node → Option Token
unfolding is_conditional_error_handling
error_test info (binary_expr x op y) =
    if is_conditional_error_handling info x y then some op else none
error_test info _ = none

-- The branch for `err == nil`, by the statement behind the else.
abbrev at_else : Node → Option Place → Option Place
at_else (if_stmt _ _ _ _) deeper = Option.map else_if deeper
at_else (block_stmt _) deeper = some else_place
at_else _ deeper = none

abbrev by_operator : Option Token → Node → Option Place → Option Place
by_operator (some neq) els deeper = some then_place
by_operator (some eql) els deeper = at_else els deeper
by_operator _ els deeper = none

-- IsErrorHandlingCode
unfoldable pub is_error_handling_code : Info → Node → Option Place
unfolding error_test
is_error_handling_code info (if_stmt init cond then_body els) =
    by_operator (error_test info cond) els (is_error_handling_code info els)
is_error_handling_code info _ = none

-- The block at a place.
unfoldable pub block_at : Place → Node → Node
block_at then_place (if_stmt init cond then_body els) = block_stmt then_body
block_at else_place (if_stmt init cond then_body els) = els
block_at (else_if p) (if_stmt init cond then_body els) = block_at p els
block_at _ n = n

abbrev pub set_then_body : Nodes → Node → Nodes
set_then_body old (block_stmt l) = l
set_then_body old _ = old

-- A write through the pointer to the block at a place.
unfoldable pub write_at : Place → Node → Node → Node
write_at then_place (if_stmt init cond then_body els) block =
    if_stmt init cond (set_then_body then_body block) els
write_at else_place (if_stmt init cond then_body els) block = if_stmt init cond then_body block
write_at (else_if p) (if_stmt init cond then_body els) block =
    if_stmt init cond then_body (write_at p els block)
write_at _ n block = n
