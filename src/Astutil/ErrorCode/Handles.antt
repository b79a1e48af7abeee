-- ===== src/Astutil/ErrorCode/Handles.antt =====
-- IsErrorHandlingCode finds the block that runs when an error was compared with nil, and no other.
use mathlib.Core.Option
use mathlib.Core.Path.{ap₂}
use mutation_framework.Base.{ℕ, true, Option, none, some, ◌≡◌, refl, ap}
use mutation_framework.Base.{◌↔◌, ◌⊎◌, inl, inr, arith, sym, ◌∙◌}
use mutation_framework.Base.{Bool-cases}
use mutation_framework.Base.Text.{Text, codes, text_eq_iff}
use mutation_framework.Ast.{Node, Nodes, Token, neq, eql, ident, binary_expr, block_stmt, if_stmt}
use mutation_framework.Ast.Info.{Info, Object, uses_of}
use mutation_framework.Astutil.ErrorCode.{
  Place, then_place, else_place, else_if, is_error_handling_code, error_test, by_operator, at_else,
  compares_error,
}

-- One of the objects is a value of type error, and the other is the untyped nil.
abbrev pub IsErrorWithNil : Object → Object → Type 0
IsErrorWithNil x y = (x.type_string ≡ codes "error") × (y.type_is_untyped_nil ≡ true)

-- A comparison of two identifiers, an error and nil, in either order.
pub data IsErrorTest (info : Info) (op : Token) : Node → Type 0 where
  compared :
      {a b : Option ℕ} {name_a name_b : Text} {op' : Token} (x y : Object)
      → op' ≡ op
      → uses_of info a ≡ some x
      → uses_of info b ≡ some y
      → IsErrorWithNil x y ⊎ IsErrorWithNil y x
      → IsErrorTest info op (binary_expr (ident a name_a) op' (ident b name_b))

-- The block that handles the error: the body of `err != nil`, the else block of `err == nil`, or
-- such a block of the if statement behind its else.
pub data Handles (info : Info) : Place → Node → Type 0 where
  not_nil :
      {init cond els : Node} {body : Nodes}
      → IsErrorTest info neq cond
      → Handles info then_place (if_stmt init cond body els)
  is_nil :
      {init cond : Node} {body l : Nodes}
      → IsErrorTest info eql cond
      → Handles info else_place (if_stmt init cond body (block_stmt l))
  is_nil_else_if :
      {init cond init' cond' els' : Node} {body body' : Nodes} {p : Place}
      → IsErrorTest info eql cond
      → Handles info p (if_stmt init' cond' body' els')
      → Handles info (else_if p) (if_stmt init cond body (if_stmt init' cond' body' els'))

compares_error_iff :
    (x y : Object)
    → (compares_error (some x) (some y) ≡ true) ↔ (IsErrorWithNil x y ⊎ IsErrorWithNil y x)
unfolding compares_error
compares_error_iff x y =
    ground
      (arith, text_eq_iff x.type_string (codes "error"), text_eq_iff y.type_string (codes "error"))

compares_error-some :
    (o o' : Option Object)
    → compares_error o o' ≡ true
    → (x : Object) × (y : Object) × (o ≡ some x) × (o' ≡ some y)
unfolding compares_error
compares_error-some (some x) (some y) h = (x, y, refl, refl)
compares_error-some _ _ h = cc

operands-IsErrorTest :
    (info : Info) (a b : Option ℕ) (name_a name_b : Text) (op' op : Token)
    → compares_error (uses_of info a) (uses_of info b) ≡ true
    → op' ≡ op
    → IsErrorTest info op (binary_expr (ident a name_a) op' (ident b name_b))
operands-IsErrorTest info a b name_a name_b op' op h same =
    let (x, y, ex, ey) = compares_error-some _ _ h in
    compared x y same ex ey ((compares_error_iff x y).0 (sym (ap₂ compares_error ex ey) ∙ h))

error_test-IsErrorTest :
    (info : Info) (op : Token) (cond : Node)
    → error_test info cond ≡ some op
    → IsErrorTest info op cond
unfolding error_test
error_test-IsErrorTest info op (binary_expr (ident a name_a) op' (ident b name_b)) h =
    elim (Bool-cases (compares_error (uses_of info a) (uses_of info b))) [
      | inl e ↦ operands-IsErrorTest info a b name_a name_b op' op e (ground arith)
      | inr e ↦ absurd (ground arith)
    ]
error_test-IsErrorTest info op _ h = ground arith

IsErrorTest-error_test :
    (info : Info) (op : Token) {cond : Node}
    → IsErrorTest info op cond
    → error_test info cond ≡ some op
unfolding error_test
IsErrorTest-error_test info op (compared {a} {b} x y same ex ey w) =
    rw (ex, ey, (compares_error_iff x y).1 w) (ap some same)

map-some :
    {A B : Type 0} (f : A → B) (o : Option A) {b : B}
    → Option.map f o ≡ some b
    → (a : A) × (o ≡ some a) × (f a ≡ b)
map-some f (some a) h = (a, refl, cc)
map-some f none h = cc

-- The statement behind the else, for `err == nil`.
else-Handles :
    (info : Info) (init cond els : Node) (l : Nodes) (p : Place)
    → IsErrorTest info eql cond
    → at_else els (is_error_handling_code info els) ≡ some p
    → ((q : Place) → is_error_handling_code info els ≡ some q → Handles info q els)
    → Handles info p (if_stmt init cond l els)
else-Handles info init cond (block_stmt k) l p t h ih =
    let e : else_place ≡ p = cc in rw (← e) (is_nil t)
else-Handles info init cond (if_stmt i c k e) l p t h ih =
    let (q, found, same) = map-some else_if _ h in rw (← same) (is_nil_else_if t (ih q found))
else-Handles info init cond _ l p t h ih = cc

-- by the operator of the test
operator-Handles :
    (info : Info) (init cond els : Node) (l : Nodes) (p : Place) (test : Option Token)
    → error_test info cond ≡ test
    → by_operator test els (is_error_handling_code info els) ≡ some p
    → ((q : Place) → is_error_handling_code info els ≡ some q → Handles info q els)
    → Handles info p (if_stmt init cond l els)
operator-Handles info init cond els l p (some neq) t h ih =
    let e : then_place ≡ p = cc in rw (← e) (not_nil (error_test-IsErrorTest info neq cond t))
operator-Handles info init cond els l p (some eql) t h ih =
    else-Handles info init cond els l p (error_test-IsErrorTest info eql cond t) h ih
operator-Handles info init cond els l p _ t h ih = cc

handling-Handles :
    (info : Info) (n : Node) (p : Place) → is_error_handling_code info n ≡ some p → Handles info p n
unfolding is_error_handling_code
handling-Handles info (if_stmt init cond l els) p h =
    operator-Handles info init cond els l p (error_test info cond) refl h
      (handling-Handles info els)
handling-Handles info _ p h = cc

Handles-handling :
    (info : Info) {n : Node} {p : Place} → Handles info p n → is_error_handling_code info n ≡ some p
unfolding is_error_handling_code
Handles-handling info (not_nil t) = rw (IsErrorTest-error_test info neq t)
Handles-handling info (is_nil t) = rw (IsErrorTest-error_test info eql t)
Handles-handling info (is_nil_else_if t h) =
    rw (IsErrorTest-error_test info eql t) (ap (Option.map else_if) (Handles-handling info h))

-- IsErrorHandlingCode finds a block exactly when it is the body of an if of `err != nil`, the else
-- block of an if of `err == nil`, or such a block of the if behind that else, where err and nil are
-- two identifiers in either order, of type error and the untyped nil.
pub is_error_handling_code_iff :
    (info : Info) (n : Node) (p : Place)
    → (is_error_handling_code info n ≡ some p) ↔ Handles info p n
is_error_handling_code_iff info n p = (handling-Handles info n p, Handles-handling info)
