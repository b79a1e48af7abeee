-- ===== src/Operators/Reads.antt =====
-- Which statements read, and what is set to zero behind them (astutil/locate.go): a description
-- without the code of CreateReadZeroAssignment, and that this code meets it.
use mutation_framework.Base.{
  ℕ, true, false, List, [], ◌∷◌, Option, none, some, ◌≡◌, refl, ◌∙◌, ◌⊎◌, inl, inr, Bool-cases,
}
use mutation_framework.Base.Text.{Text, codes, text_eq, equal_fold}
use mutation_framework.Ast.{
  Node, ident, selector_expr, call_expr, assign_stmt, basic_lit, assign, int_lit, nil, cons,
  to_list,
}
use mutation_framework.Ast.Info.{Info, Object, uses_of}
use mutation_framework.Astutil.ReadZero.{
  is_read_operation, defs_of, is_count, find_read_bytes_variable, construct_zero_assignment,
  create_zero_assignment, has_read, create_read_zero_assignment,
}

-- A call of a selector whose name is `read`, in any case.
abbrev pub IsRead : Node → Type 0
IsRead (call_expr (selector_expr x r name) args) = equal_fold name (codes "read") ≡ true
IsRead _ = ⊥

abbrev pub AnyRead : List Node → Type 0
AnyRead [] = ⊥
AnyRead (expr ∷ exprs) = IsRead expr ⊎ AnyRead exprs

-- The object that an identifier uses, or defines if it uses none.
abbrev pub HasObject : Info → Option ℕ → Object → Type 0
HasObject info r obj =
    (uses_of info r ≡ some obj) ⊎ (uses_of info r ≡ none) × (defs_of info r ≡ some obj)

-- An identifier with an object whose type is not `error`.
abbrev pub IsCount : Info → Node → Type 0
IsCount info (ident r name) =
    (obj : Object) × HasObject info r obj × (text_eq obj.type_string (codes "error") ≡ false)
IsCount info _ = ⊥

-- The first of a list that is such an identifier.
pub data FirstCount (info : Info) : List Node → Option ℕ → Text → Type 0 where
  here :
      {r : Option ℕ} {name : Text} {exprs : List Node}
      → IsCount info (ident r name)
      → FirstCount info (ident r name ∷ exprs) r name
  there :
      {r : Option ℕ} {name : Text} {expr : Node} {exprs : List Node}
      → ¬ (IsCount info expr)
      → FirstCount info exprs r name
      → FirstCount info (expr ∷ exprs) r name

-- The statement is an assignment with a read on its right side, and the other one is `n = 0`, for
-- the first identifier n of its left side that is no error.
abbrev pub Zeroes : Info → Node → Node → Type 0
Zeroes info (assign_stmt lhs tok rhs) zeroed =
    AnyRead (to_list rhs)
    × ((r : Option ℕ) × (name : Text) × FirstCount info (to_list lhs) r name
        × (zeroed
            ≡ assign_stmt (cons (ident r name) nil) assign
                (cons (basic_lit int_lit (codes "0")) nil)))
Zeroes info _ zeroed = ⊥

-- What the code gives is the assignment that is wanted, or none is wanted.
pub data IsZeroOf {ℓ} (Wanted : Node → Type ℓ) : Option Node → Type ℓ where
  zeroed : {z : Node} → Wanted z → IsZeroOf Wanted (some z)
  not_zeroed : ((z : Node) → ¬ (Wanted z)) → IsZeroOf Wanted none

module _ (info : Info) where
  object-HasObject :
      (r : Option ℕ) (obj : Object)
      → HasObject info r obj
      → find_read_bytes_variable info r ≡ some obj
  unfolding find_read_bytes_variable
  object-HasObject r obj (inl h) = rw (find_read_bytes_variable, h) refl
  object-HasObject r obj (inr (h, d)) = rw (find_read_bytes_variable, h) d

  found-HasObject :
      (r : Option ℕ) (obj : Object)
      → find_read_bytes_variable info r ≡ some obj
      → HasObject info r obj
  unfolding find_read_bytes_variable
  found-HasObject r obj = go (uses_of info r) refl
    where
      go :
          (o : Option Object)
          → uses_of info r ≡ o
          → elim o [ some obj ↦ some obj | none ↦ defs_of info r ] ≡ some obj
          → HasObject info r obj
      go none e h = inr (e, h)
      go (some x) e h = inl (e ∙ h)

  -- The test of the code decides IsCount.
  IsCount-cases :
      (r : Option ℕ) (name : Text)
      → (is_count (find_read_bytes_variable info r) ≡ true) × IsCount info (ident r name)
        ⊎ (is_count (find_read_bytes_variable info r) ≡ false) × ¬ (IsCount info (ident r name))
  IsCount-cases r name = go (find_read_bytes_variable info r) refl
    where
      go :
          (o : Option Object)
          → find_read_bytes_variable info r ≡ o
          → (is_count o ≡ true) × IsCount info (ident r name)
            ⊎ (is_count o ≡ false) × ¬ (IsCount info (ident r name))
      go none e = inr (refl, λ (obj, has, t). cc (object-HasObject r obj has, e))
      go (some obj) e = elim (Bool-cases (text_eq obj.type_string (codes "error"))) [
        | inl t ↦ inr (rw t refl, λ (other, has, u). cc (object-HasObject r other has, e, t, u))
        | inr t ↦ inl (rw t refl, (obj, found-HasObject r obj e, t))
      ]

  no_first : {r : Option ℕ} {name : Text} → FirstCount info [] r name → ⊥
  no_first first = elim first [ ]

  abbrev ZeroOfFirst : List Node → Node → Type 0
  ZeroOfFirst exprs z =
      (r : Option ℕ) × (name : Text) × FirstCount info exprs r name
      × (z ≡ construct_zero_assignment r name)

  later :
      {expr : Node} {exprs : List Node} {o : Option Node}
      → ¬ (IsCount info expr)
      → IsZeroOf (ZeroOfFirst exprs) o
      → IsZeroOf (ZeroOfFirst (expr ∷ exprs)) o
  later not_is (zeroed (r, name, first, e)) = zeroed (r, name, there not_is first, e)
  later {expr} {exprs} not_is (not_zeroed none_wanted) =
      not_zeroed (λ z (r, name, first, e). go z r name first e not_is)
    where
      go :
          {expr : Node} (z : Node) (r : Option ℕ) (name : Text)
          → FirstCount info (expr ∷ exprs) r name
          → z ≡ construct_zero_assignment r name
          → ¬ (IsCount info expr)
          → ⊥
      go z r name (here is) e not_is = not_is is
      go z r name (there _ first) e not_is = none_wanted z (r, name, first, e)

  zero_assignment-IsZeroOf :
      (exprs : List Node) → IsZeroOf (ZeroOfFirst exprs) (create_zero_assignment info exprs)
  unfolding create_zero_assignment
  zero_assignment-IsZeroOf [] = not_zeroed (λ z (r, name, first, e). no_first first)
  zero_assignment-IsZeroOf (ident r name ∷ exprs) = elim (IsCount-cases r name) [
    | inl (e, is) ↦ rw e (zeroed (r, name, here is, refl))
    | inr (e, not_is) ↦ rw e (later not_is (zero_assignment-IsZeroOf exprs))
  ]
  zero_assignment-IsZeroOf (_ ∷ exprs) = later (λ is. is) (zero_assignment-IsZeroOf exprs)

  IsRead-cases :
      (expr : Node)
      → (is_read_operation expr ≡ true → IsRead expr)
        × (is_read_operation expr ≡ false → ¬ (IsRead expr))
  unfolding is_read_operation
  IsRead-cases (call_expr (selector_expr x r name) args) = (λ h. h, λ h k. cc)
  IsRead-cases _ = (λ h. cc, λ h k. k)

  AnyRead-cases :
      (exprs : List Node)
      → (has_read exprs ≡ true) × AnyRead exprs ⊎ (has_read exprs ≡ false) × ¬ (AnyRead exprs)
  unfolding has_read
  AnyRead-cases [] = inr (refl, λ any. any)
  AnyRead-cases (expr ∷ exprs) = elim (Bool-cases (is_read_operation expr)) [
    | inl e ↦ inl (rw e refl, inl ((IsRead-cases expr).0 e))
    | inr e ↦ rw e (elim (AnyRead-cases exprs) [
      | inl (h, any) ↦ inl (h, inr any)
      | inr (h, never) ↦
          inr (h, λ any. elim any [ inl is ↦ (IsRead-cases expr).1 e is | inr any ↦ never any ])
    ])
  ]

  pub read_zero_assignment-IsZeroOf :
      (s : Node) → IsZeroOf (Zeroes info s) (create_read_zero_assignment info s)
  unfolding create_read_zero_assignment construct_zero_assignment
  read_zero_assignment-IsZeroOf (assign_stmt lhs tok rhs) = elim (AnyRead-cases (to_list rhs)) [
    | inl (e, any) ↦ rw e (go any (zero_assignment-IsZeroOf (to_list lhs)))
    | inr (e, never) ↦ rw e (not_zeroed (λ z (any, rest). never any))
  ]
    where
      go :
          {o : Option Node}
          → AnyRead (to_list rhs)
          → IsZeroOf (ZeroOfFirst (to_list lhs)) o
          → IsZeroOf (Zeroes info (assign_stmt lhs tok rhs)) o
      go any (zeroed w) = zeroed (any, w)
      go any (not_zeroed never) = not_zeroed (λ z (_, w). never z w)
  read_zero_assignment-IsZeroOf _ = not_zeroed (λ z w. w)
