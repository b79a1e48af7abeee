-- ===== src/Astutil/Create/Collects.antt =====
-- Which expressions of a statement IdentifiersInStatement (astutil/query.go) collects: a
-- description by the children of the nodes, without the code.
pub mod Walk
use mutation_framework.Base.{
  ℕ, Bool, true, false, List, [], ◌∷◌, ◌++◌, Option, none, some, ◌≡◌, refl, ap, sym, ◌∙◌, ◌⊎◌, inl,
  subst, inr, Bool-cases, append-nil, append_assoc, if◌then◌else◌,
}
use mutation_framework.Base.Text.{Text, text_eq}
use mutation_framework.Ast.{
  Node, Nodes, nil_node, ident, basic_lit, composite_lit, selector_expr, call_expr, binary_expr,
  block_stmt, case_clause, if_stmt, assign_stmt, expr_stmt, inc_dec_stmt, empty_stmt, func_decl,
  other, nil, cons, to_list,
}
use mutation_framework.Ast.Children.{children}
use mutation_framework.Ast.Walk.{walk, walk_list}
use mutation_framework.Ast.Info.{
  Info, Object, Underlying, array_type, map_type, slice_type, struct_type, other_type, uses_of,
}
use mutation_framework.Astutil.Query.{
  identifiers_in_statement, identifier_walker, visit_identifier, is_variable_name, is_not_variable,
  needs_literal, initialize, check_for_selector_expr, blank, is_keyword,
}
use mutation_framework.Astutil.Create.{identifiers_in_statements}

-- A name that is neither blank nor a keyword, and that is not used for anything but a variable.
abbrev pub IsVariable : Info → Option ℕ → Text → Type 0
IsVariable info r name =
    (text_eq name blank ≡ false)
    × (is_keyword name ≡ false)
    × ((obj : Object) → uses_of info r ≡ some obj → obj.is_var ≡ true)

-- Identifiers joined by dots.
abbrev pub IsPath : Node → Type 0
IsPath (ident r name) = Unit
IsPath (selector_expr x r name) = IsPath x
IsPath _ = ⊥

abbrev pub IsComposite : Underlying → Type 0
IsComposite (other_type k) = ⊥
IsComposite _ = Unit

-- A selector that is used for an array, a map, a slice or a struct.
abbrev pub IsInstantiated : Info → Option ℕ → Type 0
IsInstantiated info sel =
    (obj : Object) × (uses_of info sel ≡ some obj) × IsComposite obj.underlying

abbrev pub IsInner : Node → Type 0
IsInner (ident r name) = ⊥
IsInner (selector_expr x r name) = ⊥
IsInner _ = Unit

mutual
  -- The expressions that are collected of a node.
  pub data Collects (info : Info) : Node → List Node → Type 0 where
    variable :
        (r : Option ℕ) (name : Text)
        → IsVariable info r name
        → Collects info (ident r name) (ident none name ∷ [])
    no_variable :
        (r : Option ℕ) (name : Text) → ¬ (IsVariable info r name) → Collects info (ident r name) []
    field :
        (x : Node) (sel : Option ℕ) (name : Text)
        → IsPath x
        → ¬ (IsInstantiated info sel)
        → Collects info (selector_expr x sel name) (selector_expr x sel name ∷ [])
    literal :
        (x : Node) (sel : Option ℕ) (name : Text)
        → IsPath x
        → IsInstantiated info sel
        → Collects info
            (selector_expr x sel name)
            (composite_lit (selector_expr x sel name) nil ∷ [])
    no_path :
        (x : Node) (sel : Option ℕ) (name : Text)
        → ¬ (IsPath x)
        → Collects info (selector_expr x sel name) []
    inner :
        (n : Node) (ids : List Node)
        → IsInner n
        → CollectsAll info (children n) ids
        → Collects info n ids

  pub data CollectsAll (info : Info) : List Node → List Node → Type 0 where
    no_nodes : CollectsAll info [] []
    next :
        (n : Node) (ns ids more : List Node)
        → Collects info n ids
        → CollectsAll info ns more
        → CollectsAll info (n ∷ ns) (ids ++ more)
