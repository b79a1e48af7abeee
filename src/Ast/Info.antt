-- ===== src/Ast/Info.antt =====
-- The results of go/types that the mutators read (types.Info, types.Object). Whatever the type
-- checker finds is a parameter of the model.
use mutation_framework.Base.{ℕ, Bool, Option, none, some, List}
use mutation_framework.Base.Text.{Text}

-- The underlying types that IdentifiersInStatement tells apart.
pub data Underlying : Type 0 where
  array_type map_type slice_type struct_type : Underlying
  other_type : ℕ → Underlying

-- A types.Object: whether it is a *types.Var, Type().String(), Type().Underlying(), whether Type()
-- is the basic type of the untyped nil, Name() and String().
pub record Object : Type 0 where
  pub is_var : Bool
  pub type_string : Text
  pub underlying : Underlying
  pub type_is_untyped_nil : Bool
  pub name : Text
  pub object_string : Text

-- The implicit object of a node. `import_path` is Path.Value if the node is an *ast.ImportSpec, and
-- `import_name` then the pointer Name, if it is not nil.
pub record Implicit : Type 0 where
  pub import_name : Option ℕ
  pub import_path : Option Text
  pub object : Object

-- A definition: the name of the identifier, and its object if that is not nil.
pub record Definition : Type 0 where
  pub identifier : ℕ
  pub identifier_name : Text
  pub object : Option Object

-- types.Info. The lists stand for Go's maps, in the order in which the loops meet the entries.
pub record Info : Type 0 where
  pub uses : ℕ → Option Object
  pub defs : List Definition
  pub implicits : List Implicit

-- info.Uses at an identifier; a node that a mutator made is in no map.
abbrev pub uses_of : Info → Option ℕ → Option Object
uses_of info none = none
uses_of info (some r) = info.uses r
