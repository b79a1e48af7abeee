-- ===== src/Mutator.antt =====
-- mutator/mutation.go and the type Mutator of mutator/mutator.go. A mutation is a pair of
-- closures over a node of the tree: functions from the node as it stands to the node as they leave
-- it. A closure can be nil, and a call of a nil closure panics.
use mutation_framework.Base.{List, Option, none, some, ◌≡◌, All, Result, ok, panic, ◌>>=◌, Returns}
use mutation_framework.Ast.{Node}

abbrev pub Closure : Type 0
Closure = Option (Node → Result Node)

pub record Mutation : Type 0 where
  pub change : Closure
  pub reset : Closure

-- A mutator at a package and its types.Info.
abbrev pub Mutator : Type 0
Mutator = Node → Result (List Mutation)

-- The call of a closure.
abbrev pub call : Closure → Node → Result Node
call none n = panic
call (some f) n = f n

-- Both closures run without a panic, and Reset undoes Change.
abbrev pub Undoes : Node → Mutation → Type 0
Undoes n mu = (call mu.change n >>= call mu.reset) ≡ ok n

-- A mutator that answers at every node, with mutations that can all be undone.
abbrev pub IsReversible : Mutator → Type 0
IsReversible m = (n : Node) → Returns (All (Undoes n)) (m n)
