-- ===== src/Astutil/Create.antt =====
-- astutil/create.go: a statement that does nothing, in place of others.
pub mod Collects
pub mod Noop
use mutation_framework.Base.{ℕ, List, [], ◌∷◌, ◌++◌, length, replicate}
use mutation_framework.Ast.{Node, assign, assign_stmt, empty_stmt, new_ident, of_list}
use mutation_framework.Ast.Info.{Info}
use mutation_framework.Astutil.Query.{identifiers_in_statement, blank}

-- The loop over the statements.
unfoldable pub identifiers_in_statements : Info → List Node → List Node → List Node
unfolding identifiers_in_statement
identifiers_in_statements info ids [] = ids
identifiers_in_statements info ids (stmt ∷ stmts) =
    identifiers_in_statements info (ids ++ identifiers_in_statement info stmt) stmts

-- The statement that uses the expressions and does nothing with them.
unfoldable pub noop_of : List Node → Node
unfolding of_list
noop_of [] = empty_stmt
noop_of (id ∷ ids) =
    assign_stmt (of_list (replicate (length (id ∷ ids)) (new_ident blank))) assign
      (of_list (id ∷ ids))

-- CreateNoopOfStatements
unfoldable pub create_noop_of_statements : Info → List Node → Node
unfolding identifiers_in_statements noop_of
create_noop_of_statements info stmts = noop_of (identifiers_in_statements info [] stmts)

-- CreateNoopOfStatement
unfoldable pub create_noop_of_statement : Info → Node → Node
unfolding create_noop_of_statements
create_noop_of_statement info stmt = create_noop_of_statements info (stmt ∷ [])
