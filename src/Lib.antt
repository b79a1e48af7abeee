-- ===== src/Lib.antt =====
-- A verification library for the mutation testing framework: a command that makes mutants of Go
-- files, saves each into a copy of the project and runs the tests of the project against it.
--
-- Parts of the program and the files that model them:
--
-- - Base, Base/Tests, Base/Lists, Base/Results, Base/Text: shared names. A run of the program is
--   a `Result`: a value, or a panic. Text is a list of code points. unicode.ToLower and the
--   folding of strings.EqualFold are exact as far as an ASCII letter comes out of them, and the
--   program compares with ASCII text alone.
-- - Regex: Go's regexp for the expressions that the program compiles, with its choice of the
--   leftmost, then greedy match.
-- - Ast, Ast/Children, Ast/Walk, Ast/Walk/Invariant, Ast/Info: the part of go/ast and go/types that
--   is read and written. A file is a tree of nodes. The parser gives each node one parent, so a
--   pointer to a node is a place in the tree, and a closure that writes through a pointer is a
--   function on the node at that place. Positions and comments are left out. types.Info is a
--   parameter; its maps are functions or lists in the order in which a loop meets the entries.
-- - Mutator (mutator/mutation.go), Registry (mutator/mutator.go): mutations as pairs of closures
--   that may be nil; New, List and Register over the table of operators.
-- - MutateWalk (walk.go): CountWalk and MutateWalk. MutateWalk changes the tree while it walks it,
--   so it runs on fuel; the height of the tree is enough for every mutator whose Reset undoes its
--   Change.
-- - Exchange (walk.go, cmd/mutation-framework/mutate.go): the goroutine of MutateWalk and the loop
--   of mutate, which meet at a channel without a buffer, as a step relation.
-- - Astutil (astutil/query.go, astutil/create.go, astutil/locate.go): what the operators look for
--   and the nodes that they make. rand.Int is a parameter. Create/Collects and Operators/Reads say
--   without the code which expressions a no-op takes over and which statements read.
-- - Operators (mutator/branch, mutator/expression, mutator/statement, mutator/distributed): the
--   nine operators and their init functions.
-- - Paths, Paths/Laws (cmd/mutation-framework/config.go, copy_utils.go, test_runner.go): the
--   functions on path texts; the separator is the slash.
-- - Runner, Runner/Execute with its children Trace and Counts, Runner/Redundant
--   with Laws and Keys (cmd/mutation-framework/test_runner.go): the run of the tests against each
--   mutant. What an external command answers is a parameter, which may depend on
--   everything done before. A run keeps its state when it panics, since the deferred calls see it;
--   the trace lists what was called, a move with its success. What is only logged is left out.
-- - Config, Config/Files, Config/WildCard, Config/WildCard/Laws (cmd/mutation-framework/config.go):
--   the configuration, the files it includes, and which paths hold a wild card.
-- - Config/Expand, Config/Expand/Pieces, Config/Expand/Exist, Config/Expand/Laws
--   (cmd/mutation-framework/config.go):
--   the expansion of wild cards. The slice pathPieces is one array that all calls share, so a
--   call returns it together with the paths. The fuel is for the calls: two for each piece and
--   two more are enough unless a directory has the name of a wild card. regexp is modelled for
--   globs of plain characters, dots and stars, and a parameter for others.
-- - Config/Load, Config/Load/Operators (cmd/mutation-framework/config.go): getConfig and the two
--   UnmarshalJSON. The decoders are parameters.
-- - FileSystem: the calls of afero. What one answers may depend on all calls before, which are
--   listed, the last one first.
-- - Copies, Copies/Handles, Copies/Trees (cmd/mutation-framework/copy_utils.go, osutil/copy.go):
--   the copies of the project, on fuel for the levels of directories; the depth of the tree is
--   enough.
-- - Moves, Moves/Fuel, Moves/Laws (cmd/mutation-framework/copy_utils.go): what the runner calls to
--   move the contents of the project away and back, on fuel for the levels of directories; as many
--   as there are is enough. The runner itself takes the outcome of a move as an answer of the system.
-- - Parsing (parse.go): go/parser, go/build and the loader of packages are parameters.
-- - Making, Making/Laws, Making/Files (cmd/mutation-framework/mutate.go): mutateFiles, mutate and
--   saveAST, which read the signals of MutateWalk and write each mutant into a copy of the project.
--   The loop over the map of files is a loop over a list in some order.
-- - Search, Search/Found, Search/Laws, Search/Pattern, Search/Names
--   (cmd/mutation-framework/test_runner.go): the search for the mutants of an earlier run, on
--   fuel for the levels of directories.
-- - Main, Main/Arguments, Main/Laws, Main/Whole (cmd/mutation-framework/main.go): the flags, and the two phases
--   of a run: Making or Search, then Runner. go-flags is a parameter. The configuration is a
--   pointer while the flags are put into it, and a field behind a nil pointer panics.
-- - MutantNames, MutantNames/Laws, MutantNames/Registered (cmd/mutation-framework/mutate.go): the
--   names of the folders of mutants.
-- - Capture, Capture/Laws (compositions/compositions.go): the statistics of a network capture. The
--   packets are a list in the order in which they are read; gopacket's texts are a parameter.
-- - Astutil/Network, Astutil/Network/Laws (astutil/locate.go): the replacement of network calls.
--   The database of network libraries, which a third-party package makes, is a parameter.
-- - Roles, Roles/Laws (compositions/compositions.go): the roles of nodes. The ratio of network
--   calls is the pair of its numerator and its denominator.
-- - Tests: runs of the model, and the theorems at concrete data.
--
-- Not modelled: the select over the channels of a network capture and the opening of its device, the
-- JSON file of the roles, and the command that captures, which call libraries alone. Scores, which
-- are floats, and what is only printed or logged are left out.
pub mod Base
pub mod Ast
pub mod Regex
pub mod Mutator
pub mod MutateWalk
pub mod Astutil
pub mod Operators
pub mod Registry
pub mod Exchange
pub mod Paths
pub mod Runner
pub mod Config
pub mod MutantNames
pub mod Capture
pub mod Roles
pub mod FileSystem
pub mod Copies
pub mod Moves
pub mod Parsing
pub mod Making
pub mod Search
pub mod Main
mod Tests
