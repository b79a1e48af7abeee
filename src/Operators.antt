-- ===== src/Operators.antt =====
-- The mutation operators of mutator/branch, mutator/expression, mutator/statement and
-- mutator/distributed. A closure that writes a field of a node of another kind does nothing: the
-- pointer that it holds keeps its kind.
pub mod Branch
pub mod Expression
pub mod Statement
pub mod Distributed
pub mod Reversible
pub mod Insert
pub mod RemoveBlock
pub mod Selects
pub mod Reads
pub mod Changes
pub mod Init
