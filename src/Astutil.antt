-- ===== src/Astutil.antt =====
-- The directory astutil: what the mutators find in a tree, and the nodes that they make.
pub mod Query
pub mod Create
pub mod ErrorCode
pub mod Timeout
pub mod ReadZero
pub mod Protocol
pub mod Network
