-- ===== src/Tests.antt =====
-- Runs of the model, and the theorems at concrete data.
pub mod Samples
mod Walks
mod Operations
mod Runs
mod Configs
mod Captures
mod Copying
mod Phases
mod Tools
