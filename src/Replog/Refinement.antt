-- ===== src/Replog/Refinement.antt =====
-- Every call of a Node is a sequence of steps of the abstract machine.
mod Base
mod Acceptors
mod Leaders
pub mod Calls
