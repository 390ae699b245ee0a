-- ===== src/Replog.antt =====
-- internal/replog: the Multi-Paxos replicated log, one Node per replica.
pub mod Message
pub mod Durable
pub mod State
pub mod Validity
pub mod Plumbing
pub mod Acceptor
pub mod Leader
pub mod Handle
pub mod Calls
pub mod Machine
pub mod Refinement
pub mod Fuel
pub mod Run
mod Tests
