-- ===== src/Replog/Fuel.antt =====
-- The fuel of `handle` is enough: messages of a node to itself never nest deeper.
pub mod Base
pub mod Acceptors
pub mod Leaders
pub mod Handle
pub mod Calls
