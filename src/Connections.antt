-- ===== src/Connections.antt =====
-- The connection broker (crates/lattice-connections): its data, the store of results, the lifecycle
-- of the providers and the calls of tools.
pub mod Types
pub mod Store
pub mod Broker
pub mod Call
