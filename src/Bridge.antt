-- ===== src/Bridge.antt =====
-- The bridge to the Studio companion plugin (crates/lattice-studio-bridge/src/lib.rs).
pub mod Types
pub mod Pairing
pub mod Session
pub mod Broker
pub mod Http
