-- ===== src/Tools.antt =====
-- The tool fabric (crates/lattice-tools/src/lib.rs).
pub mod Types
pub mod Ids
pub mod Capability
pub mod Schema
pub mod Providers
pub mod Catalog
pub mod Search
pub mod Router
pub mod Builtin
pub mod Hex
pub mod Registry
pub mod Reflect
pub mod Routing
pub mod Depth
pub mod Kept
pub mod Refresh
pub mod JsonTypes
pub mod Input
pub mod Form
pub mod Entries
pub mod Stored
