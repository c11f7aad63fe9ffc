-- ===== src/Platform.antt =====
-- The platform crate (crates/lattice-platform): the paths of Wine guests.
pub mod WinePath
