-- ===== src/Editor.antt =====
-- crates/lattice-editor-core: documents, their edits and their history.
pub mod Rope
pub mod Types
pub mod Edits
pub mod Document
pub mod View
pub mod Documents
pub mod Sample
