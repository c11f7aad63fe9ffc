-- ===== src/Editor/Types.antt =====
-- The data of crates/lattice-editor-core/src/lib.rs: selections, edits, history, errors and the
-- document. A stack, `undo` or `redo`, is a list whose head is the last element of the vector.
use abraxius_lattice.Base.{ℕ, Bool, Option, List, ltb, if◌then◌else◌}
use abraxius_lattice.Base.Text.{Text}

pub record EditorSelection : Type 0 where
  pub anchor : ℕ
  pub head : ℕ

unfoldable pub caret : ℕ → EditorSelection
caret offset = record { anchor = offset; head = offset }

unfoldable pub start : EditorSelection → ℕ
start s = if ltb s.anchor s.head then s.anchor else s.head

unfoldable pub end : EditorSelection → ℕ
end s = if ltb s.head s.anchor then s.anchor else s.head

pub record EditOperation : Type 0 where
  pub start_byte : ℕ
  pub end_byte : ℕ
  pub inserted : Text

unfoldable pub replace : ℕ → ℕ → Text → EditOperation
replace start_byte end_byte inserted = record {
  start_byte = start_byte;
  end_byte = end_byte;
  inserted = inserted;
}

pub record EditTransaction : Type 0 where
  pub base_revision : ℕ
  pub operations : List EditOperation
  pub before_selection : EditorSelection
  pub after_selection : EditorSelection

pub record AppliedEdit : Type 0 where
  pub start_byte : ℕ
  pub deleted : Text
  pub inserted : Text

pub record HistoryEntry : Type 0 where
  pub edits : List AppliedEdit
  pub before_selection : EditorSelection
  pub after_selection : EditorSelection

pub data EditorError : Type 0 where
  document_exists document_not_found : ℕ → EditorError
  read_only : EditorError
  revision_conflict : ℕ → ℕ → EditorError
  invalid_range : ℕ → ℕ → ℕ → EditorError
  invalid_utf8_boundary : ℕ → EditorError
  invalid_edit : Text → EditorError
  no_undo no_redo : EditorError

-- The cached hash is a digest, the bytes of a `blake3::Hash`.
pub record Document (Rope : Type 0) : Type 0 where
  pub id : ℕ
  pub rope : Rope
  pub revision : ℕ
  pub clean_revision : ℕ
  pub is_read_only : Bool
  pub selection : EditorSelection
  pub cached_content_hash : Option (List ℕ)
  pub undo : List HistoryEntry
  pub redo : List HistoryEntry

pub data CaretMovement : Type 0 where
  left right home to_end : CaretMovement
