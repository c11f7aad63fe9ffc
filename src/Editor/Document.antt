-- ===== src/Editor/Document.antt =====
-- The methods of `Document` (crates/lattice-editor-core/src/lib.rs) that change a document. What a
-- method has written when it fails stays written.
pub mod History
pub mod Undo
pub mod Edit
pub mod Atomic
pub mod Caret
pub mod Commands
pub mod Keeps
pub mod Session
use abraxius_lattice.Base.{
  ℕ, ◌+◌, ◌-◌, Bool, true, false, Option, none, some, List, [], ◌∷◌, reverse, not, ltb, leb, ◌==◌,
  ◌||◌, length, saturating_add, if◌then◌else◌,
}
use abraxius_lattice.Base.Results.{
  Result, ok, err, ok_or, and_then, continue, Method, ◌>>=◌, ◌>>◌, pure, gets, asks,
}
use abraxius_lattice.Base.Text.{Text, codes, byte_len, ends_with}
use abraxius_lattice.Editor.Rope.{RopeOps}
use abraxius_lattice.Editor.Types.{
  EditorSelection, caret, start, end, replace, EditTransaction, AppliedEdit, HistoryEntry,
  EditorError, read_only, revision_conflict, invalid_range, invalid_utf8_boundary, no_undo, no_redo,
  Document, CaretMovement, left, right, home, to_end,
}
use abraxius_lattice.Editor.Edits.{
  fail_if, sort_by_start, ensure_boundary, apply_operations, undo_edits, redo_edits,
}

module _ {Rope : Type 0} where
  unfoldable pub is_modified : Document Rope → Bool
  is_modified d = not (d.revision == d.clean_revision)

  -- A method of the rope, on the rope of a document.
  abbrev pub on_rope {ℓ} :
      {A : Type ℓ} → Method Rope A EditorError → Method (Document Rope) A EditorError
  on_rope m d = ((m d.rope).0, record d { rope = (m d.rope).1 })

  unfoldable pub mark_clean : ℕ → Method (Document Rope) (Unit {0}) EditorError
  mark_clean revision d =
      if not (revision == d.revision)
      then (err (revision_conflict d.revision revision), d)
      else (ok tt, record d { clean_revision = revision })

  -- The end of `apply_transaction`: a transaction that applied no edit changes nothing.
  unfoldable pub commit :
      EditTransaction → List AppliedEdit → Method (Document Rope) (Unit {0}) EditorError
  commit t [] d = (ok tt, d)
  commit t (a ∷ rest) d = (
    ok tt,
    record d {
      cached_content_hash = none;
      revision = saturating_add d.revision 1;
      undo =
          record {
            edits = a ∷ rest;
            before_selection = t.before_selection;
            after_selection = t.after_selection;
          }
          ∷ d.undo;
      redo = [];
      selection = t.after_selection;
    },
  )

-- The characters of a line without its final `\n` or `\r\n`.
unfoldable pub line_length : Text → ℕ
line_length t =
    if ends_with t (0x0a ∷ [])
    then if ends_with t (0x0d ∷ 0x0a ∷ []) then length t - 1 - 1 else length t - 1
    else length t

module _ {Rope : Type 0} (ops : RopeOps Rope) where
  open ops use {
    len_bytes, try_byte_to_char, try_char_to_byte, try_char_to_line, line_to_char, char_to_byte,
    line,
  }

  unfoldable pub set_selection : EditorSelection → Method (Document Rope) (Unit {0}) EditorError
  set_selection s d =
      if ltb (len_bytes d.rope) s.anchor || ltb (len_bytes d.rope) s.head
      then (err (invalid_range (start s) (end s) (len_bytes d.rope)), d)
      else continue (ensure_boundary ops s.anchor d.rope, d)
          λ _ _.
            continue (ensure_boundary ops s.head d.rope, d)
              λ _ _. (ok tt, record d { selection = s })

  unfoldable pub apply_transaction : EditTransaction → Method (Document Rope) (Unit {0}) EditorError
  unfolding commit
  apply_transaction t = do
    frozen ← gets (λ d. d.is_read_only)
    fail_if frozen read_only
    revision ← gets (λ d. d.revision)
    fail_if (not (t.base_revision == revision)) (revision_conflict t.base_revision revision)
    bound ← gets (λ d. len_bytes d.rope)
    applied ← on_rope (apply_operations ops bound (sort_by_start t.operations))
    commit t applied

  -- The transaction that the editing commands build: one operation.
  unfoldable pub edit : ℕ → ℕ → Text → ℕ → Method (Document Rope) (Unit {0}) EditorError
  edit from to inserted after d =
      apply_transaction
        (record {
          base_revision = d.revision;
          operations = replace from to inserted ∷ [];
          before_selection = d.selection;
          after_selection = caret after;
        })
        d

  unfoldable pub insert_text : Text → Method (Document Rope) (Unit {0}) EditorError
  insert_text text d =
      edit (start d.selection) (end d.selection) text (start d.selection + byte_len text) d

  -- The byte offset of the character before, or behind, the one at a byte offset.
  unfoldable pub char_before : ℕ → Rope → Result ℕ EditorError
  char_before head rope =
      and_then (ok_or (try_byte_to_char rope head) (invalid_utf8_boundary head))
        λ c. ok_or (try_char_to_byte rope (c - 1)) (invalid_utf8_boundary head)

  unfoldable pub char_after : ℕ → Rope → Result ℕ EditorError
  char_after head rope =
      and_then (ok_or (try_byte_to_char rope head) (invalid_utf8_boundary head))
        λ c. ok_or (try_char_to_byte rope (c + 1)) (invalid_utf8_boundary head)

  unfoldable pub delete_selected : Method (Document Rope) (Unit {0}) EditorError
  delete_selected d = edit (start d.selection) (end d.selection) [] (start d.selection) d

  unfoldable pub delete_backward : Method (Document Rope) (Unit {0}) EditorError
  delete_backward d =
      if not (start d.selection == end d.selection)
      then delete_selected d
      else if d.selection.head == 0
      then (ok tt, d)
      else continue (char_before d.selection.head d.rope, d)
          λ from _. edit from d.selection.head [] from d

  unfoldable pub delete_forward : Method (Document Rope) (Unit {0}) EditorError
  delete_forward d =
      if not (start d.selection == end d.selection)
      then delete_selected d
      else if leb (len_bytes d.rope) d.selection.head
      then (ok tt, d)
      else continue (char_after d.selection.head d.rope, d)
          λ to _. edit d.selection.head to [] d.selection.head d

  unfoldable pub line_of : ℕ → Rope → Result ℕ EditorError
  line_of head rope =
      and_then (ok_or (try_byte_to_char rope head) (invalid_utf8_boundary head))
        λ c. ok_or (try_char_to_line rope c) (invalid_utf8_boundary head)

  unfoldable pub caret_target : CaretMovement → EditorSelection → Rope → Result ℕ EditorError
  caret_target left s rope =
      if not (start s == end s)
      then ok (start s)
      else if s.head == 0
      then ok 0
      else char_before s.head rope
  caret_target right s rope =
      if not (start s == end s)
      then ok (end s)
      else if leb (len_bytes rope) s.head
      then ok (len_bytes rope)
      else char_after s.head rope
  caret_target home s rope =
      and_then (line_of s.head rope) λ l. ok (char_to_byte rope (line_to_char rope l))
  caret_target to_end s rope =
      and_then (line_of s.head rope)
        λ l. ok (char_to_byte rope (line_to_char rope l + line_length (line rope l)))

  unfoldable pub move_caret : CaretMovement → Method (Document Rope) (Unit {0}) EditorError
  move_caret direction d =
      continue (caret_target direction d.selection d.rope, d)
        λ offset _. (ok tt, record d { selection = caret offset })

  -- `self.undo.pop()`, and the rest of `undo`; the entry is gone even if an edit fails.
  unfoldable pub undo_entry : List HistoryEntry → Method (Document Rope) (Unit {0}) EditorError
  undo_entry [] d = (err no_undo, d)
  undo_entry (entry ∷ rest) d =
      continue (on_rope (undo_edits ops (reverse entry.edits)) (record d { undo = rest })) λ _ d'. (
        ok tt,
        record d' {
          revision = saturating_add d'.revision 1;
          cached_content_hash = none;
          selection = entry.before_selection;
          redo = entry ∷ d'.redo;
        },
      )

  unfoldable pub undo : Method (Document Rope) (Unit {0}) EditorError
  unfolding undo_entry
  undo d = if d.is_read_only then (err read_only, d) else undo_entry d.undo d

  unfoldable pub redo_entry : List HistoryEntry → Method (Document Rope) (Unit {0}) EditorError
  redo_entry [] d = (err no_redo, d)
  redo_entry (entry ∷ rest) d =
      continue (on_rope (redo_edits ops entry.edits) (record d { redo = rest })) λ _ d'. (
        ok tt,
        record d' {
          revision = saturating_add d'.revision 1;
          cached_content_hash = none;
          selection = entry.after_selection;
          undo = entry ∷ d'.undo;
        },
      )

  unfoldable pub redo : Method (Document Rope) (Unit {0}) EditorError
  unfolding redo_entry
  redo d = if d.is_read_only then (err read_only, d) else redo_entry d.redo d
