-- ===== src/Editor/Document/Session.antt =====
-- Sessions: sequences of the editing commands and of the caller's transactions on an open document
-- (crates/lattice-editor-core/src/lib.rs).
use abraxius_lattice.Base.{
  ℕ, zero, suc, ◌≡◌, refl, sym, ap, subst, ◌∙◌, false, List, [], ◌∷◌, length, if-false,
}
use abraxius_lattice.Base.Results.{Result, ok, err, Method}
use abraxius_lattice.Base.Text.{Text}
use abraxius_lattice.Editor.Rope.{RopeOps, RopeLaws}
use abraxius_lattice.Editor.Types.{
  EditorSelection, EditorError, HistoryEntry, Document, CaretMovement, EditTransaction,
}
use abraxius_lattice.Editor.Document as Methods
use abraxius_lattice.Editor.Document.History.{CanUndo, IsValid, Placed, apply_transaction-IsValid}
use abraxius_lattice.Editor.Document.Undo.{undo-IsValid, redo-IsValid, undo_entry-ok, undone}
use abraxius_lattice.Editor.Document.Keeps.{
  insert_text-IsValid, delete_backward-IsValid, delete_forward-IsValid, move_caret-IsValid,
  set_selection-IsValid, mark_clean-IsValid,
}

pub data Command : Type 0 where
  insert_text : Text → Command
  delete_backward delete_forward undo redo : Command
  move_caret : CaretMovement → Command
  set_selection : EditorSelection → Command
  mark_clean : ℕ → Command
  transact : EditTransaction → Command

module _ {Rope : Type 0} (ops : RopeOps Rope) where
  -- The method that a command calls.
  unfoldable pub execute : Command → Method (Document Rope) (Unit {0}) EditorError
  execute (insert_text t) = Methods.insert_text ops t
  execute delete_backward = Methods.delete_backward ops
  execute delete_forward = Methods.delete_forward ops
  execute undo = Methods.undo ops
  execute redo = Methods.redo ops
  execute (move_caret m) = Methods.move_caret ops m
  execute (set_selection s) = Methods.set_selection ops s
  execute (mark_clean revision) = Methods.mark_clean revision
  execute (transact t) = Methods.apply_transaction ops t

  -- The document after a session; a failed command does not end it.
  unfoldable pub run : List Command → Document Rope → Document Rope
  unfolding execute
  run [] d = d
  run (c ∷ cs) d = run cs (execute c d).1

  -- A caller's transaction fits: if it succeeds, its selections stand between the characters of the
  -- texts before and after it, and if it fails, it has written nothing.
  abbrev pub HasFit :
      EditTransaction → Document Rope → Result (Unit {0}) EditorError → Document Rope → Type 0
  HasFit t d (ok _) d' =
      Placed t.before_selection (ops.chars d.rope) × Placed t.after_selection (ops.chars d'.rope)
  HasFit t d (err _) d' = d' ≡ d

  abbrev pub IsFitting : Command → Document Rope → Type 0
  IsFitting (transact t) d = let out = Methods.apply_transaction ops t d in HasFit t d out.0 out.1
  IsFitting (insert_text t) d = Unit {0}
  IsFitting delete_backward d = Unit {0}
  IsFitting delete_forward d = Unit {0}
  IsFitting undo d = Unit {0}
  IsFitting redo d = Unit {0}
  IsFitting (move_caret m) d = Unit {0}
  IsFitting (set_selection s) d = Unit {0}
  IsFitting (mark_clean n) d = Unit {0}

  -- Every transaction of a session fits the document on which it is called.
  abbrev pub AllFitting : List Command → Document Rope → Type 0
  AllFitting [] d = Unit {0}
  AllFitting (c ∷ cs) d = IsFitting c d × AllFitting cs (execute c d).1

  -- `undo`, that many times.
  unfoldable pub undo_times : ℕ → Document Rope → Document Rope
  undo_times zero d = d
  undo_times (suc n) d = undo_times n (Methods.undo ops d).1

module _ {Rope : Type 0} {ops : RopeOps Rope} (laws : RopeLaws ops) where
  open ops use {chars}

  transact-IsValid :
      (t : EditTransaction) {origin : Text} (d : Document Rope)
      (answer : Result (Unit {0}) EditorError) (d' : Document Rope)
      → Methods.apply_transaction ops t d ≡ (answer, d')
      → IsValid ops origin d
      → HasFit ops t d answer d'
      → IsValid ops origin d'
  transact-IsValid t d (ok _) d' h v (before, after) =
      apply_transaction-IsValid laws t d v h before after
  transact-IsValid t {origin} d (err _) d' h v same = subst (IsValid ops origin) (sym same) v

  execute-IsValid :
      (c : Command) {origin : Text} (d : Document Rope)
      → IsValid ops origin d
      → IsFitting ops c d
      → IsValid ops origin (execute ops c d).1
  unfolding execute
  execute-IsValid (insert_text t) d v f = insert_text-IsValid laws t d v
  execute-IsValid delete_backward d v f = delete_backward-IsValid laws d v
  execute-IsValid delete_forward d v f = delete_forward-IsValid laws d v
  execute-IsValid undo d v f = undo-IsValid laws d v
  execute-IsValid redo d v f = redo-IsValid laws d v
  execute-IsValid (move_caret m) d v f = move_caret-IsValid laws m d v
  execute-IsValid (set_selection s) d v f = set_selection-IsValid laws s d v
  execute-IsValid (mark_clean n) d v f = mark_clean-IsValid laws n d v
  execute-IsValid (transact t) d v f =
      let out = Methods.apply_transaction ops t d in transact-IsValid t d out.0 out.1 refl v f

  -- A session of editing commands, of which any may fail, and of fitting transactions keeps the
  -- invariant: the history replays, and the selection and those of the history stand between
  -- characters. A transaction fits if it succeeds and its selections stand between characters of
  -- the texts before and after it, or if it fails and leaves the document as it was.
  pub run-IsValid :
      (cs : List Command) {origin : Text} (d : Document Rope)
      → IsValid ops origin d
      → AllFitting ops cs d
      → IsValid ops origin (run ops cs d)
  unfolding run
  run-IsValid [] d v f = v
  run-IsValid (c ∷ cs) d v (f, fs) = run-IsValid cs (execute ops c d).1 (execute-IsValid c d v f) fs

  undo_times-stack :
      (us : List HistoryEntry) {origin : Text} (d : Document Rope)
      → d.undo ≡ us
      → CanUndo origin us (chars d.rope)
      → d.is_read_only ≡ false
      → chars (undo_times ops (length us) d).rope ≡ origin
  unfolding undo_times Methods.undo
  undo_times-stack [] d e c free = c
  undo_times-stack (h ∷ hs) {origin} d e (t0, rec, c) free =
      let (r, done, text) = undo_entry-ok laws h hs d rec.applied in
      let first : Methods.undo ops d ≡ (ok tt, undone laws h hs r d) =
        if-false _ _ free ∙ ap (λ us. Methods.undo_entry ops us d) e ∙ done in
      subst (λ m. chars (undo_times ops (length hs) m.1).rope ≡ origin) (sym first)
        (undo_times-stack hs (undone laws h hs r d) refl (subst (CanUndo origin hs) (sym text) c)
          free)

  -- In a document opened with the text `origin` that is writable, undoing as often as the history
  -- is long gives back `origin`, after a session of editing commands, of which any may fail, and of
  -- fitting transactions: those that succeed with selections between characters of the texts before
  -- and after, or fail and leave the document as it was.
  pub undo_times-run :
      (cs : List Command) {origin : Text} (d : Document Rope)
      → IsValid ops origin d
      → AllFitting ops cs d
      → (run ops cs d).is_read_only ≡ false
      → chars (undo_times ops (length (run ops cs d).undo) (run ops cs d)).rope ≡ origin
  undo_times-run cs d v f free =
      undo_times-stack (run ops cs d).undo (run ops cs d) refl (run-IsValid cs d v f).back free
