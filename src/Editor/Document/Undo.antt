-- ===== src/Editor/Document/Undo.antt =====
-- `undo` and `redo`: they keep the invariant, and what they give back.
use abraxius_lattice.Base.{
  ◌≡◌, refl, ap, subst, sym, if-both, if-false, ◌≢◌, ◌∙◌, saturating_add, ◌∙◌, inl, inr, false,
  none, List, [], ◌∷◌, arith, Bool-cases,
}
use abraxius_lattice.Base.Results.{Result, ok}
use abraxius_lattice.Base.Text.{Text}
use abraxius_lattice.Editor.Rope.{RopeOps, RopeLaws}
use abraxius_lattice.Editor.Types.{
  EditTransaction, AppliedEdit, HistoryEntry, EditorError, Document,
}
use abraxius_lattice.Editor.Edits.Chain.{
  Applied, apply_operations-Applied, undo_edits-Applied, redo_edits-Applied,
  apply_operations-ne-nil,
}
use abraxius_lattice.Editor.Document.{apply_transaction, commit, undo, undo_entry, redo, redo_entry}
use abraxius_lattice.Editor.Document.History.{
  CanUndo, CanRedo, IsValid, committed, apply_transaction-eq-ok,
}

-- The entry that a transaction pushes.
abbrev entry_of : EditTransaction → List AppliedEdit → HistoryEntry
entry_of t es = record {
  edits = es;
  before_selection = t.before_selection;
  after_selection = t.after_selection;
}

module _ {Rope : Type 0} {ops : RopeOps Rope} (laws : RopeLaws ops) where
  open ops use {chars}

  -- What `undo` and `redo` leave.
  abbrev pub undone : HistoryEntry → List HistoryEntry → Rope → Document Rope → Document Rope
  undone h hs r d = record d {
    rope = r;
    revision = saturating_add d.revision 1;
    selection = h.before_selection;
    cached_content_hash = none;
    undo = hs;
    redo = h ∷ d.redo;
  }

  abbrev pub redone : HistoryEntry → List HistoryEntry → Rope → Document Rope → Document Rope
  redone h hs r d = record d {
    rope = r;
    revision = saturating_add d.revision 1;
    selection = h.after_selection;
    cached_content_hash = none;
    undo = h ∷ d.undo;
    redo = hs;
  }

  pub undo_entry-ok :
      (h : HistoryEntry) (hs : List HistoryEntry) (d : Document Rope) {t : Text}
      → Applied h.edits t (chars d.rope)
      → (r : Rope) × (undo_entry ops (h ∷ hs) d ≡ (ok tt, undone h hs r d)) × (chars r ≡ t)
  unfolding undo_entry
  undo_entry-ok h hs d a =
      let (r, done, text) = undo_edits-Applied laws h.edits d.rope a refl in (r, rw done, text)

  redo_entry-ok :
      (h : HistoryEntry) (hs : List HistoryEntry) (d : Document Rope) {t : Text}
      → Applied h.edits (chars d.rope) t
      → (r : Rope) × (redo_entry ops (h ∷ hs) d ≡ (ok tt, redone h hs r d)) × (chars r ≡ t)
  unfolding redo_entry
  redo_entry-ok h hs d a =
      let (r, done, text) = redo_edits-Applied laws h.edits d.rope a refl in (r, rw done, text)

  undo_entry-IsValid :
      {origin : Text} (us : List HistoryEntry) (d : Document Rope)
      → IsValid ops origin d
      → CanUndo origin us (chars d.rope)
      → IsValid ops origin (undo_entry ops us d).1
  undo_entry-IsValid [] d v c = unfold undo_entry in v
  undo_entry-IsValid (h ∷ hs) d v (t0, rec, c) =
      let (r, done, text) = undo_entry-ok h hs d rec.applied in
      rw done (record {
        back = rw text c;
        forth = (chars d.rope, rw text rec, v.forth);
        placed = rw text rec.placed_before;
      })

  redo_entry-IsValid :
      {origin : Text} (rs : List HistoryEntry) (d : Document Rope)
      → IsValid ops origin d
      → CanRedo rs (chars d.rope)
      → IsValid ops origin (redo_entry ops rs d).1
  redo_entry-IsValid [] d v c = unfold redo_entry in v
  redo_entry-IsValid (h ∷ hs) d v (t1, rec, c) =
      let (r, done, text) = redo_entry-ok h hs d rec.applied in
      rw done (record {
        back = (chars d.rope, rw text rec, v.back);
        forth = rw text c;
        placed = rw text rec.placed_after;
      })

  -- Undo and redo keep the invariant, also where they fail.
  pub undo-IsValid :
      {origin : Text} (d : Document Rope) → IsValid ops origin d → IsValid ops origin (undo ops d).1
  unfolding undo
  undo-IsValid {origin} d v =
      if-both (λ (m : Result (Unit {0}) EditorError × Document Rope). IsValid ops origin m.1)
        d.is_read_only v (undo_entry-IsValid d.undo d v v.back)

  pub redo-IsValid :
      {origin : Text} (d : Document Rope) → IsValid ops origin d → IsValid ops origin (redo ops d).1
  unfolding redo
  redo-IsValid {origin} d v =
      if-both (λ (m : Result (Unit {0}) EditorError × Document Rope). IsValid ops origin m.1)
        d.is_read_only v (redo_entry-IsValid d.redo d v v.forth)

  undo-committed :
      (t : EditTransaction) (es : List AppliedEdit) (r : Rope) (d : Document Rope)
      → es ≢ []
      → Applied es (chars d.rope) (chars r)
      → d.is_read_only ≡ false
      → (d' : Document Rope) × (undo ops (committed ops t es r d) ≡ (ok tt, d'))
        × (chars d'.rope ≡ chars d.rope)
        × (d'.selection ≡ t.before_selection)
        × (d'.undo ≡ d.undo)
  unfolding undo commit
  undo-committed t [] r d ne a free = absurd (ne refl)
  undo-committed t (e ∷ es) r d ne a free =
      let d1 = committed ops t (e ∷ es) r d in
      let (r', done, text) = undo_entry-ok (entry_of t (e ∷ es)) d.undo d1 a in
      (undone (entry_of t (e ∷ es)) d.undo r' d1, if-false _ _ free ∙ done, text, refl, refl)

  -- After a successful transaction with at least one operation `undo` succeeds. It gives back the
  -- text that the transaction found, the selection that the transaction names as the one before,
  -- and the older history.
  pub undo-apply_transaction :
      (t : EditTransaction) (d : Document Rope) {u : Unit {0}} {d' : Document Rope}
      → t.operations ≢ []
      → apply_transaction ops t d ≡ (ok u, d')
      → (d'' : Document Rope) × (undo ops d' ≡ (ok tt, d''))
        × (chars d''.rope ≡ chars d.rope)
        × (d''.selection ≡ t.before_selection)
        × (d''.undo ≡ d.undo)
  undo-apply_transaction t d ne h =
      let (es, r, loop, final, free, _) = apply_transaction-eq-ok ops t d h in
      let recorded : es ≢ [] = apply_operations-ne-nil ops _ t.operations d.rope ne loop in
      rw final (undo-committed t es r d recorded (apply_operations-Applied laws _ _ _ loop) free)

  redo-undo_entry :
      (origin : Text) (us : List HistoryEntry) (d : Document Rope) {u : Unit {0}}
      {d' : Document Rope}
      → CanUndo origin us (chars d.rope)
      → d.is_read_only ≡ false
      → undo_entry ops us d ≡ (ok u, d')
      → (d'' : Document Rope) × (redo ops d' ≡ (ok tt, d''))
        × (chars d''.rope ≡ chars d.rope)
        × (d''.undo ≡ us)
        × (d''.redo ≡ d.redo)
  unfolding redo
  redo-undo_entry origin [] d c free h = absurd (unfold undo_entry in cc)
  redo-undo_entry origin (x ∷ hs) d {d' = d'} (t0, rec, c) free h =
      let (r, done, text) = undo_entry-ok x hs d rec.applied in
      let same : d' ≡ undone x hs r d = ap (λ m. m.1) (sym h ∙ done) in
      let (r', done', text') =
        redo_entry-ok x d.redo (undone x hs r d)
          (subst (λ s. Applied x.edits s (chars d.rope)) (sym text) rec.applied) in
      rw same (redone x d.redo r' (undone x hs r d), if-false _ _ free ∙ done', text', refl, refl)

  -- In a document that keeps the invariant `redo` after a successful `undo` succeeds, and gives back
  -- the text and both stacks as they were before the `undo`.
  pub redo-undo :
      {origin : Text} (d : Document Rope) {u : Unit {0}} {d' : Document Rope}
      → IsValid ops origin d
      → undo ops d ≡ (ok u, d')
      → (d'' : Document Rope) × (redo ops d' ≡ (ok tt, d''))
        × (chars d''.rope ≡ chars d.rope)
        × (d''.undo ≡ d.undo)
        × (d''.redo ≡ d.redo)
  unfolding undo
  redo-undo d v h = elim (Bool-cases d.is_read_only) [
    | inl frozen ↦ absurd (ground arith)
    | inr free ↦ redo-undo_entry _ d.undo d v.back free (sym (if-false _ _ free) ∙ h)
  ]
