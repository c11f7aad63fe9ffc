-- ===== src/Editor/Document/Atomic.antt =====
-- What `apply_transaction` leaves when it fails: with one operation, the document as it was; with
-- more, the text that the earlier operations have already changed.
use abraxius_lattice.Base.{
  ℕ, ◌≤◌, ◌<◌, ◌≡◌, refl, sym, ap, ◌∙◌, inl, inr, false, List, [], ◌∷◌, ◌++◌, arith, not, ◌==◌,
  Bool-cases, if-true, le→leb, lt→ltb,
}
use abraxius_lattice.Base.Results.{Result, ok, err, continue}
use abraxius_lattice.Editor.Rope.{RopeOps, RopeLaws}
use abraxius_lattice.Editor.Types.{
  EditOperation, EditTransaction, AppliedEdit, EditorError, revision_conflict, invalid_range,
  Document,
}
use abraxius_lattice.Editor.Edits.{sort_by_start, apply_operation, apply_operations}
use abraxius_lattice.Editor.Edits.Loop.{InRange, apply_operation-InRange, apply_operation-cases}
use abraxius_lattice.Editor.Document.{apply_transaction, commit}
use abraxius_lattice.Editor.Document.Edit.{
  fail_if-false, fail_if-true, apply_transaction-ok, apply_transaction-read_only,
}

module _ {Rope : Type 0} {ops : RopeOps Rope} (laws : RopeLaws ops) where
  open ops use {chars, len_bytes}

  loop_of : EditTransaction → Document Rope → Result (List AppliedEdit) EditorError × Rope
  loop_of t d = apply_operations ops (len_bytes d.rope) (sort_by_start t.operations) d.rope

  -- A failing loop leaves its rope in the document, and nothing else changes.
  apply_transaction-err :
      (t : EditTransaction) (d : Document Rope) {e : EditorError} {r : Rope}
      → d.is_read_only ≡ false
      → t.base_revision ≡ d.revision
      → loop_of t d ≡ (err e, r)
      → apply_transaction ops t d ≡ (err e, record d { rope = r })
  unfolding apply_transaction loop_of
  apply_transaction-err t d {e = e} {r = r} free fresh failed =
      let loop = apply_operations ops (len_bytes d.rope) (sort_by_start t.operations) d.rope in
      let last : continue (loop.0, record d { rope = loop.1 }) (commit t)
          ≡ (err e, record d { rope = r }) =
        rw failed in
      fail_if-false d.is_read_only _ d _ free
      ∙ fail_if-false (not (t.base_revision == d.revision)) _ d _ (ground arith)
      ∙ last

  apply_transaction-stale :
      (t : EditTransaction) (d : Document Rope)
      → d.is_read_only ≡ false
      → (t.base_revision == d.revision) ≡ false
      → apply_transaction ops t d ≡ (err (revision_conflict t.base_revision d.revision), d)
  unfolding apply_transaction
  apply_transaction-stale t d free stale =
      fail_if-false d.is_read_only _ d _ free
      ∙ fail_if-true (not (t.base_revision == d.revision)) _ d _ (ground arith)

  apply_operations-one_failed :
      (bound : ℕ) (o : EditOperation) (r : Rope) {e : EditorError}
      → apply_operation ops bound o r ≡ (err e, r)
      → apply_operations ops bound (sort_by_start (o ∷ [])) r ≡ (err e, r)
  unfolding sort_by_start apply_operations
  apply_operations-one_failed bound o r h = rw h

  apply_operations-one_ok :
      (bound : ℕ) (o : EditOperation) (r : Rope) {a : AppliedEdit} {r' : Rope}
      → apply_operation ops bound o r ≡ (ok a, r')
      → apply_operations ops bound (sort_by_start (o ∷ [])) r ≡ (ok (a ∷ []), r')
  unfolding sort_by_start apply_operations
  apply_operations-one_ok bound o r h = rw h

  -- A transaction with one operation is atomic: if it fails, the document is as it was.
  pub apply_transaction-one_atomic :
      (t : EditTransaction) (o : EditOperation) (d : Document Rope) {e : EditorError}
      {d' : Document Rope}
      → t.operations ≡ o ∷ []
      → apply_transaction ops t d ≡ (err e, d')
      → d' ≡ d
  unfolding loop_of
  apply_transaction-one_atomic t o d one h = elim (Bool-cases d.is_read_only) [
    | inl frozen ↦ ap (λ m. m.1) (sym h ∙ apply_transaction-read_only laws t d frozen)
    | inr free ↦ elim (Bool-cases (t.base_revision == d.revision)) [
      | inr stale ↦ ap (λ m. m.1) (sym h ∙ apply_transaction-stale t d free stale)
      | inl same ↦ elim (apply_operation-cases laws (len_bytes d.rope) o d.rope) [
        | inr (x, bad) ↦
            ap (λ m. m.1)
              (sym h
                ∙ apply_transaction-err t d free (ground arith) (
                    ap (λ os. apply_operations ops (len_bytes d.rope) (sort_by_start os) d.rope) one
                    ∙ apply_operations-one_failed (len_bytes d.rope) o d.rope bad))
        | inl range ↦
            let (r, done, _, _) = apply_operation-InRange laws (len_bytes d.rope) o d.rope range in
            let fine = apply_transaction-ok laws t d free (ground arith) (
              ap (λ os. apply_operations ops (len_bytes d.rope) (sort_by_start os) d.rope) one
              ∙ apply_operations-one_ok (len_bytes d.rope) o d.rope done) in
            absurd (cc (ap (λ m. m.0) (sym h ∙ fine)))
      ]
    ]
  ]

  apply_operation-reversed :
      (bound : ℕ) (p : EditOperation) (r : Rope)
      → p.end_byte < p.start_byte
      → apply_operation ops bound p r
        ≡ (err (invalid_range p.start_byte p.end_byte (len_bytes r)), r)
  unfolding apply_operation
  apply_operation-reversed bound p r bad = rw (lt→ltb p.end_byte p.start_byte bad)

  apply_operations-two :
      (bound : ℕ) (o p : EditOperation) (r r' : Rope) {a : AppliedEdit}
      → p.start_byte ≤ o.start_byte
      → p.end_byte < p.start_byte
      → apply_operation ops bound o r ≡ (ok a, r')
      → apply_operations ops bound (sort_by_start (o ∷ p ∷ [])) r
        ≡ (err (invalid_range p.start_byte p.end_byte (len_bytes r')), r')
  unfolding sort_by_start apply_operations
  apply_operations-two bound o p r r' below bad h =
      rw (if-true (o ∷ p ∷ []) (p ∷ o ∷ []) (le→leb p.start_byte o.start_byte below))
        (rw h (rw (apply_operation-reversed o.start_byte p r' bad)))

  -- With two operations a transaction is not atomic: where the first is in range and the second,
  -- further down, has its end before its start, the transaction fails, yet the first operation
  -- stays in the text, while revision, cached hash and undo history are as they were.
  pub apply_transaction-partial :
      (t : EditTransaction) (o p : EditOperation) (d : Document Rope)
      → d.is_read_only ≡ false
      → t.base_revision ≡ d.revision
      → t.operations ≡ o ∷ p ∷ []
      → (range : InRange (len_bytes d.rope) o (chars d.rope)) → p.start_byte ≤ o.start_byte
      → p.end_byte < p.start_byte
      → (e : EditorError) × (d' : Document Rope) × (apply_transaction ops t d ≡ (err e, d'))
        × (chars d'.rope ≡ range.before ++ (o.inserted ++ range.after))
        × (d'.revision ≡ d.revision)
        × (d'.cached_content_hash ≡ d.cached_content_hash)
        × (d'.undo ≡ d.undo)
  unfolding loop_of
  apply_transaction-partial t o p d free fresh two range below bad =
      let (r, done, _, text) = apply_operation-InRange laws (len_bytes d.rope) o d.rope range in
      let failed = apply_transaction-err t d free fresh (
        ap (λ os. apply_operations ops (len_bytes d.rope) (sort_by_start os) d.rope) two
        ∙ apply_operations-two (len_bytes d.rope) o p d.rope r below bad done) in
      (_, record d { rope = r }, failed, text, refl, refl, refl)
