-- ===== src/Editor/Edits/Loop.antt =====
-- One round of the loop of `apply_transaction`: it splices the text, or fails and writes nothing.
use abraxius_lattice.Base.{
  ℕ, ◌+◌, ◌≤◌, ◌≡◌, sym, ap, ◌∙◌, ◌⊎◌, inl, inr, false, ◌++◌, arith, ltb, append_assoc, Bool-cases,
  le→ltb_false,
}
use abraxius_lattice.Base.Results.{ok, err, Result-cases}
use abraxius_lattice.Base.Text.{Text, byte_len}
use abraxius_lattice.Editor.Rope.{RopeOps, RopeLaws}
use abraxius_lattice.Editor.Rope.Laws.{
  IsBoundary, byte_to_char-boundary, prefix_extends, byte_len-append,
}
use abraxius_lattice.Editor.Types.{EditOperation, AppliedEdit, EditorError, invalid_range}
use abraxius_lattice.Editor.Edits.{ensure_boundary, apply_operation}
use abraxius_lattice.Editor.Edits.Replace.{
  Splice, ensure_boundary-ok, ensure_boundary-IsBoundary, slice-boundary, remove-boundary,
  insert-boundary,
}

-- The operation names a range of the text, between two characters and below the bound.
pub record InRange (bound : ℕ) (o : EditOperation) (t : Text) : Type 0 where
  pub before : Text
  pub deleted : Text
  pub after : Text
  pub splits : t ≡ before ++ (deleted ++ after)
  pub start_at : o.start_byte ≡ byte_len before
  pub end_at : o.end_byte ≡ byte_len before + byte_len deleted
  pub within : o.end_byte ≤ bound

pub edit_of : {bound : ℕ} {t : Text} (o : EditOperation) → InRange bound o t → AppliedEdit
edit_of o h = record { start_byte = o.start_byte; deleted = h.deleted; inserted = o.inserted }

pub InRange-boundaries :
    (bound : ℕ) (o : EditOperation) {t : Text}
    → o.start_byte ≤ o.end_byte
    → o.end_byte ≤ bound
    → IsBoundary t o.start_byte
    → IsBoundary t o.end_byte
    → InRange bound o t
InRange-boundaries bound o le within b b' =
    let same : b.before ++ b.after ≡ b'.before ++ b'.after = sym b.splits ∙ b'.splits in
    let (m, eq, rest) =
      prefix_extends b.before b.after b'.before b'.after same (omega (arith, b.at, b'.at)) in
    record {
      before = b.before;
      deleted = m;
      after = b'.after;
      splits = cc (b.splits, rest);
      start_at = b.at;
      end_at = omega (arith, b'.at, ap byte_len eq, byte_len-append b.before m);
      within = within;
    }

module _ {Rope : Type 0} {ops : RopeOps Rope} (laws : RopeLaws ops) where
  open ops use {chars, slice}

  -- In range the round succeeds, and its edit splices the text.
  pub apply_operation-InRange :
      (bound : ℕ) (o : EditOperation) (r : Rope) (h : InRange bound o (chars r))
      → (r' : Rope) × (apply_operation ops bound o r ≡ (ok (edit_of o h), r'))
        × Splice (edit_of o h) (chars r) (chars r')
        × (chars r' ≡ h.before ++ (o.inserted ++ h.after))
  unfolding apply_operation edit_of
  apply_operation-InRange bound o r h =
      let p = h.before in
      let m = h.deleted in
      let e : chars r ≡ (p ++ m) ++ h.after = h.splits ∙ sym (append_assoc p m h.after) in
      let same : byte_len p + byte_len m ≡ byte_len (p ++ m) = sym (byte_len-append p m) in
      let ordered : ltb o.end_byte o.start_byte ≡ false = ground (arith, h.start_at, h.end_at) in
      let (r1, removed, text1) = remove-boundary laws r p m h.after h.splits in
      let (r2, inserted, text2) = insert-boundary laws r1 p h.after o.inserted text1 in
      (
        r2,
        rw (
          ordered,
          le→ltb_false bound o.end_byte h.within,
          h.start_at,
          h.end_at,
          same,
          ensure_boundary-ok laws r p (m ++ h.after) h.splits,
          ensure_boundary-ok laws r (p ++ m) h.after e,
          byte_to_char-boundary laws r p (m ++ h.after) h.splits,
          byte_to_char-boundary laws r (p ++ m) h.after e,
          removed,
          inserted,
          slice-boundary laws r p m h.after h.splits,
        ),
        record { before = p; after = h.after; from = h.splits; to = text2; at = h.start_at },
        text2,
      )

  -- Otherwise it fails, and the rope is as it was.
  pub apply_operation-cases :
      (bound : ℕ) (o : EditOperation) (r : Rope)
      → InRange bound o (chars r)
        ⊎ ((e : EditorError) × (apply_operation ops bound o r ≡ (err e, r)))
  unfolding apply_operation
  apply_operation-cases bound o r = elim (Bool-cases (ltb o.end_byte o.start_byte)) [
    | inl bad ↦ inr (invalid_range o.start_byte o.end_byte (ops.len_bytes r), rw bad)
    | inr ordered ↦ elim (Bool-cases (ltb bound o.end_byte)) [
      | inl bad ↦ inr (invalid_range o.start_byte o.end_byte (ops.len_bytes r), rw (ordered, bad))
      | inr below ↦ elim (Result-cases (ensure_boundary ops o.start_byte r)) [
        | inr (e, bad) ↦ inr (e, rw (ordered, below, bad))
        | inl (_, first) ↦ elim (Result-cases (ensure_boundary ops o.end_byte r)) [
          | inr (e, bad) ↦ inr (e, rw (ordered, below, first, bad))
          | inl (_, last) ↦ inl (
              InRange-boundaries bound o (ground arith) (ground arith)
                (ensure_boundary-IsBoundary laws o.start_byte r first)
                (ensure_boundary-IsBoundary laws o.end_byte r last))
        ]
      ]
    ]
  ]
