-- ===== src/Editor/Edits/Chain.antt =====
-- Lists of edits that lead from one text to another: the loop of `apply_transaction` makes them,
-- the loop of `undo` takes them back and the loop of `redo` makes them again.
use abraxius_lattice.Base.{
  ℕ, ◌+◌, ◌≡◌, refl, sym, subst, ◌∙◌, inl, inr, List, [], ◌∷◌, ◌++◌, reverse, reverse-cons, arith,
  ◌≢◌,
}
use abraxius_lattice.Base.Results.{Result, ok, err, continue, continue-eq-ok, pure, ◌>>=◌}
use abraxius_lattice.Base.Text.{Text, byte_len}
use abraxius_lattice.Editor.Rope.{RopeOps, RopeLaws}
use abraxius_lattice.Editor.Types.{EditOperation, AppliedEdit, EditorError}
use abraxius_lattice.Editor.Edits.{
  insert_by_start, sort_by_start, replace_bytes, apply_operation, apply_operations, undo_edits,
  redo_edits,
}
use abraxius_lattice.Editor.Edits.Replace.{Splice, replace_bytes-boundary}
use abraxius_lattice.Editor.Edits.Loop.{edit_of, apply_operation-InRange, apply_operation-cases}

-- The edits, one after the other, take `t` to `t'`.
abbrev pub Applied : List AppliedEdit → Text → Text → Type 0
Applied [] t t' = t ≡ t'
Applied (e ∷ es) t t' = (u : Text) × Splice e t u × Applied es u t'

module _ {Rope : Type 0} {ops : RopeOps Rope} (laws : RopeLaws ops) where
  open ops use {chars}

  -- What a run of the loop from `r` has done, if it did not fail.
  abbrev Leads : Rope → Result (List AppliedEdit) EditorError × Rope → Type 0
  Leads r (ok es, r') = Applied es (chars r) (chars r')
  Leads r (err e, r') = Unit

  Leads-cons :
      (e : AppliedEdit) (r r1 : Rope) (m : Result (List AppliedEdit) EditorError × Rope)
      → Splice e (chars r) (chars r1)
      → Leads r1 m
      → Leads r (continue m (λ more s. (ok (e ∷ more), s)))
  Leads-cons e r r1 (ok es, r') s a = (chars r1, s, a)
  Leads-cons e r r1 (err x, r') s a = tt

  apply_operations-Leads :
      (bound : ℕ) (os : List EditOperation) (r : Rope) → Leads r (apply_operations ops bound os r)
  unfolding apply_operations
  apply_operations-Leads bound [] r = refl
  apply_operations-Leads bound (o ∷ os) r = elim (apply_operation-cases laws bound o r) [
    | inr (e, bad) ↦ rw bad tt
    | inl range ↦
        let (r1, done, s, _) = apply_operation-InRange laws bound o r range in
        rw done (Leads-cons (edit_of o range) r r1 _ s (apply_operations-Leads o.start_byte os r1))
  ]

  -- What the loop returns leads from the old text to the new one.
  pub apply_operations-Applied :
      (bound : ℕ) (os : List EditOperation) (r : Rope) {es : List AppliedEdit} {r' : Rope}
      → apply_operations ops bound os r ≡ (ok es, r')
      → Applied es (chars r) (chars r')
  apply_operations-Applied bound os r h = subst (Leads r) h (apply_operations-Leads bound os r)

  -- Between the text after an edit and the text before it, `replace_bytes` goes both ways.
  undo_one :
      (e : AppliedEdit) (r : Rope) {t t' : Text}
      → Splice e t t'
      → chars r ≡ t'
      → (r' : Rope) × (replace_bytes ops e.start_byte
            (e.start_byte + byte_len e.inserted)
            e.deleted
            r
          ≡ (ok tt, r'))
        × (chars r' ≡ t)
  undo_one e r s same =
      let (r', done, text) =
        replace_bytes-boundary laws r s.before e.inserted s.after e.deleted (same ∙ s.to) in
      (r', rw (s.at) done, text ∙ sym s.from)

  redo_one :
      (e : AppliedEdit) (r : Rope) {t t' : Text}
      → Splice e t t'
      → chars r ≡ t
      → (r' : Rope) × (replace_bytes ops e.start_byte
            (e.start_byte + byte_len e.deleted)
            e.inserted
            r
          ≡ (ok tt, r'))
        × (chars r' ≡ t')
  redo_one e r s same =
      let (r', done, text) =
        replace_bytes-boundary laws r s.before e.deleted s.after e.inserted (same ∙ s.from) in
      (r', rw (s.at) done, text ∙ sym s.to)

  undo_edits-append :
      (es : List AppliedEdit) (e : AppliedEdit) (r : Rope) {r1 r2 : Rope}
      → undo_edits ops es r ≡ (ok tt, r1)
      → replace_bytes ops e.start_byte (e.start_byte + byte_len e.inserted) e.deleted r1
        ≡ (ok tt, r2)
      → undo_edits ops (es ++ e ∷ []) r ≡ (ok tt, r2)
  unfolding undo_edits
  undo_edits-append [] e r {r1} {r2} h h' = let same : r ≡ r1 = cc in rw (same, h')
  undo_edits-append (x ∷ es) e r h h' =
      let (_, r', done, rest) =
        continue-eq-ok
          (replace_bytes ops x.start_byte (x.start_byte + byte_len x.inserted) x.deleted r)
          (λ _. undo_edits ops es) h in
      rw done (undo_edits-append es e r' rest h')

  -- Taking the edits back in reverse order restores the text that they started from.
  pub undo_edits-Applied :
      (es : List AppliedEdit) (r : Rope) {t t' : Text}
      → Applied es t t'
      → chars r ≡ t'
      → (r' : Rope) × (undo_edits ops (reverse es) r ≡ (ok tt, r')) × (chars r' ≡ t)
  unfolding undo_edits
  undo_edits-Applied [] r a same = (r, refl, same ∙ sym a)
  undo_edits-Applied (e ∷ es) r (u, s, a) same =
      let (r1, done1, text1) = undo_edits-Applied es r a same in
      let (r2, done2, text2) = undo_one e r1 s text1 in
      (r2, rw reverse-cons (undo_edits-append (reverse es) e r done1 done2), text2)

  -- Making them again in their order leads to the text that they ended in.
  pub redo_edits-Applied :
      (es : List AppliedEdit) (r : Rope) {t t' : Text}
      → Applied es t t'
      → chars r ≡ t
      → (r' : Rope) × (redo_edits ops es r ≡ (ok tt, r')) × (chars r' ≡ t')
  unfolding redo_edits
  redo_edits-Applied [] r a same = (r, refl, same ∙ a)
  redo_edits-Applied (e ∷ es) r (u, s, a) same =
      let (r1, done1, text1) = redo_one e r s same in
      let (r2, done2, text2) = redo_edits-Applied es r1 a text1 in (r2, rw done1 done2, text2)

-- A loop over at least one operation returns at least one edit.
insert_by_start-ne-nil : (o : EditOperation) (os : List EditOperation) → insert_by_start o os ≢ []
unfolding insert_by_start
insert_by_start-ne-nil o [] h = cc
insert_by_start-ne-nil o (p ∷ ps) h = ground arith

sort_by_start-ne-nil : (os : List EditOperation) → os ≢ [] → sort_by_start os ≢ []
unfolding sort_by_start
sort_by_start-ne-nil [] h = h
sort_by_start-ne-nil (o ∷ os) h = insert_by_start-ne-nil o (sort_by_start os)

module _ {Rope : Type 0} (ops : RopeOps Rope) where
  apply_operations-eq-nil :
      (bound : ℕ) (os : List EditOperation) (r : Rope) {r' : Rope}
      → apply_operations ops bound os r ≡ (ok [], r')
      → os ≡ []
  unfolding apply_operations
  apply_operations-eq-nil bound [] r h = refl
  apply_operations-eq-nil bound (o ∷ os) r h =
      let (e, r1, _, h1) =
        continue-eq-ok (apply_operation ops bound o r)
          (λ applied. apply_operations ops o.start_byte os >>= λ more. pure (applied ∷ more)) h in
      let (es, r2, _, h2) =
        continue-eq-ok (apply_operations ops o.start_byte os r1) (λ more. pure (e ∷ more)) h1 in
      absurd (cc)

  pub apply_operations-ne-nil :
      (bound : ℕ) (os : List EditOperation) (r : Rope) {es : List AppliedEdit} {r' : Rope}
      → os ≢ []
      → apply_operations ops bound (sort_by_start os) r ≡ (ok es, r')
      → es ≢ []
  apply_operations-ne-nil bound os r some h none_left =
      sort_by_start-ne-nil os some
        (apply_operations-eq-nil bound (sort_by_start os) r (rw none_left at h))
