-- ===== src/Editor/Document/Edit.antt =====
-- The one-operation transaction behind `insert_text`, `delete_backward` and `delete_forward`.
use abraxius_lattice.Base.{
  ℕ, ◌+◌, ◌≤◌, ◌≡◌, refl, sym, subst, ◌∙◌, Bool, true, false, List, [], ◌∷◌, ◌++◌, arith, not, ◌==◌,
  append_assoc,
}
use abraxius_lattice.Base.Results.{Method, ok, err, continue}
use abraxius_lattice.Base.Text.{Text, byte_len}
use abraxius_lattice.Editor.Rope.{RopeOps, RopeLaws}
use abraxius_lattice.Editor.Rope.Laws.{
  IsBoundary, boundary-le-len_bytes, byte_len-append, split_unique,
}
use abraxius_lattice.Editor.Types.{
  caret, replace, EditOperation, EditTransaction, AppliedEdit, EditorError, read_only, Document,
}
use abraxius_lattice.Editor.Edits.{fail_if, sort_by_start, apply_operations}
use abraxius_lattice.Editor.Edits.Replace.{Splice}
use abraxius_lattice.Editor.Edits.Loop.{
  InRange, edit_of, InRange-boundaries, apply_operation-InRange,
}
use abraxius_lattice.Editor.Document.{apply_transaction, commit, edit}
use abraxius_lattice.Editor.Document.History.{IsValid, committed, committed-IsValid}

pub fail_if-false :
    {A S : Type 0} (b : Bool) (e : EditorError) (s : S) (f : Unit {0} → Method S A EditorError)
    → b ≡ false
    → continue (fail_if b e s) f ≡ f tt s
fail_if-false b e s f h = rw h

pub fail_if-true :
    {A S : Type 0} (b : Bool) (e : EditorError) (s : S) (f : Unit {0} → Method S A EditorError)
    → b ≡ true
    → continue (fail_if b e s) f ≡ (err e, s)
fail_if-true b e s f h = rw h

commit-ok :
    {Rope : Type 0} (t : EditTransaction) (es : List AppliedEdit) (d : Document Rope)
    → commit t es d ≡ (ok tt, (commit t es d).1)
unfolding commit
commit-ok t [] d = refl
commit-ok t (e ∷ es) d = refl

module _ {Rope : Type 0} {ops : RopeOps Rope} (laws : RopeLaws ops) where
  open ops use {chars, len_bytes}

  -- A writable document at the transaction's revision commits what the loop returns.
  pub apply_transaction-ok :
      (t : EditTransaction) (d : Document Rope) {es : List AppliedEdit} {r : Rope}
      → d.is_read_only ≡ false
      → t.base_revision ≡ d.revision
      → apply_operations ops (len_bytes d.rope) (sort_by_start t.operations) d.rope ≡ (ok es, r)
      → apply_transaction ops t d ≡ (ok tt, committed ops t es r d)
  unfolding apply_transaction
  apply_transaction-ok t d {es = es} {r = r} free fresh done =
      let loop = apply_operations ops (len_bytes d.rope) (sort_by_start t.operations) d.rope in
      let last : continue (loop.0, record d { rope = loop.1 }) (commit t)
          ≡ (ok tt, committed ops t es r d) =
        rw done (commit-ok t es (record d { rope = r })) in
      fail_if-false d.is_read_only _ d _ free
      ∙ fail_if-false (not (t.base_revision == d.revision)) _ d _ (ground arith)
      ∙ last

  pub apply_transaction-read_only :
      (t : EditTransaction) (d : Document Rope)
      → d.is_read_only ≡ true
      → apply_transaction ops t d ≡ (err read_only, d)
  unfolding apply_transaction
  apply_transaction-read_only t d frozen = fail_if-true d.is_read_only _ d _ frozen

  -- The range from `from` to `to` of the text of `d` is `inserted` in the text of `d'`.
  pub record Edited (from to : ℕ) (inserted : Text) (d d' : Document Rope) : Type 0 where
    pub before : Text
    pub deleted : Text
    pub after : Text
    pub splits : chars d.rope ≡ before ++ (deleted ++ after)
    pub start_at : from ≡ byte_len before
    pub end_at : to ≡ byte_len before + byte_len deleted
    pub text : chars d'.rope ≡ before ++ (inserted ++ after)
    pub selection : d'.selection ≡ caret (from + byte_len inserted)

  -- The range and its offsets say what the new text is.
  pub Edited-text :
      {from to : ℕ} {inserted : Text} {d d' : Document Rope}
      → Edited from to inserted d d'
      → (p m q : Text) → chars d.rope ≡ p ++ (m ++ q)
      → from ≡ byte_len p
      → to ≡ byte_len p + byte_len m
      → chars d'.rope ≡ p ++ (inserted ++ q)
  Edited-text {inserted = inserted} h p m q e at to_at =
      let (same, rest) =
        split_unique h.before (h.deleted ++ h.after) p (m ++ q) (sym h.splits ∙ e)
          (omega (arith, h.start_at, at)) in
      let (_, last) =
        split_unique h.deleted h.after m q rest (omega (arith, h.start_at, at, h.end_at, to_at)) in
      h.text ∙ cc (same, last)

  -- The loop on one operation in range.
  pub apply_operations-one :
      (bound : ℕ) (o : EditOperation) (r : Rope) (range : InRange bound o (chars r))
      → (r' : Rope) × (apply_operations ops bound (sort_by_start (o ∷ [])) r
          ≡ (ok (edit_of o range ∷ []), r'))
        × Splice (edit_of o range) (chars r) (chars r')
        × (chars r' ≡ range.before ++ (o.inserted ++ range.after))
  unfolding sort_by_start apply_operations
  apply_operations-one bound o r range =
      let (r', done, s, text) = apply_operation-InRange laws bound o r range in
      (r', rw done, s, text)

  after-IsBoundary :
      {t : Text} {from : ℕ} (p m q : Text)
      → t ≡ p ++ (m ++ q)
      → from ≡ byte_len p
      → IsBoundary t (from + byte_len m)
  after-IsBoundary p m q e at = record {
    before = p ++ m;
    after = q;
    splits = e ∙ sym (append_assoc p m q);
    at = omega (arith, byte_len-append p m, at);
  }

  edit-InRange :
      {origin : Text} (from to : ℕ) (inserted : Text) (d : Document Rope)
      → IsValid ops origin d
      → d.is_read_only ≡ false
      → InRange (len_bytes d.rope) (replace from to inserted) (chars d.rope)
      → (d' : Document Rope) × (edit ops from to inserted (from + byte_len inserted) d
          ≡ (ok tt, d'))
        × Edited from to inserted d d'
        × IsValid ops origin d'
  unfolding edit replace caret commit
  edit-InRange from to inserted d v free range =
      let o = replace from to inserted in
      let (r, done, s, text) = apply_operations-one (len_bytes d.rope) o d.rope range in
      let t : EditTransaction = record {
        base_revision = d.revision;
        operations = o ∷ [];
        before_selection = d.selection;
        after_selection = caret (from + byte_len inserted);
      } in
      let es = edit_of o range ∷ [] in
      let b = after-IsBoundary range.before inserted range.after text range.start_at in
      (
        committed ops t es r d,
        apply_transaction-ok t d free refl done,
        record {
          before = range.before;
          deleted = range.deleted;
          after = range.after;
          splits = range.splits;
          start_at = range.start_at;
          end_at = range.end_at;
          text = text;
          selection = refl;
        },
        committed-IsValid laws t es r d v (chars r, s, refl) v.placed
            (record { at_anchor = b; at_head = b }),
      )

  -- Between two boundaries of a writable document that keeps the invariant the edit succeeds.
  pub edit-boundaries :
      {origin : Text} (from to : ℕ) (inserted : Text) (d : Document Rope)
      → IsValid ops origin d
      → d.is_read_only ≡ false
      → from ≤ to
      → IsBoundary (chars d.rope) from
      → IsBoundary (chars d.rope) to
      → (d' : Document Rope) × (edit ops from to inserted (from + byte_len inserted) d
          ≡ (ok tt, d'))
        × Edited from to inserted d d'
        × IsValid ops origin d'
  unfolding replace
  edit-boundaries from to inserted d v free le b b' =
      let within : to ≤ len_bytes d.rope =
        subst (λ k. k ≤ len_bytes d.rope) (sym b'.at)
          (boundary-le-len_bytes laws d.rope b'.before b'.after b'.splits) in
      edit-InRange from to inserted d v free
        (InRange-boundaries (len_bytes d.rope) (replace from to inserted) le within b b')

  pub edit-read_only :
      (from to after : ℕ) (inserted : Text) (d : Document Rope)
      → d.is_read_only ≡ true
      → edit ops from to inserted after d ≡ (err read_only, d)
  unfolding edit
  edit-read_only from to after inserted d frozen = apply_transaction-read_only _ d frozen
