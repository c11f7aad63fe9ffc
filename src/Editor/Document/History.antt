-- ===== src/Editor/Document/History.antt =====
-- The invariant of a document: both stacks of history replay on the text, and every selection, the
-- current one and those of the history, stands between characters of the text that it is for.
use abraxius_lattice.Base.{
  ◌≡◌, refl, ap, subst, sym, ◌∙◌, Bool, true, false, List, [], ◌∷◌, arith, not, ◌==◌,
}
use abraxius_lattice.Base.Results.{Method, ok, continue, continue-eq-ok}
use abraxius_lattice.Base.Text.{Text}
use abraxius_lattice.Editor.Rope.{RopeOps, RopeLaws}
use abraxius_lattice.Editor.Rope.Laws.{IsBoundary}
use abraxius_lattice.Editor.Types.{
  EditorSelection, EditTransaction, AppliedEdit, HistoryEntry, EditorError, Document,
}
use abraxius_lattice.Editor.Edits.{fail_if, sort_by_start, apply_operations}
use abraxius_lattice.Editor.Edits.Chain.{Applied, apply_operations-Applied}
use abraxius_lattice.Editor.Document.{apply_transaction, commit}

-- Both ends of the selection stand between characters.
pub record Placed (s : EditorSelection) (t : Text) : Type 0 where
  pub at_anchor : IsBoundary t s.anchor
  pub at_head : IsBoundary t s.head

-- The entry's edits take `t` to `t'`, and its selections fit these texts.
pub record Recorded (h : HistoryEntry) (t t' : Text) : Type 0 where
  pub applied : Applied h.edits t t'
  pub placed_before : Placed h.before_selection t
  pub placed_after : Placed h.after_selection t'

abbrev pub CanUndo : Text → List HistoryEntry → Text → Type 0
CanUndo origin [] t = t ≡ origin
CanUndo origin (h ∷ hs) t = (t0 : Text) × Recorded h t0 t × CanUndo origin hs t0

abbrev pub CanRedo : List HistoryEntry → Text → Type 0
CanRedo [] t = Unit
CanRedo (h ∷ hs) t = (t1 : Text) × Recorded h t t1 × CanRedo hs t1

fail_if-eq-ok :
    {A S : Type 0} (b : Bool) (e : EditorError) (s : S) (f : Unit {0} → Method S A EditorError)
    {a : A} {s' : S}
    → continue (fail_if b e s) f ≡ (ok a, s')
    → (b ≡ false) × (f tt s ≡ (ok a, s'))
fail_if-eq-ok true e s f h = absurd (cc)
fail_if-eq-ok false e s f h = (refl, h)

module _ {Rope : Type 0} (ops : RopeOps Rope) where
  open ops use {chars}

  pub record IsValid (origin : Text) (d : Document Rope) : Type 0 where
    pub back : CanUndo origin d.undo (chars d.rope)
    pub forth : CanRedo d.redo (chars d.rope)
    pub placed : Placed d.selection (chars d.rope)

  -- The document that a transaction leaves whose loop has returned `es` and the rope `r`.
  abbrev pub committed : EditTransaction → List AppliedEdit → Rope → Document Rope → Document Rope
  committed t es r d = (commit t es (record d { rope = r })).1

  -- A successful transaction ran the loop to its end, and committed what it returned.
  pub apply_transaction-eq-ok :
      (t : EditTransaction) (d : Document Rope) {u : Unit {0}} {d' : Document Rope}
      → apply_transaction ops t d ≡ (ok u, d')
      → (es : List AppliedEdit) × (r : Rope) × (apply_operations ops
            (ops.len_bytes d.rope)
            (sort_by_start t.operations)
            d.rope
          ≡ (ok es, r))
        × (d' ≡ committed t es r d)
        × (d.is_read_only ≡ false)
        × (t.base_revision ≡ d.revision)
  unfolding apply_transaction
  apply_transaction-eq-ok t d {d' = d'} h =
      let loop = apply_operations ops (ops.len_bytes d.rope) (sort_by_start t.operations) d.rope in
      let (free, h1) = fail_if-eq-ok d.is_read_only _ d _ h in
      let (fresh, h2) = fail_if-eq-ok (not (t.base_revision == d.revision)) _ d _ h1 in
      let (es, s, done, h3) = continue-eq-ok (loop.0, record d { rope = loop.1 }) (commit t) h2 in
      let state : s ≡ record d { rope = loop.1 } = ap (λ p. p.1) (sym done) in
      let last : (commit t es (record d { rope = loop.1 })).1 ≡ d' =
        rw state at (ap (λ p. p.1) h3) in
      (es, loop.1, cc done, sym last, free, ground arith)

module _ {Rope : Type 0} {ops : RopeOps Rope} (laws : RopeLaws ops) where
  open ops use {chars}

  pub rope-committed :
      (t : EditTransaction) (es : List AppliedEdit) (r : Rope) (d : Document Rope)
      → (committed ops t es r d).rope ≡ r
  unfolding commit
  rope-committed t [] r d = refl
  rope-committed t (e ∷ es) r d = refl

  pub committed-IsValid :
      {origin : Text} (t : EditTransaction) (es : List AppliedEdit) (r : Rope) (d : Document Rope)
      → IsValid ops origin d
      → Applied es (chars d.rope) (chars r)
      → Placed t.before_selection (chars d.rope)
      → Placed t.after_selection (chars r)
      → IsValid ops origin (committed ops t es r d)
  unfolding commit
  committed-IsValid t [] r d v same before after = record {
    back = subst (CanUndo _ d.undo) same v.back;
    forth = subst (CanRedo d.redo) same v.forth;
    placed = subst (Placed d.selection) same v.placed;
  }
  committed-IsValid t (e ∷ es) r d v applied before after = record {
    back = (
      chars d.rope,
      record { applied = applied; placed_before = before; placed_after = after },
      v.back,
    );
    forth = tt;
    placed = after;
  }

  -- A successful transaction whose selections fit the texts keeps the invariant.
  pub apply_transaction-IsValid :
      {origin : Text} (t : EditTransaction) (d : Document Rope) {u : Unit {0}} {d' : Document Rope}
      → IsValid ops origin d
      → apply_transaction ops t d ≡ (ok u, d')
      → Placed t.before_selection (chars d.rope)
      → Placed t.after_selection (chars d'.rope)
      → IsValid ops origin d'
  apply_transaction-IsValid t d {d' = d'} v h before after =
      let (es, r, loop, final, _, _) = apply_transaction-eq-ok ops t d h in
      let text : chars d'.rope ≡ chars r =
        ap (λ (x : Document Rope). chars x.rope) final ∙ ap chars (rope-committed t es r d) in
      rw final (
        committed-IsValid t es r d v (apply_operations-Applied laws _ _ _ loop) before
          (subst (Placed t.after_selection) text after))
