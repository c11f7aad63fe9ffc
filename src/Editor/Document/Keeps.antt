-- ===== src/Editor/Document/Keeps.antt =====
-- Every command keeps the invariant of a document, whether it succeeds or fails.
use abraxius_lattice.Base.{
  ℕ, zero, suc, ◌+◌, ◌-◌, ◌≤◌, ◌<◌, ◌≡◌, sym, subst, inl, inr, [], ◌∷◌, arith, not, ltb, leb, ◌==◌,
  ◌||◌, if-both, if-split, Bool-cases, take, length, take-length-append,
}
use abraxius_lattice.Base.Results.{Result, ok, continue, Result-cases}
use abraxius_lattice.Base.Text.{Text, byte_len}
use abraxius_lattice.Editor.Rope.{RopeOps, RopeLaws}
use abraxius_lattice.Editor.Rope.Laws.{IsBoundary}
use abraxius_lattice.Editor.Types.{
  EditorSelection, caret, start, end, EditorError, Document, CaretMovement,
}
use abraxius_lattice.Editor.Edits.{ensure_boundary}
use abraxius_lattice.Editor.Edits.Replace.{ensure_boundary-IsBoundary}
use abraxius_lattice.Editor.Document.{
  edit, insert_text, delete_selected, delete_backward, delete_forward, char_before, char_after,
  move_caret, set_selection, mark_clean,
}
use abraxius_lattice.Editor.Document.History.{Placed, IsValid}
use abraxius_lattice.Editor.Document.Edit.{edit-read_only}
use abraxius_lattice.Editor.Document.Commands.{insert_text-Edited, remove-IsValid}
use abraxius_lattice.Editor.Document.Caret.{
  start-le-end, start-IsBoundary, end-IsBoundary, take-IsBoundary, char_before-ok, char_after-ok,
  caret_target-ok,
}

byte_len-take : (i j : ℕ) (t : Text) → i ≤ j → byte_len (take i t) ≤ byte_len (take j t)
unfolding byte_len
byte_len-take zero j t h = omega arith
byte_len-take (suc i) j [] h = omega arith
byte_len-take (suc i) zero (c ∷ t) h = absurd (omega arith)
byte_len-take (suc i) (suc j) (c ∷ t) h = omega (arith, byte_len-take i j t (omega arith))

byte_len-take_before :
    {t : Text} {h : ℕ} (b : IsBoundary t h) → byte_len (take (length b.before) t) ≡ h
byte_len-take_before b = rw (b.splits, take-length-append b.before b.after) (sym b.at)

-- What holds of the document that a method leaves, by the method's result.
abbrev Leaves {ℓ} : {S : Type 0} {A : Type 0} → (S → Type ℓ) → Result A EditorError × S → Type ℓ
Leaves P m = P m.1

module _ {Rope : Type 0} {ops : RopeOps Rope} (laws : RopeLaws ops) where
  open ops use {chars, len_bytes}

  pub insert_text-IsValid :
      {origin : Text} (text : Text) (d : Document Rope)
      → IsValid ops origin d
      → IsValid ops origin (insert_text ops text d).1
  insert_text-IsValid {origin} text d v = elim (Bool-cases d.is_read_only) [
    | inl frozen ↦
        unfold insert_text in
        subst (Leaves (IsValid ops origin)) (sym (edit-read_only laws _ _ _ text d frozen)) v
    | inr free ↦
        let (d', done, _, v') = insert_text-Edited laws text d v free in
        subst (Leaves (IsValid ops origin)) (sym done) v'
  ]

  delete_selected-IsValid :
      {origin : Text} (d : Document Rope)
      → IsValid ops origin d
      → IsValid ops origin (delete_selected ops d).1
  unfolding delete_selected
  delete_selected-IsValid d v =
      remove-IsValid laws (start d.selection) (end d.selection) d v (start-le-end d.selection)
        (start-IsBoundary d.selection v.placed) (end-IsBoundary d.selection v.placed)

  before-IsValid :
      {origin : Text} (d : Document Rope)
      → IsValid ops origin d
      → IsValid ops origin
          (continue
            (char_before ops d.selection.head d.rope, d)
            (λ from _. edit ops from d.selection.head [] from d)).1
  before-IsValid d v =
      let b = v.placed.at_head in
      rw (char_before-ok laws d.rope b) (
        remove-IsValid laws (byte_len (take (length b.before - 1) (chars d.rope))) d.selection.head
          d v
          (subst (λ k. byte_len (take (length b.before - 1) (chars d.rope)) ≤ k)
            (byte_len-take_before b)
            (byte_len-take (length b.before - 1) (length b.before) (chars d.rope) (omega arith)))
          (take-IsBoundary (chars d.rope) (length b.before - 1)) b)

  after-IsValid :
      {origin : Text} (d : Document Rope)
      → IsValid ops origin d
      → d.selection.head < len_bytes d.rope
      → IsValid ops origin
          (continue
            (char_after ops d.selection.head d.rope, d)
            (λ to _. edit ops d.selection.head to [] d.selection.head d)).1
  after-IsValid d v more =
      let b = v.placed.at_head in
      rw (char_after-ok laws d.rope b more) (
        remove-IsValid laws d.selection.head (byte_len (take (length b.before + 1) (chars d.rope)))
          d v
          (subst (λ k. k ≤ byte_len (take (length b.before + 1) (chars d.rope)))
            (byte_len-take_before b)
            (byte_len-take (length b.before) (length b.before + 1) (chars d.rope) (omega arith)))
          b (take-IsBoundary (chars d.rope) (length b.before + 1)))

  pub delete_backward-IsValid :
      {origin : Text} (d : Document Rope)
      → IsValid ops origin d
      → IsValid ops origin (delete_backward ops d).1
  unfolding delete_backward
  delete_backward-IsValid {origin} d v =
      if-both (Leaves (IsValid ops origin)) (not (start d.selection == end d.selection))
        (delete_selected-IsValid d v)
        (if-both (Leaves (IsValid ops origin)) (d.selection.head == 0) v (before-IsValid d v))

  pub delete_forward-IsValid :
      {origin : Text} (d : Document Rope)
      → IsValid ops origin d
      → IsValid ops origin (delete_forward ops d).1
  unfolding delete_forward
  delete_forward-IsValid {origin} d v =
      if-both (Leaves (IsValid ops origin)) (not (start d.selection == end d.selection))
        (delete_selected-IsValid d v)
        (if-split (Leaves (IsValid ops origin)) (leb (len_bytes d.rope) d.selection.head) (λ _. v)
          (λ inside. after-IsValid d v (ground arith)))

  select :
      {origin : Text} (d : Document Rope) (s : EditorSelection)
      → IsValid ops origin d
      → Placed s (chars d.rope)
      → IsValid ops origin (record d { selection = s })
  select d s v p = record { back = v.back; forth = v.forth; placed = p }

  -- In a document that keeps the invariant every caret movement succeeds, changes nothing but the
  -- selection, and puts the caret between two characters.
  pub move_caret-ok :
      {origin : Text} (m : CaretMovement) (d : Document Rope)
      → IsValid ops origin d
      → (b : ℕ) × (move_caret ops m d ≡ (ok tt, record d { selection = caret b }))
        × IsBoundary (chars d.rope) b
  unfolding move_caret
  move_caret-ok m d v =
      let (b, found, at) = caret_target-ok laws d.rope m d.selection v.placed in (b, rw found, at)

  pub move_caret-IsValid :
      {origin : Text} (m : CaretMovement) (d : Document Rope)
      → IsValid ops origin d
      → IsValid ops origin (move_caret ops m d).1
  move_caret-IsValid {origin} m d v =
      let (b, done, at) = move_caret-ok m d v in
      subst (Leaves (IsValid ops origin)) (sym done)
        (select d (caret b) v (unfold caret in record { at_anchor = at; at_head = at }))

  -- A selection is accepted only if both its ends stand between characters.
  pub set_selection-IsValid :
      {origin : Text} (s : EditorSelection) (d : Document Rope)
      → IsValid ops origin d
      → IsValid ops origin (set_selection ops s d).1
  unfolding set_selection
  set_selection-IsValid {origin} s d v =
      if-both (Leaves (IsValid ops origin))
        (ltb (len_bytes d.rope) s.anchor || ltb (len_bytes d.rope) s.head) v
        (elim (Result-cases (ensure_boundary ops s.anchor d.rope)) [
          | inr (e, bad) ↦ rw bad v
          | inl (_, first) ↦ elim (Result-cases (ensure_boundary ops s.head d.rope)) [
            | inr (e, bad) ↦ rw (first, bad) v
            | inl (_, last) ↦
                rw (first, last)
                  (select d s v (record {
                    at_anchor = ensure_boundary-IsBoundary laws s.anchor d.rope first;
                    at_head = ensure_boundary-IsBoundary laws s.head d.rope last;
                  }))
          ]
        ])

  pub mark_clean-IsValid :
      {origin : Text} (revision : ℕ) (d : Document Rope)
      → IsValid ops origin d
      → IsValid ops origin (mark_clean revision d).1
  unfolding mark_clean
  mark_clean-IsValid {origin} revision d v =
      if-both (Leaves (IsValid ops origin)) (not (revision == d.revision)) v
        (record { back = v.back; forth = v.forth; placed = v.placed })
