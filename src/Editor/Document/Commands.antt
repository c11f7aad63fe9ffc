-- ===== src/Editor/Document/Commands.antt =====
-- `insert_text`, `delete_backward`, `delete_forward`, `move_caret` and `set_selection` on a document
-- that keeps the invariant.
use abraxius_lattice.Base.{
  ℕ, ◌+◌, ◌-◌, ◌≤◌, ◌<◌, ◌≡◌, refl, sym, ap, subst, ◌∙◌, inl, inr, false, [], ◌∷◌, ◌++◌, arith, not,
  leb, ◌==◌, if-false, Bool-cases, take, length, add-zero, append_assoc, length-append,
  take-length-append,
}
use abraxius_lattice.Base.Results.{ok}
use abraxius_lattice.Base.Text.{Text, byte_len}
use abraxius_lattice.Editor.Rope.{RopeOps, RopeLaws}
use abraxius_lattice.Editor.Rope.Laws.{IsBoundary, byte_len-append, len_utf8_pos}
use abraxius_lattice.Editor.Types.{EditorSelection, caret, start, end, Document}
use abraxius_lattice.Editor.Document.{
  edit, insert_text, delete_backward, delete_forward, char_before, char_after,
}
use abraxius_lattice.Editor.Document.History.{IsValid}
use abraxius_lattice.Editor.Document.Edit.{Edited, edit-boundaries, edit-read_only, Edited-text}
use abraxius_lattice.Editor.Document.Caret.{
  start-le-end, start-IsBoundary, end-IsBoundary, char_before-ok, char_after-ok,
}

pub plus-byte_len-nil : (n : ℕ) → n + byte_len [] ≡ n
unfolding byte_len
plus-byte_len-nil n = add-zero n

byte_len-cons_pos : (c : ℕ) (t : Text) → 0 < byte_len (c ∷ t)
unfolding byte_len
byte_len-cons_pos c t = omega (arith, len_utf8_pos c)

take-init :
    (p : Text) (c : ℕ) (q : Text) {t : Text}
    → t ≡ p ++ (c ∷ q)
    → take (length (p ++ c ∷ []) - 1) t ≡ p
take-init p c q e =
    let size : length (p ++ c ∷ []) - 1 ≡ length p = omega (arith, length-append p (c ∷ [])) in
    rw (size, e) (take-length-append p (c ∷ q))

take-snoc :
    (p : Text) (c : ℕ) (q : Text) {t : Text}
    → t ≡ p ++ (c ∷ q)
    → take (length p + 1) t ≡ p ++ c ∷ []
take-snoc p c q e =
    let size : length p + 1 ≡ length (p ++ c ∷ []) = omega (arith, length-append p (c ∷ [])) in
    rw (size, e, ← append_assoc p (c ∷ []) q) (take-length-append (p ++ c ∷ []) q)

caret-bounds :
    (s : EditorSelection) {h : ℕ} → s ≡ caret h → (start s ≡ h) × (end s ≡ h) × (s.head ≡ h)
unfolding start end caret
caret-bounds s e = rw e (ground arith)

module _ {Rope : Type 0} {ops : RopeOps Rope} (laws : RopeLaws ops) where
  open ops use {chars, len_bytes}

  -- In a writable document that keeps the invariant `insert_text` succeeds: the new text stands
  -- where the selected text stood, the caret ends behind it, and the invariant is kept.
  pub insert_text-Edited :
      {origin : Text} (text : Text) (d : Document Rope)
      → IsValid ops origin d
      → d.is_read_only ≡ false
      → (d' : Document Rope) × (insert_text ops text d ≡ (ok tt, d'))
        × Edited laws (start d.selection) (end d.selection) text d d'
        × IsValid ops origin d'
  unfolding insert_text
  insert_text-Edited text d v free =
      edit-boundaries laws (start d.selection) (end d.selection) text d v free
        (start-le-end d.selection) (start-IsBoundary d.selection v.placed)
        (end-IsBoundary d.selection v.placed)

  -- A removal leaves the caret where the removed text began.
  remove-boundaries :
      {origin : Text} (from to : ℕ) (d : Document Rope)
      → IsValid ops origin d
      → d.is_read_only ≡ false
      → from ≤ to
      → IsBoundary (chars d.rope) from
      → IsBoundary (chars d.rope) to
      → (d' : Document Rope) × (edit ops from to [] from d ≡ (ok tt, d'))
        × Edited laws from to [] d d'
        × IsValid ops origin d'
  remove-boundaries from to d v free le b b' =
      let (d', done, edited, v') = edit-boundaries laws from to [] d v free le b b' in
      (
        d',
        subst (λ k. edit ops from to [] k d ≡ (ok tt, d')) (plus-byte_len-nil from) done,
        edited,
        v',
      )

  -- Whether the edit succeeds or the document is read-only, the invariant is kept.
  pub remove-IsValid :
      {origin : Text} (from to : ℕ) (d : Document Rope)
      → IsValid ops origin d
      → from ≤ to
      → IsBoundary (chars d.rope) from
      → IsBoundary (chars d.rope) to
      → IsValid ops origin (edit ops from to [] from d).1
  remove-IsValid {origin} from to d v le b b' = elim (Bool-cases d.is_read_only) [
    | inl frozen ↦
        subst (λ m. IsValid ops origin m.1) (sym (edit-read_only laws from to from [] d frozen)) v
    | inr free ↦
        let (d', done, _, v') = remove-boundaries from to d v free le b b' in
        subst (λ m. IsValid ops origin m.1) (sym done) v'
  ]

  remove-caret :
      {origin : Text} (p m q : Text) (d : Document Rope)
      → IsValid ops origin d
      → d.is_read_only ≡ false
      → chars d.rope ≡ p ++ (m ++ q)
      → (d' : Document Rope) × (edit ops (byte_len p) (byte_len p + byte_len m) [] (byte_len p) d
          ≡ (ok tt, d'))
        × (chars d'.rope ≡ p ++ q)
        × (d'.selection ≡ caret (byte_len p))
        × IsValid ops origin d'
  remove-caret p m q d v free e =
      let first : IsBoundary (chars d.rope) (byte_len p) = record {
        before = p;
        after = m ++ q;
        splits = e;
        at = refl;
      } in
      let last : IsBoundary (chars d.rope) (byte_len p + byte_len m) = record {
        before = p ++ m;
        after = q;
        splits = e ∙ sym (append_assoc p m q);
        at = sym (byte_len-append p m);
      } in
      let (d', done, edited, v') =
        remove-boundaries (byte_len p) (byte_len p + byte_len m) d v free (omega arith) first
          last in
      (
        d',
        done,
        Edited-text laws edited p m q e refl refl,
        edited.selection ∙ ap caret (plus-byte_len-nil (byte_len p)),
        v',
      )

  -- In a writable document that keeps the invariant, with the caret behind a character,
  -- `delete_backward` removes exactly that character, the caret ends where it stood, and the
  -- invariant is kept.
  pub delete_backward-caret :
      {origin : Text} (p q : Text) (c : ℕ) (d : Document Rope)
      → IsValid ops origin d
      → d.is_read_only ≡ false
      → chars d.rope ≡ p ++ (c ∷ q)
      → d.selection ≡ caret (byte_len (p ++ c ∷ []))
      → (d' : Document Rope) × (delete_backward ops d ≡ (ok tt, d'))
        × (chars d'.rope ≡ p ++ q)
        × (d'.selection ≡ caret (byte_len p))
        × IsValid ops origin d'
  unfolding delete_backward
  delete_backward-caret p q c d v free e at =
      let (from, to, head) = caret-bounds d.selection at in
      let (d', done, text, point, v') = remove-caret p (c ∷ []) q d v free e in
      let b : IsBoundary (chars d.rope) (d.selection.head) = record {
        before = p ++ c ∷ [];
        after = q;
        splits = e ∙ sym (append_assoc p (c ∷ []) q);
        at = head;
      } in
      let found : char_before ops d.selection.head d.rope ≡ ok (byte_len p) =
        char_before-ok laws d.rope b ∙ ap ok (ap byte_len (take-init p c q e)) in
      let spot : d.selection.head ≡ byte_len p + byte_len (c ∷ []) =
        head ∙ byte_len-append p (c ∷ []) in
      let step : edit ops (byte_len p) d.selection.head [] (byte_len p) d ≡ (ok tt, d') =
        subst (λ h. edit ops (byte_len p) h [] (byte_len p) d ≡ (ok tt, d')) (sym spot) done in
      let same : not (start d.selection == end d.selection) ≡ false = ground arith in
      let inside : (d.selection.head == 0) ≡ false = ground (arith, spot, byte_len-cons_pos c []) in
      (d', if-false _ _ same ∙ if-false _ _ inside ∙ rw found step, text, point, v')

  -- In a writable document that keeps the invariant, with the caret before a character,
  -- `delete_forward` removes exactly that character, the caret stays, and the invariant is kept.
  pub delete_forward-caret :
      {origin : Text} (p q : Text) (c : ℕ) (d : Document Rope)
      → IsValid ops origin d
      → d.is_read_only ≡ false
      → chars d.rope ≡ p ++ (c ∷ q)
      → d.selection ≡ caret (byte_len p)
      → (d' : Document Rope) × (delete_forward ops d ≡ (ok tt, d'))
        × (chars d'.rope ≡ p ++ q)
        × (d'.selection ≡ caret (byte_len p))
        × IsValid ops origin d'
  unfolding delete_forward
  delete_forward-caret p q c d v free e at =
      let (from, to, head) = caret-bounds d.selection at in
      let (d', done, text, point, v') = remove-caret p (c ∷ []) q d v free e in
      let b : IsBoundary (chars d.rope) (d.selection.head) = record {
        before = p;
        after = c ∷ q;
        splits = e;
        at = head;
      } in
      let room : d.selection.head < len_bytes d.rope = omega (
        arith,
        head,
        laws.len_bytes_lem d.rope,
        ap byte_len e,
        byte_len-append p (c ∷ q),
        byte_len-cons_pos c q,
      ) in
      let last : byte_len (take (length p + 1) (chars d.rope)) ≡ byte_len p + byte_len (c ∷ []) =
        ap byte_len (take-snoc p c q e) ∙ byte_len-append p (c ∷ []) in
      let found : char_after ops d.selection.head d.rope ≡ ok (byte_len p + byte_len (c ∷ [])) =
        char_after-ok laws d.rope b room ∙ ap ok last in
      let step : edit ops d.selection.head (byte_len p + byte_len (c ∷ [])) [] d.selection.head d
          ≡ (ok tt, d') =
        subst (λ h. edit ops h (byte_len p + byte_len (c ∷ [])) [] h d ≡ (ok tt, d')) (sym head)
          done in
      let same : not (start d.selection == end d.selection) ≡ false = ground arith in
      let inside : leb (len_bytes d.rope) d.selection.head ≡ false = ground (arith, room) in
      (d', if-false _ _ same ∙ if-false _ _ inside ∙ rw found step, text, point, v')
