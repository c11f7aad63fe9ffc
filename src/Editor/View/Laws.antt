-- ===== src/Editor/View/Laws.antt =====
-- The hash depends on the text alone, a new document keeps the invariant, and the viewport.
use abraxius_lattice.Base.{
  ℕ, zero, suc, ◌+◌, ◌-◌, ◌≤◌, ◌<◌, ◌≡◌, refl, sym, ap, ◌∙◌, Bool, List, [], ◌∷◌, ◌++◌, flatten,
  arith, append_assoc, min, max, length, inl, inr, if-true, if-false, Bool-cases, ◌==◌, ==_iff,
}
use abraxius_lattice.Base.Text.{Text, as_bytes, byte_len}
use abraxius_lattice.Editor.Rope.{RopeOps, RopeLaws}
use abraxius_lattice.Editor.Rope.Laws.{
  IsBoundary, byte_to_char-boundary, byte_len-append, prefix_extends, len_utf8_pos,
}
use abraxius_lattice.Editor.Types.{caret, start, end, Document}
use abraxius_lattice.Editor.Edits.Replace.{slice-boundary}
use abraxius_lattice.Editor.Document.History.{IsValid}
use abraxius_lattice.Editor.Document.Caret.{
  start-le-end, line_start-IsBoundary, start-IsBoundary, end-IsBoundary,
}
use abraxius_lattice.Editor.View.{
  HasherOps, update_chunks, hash_rope, new, selected_text, viewport, viewport_lines, ViewportLine,
  viewport_line,
}

as_bytes-append : (s t : Text) → as_bytes (s ++ t) ≡ as_bytes s ++ as_bytes t
unfolding as_bytes
as_bytes-append [] t = refl
as_bytes-append (c ∷ s) t = rw (as_bytes-append s t, append_assoc)

eq-nil_of_byte_len : (t : Text) → byte_len t ≡ 0 → t ≡ []
unfolding byte_len
eq-nil_of_byte_len [] h = refl
eq-nil_of_byte_len (c ∷ t) h = absurd (omega (arith, len_utf8_pos c))

-- What blake3 documents: updates in pieces are one update.
pub record HasherLaws {Hasher : Type 0} (hasher : HasherOps Hasher) : Type 0 where
  pub update-nil : (h : Hasher) → hasher.update h [] ≡ h
  pub update-append :
      (h : Hasher) (a b : List ℕ) → hasher.update (hasher.update h a) b ≡ hasher.update h (a ++ b)

module _ {Rope Hasher : Type 0} {ops : RopeOps Rope} {hasher : HasherOps Hasher}
    (laws : RopeLaws ops) (hashing : HasherLaws hasher) where
  open hasher use {update, finalize}

  update_chunks-flatten :
      (h : Hasher) (cs : List Text)
      → update_chunks ops hasher h cs ≡ update h (as_bytes (flatten cs))
  unfolding update_chunks
  update_chunks-flatten h [] = unfold as_bytes flatten in sym (hashing.update-nil h)
  update_chunks-flatten h (c ∷ cs) =
      update_chunks-flatten (update h (as_bytes c)) cs
      ∙ hashing.update-append h (as_bytes c) (as_bytes (flatten cs))
      ∙ ap (update h) (sym (unfold flatten in as_bytes-append c (flatten cs)))

  -- However the rope is cut into chunks, the hash is that of the bytes of its text.
  pub hash_rope-chars :
      (r : Rope) → hash_rope ops hasher r ≡ finalize (update hasher.new (as_bytes (ops.chars r)))
  unfolding hash_rope
  hash_rope-chars r = ap finalize (
      update_chunks-flatten hasher.new (ops.chunks r)
      ∙ ap (λ t. update hasher.new (as_bytes t)) (laws.flatten-chunks r))

  -- An opened document shows its source, is not modified and keeps the invariant.
  pub new-IsValid :
      (id : ℕ) (source : Text) (frozen : Bool)
      → IsValid ops source (new ops hasher id source frozen)
  unfolding new caret byte_len
  new-IsValid id source frozen =
      let b : IsBoundary (ops.chars (ops.from_str source)) 0 = record {
        before = [];
        after = ops.chars (ops.from_str source);
        splits = refl;
        at = refl;
      } in
      record {
        back = laws.chars-from_str source;
        forth = tt;
        placed = record { at_anchor = b; at_head = b };
      }

module _ {Rope : Type 0} {ops : RopeOps Rope} (laws : RopeLaws ops) where
  open ops use {chars, len_lines, line_to_char, char_to_byte, line}

  selected_text-eq :
      (d : Document Rope) (p m q : Text)
      → chars d.rope ≡ p ++ (m ++ q)
      → start d.selection ≡ byte_len p
      → end d.selection ≡ byte_len p + byte_len m
      → selected_text ops d ≡ m
  unfolding selected_text
  selected_text-eq d p m q e first last =
      let e' : chars d.rope ≡ (p ++ m) ++ q = e ∙ sym (append_assoc p m q) in
      elim (Bool-cases (start d.selection == end d.selection)) [
        | inl same ↦
            if-true _ _ same
            ∙ sym (
                eq-nil_of_byte_len m (
                  omega
                    (arith, first, last, (==_iff (start d.selection) (end d.selection)).0 same)))
        | inr diff ↦
            if-false _ _ diff
            ∙ rw
                (
                  first,
                  last,
                  ← byte_len-append p m,
                  byte_to_char-boundary laws d.rope p (m ++ q) e,
                  byte_to_char-boundary laws d.rope (p ++ m) q e',
                )
                (slice-boundary laws d.rope p m q e)
      ]

  -- In a document that keeps the invariant the selected text is what stands between the two ends
  -- of the selection.
  pub selected_text-splits :
      {origin : Text} (d : Document Rope)
      → IsValid ops origin d
      → (p q : Text) × (chars d.rope ≡ p ++ (selected_text ops d ++ q))
        × (start d.selection ≡ byte_len p)
        × (end d.selection ≡ byte_len p + byte_len (selected_text ops d))
  unfolding selected_text
  selected_text-splits d v =
      let b = start-IsBoundary d.selection v.placed in
      let b' = end-IsBoundary d.selection v.placed in
      let (m, eq, rest) =
        prefix_extends b.before b.after b'.before b'.after (sym b.splits ∙ b'.splits)
          (omega (arith, b.at, b'.at, start-le-end d.selection)) in
      let e : chars d.rope ≡ b.before ++ (m ++ b'.after) = cc (b.splits, rest) in
      let last : end d.selection ≡ byte_len b.before + byte_len m =
        omega (arith, b'.at, ap byte_len eq, byte_len-append b.before m) in
      let same = selected_text-eq d b.before m b'.after e b.at last in
      (b.before, b'.after, rw same e, b.at, rw same last)

  -- The lines of a viewport: numbered from `index` on, each starting between two characters.
  abbrev pub LinesFrom : Rope → ℕ → List ViewportLine → Type 0
  LinesFrom r index [] = Unit
  LinesFrom r index (l ∷ ls) =
      (l.line_index ≡ index)
      × (l.number ≡ index + 1)
      × IsBoundary (chars r) l.start_byte
      × LinesFrom r (index + 1) ls

  viewport_lines-LinesFrom :
      (r : Rope) (count index : ℕ)
      → index + count ≤ len_lines r
      → LinesFrom r index (viewport_lines ops r count index)
        × (length (viewport_lines ops r count index) ≡ count)
  unfolding viewport_lines viewport_line
  viewport_lines-LinesFrom r zero index h = (tt, refl)
  viewport_lines-LinesFrom r (suc count) index h =
      let (lines, size) = viewport_lines-LinesFrom r count (index + 1) (omega arith) in
      ((refl, refl, line_start-IsBoundary laws r index (omega arith), lines), ap suc size)

  -- Whatever lines are asked for, the viewport shows a range of existing lines, numbered in order,
  -- each starting between two characters, and as many lines as the range has.
  pub viewport_window :
      (to_hex : List ℕ → Text) (first last : ℕ) (d : Document Rope)
      → let v = viewport ops to_hex first last d in
        (v.first_line ≤ v.last_line)
        × (v.last_line < v.total_lines)
        × LinesFrom d.rope v.first_line v.lines
        × (length v.lines ≡ v.last_line + 1 - v.first_line)
  unfolding viewport
  viewport_window to_hex first last d =
      let n = len_lines d.rope in
      let a = min first (n - 1) in
      let b = min (max last a) (n - 1) in
      let some_line = laws.len_lines_pos d.rope in
      let (lines, size) =
        viewport_lines-LinesFrom d.rope (b + 1 - a) a (omega (arith, some_line)) in
      (omega (arith, some_line), omega (arith, some_line), lines, size)
