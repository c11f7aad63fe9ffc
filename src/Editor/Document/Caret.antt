-- ===== src/Editor/Document/Caret.antt =====
-- Where the caret may go: the characters next to it, and `move_caret`.
use abraxius_lattice.Base.{
  ℕ, suc, ◌+◌, ◌-◌, ◌≤◌, ◌<◌, ◌≡◌, refl, sym, ap, subst, ◌∙◌, inl, inr, [], ◌∷◌, ◌++◌, arith, ltb,
  leb, ◌==◌, if-both, Bool-cases, take, drop, length, length-append, take-append-drop, append-nil,
  length-take-le,
}
use abraxius_lattice.Base.Results.{ok}
use abraxius_lattice.Base.Text.{Text, byte_len}
use abraxius_lattice.Editor.Rope.{RopeOps, RopeLaws}
use abraxius_lattice.Editor.Rope.Laws.{IsBoundary, byte_to_char-boundary}
use abraxius_lattice.Editor.Types.{
  EditorSelection, start, end, CaretMovement, left, right, home, to_end,
}
use abraxius_lattice.Editor.Document.{char_before, char_after, line_of, line_length, caret_target}
use abraxius_lattice.Editor.Document.History.{Placed}

pub start-le-end : (s : EditorSelection) → start s ≤ end s
unfolding start end
start-le-end s = ground arith

pub start-IsBoundary : (s : EditorSelection) {t : Text} → Placed s t → IsBoundary t (start s)
unfolding start
start-IsBoundary s {t} p = if-both (IsBoundary t) (ltb s.anchor s.head) p.at_anchor p.at_head

pub end-IsBoundary : (s : EditorSelection) {t : Text} → Placed s t → IsBoundary t (end s)
unfolding end
end-IsBoundary s {t} p = if-both (IsBoundary t) (ltb s.head s.anchor) p.at_anchor p.at_head

pub take-IsBoundary : (t : Text) (i : ℕ) → IsBoundary t (byte_len (take i t))
take-IsBoundary t i = record {
  before = take i t;
  after = drop i t;
  splits = sym (take-append-drop i t);
  at = refl;
}

pub whole-IsBoundary : (t : Text) → IsBoundary t (byte_len t)
whole-IsBoundary t = record { before = t; after = []; splits = sym (append-nil t); at = refl }

zero-IsBoundary : (t : Text) → IsBoundary t 0
unfolding byte_len
zero-IsBoundary t = record { before = []; after = t; splits = refl; at = refl }

longer : (p q : Text) {t : Text} → t ≡ p ++ q → byte_len p < byte_len t → length p + 1 ≤ length t
longer p [] {t} e h = absurd (omega (arith, ap byte_len (e ∙ append-nil p)))
longer p (c ∷ q) {t} e h = omega (arith, ap length e, length-append p (c ∷ q))

module _ {Rope : Type 0} {ops : RopeOps Rope} (laws : RopeLaws ops) (r : Rope) where
  open ops use {chars, len_bytes, len_lines, line_to_char, line, char_to_byte}

  char_to_byte-IsBoundary : (i : ℕ) → i ≤ length (chars r) → IsBoundary (chars r) (char_to_byte r i)
  char_to_byte-IsBoundary i le =
      subst (IsBoundary (chars r)) (sym (laws.char_to_byte_lem r i le))
        (take-IsBoundary (chars r) i)

  pub line_start-IsBoundary :
      (l : ℕ) → l < len_lines r → IsBoundary (chars r) (char_to_byte r (line_to_char r l))
  line_start-IsBoundary l lt =
      char_to_byte-IsBoundary (line_to_char r l) (laws.line_to_char-le r l (omega arith))

  -- Next to a boundary: one character back, and one on if there is one.
  pub char_before-ok :
      {h : ℕ} (b : IsBoundary (chars r) h)
      → char_before ops h r ≡ ok (byte_len (take (length b.before - 1) (chars r)))
  unfolding char_before
  char_before-ok b =
      let size : length b.before - 1 ≤ length (chars r) =
        rw b.splits (omega (arith, length-append b.before b.after)) in
      rw (
        b.at,
        byte_to_char-boundary laws r b.before b.after b.splits,
        laws.try_char_to_byte_lem r (length b.before - 1) size,
        laws.char_to_byte_lem r (length b.before - 1) size,
      )

  pub char_after-ok :
      {h : ℕ} (b : IsBoundary (chars r) h)
      → h < len_bytes r
      → char_after ops h r ≡ ok (byte_len (take (length b.before + 1) (chars r)))
  unfolding char_after
  char_after-ok b more =
      let size : length b.before + 1 ≤ length (chars r) =
        longer b.before b.after b.splits
          (omega (arith, b.at, laws.len_bytes_lem r, ap byte_len b.splits)) in
      rw (
        b.at,
        byte_to_char-boundary laws r b.before b.after b.splits,
        laws.try_char_to_byte_lem r (length b.before + 1) size,
        laws.char_to_byte_lem r (length b.before + 1) size,
      )

  line_of-ok :
      {h : ℕ} → IsBoundary (chars r) h → (l : ℕ) × (line_of ops h r ≡ ok l) × (l < len_lines r)
  unfolding line_of
  line_of-ok b =
      let size : length b.before ≤ length (chars r) =
        rw b.splits (omega (arith, length-append b.before b.after)) in
      let (l, found, lt, _, _) = laws.char_to_line r (length b.before) size in
      (l, rw (b.at, byte_to_char-boundary laws r b.before b.after b.splits, found), lt)

  line_length-le : (t : Text) → line_length t ≤ length t
  unfolding line_length
  line_length-le t = ground arith

  line-within :
      (l : ℕ) → l < len_lines r → line_to_char r l + line_length (line r l) ≤ length (chars r)
  line-within l lt =
      let n = line_to_char r (suc l) - line_to_char r l in
      let size : length (line r l) ≤ n =
        rw (laws.line_lem r l lt) (length-take-le n (drop (line_to_char r l) (chars r))) in
      omega (
        arith,
        size,
        line_length-le (line r l),
        laws.line_to_char_step r l lt,
        laws.line_to_char-le r (suc l) (omega arith),
      )

  -- Every movement from a selection between characters has a target between characters.
  pub caret_target-ok :
      (m : CaretMovement) (s : EditorSelection)
      → Placed s (chars r)
      → (b : ℕ) × (caret_target ops m s r ≡ ok b) × IsBoundary (chars r) b
  unfolding caret_target
  caret_target-ok left s p = elim (Bool-cases (start s == end s)) [
    | inr ranged ↦ (start s, rw ranged, start-IsBoundary s p)
    | inl point ↦ elim (Bool-cases (s.head == 0)) [
      | inl first ↦ (0, rw (point, first), zero-IsBoundary (chars r))
      | inr later ↦ (
        byte_len (take (length p.at_head.before - 1) (chars r)),
        rw (point, later, char_before-ok p.at_head),
        take-IsBoundary (chars r) _,
      )
    ]
  ]
  caret_target-ok right s p = elim (Bool-cases (start s == end s)) [
    | inr ranged ↦ (end s, rw ranged, end-IsBoundary s p)
    | inl point ↦ elim (Bool-cases (leb (len_bytes r) s.head)) [
      | inl last ↦ (
        len_bytes r,
        rw (point, last),
        subst (IsBoundary (chars r)) (sym (laws.len_bytes_lem r)) (whole-IsBoundary (chars r)),
      )
      | inr more ↦ (
        byte_len (take (length p.at_head.before + 1) (chars r)),
        rw (point, more, char_after-ok p.at_head (ground arith)),
        take-IsBoundary (chars r) _,
      )
    ]
  ]
  caret_target-ok home s p =
      let (l, found, lt) = line_of-ok p.at_head in
      (
        char_to_byte r (line_to_char r l),
        rw found,
        char_to_byte-IsBoundary _ (laws.line_to_char-le r l (omega arith)),
      )
  caret_target-ok to_end s p =
      let (l, found, lt) = line_of-ok p.at_head in
      (
        char_to_byte r (line_to_char r l + line_length (line r l)),
        rw found,
        char_to_byte-IsBoundary _ (line-within l lt),
      )
