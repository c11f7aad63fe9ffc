-- ===== src/Editor/Edits/Replace.antt =====
-- `ensure_boundary`, `replace_bytes` and one round of `apply_transaction` as splices of the text.
use abraxius_lattice.Base.{
  ℕ, ◌+◌, ◌-◌, ◌≤◌, ◌≡◌, sym, append_assoc, ◌∙◌, inl, inr, some, ◌++◌, arith, take, drop, length,
  length-append, take-length-append, drop-length-append, Option-cases, le→ltb_false, ==-self,
}
use abraxius_lattice.Base.Results.{ok}
use abraxius_lattice.Base.Text.{Text, byte_len}
use abraxius_lattice.Editor.Rope.{char_of_byte, RopeOps, RopeLaws}
use abraxius_lattice.Editor.Rope.Laws.{
  IsBoundary, byte_to_char-boundary, char_to_byte-boundary, boundary-le-len_bytes,
  char_to_byte-IsBoundary, byte_len-append, char_of_byte-le,
}
use abraxius_lattice.Editor.Types.{AppliedEdit}
use abraxius_lattice.Editor.Edits.{ensure_boundary, replace_bytes}

-- An edit takes `t` to `t'`: at its offset the deleted text stands in `t` and the inserted in `t'`.
pub record Splice (e : AppliedEdit) (t t' : Text) : Type 0 where
  pub before : Text
  pub after : Text
  pub from : t ≡ before ++ (e.deleted ++ after)
  pub to : t' ≡ before ++ (e.inserted ++ after)
  pub at : e.start_byte ≡ byte_len before

cut-boundary :
    {t : Text} (p m q : Text)
    → t ≡ p ++ (m ++ q)
    → take (length p) t ++ drop (length (p ++ m)) t ≡ p ++ q
cut-boundary {t} p m q e =
    let head : take (length p) t ≡ p = rw e (take-length-append p (m ++ q)) in
    let tail : drop (length (p ++ m)) t ≡ q =
      rw (e, ← append_assoc) (drop-length-append (p ++ m) q) in
    cc (head, tail)

module _ {Rope : Type 0} {ops : RopeOps Rope} (laws : RopeLaws ops) where
  open ops use {chars, try_byte_to_char, try_char_to_byte, try_remove, try_insert, len_bytes}

  pub ensure_boundary-ok :
      (r : Rope) (p q : Text) → chars r ≡ p ++ q → ensure_boundary ops (byte_len p) r ≡ ok tt
  unfolding ensure_boundary
  ensure_boundary-ok r p q e = rw (
    le→ltb_false (len_bytes r) (byte_len p) (boundary-le-len_bytes laws r p q e),
    byte_to_char-boundary laws r p q e,
    char_to_byte-boundary laws r p q e,
    ==-self (byte_len p),
  )

  canonical_index-IsBoundary :
      (r : Rope) (b i c : ℕ)
      → try_byte_to_char r b ≡ some i
      → b ≤ byte_len (chars r)
      → try_char_to_byte r i ≡ some c
      → c ≡ b
      → IsBoundary (chars r) b
  canonical_index-IsBoundary r b i c hi le hc same =
      let index : i ≡ char_of_byte (chars r) b = cc (laws.byte_to_char r b le) in
      char_to_byte-IsBoundary laws r i b (omega (arith, char_of_byte-le (chars r) b, index))
        (rw (← same) hc)

  -- What passes the check is a boundary.
  pub ensure_boundary-IsBoundary :
      (b : ℕ) (r : Rope) → ensure_boundary ops b r ≡ ok tt → IsBoundary (chars r) b
  unfolding ensure_boundary
  ensure_boundary-IsBoundary b r h = elim (Option-cases (try_byte_to_char r b)) [
    | inl n ↦ absurd (ground arith)
    | inr (i, hi) ↦ elim (Option-cases (try_char_to_byte r i)) [
      | inl n ↦ absurd (ground arith)
      | inr (c, hc) ↦
          canonical_index-IsBoundary r b i c hi (ground (arith, laws.len_bytes_lem r)) hc
            (ground arith)
    ]
  ]

  -- Removing the characters between two boundaries.
  pub remove-boundary :
      (r : Rope) (p m q : Text)
      → chars r ≡ p ++ (m ++ q)
      → (r' : Rope) × (try_remove r (length p) (length (p ++ m)) ≡ ok r') × (chars r' ≡ p ++ q)
  remove-boundary r p m q e =
      let fits : length (p ++ m) ≤ length (chars r) =
        rw (e, ← append_assoc) (omega (arith, length-append (p ++ m) q)) in
      let (r', removed, text) =
        laws.remove r (length p) (length (p ++ m)) (omega (arith, length-append p m)) fits in
      (r', removed, text ∙ cut-boundary p m q e)

  pub slice-boundary :
      (r : Rope) (p m q : Text)
      → chars r ≡ p ++ (m ++ q)
      → ops.slice r (length p) (length (p ++ m)) ≡ m
  slice-boundary r p m q e =
      let fits : length (p ++ m) ≤ length (chars r) =
        rw (e, ← append_assoc) (omega (arith, length-append (p ++ m) q)) in
      let size : length (p ++ m) - length p ≡ length m = omega (arith, length-append p m) in
      laws.slice_lem r (length p) (length (p ++ m)) (omega (arith, length-append p m)) fits
      ∙ rw (size, e, drop-length-append p (m ++ q)) (take-length-append m q)

  pub insert-boundary :
      (r : Rope) (p q t : Text)
      → chars r ≡ p ++ q
      → (r' : Rope) × (try_insert r (length p) t ≡ ok r') × (chars r' ≡ p ++ (t ++ q))
  insert-boundary r p q t e =
      let fits : length p ≤ length (chars r) = rw e (omega (arith, length-append p q)) in
      let (r', inserted, text) = laws.insert r (length p) t fits in
      (r', inserted, text ∙ rw (e, take-length-append p q, drop-length-append p q))

  -- Between two boundaries `replace_bytes` succeeds and splices the text.
  pub replace_bytes-boundary :
      (r : Rope) (p m q t : Text)
      → chars r ≡ p ++ (m ++ q)
      → (r' : Rope) × (replace_bytes ops (byte_len p) (byte_len p + byte_len m) t r ≡ (ok tt, r'))
        × (chars r' ≡ p ++ (t ++ q))
  unfolding replace_bytes
  replace_bytes-boundary r p m q t e =
      let e' : chars r ≡ (p ++ m) ++ q = e ∙ sym (append_assoc p m q) in
      let (r1, removed, text1) = remove-boundary r p m q e in
      let (r2, inserted, text2) = insert-boundary r1 p q t text1 in
      (
        r2,
        rw (
          ← byte_len-append p m,
          ensure_boundary-ok r p (m ++ q) e,
          ensure_boundary-ok r (p ++ m) q e',
          le→ltb_false (byte_len (p ++ m)) (byte_len p) (omega (arith, byte_len-append p m)),
          byte_to_char-boundary laws r p (m ++ q) e,
          byte_to_char-boundary laws r (p ++ m) q e',
          removed,
          inserted,
        ),
        text2,
      )
