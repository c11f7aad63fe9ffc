-- ===== src/Editor/Edits.antt =====
-- The edits of a rope: `ensure_boundary`, `replace_bytes`, the body of the loop of
-- `apply_transaction`, and the loops of `undo` and `redo` (crates/lattice-editor-core/src/lib.rs).
-- A step that fails keeps what the steps before it have written to the rope.
pub mod Replace
pub mod Loop
pub mod Chain
use abraxius_lattice.Base.{
  ℕ, ◌+◌, Bool, true, false, Option, List, [], ◌∷◌, ltb, leb, ◌==◌, not, if◌then◌else◌,
}
use abraxius_lattice.Base.Results.{
  Result, ok, err, ok_or, map_err, and_then, Method, ◌>>=◌, ◌>>◌, pure, raise, gets, asks,
}
use abraxius_lattice.Base.Text.{Text, byte_len}
use abraxius_lattice.Editor.Rope.{RopeOps}
use abraxius_lattice.Editor.Types.{
  EditOperation, AppliedEdit, EditorError, invalid_range, invalid_utf8_boundary, invalid_edit,
}

-- A test that returns early.
abbrev pub fail_if {ℓ} : {S : Type ℓ} → Bool → EditorError → Method S (Unit {0}) EditorError
fail_if true e s = (err e, s)
fail_if false e s = (ok tt, s)

-- A fallible write that replaces the rope, its error wrapped as `InvalidEdit`.
abbrev pub written : {Rope : Type 0} → Result Rope Text → Method Rope (Unit {0}) EditorError
written (ok r) s = (ok tt, r)
written (err e) s = (err (invalid_edit e), s)

-- `operations.sort_by_key(|operation| Reverse(operation.start_byte))`, a stable sort.
insert_by_start : EditOperation → List EditOperation → List EditOperation
insert_by_start o [] = o ∷ []
insert_by_start o (p ∷ ps) =
    let rest = insert_by_start o ps in
    if leb p.start_byte o.start_byte then o ∷ p ∷ ps else p ∷ rest

unfoldable pub sort_by_start : List EditOperation → List EditOperation
unfolding insert_by_start
sort_by_start [] = []
sort_by_start (o ∷ os) = insert_by_start o (sort_by_start os)

module _ {Rope : Type 0} (ops : RopeOps Rope) where
  open ops use {len_bytes, try_byte_to_char, try_char_to_byte, slice, try_remove, try_insert}

  unfoldable pub ensure_boundary : ℕ → Rope → Result (Unit {0}) EditorError
  ensure_boundary offset rope =
      if ltb (len_bytes rope) offset
      then err (invalid_range offset offset (len_bytes rope))
      else and_then (ok_or (try_byte_to_char rope offset) (invalid_utf8_boundary offset)) λ index.
        and_then (ok_or (try_char_to_byte rope index) (invalid_utf8_boundary offset))
          λ canonical. if canonical == offset then ok tt else err (invalid_utf8_boundary offset)

  byte_to_char : ℕ → Rope → Result ℕ EditorError
  byte_to_char b rope = ok_or (try_byte_to_char rope b) (invalid_utf8_boundary b)

  remove : ℕ → ℕ → Method Rope (Unit {0}) EditorError
  remove i j rope = written (try_remove rope i j) rope

  insert : ℕ → Text → Method Rope (Unit {0}) EditorError
  insert i t rope = written (try_insert rope i t) rope

  unfoldable pub replace_bytes : ℕ → ℕ → Text → Method Rope (Unit {0}) EditorError
  unfolding byte_to_char remove insert
  replace_bytes start_byte end_byte replacement = do
    asks (ensure_boundary start_byte)
    asks (ensure_boundary end_byte)
    length ← gets len_bytes
    fail_if (ltb end_byte start_byte) (invalid_range start_byte end_byte length)
    i ← asks (byte_to_char start_byte)
    j ← asks (byte_to_char end_byte)
    remove i j
    insert i replacement

  -- One round of the loop of `apply_transaction`, with `next_lower_bound`.
  unfoldable pub apply_operation : ℕ → EditOperation → Method Rope AppliedEdit EditorError
  unfolding byte_to_char remove insert
  apply_operation next_lower_bound o = do
    length ← gets len_bytes
    fail_if (ltb o.end_byte o.start_byte) (invalid_range o.start_byte o.end_byte length)
    fail_if (ltb next_lower_bound o.end_byte) (invalid_range o.start_byte o.end_byte length)
    asks (ensure_boundary o.start_byte)
    asks (ensure_boundary o.end_byte)
    i ← asks (byte_to_char o.start_byte)
    j ← asks (byte_to_char o.end_byte)
    deleted ← gets (λ r. slice r i j)
    remove i j
    insert i o.inserted
    pure (record { start_byte = o.start_byte; deleted = deleted; inserted = o.inserted })

  -- The loop: each round's start is the next round's bound, and the edits are returned in order.
  unfoldable pub apply_operations :
      ℕ → List EditOperation → Method Rope (List AppliedEdit) EditorError
  apply_operations bound [] = pure []
  apply_operations bound (o ∷ os) = do
    applied ← apply_operation bound o
    more ← apply_operations o.start_byte os
    pure (applied ∷ more)

  -- The loops of `undo` and `redo`, over the edits in the order in which they are visited.
  unfoldable pub undo_edits : List AppliedEdit → Method Rope (Unit {0}) EditorError
  undo_edits [] = pure tt
  undo_edits (e ∷ es) = do
    replace_bytes e.start_byte (e.start_byte + byte_len e.inserted) e.deleted
    undo_edits es

  unfoldable pub redo_edits : List AppliedEdit → Method Rope (Unit {0}) EditorError
  redo_edits [] = pure tt
  redo_edits (e ∷ es) = do
    replace_bytes e.start_byte (e.start_byte + byte_len e.deleted) e.inserted
    redo_edits es
