-- ===== src/Editor/View.antt =====
-- What a `Document` shows (crates/lattice-editor-core/src/lib.rs): its hash, its text and the
-- viewport, and how it is opened. `blake3::Hasher` is code outside the repository: its type and
-- operations are parameters, and a digest is its bytes.
pub mod Laws
use abraxius_lattice.Base.{
  ℕ, zero, suc, ◌+◌, ◌-◌, Bool, true, false, Option, none, some, List, [], ◌∷◌, reverse, ltb, ◌==◌,
  ◌||◌, if◌then◌else◌, min, max,
}
use abraxius_lattice.Base.Text.{Text, as_bytes}
use abraxius_lattice.Editor.Rope.{RopeOps}
use abraxius_lattice.Editor.Types.{EditorSelection, caret, start, end, Document}
use abraxius_lattice.Editor.Document.{is_modified}

pub record HasherOps (Hasher : Type 0) : Type 0 where
  pub new : Hasher
  pub update : Hasher → List ℕ → Hasher
  pub finalize : Hasher → List ℕ

pub record ViewportLine : Type 0 where
  pub line_index : ℕ
  pub number : ℕ
  pub start_byte : ℕ
  pub text : Text

pub record EditorViewportSnapshot : Type 0 where
  pub document_id : ℕ
  pub revision : ℕ
  pub content_hash : Option Text
  pub first_line : ℕ
  pub last_line : ℕ
  pub total_lines : ℕ
  pub total_bytes : ℕ
  pub selection : EditorSelection
  pub modified : Bool
  pub read_only : Bool
  pub lines : List ViewportLine

-- `trim_end_matches(['\r', '\n'])`.
drop_breaks : Text → Text
drop_breaks [] = []
drop_breaks (c ∷ t) = let rest = drop_breaks t in if c == 0x0d || c == 0x0a then rest else c ∷ t

unfoldable pub trim_end_breaks : Text → Text
unfolding drop_breaks
trim_end_breaks t = reverse (drop_breaks (reverse t))

module _ {Rope Hasher : Type 0} (ops : RopeOps Rope) (hasher : HasherOps Hasher) where
  open hasher use {update, finalize}

  update_chunks : Hasher → List Text → Hasher
  update_chunks h [] = h
  update_chunks h (c ∷ cs) = update_chunks (update h (as_bytes c)) cs

  unfoldable pub hash_rope : Rope → List ℕ
  unfolding update_chunks
  hash_rope rope = finalize (update_chunks hasher.new (ops.chunks rope))

  unfoldable pub content_hash : Document Rope → List ℕ
  unfolding hash_rope
  content_hash d = hash_rope d.rope

  unfoldable pub new : ℕ → Text → Bool → Document Rope
  unfolding hash_rope
  new id source read_only = record {
    id = id;
    rope = ops.from_str source;
    revision = 0;
    clean_revision = 0;
    is_read_only = read_only;
    selection = caret 0;
    cached_content_hash = some (hash_rope (ops.from_str source));
    undo = [];
    redo = [];
  }

-- The hash that is cached, as its hexadecimal text.
unfoldable pub hash_text : (List ℕ → Text) → Option (List ℕ) → Option Text
hash_text to_hex none = none
hash_text to_hex (some digest) = some (to_hex digest)

module _ {Rope : Type 0} (ops : RopeOps Rope) where
  open ops use {
    chars, len_bytes, len_lines, try_byte_to_char, char_to_byte, line_to_char, line, slice,
  }

  unfoldable pub text : Document Rope → Text
  text d = chars d.rope

  slice_between : Rope → Option ℕ → Option ℕ → Text
  slice_between rope (some i) (some j) = slice rope i j
  slice_between rope _ _ = []

  unfoldable pub selected_text : Document Rope → Text
  unfolding slice_between
  selected_text d =
      if start d.selection == end d.selection
      then []
      else slice_between d.rope (try_byte_to_char d.rope (start d.selection))
          (try_byte_to_char d.rope (end d.selection))

  viewport_line : Rope → ℕ → ViewportLine
  viewport_line rope index = record {
    line_index = index;
    number = index + 1;
    start_byte = char_to_byte rope (line_to_char rope index);
    text = trim_end_breaks (line rope index);
  }

  -- `count` lines from `index` on: the map over `first_line..=last_line`.
  viewport_lines : Rope → ℕ → ℕ → List ViewportLine
  viewport_lines rope zero index = []
  viewport_lines rope (suc count) index =
      viewport_line rope index ∷ viewport_lines rope count (index + 1)

  -- `blake3::Hash::to_hex` is a parameter.
  unfoldable pub viewport : (List ℕ → Text) → ℕ → ℕ → Document Rope → EditorViewportSnapshot
  unfolding viewport_lines viewport_line
  viewport to_hex first last d =
      let first_line = min first (len_lines d.rope - 1) in
      let last_line = min (max last first_line) (len_lines d.rope - 1) in
      record {
        document_id = d.id;
        revision = d.revision;
        content_hash = hash_text to_hex d.cached_content_hash;
        first_line = first_line;
        last_line = last_line;
        total_lines = len_lines d.rope;
        total_bytes = len_bytes d.rope;
        selection = d.selection;
        modified = is_modified d;
        read_only = d.is_read_only;
        lines = viewport_lines d.rope (last_line + 1 - first_line) first_line;
      }
