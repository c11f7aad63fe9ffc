-- ===== src/Editor/Rope.antt =====
-- The text buffer of crates/lattice-editor-core/src/lib.rs: `ropey::Rope` is code outside the
-- repository, so its type and operations are parameters, and what ropey documents about them are
-- the fields of `RopeLaws`. A rope is described by its characters, as code points.
pub mod Laws
use abraxius_lattice.Base.{
  ℕ, zero, suc, ◌+◌, ◌-◌, ◌≤◌, ◌<◌, ◌≡◌, Bool, Option, none, some, List, [], ◌∷◌, ◌++◌, flatten,
  ltb, take, drop, length, if◌then◌else◌,
}
use abraxius_lattice.Base.Text.{Text, len_utf8, byte_len}
use abraxius_lattice.Base.Results.{Result, ok, err}

-- The index of the character that holds a byte.
unfoldable pub char_of_byte : Text → ℕ → ℕ
char_of_byte [] b = 0
char_of_byte (c ∷ t) b =
    let rest = char_of_byte t (b - len_utf8 c) in if ltb b (len_utf8 c) then 0 else suc rest

pub record RopeOps (Rope : Type 0) : Type 0 where
  pub from_str : Text → Rope
  -- `to_string`, and the chunks in which the rope stores it.
  pub chars : Rope → Text
  pub chunks : Rope → List Text
  pub len_bytes : Rope → ℕ
  pub len_lines : Rope → ℕ
  pub try_byte_to_char : Rope → ℕ → Option ℕ
  pub try_char_to_byte : Rope → ℕ → Option ℕ
  pub try_char_to_line : Rope → ℕ → Option ℕ
  pub char_to_byte : Rope → ℕ → ℕ
  pub line_to_char : Rope → ℕ → ℕ
  pub line : Rope → ℕ → Text
  pub slice : Rope → ℕ → ℕ → Text
  -- An error is ropey's message.
  pub try_remove : Rope → ℕ → ℕ → Result Rope Text
  pub try_insert : Rope → ℕ → Text → Result Rope Text

module _ {Rope : Type 0} (ops : RopeOps Rope) where
  open ops use {
    from_str, chars, chunks, len_bytes, len_lines, try_byte_to_char, try_char_to_byte,
    try_char_to_line, char_to_byte, line_to_char, line, slice, try_remove, try_insert,
  }

  -- What ropey documents. Byte and character indices may be one past the end, and beyond that the
  -- `try_` operations fail.
  pub record RopeLaws : Type 0 where
    pub chars-from_str : (t : Text) → chars (from_str t) ≡ t
    pub flatten-chunks : (r : Rope) → flatten (chunks r) ≡ chars r
    pub len_bytes_lem : (r : Rope) → len_bytes r ≡ byte_len (chars r)
    pub byte_to_char :
        (r : Rope) (b : ℕ)
        → b ≤ byte_len (chars r)
        → try_byte_to_char r b ≡ some (char_of_byte (chars r) b)
    pub byte_to_char_past :
        (r : Rope) (b : ℕ) → byte_len (chars r) < b → try_byte_to_char r b ≡ none
    pub char_to_byte_lem :
        (r : Rope) (i : ℕ) → i ≤ length (chars r) → char_to_byte r i ≡ byte_len (take i (chars r))
    pub try_char_to_byte_lem :
        (r : Rope) (i : ℕ) → i ≤ length (chars r) → try_char_to_byte r i ≡ some (char_to_byte r i)
    pub try_char_to_byte_past :
        (r : Rope) (i : ℕ) → length (chars r) < i → try_char_to_byte r i ≡ none
    pub slice_lem :
        (r : Rope) (i j : ℕ)
        → i ≤ j
        → j ≤ length (chars r)
        → slice r i j ≡ take (j - i) (drop i (chars r))
    pub remove :
        (r : Rope) (i j : ℕ)
        → i ≤ j
        → j ≤ length (chars r)
        → (r' : Rope) × (try_remove r i j ≡ ok r')
          × (chars r' ≡ take i (chars r) ++ drop j (chars r))
    pub insert :
        (r : Rope) (i : ℕ) (t : Text)
        → i ≤ length (chars r)
        → (r' : Rope) × (try_insert r i t ≡ ok r')
          × (chars r' ≡ take i (chars r) ++ (t ++ drop i (chars r)))
    -- The first line starts at 0, the line past the last one at the end, and a line runs up to the
    -- start of the next.
    pub len_lines_pos : (r : Rope) → 0 < len_lines r
    pub line_to_char-zero : (r : Rope) → line_to_char r 0 ≡ 0
    pub line_to_char-len_lines : (r : Rope) → line_to_char r (len_lines r) ≡ length (chars r)
    pub line_to_char_step :
        (r : Rope) (l : ℕ) → l < len_lines r → line_to_char r l ≤ line_to_char r (suc l)
    pub line_to_char-le : (r : Rope) (l : ℕ) → l ≤ len_lines r → line_to_char r l ≤ length (chars r)
    pub line_lem :
        (r : Rope) (l : ℕ)
        → l < len_lines r
        → line r l
          ≡ take (line_to_char r (suc l) - line_to_char r l) (drop (line_to_char r l) (chars r))
    pub char_to_line :
        (r : Rope) (i : ℕ)
        → i ≤ length (chars r)
        → (l : ℕ) × (try_char_to_line r i ≡ some l)
          × (l < len_lines r)
          × (line_to_char r l ≤ i)
          × (i ≤ line_to_char r (suc l))
