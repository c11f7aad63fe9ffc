-- ===== src/Editor/Sample.antt =====
-- A rope and a hasher that keep what ropey and blake3 document: a text as one line, and the bytes
-- absorbed so far. They show that the hypotheses can hold, and the tests run on them.
use abraxius_lattice.Base.{
  ℕ, zero, suc, ◌-◌, ◌<◌, ◌≡◌, refl, sym, ◌&&◌, some, none, List, [], ◌∷◌, ◌++◌, flatten,
  append-nil, append_assoc, arith, leb, ◌==◌, if◌then◌else◌, take, drop, length, take-length,
}
use abraxius_lattice.Base.Results.{ok, err}
use abraxius_lattice.Base.Text.{Text, codes, byte_len}
use abraxius_lattice.Editor.Rope.{char_of_byte, RopeOps, RopeLaws}
use abraxius_lattice.Editor.View.{HasherOps}
use abraxius_lattice.Editor.View.Laws.{HasherLaws}

abbrev pub list_rope : RopeOps Text
list_rope = record {
  from_str = λ t. t;
  chars = λ t. t;
  chunks = λ t. t ∷ [];
  len_bytes = byte_len;
  len_lines = λ t. 1;
  try_byte_to_char = λ t b. if leb b (byte_len t) then some (char_of_byte t b) else none;
  try_char_to_byte = λ t i. if leb i (length t) then some (byte_len (take i t)) else none;
  try_char_to_line = λ t i. if leb i (length t) then some 0 else none;
  char_to_byte = λ t i. byte_len (take i t);
  line_to_char = λ t l. if l == 0 then 0 else length t;
  line = λ t l. t;
  slice = λ t i j. take (j - i) (drop i t);
  try_remove = λ t i j.
      if leb i j && leb j (length t)
      then ok (take i t ++ drop j t)
      else err (codes "out of bounds");
  try_insert = λ t i s.
      if leb i (length t) then ok (take i t ++ (s ++ drop i t)) else err (codes "out of bounds");
}

the_line :
    (t : Text) (l : ℕ)
    → l < 1
    → t
      ≡ take
          (list_rope.line_to_char t (suc l) - list_rope.line_to_char t l)
          (drop (list_rope.line_to_char t l) t)
the_line t zero h = sym (take-length (length t - 0) t (omega arith))
the_line t (suc l) h = absurd (omega arith)

pub list_rope-laws : RopeLaws list_rope
list_rope-laws = record {
  chars-from_str = λ t. refl;
  flatten-chunks = λ t. unfold flatten in append-nil t;
  len_bytes_lem = λ t. refl;
  byte_to_char = λ t b h. ground arith;
  byte_to_char_past = λ t b h. ground arith;
  char_to_byte_lem = λ t i h. refl;
  try_char_to_byte_lem = λ t i h. ground arith;
  try_char_to_byte_past = λ t i h. ground arith;
  slice_lem = λ t i j h k. refl;
  remove = λ t i j h k. (take i t ++ drop j t, ground arith, refl);
  insert = λ t i s h. (take i t ++ (s ++ drop i t), ground arith, refl);
  len_lines_pos = λ t. omega arith;
  line_to_char-zero = λ t. refl;
  line_to_char-len_lines = λ t. refl;
  line_to_char_step = λ t l h. ground arith;
  line_to_char-le = λ t l h. ground arith;
  line_lem = the_line;
  char_to_line = λ t i h. (0, ground arith, omega arith, ground arith, ground arith);
}

abbrev pub list_hasher : HasherOps (List ℕ)
list_hasher = record { new = []; update = λ h b. h ++ b; finalize = λ h. h }

pub list_hasher-laws : HasherLaws list_hasher
list_hasher-laws = record { update-nil = append-nil; update-append = append_assoc }
