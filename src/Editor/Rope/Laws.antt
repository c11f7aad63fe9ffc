-- ===== src/Editor/Rope/Laws.antt =====
-- Byte offsets and character indices of a text, at the boundaries between characters.
use abraxius_lattice.Base.{
  ℕ, ◌+◌, ◌-◌, ◌≤◌, ◌<◌, ◌≡◌, some, refl, sym, ap, ◌∙◌, [], ◌∷◌, ◌++◌, arith, le→ltb_false, take,
  drop, length, length-append, take-append-drop, take-length-append,
}
use abraxius_lattice.Base.Text.{Text, len_utf8, byte_len}
use abraxius_lattice.Editor.Rope.{char_of_byte, RopeOps, RopeLaws}

pub len_utf8_pos : (c : ℕ) → 0 < len_utf8 c
unfolding len_utf8
len_utf8_pos c = ground arith

pub byte_len-append : (s t : Text) → byte_len (s ++ t) ≡ byte_len s + byte_len t
unfolding byte_len
byte_len-append [] t = omega arith
byte_len-append (c ∷ s) t = omega (arith, byte_len-append s t)

-- A byte offset between two characters: what stands before it, and what behind.
pub record IsBoundary (t : Text) (b : ℕ) : Type 0 where
  pub before : Text
  pub after : Text
  pub splits : t ≡ before ++ after
  pub at : b ≡ byte_len before

pub char_of_byte-boundary : (s t : Text) → char_of_byte (s ++ t) (byte_len s) ≡ length s
unfolding byte_len char_of_byte
char_of_byte-boundary [] [] = refl
char_of_byte-boundary [] (c ∷ t) = ground (arith, len_utf8_pos c)
char_of_byte-boundary (c ∷ s) t =
    let e : len_utf8 c + byte_len s - len_utf8 c ≡ byte_len s = omega arith in
    rw (
      le→ltb_false (len_utf8 c + byte_len s) (len_utf8 c) (omega arith),
      e,
      char_of_byte-boundary s t,
    )

pub char_of_byte-le : (t : Text) (b : ℕ) → char_of_byte t b ≤ length t
unfolding char_of_byte
char_of_byte-le [] b = omega arith
char_of_byte-le (c ∷ t) b = ground (arith, char_of_byte-le t (b - len_utf8 c))

-- Of two boundaries the further one's text extends the nearer one's.
pub prefix_extends :
    (p q p' q' : Text)
    → p ++ q ≡ p' ++ q'
    → byte_len p ≤ byte_len p'
    → (m : Text) × (p' ≡ p ++ m) × (q ≡ m ++ q')
unfolding byte_len
prefix_extends [] q p' q' e h = (p', refl, e)
prefix_extends (c ∷ p) q [] q' e h = absurd (omega (arith, len_utf8_pos c))
prefix_extends (c ∷ p) q (c' ∷ p') q' e h =
    let heads : c ≡ c' = cc in
    let tails : p ++ q ≡ p' ++ q' = cc in
    let le : byte_len p ≤ byte_len p' = omega (arith, ap len_utf8 heads) in
    let (m, eq, rest) = prefix_extends p q p' q' tails le in (m, cc, rest)

-- A byte offset splits a text in one way only.
pub split_unique :
    (p q p' q' : Text) → p ++ q ≡ p' ++ q' → byte_len p ≡ byte_len p' → (p ≡ p') × (q ≡ q')
unfolding byte_len
split_unique [] q [] q' e h = (refl, e)
split_unique [] q (c' ∷ p') q' e h = absurd (omega (arith, len_utf8_pos c'))
split_unique (c ∷ p) q [] q' e h = absurd (omega (arith, len_utf8_pos c))
split_unique (c ∷ p) q (c' ∷ p') q' e h =
    let heads : c ≡ c' = cc in
    let tails : p ++ q ≡ p' ++ q' = cc in
    let (same, rest) = split_unique p q p' q' tails (omega (arith, ap len_utf8 heads)) in (cc, rest)

-- The boundaries of a rope, under what ropey documents.
module _ {Rope : Type 0} {ops : RopeOps Rope} (laws : RopeLaws ops) (r : Rope) where
  open ops use {chars, len_bytes, try_byte_to_char, try_char_to_byte}

  pub byte_to_char-boundary :
      (p q : Text) → chars r ≡ p ++ q → try_byte_to_char r (byte_len p) ≡ some (length p)
  byte_to_char-boundary p q e =
      let le : byte_len p ≤ byte_len (chars r) = rw e (omega (arith, byte_len-append p q)) in
      laws.byte_to_char r (byte_len p) le ∙ rw e (ap some (char_of_byte-boundary p q))

  pub char_to_byte-boundary :
      (p q : Text) → chars r ≡ p ++ q → try_char_to_byte r (length p) ≡ some (byte_len p)
  char_to_byte-boundary p q e =
      let le : length p ≤ length (chars r) = rw e (omega (arith, length-append p q)) in
      laws.try_char_to_byte_lem r (length p) le
      ∙ ap some (laws.char_to_byte_lem r (length p) le ∙ rw (e, take-length-append p q))

  pub boundary-le-len_bytes : (p q : Text) → chars r ≡ p ++ q → byte_len p ≤ len_bytes r
  boundary-le-len_bytes p q e = rw (laws.len_bytes_lem r, e) (omega (arith, byte_len-append p q))

  -- A character index that the rope converts is a boundary.
  pub char_to_byte-IsBoundary :
      (i b : ℕ) → i ≤ length (chars r) → try_char_to_byte r i ≡ some b → IsBoundary (chars r) b
  char_to_byte-IsBoundary i b le e = record {
    before = take i (chars r);
    after = drop i (chars r);
    splits = sym (take-append-drop i (chars r));
    at = cc (e, laws.try_char_to_byte_lem r i le, laws.char_to_byte_lem r i le);
  }
