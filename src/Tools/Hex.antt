-- ===== src/Tools/Hex.antt =====
-- The identifiers and the references of tools are read back (crates/lattice-tools/src/lib.rs).
use abraxius_lattice.Tools.Types.{ToolRef, invalid_stable_id, invalid_tool_ref}
use abraxius_lattice.Tools.Ids.{
  hex_digit, encode_hex, decode_nibble, decode_pairs, decode_id, show_stable_id, provider_prefix,
  tool_prefix, tool_ref_prefix, print_tool_ref, parse_tool_ref, tool_ref_segments, tool_ref_rest,
}
use abraxius_lattice.Base.Results.{ok, err, and_then, ok_or}
use abraxius_lattice.Base.Text.{
  Text, codes, text_eq, strip_prefix-append, byte_len, len_utf8, as_bytes, encode_utf8,
}
use abraxius_lattice.Base.Split.{split, split-append, split-one, Lacks}
use abraxius_lattice.Base.{
  List, Option, some, [], ◌++◌, ◌∷◌, ℕ, ◌+◌, ◌*◌, ◌/◌, ◌%◌, ◌<◌, ◌≡◌, ◌≢◌, if◌then◌else◌, ap, ◌∙◌,
  refl, length, arith, ◌==◌,
}

-- The elements are bytes.
abbrev pub AllBytes : List ℕ → Type 0
AllBytes [] = Unit {0}
AllBytes (b ∷ bs) = (b < 256) × AllBytes bs

decode_nibble-hex_digit : (n : ℕ) → n < 16 → decode_nibble (hex_digit n) ≡ some n
unfolding decode_nibble hex_digit
decode_nibble-hex_digit n h = ground arith

-- A digit is one byte, and no slash.
digit_ascii : (n : ℕ) → n < 16 → (hex_digit n < 128) × (hex_digit n ≢ b'/')
unfolding hex_digit
digit_ascii n h = (ground arith, λ e. ground arith)

ascii_bytes : (c : ℕ) (t : Text) → c < 128 → as_bytes (c ∷ t) ≡ c ∷ as_bytes t
unfolding as_bytes encode_utf8
ascii_bytes c t h = ground arith

ascii_len : (c : ℕ) (t : Text) → c < 128 → byte_len (c ∷ t) ≡ 1 + byte_len t
unfolding byte_len len_utf8
ascii_len c t h = ground arith

as_bytes-encode_hex : (bs : List ℕ) → AllBytes bs → as_bytes (encode_hex bs) ≡ encode_hex bs
unfolding encode_hex as_bytes
as_bytes-encode_hex [] h = refl
as_bytes-encode_hex (b ∷ bs) (h, hs) =
    ascii_bytes (hex_digit (b / 16)) (hex_digit (b % 16) ∷ encode_hex bs)
      (digit_ascii (b / 16) (omega arith)).0
    ∙ ap (λ (t : Text). hex_digit (b / 16) ∷ t)
        (ascii_bytes (hex_digit (b % 16)) (encode_hex bs) (digit_ascii (b % 16) (omega arith)).0
          ∙ ap (λ (t : Text). hex_digit (b % 16) ∷ t) (as_bytes-encode_hex bs hs))

byte_len-nil : byte_len [] ≡ 0
unfolding byte_len
byte_len-nil = refl

byte_len-encode_hex : (bs : List ℕ) → AllBytes bs → byte_len (encode_hex bs) ≡ 2 * length bs
unfolding encode_hex
byte_len-encode_hex [] h = byte_len-nil
byte_len-encode_hex (b ∷ bs) (h, hs) = ground (
  arith,
  ascii_len (hex_digit (b / 16)) (hex_digit (b % 16) ∷ encode_hex bs)
      (digit_ascii (b / 16) (omega arith)).0,
  ascii_len (hex_digit (b % 16)) (encode_hex bs) (digit_ascii (b % 16) (omega arith)).0,
  byte_len-encode_hex bs hs,
)

decode_pairs-encode_hex : (bs : List ℕ) → AllBytes bs → decode_pairs (encode_hex bs) ≡ ok bs
unfolding decode_pairs encode_hex
decode_pairs-encode_hex [] h = refl
decode_pairs-encode_hex (b ∷ bs) (h, hs) =
    rw
      (
        decode_nibble-hex_digit (b / 16) (omega arith),
        decode_nibble-hex_digit (b % 16) (omega arith),
        decode_pairs-encode_hex bs hs,
      )
      (ap (λ (n : ℕ). ok (n ∷ bs)) (omega arith))

encode_hex-Lacks : (bs : List ℕ) → AllBytes bs → Lacks b'/' (encode_hex bs)
unfolding encode_hex
encode_hex-Lacks [] h = tt
encode_hex-Lacks (b ∷ bs) (h, hs) = (
  (digit_ascii (b / 16) (omega arith)).1,
  ((digit_ascii (b % 16) (omega arith)).1, encode_hex-Lacks bs hs),
)

-- Sixteen bytes.
abbrev pub IsStableId : List ℕ → Type 0
IsStableId bytes = (length bytes ≡ 16) × AllBytes bytes

-- A stable identifier of sixteen bytes is read back from its text, whatever its prefix.
pub decode_id-show_stable_id :
    (prefix : Text) (bytes : List ℕ)
    → IsStableId bytes
    → decode_id (show_stable_id prefix bytes) prefix ≡ ok bytes
unfolding decode_id show_stable_id
decode_id-show_stable_id prefix bytes (l, h) =
    ap
      (λ (o : Option Text).
        and_then (ok_or o invalid_stable_id) (λ hex.
          if byte_len hex == 32 then decode_pairs (as_bytes hex) else err invalid_stable_id))
      (strip_prefix-append prefix (encode_hex bytes))
    ∙ rw (byte_len-encode_hex bytes h, l, as_bytes-encode_hex bytes h)
        (decode_pairs-encode_hex bytes h)

show_stable_id-Lacks :
    (prefix : Text) (bytes : List ℕ)
    → Lacks b'/' prefix
    → AllBytes bytes
    → Lacks b'/' (show_stable_id prefix bytes)
unfolding show_stable_id
show_stable_id-Lacks [] bytes l h = encode_hex-Lacks bytes h
show_stable_id-Lacks (c ∷ prefix) bytes (ne, l) h = (ne, show_stable_id-Lacks prefix bytes l h)

tool_ref_segments-show_stable_id :
    (p t : List ℕ)
    → IsStableId p
    → IsStableId t
    → tool_ref_segments
        (show_stable_id provider_prefix p ∷ codes "tool" ∷ show_stable_id tool_prefix t ∷ [])
      ≡ ok (record { provider_id = p; tool_id = t })
unfolding tool_ref_segments tool_ref_rest text_eq
tool_ref_segments-show_stable_id p t hp ht =
    rw (decode_id-show_stable_id provider_prefix p hp, decode_id-show_stable_id tool_prefix t ht)
      refl

split-tool_ref :
    (a b : Text)
    → Lacks b'/' a
    → Lacks b'/' b
    → split b'/' (a ++ (codes "/tool/" ++ b)) ≡ a ∷ codes "tool" ∷ b ∷ []
split-tool_ref a b ha hb =
    split-append b'/' a (codes "tool/" ++ b) ha
    ∙ ap (λ (ss : List Text). a ∷ ss)
        (split-append b'/' (codes "tool") b (ground arith)
          ∙ ap (λ (ss : List Text). codes "tool" ∷ ss) (split-one b'/' b hb))

-- The reference of a tool whose two identifiers have sixteen bytes is read back from its text.
pub parse_tool_ref-print_tool_ref :
    (r : ToolRef)
    → IsStableId r.provider_id
    → IsStableId r.tool_id
    → parse_tool_ref (print_tool_ref r) ≡ ok r
unfolding parse_tool_ref print_tool_ref
parse_tool_ref-print_tool_ref r hp ht =
    ap
      (λ (o : Option Text).
        and_then (ok_or o invalid_tool_ref) (λ body. tool_ref_segments (split b'/' body)))
      (strip_prefix-append tool_ref_prefix _)
    ∙ ap tool_ref_segments (
        split-tool_ref (show_stable_id provider_prefix r.provider_id)
          (show_stable_id tool_prefix r.tool_id)
          (show_stable_id-Lacks provider_prefix r.provider_id (ground arith) hp.1)
          (show_stable_id-Lacks tool_prefix r.tool_id (ground arith) ht.1))
    ∙ tool_ref_segments-show_stable_id r.provider_id r.tool_id hp ht
