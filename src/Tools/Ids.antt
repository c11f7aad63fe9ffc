-- ===== src/Tools/Ids.antt =====
-- Stable identifiers, references and capability identifiers (crates/lattice-tools/src/lib.rs).
use abraxius_lattice.Base.Results.{Result, ok, err, and_then, ok_or}
use abraxius_lattice.Base.Text.{Text, codes, strip_prefix, byte_len, as_bytes, text_eq}
use abraxius_lattice.Base.Split.{split}
use abraxius_lattice.Tools.Types.{
  ToolFabricError, invalid_stable_id, invalid_tool_ref, invalid_resource_ref, ProviderId, ToolId,
  ProviderResourceId, ToolRef, ProviderResourceRef,
}
use abraxius_lattice.Base.{
  List, Option, none, some, [], ◌++◌, ◌∷◌, ℕ, if◌then◌else◌, ◌&&◌, leb, ◌==◌, ◌+◌, ◌-◌, ◌*◌, ◌/◌,
  ◌%◌, take,
}

-- The character at an index of `HEX`.
unfoldable pub hex_digit : ℕ → ℕ
hex_digit n = if leb n 9 then 48 + n else 87 + n

unfoldable pub encode_hex : List ℕ → Text
encode_hex [] = []
encode_hex (b ∷ bs) = hex_digit (b / 16) ∷ hex_digit (b % 16) ∷ encode_hex bs

unfoldable pub decode_nibble : ℕ → Option ℕ
decode_nibble c =
    if leb 48 c && leb c 57
    then some (c - 48)
    else if leb 97 c && leb c 102
    then some (c - 97 + 10)
    else none

-- The loop over the pairs of `chunks_exact(2)`: a single byte at the end is left out.
unfoldable pub decode_pairs : List ℕ → Result (List ℕ) ToolFabricError
decode_pairs [] = ok []
decode_pairs (a ∷ []) = ok []
decode_pairs (a ∷ b ∷ t) =
    let rest = decode_pairs t in
    and_then (ok_or (decode_nibble a) invalid_stable_id) (λ high.
      and_then (ok_or (decode_nibble b) invalid_stable_id)
        (λ low. and_then rest (λ output. ok ((high * 16 + low) ∷ output))))

unfoldable pub decode_id : Text → Text → Result (List ℕ) ToolFabricError
decode_id value prefix =
    and_then (ok_or (strip_prefix prefix value) invalid_stable_id)
      (λ hex. if byte_len hex == 32 then decode_pairs (as_bytes hex) else err invalid_stable_id)

-- `ProviderId::from_str`, `ToolId::from_str` and `ProviderResourceId::from_str`, and what `Display`
-- writes, of `stable_id!`.
abbrev pub provider_prefix : Text
provider_prefix = codes "provider_"

abbrev pub tool_prefix : Text
tool_prefix = codes "tool_"

abbrev pub resource_prefix : Text
resource_prefix = codes "provider_resource_"

unfoldable pub show_stable_id : Text → List ℕ → Text
show_stable_id prefix bytes = prefix ++ encode_hex bytes

-- `from_stable_key`: the first sixteen bytes of the hash.
unfoldable pub from_stable_key : (List ℕ → List ℕ) → List ℕ → List ℕ
from_stable_key hash key = take 16 (hash key)

unfoldable pub tool_id : (List ℕ → List ℕ) → ProviderId → Text → ToolId
tool_id hash provider native_name =
    from_stable_key hash (as_bytes (show_stable_id provider_prefix provider ++ (0 ∷ native_name)))

unfoldable pub for_original_uri : (List ℕ → List ℕ) → ProviderId → Text → ProviderResourceId
for_original_uri hash provider original_uri =
    from_stable_key hash (as_bytes (show_stable_id provider_prefix provider ++ (0 ∷ original_uri)))

abbrev pub tool_ref_prefix : Text
tool_ref_prefix = codes "lattice://provider/"

unfoldable pub print_tool_ref : ToolRef → Text
print_tool_ref r =
    tool_ref_prefix
    ++ (show_stable_id provider_prefix r.provider_id
        ++ (codes "/tool/" ++ show_stable_id tool_prefix r.tool_id))

unfoldable pub print_resource_ref : ProviderResourceRef → Text
print_resource_ref r =
    tool_ref_prefix
    ++ (show_stable_id provider_prefix r.provider_id
        ++ (codes "/resource/" ++ show_stable_id resource_prefix r.resource_id))

unfoldable pub tool_ref_rest : ProviderId → List Text → Result ToolRef ToolFabricError
tool_ref_rest p [] = err invalid_tool_ref
tool_ref_rest p (word ∷ []) = err invalid_tool_ref
tool_ref_rest p (word ∷ tool ∷ []) =
    if text_eq word (codes "tool")
    then and_then (decode_id tool tool_prefix) (λ i. ok (record { provider_id = p; tool_id = i }))
    else err invalid_tool_ref
tool_ref_rest p (word ∷ tool ∷ more ∷ t) =
    if text_eq word (codes "tool")
    then and_then (decode_id tool tool_prefix) (λ i. err invalid_tool_ref)
    else err invalid_tool_ref

-- `ToolRef::from_str` on the segments of the body, which are never none.
unfoldable pub tool_ref_segments : List Text → Result ToolRef ToolFabricError
tool_ref_segments [] = err invalid_tool_ref
tool_ref_segments (provider ∷ t) =
    and_then (decode_id provider provider_prefix) (λ p. tool_ref_rest p t)

unfoldable pub parse_tool_ref : Text → Result ToolRef ToolFabricError
parse_tool_ref value =
    and_then (ok_or (strip_prefix tool_ref_prefix value) invalid_tool_ref)
      (λ body. tool_ref_segments (split b'/' body))

unfoldable pub resource_ref_rest :
    ProviderId → List Text → Result ProviderResourceRef ToolFabricError
resource_ref_rest p [] = err invalid_resource_ref
resource_ref_rest p (word ∷ []) = err invalid_resource_ref
resource_ref_rest p (word ∷ resource ∷ []) =
    if text_eq word (codes "resource")
    then and_then (decode_id resource resource_prefix)
        (λ i. ok (record { provider_id = p; resource_id = i }))
    else err invalid_resource_ref
resource_ref_rest p (word ∷ resource ∷ more ∷ t) =
    if text_eq word (codes "resource")
    then and_then (decode_id resource resource_prefix) (λ i. err invalid_resource_ref)
    else err invalid_resource_ref

unfoldable pub resource_ref_segments : List Text → Result ProviderResourceRef ToolFabricError
resource_ref_segments [] = err invalid_resource_ref
resource_ref_segments (provider ∷ t) =
    and_then (decode_id provider provider_prefix) (λ p. resource_ref_rest p t)

unfoldable pub parse_resource_ref : Text → Result ProviderResourceRef ToolFabricError
parse_resource_ref value =
    and_then (ok_or (strip_prefix tool_ref_prefix value) invalid_resource_ref)
      (λ body. resource_ref_segments (split b'/' body))
