-- ===== src/Tools/Capability.antt =====
-- Capability and operation identifiers (crates/lattice-tools/src/lib.rs).
use abraxius_lattice.Tools.Types.{
  ToolFabricError, invalid_capability_id, invalid_operation_id, CapabilityId, CapabilityDefinition,
  capability_already_registered,
}
use abraxius_lattice.Resource.{UuidOps}
use abraxius_lattice.Base.Results.{Result, ok, err, and_then, ok_or}
use abraxius_lattice.Base.Text.{Text, codes, strip_prefix, as_bytes}
use abraxius_lattice.Base.Split.{is_empty}
use abraxius_lattice.Base.Maps.{insert, contains_key, values, text_key}
use abraxius_lattice.Base.{
  Bool, true, false, List, Option, none, some, [], ◌++◌, ◌∷◌, ℕ, if◌then◌else◌, ◌||◌, ◌&&◌, not,
  leb, ◌==◌,
}

-- `split_once` and `rsplit_once` on one character.
unfoldable pub cons_before : ℕ → Option (Text × Text) → Option (Text × Text)
cons_before c none = none
cons_before c (some (before, after)) = some (c ∷ before, after)

unfoldable pub split_once : ℕ → Text → Option (Text × Text)
split_once sep [] = none
split_once sep (c ∷ t) =
    let rest = split_once sep t in if c == sep then some ([], t) else cons_before c rest

-- The last separator is in the rest if the rest has one.
unfoldable pub or_else : Option (Text × Text) → Option (Text × Text) → Option (Text × Text)
or_else none other = other
or_else (some pair) other = some pair

unfoldable pub rsplit_once : ℕ → Text → Option (Text × Text)
rsplit_once sep [] = none
rsplit_once sep (c ∷ t) =
    or_else (cons_before c (rsplit_once sep t)) (if c == sep then some ([], t) else none)

unfoldable pub is_digit : ℕ → Bool
is_digit b = leb 48 b && leb b 57

unfoldable pub is_piece_byte : ℕ → Bool
unfolding is_digit
is_piece_byte b = (leb 97 b && leb b 122) || is_digit b || b == b'.' || b == b'-'

unfoldable pub all : (ℕ → Bool) → List ℕ → Bool
all p [] = true
all p (b ∷ bs) = p b && all p bs

unfoldable pub valid_piece : Text → Bool
unfolding all is_piece_byte is_empty
valid_piece piece = not (is_empty piece) && all is_piece_byte (as_bytes piece)

-- `starts_with('0')`.
unfoldable pub starts_with_zero : Text → Bool
starts_with_zero [] = false
starts_with_zero (c ∷ t) = c == b'0'

unfoldable pub valid_version : Text → Bool
valid_version version =
    not (is_empty version) && all is_digit (as_bytes version) && not (starts_with_zero version)

-- What follows the last `@`, and what precedes it, cut at the first `:`.
unfoldable pub validate_pieces :
    Text → Text → Option (Text × Text) → Result (Unit {0}) ToolFabricError
validate_pieces value version none = err (invalid_capability_id value)
validate_pieces value version (some (namespace, name)) =
    if valid_piece namespace && valid_piece name && valid_version version
    then ok tt
    else err (invalid_capability_id value)

unfoldable pub validate_qualified : Text → Option (Text × Text) → Result (Unit {0}) ToolFabricError
validate_qualified value none = err (invalid_capability_id value)
validate_qualified value (some (qualified, version)) =
    validate_pieces value version (split_once b':' qualified)

unfoldable pub validate_capability_id : Text → Result (Unit {0}) ToolFabricError
validate_capability_id value = validate_qualified value (rsplit_once b'@' value)

-- `CapabilityId::parse`.
unfoldable pub parse_capability : Text → Result CapabilityId ToolFabricError
parse_capability value = and_then (validate_capability_id value) (λ _. ok value)

-- `OperationId::from_str`, of which `Display` writes `op_` and the identifier.
unfoldable pub parse_operation : (uuid : UuidOps) → Text → Result uuid.Uuid ToolFabricError
parse_operation uuid value =
    and_then (ok_or (strip_prefix (codes "op_") value) invalid_operation_id)
      (λ id. ok_or (uuid.parse_str id) invalid_operation_id)

unfoldable pub print_operation : (uuid : UuidOps) → uuid.Uuid → Text
print_operation uuid id = codes "op_" ++ uuid.format id

-- `CapabilityRegistry`: its field `definitions`.
abbrev pub CapabilityRegistry : Type 0
CapabilityRegistry = List (CapabilityId × CapabilityDefinition)

unfoldable pub register_capability :
    CapabilityDefinition
    → CapabilityRegistry
    → Result (Unit {0}) ToolFabricError × CapabilityRegistry
register_capability definition registry =
    if contains_key definition.id registry
    then (err (capability_already_registered definition.id), registry)
    else (ok tt, insert definition.id definition registry)

unfoldable pub list_capabilities : CapabilityRegistry → List CapabilityDefinition
list_capabilities registry = values registry
