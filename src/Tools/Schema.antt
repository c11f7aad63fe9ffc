-- ===== src/Tools/Schema.antt =====
-- JSON schemas (crates/lattice-tools/src/lib.rs): their depth, their normal form and registration,
-- and the validation of a tool's input. `serde_json::to_vec` and the hash are parameters.
use abraxius_lattice.Tools.Types.{
  Value, null, boolean, number, string, array, object, Values, no_values, value_and, Members,
  no_members, member_and, unsigned, negative, float, ToolFabricError, schema_too_deep,
  schema_root_not_object, schema_too_large, json, input_schema_failed, SchemaRevision, SchemaRecord,
  valid,
}
use abraxius_lattice.Base.Results.{Result, ok, err, and_then, map_err}
use abraxius_lattice.Base.Text.{Text, codes, text_eq}
use abraxius_lattice.Base.Maps.{text_key, compare_text, get, insert, contains_key}
use abraxius_lattice.Base.{
  Bool, true, false, List, Option, none, some, ◌++◌, ℕ, suc, if◌then◌else◌, not, ltb, length, min,
  u64_max,
}
use Prim.Native.Nat.Ordering.{lt, eq, gt}

abbrev pub max_schema_bytes : ℕ
max_schema_bytes = 1048576

abbrev pub max_schema_depth : ℕ
max_schema_depth = 64

unfoldable pub as_object : Value → Option Members
as_object (object ms) = some ms
as_object (array vs) = none
as_object (string s) = none
as_object (number n) = none
as_object (boolean b) = none
as_object null = none

unfoldable pub as_array : Value → Option Values
as_array (array vs) = some vs
as_array (object ms) = none
as_array (string s) = none
as_array (number n) = none
as_array (boolean b) = none
as_array null = none

unfoldable pub as_string : Value → Option Text
as_string (string s) = some s
as_string (array vs) = none
as_string (object ms) = none
as_string (number n) = none
as_string (boolean b) = none
as_string null = none

unfoldable pub get_member : Text → Members → Option Value
get_member k no_members = none
get_member k (member_and j v ms) =
    let rest = get_member k ms in if text_eq j k then some v else rest

-- `walk` of `validate_schema`, on a value, on an array's values and on an object's.
unfoldable mutual
  pub walk : Value → ℕ → Result (Unit {0}) ToolFabricError
  walk null depth = if ltb max_schema_depth depth then err schema_too_deep else ok tt
  walk (boolean b) depth = if ltb max_schema_depth depth then err schema_too_deep else ok tt
  walk (number n) depth = if ltb max_schema_depth depth then err schema_too_deep else ok tt
  walk (string s) depth = if ltb max_schema_depth depth then err schema_too_deep else ok tt
  walk (array vs) depth =
      let rest = walk_values vs (suc depth) in
      if ltb max_schema_depth depth then err schema_too_deep else rest
  walk (object ms) depth =
      let rest = walk_members ms (suc depth) in
      if ltb max_schema_depth depth then err schema_too_deep else rest

  pub walk_values : Values → ℕ → Result (Unit {0}) ToolFabricError
  walk_values no_values depth = ok tt
  walk_values (value_and v vs) depth =
      let rest = walk_values vs depth in and_then (walk v depth) (λ _. rest)

  pub walk_members : Members → ℕ → Result (Unit {0}) ToolFabricError
  walk_members no_members depth = ok tt
  walk_members (member_and k v ms) depth =
      let rest = walk_members ms depth in and_then (walk v depth) (λ _. rest)

unfoldable pub validate_schema : Value → Result (Unit {0}) ToolFabricError
validate_schema value = elim (as_object value) [
  | none ↦ err schema_root_not_object
  | some _ ↦ walk value 0
]

-- Collecting the members into a map again.
unfoldable pub insert_member : Text → Value → Members → Members
insert_member k v no_members = member_and k v no_members
insert_member k v (member_and j w ms) =
    let rest = insert_member k v ms in
    elim (compare_text k j) [
      | lt ↦ member_and k v (member_and j w ms)
      | eq ↦ member_and k v ms
      | gt ↦ member_and j w rest
    ]

-- The members in their order are inserted into `normalized`.
unfoldable mutual
  pub normalize_json : Value → Value
  normalize_json null = null
  normalize_json (boolean b) = boolean b
  normalize_json (number n) = number n
  normalize_json (string s) = string s
  normalize_json (array vs) = array (normalize_values vs)
  normalize_json (object ms) = object (normalize_members ms no_members)

  pub normalize_values : Values → Values
  normalize_values no_values = no_values
  normalize_values (value_and v vs) = value_and (normalize_json v) (normalize_values vs)

  pub normalize_members : Members → Members → Members
  normalize_members no_members normalized = normalized
  normalize_members (member_and k v ms) normalized =
      normalize_members ms (insert_member k (normalize_json v) normalized)

-- `SchemaRegistry`: its field `schemas`.
abbrev pub SchemaRegistry : Type 0
SchemaRegistry = List (SchemaRevision × SchemaRecord)

-- `blake3::hash`, and `serde_json::to_vec` on a value.
pub record SchemaOps : Type 0 where
  pub hash : List ℕ → List ℕ
  pub to_vec : Value → Result (List ℕ) Text

unfoldable pub schema_record : SchemaRevision → Value → Value → ℕ → SchemaRecord
schema_record revision provider_schema normalized len = record {
  revision = revision;
  provider_schema = provider_schema;
  normalized_schema = normalized;
  validation = valid;
  byte_len = min len u64_max;
}

-- `entry(revision).or_insert(…)`: what is there stays.
unfoldable pub or_insert : SchemaRevision → SchemaRecord → SchemaRegistry → SchemaRegistry
or_insert revision entry schemas =
    if contains_key revision schemas then schemas else insert revision entry schemas

unfoldable pub encode_schema : SchemaOps → Value → Result (List ℕ) ToolFabricError
encode_schema ops provider_schema = and_then (validate_schema provider_schema) (λ _.
    and_then (map_err json (ops.to_vec (normalize_json provider_schema))) (λ encoded.
      if ltb max_schema_bytes (length encoded)
      then err (schema_too_large (length encoded))
      else ok encoded))

unfoldable pub register_schema :
    SchemaOps → Value → SchemaRegistry → Result SchemaRevision ToolFabricError × SchemaRegistry
register_schema ops provider_schema schemas = elim (encode_schema ops provider_schema) [
  | err e ↦ (err e, schemas)
  | ok encoded ↦ (
    ok (ops.hash encoded),
    or_insert (ops.hash encoded)
        (schema_record (ops.hash encoded) provider_schema (normalize_json provider_schema)
          (length encoded))
        schemas,
  )
]

unfoldable pub get_schema : SchemaRevision → SchemaRegistry → Option SchemaRecord
get_schema revision schemas = get revision schemas

unfoldable pub is_integer : Value → Bool
is_integer (number (unsigned n)) = true
is_integer (number (negative n)) = true
is_integer (number (float n)) = false
is_integer (array vs) = false
is_integer (object ms) = false
is_integer (string s) = false
is_integer (boolean b) = false
is_integer null = false

unfoldable pub json_type_matches : Value → Text → Bool
unfolding is_integer
json_type_matches value expected =
    if text_eq expected (codes "null")
    then elim value [ null ↦ true | _ ↦ false ]
    else if text_eq expected (codes "boolean")
    then elim value [ boolean _ ↦ true | _ ↦ false ]
    else if text_eq expected (codes "object")
    then elim value [ object _ ↦ true | _ ↦ false ]
    else if text_eq expected (codes "array")
    then elim value [ array _ ↦ true | _ ↦ false ]
    else if text_eq expected (codes "number")
    then elim value [ number _ ↦ true | _ ↦ false ]
    else if text_eq expected (codes "integer")
    then is_integer value
    else if text_eq expected (codes "string")
    then elim value [ string _ ↦ true | _ ↦ false ]
    else false

-- The loop over the names of `required`; what is no string is passed over.
unfoldable pub check_required : Values → Members → Result (Unit {0}) ToolFabricError
check_required no_values input = ok tt
check_required (value_and v vs) input =
    let rest = check_required vs input in
    elim (as_string v) [
      | none ↦ rest
      | some name ↦ elim (get_member name input) [
        | none ↦
            err (input_schema_failed (codes "required property " ++ (name ++ codes " is missing")))
        | some _ ↦ rest
      ]
    ]

unfoldable pub is_closed : Members → Bool
is_closed schema = elim (get_member (codes "additionalProperties") schema) [
  | none ↦ false
  | some v ↦ elim v [ boolean b ↦ not b | _ ↦ false ]
]

-- `property_schema.get("type").and_then(Value::as_str)`.
unfoldable pub type_of : Members → Option Text
type_of schema = elim (get_member (codes "type") schema) [ none ↦ none | some v ↦ as_string v ]

unfoldable pub property_type : Value → Option Text
property_type schema = elim (as_object schema) [ none ↦ none | some ms ↦ type_of ms ]

-- One round of the loop over the members of the input.
unfoldable pub check_property : Members → Members → Text → Value → Result (Unit {0}) ToolFabricError
check_property schema properties name value = elim (get_member name properties) [
  | none ↦
      if is_closed schema
      then err
          (input_schema_failed (codes "additional property " ++ (name ++ codes " is not allowed")))
      else ok tt
  | some property_schema ↦ elim (property_type property_schema) [
    | none ↦ ok tt
    | some expected ↦
        if json_type_matches value expected
        then ok tt
        else err
            (input_schema_failed (codes "property " ++ (name ++ (codes " must be " ++ expected))))
  ]
]

unfoldable pub check_properties : Members → Members → Members → Result (Unit {0}) ToolFabricError
check_properties schema properties no_members = ok tt
check_properties schema properties (member_and name value ms) =
    let rest = check_properties schema properties ms in
    and_then (check_property schema properties name value) (λ _. rest)

-- The field of the schema as an array, and as an object.
unfoldable pub array_field : Text → Members → Option Values
array_field name schema = elim (get_member name schema) [ none ↦ none | some v ↦ as_array v ]

unfoldable pub object_field : Text → Members → Option Members
object_field name schema = elim (get_member name schema) [ none ↦ none | some v ↦ as_object v ]

unfoldable pub check_required_field : Option Values → Members → Result (Unit {0}) ToolFabricError
check_required_field none input = ok tt
check_required_field (some required) input = check_required required input

unfoldable pub check_properties_field :
    Members → Option Members → Members → Result (Unit {0}) ToolFabricError
check_properties_field schema none input = ok tt
check_properties_field schema (some properties) input = check_properties schema properties input

unfoldable pub check_input : Members → Members → Result (Unit {0}) ToolFabricError
check_input schema input =
    and_then (check_required_field (array_field (codes "required") schema) input)
      (λ _. check_properties_field schema (object_field (codes "properties") schema) input)

-- An input that is no object is refused whether the schema's type says so or not.
unfoldable pub validate_objects :
    Option Members → Option Members → Result (Unit {0}) ToolFabricError
validate_objects none given = err schema_root_not_object
validate_objects (some schema) none =
    err (input_schema_failed (codes "input must be a JSON object"))
validate_objects (some schema) (some given) = check_input schema given

unfoldable pub validate_tool_input : Value → Value → Result (Unit {0}) ToolFabricError
validate_tool_input schema input = validate_objects (as_object schema) (as_object input)
