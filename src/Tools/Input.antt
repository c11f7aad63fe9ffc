-- ===== src/Tools/Input.antt =====
-- What an accepted input has (crates/lattice-tools/src/lib.rs).
use abraxius_lattice.Tools.Types.{
  Value, Values, no_values, value_and, Members, no_members, member_and, null, boolean, number,
  string, array, object,
}
use abraxius_lattice.Tools.Schema.{
  as_object, as_string, get_member, check_required, check_property, check_properties, check_input,
  validate_tool_input, array_field, object_field, is_closed, property_type, check_required_field,
  check_properties_field, validate_objects, as_array, type_of,
}
use abraxius_lattice.Base.Results.{ok, and_then-eq-ok}
use abraxius_lattice.Base.Text.{Text, codes}
use abraxius_lattice.Base.{ap, true, false, Option, none, some, ◌≡◌, ◌≢◌, refl, arith}
use abraxius_lattice.Tools.JsonTypes.{HasType, json_type_matches-HasType}

some_eq : {A : Type 0} {x y : A} → some x ≡ some y → x ≡ y
some_eq h = cc

as_object-eq : (v : Value) {ms : Members} → as_object v ≡ some ms → v ≡ object ms
unfolding as_object
as_object-eq null {ms} h = cc
as_object-eq (boolean b) {ms} h = cc
as_object-eq (number n) {ms} h = cc
as_object-eq (string u) {ms} h = cc
as_object-eq (array us) {ms} h = cc
as_object-eq (object ns) {ms} h = ap object (some_eq h)

-- Every name of the array is the name of a member.
abbrev pub AllPresent : Values → Members → Type 0
AllPresent no_values input = Unit {0}
AllPresent (value_and v vs) input =
    ((name : Text) → v ≡ string name → get_member name input ≢ none) × AllPresent vs input

check_required-ok :
    (vs : Values) (input : Members) → check_required vs input ≡ ok tt → AllPresent vs input
unfolding check_required as_string
check_required-ok no_values input h = tt
check_required-ok (value_and v vs) input h = (
  λ name same g. let e = ap as_string same in ground (arith, e, g),
  check_required-ok vs input (ground (arith, check_required vs input)),
)

-- A member is named in the properties unless the schema is open, and has the type given there.
abbrev pub MemberFits : Members → Members → Text → Value → Type 0
MemberFits schema properties name value =
    ((p : Members) (t : Text)
      → get_member name properties ≡ some (object p)
      → get_member (codes "type") p ≡ some (string t)
      → HasType value t)
    × (get_member name properties ≡ none
        → get_member (codes "additionalProperties") schema ≢ some (boolean false))

abbrev pub AllFit : Members → Members → Members → Type 0
AllFit schema properties no_members = Unit {0}
AllFit schema properties (member_and name value ms) =
    MemberFits schema properties name value × AllFit schema properties ms

property_type-object :
    (p : Members) (t : Text)
    → get_member (codes "type") p ≡ some (string t)
    → property_type (object p) ≡ some t
unfolding property_type type_of as_object as_string
property_type-object p t f = ground (arith, f)

is_closed-false :
    (schema : Members)
    → get_member (codes "additionalProperties") schema ≡ some (boolean false)
    → is_closed schema ≡ true
unfolding is_closed
is_closed-false schema e = ground (arith, e)

check_property-ok :
    (schema properties : Members) (name : Text) (value : Value)
    → check_property schema properties name value ≡ ok tt
    → MemberFits schema properties name value
unfolding check_property
check_property-ok schema properties name value h = (
  λ p t e f.
      let typed = property_type-object p t f in
      json_type_matches-HasType value t (ground (arith, h, e, typed)),
  λ e closed. let shut = is_closed-false schema closed in absurd (ground (arith, h, e, shut)),
)

check_properties-ok :
    (schema properties ms : Members)
    → check_properties schema properties ms ≡ ok tt
    → AllFit schema properties ms
unfolding check_properties
check_properties-ok schema properties no_members h = tt
check_properties-ok schema properties (member_and name value ms) h =
    let (_, e, f) = and_then-eq-ok (check_property schema properties name value) _ h in
    (check_property-ok schema properties name value e, check_properties-ok schema properties ms f)

check_required_field-ok :
    (o : Option Values) (given : Members) (required : Values)
    → check_required_field o given ≡ ok tt
    → o ≡ some required
    → AllPresent required given
unfolding check_required_field
check_required_field-ok none given required h e = cc
check_required_field-ok (some vs) given required h e =
    check_required-ok required given (ground (arith, e, h))

check_properties_field-ok :
    (schema : Members) (o : Option Members) (given properties : Members)
    → check_properties_field schema o given ≡ ok tt
    → o ≡ some properties
    → AllFit schema properties given
unfolding check_properties_field
check_properties_field-ok schema none given properties h e = cc
check_properties_field-ok schema (some ps) given properties h e =
    check_properties-ok schema properties given (ground (arith, e, h))

-- What is required of the members of an input by those of its schema.
abbrev pub Fits : Members → Members → Type 0
Fits schema given =
    ((required : Values)
      → get_member (codes "required") schema ≡ some (array required)
      → AllPresent required given)
    × ((properties : Members)
        → get_member (codes "properties") schema ≡ some (object properties)
        → AllFit schema properties given)

array_field-some :
    (name : Text) (schema : Members) (vs : Values)
    → get_member name schema ≡ some (array vs)
    → array_field name schema ≡ some vs
unfolding array_field as_array
array_field-some name schema vs e = ground (arith, e)

object_field-some :
    (name : Text) (schema ms : Members)
    → get_member name schema ≡ some (object ms)
    → object_field name schema ≡ some ms
unfolding object_field as_object
object_field-some name schema ms e = ground (arith, e)

check_input-ok : (schema given : Members) → check_input schema given ≡ ok tt → Fits schema given
unfolding check_input
check_input-ok schema given h =
    let (_, e, f) =
      and_then-eq-ok (check_required_field (array_field (codes "required") schema) given)
        (λ _. check_properties_field schema (object_field (codes "properties") schema) given) h in
    (
      λ required r.
          check_required_field-ok _ given required e
            (array_field-some (codes "required") schema required r),
      λ properties q.
          check_properties_field-ok schema _ given properties f
            (object_field-some (codes "properties") schema properties q),
    )

validate_objects-ok :
    (schema input : Option Members)
    → validate_objects schema input ≡ ok tt
    → (ms : Members) × (given : Members) × (schema ≡ some ms) × (input ≡ some given) × Fits ms given
unfolding validate_objects
validate_objects-ok none input h = cc
validate_objects-ok (some ms) none h = cc
validate_objects-ok (some ms) (some given) h = (ms, given, refl, refl, check_input-ok ms given h)

-- An accepted input is an object, and so is its schema. It has every member that `required` names;
-- and where the schema has `properties`, each of its members has the type that they give for its
-- name, and a name that they do not give occurs only if `additionalProperties` is not `false`.
pub validate_tool_input-ok :
    (schema input : Value)
    → validate_tool_input schema input ≡ ok tt
    → (ms : Members) × (given : Members) × (schema ≡ object ms)
      × (input ≡ object given)
      × Fits ms given
unfolding validate_tool_input
validate_tool_input-ok schema input h =
    let (ms, given, a, b, fits) = validate_objects-ok (as_object schema) (as_object input) h in
    (ms, given, as_object-eq schema a, as_object-eq input b, fits)
