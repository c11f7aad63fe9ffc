-- ===== src/Tests/Tools.antt =====
-- crates/lattice-tools: small registries and catalogs, and the theorems there.
use abraxius_lattice.Tools.Types.{
  ToolDescriptor, ToolRef, ProviderDescriptor, RoutingRequest, any_target, invalid_tool_name,
  ImportedTool, Members, input_schema_failed, Value, object, no_members, string, member_and,
  invalid_capability_id,
}
use abraxius_lattice.Tools.Ids.{print_tool_ref, parse_tool_ref}
use abraxius_lattice.Tools.Schema.{
  validate_schema, as_object, validate_tool_input, validate_objects, check_input,
  check_required_field, check_properties_field, check_required, check_properties, check_property,
  array_field, object_field, as_array, as_string, get_member, property_type, type_of, is_closed,
  json_type_matches, register_schema, encode_schema, walk, normalize_json, insert_member,
}
use abraxius_lattice.Tools.Providers.{ProviderRegistry, get_provider}
use abraxius_lattice.Tools.Catalog.{
  ToolCatalog, CatalogOps, imported_descriptor, refresh_provider, import_tools, is_blank,
  active_tools, filter_tools, is_available, refresh_imported, catalog_revision, register_output,
  is_whitespace,
}
use abraxius_lattice.Tools.Router.{
  resolve, reference, references, candidates, choose, offers, any_binding, target_matches,
  target_eq, is_preferred, has_connected_provider, is_connected,
}
use abraxius_lattice.Tools.Builtin.{
  builtin_tool, provider_descriptor, lattice_descriptor, status_schema, search_schema,
}
use abraxius_lattice.Tools.Hex.{parse_tool_ref-print_tool_ref}
use abraxius_lattice.Tools.Input.{validate_tool_input-ok, Fits}
use abraxius_lattice.Tools.Form.{parse_capability-ok, IsCapability}
use abraxius_lattice.Tools.Capability.{
  parse_capability, validate_capability_id, validate_qualified, validate_pieces, split_once,
  rsplit_once, or_else, cons_before, valid_piece, valid_version, is_digit, starts_with_zero, all,
}
use abraxius_lattice.Base.Split.{is_empty}
use abraxius_lattice.Tools.Stored.{refresh_provider-AllStored, AllStored}
use abraxius_lattice.Tools.Routing.{IsCandidate, resolve-eq-ok, resolve_unavailable}
use abraxius_lattice.Tools.Depth.{validate_schema_iff, depth}
use abraxius_lattice.Tools.Kept.{Kept}
use abraxius_lattice.Tools.Refresh.{refresh_provider-err, HasTools}
use abraxius_lattice.Base.Results.{ok, err}
use abraxius_lattice.Base.Text.{Text, codes, text_eq, as_bytes, encode_utf8}
use abraxius_lattice.Base.Maps.{text_key, get, values, compare_text, contains_key}
use abraxius_lattice.Base.{ℕ, List, none, [], ◌∷◌, ◌≡◌, ◌≢◌, ◌≤◌, ◌↔◌, refl, arith, take}

abbrev zeros : List ℕ
zeros = 0 ∷ 17 ∷ 34 ∷ 51 ∷ 68 ∷ 85 ∷ 102 ∷ 119 ∷ 136 ∷ 153 ∷ 170 ∷ 187 ∷ 204 ∷ 221 ∷ 238 ∷ 255 ∷ []

abbrev sample_ref : ToolRef
sample_ref = record { provider_id = zeros; tool_id = zeros }

parse_tool_ref-print_tool_ref_example : parse_tool_ref (print_tool_ref sample_ref) ≡ ok sample_ref
parse_tool_ref-print_tool_ref_example =
    parse_tool_ref-print_tool_ref sample_ref (refl, ground arith) (refl, ground arith)

abbrev status_capability : Text
status_capability = codes "lattice:workspace.status@1"

abbrev status_import : ImportedTool
status_import =
    builtin_tool (codes "lattice.workspace.status") (codes "Workspace Status") status_capability
      status_schema

abbrev status_tool : ToolDescriptor
status_tool = imported_descriptor (1 ∷ []) zeros status_import (2 ∷ []) none

abbrev core_provider : ProviderDescriptor
core_provider = lattice_descriptor (λ bytes. zeros) (codes "0.1.0")

abbrev status_catalog : ToolCatalog
status_catalog = record {
  tools = ((1 ∷ []), status_tool) ∷ [];
  provider_tools = [];
  schema_registry = [];
  catalog_revisions = [];
}

abbrev core_registry : ProviderRegistry
core_registry = (zeros, core_provider) ∷ []

abbrev status_request : RoutingRequest
status_request = record {
  capability = status_capability;
  target = any_target;
  preferred_provider = none;
}

-- Names what a test has to compute with.
routing : Unit {0}
unfolding resolve reference references candidates choose offers any_binding target_matches target_eq
    is_preferred has_connected_provider is_connected active_tools filter_tools is_available
    get_provider get values text_eq compare_text imported_descriptor builtin_tool lattice_descriptor
    provider_descriptor
routing = tt

resolve-eq-ok_example :
    (t : ToolDescriptor) × (IsCandidate status_catalog core_registry status_request t
      × ((reference status_tool ≡ reference t)
          × ((u : ToolDescriptor)
              → IsCandidate status_catalog core_registry status_request u
              → u ≡ t)))
unfolding routing
resolve-eq-ok_example =
    resolve-eq-ok status_catalog core_registry status_request (reference status_tool) refl

resolve_unavailable_example : ¬ IsCandidate status_catalog [] status_request status_tool
unfolding routing
resolve_unavailable_example = resolve_unavailable status_catalog [] status_request status_tool refl

validate_schema_iff_example :
    (validate_schema status_schema ≡ ok tt)
    ↔ ((as_object status_schema ≢ none) × (depth status_schema ≤ 64))
validate_schema_iff_example = validate_schema_iff status_schema

abbrev sample_ops : CatalogOps
sample_ops = record {
  schema_ops = record { hash = λ bytes. take 32 bytes; to_vec = λ v. ok (1 ∷ []) };
  tools_to_vec = λ tools. ok [];
}

abbrev blank_import : ImportedTool
blank_import = builtin_tool (codes " ") [] status_capability status_schema

refresh_provider-err_example :
    let after = (refresh_provider sample_ops zeros (blank_import ∷ []) status_catalog).1 in
    HasTools after status_catalog × Kept status_catalog.schema_registry after.schema_registry
unfolding refresh_provider import_tools is_blank builtin_tool
refresh_provider-err_example =
    refresh_provider-err sample_ops zeros (blank_import ∷ []) status_catalog invalid_tool_name refl

-- `{"query": "lamp"}` fits the schema of the workspace search.
abbrev search_input : Value
search_input = object (member_and (codes "query") (string (codes "lamp")) no_members)

inputs : Unit {0}
unfolding validate_tool_input validate_objects check_input check_required_field
    check_properties_field check_required check_properties check_property array_field object_field
    as_object as_array as_string get_member property_type type_of is_closed json_type_matches
    search_schema text_eq
inputs = tt

validate_tool_input-ok_example :
    (ms : Members) × (given : Members) × (search_schema ≡ object ms)
    × (search_input ≡ object given)
    × Fits ms given
unfolding inputs
validate_tool_input-ok_example = validate_tool_input-ok search_schema search_input refl

-- A missing name is refused.
missing_query :
    validate_tool_input search_schema (object no_members)
    ≡ err (input_schema_failed (codes "required property query is missing"))
unfolding inputs
missing_query = refl

capabilities : Unit {0}
unfolding parse_capability validate_capability_id validate_qualified validate_pieces split_once
    rsplit_once or_else cons_before valid_piece valid_version is_digit starts_with_zero is_empty all
    as_bytes encode_utf8
capabilities = tt

parse_capability-ok_example :
    (status_capability ≡ status_capability) × IsCapability status_capability
unfolding capabilities
parse_capability-ok_example = parse_capability-ok status_capability status_capability refl

leading_zero :
    parse_capability (codes "lattice:a@01") ≡ err (invalid_capability_id (codes "lattice:a@01"))
unfolding capabilities
leading_zero = refl

refreshing : Unit {0}
unfolding refresh_provider import_tools is_blank builtin_tool register_schema encode_schema
    validate_schema as_object walk refresh_imported catalog_revision register_output normalize_json
    insert_member get status_schema is_whitespace contains_key compare_text
refreshing = tt

refresh_provider-AllStored_example :
    AllStored sample_ops.schema_ops.hash zeros
      (status_import ∷ [])
      (refresh_provider sample_ops zeros (status_import ∷ []) status_catalog).1
unfolding refreshing
refresh_provider-AllStored_example =
    refresh_provider-AllStored sample_ops zeros (status_import ∷ []) status_catalog _ refl
