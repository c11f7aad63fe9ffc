-- ===== src/Tools/Builtin.antt =====
-- The fabric that is built at start (crates/lattice-tools/src/lib.rs). The package's version, which
-- the build fills in, is a parameter.
use abraxius_lattice.Tools.Types.{
  ProviderId, ProviderKind, built_in_kind, mcp_stdio, native_adapter_kind, ProviderTrust,
  built_in_trust, ProviderTransportKind, in_process, stdio, native_adapter_transport,
  ProviderConnectionState, configured, connected, unavailable_state, ProviderHealthStatus, healthy,
  unavailable_status, not_required, StudioEnvironmentId, ProviderDescriptor, OperationSemantics,
  known_true, known_false, CapabilityId, CapabilityDefinition, ImportedTool, Value, string, number,
  unsigned, boolean, array, object, value_and, no_values, member_and, no_members, any_target,
  built_in, ToolFabricError,
}
use abraxius_lattice.Tools.Ids.{from_stable_key, encode_hex}
use abraxius_lattice.Tools.Capability.{CapabilityRegistry, register_capability, parse_capability}
use abraxius_lattice.Tools.Providers.{ProviderRegistry, register, update_catalog_health}
use abraxius_lattice.Tools.Catalog.{ToolCatalog, CatalogOps, refresh_provider}
use abraxius_lattice.Base.Results.{Result, ok, err, and_then}
use abraxius_lattice.Base.Text.{Text, codes, as_bytes}
use abraxius_lattice.Base.{
  Bool, true, false, List, Option, none, some, [], ◌++◌, ◌∷◌, ℕ, if◌then◌else◌,
}

-- What is read of a `StudioEnvironment`: its identifier, and whether `mcp_launcher` is there.
pub record StudioEnvironment : Type 0 where
  pub id : StudioEnvironmentId
  pub has_mcp_launcher : Bool

pub record BuiltinToolFabric : Type 0 where
  pub providers : ProviderRegistry
  pub catalog : ToolCatalog
  pub capabilities : CapabilityRegistry

unfoldable pub read_only_semantics : OperationSemantics
read_only_semantics = record {
  read_only = known_true;
  mutating = known_false;
  destructive = known_false;
  idempotent = known_true;
  open_world = known_false;
  network_access = known_false;
  filesystem_access = known_true;
  code_execution = known_false;
  credential_use = known_false;
  transaction_support = known_false;
}

unfoldable pub provider_descriptor :
    Text
    → ProviderId
    → ProviderKind
    → Text
    → ProviderTrust
    → ProviderTransportKind
    → ProviderConnectionState
    → ProviderHealthStatus
    → Text
    → Text
    → Option StudioEnvironmentId
    → ProviderDescriptor
provider_descriptor version id kind name trust transport connection_state status reason source
      studio =
    record {
      id = id;
      kind = kind;
      name = name;
      version = some version;
      trust = trust;
      transport = transport;
      health = record {
        status = status;
        reason = reason;
        last_successful_operation_unix_ms = none;
        last_failure = none;
        rtt_micros = none;
        consecutive_failures = 0;
        connected_at_unix_ms = none;
        catalog_revision = none;
        tool_count = 0;
        resource_count = 0;
        authentication = not_required;
        connection_state = connection_state;
      };
      metadata = record {
        source = source;
        studio_environment_id = studio;
        studio_session_id = none;
        configured_priority = none;
        protocol = none;
      };
    }

unfoldable pub builtin_tool : Text → Text → CapabilityId → Value → ImportedTool
builtin_tool native_name title capability input_schema = record {
  native_name = native_name;
  title = some title;
  provider_description = some (codes "Lattice-owned deterministic operation");
  input_schema = input_schema;
  output_schema = none;
  capabilities = record { capability = capability; target = any_target } ∷ [];
  verified_semantics = read_only_semantics;
  reported_semantics = record {
    read_only_hint = some true;
    destructive_hint = some false;
    idempotent_hint = some true;
    open_world_hint = some false;
  };
  trust = built_in;
}

-- The state of a method that has succeeded.
unfoldable pub state_of : {S A : Type 0} → Result A ToolFabricError × S → Result S ToolFabricError
state_of (ok a, s) = ok s
state_of (err e, s) = err e

unfoldable pub workspace_status_definition : CapabilityId → CapabilityDefinition
workspace_status_definition id = record {
  id = id;
  meaning = codes "Read the active canonical workspace status";
  input_contract = codes "empty object";
  output_contract = codes "workspace identity and index revision";
  side_effects = read_only_semantics;
}

unfoldable pub workspace_search_definition : CapabilityId → CapabilityDefinition
workspace_search_definition id = record {
  id = id;
  meaning = codes "Search the canonical workspace index";
  input_contract = codes "query and bounded result limit";
  output_contract = codes "compact resource references and evidence";
  side_effects = read_only_semantics;
}

abbrev member : Text → Value → Value
member k v = object (member_and k v no_members)

unfoldable pub status_schema : Value
status_schema = object (
    member_and (codes "additionalProperties") (boolean false)
      (member_and (codes "type") (string (codes "object")) no_members))

-- The members of an object are in the order of their keys.
unfoldable pub search_schema : Value
search_schema = object (
    member_and (codes "additionalProperties") (boolean false) (
      member_and (codes "properties")
        (object (
          member_and (codes "limit")
            (object (
              member_and (codes "maximum") (number (unsigned 50)) (
                member_and (codes "minimum") (number (unsigned 1))
                  (member_and (codes "type") (string (codes "integer")) no_members))))
            (member_and (codes "query") (member (codes "type") (string (codes "string")))
              no_members)))
        (member_and (codes "required") (array (value_and (string (codes "query")) no_values))
          (member_and (codes "type") (string (codes "object")) no_members))))

abbrev studio_key : StudioEnvironment → Text
studio_key environment = codes "studio:" ++ (codes "env_" ++ encode_hex environment.id)

unfoldable pub studio_descriptor : (List ℕ → List ℕ) → Text → StudioEnvironment → ProviderDescriptor
studio_descriptor hash version environment =
    provider_descriptor version (from_stable_key hash (as_bytes (studio_key environment))) mcp_stdio
      (codes "Roblox Studio MCP") built_in_trust stdio
      (if environment.has_mcp_launcher then configured else unavailable_state) unavailable_status
      (if environment.has_mcp_launcher
        then codes "Studio MCP launch specification is resolved; lazy connection is not open"
        else codes "Studio environment is resolved, but no MCP launch specification is available")
      (studio_key environment) (some environment.id)

-- The loop over the environments.
unfoldable pub register_environments :
    (List ℕ → List ℕ)
    → Text
    → List StudioEnvironment
    → ProviderRegistry
    → Result ProviderRegistry ToolFabricError
register_environments hash version [] providers = ok providers
register_environments hash version (e ∷ es) providers =
    let rest = register_environments hash version es in
    and_then (state_of (register (studio_descriptor hash version e) providers)) rest

unfoldable pub lattice_descriptor : (List ℕ → List ℕ) → Text → ProviderDescriptor
lattice_descriptor hash version =
    provider_descriptor version (from_stable_key hash (as_bytes (codes "builtin:lattice-core")))
      built_in_kind (codes "Lattice Core") built_in_trust in_process connected healthy
      (codes "built-in workspace services are available") (codes "builtin:lattice-core") none

unfoldable pub git_descriptor : (List ℕ → List ℕ) → Text → ProviderDescriptor
git_descriptor hash version =
    provider_descriptor version (from_stable_key hash (as_bytes (codes "builtin:git")))
      native_adapter_kind (codes "Git") built_in_trust native_adapter_transport unavailable_state
      unavailable_status (codes "git2 integration is not implemented in the current repository")
      (codes "builtin:git") none

unfoldable pub trace_descriptor : (List ℕ → List ℕ) → Text → ProviderDescriptor
trace_descriptor hash version =
    provider_descriptor version (from_stable_key hash (as_bytes (codes "builtin:trace")))
      native_adapter_kind (codes "Flight Recorder") built_in_trust native_adapter_transport
      unavailable_state unavailable_status
      (codes "Flight Recorder is not implemented in the current repository") (codes "builtin:trace")
      none

unfoldable pub builtin_tools : CapabilityId → CapabilityId → List ImportedTool
builtin_tools workspace_status workspace_search =
    builtin_tool (codes "lattice.workspace.status") (codes "Workspace Status") workspace_status
      status_schema
    ∷ builtin_tool (codes "lattice.search") (codes "Workspace Search") workspace_search
        search_schema
    ∷ []

abbrev empty_catalog : ToolCatalog
empty_catalog = record {
  tools = [];
  provider_tools = [];
  schema_registry = [];
  catalog_revisions = [];
}

-- From the registration of the two capabilities on, the providers and the catalog.
unfoldable pub register_builtin :
    CatalogOps
    → Text
    → List StudioEnvironment
    → CapabilityId
    → CapabilityId
    → CapabilityRegistry
    → Result BuiltinToolFabric ToolFabricError
register_builtin ops version environments workspace_status workspace_search capabilities =
    let hash = ops.schema_ops.hash in
    let lattice_provider = from_stable_key hash (as_bytes (codes "builtin:lattice-core")) in
    and_then (state_of (register (lattice_descriptor hash version) [])) (λ providers.
      let (refreshed, catalog) =
        refresh_provider ops lattice_provider (builtin_tools workspace_status workspace_search)
          empty_catalog in
      and_then refreshed (λ refresh.
        and_then (state_of (update_catalog_health lattice_provider refresh 2 providers))
          (λ providers'.
            and_then (state_of (register (git_descriptor hash version) providers')) (λ providers''.
              and_then (state_of (register (trace_descriptor hash version) providers''))
                (λ providers'''.
                  and_then (register_environments hash version environments providers''') (λ all.
                    ok (record {
                      providers = all;
                      catalog = catalog;
                      capabilities = capabilities;
                    })))))))

unfoldable pub from_environments :
    CatalogOps → Text → List StudioEnvironment → Result BuiltinToolFabric ToolFabricError
from_environments ops version environments =
    and_then (parse_capability (codes "lattice:workspace.status@1")) (λ workspace_status.
      and_then (parse_capability (codes "lattice:workspace.search@1")) (λ workspace_search.
        and_then (state_of (register_capability (workspace_status_definition workspace_status) []))
          (λ capabilities.
            and_then
              (state_of
                (register_capability (workspace_search_definition workspace_search) capabilities))
              (λ capabilities'.
                register_builtin ops version environments workspace_status workspace_search
                  capabilities'))))
