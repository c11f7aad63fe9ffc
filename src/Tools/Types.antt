-- ===== src/Tools/Types.antt =====
-- The data of the tool fabric (crates/lattice-tools/src/lib.rs): providers, tools, capabilities and
-- schemas. A stable identifier, a `LatticeId` and a content hash stand as their bytes.
use abraxius_lattice.Base.Text.{Text}
use abraxius_lattice.Base.{Bool, List, Option, ℕ}

-- The identifiers: sixteen bytes, and the hash's thirty-two.
abbrev pub ProviderId : Type 0
ProviderId = List ℕ

abbrev pub ToolId : Type 0
ToolId = List ℕ

abbrev pub ProviderResourceId : Type 0
ProviderResourceId = List ℕ

abbrev pub ContentHash : Type 0
ContentHash = List ℕ

abbrev pub LatticeId : Type 0
LatticeId = List ℕ

abbrev pub StudioEnvironmentId : Type 0
StudioEnvironmentId = List ℕ

abbrev pub SchemaRevision : Type 0
SchemaRevision = ContentHash

-- A text that `validate_capability_id` has accepted.
abbrev pub CapabilityId : Type 0
CapabilityId = Text

-- `serde_json`'s numbers and values: a negative integer stands as its distance from zero, a float as
-- its bits, and an object is a map in the order of its keys.
pub data Number : Type 0 where
  unsigned : ℕ → Number
  negative : ℕ → Number
  float : ℕ → Number

mutual
  pub data Value : Type 0 where
    null : Value
    boolean : Bool → Value
    number : Number → Value
    string : Text → Value
    array : Values → Value
    object : Members → Value

  pub data Values : Type 0 where
    no_values : Values
    value_and : Value → Values → Values

  pub data Members : Type 0 where
    no_members : Members
    member_and : Text → Value → Members → Members

pub record ToolRef : Type 0 where
  pub provider_id : ProviderId
  pub tool_id : ToolId

pub record ProviderResourceRef : Type 0 where
  pub provider_id : ProviderId
  pub resource_id : ProviderResourceId

pub data ToolAvailability : Type 0 where
  available : ToolAvailability
  stale : ToolAvailability
  unavailable : ToolAvailability
  quarantined : ToolAvailability

pub record ProviderResourceDescriptor : Type 0 where
  pub id : ProviderResourceId
  pub provider_id : ProviderId
  pub original_uri : Text
  pub name : Text
  pub mime_type : Option Text
  pub availability : ToolAvailability

pub data ProviderKind : Type 0 where
  built_in_kind : ProviderKind
  mcp_stdio : ProviderKind
  mcp_http : ProviderKind
  native_adapter_kind : ProviderKind
  unknown_kind : ProviderKind

pub data ProviderTrust : Type 0 where
  built_in_trust : ProviderTrust
  verified_trust : ProviderTrust
  user_configured_trust : ProviderTrust
  untrusted_trust : ProviderTrust

pub data ProviderTransportKind : Type 0 where
  in_process : ProviderTransportKind
  stdio : ProviderTransportKind
  streamable_http : ProviderTransportKind
  native_adapter_transport : ProviderTransportKind
  unknown_transport : ProviderTransportKind

pub data ProviderConnectionState : Type 0 where
  configured : ProviderConnectionState
  unavailable_state : ProviderConnectionState
  discovering : ProviderConnectionState
  connecting : ProviderConnectionState
  initializing : ProviderConnectionState
  connected : ProviderConnectionState
  degraded_state : ProviderConnectionState
  reconnecting : ProviderConnectionState
  disconnected : ProviderConnectionState
  failed_state : ProviderConnectionState
  disabled : ProviderConnectionState

pub data ProviderHealthStatus : Type 0 where
  healthy : ProviderHealthStatus
  degraded : ProviderHealthStatus
  unavailable_status : ProviderHealthStatus
  failed_status : ProviderHealthStatus

pub data AuthenticationState : Type 0 where
  not_required : AuthenticationState
  required : AuthenticationState
  authenticated : AuthenticationState
  failed_authentication : AuthenticationState
  unknown_authentication : AuthenticationState

-- The signed numbers, `i64` and `i32`.
pub data ℤ : Type 0 where
  pos : ℕ → ℤ
  negsuc : ℕ → ℤ

pub record ProviderHealth : Type 0 where
  pub status : ProviderHealthStatus
  pub reason : Text
  pub last_successful_operation_unix_ms : Option ℤ
  pub last_failure : Option Text
  pub rtt_micros : Option ℕ
  pub consecutive_failures : ℕ
  pub connected_at_unix_ms : Option ℤ
  pub catalog_revision : Option ContentHash
  pub tool_count : ℕ
  pub resource_count : ℕ
  pub authentication : AuthenticationState
  pub connection_state : ProviderConnectionState

pub record ProviderProtocolMetadata : Type 0 where
  pub family : Text
  pub revision : Text
  pub negotiation : Text
  pub session_model : Text
  pub cancellation_model : Text
  pub catalog_change_model : Text
  pub fallback_reason : Option Text

pub record ProviderMetadata : Type 0 where
  pub source : Text
  pub studio_environment_id : Option StudioEnvironmentId
  pub studio_session_id : Option LatticeId
  pub configured_priority : Option ℤ
  pub protocol : Option ProviderProtocolMetadata

pub record ProviderDescriptor : Type 0 where
  pub id : ProviderId
  pub kind : ProviderKind
  pub name : Text
  pub version : Option Text
  pub trust : ProviderTrust
  pub transport : ProviderTransportKind
  pub health : ProviderHealth
  pub metadata : ProviderMetadata

pub data SemanticTruth : Type 0 where
  known_true : SemanticTruth
  known_false : SemanticTruth
  unknown : SemanticTruth

pub record OperationSemantics : Type 0 where
  pub read_only : SemanticTruth
  pub mutating : SemanticTruth
  pub destructive : SemanticTruth
  pub idempotent : SemanticTruth
  pub open_world : SemanticTruth
  pub network_access : SemanticTruth
  pub filesystem_access : SemanticTruth
  pub code_execution : SemanticTruth
  pub credential_use : SemanticTruth
  pub transaction_support : SemanticTruth

pub record ReportedSemantics : Type 0 where
  pub read_only_hint : Option Bool
  pub destructive_hint : Option Bool
  pub idempotent_hint : Option Bool
  pub open_world_hint : Option Bool

pub data SchemaValidationState : Type 0 where
  valid : SchemaValidationState
  quarantined_schema : SchemaValidationState

pub record SchemaRecord : Type 0 where
  pub revision : SchemaRevision
  pub provider_schema : Value
  pub normalized_schema : Value
  pub validation : SchemaValidationState
  pub byte_len : ℕ

pub data CapabilityTarget : Type 0 where
  any_target : CapabilityTarget
  studio_session : LatticeId → CapabilityTarget
  studio_environment : StudioEnvironmentId → CapabilityTarget
  cloud_place : ℕ → ℕ → CapabilityTarget
  workspace_target : LatticeId → CapabilityTarget

pub record CapabilityBinding : Type 0 where
  pub capability : CapabilityId
  pub target : CapabilityTarget

pub data ToolTrust : Type 0 where
  built_in : ToolTrust
  verified : ToolTrust
  user_configured : ToolTrust
  untrusted : ToolTrust

pub record ToolDescriptor : Type 0 where
  pub id : ToolId
  pub provider_id : ProviderId
  pub native_name : Text
  pub title : Option Text
  pub provider_description : Option Text
  pub input_schema : SchemaRevision
  pub output_schema : Option SchemaRevision
  pub capabilities : List CapabilityBinding
  pub verified_semantics : OperationSemantics
  pub reported_semantics : ReportedSemantics
  pub trust : ToolTrust
  pub availability : ToolAvailability

pub record ImportedTool : Type 0 where
  pub native_name : Text
  pub title : Option Text
  pub provider_description : Option Text
  pub input_schema : Value
  pub output_schema : Option Value
  pub capabilities : List CapabilityBinding
  pub verified_semantics : OperationSemantics
  pub reported_semantics : ReportedSemantics
  pub trust : ToolTrust

pub record CatalogRefresh : Type 0 where
  pub provider_id : ProviderId
  pub catalog_revision : ContentHash
  pub added : List ToolId
  pub schema_changed : List ToolId
  pub removed : List ToolId
  pub unchanged : List ToolId

pub record CapabilityDefinition : Type 0 where
  pub id : CapabilityId
  pub meaning : Text
  pub input_contract : Text
  pub output_contract : Text
  pub side_effects : OperationSemantics

pub record RoutingRequest : Type 0 where
  pub capability : CapabilityId
  pub target : CapabilityTarget
  pub preferred_provider : Option ProviderId

pub data OperationState : Type 0 where
  queued : OperationState
  validating : OperationState
  waiting_for_policy : OperationState
  executing : OperationState
  succeeded : OperationState
  failed : OperationState
  cancelled : OperationState
  timed_out : OperationState

-- The error of `serde_json` stands as its text.
pub data ToolFabricError : Type 0 where
  provider_not_found : ProviderId → ToolFabricError
  provider_already_registered : ProviderId → ToolFabricError
  invalid_tool_ref : ToolFabricError
  invalid_resource_ref : ToolFabricError
  invalid_stable_id : ToolFabricError
  invalid_operation_id : ToolFabricError
  invalid_capability_id : Text → ToolFabricError
  capability_already_registered : CapabilityId → ToolFabricError
  capability_unavailable : CapabilityId → ToolFabricError
  ambiguous_capability : CapabilityId → List ToolRef → ToolFabricError
  schema_root_not_object : ToolFabricError
  schema_too_deep : ToolFabricError
  schema_too_large : ℕ → ToolFabricError
  json : Text → ToolFabricError
  duplicate_tool_name : Text → ToolFabricError
  invalid_tool_name : ToolFabricError
  input_schema_failed : Text → ToolFabricError
