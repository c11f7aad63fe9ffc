-- ===== src/Bridge/Types.antt =====
-- The messages of the Studio bridge and its limits (crates/lattice-studio-bridge/src/lib.rs), with
-- the platform names that they carry (crates/lattice-platform/src/model.rs). An identifier stands as
-- its bytes. The clock never gives a time before the epoch, so the `i64` milliseconds are natural.
use abraxius_lattice.Base.Text.{Text, codes}
use abraxius_lattice.Base.{Bool, List, [], Option, none, some, ℕ}
use abraxius_lattice.Tools.Types.{LatticeId, StudioEnvironmentId, Value}

abbrev pub StudioBridgeSessionId : Type 0
StudioBridgeSessionId = LatticeId

abbrev pub StudioBridgeCommandId : Type 0
StudioBridgeCommandId = LatticeId

abbrev pub bridge_protocol_version : ℕ
bridge_protocol_version = 1

pub data HostPlatform : Type 0 where
  windows : HostPlatform
  linux : HostPlatform
  mac_os : HostPlatform
  unknown_platform : HostPlatform

pub data StudioRuntime : Type 0 where
  roblox_native : StudioRuntime
  vinegar_native : StudioRuntime
  vinegar_flatpak : StudioRuntime
  unknown_runtime : StudioRuntime

pub data StudioDataModel : Type 0 where
  edit_model : StudioDataModel
  play_model : StudioDataModel
  client_model : StudioDataModel
  server_model : StudioDataModel
  unknown_model : StudioDataModel

pub data StudioBridgeSessionState : Type 0 where
  unbound : StudioBridgeSessionState
  bound : StudioBridgeSessionState
  stale_session : StudioBridgeSessionState

pub record StudioBridgeServiceHealth : Type 0 where
  pub state : Text
  pub detail : Option Text
  pub latency_ms : Option ℕ

pub record StudioBridgeRecorderState : Type 0 where
  pub state : Text
  pub mode : Option Text
  pub elapsed_ms : Option ℕ
  pub events : Option ℕ
  pub anomalies : Option ℕ

pub record StudioBridgeClientSummary : Type 0 where
  pub name : Text
  pub authority : Option Text

pub record StudioBridgeEnvironmentSummary : Type 0 where
  pub host_platform : HostPlatform
  pub runtime : StudioRuntime
  pub environment_id : StudioEnvironmentId
  pub process_id : Option ℕ
  pub deployment : Option Text

pub record StudioBridgeBackendState : Type 0 where
  pub provider : Text
  pub environment : Option StudioBridgeEnvironmentSummary
  pub place_name : Option Text
  pub mcp : StudioBridgeServiceHealth
  pub index_state : Option Text
  pub recorder : StudioBridgeRecorderState
  pub connected_clients : List StudioBridgeClientSummary
  pub capabilities : List Text
  pub authorization : List Text
  pub errors : List Text

-- `StudioBridgeBackendState::default`.
unfoldable pub default_backend : StudioBridgeBackendState
default_backend = record {
  provider = codes "Lattice Studio Bridge";
  environment = none;
  place_name = none;
  mcp = record {
    state = codes "unavailable";
    detail = some (codes "Studio MCP state has not been bound to the companion");
    latency_ms = none;
  };
  index_state = none;
  recorder = record {
    state = codes "unavailable";
    mode = none;
    elapsed_ms = none;
    events = none;
    anomalies = none;
  };
  connected_clients = [];
  capabilities = [];
  authorization = [];
  errors = [];
}

pub record StudioBridgeRegistration : Type 0 where
  pub protocol_version : ℕ
  pub external_session_id : Text
  pub plugin_version : Text
  pub data_model : StudioDataModel
  pub place_id : Option ℕ
  pub universe_id : Option ℕ
  pub is_running : Bool

pub record StudioBridgeRegistrationResponse : Type 0 where
  pub protocol_version : ℕ
  pub session_id : StudioBridgeSessionId
  pub report_interval_ms : ℕ
  pub max_events_per_report : ℕ
  pub max_commands_per_report : ℕ
  pub backend : StudioBridgeBackendState

-- The floats of the metrics stand as their bits.
pub data StudioBridgeEventPayload : Type 0 where
  heartbeat : StudioBridgeEventPayload
  mode_changed : StudioDataModel → Bool → StudioBridgeEventPayload
  console :
      StudioDataModel
      → Text
      → Text
      → Option Text
      → Option Text
      → Option ℕ
      → StudioBridgeEventPayload
  selection_changed : List Text → StudioBridgeEventPayload
  active_script_changed : Option Text → StudioBridgeEventPayload
  script_changed : Text → Option Text → StudioBridgeEventPayload
  instance_delta : Text → Text → Option Text → Option Text → StudioBridgeEventPayload
  change_history : Text → Option Text → StudioBridgeEventPayload
  metrics : Option ℕ → Option ℕ → Option ℕ → Option ℕ → StudioBridgeEventPayload
  extension : Text → Value → StudioBridgeEventPayload

pub record StudioBridgeEvent : Type 0 where
  pub event_id : Text
  pub sequence : ℕ
  pub observed_unix_ms : ℕ
  pub payload : StudioBridgeEventPayload

pub data StudioBridgeCommandPayload : Type 0 where
  get_studio_state : StudioBridgeCommandPayload
  get_selection : StudioBridgeCommandPayload
  read_source : List Text → StudioBridgeCommandPayload
  get_children : List Text → StudioBridgeCommandPayload
  subscribe : List Text → StudioBridgeCommandPayload

pub record StudioBridgeCommand : Type 0 where
  pub id : StudioBridgeCommandId
  pub payload : StudioBridgeCommandPayload

pub record StudioBridgeCommandResult : Type 0 where
  pub command_id : StudioBridgeCommandId
  pub succeeded : Bool
  pub value : Option Value
  pub error_code : Option Text
  pub error_message : Option Text

pub record StudioBridgeReport : Type 0 where
  pub protocol_version : ℕ
  pub session_id : StudioBridgeSessionId
  pub report_sequence : ℕ
  pub data_model : StudioDataModel
  pub place_id : Option ℕ
  pub universe_id : Option ℕ
  pub is_running : Bool
  pub events : List StudioBridgeEvent
  pub command_results : List StudioBridgeCommandResult

pub record StudioBridgeReportResponse : Type 0 where
  pub accepted_sequence : ℕ
  pub commands : List StudioBridgeCommand
  pub dropped_events_total : ℕ
  pub backend : StudioBridgeBackendState

pub record StudioBridgeBinding : Type 0 where
  pub studio_session_id : LatticeId
  pub environment_id : StudioEnvironmentId
  pub process_id : ℕ

pub record StudioBridgeSessionSnapshot : Type 0 where
  pub id : StudioBridgeSessionId
  pub external_session_id : Text
  pub plugin_version : Text
  pub data_model : StudioDataModel
  pub place_id : Option ℕ
  pub universe_id : Option ℕ
  pub is_running : Bool
  pub state : StudioBridgeSessionState
  pub binding : Option StudioBridgeBinding
  pub created_unix_ms : ℕ
  pub last_seen_unix_ms : ℕ
  pub last_report_sequence : Option ℕ
  pub queued_commands : ℕ
  pub in_flight_commands : ℕ
  pub retained_events : ℕ
  pub dropped_events_total : ℕ

-- The durations of `StudioBridgeLimits` in milliseconds.
pub record StudioBridgeLimits : Type 0 where
  pub max_sessions : ℕ
  pub max_pending_commands_per_session : ℕ
  pub max_events_per_session : ℕ
  pub max_events_per_report : ℕ
  pub max_command_results_per_report : ℕ
  pub max_commands_per_report : ℕ
  pub max_body_bytes : ℕ
  pub report_interval : ℕ
  pub command_timeout : ℕ
  pub session_ttl : ℕ

unfoldable pub default_limits : StudioBridgeLimits
default_limits = record {
  max_sessions = 32;
  max_pending_commands_per_session = 128;
  max_events_per_session = 4096;
  max_events_per_report = 512;
  max_command_results_per_report = 128;
  max_commands_per_report = 32;
  max_body_bytes = 1048576;
  report_interval = 500;
  command_timeout = 15000;
  session_ttl = 60000;
}

-- The errors of input and output stand without the system's error.
pub data StudioBridgeError : Type 0 where
  invalid_authentication_configuration : StudioBridgeError
  protocol_mismatch : ℕ → ℕ → StudioBridgeError
  invalid_registration : StudioBridgeError
  session_capacity_exceeded : StudioBridgeError
  session_not_found : StudioBridgeSessionId → StudioBridgeError
  session_unbound : StudioBridgeSessionId → StudioBridgeError
  binding_conflict : StudioBridgeError
  report_limit_exceeded : StudioBridgeError
  out_of_order_report : ℕ → ℕ → StudioBridgeError
  duplicate_report_unavailable : StudioBridgeError
  command_capacity_exceeded : StudioBridgeSessionId → StudioBridgeError
  command_timed_out : StudioBridgeCommandId → StudioBridgeError
  command_channel_closed : StudioBridgeCommandId → StudioBridgeError
  non_loopback_bind : StudioBridgeError
  bind_failed : StudioBridgeError
  serve_failed : StudioBridgeError
