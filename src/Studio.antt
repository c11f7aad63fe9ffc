-- ===== src/Studio.antt =====
-- The sessions of Roblox Studio and their connections (crates/lattice-studio/src/lib.rs). An
-- identifier stands as its bytes, and times of the clock are natural. A set of capabilities is a list.
pub mod Target
pub mod Binding
use abraxius_lattice.Tools.Types.{LatticeId, StudioEnvironmentId, Value}
use abraxius_lattice.Base.Results.{Result, ok, err, ok_or}
use abraxius_lattice.Base.Text.{Text, text_eq}
use abraxius_lattice.Base.{
  Bool, true, false, not, ◌&&◌, ◌||◌, List, [], ◌∷◌, Option, none, some, ℕ, ◌==◌, if◌then◌else◌,
}

pub data RobloxCapability : Type 0 where
  read_source_capability : RobloxCapability
  write_source : RobloxCapability
  inspect_data_model : RobloxCapability
  execute_luau : RobloxCapability
  playtest : RobloxCapability
  capture_viewport : RobloxCapability
  read_runtime_logs : RobloxCapability
  insert_asset : RobloxCapability
  publish : RobloxCapability

pub data StudioState : Type 0 where
  edit_state : StudioState
  client_state : StudioState
  server_state : StudioState
  unknown_state : StudioState

pub data StudioMcpConnectionState : Type 0 where
  mcp_unavailable : StudioMcpConnectionState
  mcp_discovering : StudioMcpConnectionState
  mcp_available : StudioMcpConnectionState
  mcp_connecting : StudioMcpConnectionState
  mcp_initializing : StudioMcpConnectionState
  mcp_connected : StudioMcpConnectionState
  mcp_degraded : StudioMcpConnectionState
  mcp_reconnecting : StudioMcpConnectionState
  mcp_disconnected : StudioMcpConnectionState
  mcp_failed : StudioMcpConnectionState

unfoldable pub permits_requests : StudioMcpConnectionState → Bool
permits_requests state = elim state [ mcp_connected ↦ true | mcp_degraded ↦ true | _ ↦ false ]

pub data StudioMcpTransportKind : Type 0 where
  stdio_transport : StudioMcpTransportKind
  streamable_http : StudioMcpTransportKind
  unix_socket_transport : StudioMcpTransportKind
  named_pipe_transport : StudioMcpTransportKind
  other_transport : StudioMcpTransportKind

pub record StudioMcpToolDescriptor : Type 0 where
  pub name : Text
  pub description : Option Text
  pub input_schema : Value
  pub read_only_hint : Option Bool
  pub destructive_hint : Option Bool

pub record StudioMcpConnectionSnapshot : Type 0 where
  pub id : LatticeId
  pub studio_session_id : LatticeId
  pub environment_id : StudioEnvironmentId
  pub process_id : ℕ
  pub state : StudioMcpConnectionState
  pub transport : StudioMcpTransportKind
  pub endpoint_identity : Text
  pub protocol_version : Text
  pub protocol_negotiation : Text
  pub protocol_session_model : Text
  pub protocol_fallback_reason : Option Text
  pub server_name : Text
  pub server_version : Text
  pub capabilities : List Text
  pub tools : List StudioMcpToolDescriptor
  pub tool_catalog_revision : Text
  pub connected_at_unix_ms : ℕ
  pub last_successful_request_unix_ms : Option ℕ
  pub last_rtt_micros : Option ℕ
  pub failure_count : ℕ
  pub last_error : Option Text

pub record StudioSession : Type 0 where
  pub id : LatticeId
  pub external_id : Text
  pub place_label : Option Text
  pub state : StudioState
  pub environment_id : Option StudioEnvironmentId
  pub process_id : Option ℕ
  pub capabilities : List RobloxCapability
  pub connected : Bool
  pub mcp_connection : Option StudioMcpConnectionSnapshot
  pub last_heartbeat_unix_ms : Option ℕ

-- `StudioManager`: its field `sessions`.
abbrev pub StudioManager : Type 0
StudioManager = List StudioSession

pub data StudioError : Type 0 where
  not_connected : StudioError
  ambiguous_session : StudioError
  studio_session_not_found : LatticeId → StudioError
  studio_capability_unavailable : RobloxCapability → StudioError
  connection_binding_mismatch : StudioError
  connection_not_ready : StudioMcpConnectionState → StudioError

unfoldable pub replace_sessions : List StudioSession → StudioManager → StudioManager
replace_sessions sessions manager = sessions

-- What a method does to the first session with the identifier.
unfoldable pub at_session :
    LatticeId
    → (StudioSession → Result (Unit {0}) StudioError × StudioSession)
    → StudioManager
    → Result (Unit {0}) StudioError × StudioManager
at_session id change [] = (err (studio_session_not_found id), [])
at_session id change (s ∷ ss) =
    let (result, rest) = at_session id change ss in
    let (done, s') = change s in if text_eq s.id id then (done, s' ∷ ss) else (result, s ∷ rest)

unfoldable pub associate_environment :
    LatticeId
    → StudioEnvironmentId
    → Option ℕ
    → StudioManager
    → Result (Unit {0}) StudioError × StudioManager
associate_environment session_id environment_id process_id manager =
    at_session session_id
      (λ s. (ok tt, record s { environment_id = some environment_id; process_id = process_id }))
      manager

unfoldable pub is_some_text : Text → Option Text → Bool
is_some_text t none = false
is_some_text t (some u) = text_eq u t

unfoldable pub is_some_nat : ℕ → Option ℕ → Bool
is_some_nat n none = false
is_some_nat n (some m) = m == n

-- The checks of a binding on the session that was found.
unfoldable pub bind_session_connection :
    StudioMcpConnectionSnapshot → StudioSession → Result (Unit {0}) StudioError × StudioSession
bind_session_connection snapshot s =
    if not (is_some_text snapshot.environment_id s.environment_id)
      || not (is_some_nat snapshot.process_id s.process_id)
    then (err connection_binding_mismatch, s)
    else if not (permits_requests snapshot.state)
    then (err (connection_not_ready snapshot.state), s)
    else (ok tt, record s { mcp_connection = some snapshot })

unfoldable pub bind_mcp_connection :
    StudioMcpConnectionSnapshot → StudioManager → Result (Unit {0}) StudioError × StudioManager
bind_mcp_connection snapshot manager =
    at_session snapshot.studio_session_id (bind_session_connection snapshot) manager

unfoldable pub accepts_requests : Option StudioMcpConnectionSnapshot → Bool
accepts_requests none = false
accepts_requests (some connection) = permits_requests connection.state

unfoldable pub is_live : StudioSession → Bool
is_live s = s.connected && accepts_requests s.mcp_connection

unfoldable pub live_sessions : StudioManager → List StudioSession
live_sessions [] = []
live_sessions (s ∷ ss) = let rest = live_sessions ss in if is_live s then s ∷ rest else rest

unfoldable pub find_live : LatticeId → StudioManager → Option StudioSession
find_live id [] = none
find_live id (s ∷ ss) =
    let rest = find_live id ss in if text_eq s.id id && is_live s then some s else rest

unfoldable pub the_only : List StudioSession → Result StudioSession StudioError
the_only [] = err not_connected
the_only (s ∷ []) = ok s
the_only (s ∷ t ∷ ss) = err ambiguous_session

unfoldable pub explicit_target : Option LatticeId → StudioManager → Result StudioSession StudioError
explicit_target (some requested) manager =
    ok_or (find_live requested manager) (studio_session_not_found requested)
explicit_target none manager = the_only (live_sessions manager)
