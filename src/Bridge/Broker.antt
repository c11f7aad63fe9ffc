-- ===== src/Bridge/Broker.antt =====
-- The broker of the bridge (crates/lattice-studio-bridge/src/lib.rs): the sessions under their
-- identifiers, and the plugins' own names of them. Every operation runs under the broker's lock, so
-- an operation is a function of the state; `call` is two of them, before and after it waits.
pub mod Names
pub mod Expiry
pub mod Create
pub mod Register
pub mod Steps
use abraxius_lattice.Bridge.Types.{
  StudioBridgeSessionId, StudioBridgeCommandId, StudioBridgeCommandPayload,
  StudioBridgeCommandResult, StudioBridgeEvent, StudioBridgeReport, StudioBridgeReportResponse,
  StudioBridgeBackendState, default_backend, StudioBridgeLimits, StudioBridgeError,
  StudioBridgeBinding, StudioBridgeRegistration, StudioBridgeRegistrationResponse,
  StudioBridgeSessionSnapshot, unbound, stale_session, protocol_mismatch, invalid_registration,
  session_capacity_exceeded, session_not_found, report_limit_exceeded, command_timed_out,
  command_channel_closed, bridge_protocol_version,
}
use abraxius_lattice.Bridge.Pairing.{i64_max}
use abraxius_lattice.Bridge.Session.{
  SessionRecord, refresh_snapshot, report_session, enqueue_command, remove_command, bind_record,
  drain,
}
use abraxius_lattice.Base.Results.{Result, ok, err, and_then}
use abraxius_lattice.Base.Text.{Text, byte_len}
use abraxius_lattice.Base.Split.{is_empty}
use abraxius_lattice.Base.Maps.{text_key, get, insert, remove, update}
use abraxius_lattice.Base.{
  Bool, true, false, ◌&&◌, ◌||◌, List, [], ◌∷◌, Option, none, some, ℕ, ◌-◌, min, ltb, leb, ◌==◌,
  if◌then◌else◌, length, u64_max,
}

abbrev pub Sessions : Type 0
Sessions = List (StudioBridgeSessionId × SessionRecord)

pub record BrokerState : Type 0 where
  pub sessions : Sessions
  pub external_sessions : List (Text × StudioBridgeSessionId)
  pub backend : StudioBridgeBackendState

abbrev pub empty_broker : BrokerState
empty_broker = record { sessions = []; external_sessions = []; backend = default_backend }

-- `char::is_control`.
unfoldable pub is_control : ℕ → Bool
is_control c = ltb c 0x20 || (leb 0x7f c && leb c 0x9f)

unfoldable pub any_control : Text → Bool
unfolding is_control
any_control [] = false
any_control (c ∷ t) = is_control c || any_control t

unfoldable pub validate_protocol : ℕ → Result (Unit {0}) StudioBridgeError
validate_protocol version =
    if version == bridge_protocol_version
    then ok tt
    else err (protocol_mismatch bridge_protocol_version version)

unfoldable pub validate_small_identifier : Text → Result (Unit {0}) StudioBridgeError
validate_small_identifier value =
    if is_empty value || ltb 256 (byte_len value) || any_control value
    then err invalid_registration
    else ok tt

unfoldable pub ttl_of : StudioBridgeLimits → ℕ
ttl_of limits = min limits.session_ttl i64_max

-- The session was not seen for longer than the time to live.
unfoldable pub is_expired : ℕ → ℕ → SessionRecord → Bool
is_expired ttl now r = ltb ttl (now - r.snapshot.last_seen_unix_ms)

unfoldable pub expired_ids : ℕ → ℕ → Sessions → List StudioBridgeSessionId
expired_ids ttl now [] = []
expired_ids ttl now ((id, r) ∷ m) =
    let rest = expired_ids ttl now m in if is_expired ttl now r then id ∷ rest else rest

unfoldable pub remove_session : StudioBridgeSessionId → BrokerState → BrokerState
remove_session id s = elim (get id s.sessions) [
  | none ↦ s
  | some r ↦ record s {
    sessions = remove id s.sessions;
    external_sessions = remove r.snapshot.external_session_id s.external_sessions;
  }
]

unfoldable pub remove_sessions : List StudioBridgeSessionId → BrokerState → BrokerState
remove_sessions [] s = s
remove_sessions (id ∷ ids) s = remove_sessions ids (remove_session id s)

unfoldable pub expire_sessions : StudioBridgeLimits → ℕ → BrokerState → BrokerState
expire_sessions limits now s = remove_sessions (expired_ids (ttl_of limits) now s.sessions) s

unfoldable pub mark_stale : ℕ → ℕ → SessionRecord → SessionRecord
mark_stale ttl now r =
    if is_expired ttl now r
    then record r { snapshot = record (r.snapshot) { state = stale_session } }
    else r

unfoldable pub mark_stale_all : ℕ → ℕ → Sessions → Sessions
mark_stale_all ttl now [] = []
mark_stale_all ttl now ((id, r) ∷ m) = (id, mark_stale ttl now r) ∷ mark_stale_all ttl now m

unfoldable pub mark_stale_sessions : StudioBridgeLimits → ℕ → BrokerState → BrokerState
mark_stale_sessions limits now s = record s {
  sessions = mark_stale_all (ttl_of limits) now s.sessions;
}

unfoldable pub set_backend_state : StudioBridgeBackendState → BrokerState → BrokerState
set_backend_state backend s = record s { backend = backend }

unfoldable pub registration_response :
    StudioBridgeLimits
    → StudioBridgeSessionId
    → StudioBridgeBackendState
    → StudioBridgeRegistrationResponse
registration_response limits session_id backend = record {
  protocol_version = bridge_protocol_version;
  session_id = session_id;
  report_interval_ms = min limits.report_interval u64_max;
  max_events_per_report = limits.max_events_per_report;
  max_commands_per_report = limits.max_commands_per_report;
  backend = backend;
}

unfoldable pub new_record : StudioBridgeSessionId → StudioBridgeRegistration → ℕ → SessionRecord
new_record session_id r now = record {
  snapshot = record {
    id = session_id;
    external_session_id = r.external_session_id;
    plugin_version = r.plugin_version;
    data_model = r.data_model;
    place_id = r.place_id;
    universe_id = r.universe_id;
    is_running = r.is_running;
    state = unbound;
    binding = none;
    created_unix_ms = now;
    last_seen_unix_ms = now;
    last_report_sequence = none;
    queued_commands = 0;
    in_flight_commands = 0;
    retained_events = 0;
    dropped_events_total = 0;
  };
  queued_commands = [];
  in_flight_commands = [];
  responders = [];
  events = [];
  last_response = none;
}

-- A record that is written in place.
abbrev pub put_record : StudioBridgeSessionId → SessionRecord → BrokerState → BrokerState
put_record id r s = record s { sessions = update id r s.sessions }

unfoldable pub refresh_session :
    StudioBridgeLimits
    → StudioBridgeRegistration
    → ℕ
    → StudioBridgeSessionId
    → BrokerState
    → Result StudioBridgeRegistrationResponse StudioBridgeError × BrokerState
refresh_session limits registration now session_id s = elim (get session_id s.sessions) [
  | none ↦ (err (session_not_found session_id), s)
  | some r ↦ (
    ok (registration_response limits session_id s.backend),
    put_record session_id (record r { snapshot = refresh_snapshot registration now r.snapshot }) s,
  )
]

unfoldable pub create_session :
    StudioBridgeLimits
    → StudioBridgeRegistration
    → ℕ
    → StudioBridgeSessionId
    → BrokerState
    → Result StudioBridgeRegistrationResponse StudioBridgeError × BrokerState
create_session limits registration now fresh s =
    if leb limits.max_sessions (length s.sessions) then (err session_capacity_exceeded, s) else (
      ok (registration_response limits fresh s.backend),
      record s {
        external_sessions = insert registration.external_session_id fresh s.external_sessions;
        sessions = insert fresh (new_record fresh registration now) s.sessions;
      },
    )

-- Under the lock: a plugin that is known keeps its session, another one gets the identifier `fresh`.
unfoldable pub register_valid :
    StudioBridgeLimits
    → StudioBridgeRegistration
    → ℕ
    → StudioBridgeSessionId
    → BrokerState
    → Result StudioBridgeRegistrationResponse StudioBridgeError × BrokerState
register_valid limits registration now fresh s =
    elim (get registration.external_session_id s.external_sessions) [
      | none ↦ create_session limits registration now fresh s
      | some session_id ↦ refresh_session limits registration now session_id s
    ]

unfoldable pub validate_registration :
    StudioBridgeRegistration → Result (Unit {0}) StudioBridgeError
validate_registration r = and_then (validate_protocol r.protocol_version) (λ _.
    and_then (validate_small_identifier r.external_session_id)
      (λ _. validate_small_identifier r.plugin_version))

unfoldable pub register :
    StudioBridgeLimits
    → StudioBridgeRegistration
    → ℕ
    → StudioBridgeSessionId
    → BrokerState
    → Result StudioBridgeRegistrationResponse StudioBridgeError × BrokerState
register limits registration now fresh s = elim (validate_registration registration) [
  | err e ↦ (err e, s)
  | ok _ ↦ register_valid limits registration now fresh (expire_sessions limits now s)
]

unfoldable pub bind_session :
    StudioBridgeSessionId
    → StudioBridgeBinding
    → BrokerState
    → Result (Unit {0}) StudioBridgeError × BrokerState
bind_session session_id binding s = elim (get session_id s.sessions) [
  | none ↦ (err (session_not_found session_id), s)
  | some r ↦ let (result, r') = bind_record binding r in (result, put_record session_id r' s)
]

unfoldable pub validate_report :
    StudioBridgeLimits → StudioBridgeReport → Result (Unit {0}) StudioBridgeError
validate_report limits r = and_then (validate_protocol r.protocol_version) (λ _.
    if ltb limits.max_events_per_report (length r.events)
      || ltb limits.max_command_results_per_report (length r.command_results)
    then err report_limit_exceeded
    else ok tt)

-- The results that are sent to the calls that wait for them come last.
unfoldable pub report :
    StudioBridgeLimits
    → ℕ
    → StudioBridgeReport
    → BrokerState
    → Result StudioBridgeReportResponse StudioBridgeError
      × BrokerState
      × List StudioBridgeCommandResult
report limits now r s = elim (validate_report limits r) [
  | err e ↦ (err e, s, [])
  | ok _ ↦ elim (get r.session_id s.sessions) [
    | none ↦ (err (session_not_found r.session_id), s, [])
    | some session ↦
        let (result, session', sent) = report_session limits s.backend now r session in
        (result, put_record r.session_id session' s, sent)
  ]
]

-- `call` until it waits.
unfoldable pub begin_call :
    StudioBridgeLimits
    → StudioBridgeSessionId
    → StudioBridgeCommandId
    → StudioBridgeCommandPayload
    → BrokerState
    → Result (Unit {0}) StudioBridgeError × BrokerState
begin_call limits session_id id payload s = elim (get session_id s.sessions) [
  | none ↦ (err (session_not_found session_id), s)
  | some r ↦
      let (result, r') = enqueue_command limits session_id id payload r in
      (result, put_record session_id r' s)
]

-- What the waiting ends with: a result in the channel, its end, or the time.
pub data CallOutcome : Type 0 where
  answered : StudioBridgeCommandResult → CallOutcome
  closed : CallOutcome
  elapsed : CallOutcome

unfoldable pub remove_call :
    StudioBridgeSessionId → StudioBridgeCommandId → BrokerState → BrokerState
remove_call session_id id s = elim (get session_id s.sessions) [
  | none ↦ s
  | some r ↦ put_record session_id (remove_command id r) s
]

-- `call` after it has waited.
unfoldable pub end_call :
    StudioBridgeSessionId
    → StudioBridgeCommandId
    → CallOutcome
    → BrokerState
    → Result StudioBridgeCommandResult StudioBridgeError × BrokerState
end_call session_id id (answered result) s = (ok result, s)
end_call session_id id closed s = (err (command_channel_closed id), remove_call session_id id s)
end_call session_id id elapsed s = (err (command_timed_out id), remove_call session_id id s)

unfoldable pub snapshots : Sessions → List StudioBridgeSessionSnapshot
snapshots [] = []
snapshots ((id, r) ∷ m) = r.snapshot ∷ snapshots m

unfoldable pub insert_by_created :
    StudioBridgeSessionSnapshot
    → List StudioBridgeSessionSnapshot
    → List StudioBridgeSessionSnapshot
insert_by_created s [] = s ∷ []
insert_by_created s (t ∷ ts) =
    let rest = insert_by_created s ts in
    if leb s.created_unix_ms t.created_unix_ms then s ∷ t ∷ ts else t ∷ rest

-- The stable `sort_by_key`.
unfoldable pub sort_by_created : List StudioBridgeSessionSnapshot → List StudioBridgeSessionSnapshot
unfolding insert_by_created
sort_by_created [] = []
sort_by_created (s ∷ ss) = insert_by_created s (sort_by_created ss)

unfoldable pub list_sessions :
    StudioBridgeLimits → ℕ → BrokerState → List StudioBridgeSessionSnapshot × BrokerState
list_sessions limits now s =
    let s' = mark_stale_sessions limits now s in (sort_by_created (snapshots s'.sessions), s')

unfoldable pub drain_events :
    StudioBridgeSessionId
    → ℕ
    → BrokerState
    → Result (List StudioBridgeEvent) StudioBridgeError × BrokerState
drain_events session_id limit s = elim (get session_id s.sessions) [
  | none ↦ (err (session_not_found session_id), s)
  | some r ↦ let (events, r') = drain limit r in (ok events, put_record session_id r' s)
]
