-- ===== src/Bridge/Session.antt =====
-- One session of the bridge (crates/lattice-studio-bridge/src/lib.rs): what a report, a call and its
-- end do to its record. A channel of a call stands as an entry of `responders`; a result that is
-- sent into one is listed.
pub mod Invariant
pub mod Repeat
pub mod Buffer
pub mod Leases
pub mod Withdraw
use abraxius_lattice.Bridge.Types.{
  StudioBridgeSessionSnapshot, StudioBridgeSessionState, unbound, bound, stale_session,
  StudioBridgeBinding, StudioBridgeCommand, StudioBridgeCommandId, StudioBridgeCommandPayload,
  StudioBridgeCommandResult, StudioBridgeEvent, StudioBridgeReport, StudioBridgeReportResponse,
  StudioBridgeBackendState, StudioBridgeLimits, StudioBridgeError, out_of_order_report,
  duplicate_report_unavailable, session_unbound, command_capacity_exceeded, binding_conflict,
  StudioBridgeRegistration, StudioBridgeSessionId,
}
use abraxius_lattice.Base.Results.{Result, ok, err, ok_or}
use abraxius_lattice.Base.Text.{Text, text_eq}
use abraxius_lattice.Base.Maps.{text_key, get, insert, remove, values, contains_key}
use abraxius_lattice.Base.{
  Bool, true, false, not, ◌&&◌, List, [], ◌∷◌, ◌++◌, Option, none, some, ℕ, zero, suc, ◌+◌, ◌-◌,
  min, ltb, leb, ◌==◌, if◌then◌else◌, length, take, drop, saturating_add,
}

pub record SessionRecord : Type 0 where
  pub snapshot : StudioBridgeSessionSnapshot
  pub queued_commands : List StudioBridgeCommand
  pub in_flight_commands : List (StudioBridgeCommandId × StudioBridgeCommand)
  pub responders : List (StudioBridgeCommandId × Unit {0})
  pub events : List StudioBridgeEvent
  pub last_response : Option StudioBridgeReportResponse

unfoldable pub state_of_binding : Option StudioBridgeBinding → StudioBridgeSessionState
state_of_binding none = unbound
state_of_binding (some _) = bound

-- What a registration that is repeated refreshes.
unfoldable pub refresh_snapshot :
    StudioBridgeRegistration → ℕ → StudioBridgeSessionSnapshot → StudioBridgeSessionSnapshot
refresh_snapshot r now s = record s {
  plugin_version = r.plugin_version;
  data_model = r.data_model;
  place_id = r.place_id;
  universe_id = r.universe_id;
  is_running = r.is_running;
  last_seen_unix_ms = now;
  state = state_of_binding s.binding;
}

unfoldable pub reported_snapshot :
    StudioBridgeReport → ℕ → StudioBridgeSessionSnapshot → StudioBridgeSessionSnapshot
reported_snapshot r now s = record s {
  data_model = r.data_model;
  place_id = r.place_id;
  universe_id = r.universe_id;
  is_running = r.is_running;
  last_seen_unix_ms = now;
  last_report_sequence = some r.report_sequence;
  state = state_of_binding s.binding;
}

-- The loop over the results: what is left in flight, the responders that are left, and the results
-- that were sent.
abbrev pub Answered : Type 0
Answered =
    List (StudioBridgeCommandId × StudioBridgeCommand)
    × List (StudioBridgeCommandId × Unit {0})
    × List StudioBridgeCommandResult

unfoldable pub answer_all :
    List StudioBridgeCommandResult
    → List (StudioBridgeCommandId × StudioBridgeCommand)
    → List (StudioBridgeCommandId × Unit {0})
    → Answered
answer_all [] in_flight responders = (in_flight, responders, [])
answer_all (r ∷ rs) in_flight responders =
    let (left, waiting, sent) =
      answer_all rs (remove r.command_id in_flight) (remove r.command_id responders) in
    (left, waiting, if contains_key r.command_id responders then r ∷ sent else sent)

-- The loop over the events, with the number of those that were dropped.
unfoldable pub push_event :
    ℕ → StudioBridgeEvent → List StudioBridgeEvent × ℕ → List StudioBridgeEvent × ℕ
push_event limit e (events, dropped) =
    if limit == 0
    then (events, saturating_add dropped 1)
    else if leb limit (length events)
    then (drop 1 events ++ (e ∷ []), saturating_add dropped 1)
    else (events ++ (e ∷ []), dropped)

unfoldable pub push_events :
    ℕ → List StudioBridgeEvent → List StudioBridgeEvent × ℕ → List StudioBridgeEvent × ℕ
push_events limit [] s = s
push_events limit (e ∷ es) s = push_events limit es (push_event limit e s)

-- The loop that leases commands: at most `n` of the queue go into flight.
unfoldable pub dispatch :
    ℕ
    → List StudioBridgeCommand
    → List (StudioBridgeCommandId × StudioBridgeCommand)
    → List StudioBridgeCommand × List (StudioBridgeCommandId × StudioBridgeCommand)
dispatch zero queue in_flight = (queue, in_flight)
dispatch (suc n) [] in_flight = ([], in_flight)
dispatch (suc n) (c ∷ queue) in_flight = dispatch n queue (insert c.id c in_flight)

-- From the update of the snapshot on: the response, the record and the results that were sent.
unfoldable pub accept_report :
    StudioBridgeLimits
    → StudioBridgeBackendState
    → ℕ
    → StudioBridgeReport
    → SessionRecord
    → StudioBridgeReportResponse × SessionRecord × List StudioBridgeCommandResult
accept_report limits backend now report r =
    let (left, waiting, sent) =
      answer_all report.command_results r.in_flight_commands r.responders in
    let (events, dropped) =
      push_events limits.max_events_per_session report.events
        (r.events, r.snapshot.dropped_events_total) in
    let (queue, leased) =
      dispatch (limits.max_commands_per_report - length left) r.queued_commands left in
    let response : StudioBridgeReportResponse = record {
      accepted_sequence = report.report_sequence;
      commands = take limits.max_commands_per_report (values leased);
      dropped_events_total = dropped;
      backend = backend;
    } in
    (
      response,
      record {
        snapshot = record (reported_snapshot report now r.snapshot) {
          queued_commands = length queue;
          in_flight_commands = length leased;
          retained_events = length events;
          dropped_events_total = dropped;
        };
        queued_commands = queue;
        in_flight_commands = leased;
        responders = waiting;
        events = events;
        last_response = some response;
      },
      sent,
    )

-- An older report is refused, a repeated one is answered with the last response, and a new one is
-- accepted.
unfoldable pub answer_report :
    Option ℕ
    → ℕ
    → SessionRecord
    → StudioBridgeReportResponse × SessionRecord × List StudioBridgeCommandResult
    → Result StudioBridgeReportResponse StudioBridgeError
      × SessionRecord
      × List StudioBridgeCommandResult
answer_report none sequence r (response, r', sent) = (ok response, r', sent)
answer_report (some previous) sequence r (response, r', sent) =
    if ltb sequence previous
    then (err (out_of_order_report previous sequence), r, [])
    else if sequence == previous
    then (ok_or r.last_response duplicate_report_unavailable, r, [])
    else (ok response, r', sent)

-- The part of `report` that looks at one session.
unfoldable pub report_session :
    StudioBridgeLimits
    → StudioBridgeBackendState
    → ℕ
    → StudioBridgeReport
    → SessionRecord
    → Result StudioBridgeReportResponse StudioBridgeError
      × SessionRecord
      × List StudioBridgeCommandResult
report_session limits backend now report r =
    answer_report r.snapshot.last_report_sequence report.report_sequence r
      (accept_report limits backend now report r)

-- The guards of `call`: the session is bound, and has room for another command.
unfoldable pub queue_if_bound :
    Option StudioBridgeBinding
    → StudioBridgeLimits
    → StudioBridgeSessionId
    → SessionRecord
    → SessionRecord
    → Result (Unit {0}) StudioBridgeError × SessionRecord
queue_if_bound none limits session_id r queued = (err (session_unbound session_id), r)
queue_if_bound (some _) limits session_id r queued =
    if leb limits.max_pending_commands_per_session
      (length r.queued_commands + length r.in_flight_commands)
    then (err (command_capacity_exceeded session_id), r)
    else (ok tt, queued)

unfoldable pub queued_record : StudioBridgeCommand → SessionRecord → SessionRecord
queued_record command r = record r {
  queued_commands = r.queued_commands ++ (command ∷ []);
  responders = insert command.id tt r.responders;
  snapshot = record (r.snapshot) { queued_commands = length (r.queued_commands ++ (command ∷ [])) };
}

-- The first half of `call`, under the lock: the command is queued and its channel opened.
unfoldable pub enqueue_command :
    StudioBridgeLimits
    → StudioBridgeSessionId
    → StudioBridgeCommandId
    → StudioBridgeCommandPayload
    → SessionRecord
    → Result (Unit {0}) StudioBridgeError × SessionRecord
enqueue_command limits session_id id payload r =
    queue_if_bound r.snapshot.binding limits session_id r
      (queued_record (record { id = id; payload = payload }) r)

-- `retain(|command| command.id != command_id)`.
unfoldable pub retain_other :
    StudioBridgeCommandId → List StudioBridgeCommand → List StudioBridgeCommand
retain_other id [] = []
retain_other id (c ∷ cs) =
    let rest = retain_other id cs in if text_eq c.id id then rest else c ∷ rest

unfoldable pub remove_command : StudioBridgeCommandId → SessionRecord → SessionRecord
remove_command id r = record r {
  queued_commands = retain_other id r.queued_commands;
  in_flight_commands = remove id r.in_flight_commands;
  responders = remove id r.responders;
  snapshot = record (r.snapshot) {
    queued_commands = length (retain_other id r.queued_commands);
    in_flight_commands = length (remove id r.in_flight_commands);
  };
}

unfoldable pub binding_eq : StudioBridgeBinding → StudioBridgeBinding → Bool
binding_eq a b =
    text_eq a.studio_session_id b.studio_session_id
    && text_eq a.environment_id b.environment_id
    && a.process_id == b.process_id

unfoldable pub bind_if_free :
    Option StudioBridgeBinding
    → StudioBridgeBinding
    → SessionRecord
    → SessionRecord
    → Result (Unit {0}) StudioBridgeError × SessionRecord
bind_if_free none binding r bound_record = (ok tt, bound_record)
bind_if_free (some existing) binding r bound_record =
    if not (binding_eq existing binding) then (err binding_conflict, r) else (ok tt, bound_record)

unfoldable pub bind_record :
    StudioBridgeBinding → SessionRecord → Result (Unit {0}) StudioBridgeError × SessionRecord
bind_record binding r =
    bind_if_free r.snapshot.binding binding r
      (record r { snapshot = record (r.snapshot) { binding = some binding; state = bound } })

unfoldable pub drain : ℕ → SessionRecord → List StudioBridgeEvent × SessionRecord
drain limit r =
    let count = min limit (length r.events) in
    (
      take count r.events,
      record r {
        events = drop count r.events;
        snapshot = record (r.snapshot) { retained_events = length (drop count r.events) };
      },
    )
