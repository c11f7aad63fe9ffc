-- ===== src/Bridge/Session/Invariant.antt =====
-- What holds of a session between two operations (crates/lattice-studio-bridge/src/lib.rs).
use abraxius_lattice.Bridge.Types.{
  StudioBridgeBinding, StudioBridgeSessionId, StudioBridgeCommand, StudioBridgeCommandId,
  StudioBridgeCommandPayload, StudioBridgeCommandResult, StudioBridgeEvent, StudioBridgeReport,
  StudioBridgeReportResponse, StudioBridgeBackendState, StudioBridgeLimits, StudioBridgeError,
  StudioBridgeRegistration,
}
use abraxius_lattice.Bridge.Session.{
  SessionRecord, refresh_snapshot, reported_snapshot, answer_all, push_event, push_events, dispatch,
  accept_report, answer_report, report_session, enqueue_command, retain_other, remove_command,
  bind_record, drain, queue_if_bound, queued_record, bind_if_free, binding_eq,
}
use abraxius_lattice.Base.Results.{Result}
use abraxius_lattice.Base.Maps.{text_key, insert, remove, length-insert_le, length-remove_le}
use abraxius_lattice.Base.{
  List, [], ◌∷◌, Option, none, some, ℕ, zero, suc, ◌+◌, ◌-◌, ◌≤◌, ◌≡◌, ◌≢◌, min, ltb, leb, ◌==◌,
  length, drop, length-append, length-drop, arith, refl, if-both, if-split, not, ◌<◌,
}

-- The counters of the snapshot are the lengths, the buffers are within the limits, and a session
-- that has accepted a report has a response to repeat.
pub record IsSession (limits : StudioBridgeLimits) (r : SessionRecord) : Type 0 where
  pub queued_counted : r.snapshot.queued_commands ≡ length r.queued_commands
  pub leased_counted : r.snapshot.in_flight_commands ≡ length r.in_flight_commands
  pub events_counted : r.snapshot.retained_events ≡ length r.events
  pub pending_bounded :
      length r.queued_commands + length r.in_flight_commands
      ≤ limits.max_pending_commands_per_session
  pub leased_bounded : length r.in_flight_commands ≤ limits.max_commands_per_report
  pub events_bounded : length r.events ≤ limits.max_events_per_session
  pub answerable : r.snapshot.last_report_sequence ≢ none → r.last_response ≢ none

pub length-answer_all :
    (rs : List StudioBridgeCommandResult) (f : List (StudioBridgeCommandId × StudioBridgeCommand))
    (w : List (StudioBridgeCommandId × Unit {0}))
    → length (answer_all rs f w).0 ≤ length f
unfolding answer_all
length-answer_all [] f w = omega arith
length-answer_all (r ∷ rs) f w = omega (
  arith,
  length-answer_all rs (remove r.command_id f) (remove r.command_id w),
  length-remove_le r.command_id f,
)

pub length-push_event :
    (limit : ℕ) (e : StudioBridgeEvent) (es : List StudioBridgeEvent) (n : ℕ)
    → length es ≤ limit
    → length (push_event limit e (es, n)).0 ≤ limit
unfolding push_event
length-push_event limit e es n h =
    ground (arith, length-append (drop 1 es) (e ∷ []), length-append es (e ∷ []), length-drop 1 es)

pub length-push_events :
    (limit : ℕ) (new es : List StudioBridgeEvent) (n : ℕ)
    → length es ≤ limit
    → length (push_events limit new (es, n)).0 ≤ limit
unfolding push_events
length-push_events limit [] es n h = h
length-push_events limit (e ∷ new) es n h =
    let (es', n') = push_event limit e (es, n) in
    length-push_events limit new es' n' (length-push_event limit e es n h)

-- What is leased is taken from the queue, and at most `n` are.
pub length-dispatch :
    (n : ℕ) (queue : List StudioBridgeCommand)
    (f : List (StudioBridgeCommandId × StudioBridgeCommand))
    → let (queue', f') = dispatch n queue f in
      (length queue' + length f' ≤ length queue + length f) × (length f' ≤ length f + n)
unfolding dispatch
length-dispatch zero queue f = ground arith
length-dispatch (suc n) [] f = ground arith
length-dispatch (suc n) (c ∷ queue) f =
    ground (arith, length-dispatch n queue (insert c.id c f), length-insert_le c.id c f)

pub accept_report-IsSession :
    (limits : StudioBridgeLimits) (backend : StudioBridgeBackendState) (now : ℕ)
    (report : StudioBridgeReport) (r : SessionRecord)
    → IsSession limits r
    → IsSession limits (accept_report limits backend now report r).1
unfolding accept_report reported_snapshot
accept_report-IsSession limits backend now report r h =
    let left = (answer_all report.command_results r.in_flight_commands r.responders).0 in
    let fewer = length-answer_all report.command_results r.in_flight_commands r.responders in
    let (kept, leased) =
      length-dispatch (limits.max_commands_per_report - length left) r.queued_commands left in
    record {
      queued_counted = refl;
      leased_counted = refl;
      events_counted = refl;
      pending_bounded = omega (arith, kept, fewer, h.pending_bounded);
      leased_bounded = omega (arith, leased, fewer, h.leased_bounded);
      events_bounded =
          length-push_events limits.max_events_per_session report.events r.events
            r.snapshot.dropped_events_total h.events_bounded;
      answerable = λ _ e. cc;
    }

pub answer_report-keeps {ℓ} :
    (P : SessionRecord → Type ℓ) (last : Option ℕ) (sequence : ℕ) (r : SessionRecord)
    (accepted : StudioBridgeReportResponse × SessionRecord × List StudioBridgeCommandResult)
    → P r
    → P accepted.1
    → P (answer_report last sequence r accepted).1
unfolding answer_report
answer_report-keeps P none sequence r accepted h k = k
answer_report-keeps P (some previous) sequence r accepted h k =
    if-both
      (λ (x : Result StudioBridgeReportResponse StudioBridgeError
          × SessionRecord
          × List StudioBridgeCommandResult).
        P x.1)
      (ltb sequence previous) h
      (if-both
        (λ (x : Result StudioBridgeReportResponse StudioBridgeError
            × SessionRecord
            × List StudioBridgeCommandResult).
          P x.1)
        (sequence == previous) h k)

pub report_session-IsSession :
    (limits : StudioBridgeLimits) (backend : StudioBridgeBackendState) (now : ℕ)
    (report : StudioBridgeReport) (r : SessionRecord)
    → IsSession limits r
    → IsSession limits (report_session limits backend now report r).1
unfolding report_session
report_session-IsSession limits backend now report r h =
    answer_report-keeps (IsSession limits) r.snapshot.last_report_sequence report.report_sequence r
      (accept_report limits backend now report r) h
      (accept_report-IsSession limits backend now report r h)

queued_record-IsSession :
    (limits : StudioBridgeLimits) (command : StudioBridgeCommand) (r : SessionRecord)
    → IsSession limits r
    → length r.queued_commands + length r.in_flight_commands
      < limits.max_pending_commands_per_session
    → IsSession limits (queued_record command r)
unfolding queued_record
queued_record-IsSession limits command r h room = record {
  queued_counted = refl;
  leased_counted = h.leased_counted;
  events_counted = h.events_counted;
  pending_bounded = omega (arith, room, length-append r.queued_commands (command ∷ []));
  leased_bounded = h.leased_bounded;
  events_bounded = h.events_bounded;
  answerable = h.answerable;
}

pub queue_if_bound-keeps :
    (P : SessionRecord → Type 0) (binding : Option StudioBridgeBinding)
    (limits : StudioBridgeLimits) (session_id : StudioBridgeSessionId) (r queued : SessionRecord)
    → P r
    → (length r.queued_commands + length r.in_flight_commands
          < limits.max_pending_commands_per_session
        → P queued)
    → P (queue_if_bound binding limits session_id r queued).1
unfolding queue_if_bound
queue_if_bound-keeps P none limits session_id r queued h k = h
queue_if_bound-keeps P (some _) limits session_id r queued h k =
    if-split (λ (x : Result (Unit {0}) StudioBridgeError × SessionRecord). P x.1)
      (leb limits.max_pending_commands_per_session
        (length r.queued_commands + length r.in_flight_commands))
      (λ _. h) (λ e. k (ground (arith, e)))

pub enqueue_command-IsSession :
    (limits : StudioBridgeLimits) (session_id : StudioBridgeSessionId) (id : StudioBridgeCommandId)
    (payload : StudioBridgeCommandPayload) (r : SessionRecord)
    → IsSession limits r
    → IsSession limits (enqueue_command limits session_id id payload r).1
unfolding enqueue_command
enqueue_command-IsSession limits session_id id payload r h =
    let command : StudioBridgeCommand = record { id = id; payload = payload } in
    queue_if_bound-keeps (IsSession limits) r.snapshot.binding limits session_id r
      (queued_record command r) h (queued_record-IsSession limits command r h)

retain_other_le :
    (id : StudioBridgeCommandId) (cs : List StudioBridgeCommand)
    → length (retain_other id cs) ≤ length cs
unfolding retain_other
retain_other_le id [] = omega arith
retain_other_le id (c ∷ cs) = ground (arith, retain_other_le id cs)

pub remove_command-IsSession :
    (limits : StudioBridgeLimits) (id : StudioBridgeCommandId) (r : SessionRecord)
    → IsSession limits r
    → IsSession limits (remove_command id r)
unfolding remove_command
remove_command-IsSession limits id r h = record {
  queued_counted = refl;
  leased_counted = refl;
  events_counted = h.events_counted;
  pending_bounded = omega (
    arith,
    h.pending_bounded,
    retain_other_le id r.queued_commands,
    length-remove_le id r.in_flight_commands,
  );
  leased_bounded = omega (arith, h.leased_bounded, length-remove_le id r.in_flight_commands);
  events_bounded = h.events_bounded;
  answerable = h.answerable;
}

pub drain-IsSession :
    (limits : StudioBridgeLimits) (limit : ℕ) (r : SessionRecord)
    → IsSession limits r
    → IsSession limits (drain limit r).1
unfolding drain
drain-IsSession limits limit r h = record {
  queued_counted = h.queued_counted;
  leased_counted = h.leased_counted;
  events_counted = refl;
  pending_bounded = h.pending_bounded;
  leased_bounded = h.leased_bounded;
  events_bounded =
      omega (arith, h.events_bounded, length-drop (min limit (length r.events)) r.events);
  answerable = h.answerable;
}

pub refresh_snapshot-IsSession :
    (limits : StudioBridgeLimits) (g : StudioBridgeRegistration) (now : ℕ) (r : SessionRecord)
    → IsSession limits r
    → IsSession limits (record r { snapshot = refresh_snapshot g now r.snapshot })
unfolding refresh_snapshot
refresh_snapshot-IsSession limits g now r h = record {
  queued_counted = h.queued_counted;
  leased_counted = h.leased_counted;
  events_counted = h.events_counted;
  pending_bounded = h.pending_bounded;
  leased_bounded = h.leased_bounded;
  events_bounded = h.events_bounded;
  answerable = h.answerable;
}

pub bind_if_free-keeps :
    (P : SessionRecord → Type 0) (old : Option StudioBridgeBinding) (binding : StudioBridgeBinding)
    (r bound_record : SessionRecord)
    → P r
    → P bound_record
    → P (bind_if_free old binding r bound_record).1
unfolding bind_if_free
bind_if_free-keeps P none binding r bound_record h k = k
bind_if_free-keeps P (some existing) binding r bound_record h k =
    if-both (λ (x : Result (Unit {0}) StudioBridgeError × SessionRecord). P x.1)
      (not (binding_eq existing binding)) h k

pub bind_record-IsSession :
    (limits : StudioBridgeLimits) (binding : StudioBridgeBinding) (r : SessionRecord)
    → IsSession limits r
    → IsSession limits (bind_record binding r).1
unfolding bind_record
bind_record-IsSession limits binding r h =
    bind_if_free-keeps (IsSession limits) r.snapshot.binding binding r _ h (record {
      queued_counted = h.queued_counted;
      leased_counted = h.leased_counted;
      events_counted = h.events_counted;
      pending_bounded = h.pending_bounded;
      leased_bounded = h.leased_bounded;
      events_bounded = h.events_bounded;
      answerable = h.answerable;
    })
