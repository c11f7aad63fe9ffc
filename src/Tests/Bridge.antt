-- ===== src/Tests/Bridge.antt =====
-- crates/lattice-studio-bridge: the theorems at small sessions, brokers and stores.
use abraxius_lattice.Bridge.Types.{
  StudioBridgeLimits, default_limits, default_backend, StudioBridgeRegistration, StudioBridgeReport,
  StudioBridgeReportResponse, StudioBridgeCommand, StudioBridgeCommandResult, StudioBridgeEvent,
  heartbeat, get_selection, edit_model, StudioBridgeBinding, bound,
}
use abraxius_lattice.Bridge.Pairing.{
  Expiries, PairingState, NonceOps, make_room, redeem, matches, expire, retain_later, redeem_found,
  opaque_nonce, add_ms,
}
use abraxius_lattice.Bridge.Pairing.Room.{
  make_room_ends, run-IsBounded, IsBounded, run, PairingRequest, issues, redeems, checks,
}
use abraxius_lattice.Bridge.Pairing.Once.{redeem_once, matches-redeem}
use abraxius_lattice.Bridge.Session.{
  SessionRecord, push_events, answer_all, accept_report, answer_report, report_session,
  enqueue_command, queue_if_bound, remove_command,
}
use abraxius_lattice.Bridge.Session.Invariant.{IsSession}
use abraxius_lattice.Bridge.Session.Repeat.{
  report_session_twice, SessionCall, queues, drains, refreshes, goes_stale, after_calls,
}
use abraxius_lattice.Bridge.Session.Buffer.{push_events-keeps_last, last}
use abraxius_lattice.Bridge.Session.Leases.{
  accept_report-leases, answer_all-Answers, AllLeased, room, IsSent, Distinct, NoneHas,
}
use abraxius_lattice.Bridge.Session.Withdraw.{remove_command-enqueue_command}
use abraxius_lattice.Bridge.Broker.{
  BrokerState, empty_broker, register, report, bind_session, begin_call, new_record,
}
use abraxius_lattice.Bridge.Broker.Names.{IsBroker}
use abraxius_lattice.Bridge.Broker.Steps.{
  Reach, start, next, registers, binds, begins, reports, Reach-IsBroker,
}
use abraxius_lattice.Bridge.Http.{HttpState, register_http, report_http, sessions_http}
use abraxius_lattice.Bridge.Http.Guard.{handlers-IsGuarded, IsGuarded}
use abraxius_lattice.Tools.Types.{LatticeId}
use abraxius_lattice.Base.Results.{ok}
use abraxius_lattice.Base.Text.{Text, codes}
use abraxius_lattice.Base.Maps.{text_key, get, values, compare_text}
use abraxius_lattice.Base.{
  zero, suc, min, ◌+◌, List, [], ◌∷◌, none, some, ℕ, ◌+◌, ◌≡◌, ◌<◌, length, take, drop, arith, refl,
  inl, true, false,
}

abbrev sample_ops : NonceOps
sample_ops = record { show_id = λ id. codes "id"; hash_hex = λ bytes. codes "00ff" }

abbrev sample_id : LatticeId
sample_id = 1 ∷ 2 ∷ []

abbrev two_entries : Expiries
two_entries = (codes "a", 900) ∷ (codes "b", 800) ∷ []

make_room_ends_example :
    (length (make_room 2 two_entries) < 2)
    × (length two_entries < 2 → make_room 2 two_entries ≡ two_entries)
make_room_ends_example = make_room_ends 2 two_entries (ground arith)

abbrev pairing : PairingState
pairing = record { challenges = two_entries; sessions = [] }

abbrev requests : List PairingRequest
requests =
    issues sample_id 100
    ∷ redeems sample_id (codes "a") 200
    ∷ checks (codes "session_00ff") 300
    ∷ []

run-IsBounded_example : IsBounded (run sample_ops pairing requests)
run-IsBounded_example = run-IsBounded sample_ops pairing requests (ground arith, ground arith)

abbrev token : Text
token = codes "session_00ff"

redeemed : (redeem sample_ops sample_id (codes "a") 200 pairing).0 ≡ some (token, 43200200)
unfolding redeem redeem_found expire retain_later get opaque_nonce add_ms compare_text
redeemed = refl

redeem_once_example :
    (redeem sample_ops sample_id
      (codes "a")
      300
      (redeem sample_ops sample_id (codes "a") 200 pairing).1).0
    ≡ none
redeem_once_example =
    redeem_once sample_ops sample_id sample_id (codes "a") 200 300 pairing (token, 43200200)
      redeemed

no_session : get (opaque_nonce sample_ops (codes "session") sample_id) pairing.sessions ≡ none
unfolding get
no_session = refl

-- Before the token is checked, another challenge is issued and another token checked.
abbrev meanwhile : List PairingRequest
meanwhile = issues sample_id 300 ∷ checks (codes "session_11") 400 ∷ []

matches-redeem_example :
    ((matches token 500
        (run sample_ops (redeem sample_ops sample_id (codes "a") 200 pairing).1 meanwhile)).0
      ≡ true)
    × (43200200 ≡ min (200 + 43200000) 9223372036854775807)
matches-redeem_example =
    matches-redeem sample_ops sample_id (codes "a") 200 500 pairing meanwhile token 43200200
      no_session redeemed (ground arith, (ground arith, tt))

abbrev registration : StudioBridgeRegistration
registration = record {
  protocol_version = 1;
  external_session_id = codes "studio";
  plugin_version = codes "1.0";
  data_model = edit_model;
  place_id = none;
  universe_id = none;
  is_running = false;
}

abbrev limits : StudioBridgeLimits
limits = record default_limits { max_events_per_session = 2; max_commands_per_report = 2 }

abbrev binding : StudioBridgeBinding
binding = record { studio_session_id = 9 ∷ []; environment_id = 8 ∷ []; process_id = 77 }

abbrev command : ℕ → StudioBridgeCommand
command n = record { id = n ∷ []; payload = get_selection }

abbrev fresh_record : SessionRecord
fresh_record = new_record sample_id registration 100

-- A bound session with one command in flight and two in the queue.
abbrev busy : SessionRecord
busy = record {
  snapshot = record (fresh_record.snapshot) {
    state = bound;
    binding = some binding;
    queued_commands = 2;
    in_flight_commands = 1;
  };
  queued_commands = command 2 ∷ command 3 ∷ [];
  in_flight_commands = (1 ∷ [], command 1) ∷ [];
  responders = (1 ∷ [], tt) ∷ (2 ∷ [], tt) ∷ (3 ∷ [], tt) ∷ [];
  events = [];
  last_response = none;
}

busy-IsSession : IsSession limits busy
unfolding new_record default_limits
busy-IsSession = record {
  queued_counted = refl;
  leased_counted = refl;
  events_counted = refl;
  pending_bounded = ground arith;
  leased_bounded = ground arith;
  events_bounded = ground arith;
  answerable = λ known. absurd (known refl);
}

abbrev event : ℕ → StudioBridgeEvent
event n = record { event_id = codes "e"; sequence = n; observed_unix_ms = 150; payload = heartbeat }

abbrev answer : StudioBridgeCommandResult
answer = record {
  command_id = 1 ∷ [];
  succeeded = true;
  value = none;
  error_code = none;
  error_message = none;
}

abbrev first_report : StudioBridgeReport
first_report = record {
  protocol_version = 1;
  session_id = sample_id;
  report_sequence = 4;
  data_model = edit_model;
  place_id = none;
  universe_id = none;
  is_running = true;
  events = event 1 ∷ event 2 ∷ event 3 ∷ [];
  command_results = answer ∷ [];
}

push_events-keeps_last_example :
    let (es, n) = push_events 2 (event 2 ∷ event 3 ∷ []) (event 1 ∷ [], 5) in
    (es ≡ last 2 (event 1 ∷ event 2 ∷ event 3 ∷ [])) × (n + length es ≡ 8)
push_events-keeps_last_example =
    push_events-keeps_last 2 (event 2 ∷ event 3 ∷ []) (event 1 ∷ []) 5 (ground arith) (ground arith)

distinct : Distinct busy.queued_commands
distinct = ((λ e. cc, tt), (tt, tt))

accept_report-leases_example :
    let (response, r', sent) = accept_report limits default_backend 200 first_report busy in
    AllLeased (take (room limits first_report busy) busy.queued_commands) r'.in_flight_commands
    × (r'.queued_commands ≡ drop (room limits first_report busy) busy.queued_commands)
    × (response.commands ≡ values r'.in_flight_commands)
accept_report-leases_example =
    accept_report-leases limits default_backend 200 first_report busy busy-IsSession distinct

waits : get (1 ∷ []) busy.responders ≡ some tt
unfolding get compare_text
waits = refl

answer_all-answers_example :
    let (left, waiting, sent) = answer_all (answer ∷ []) busy.in_flight_commands busy.responders in
    (get (1 ∷ []) left ≡ none)
    × (get (1 ∷ []) waiting ≡ none)
    × (get (1 ∷ []) busy.responders ≡ some tt → IsSent (1 ∷ []) sent)
answer_all-answers_example =
    answer_all-Answers (1 ∷ []) (answer ∷ []) busy.in_flight_commands busy.responders (inl refl)

not_leased : get (4 ∷ []) busy.in_flight_commands ≡ none
unfolding get compare_text
not_leased = refl

not_waited : get (4 ∷ []) busy.responders ≡ none
unfolding get compare_text
not_waited = refl

not_queued : NoneHas (4 ∷ []) busy.queued_commands
not_queued = (λ e. cc, (λ e. cc, tt))

queued : (enqueue_command limits sample_id (4 ∷ []) get_selection busy).0 ≡ ok tt
unfolding enqueue_command queue_if_bound default_limits
queued = refl

remove_command-enqueue_command_example :
    remove_command (4 ∷ []) (enqueue_command limits sample_id (4 ∷ []) get_selection busy).1 ≡ busy
remove_command-enqueue_command_example =
    remove_command-enqueue_command limits sample_id (4 ∷ []) get_selection busy busy-IsSession
      not_queued not_leased not_waited queued

abbrev reported : StudioBridgeReportResponse
reported = (accept_report limits default_backend 200 first_report busy).0

accepted : (report_session limits default_backend 200 first_report busy).0 ≡ ok reported
unfolding report_session answer_report new_record
accepted = refl

-- Between the two reports a call is queued, the events are drained and the plugin registers again.
abbrev in_between : List SessionCall
in_between =
    queues limits sample_id (9 ∷ []) get_selection
    ∷ drains 5
    ∷ refreshes registration 250
    ∷ goes_stale 10 280
    ∷ []

report_session_twice_example :
    let r' =
      after_calls in_between (report_session limits default_backend 200 first_report busy).1 in
    report_session limits default_backend 300 first_report r' ≡ (ok reported, r', [])
report_session_twice_example =
    report_session_twice limits default_backend default_backend 200 300 first_report busy in_between
      reported accepted

empty_unknown : get sample_id empty_broker.sessions ≡ none
unfolding get
empty_unknown = refl

-- A plugin registers, is bound, gets a command and reports.
abbrev registered : BrokerState
registered = (register limits registration 100 sample_id empty_broker).1

abbrev bound_broker : BrokerState
bound_broker = (bind_session sample_id binding registered).1

abbrev called : BrokerState
called = (begin_call limits sample_id (4 ∷ []) get_selection bound_broker).1

abbrev after_report : BrokerState
after_report = (report limits 200 first_report called).1

reach : Reach limits after_report
reach =
    next
      (next
        (next (next start (registers registration 100 sample_id empty_unknown))
          (binds sample_id binding))
        (begins sample_id (4 ∷ []) get_selection))
      (reports 200 first_report)

Reach-IsBroker_example : IsBroker limits after_report
Reach-IsBroker_example = Reach-IsBroker limits after_report reach

abbrev http_state : HttpState
http_state = record { broker = registered; manual_token = none; pairing = pairing }

abbrev zeros : ℕ → List ℕ
zeros zero = []
zeros (suc n) = 0 ∷ zeros n

-- The first byte and 31 zeros.
abbrev short_hash : List ℕ → List ℕ
short_hash [] = 0 ∷ zeros 31
short_hash (b ∷ bs) = b ∷ zeros 31

length-short_hash : (b : List ℕ) → length (short_hash b) ≡ 32
length-short_hash [] = refl
length-short_hash (b ∷ bs) = refl

handlers-IsGuarded_example :
    let header = some (codes "Bearer nobody") in
    IsGuarded short_hash 500 header http_state
      (register_http short_hash limits 500 (5 ∷ []) header (ok registration) http_state)
    × IsGuarded short_hash 500 header http_state
        (report_http short_hash limits 500 header (ok first_report) http_state)
    × IsGuarded short_hash 500 header http_state
        (sessions_http short_hash limits 500 header http_state)
handlers-IsGuarded_example =
    handlers-IsGuarded short_hash limits 500 (5 ∷ []) (some (codes "Bearer nobody"))
      (ok registration) (ok first_report) http_state length-short_hash
