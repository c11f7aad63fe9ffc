-- ===== src/Bridge/Broker/Steps.antt =====
-- The broker over every sequence of its operations (crates/lattice-studio-bridge/src/lib.rs): each
-- runs under the lock, so that requests and calls interleave as steps.
use abraxius_lattice.Bridge.Types.{
  StudioBridgeSessionId, StudioBridgeCommandId, StudioBridgeCommandPayload, StudioBridgeLimits,
  StudioBridgeRegistration, StudioBridgeReport, StudioBridgeReportResponse, StudioBridgeBinding,
  StudioBridgeBackendState, StudioBridgeError, session_not_found, StudioBridgeCommandResult,
}
use abraxius_lattice.Bridge.Session.{
  SessionRecord, report_session, accept_report, enqueue_command, queued_record, remove_command,
  bind_record, drain, reported_snapshot,
}
use abraxius_lattice.Bridge.Session.Invariant.{
  IsSession, report_session-IsSession, enqueue_command-IsSession, remove_command-IsSession,
  bind_record-IsSession, drain-IsSession, answer_report-keeps, queue_if_bound-keeps,
  bind_if_free-keeps,
}
use abraxius_lattice.Bridge.Broker.{
  BrokerState, empty_broker, put_record, set_backend_state, register, bind_session, report,
  validate_report, begin_call, end_call, CallOutcome, answered, closed, elapsed, remove_call,
  list_sessions, drain_events,
}
use abraxius_lattice.Bridge.Broker.Names.{IsBroker, SameSession, put_record-IsBroker}
use abraxius_lattice.Bridge.Broker.Expiry.{mark_stale_sessions-IsBroker}
use abraxius_lattice.Bridge.Broker.Register.{register-IsBroker}
use abraxius_lattice.Base.Results.{Result, ok, err, Result-cases}
use abraxius_lattice.Base.Maps.{text_key, get}
use abraxius_lattice.Base.{
  List, [], Option, none, some, ℕ, ◌≡◌, refl, sym, subst, Option-cases, inl, inr, arith,
}

-- An operation of the broker that finishes, with the state that it leaves.
pub data Step (limits : StudioBridgeLimits) (s : BrokerState) : BrokerState → Type 0 where
  registers :
      (g : StudioBridgeRegistration) (now : ℕ) (fresh : StudioBridgeSessionId)
      → get fresh s.sessions ≡ none
      → Step limits s (register limits g now fresh s).1
  binds :
      (id : StudioBridgeSessionId) (b : StudioBridgeBinding) → Step limits s (bind_session id b s).1
  reports : (now : ℕ) (r : StudioBridgeReport) → Step limits s (report limits now r s).1
  begins :
      (id : StudioBridgeSessionId) (c : StudioBridgeCommandId) (p : StudioBridgeCommandPayload)
      → Step limits s (begin_call limits id c p s).1
  ends :
      (id : StudioBridgeSessionId) (c : StudioBridgeCommandId) (o : CallOutcome)
      → Step limits s (end_call id c o s).1
  lists : (now : ℕ) → Step limits s (list_sessions limits now s).1
  drains : (id : StudioBridgeSessionId) (n : ℕ) → Step limits s (drain_events id n s).1
  sets : (b : StudioBridgeBackendState) → Step limits s (set_backend_state b s)

pub data Reach (limits : StudioBridgeLimits) : BrokerState → Type 0 where
  start : Reach limits empty_broker
  next : {s t : BrokerState} → Reach limits s → Step limits s t → Reach limits t

-- Writing one session in place keeps the invariant, if the session keeps its own, its identifier
-- and its name.
in_place :
    {A : Type 0} (limits : StudioBridgeLimits) (s : BrokerState) (id : StudioBridgeSessionId)
    (missing : A) (found : SessionRecord → A × SessionRecord)
    → IsBroker limits s
    → ((r : SessionRecord)
        → IsSession limits r
        → IsSession limits (found r).1 × SameSession r (found r).1)
    → IsBroker limits
        (elim (get id s.sessions) as (λ _. A × BrokerState) [
          | none ↦ (missing, s)
          | some r ↦ ((found r).0, put_record id (found r).1 s)
        ]).1
in_place {A} limits s id missing found h keeps = elim (Option-cases (get id s.sessions)) [
  | inl e ↦ subst (λ (o : Option SessionRecord). IsBroker limits (outcome o).1) (sym e) h
  | inr (r, e) ↦
      let (k, same) = keeps r (h.named id r e).0 in
      subst (λ (o : Option SessionRecord). IsBroker limits (outcome o).1) (sym e)
        (put_record-IsBroker limits s id r (found r).1 h e same k)
]
  where
    outcome : Option SessionRecord → A × BrokerState
    outcome o = elim o [ none ↦ (missing, s) | some r ↦ ((found r).0, put_record id (found r).1 s) ]

report_session_same :
    (limits : StudioBridgeLimits) (backend : StudioBridgeBackendState) (now : ℕ)
    (report : StudioBridgeReport) (r : SessionRecord)
    → SameSession r (report_session limits backend now report r).1
unfolding report_session accept_report reported_snapshot
report_session_same limits backend now report r =
    answer_report-keeps (SameSession r) r.snapshot.last_report_sequence report.report_sequence r
      (accept_report limits backend now report r) (refl, refl) (refl, refl)

enqueue_command_same :
    (limits : StudioBridgeLimits) (id : StudioBridgeSessionId) (c : StudioBridgeCommandId)
    (p : StudioBridgeCommandPayload) (r : SessionRecord)
    → SameSession r (enqueue_command limits id c p r).1
unfolding enqueue_command queued_record
enqueue_command_same limits id c p r =
    queue_if_bound-keeps (SameSession r) r.snapshot.binding limits id r
      (queued_record (record { id = c; payload = p }) r) (refl, refl) (λ _. (refl, refl))

bind_record_same : (b : StudioBridgeBinding) (r : SessionRecord) → SameSession r (bind_record b r).1
unfolding bind_record
bind_record_same b r =
    bind_if_free-keeps (SameSession r) r.snapshot.binding b r _ (refl, refl) (refl, refl)

bind_session-IsBroker :
    (limits : StudioBridgeLimits) (id : StudioBridgeSessionId) (b : StudioBridgeBinding)
    (s : BrokerState)
    → IsBroker limits s
    → IsBroker limits (bind_session id b s).1
unfolding bind_session
bind_session-IsBroker limits id b s h =
    in_place limits s id (err (session_not_found id)) (bind_record b) h
      (λ r k. (bind_record-IsSession limits b r k, bind_record_same b r))

begin_call-IsBroker :
    (limits : StudioBridgeLimits) (id : StudioBridgeSessionId) (c : StudioBridgeCommandId)
    (p : StudioBridgeCommandPayload) (s : BrokerState)
    → IsBroker limits s
    → IsBroker limits (begin_call limits id c p s).1
unfolding begin_call
begin_call-IsBroker limits id c p s h =
    in_place limits s id (err (session_not_found id)) (enqueue_command limits id c p) h
      (λ r k. (enqueue_command-IsSession limits id c p r k, enqueue_command_same limits id c p r))

drain_events-IsBroker :
    (limits : StudioBridgeLimits) (id : StudioBridgeSessionId) (n : ℕ) (s : BrokerState)
    → IsBroker limits s
    → IsBroker limits (drain_events id n s).1
unfolding drain_events drain
drain_events-IsBroker limits id n s h =
    in_place limits s id (err (session_not_found id)) (λ r. (ok (drain n r).0, (drain n r).1)) h
      (λ r k. (drain-IsSession limits n r k, (refl, refl)))

remove_call-IsBroker :
    (limits : StudioBridgeLimits) (id : StudioBridgeSessionId) (c : StudioBridgeCommandId)
    (s : BrokerState)
    → IsBroker limits s
    → IsBroker limits (remove_call id c s)
unfolding remove_call remove_command
remove_call-IsBroker limits id c s h = elim (Option-cases (get id s.sessions)) [
  | inl e ↦ subst (λ (o : Option SessionRecord). IsBroker limits (outcome o)) (sym e) h
  | inr (r, e) ↦
      subst (λ (o : Option SessionRecord). IsBroker limits (outcome o)) (sym e)
        (put_record-IsBroker limits s id r _ h e (refl, refl)
          (remove_command-IsSession limits c r (h.named id r e).0))
]
  where
    outcome : Option SessionRecord → BrokerState
    outcome o = elim o [ none ↦ s | some r ↦ put_record id (remove_command c r) s ]

end_call-IsBroker :
    (limits : StudioBridgeLimits) (id : StudioBridgeSessionId) (c : StudioBridgeCommandId)
    (o : CallOutcome) (s : BrokerState)
    → IsBroker limits s
    → IsBroker limits (end_call id c o s).1
unfolding end_call
end_call-IsBroker limits id c (answered result) s h = h
end_call-IsBroker limits id c closed s h = remove_call-IsBroker limits id c s h
end_call-IsBroker limits id c elapsed s h = remove_call-IsBroker limits id c s h

abbrev Reported : Type 0
Reported =
    Result StudioBridgeReportResponse StudioBridgeError
    × BrokerState
    × List StudioBridgeCommandResult

report-IsBroker :
    (limits : StudioBridgeLimits) (now : ℕ) (r : StudioBridgeReport) (s : BrokerState)
    → IsBroker limits s
    → IsBroker limits (report limits now r s).1
unfolding report
report-IsBroker limits now r s h = elim (Result-cases (validate_report limits r)) [
  | inl (_, e) ↦
      subst (λ (v : Result (Unit {0}) StudioBridgeError). IsBroker limits (checked v).1) (sym e)
        (elim (Option-cases (get r.session_id s.sessions)) [
          | inl e ↦ subst (λ (o : Option SessionRecord). IsBroker limits (outcome o).1) (sym e) h
          | inr (q, e) ↦
              subst (λ (o : Option SessionRecord). IsBroker limits (outcome o).1) (sym e)
                (put_record-IsBroker limits s r.session_id q _ h e
                  (report_session_same limits s.backend now r q)
                  (report_session-IsSession limits s.backend now r q (h.named r.session_id q e).0))
        ])
  | inr (x, e) ↦
      subst (λ (v : Result (Unit {0}) StudioBridgeError). IsBroker limits (checked v).1) (sym e) h
]
  where
    outcome : Option SessionRecord → Reported
    outcome o = elim o [
      | none ↦ (err (session_not_found r.session_id), s, [])
      | some q ↦
          let (result, session', sent) = report_session limits s.backend now r q in
          (result, put_record r.session_id session' s, sent)
    ]

    checked : Result (Unit {0}) StudioBridgeError → Reported
    checked v = elim v [ err e ↦ (err e, s, []) | ok _ ↦ outcome (get r.session_id s.sessions) ]

list_sessions-IsBroker :
    (limits : StudioBridgeLimits) (now : ℕ) (s : BrokerState)
    → IsBroker limits s
    → IsBroker limits (list_sessions limits now s).1
unfolding list_sessions
list_sessions-IsBroker limits now s h = mark_stale_sessions-IsBroker limits now s h

empty_broker-IsBroker : (limits : StudioBridgeLimits) → IsBroker limits empty_broker
unfolding get
empty_broker-IsBroker limits = record {
  named = λ id r e. absurd cc;
  borne = λ name id e. absurd cc;
  counted = omega arith;
}

Step-IsBroker :
    {limits : StudioBridgeLimits} {s t : BrokerState}
    → Step limits s t
    → IsBroker limits s
    → IsBroker limits t
unfolding set_backend_state
Step-IsBroker {limits} {s} (registers g now fresh new) h =
    register-IsBroker limits g now fresh s h new
Step-IsBroker {limits} {s} (binds id b) h = bind_session-IsBroker limits id b s h
Step-IsBroker {limits} {s} (reports now r) h = report-IsBroker limits now r s h
Step-IsBroker {limits} {s} (begins id c p) h = begin_call-IsBroker limits id c p s h
Step-IsBroker {limits} {s} (ends id c o) h = end_call-IsBroker limits id c o s h
Step-IsBroker {limits} {s} (lists now) h = list_sessions-IsBroker limits now s h
Step-IsBroker {limits} {s} (drains id n) h = drain_events-IsBroker limits id n s h
Step-IsBroker {limits} {s} (sets b) h = record {
  named = h.named;
  borne = h.borne;
  counted = h.counted;
}

-- Whatever operations run from the empty broker on, one after the other, with identifiers for new
-- sessions that no session has: sessions and names agree, there are at most as many sessions as the
-- limit says, and every session's queue, leases and events are within their limits and counted.
pub Reach-IsBroker :
    (limits : StudioBridgeLimits) (s : BrokerState) → Reach limits s → IsBroker limits s
Reach-IsBroker limits _ start = empty_broker-IsBroker limits
Reach-IsBroker limits _ (next {s} r st) = Step-IsBroker st (Reach-IsBroker limits s r)
