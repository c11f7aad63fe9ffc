-- ===== src/Bridge/Session/Repeat.antt =====
-- A report that is sent again (crates/lattice-studio-bridge/src/lib.rs).
use abraxius_lattice.Bridge.Types.{
  StudioBridgeLimits, StudioBridgeBackendState, StudioBridgeReport, StudioBridgeReportResponse,
  StudioBridgeCommandResult, StudioBridgeError, duplicate_report_unavailable, StudioBridgeBinding,
  StudioBridgeCommandId, StudioBridgeCommandPayload, StudioBridgeSessionId,
  StudioBridgeRegistration,
}
use abraxius_lattice.Bridge.Broker.{mark_stale, is_expired}
use abraxius_lattice.Bridge.Session.{
  SessionRecord, accept_report, answer_report, report_session, reported_snapshot, enqueue_command,
  queued_record, queue_if_bound, remove_command, bind_record, bind_if_free, binding_eq, drain,
  refresh_snapshot,
}
use abraxius_lattice.Base.Results.{Result, ok, ok_or, ok_or-eq-ok}
use abraxius_lattice.Base.{
  List, [], ◌∷◌, not, ◌+◌, length, leb, if-both, Option, none, some, ℕ, ◌≡◌, ltb, ◌==◌, arith, refl,
  sym, ap, ◌∙◌, if-split, if-true, if-false, ==-self, le→ltb_false,
}

-- The session has answered this report.
abbrev pub HasAnswered : ℕ → StudioBridgeReportResponse → SessionRecord → Type 0
HasAnswered sequence response r =
    (r.snapshot.last_report_sequence ≡ some sequence) × (r.last_response ≡ some response)

abbrev Answer : Type 0
Answer =
    Result StudioBridgeReportResponse StudioBridgeError
    × SessionRecord
    × List StudioBridgeCommandResult

answer_report-HasAnswered :
    (last : Option ℕ) (sequence : ℕ) (r : SessionRecord)
    (accepted : StudioBridgeReportResponse × SessionRecord × List StudioBridgeCommandResult)
    {response : StudioBridgeReportResponse}
    → last ≡ r.snapshot.last_report_sequence
    → HasAnswered sequence accepted.0 accepted.1
    → (answer_report last sequence r accepted).0 ≡ ok response
    → HasAnswered sequence response (answer_report last sequence r accepted).1
unfolding answer_report
answer_report-HasAnswered none sequence r accepted {response} e (a, b) h =
    let same : accepted.0 ≡ response = cc in
    (a, b ∙ ap (λ (x : StudioBridgeReportResponse). some x) same)
answer_report-HasAnswered (some previous) sequence r accepted {response} e (a, b) h =
    if-split (λ (x : Answer). x.0 ≡ ok response → HasAnswered sequence response x.1)
      (ltb sequence previous) (λ _ q. cc)
      (λ _.
        if-split (λ (x : Answer). x.0 ≡ ok response → HasAnswered sequence response x.1)
          (sequence == previous)
          (λ same q. (
            sym e ∙ ap (λ (n : ℕ). some n) (ground (arith, same)),
            ok_or-eq-ok r.last_response duplicate_report_unavailable q,
          ))
          (λ _ q.
            let same : accepted.0 ≡ response = cc in
            (a, b ∙ ap (λ (x : StudioBridgeReportResponse). some x) same)))
      h

answer_report_repeated :
    (sequence : ℕ) (r : SessionRecord) (response : StudioBridgeReportResponse)
    (accepted : StudioBridgeReportResponse × SessionRecord × List StudioBridgeCommandResult)
    → r.last_response ≡ some response
    → answer_report (some sequence) sequence r accepted ≡ (ok response, r, [])
unfolding answer_report
answer_report_repeated sequence r response accepted e =
    if-false _ _ (le→ltb_false sequence sequence (omega arith))
    ∙ if-true _ _ (==-self sequence)
    ∙ ap (λ (o : Option StudioBridgeReportResponse). (ok_or o duplicate_report_unavailable, r, []))
        e

HasAnswered-repeat :
    (limits : StudioBridgeLimits) (backend : StudioBridgeBackendState) (now : ℕ)
    (report : StudioBridgeReport) (r : SessionRecord) (response : StudioBridgeReportResponse)
    → HasAnswered report.report_sequence response r
    → report_session limits backend now report r ≡ (ok response, r, [])
unfolding report_session
HasAnswered-repeat limits backend now report r response (a, b) =
    ap
      (λ (o : Option ℕ).
        answer_report o report.report_sequence r (accept_report limits backend now report r))
      a
    ∙ answer_report_repeated report.report_sequence r response
        (accept_report limits backend now report r) b

accept_report-HasAnswered :
    (limits : StudioBridgeLimits) (backend : StudioBridgeBackendState) (now : ℕ)
    (report : StudioBridgeReport) (r : SessionRecord)
    → let out = accept_report limits backend now report r in
      HasAnswered report.report_sequence out.0 out.1
unfolding accept_report reported_snapshot
accept_report-HasAnswered limits backend now report r = (refl, refl)

report_session-HasAnswered :
    (limits : StudioBridgeLimits) (backend : StudioBridgeBackendState) (now : ℕ)
    (report : StudioBridgeReport) (r : SessionRecord) {response : StudioBridgeReportResponse}
    → (report_session limits backend now report r).0 ≡ ok response
    → HasAnswered report.report_sequence response (report_session limits backend now report r).1
unfolding report_session
report_session-HasAnswered limits backend now report r h =
    answer_report-HasAnswered r.snapshot.last_report_sequence report.report_sequence r
      (accept_report limits backend now report r) refl
      (accept_report-HasAnswered limits backend now report r) h

-- What is done to a session beside the reports: a call is queued or withdrawn, the session is bound,
-- its events are drained, its plugin registers again, and it goes stale.
pub data SessionCall : Type 0 where
  queues :
      StudioBridgeLimits
      → StudioBridgeSessionId
      → StudioBridgeCommandId
      → StudioBridgeCommandPayload
      → SessionCall
  withdraws : StudioBridgeCommandId → SessionCall
  binds : StudioBridgeBinding → SessionCall
  drains : ℕ → SessionCall
  refreshes : StudioBridgeRegistration → ℕ → SessionCall
  goes_stale : ℕ → ℕ → SessionCall

abbrev pub after_call : SessionCall → SessionRecord → SessionRecord
after_call (queues limits session_id id payload) r =
    (enqueue_command limits session_id id payload r).1
after_call (withdraws id) r = remove_command id r
after_call (binds binding) r = (bind_record binding r).1
after_call (drains limit) r = (drain limit r).1
after_call (refreshes registration now) r = record r {
  snapshot = refresh_snapshot registration now r.snapshot;
}
after_call (goes_stale ttl now) r = mark_stale ttl now r

abbrev pub after_calls : List SessionCall → SessionRecord → SessionRecord
after_calls [] r = r
after_calls (c ∷ cs) r = after_calls cs (after_call c r)

queue_if_bound-HasAnswered :
    (bound : Option StudioBridgeBinding) (limits : StudioBridgeLimits)
    (session_id : StudioBridgeSessionId) (n : ℕ) (a : StudioBridgeReportResponse)
    (r queued : SessionRecord)
    → HasAnswered n a r
    → HasAnswered n a queued
    → HasAnswered n a (queue_if_bound bound limits session_id r queued).1
unfolding queue_if_bound
queue_if_bound-HasAnswered none limits session_id n a r queued h g = h
queue_if_bound-HasAnswered (some _) limits session_id n a r queued h g =
    if-both (λ (x : Result (Unit {0}) StudioBridgeError × SessionRecord). HasAnswered n a x.1)
      (leb limits.max_pending_commands_per_session
        (length r.queued_commands + length r.in_flight_commands))
      h g

bind_if_free-HasAnswered :
    (bound : Option StudioBridgeBinding) (binding : StudioBridgeBinding) (n : ℕ)
    (a : StudioBridgeReportResponse) (r bound_record : SessionRecord)
    → HasAnswered n a r
    → HasAnswered n a bound_record
    → HasAnswered n a (bind_if_free bound binding r bound_record).1
unfolding bind_if_free
bind_if_free-HasAnswered none binding n a r bound_record h g = g
bind_if_free-HasAnswered (some existing) binding n a r bound_record h g =
    if-both (λ (x : Result (Unit {0}) StudioBridgeError × SessionRecord). HasAnswered n a x.1)
      (not (binding_eq existing binding)) h g

after_call-HasAnswered :
    (c : SessionCall) (n : ℕ) (a : StudioBridgeReportResponse) (r : SessionRecord)
    → HasAnswered n a r
    → HasAnswered n a (after_call c r)
unfolding enqueue_command queued_record remove_command bind_record drain refresh_snapshot mark_stale
after_call-HasAnswered (queues limits session_id id payload) n a r h =
    queue_if_bound-HasAnswered r.snapshot.binding limits session_id n a r _ h h
after_call-HasAnswered (withdraws id) n a r h = h
after_call-HasAnswered (binds binding) n a r h =
    bind_if_free-HasAnswered r.snapshot.binding binding n a r _ h h
after_call-HasAnswered (drains limit) n a r h = h
after_call-HasAnswered (refreshes registration now) n a r h = h
after_call-HasAnswered (goes_stale ttl now) n a r h =
    if-both (λ (x : SessionRecord). HasAnswered n a x) (is_expired ttl now r) h h

after_calls-HasAnswered :
    (cs : List SessionCall) (n : ℕ) (a : StudioBridgeReportResponse) (r : SessionRecord)
    → HasAnswered n a r
    → HasAnswered n a (after_calls cs r)
after_calls-HasAnswered [] n a r h = h
after_calls-HasAnswered (c ∷ cs) n a r h =
    after_calls-HasAnswered cs n a (after_call c r) (after_call-HasAnswered c n a r h)

-- A report that was answered is answered in the same way when it comes again before another report,
-- at whatever time, under whatever state of the backend, and whatever calls, bindings, drains of
-- events, registrations and waits the session has seen in between: it changes nothing, and no
-- result is sent a second time.
pub report_session_twice :
    (limits : StudioBridgeLimits) (backend backend' : StudioBridgeBackendState) (now later : ℕ)
    (report : StudioBridgeReport) (r : SessionRecord) (cs : List SessionCall)
    (response : StudioBridgeReportResponse)
    → (report_session limits backend now report r).0 ≡ ok response
    → let r' = after_calls cs (report_session limits backend now report r).1 in
      report_session limits backend' later report r' ≡ (ok response, r', [])
report_session_twice limits backend backend' now later report r cs response h =
    HasAnswered-repeat limits backend' later report
      (after_calls cs (report_session limits backend now report r).1) response
      (after_calls-HasAnswered cs report.report_sequence response
        (report_session limits backend now report r).1
        (report_session-HasAnswered limits backend now report r h))
