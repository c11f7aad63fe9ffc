-- ===== src/Bridge/Session/Withdraw.antt =====
-- A call that ends without an answer (crates/lattice-studio-bridge/src/lib.rs).
use abraxius_lattice.Bridge.Types.{
  StudioBridgeCommand, StudioBridgeCommandId, StudioBridgeSessionId, StudioBridgeCommandPayload,
  StudioBridgeLimits, StudioBridgeBinding, StudioBridgeError,
}
use abraxius_lattice.Bridge.Session.{
  SessionRecord, enqueue_command, queue_if_bound, queued_record, retain_other, remove_command,
}
use abraxius_lattice.Bridge.Session.Invariant.{IsSession}
use abraxius_lattice.Bridge.Session.Leases.{NoneHas}
use abraxius_lattice.Base.Results.{Result, ok}
use abraxius_lattice.Base.Text.{text_eq, text_eq_iff}
use abraxius_lattice.Base.Maps.{text_key, get, insert, remove, remove-insert, remove_missing}
use abraxius_lattice.Base.{
  List, [], ◌∷◌, ◌++◌, Option, none, some, ℕ, ◌+◌, ◌≡◌, length, leb, refl, sym, ap, ◌∙◌, if-true,
  if-split,
}

retain_other_none :
    (id : StudioBridgeCommandId) (cs : List StudioBridgeCommand) (c : StudioBridgeCommand)
    → NoneHas id cs
    → c.id ≡ id
    → retain_other id (cs ++ (c ∷ [])) ≡ cs
unfolding retain_other
retain_other_none id [] c h e = if-true _ _ ((text_eq_iff c.id id).1 e)
retain_other_none id (x ∷ cs) c (other, h) e =
    if-split (λ (l : List StudioBridgeCommand). l ≡ x ∷ cs) (text_eq x.id id)
      (λ hit. absurd (other ((text_eq_iff x.id id).0 hit)))
      (λ _. ap (λ (l : List StudioBridgeCommand). x ∷ l) (retain_other_none id cs c h e))

-- The record with other commands, responders and counters.
abbrev rebuild :
    SessionRecord
    → List StudioBridgeCommand
    → List (StudioBridgeCommandId × StudioBridgeCommand)
    → List (StudioBridgeCommandId × Unit {0})
    → SessionRecord
rebuild r queue in_flight waiting = record r {
  queued_commands = queue;
  in_flight_commands = in_flight;
  responders = waiting;
  snapshot = record (r.snapshot) {
    queued_commands = length queue;
    in_flight_commands = length in_flight;
  };
}

rebuild_self :
    (limits : StudioBridgeLimits) (r : SessionRecord)
    → IsSession limits r
    → rebuild r r.queued_commands r.in_flight_commands r.responders ≡ r
rebuild_self limits r h =
    ap
      (λ (n : ℕ). record r {
        snapshot = record (r.snapshot) {
          queued_commands = n;
          in_flight_commands = length r.in_flight_commands;
        };
      })
      (sym h.queued_counted)
    ∙ ap (λ (n : ℕ). record r { snapshot = record (r.snapshot) { in_flight_commands = n } })
        (sym h.leased_counted)

remove_command-queued_record :
    (limits : StudioBridgeLimits) (c : StudioBridgeCommand) (r : SessionRecord)
    → IsSession limits r
    → NoneHas c.id r.queued_commands
    → get c.id r.in_flight_commands ≡ none
    → get c.id r.responders ≡ none
    → remove_command c.id (queued_record c r) ≡ r
unfolding remove_command queued_record
remove_command-queued_record limits c r h q f w =
    ap
      (λ (l : List StudioBridgeCommand).
        rebuild r l (remove c.id r.in_flight_commands) (remove c.id (insert c.id tt r.responders)))
      (retain_other_none c.id r.queued_commands c q refl)
    ∙ ap
        (λ (l : List (StudioBridgeCommandId × StudioBridgeCommand)).
          rebuild r r.queued_commands l (remove c.id (insert c.id tt r.responders)))
        (remove_missing c.id r.in_flight_commands f)
    ∙ ap
        (λ (l : List (StudioBridgeCommandId × Unit {0})).
          rebuild r r.queued_commands r.in_flight_commands l)
        (remove-insert c.id tt r.responders w)
    ∙ rebuild_self limits r h

queue_if_bound-ok :
    (binding : Option StudioBridgeBinding) (limits : StudioBridgeLimits)
    (session_id : StudioBridgeSessionId) (r queued : SessionRecord)
    → (queue_if_bound binding limits session_id r queued).0 ≡ ok tt
    → (queue_if_bound binding limits session_id r queued).1 ≡ queued
unfolding queue_if_bound
queue_if_bound-ok none limits session_id r queued h = cc
queue_if_bound-ok (some _) limits session_id r queued h =
    if-split
      (λ (x : Result (Unit {0}) StudioBridgeError × SessionRecord). x.0 ≡ ok tt → x.1 ≡ queued)
      (leb limits.max_pending_commands_per_session
        (length r.queued_commands + length r.in_flight_commands))
      (λ _ q. cc) (λ _ q. refl) h

-- In a session that keeps its invariant, a call under a new identifier that is queued and ends
-- without an answer, before any report, leaves the session as it was.
pub remove_command-enqueue_command :
    (limits : StudioBridgeLimits) (session_id : StudioBridgeSessionId) (id : StudioBridgeCommandId)
    (payload : StudioBridgeCommandPayload) (r : SessionRecord)
    → IsSession limits r
    → NoneHas id r.queued_commands
    → get id r.in_flight_commands ≡ none
    → get id r.responders ≡ none
    → (enqueue_command limits session_id id payload r).0 ≡ ok tt
    → remove_command id (enqueue_command limits session_id id payload r).1 ≡ r
unfolding enqueue_command
remove_command-enqueue_command limits session_id id payload r h q f w e =
    let c : StudioBridgeCommand = record { id = id; payload = payload } in
    ap (remove_command id)
      (queue_if_bound-ok r.snapshot.binding limits session_id r (queued_record c r) e)
    ∙ remove_command-queued_record limits c r h q f w
