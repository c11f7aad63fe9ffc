-- ===== src/Bridge/Session/Leases.antt =====
-- The commands of a session (crates/lattice-studio-bridge/src/lib.rs): queued, leased to the plugin,
-- answered.
use abraxius_lattice.Bridge.Types.{
  StudioBridgeCommand, StudioBridgeCommandId, StudioBridgeCommandResult, StudioBridgeLimits,
  StudioBridgeBackendState, StudioBridgeReport,
}
use abraxius_lattice.Bridge.Session.{SessionRecord, answer_all, dispatch, accept_report}
use abraxius_lattice.Bridge.Session.Invariant.{IsSession, length-dispatch, length-answer_all}
use abraxius_lattice.Base.Maps.{
  text_key, get, insert, remove, values, contains_key, key_eq, key_eq_iff, key_eq→eq, get-insert,
  get-insert_self, get-remove,
}
use abraxius_lattice.Base.{
  true, false, List, [], ◌∷◌, Option, none, some, ℕ, zero, suc, ◌-◌, ◌≡◌, ◌≢◌, ◌⊎◌, inl, inr,
  length, take, drop, take-length, arith, refl, sym, ap, subst, ◌∙◌, if-true, if-false, if-both,
  if-split, Bool-cases,
}

abbrev pub Leased : Type 0
Leased = List (StudioBridgeCommandId × StudioBridgeCommand)

-- No command of the list has the identifier.
abbrev pub NoneHas : StudioBridgeCommandId → List StudioBridgeCommand → Type 0
NoneHas id [] = Unit {0}
NoneHas id (c ∷ cs) = (c.id ≢ id) × NoneHas id cs

abbrev pub Distinct : List StudioBridgeCommand → Type 0
Distinct [] = Unit {0}
Distinct (c ∷ cs) = NoneHas c.id cs × Distinct cs

abbrev pub AllLeased : List StudioBridgeCommand → Leased → Type 0
AllLeased [] f = Unit {0}
AllLeased (c ∷ cs) f = (get c.id f ≡ some c) × AllLeased cs f

-- What is leased stays leased when others go.
get-dispatch :
    (n : ℕ) (queue : List StudioBridgeCommand) (f : Leased) (id : StudioBridgeCommandId)
    → NoneHas id queue
    → get id (dispatch n queue f).1 ≡ get id f
unfolding dispatch
get-dispatch zero queue f id h = refl
get-dispatch (suc n) [] f id h = refl
get-dispatch (suc n) (c ∷ queue) f id (other, h) =
    get-dispatch n queue (insert c.id c f) id h
    ∙ get-insert c.id id c f
    ∙ if-split (λ (o : Option StudioBridgeCommand). o ≡ get id f) (key_eq c.id id)
        (λ hit. absurd (other (key_eq→eq c.id id hit))) (λ _. refl)

-- The first `n` commands of the queue go, in their order, and the others stay.
dispatch-drop :
    (n : ℕ) (queue : List StudioBridgeCommand) (f : Leased) → (dispatch n queue f).0 ≡ drop n queue
unfolding dispatch
dispatch-drop zero queue f = refl
dispatch-drop (suc n) [] f = refl
dispatch-drop (suc n) (c ∷ queue) f = dispatch-drop n queue (insert c.id c f)

dispatch-AllLeased :
    (n : ℕ) (queue : List StudioBridgeCommand) (f : Leased)
    → Distinct queue
    → AllLeased (take n queue) (dispatch n queue f).1
unfolding dispatch
dispatch-AllLeased zero queue f h = tt
dispatch-AllLeased (suc n) [] f h = tt
dispatch-AllLeased (suc n) (c ∷ queue) f (alone, h) = (
  get-dispatch n queue (insert c.id c f) c.id alone ∙ get-insert_self c.id c f,
  dispatch-AllLeased n queue (insert c.id c f) h,
)

length-values : (f : Leased) → length (values f) ≡ length f
unfolding values
length-values [] = refl
length-values ((id, c) ∷ f) = omega (arith, length-values f)

-- The room that a report leaves for commands: the limit less what is still in flight.
abbrev pub room : StudioBridgeLimits → StudioBridgeReport → SessionRecord → ℕ
room limits report r =
    limits.max_commands_per_report
    - length (answer_all report.command_results r.in_flight_commands r.responders).0

-- A report that is accepted by a session in order leases the first commands of the queue, as many as
-- there is room for, and the others stay queued in their order. The response has every command that
-- is in flight.
pub accept_report-leases :
    (limits : StudioBridgeLimits) (backend : StudioBridgeBackendState) (now : ℕ)
    (report : StudioBridgeReport) (r : SessionRecord)
    → IsSession limits r
    → Distinct r.queued_commands
    → let (response, r', sent) = accept_report limits backend now report r in
      AllLeased (take (room limits report r) r.queued_commands) r'.in_flight_commands
      × (r'.queued_commands ≡ drop (room limits report r) r.queued_commands)
      × (response.commands ≡ values r'.in_flight_commands)
unfolding accept_report
accept_report-leases limits backend now report r h distinct =
    let left = (answer_all report.command_results r.in_flight_commands r.responders).0 in
    let n = room limits report r in
    let (kept, leased) = length-dispatch n r.queued_commands left in
    (
      dispatch-AllLeased n r.queued_commands left distinct,
      dispatch-drop n r.queued_commands left,
      take-length limits.max_commands_per_report (values (dispatch n r.queued_commands left).1) (
          omega (
            arith,
            length-values (dispatch n r.queued_commands left).1,
            leased,
            length-answer_all report.command_results r.in_flight_commands r.responders,
            h.leased_bounded,
          )),
    )

-- The identifier is that of a result.
abbrev pub Answers : StudioBridgeCommandId → List StudioBridgeCommandResult → Type 0
Answers id [] = ⊥
Answers id (r ∷ rs) = (r.command_id ≡ id) ⊎ Answers id rs

abbrev pub InResults : StudioBridgeCommandResult → List StudioBridgeCommandResult → Type 0
InResults q [] = ⊥
InResults q (r ∷ rs) = (q ≡ r) ⊎ InResults q rs

-- What is neither leased nor waited for stays so.
answer_all_gone :
    (id : StudioBridgeCommandId) (rs : List StudioBridgeCommandResult) (f : Leased)
    (w : List (StudioBridgeCommandId × Unit {0}))
    → (get id f ≡ none → get id (answer_all rs f w).0 ≡ none)
      × (get id w ≡ none → get id (answer_all rs f w).1 ≡ none)
unfolding answer_all
answer_all_gone id [] f w = (λ e. e, λ e. e)
answer_all_gone id (r ∷ rs) f w =
    let (a, b) = answer_all_gone id rs (remove r.command_id f) (remove r.command_id w) in
    (
      λ e. a (
          get-remove r.command_id id f
          ∙ if-both (λ (o : Option StudioBridgeCommand). o ≡ none) (key_eq r.command_id id) refl e),
      λ e. b (
          get-remove r.command_id id w
          ∙ if-both (λ (o : Option (Unit {0})). o ≡ none) (key_eq r.command_id id) refl e),
    )

answer_all_removed :
    (id : StudioBridgeCommandId) (rs : List StudioBridgeCommandResult) (f : Leased)
    (w : List (StudioBridgeCommandId × Unit {0}))
    → Answers id rs
    → (get id (answer_all rs f w).0 ≡ none) × (get id (answer_all rs f w).1 ≡ none)
unfolding answer_all
answer_all_removed id [] f w h = absurd h
answer_all_removed id (r ∷ rs) f w (inl e) =
    let (a, b) = answer_all_gone id rs (remove r.command_id f) (remove r.command_id w) in
    let hit = (key_eq_iff r.command_id id).1 e in
    (
      a (get-remove r.command_id id f ∙ if-true none (get id f) hit),
      b (get-remove r.command_id id w ∙ if-true none (get id w) hit),
    )
answer_all_removed id (r ∷ rs) f w (inr h) =
    answer_all_removed id rs (remove r.command_id f) (remove r.command_id w) h

contains_waiting :
    (id : StudioBridgeCommandId) (w : List (StudioBridgeCommandId × Unit {0}))
    → get id w ≡ some tt
    → contains_key id w ≡ true
unfolding contains_key
contains_waiting id w e = rw (e, contains_key) refl

-- A result is sent to a call that waits for it.
abbrev pub IsSent : StudioBridgeCommandId → List StudioBridgeCommandResult → Type 0
IsSent id sent = (q : StudioBridgeCommandResult) × InResults q sent × (q.command_id ≡ id)

answer_all-IsSent :
    (id : StudioBridgeCommandId) (rs : List StudioBridgeCommandResult) (f : Leased)
    (w : List (StudioBridgeCommandId × Unit {0}))
    → Answers id rs
    → get id w ≡ some tt
    → IsSent id (answer_all rs f w).2
unfolding answer_all
answer_all-IsSent id [] f w h e = absurd h
answer_all-IsSent id (r ∷ rs) f w h e = elim (Bool-cases (key_eq r.command_id id)) [
  | inl hit ↦
      let same = key_eq→eq r.command_id id hit in
      let there =
        contains_waiting r.command_id w (ap (λ (k : StudioBridgeCommandId). get k w) same ∙ e) in
      subst (IsSent id) (sym (if-true _ _ there)) (r, inl refl, same)
  | inr miss ↦
      let (q, sent, own) =
        answer_all-IsSent id rs (remove r.command_id f) (remove r.command_id w) (later h miss)
          (get-remove r.command_id id w ∙ if-false none (get id w) miss ∙ e) in
      if-both (IsSent id) (contains_key r.command_id w) (q, inr sent, own) (q, sent, own)
]
  where
    later : (r.command_id ≡ id) ⊎ Answers id rs → key_eq r.command_id id ≡ false → Answers id rs
    later (inl same) miss = let no = (key_eq_iff r.command_id id).1 same in absurd cc
    later (inr more) miss = more

-- In the loop over the results of a report, a command whose result is among them is afterwards
-- neither leased nor waited for; and if a call waits for it, a result of that command is sent to it.
pub answer_all-Answers :
    (id : StudioBridgeCommandId) (rs : List StudioBridgeCommandResult) (f : Leased)
    (w : List (StudioBridgeCommandId × Unit {0}))
    → Answers id rs
    → let (left, waiting, sent) = answer_all rs f w in
      (get id left ≡ none) × (get id waiting ≡ none) × (get id w ≡ some tt → IsSent id sent)
answer_all-Answers id rs f w h =
    let (a, b) = answer_all_removed id rs f w h in (a, b, answer_all-IsSent id rs f w h)
