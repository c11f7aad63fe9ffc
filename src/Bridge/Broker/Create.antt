-- ===== src/Bridge/Broker/Create.antt =====
-- A new session and a known one keep the invariant (crates/lattice-studio-bridge/src/lib.rs).
use abraxius_lattice.Bridge.Types.{
  StudioBridgeSessionId, StudioBridgeLimits, StudioBridgeRegistration,
  StudioBridgeRegistrationResponse, StudioBridgeError, session_not_found,
}
use abraxius_lattice.Bridge.Session.{SessionRecord, refresh_snapshot}
use abraxius_lattice.Bridge.Session.Invariant.{IsSession, refresh_snapshot-IsSession}
use abraxius_lattice.Bridge.Broker.{
  BrokerState, remove_session, remove_sessions, new_record, put_record, registration_response,
  refresh_session, create_session,
}
use abraxius_lattice.Bridge.Broker.Names.{IsNamed, IsBroker, put_record-IsBroker}
use abraxius_lattice.Base.Results.{Result, ok, err}
use abraxius_lattice.Base.Text.{Text}
use abraxius_lattice.Base.Maps.{
  text_key, get, insert, remove, key_eq, key_eq→eq, get-insert, get-insert_self, get-remove,
  length-insert_le,
}
use abraxius_lattice.Base.{
  false, List, [], ◌∷◌, Option, none, some, ℕ, ◌<◌, ◌≡◌, length, arith, refl, sym, ap, subst, ◌∙◌,
  Bool-cases, inl, inr, if-split, if-both, if-false, leb,
}

get-insert_other :
    {V : Type 0} (k j : List ℕ) (v : V) (m : List (List ℕ × V))
    → key_eq k j ≡ false
    → get j (insert k v m) ≡ get j m
get-insert_other k j v m miss = get-insert k j v m ∙ if-false _ _ miss

-- A removed session makes no identifier known.
remove_session_fresh :
    (id fresh : StudioBridgeSessionId) (s : BrokerState)
    → get fresh s.sessions ≡ none
    → get fresh (remove_session id s).sessions ≡ none
unfolding remove_session
remove_session_fresh id fresh s h =
    elim (get id s.sessions)
      as (λ o.
        get fresh
          (elim o as (λ _. BrokerState) [
            | none ↦ s
            | some r ↦ record s {
              sessions = remove id s.sessions;
              external_sessions = remove r.snapshot.external_session_id s.external_sessions;
            }
          ]).sessions
        ≡ none) [
          | none ↦ h
          | some r ↦
              get-remove id fresh s.sessions
              ∙ if-both (λ (o : Option SessionRecord). o ≡ none) (key_eq id fresh) refl h
        ]

pub remove_sessions_fresh :
    (ids : List StudioBridgeSessionId) (fresh : StudioBridgeSessionId) (s : BrokerState)
    → get fresh s.sessions ≡ none
    → get fresh (remove_sessions ids s).sessions ≡ none
unfolding remove_sessions
remove_sessions_fresh [] fresh s h = h
remove_sessions_fresh (id ∷ ids) fresh s h =
    remove_sessions_fresh ids fresh (remove_session id s) (remove_session_fresh id fresh s h)

new_record-IsSession :
    (limits : StudioBridgeLimits) (fresh : StudioBridgeSessionId) (g : StudioBridgeRegistration)
    (now : ℕ)
    → IsSession limits (new_record fresh g now)
unfolding new_record
new_record-IsSession limits fresh g now = record {
  queued_counted = refl;
  leased_counted = refl;
  events_counted = refl;
  pending_bounded = omega arith;
  leased_bounded = omega arith;
  events_bounded = omega arith;
  answerable = λ known. absurd (known refl);
}

-- The state with a new session and its name.
abbrev with_new : StudioBridgeSessionId → SessionRecord → BrokerState → BrokerState
with_new fresh r s = record s {
  external_sessions = insert r.snapshot.external_session_id fresh s.external_sessions;
  sessions = insert fresh r s.sessions;
}

with_new-IsBroker :
    (limits : StudioBridgeLimits) (fresh : StudioBridgeSessionId) (r : SessionRecord)
    (s : BrokerState)
    → IsBroker limits s
    → IsSession limits r
    → r.snapshot.id ≡ fresh
    → get fresh s.sessions ≡ none
    → get r.snapshot.external_session_id s.external_sessions ≡ none
    → length s.sessions < limits.max_sessions
    → IsBroker limits (with_new fresh r s)
with_new-IsBroker limits fresh r s h k own new unknown room = record {
  named = λ j q g. elim (Bool-cases (key_eq fresh j)) [
    | inl hit ↦
        let here : fresh ≡ j = key_eq→eq fresh j hit in
        let found : some r ≡ some q =
          sym (get-insert_self fresh r s.sessions)
          ∙ ap (λ (i : StudioBridgeSessionId). get i (insert fresh r s.sessions)) here
          ∙ g in
        let is : r ≡ q = cc in
        subst (λ (x : SessionRecord). IsNamed limits (with_new fresh r s) j x) is
          (
            k,
            own ∙ here,
            get-insert_self r.snapshot.external_session_id fresh s.external_sessions
                ∙ ap (λ (i : StudioBridgeSessionId). some i) here,
          )
    | inr miss ↦
        let (kq, ownq, name) = h.named j q (sym (get-insert_other fresh j r s.sessions miss) ∙ g) in
        (
          kq,
          ownq,
          elim (Bool-cases (key_eq r.snapshot.external_session_id q.snapshot.external_session_id)) [
            | inl hit ↦
                let both : none ≡ some j =
                  sym unknown
                  ∙ ap (λ (n : Text). get n s.external_sessions) (key_eq→eq _ _ hit)
                  ∙ name in
                absurd cc
            | inr other ↦
                get-insert_other r.snapshot.external_session_id q.snapshot.external_session_id fresh
                  s.external_sessions other
                ∙ name
          ],
        )
  ];
  borne = λ name j g. elim (Bool-cases (key_eq r.snapshot.external_session_id name)) [
    | inl hit ↦
        let here : r.snapshot.external_session_id ≡ name = key_eq→eq _ _ hit in
        let found : some fresh ≡ some j =
          sym (get-insert_self r.snapshot.external_session_id fresh s.external_sessions)
          ∙ ap
              (λ (n : Text).
                get n (insert r.snapshot.external_session_id fresh s.external_sessions))
              here
          ∙ g in
        let is : fresh ≡ j = cc in
        (
          r,
          subst (λ (i : StudioBridgeSessionId). get i (insert fresh r s.sessions) ≡ some r) is
              (get-insert_self fresh r s.sessions),
          here,
        )
    | inr miss ↦
        let (q, there, bears) = h.borne name j (
          sym (get-insert_other r.snapshot.external_session_id name fresh s.external_sessions miss)
          ∙ g) in
        (
          q,
          elim (Bool-cases (key_eq fresh j)) [
            | inl hit ↦
                let both : none ≡ some q =
                  sym new
                  ∙ ap (λ (i : StudioBridgeSessionId). get i s.sessions) (key_eq→eq fresh j hit)
                  ∙ there in
                absurd cc
            | inr other ↦ get-insert_other fresh j r s.sessions other ∙ there
          ],
          bears,
        )
  ];
  counted = omega (arith, room, length-insert_le fresh r s.sessions);
}

pub create_session-IsBroker :
    (limits : StudioBridgeLimits) (g : StudioBridgeRegistration) (now : ℕ)
    (fresh : StudioBridgeSessionId) (s : BrokerState)
    → IsBroker limits s
    → get fresh s.sessions ≡ none
    → get g.external_session_id s.external_sessions ≡ none
    → IsBroker limits (create_session limits g now fresh s).1
unfolding create_session new_record
create_session-IsBroker limits g now fresh s h new unknown =
    if-split
      (λ (x : Result StudioBridgeRegistrationResponse StudioBridgeError × BrokerState).
        IsBroker limits x.1)
      (leb limits.max_sessions (length s.sessions)) (λ _. h)
      (λ e.
        with_new-IsBroker limits fresh (new_record fresh g now) s h
          (new_record-IsSession limits fresh g now) refl new unknown (ground (arith, e)))

pub refresh_session-IsBroker :
    (limits : StudioBridgeLimits) (g : StudioBridgeRegistration) (now : ℕ)
    (id : StudioBridgeSessionId) (s : BrokerState) (r : SessionRecord)
    → IsBroker limits s
    → get id s.sessions ≡ some r
    → (refresh_session limits g now id s ≡ (
      ok (registration_response limits id s.backend),
      put_record id (record r { snapshot = refresh_snapshot g now r.snapshot }) s,
    ))
      × IsBroker limits
          (put_record id (record r { snapshot = refresh_snapshot g now r.snapshot }) s)
unfolding refresh_session refresh_snapshot
refresh_session-IsBroker limits g now id s r h e = (
  ap
      (λ (o : Option SessionRecord).
        elim o as (λ _. Result StudioBridgeRegistrationResponse StudioBridgeError × BrokerState) [
          | none ↦ (err (session_not_found id), s)
          | some q ↦ (
            ok (registration_response limits id s.backend),
            put_record id (record q { snapshot = refresh_snapshot g now q.snapshot }) s,
          )
        ])
      e,
  put_record-IsBroker limits s id r _ h e (refl, refl)
      (refresh_snapshot-IsSession limits g now r (h.named id r e).0),
)
