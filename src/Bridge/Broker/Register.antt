-- ===== src/Bridge/Broker/Register.antt =====
-- The registration of a plugin (crates/lattice-studio-bridge/src/lib.rs).
use abraxius_lattice.Bridge.Broker.Create.{
  remove_sessions_fresh, create_session-IsBroker, refresh_session-IsBroker,
}
use abraxius_lattice.Bridge.Types.{
  StudioBridgeSessionId, StudioBridgeLimits, StudioBridgeRegistration,
  StudioBridgeRegistrationResponse, StudioBridgeError, session_not_found,
}
use abraxius_lattice.Bridge.Broker.{
  BrokerState, expired_ids, expire_sessions, ttl_of, refresh_session, create_session,
  register_valid, validate_registration, register, validate_protocol, validate_small_identifier,
}
use abraxius_lattice.Bridge.Broker.Names.{IsBroker}
use abraxius_lattice.Bridge.Broker.Expiry.{expire_sessions-IsBroker}
use abraxius_lattice.Base.Results.{Result, ok, err, Result-cases}
use abraxius_lattice.Base.Maps.{text_key, get}
use abraxius_lattice.Base.{
  Option, none, some, ℕ, ◌≡◌, ◌≢◌, length, arith, sym, ap, subst, ◌∙◌, Option-cases, inl, inr,
  if-both, leb,
}

abbrev Outcome : Type 0
Outcome = Result StudioBridgeRegistrationResponse StudioBridgeError × BrokerState

-- The broker keeps its invariant, and no session is missed.
abbrev Registers : StudioBridgeLimits → Outcome → Type 0
Registers limits x =
    IsBroker limits x.1 × ((id : StudioBridgeSessionId) → x.0 ≢ err (session_not_found id))

register_valid-none :
    (limits : StudioBridgeLimits) (g : StudioBridgeRegistration) (now : ℕ)
    (fresh : StudioBridgeSessionId) (s : BrokerState) (o : Option StudioBridgeSessionId)
    → get g.external_session_id s.external_sessions ≡ o
    → register_valid limits g now fresh s ≡ elim o as (λ _. Outcome) [
      | none ↦ create_session limits g now fresh s
      | some session_id ↦ refresh_session limits g now session_id s
    ]
unfolding register_valid
register_valid-none limits g now fresh s o e =
    ap
      (λ (o : Option StudioBridgeSessionId). elim o as (λ _. Outcome) [
        | none ↦ create_session limits g now fresh s
        | some session_id ↦ refresh_session limits g now session_id s
      ])
      e

create_session-found :
    (limits : StudioBridgeLimits) (g : StudioBridgeRegistration) (now : ℕ)
    (fresh : StudioBridgeSessionId) (s : BrokerState) (id : StudioBridgeSessionId)
    → (create_session limits g now fresh s).0 ≢ err (session_not_found id)
unfolding create_session
create_session-found limits g now fresh s id =
    if-both (λ (x : Outcome). x.0 ≢ err (session_not_found id))
      (leb limits.max_sessions (length s.sessions)) (λ h. cc) (λ h. cc)

register_valid-Registers :
    (limits : StudioBridgeLimits) (g : StudioBridgeRegistration) (now : ℕ)
    (fresh : StudioBridgeSessionId) (s : BrokerState)
    → IsBroker limits s
    → get fresh s.sessions ≡ none
    → Registers limits (register_valid limits g now fresh s)
register_valid-Registers limits g now fresh s h new =
    elim (Option-cases (get g.external_session_id s.external_sessions)) [
      | inl e ↦ subst (Registers limits) (sym (register_valid-none limits g now fresh s none e)) (
        create_session-IsBroker limits g now fresh s h new e,
        λ id. create_session-found limits g now fresh s id,
      )
      | inr (id, e) ↦
          let (r, there, _) = h.borne g.external_session_id id e in
          let (done, kept) = refresh_session-IsBroker limits g now id s r h there in
          subst (Registers limits)
            (sym (register_valid-none limits g now fresh s (some id) e ∙ done)) (kept, λ i q. cc)
    ]

-- The errors of a registration are those of its version and of its names.
validate_registration-found :
    (g : StudioBridgeRegistration) (id : StudioBridgeSessionId)
    → validate_registration g ≢ err (session_not_found id)
unfolding validate_registration validate_protocol validate_small_identifier
validate_registration-found g id = ground arith

register-Registers :
    (limits : StudioBridgeLimits) (g : StudioBridgeRegistration) (now : ℕ)
    (fresh : StudioBridgeSessionId) (s : BrokerState)
    → IsBroker limits s
    → get fresh s.sessions ≡ none
    → Registers limits (register limits g now fresh s)
unfolding register expire_sessions
register-Registers limits g now fresh s h new = elim (Result-cases (validate_registration g)) [
  | inl (_, e) ↦ subst (Registers limits) (sym (done (ok tt) e)) (
      register_valid-Registers limits g now fresh (expire_sessions limits now s)
        (expire_sessions-IsBroker limits now s h)
        (remove_sessions_fresh (expired_ids (ttl_of limits) now s.sessions) fresh s new))
  | inr (x, e) ↦ subst (Registers limits) (sym (done (err x) e)) (
    h,
    λ id q.
        let same : x ≡ session_not_found id = cc in
        validate_registration-found g id (e ∙ ap (λ (y : StudioBridgeError). err y) same),
  )
]
  where
    done :
        (v : Result (Unit {0}) StudioBridgeError)
        → validate_registration g ≡ v
        → register limits g now fresh s ≡ elim v as (λ _. Outcome) [
          | err e ↦ (err e, s)
          | ok _ ↦ register_valid limits g now fresh (expire_sessions limits now s)
        ]
    done v e =
        ap
          (λ (v : Result (Unit {0}) StudioBridgeError). elim v as (λ _. Outcome) [
            | err e ↦ (err e, s)
            | ok _ ↦ register_valid limits g now fresh (expire_sessions limits now s)
          ])
          e

pub register-IsBroker :
    (limits : StudioBridgeLimits) (g : StudioBridgeRegistration) (now : ℕ)
    (fresh : StudioBridgeSessionId) (s : BrokerState)
    → IsBroker limits s
    → get fresh s.sessions ≡ none
    → IsBroker limits (register limits g now fresh s).1
register-IsBroker limits g now fresh s h new = (register-Registers limits g now fresh s h new).0

-- In a broker that keeps its invariant, with an identifier that no session has, `register` never
-- fails because a session is missing: every name that is known has its session.
register-found :
    (limits : StudioBridgeLimits) (g : StudioBridgeRegistration) (now : ℕ)
    (fresh id : StudioBridgeSessionId) (s : BrokerState)
    → IsBroker limits s
    → get fresh s.sessions ≡ none
    → (register limits g now fresh s).0 ≢ err (session_not_found id)
register-found limits g now fresh id s h new = (register-Registers limits g now fresh s h new).1 id
