-- ===== src/Studio/Target.antt =====
-- Which session a request goes to (crates/lattice-studio/src/lib.rs).
use abraxius_lattice.Studio.{
  StudioMcpConnectionSnapshot, StudioMcpConnectionState, permits_requests, accepts_requests,
  mcp_unavailable, mcp_discovering, mcp_available, mcp_connecting, mcp_initializing, mcp_connected,
  mcp_degraded, mcp_reconnecting, mcp_disconnected, mcp_failed, StudioSession, StudioManager,
  studio_session_not_found, is_live, live_sessions, find_live, the_only, explicit_target,
}
use abraxius_lattice.Tools.Types.{LatticeId}
use abraxius_lattice.Base.Results.{ok, ok_or-eq-ok}
use abraxius_lattice.Base.Text.{text_eq, text_eq_iff}
use abraxius_lattice.Base.{
  true, ◌&&◌, List, [], ◌∷◌, Option, none, some, ◌≡◌, ◌↔◌, ◌⊎◌, inl, inr, refl, sym, ap, subst, ◌∙◌,
  if-split, arith,
}

-- The session stands in the list.
abbrev pub HasSession : StudioSession → StudioManager → Type 0
HasSession s [] = ⊥
HasSession s (t ∷ ts) = (t ≡ s) ⊎ HasSession s ts

-- The session is connected and has a connection that is connected or degraded.
abbrev pub IsLive : StudioSession → Type 0
IsLive s =
    (s.connected ≡ true)
    × ((c : StudioMcpConnectionSnapshot) × (s.mcp_connection ≡ some c)
        × ((c.state ≡ mcp_connected) ⊎ (c.state ≡ mcp_degraded)))

permitted :
    (state : StudioMcpConnectionState)
    → permits_requests state ≡ true
    → (state ≡ mcp_connected) ⊎ (state ≡ mcp_degraded)
unfolding permits_requests
permitted mcp_unavailable h = cc
permitted mcp_discovering h = cc
permitted mcp_available h = cc
permitted mcp_connecting h = cc
permitted mcp_initializing h = cc
permitted mcp_connected h = inl refl
permitted mcp_degraded h = inr refl
permitted mcp_reconnecting h = cc
permitted mcp_disconnected h = cc
permitted mcp_failed h = cc

accepted :
    (o : Option StudioMcpConnectionSnapshot)
    → accepts_requests o ≡ true
    → (c : StudioMcpConnectionSnapshot) × (o ≡ some c)
      × ((c.state ≡ mcp_connected) ⊎ (c.state ≡ mcp_degraded))
unfolding accepts_requests
accepted none h = cc
accepted (some c) h = (c, refl, permitted c.state h)

accepts :
    (o : Option StudioMcpConnectionSnapshot) (c : StudioMcpConnectionSnapshot)
    → o ≡ some c
    → (c.state ≡ mcp_connected) ⊎ (c.state ≡ mcp_degraded)
    → accepts_requests o ≡ true
unfolding accepts_requests permits_requests
accepts o c e state =
    ap accepts_requests e
    ∙ elim state [ inl q ↦ ap permits_requests q | inr q ↦ ap permits_requests q ]

is_live_iff : (s : StudioSession) → (is_live s ≡ true) ↔ IsLive s
unfolding is_live
is_live_iff s = (
  λ h. (ground (arith, h), accepted s.mcp_connection (ground (arith, h))),
  λ (on, (c, e, state)). let yes = accepts s.mcp_connection c e state in ground (arith, on, yes),
)

find_live-ok :
    (id : LatticeId) (manager : StudioManager) {s : StudioSession}
    → find_live id manager ≡ some s
    → HasSession s manager × (is_live s ≡ true) × (s.id ≡ id)
unfolding find_live
find_live-ok id [] {s} h = cc
find_live-ok id (t ∷ ts) {s} h =
    if-split
      (λ (o : Option StudioSession).
        o ≡ some s → HasSession s (t ∷ ts) × (is_live s ≡ true) × (s.id ≡ id))
      (text_eq t.id id && is_live t)
      (λ both q.
        let same : t ≡ s = cc in
        (
          inl same,
          ap is_live (sym same) ∙ ground (arith, both),
          ap (λ (x : StudioSession). x.id) (sym same) ∙ ground (arith, both, text_eq_iff t.id id),
        ))
      (λ _ q. let (there, live, own) = find_live-ok id ts q in (inr there, live, own)) h

live_sessions-has :
    (manager : StudioManager) (s : StudioSession)
    → HasSession s (live_sessions manager)
    → HasSession s manager × (is_live s ≡ true)
unfolding live_sessions
live_sessions-has [] s h = absurd h
live_sessions-has (t ∷ ts) s h =
    if-split (λ (l : StudioManager). HasSession s l → HasSession s (t ∷ ts) × (is_live s ≡ true))
      (is_live t)
      (λ live q. elim q [
        | inl same ↦ (inl same, ap is_live (sym same) ∙ live)
        | inr later ↦ let (there, alive) = live_sessions-has ts s later in (inr there, alive)
      ])
      (λ _ q. let (there, alive) = live_sessions-has ts s q in (inr there, alive)) h

live_sessions_complete :
    (manager : StudioManager) (s : StudioSession)
    → HasSession s manager
    → is_live s ≡ true
    → HasSession s (live_sessions manager)
unfolding live_sessions
live_sessions_complete [] s h live = absurd h
live_sessions_complete (t ∷ ts) s (inl same) live =
    if-split (HasSession s) (is_live t) (λ _. inl same)
      (λ dead. let alive = ap is_live same in absurd cc)
live_sessions_complete (t ∷ ts) s (inr later) live =
    if-split (HasSession s) (is_live t) (λ _. inr (live_sessions_complete ts s later live))
      (λ _. live_sessions_complete ts s later live)

the_only-ok : (l : List StudioSession) {s : StudioSession} → the_only l ≡ ok s → l ≡ s ∷ []
unfolding the_only
the_only-ok [] {s} h = cc
the_only-ok (t ∷ []) {s} h = let same : t ≡ s = cc in ap (λ (x : StudioSession). x ∷ []) same
the_only-ok (t ∷ u ∷ ts) {s} h = cc

-- What the request asks for: this session, or the only one there is.
abbrev pub IsMeant : Option LatticeId → StudioManager → StudioSession → Type 0
IsMeant (some requested) manager s = s.id ≡ requested
IsMeant none manager s = (t : StudioSession) → HasSession t manager → IsLive t → t ≡ s

-- The target of a request is one of the sessions, is connected and has a connection that permits
-- requests. It has the identifier that was asked for; or, if none was, it is the only such session.
pub explicit_target-ok :
    (requested : Option LatticeId) (manager : StudioManager) (s : StudioSession)
    → explicit_target requested manager ≡ ok s
    → HasSession s manager × IsLive s × IsMeant requested manager s
unfolding explicit_target
explicit_target-ok (some requested) manager s h =
    let (there, live, own) =
      find_live-ok requested manager
        (ok_or-eq-ok (find_live requested manager) (studio_session_not_found requested) h) in
    (there, (is_live_iff s).0 live, own)
explicit_target-ok none manager s h =
    let one = the_only-ok (live_sessions manager) h in
    let (there, live) = live_sessions-has manager s (subst (HasSession s) (sym one) (inl refl)) in
    (
      there,
      (is_live_iff s).0 live,
      λ t has alive.
          elim (subst (HasSession t) one
            (live_sessions_complete manager t has ((is_live_iff t).1 alive))) [
              | inl same ↦ sym same
              | inr none_left ↦ absurd none_left
            ],
    )
