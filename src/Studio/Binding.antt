-- ===== src/Studio/Binding.antt =====
-- The connection that a session is bound to (crates/lattice-studio/src/lib.rs).
use abraxius_lattice.Studio.{
  StudioMcpConnectionSnapshot, StudioSession, StudioManager, StudioError, at_session, is_some_text,
  is_some_nat, bind_session_connection, bind_mcp_connection, accepts_requests, is_live, find_live,
  explicit_target, permits_requests, studio_session_not_found,
}
use abraxius_lattice.Base.Results.{Result, ok, ok_or}
use abraxius_lattice.Base.Text.{Text, text_eq, text_eq_iff}
use abraxius_lattice.Base.{
  true, false, not, ◌&&◌, ◌||◌, [], ◌∷◌, Option, none, some, ℕ, ◌≡◌, refl, ap, ◌∙◌, if-split,
  if-true, if-false, arith,
}

is_some_text-eq : (t : Text) (o : Option Text) → is_some_text t o ≡ true → o ≡ some t
unfolding is_some_text
is_some_text-eq t none h = cc
is_some_text-eq t (some u) h = ap (λ (x : Text). some x) ((text_eq_iff u t).0 h)

is_some_nat-eq : (n : ℕ) (o : Option ℕ) → is_some_nat n o ≡ true → o ≡ some n
unfolding is_some_nat
is_some_nat-eq n none h = cc
is_some_nat-eq n (some m) h = ap (λ (x : ℕ). some x) (ground (arith, h))

-- The session is that of the connection: its environment and process are, and requests are
-- permitted.
abbrev pub IsOwn : StudioMcpConnectionSnapshot → StudioSession → Type 0
IsOwn c s =
    (s.id ≡ c.studio_session_id)
    × (s.environment_id ≡ some c.environment_id)
    × (s.process_id ≡ some c.process_id)
    × (permits_requests c.state ≡ true)

Bound :
    StudioMcpConnectionSnapshot
    → StudioSession
    → Result (Unit {0}) StudioError × StudioSession
    → Type 0
Bound c s x =
    x.0 ≡ ok tt
    → (s.environment_id ≡ some c.environment_id)
      × (s.process_id ≡ some c.process_id)
      × (permits_requests c.state ≡ true)
      × (x.1 ≡ record s { mcp_connection = some c })

bind_session_connection-ok :
    (c : StudioMcpConnectionSnapshot) (s : StudioSession) → Bound c s (bind_session_connection c s)
unfolding bind_session_connection Bound
bind_session_connection-ok c s =
    if-split (Bound c s)
      (not (is_some_text c.environment_id s.environment_id)
        || not (is_some_nat c.process_id s.process_id))
      (λ _ h. cc)
      (λ match.
        if-split (Bound c s) (not (permits_requests c.state)) (λ _ h. cc)
          (λ ready h. (
            is_some_text-eq c.environment_id s.environment_id (ground (arith, match)),
            is_some_nat-eq c.process_id s.process_id (ground (arith, match)),
            ground (arith, ready),
            refl,
          )))

-- The binding as it is done: to the session that a request for its identifier then reaches.
Reaches : StudioMcpConnectionSnapshot → Result (Unit {0}) StudioError × StudioManager → Type 0
Reaches c x =
    x.0 ≡ ok tt
    → (s : StudioSession) × IsOwn c s
      × (s.connected ≡ true
          → find_live c.studio_session_id x.1 ≡ some (record s { mcp_connection = some c }))

at_session-Reaches :
    (c : StudioMcpConnectionSnapshot) (manager : StudioManager)
    → Reaches c (at_session c.studio_session_id (bind_session_connection c) manager)
unfolding at_session Reaches Bound find_live is_live accepts_requests
at_session-Reaches c [] = λ h. cc
at_session-Reaches c (s ∷ ss) =
    let id = c.studio_session_id in
    let (done, s') = bind_session_connection c s in
    if-split (Reaches c) (text_eq s.id id)
      (λ own h.
        let (environment, process, ready, is) = bind_session_connection-ok c s h in
        (
          s,
          ((text_eq_iff s.id id).0 own, environment, process, ready),
          λ live.
              let bound_session : StudioSession = record s { mcp_connection = some c } in
              let yes : (text_eq s.id id && is_live bound_session) ≡ true =
                ground (arith, own, live, ready) in
              ap (λ (x : StudioSession). find_live id (x ∷ ss)) is
              ∙ if-true (some bound_session) (find_live id ss) yes,
        ))
      (λ other h.
        let (t, own, reached) = at_session-Reaches c ss h in
        (
          t,
          own,
          λ live.
              let no : (text_eq s.id id && is_live s) ≡ false = ground (arith, other) in
              if-false _ _ no ∙ reached live,
        ))

-- A binding that succeeds is one to a session with the identifier, the environment and the process of
-- the connection, and the connection permits requests. If the session is connected, a request for
-- its identifier is then given this session, with the connection.
pub explicit_target-bind_mcp_connection :
    (c : StudioMcpConnectionSnapshot) (manager : StudioManager)
    → (bind_mcp_connection c manager).0 ≡ ok tt
    → (s : StudioSession) × IsOwn c s
      × (s.connected ≡ true
          → explicit_target (some c.studio_session_id) (bind_mcp_connection c manager).1
            ≡ ok (record s { mcp_connection = some c }))
unfolding bind_mcp_connection explicit_target Reaches
explicit_target-bind_mcp_connection c manager h =
    let (s, own, reached) = at_session-Reaches c manager h in
    (
      s,
      own,
      λ live.
          ap (λ (o : Option StudioSession). ok_or o (studio_session_not_found c.studio_session_id))
            (reached live),
    )
