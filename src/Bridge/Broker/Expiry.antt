-- ===== src/Bridge/Broker/Expiry.antt =====
-- Sessions that expire or go stale, and new ones, keep the broker's invariant
-- (crates/lattice-studio-bridge/src/lib.rs).
use abraxius_lattice.Bridge.Types.{StudioBridgeSessionId, StudioBridgeLimits}
use abraxius_lattice.Bridge.Session.{SessionRecord}
use abraxius_lattice.Bridge.Session.Invariant.{IsSession}
use abraxius_lattice.Bridge.Broker.{
  Sessions, BrokerState, remove_session, remove_sessions, expired_ids, expire_sessions, ttl_of,
  mark_stale, mark_stale_all, mark_stale_sessions, is_expired,
}
use abraxius_lattice.Bridge.Broker.Names.{IsBroker, SameSession}
use abraxius_lattice.Base.Text.{Text}
use abraxius_lattice.Base.Maps.{
  text_key, get, remove, key_eq, key_eq→eq, key_eq_iff, get-remove, length-remove_le,
}
use abraxius_lattice.Base.{
  false, List, [], ◌∷◌, Option, none, some, ℕ, ◌≡◌, length, arith, refl, sym, ap, subst, ◌∙◌,
  Option-cases, Bool-cases, inl, inr, if-both, if-true, if-false,
}

-- What is found after a removal was there, under another key.
get-remove_some :
    {V : Type 0} (k j : List ℕ) (m : List (List ℕ × V)) {v : V}
    → get j (remove k m) ≡ some v
    → (key_eq k j ≡ false) × (get j m ≡ some v)
get-remove_some k j m h = elim (Bool-cases (key_eq k j)) [
  | inl hit ↦ let e = sym h ∙ get-remove k j m ∙ if-true none (get j m) hit in absurd cc
  | inr miss ↦ (miss, sym (get-remove k j m ∙ if-false none (get j m) miss) ∙ h)
]

get-remove_other :
    {V : Type 0} (k j : List ℕ) (m : List (List ℕ × V))
    → key_eq k j ≡ false
    → get j (remove k m) ≡ get j m
get-remove_other k j m miss = get-remove k j m ∙ if-false none (get j m) miss

-- The state without a session and its name.
abbrev without : StudioBridgeSessionId → SessionRecord → BrokerState → BrokerState
without id r s = record s {
  sessions = remove id s.sessions;
  external_sessions = remove r.snapshot.external_session_id s.external_sessions;
}

-- Two sessions of one name are one.
same_name_same_id :
    (limits : StudioBridgeLimits) (s : BrokerState) (id j : StudioBridgeSessionId)
    (r q : SessionRecord)
    → IsBroker limits s
    → get id s.sessions ≡ some r
    → get j s.sessions ≡ some q
    → r.snapshot.external_session_id ≡ q.snapshot.external_session_id
    → id ≡ j
same_name_same_id limits s id j r q h e g same =
    let (_, _, a) = h.named id r e in
    let (_, _, b) = h.named j q g in
    let one : some id ≡ some j = sym a ∙ ap (λ (n : Text). get n s.external_sessions) same ∙ b in cc

without-IsBroker :
    (limits : StudioBridgeLimits) (s : BrokerState) (id : StudioBridgeSessionId) (r : SessionRecord)
    → IsBroker limits s
    → get id s.sessions ≡ some r
    → IsBroker limits (without id r s)
without-IsBroker limits s id r h e = record {
  named = λ j q g.
      let (miss, there) = get-remove_some id j s.sessions g in
      let (k, own, name) = h.named j q there in
      (
        k,
        own,
        elim (Bool-cases (key_eq r.snapshot.external_session_id q.snapshot.external_session_id)) [
          | inl hit ↦
              let same = same_name_same_id limits s id j r q h e there (key_eq→eq _ _ hit) in
              let no = (key_eq_iff id j).1 same in absurd cc
          | inr other ↦
              get-remove_other r.snapshot.external_session_id q.snapshot.external_session_id
                s.external_sessions other
              ∙ name
        ],
      );
  borne = λ name j g.
      let (miss, there) =
        get-remove_some r.snapshot.external_session_id name s.external_sessions g in
      let (q, found, bears) = h.borne name j there in
      (
        q,
        elim (Bool-cases (key_eq id j)) [
          | inl hit ↦
              let here : id ≡ j = key_eq→eq id j hit in
              let twice : some r ≡ some q =
                sym e ∙ ap (λ (i : StudioBridgeSessionId). get i s.sessions) here ∙ found in
              let one : r ≡ q = cc in
              let no =
                (key_eq_iff r.snapshot.external_session_id name).1
                  (ap (λ (x : SessionRecord). x.snapshot.external_session_id) one ∙ bears) in
              absurd cc
          | inr other ↦ get-remove_other id j s.sessions other ∙ found
        ],
        bears,
      );
  counted = omega (arith, h.counted, length-remove_le id s.sessions);
}

pub remove_session-IsBroker :
    (limits : StudioBridgeLimits) (id : StudioBridgeSessionId) (s : BrokerState)
    → IsBroker limits s
    → IsBroker limits (remove_session id s)
unfolding remove_session
remove_session-IsBroker limits id s h = elim (Option-cases (get id s.sessions)) [
  | inl e ↦ subst (IsBroker limits) (sym (removed none e)) h
  | inr (r, e) ↦
      subst (IsBroker limits) (sym (removed (some r) e)) (without-IsBroker limits s id r h e)
]
  where
    removed :
        (o : Option SessionRecord)
        → get id s.sessions ≡ o
        → remove_session id s ≡ elim o as (λ _. BrokerState) [ none ↦ s | some r ↦ without id r s ]
    removed o e =
        ap
          (λ (x : Option SessionRecord). elim x as (λ _. BrokerState) [
            | none ↦ s
            | some r ↦ without id r s
          ])
          e

remove_sessions-IsBroker :
    (limits : StudioBridgeLimits) (ids : List StudioBridgeSessionId) (s : BrokerState)
    → IsBroker limits s
    → IsBroker limits (remove_sessions ids s)
unfolding remove_sessions
remove_sessions-IsBroker limits [] s h = h
remove_sessions-IsBroker limits (id ∷ ids) s h =
    remove_sessions-IsBroker limits ids (remove_session id s)
      (remove_session-IsBroker limits id s h)

pub expire_sessions-IsBroker :
    (limits : StudioBridgeLimits) (now : ℕ) (s : BrokerState)
    → IsBroker limits s
    → IsBroker limits (expire_sessions limits now s)
unfolding expire_sessions
expire_sessions-IsBroker limits now s h =
    remove_sessions-IsBroker limits (expired_ids (ttl_of limits) now s.sessions) s h

-- A stale session keeps all but its state.
mark_stale-IsSession :
    (limits : StudioBridgeLimits) (ttl now : ℕ) (r : SessionRecord)
    → IsSession limits r
    → IsSession limits (mark_stale ttl now r) × SameSession r (mark_stale ttl now r)
unfolding mark_stale
mark_stale-IsSession limits ttl now r h =
    if-both (λ (x : SessionRecord). IsSession limits x × SameSession r x) (is_expired ttl now r)
      (
        record {
          queued_counted = h.queued_counted;
          leased_counted = h.leased_counted;
          events_counted = h.events_counted;
          pending_bounded = h.pending_bounded;
          leased_bounded = h.leased_bounded;
          events_bounded = h.events_bounded;
          answerable = h.answerable;
        },
        (refl, refl),
      )
      (h, (refl, refl))

get-mark_stale_all :
    (ttl now : ℕ) (j : StudioBridgeSessionId) (m : Sessions) {q : SessionRecord}
    → get j (mark_stale_all ttl now m) ≡ some q
    → (r : SessionRecord) × (get j m ≡ some r) × (mark_stale ttl now r ≡ q)
unfolding mark_stale_all get
get-mark_stale_all ttl now j [] h = cc
get-mark_stale_all ttl now j ((i, r) ∷ m) {q} h = elim (Bool-cases (key_eq i j)) [
  | inl hit ↦
      let same : some (mark_stale ttl now r) ≡ some q = sym (if-true _ _ hit) ∙ h in
      (r, if-true _ _ hit, cc)
  | inr miss ↦
      let (r', e, f) = get-mark_stale_all ttl now j m (sym (if-false _ _ miss) ∙ h) in
      (r', if-false _ _ miss ∙ e, f)
]

get-mark_stale-some :
    (ttl now : ℕ) (j : StudioBridgeSessionId) (m : Sessions) {r : SessionRecord}
    → get j m ≡ some r
    → get j (mark_stale_all ttl now m) ≡ some (mark_stale ttl now r)
unfolding mark_stale_all get
get-mark_stale-some ttl now j [] h = cc
get-mark_stale-some ttl now j ((i, u) ∷ m) {r} h =
    ground (arith, get-mark_stale-some ttl now j m {r = r})

length-mark_stale_all : (ttl now : ℕ) (m : Sessions) → length (mark_stale_all ttl now m) ≡ length m
unfolding mark_stale_all
length-mark_stale_all ttl now [] = refl
length-mark_stale_all ttl now ((i, r) ∷ m) = ground (arith, length-mark_stale_all ttl now m)

pub mark_stale_sessions-IsBroker :
    (limits : StudioBridgeLimits) (now : ℕ) (s : BrokerState)
    → IsBroker limits s
    → IsBroker limits (mark_stale_sessions limits now s)
unfolding mark_stale_sessions
mark_stale_sessions-IsBroker limits now s h = record {
  named = λ j q g.
      let (r, e, f) = get-mark_stale_all (ttl_of limits) now j s.sessions g in
      let (k, own, name) = h.named j r e in
      let (k', (same_id, same_name)) = mark_stale-IsSession limits (ttl_of limits) now r k in
      subst
        (λ (x : SessionRecord).
          IsSession limits x
          × (x.snapshot.id ≡ j)
          × (get x.snapshot.external_session_id s.external_sessions ≡ some j))
        f (k', same_id ∙ own, ap (λ (n : Text). get n s.external_sessions) same_name ∙ name);
  borne = λ name j g.
      let (r, e, bears) = h.borne name j g in
      let (k, own, _) = h.named j r e in
      let (_, (_, same_name)) = mark_stale-IsSession limits (ttl_of limits) now r k in
      (
        mark_stale (ttl_of limits) now r,
        get-mark_stale-some (ttl_of limits) now j s.sessions e,
        same_name ∙ bears,
      );
  counted = omega (arith, h.counted, length-mark_stale_all (ttl_of limits) now s.sessions);
}
