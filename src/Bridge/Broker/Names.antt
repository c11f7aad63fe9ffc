-- ===== src/Bridge/Broker/Names.antt =====
-- The broker's invariant (crates/lattice-studio-bridge/src/lib.rs), and the changes of the sessions
-- and of their names that keep it.
use abraxius_lattice.Bridge.Types.{StudioBridgeSessionId, StudioBridgeLimits}
use abraxius_lattice.Bridge.Session.{SessionRecord}
use abraxius_lattice.Bridge.Session.Invariant.{IsSession}
use abraxius_lattice.Bridge.Broker.{BrokerState, put_record}
use abraxius_lattice.Base.Text.{Text}
use abraxius_lattice.Base.Maps.{
  text_key, get, update, key_eq, key_eq→eq, length-update, get-update_self, get-update_other,
}
use abraxius_lattice.Base.{some, ◌≤◌, ◌≡◌, length, arith, sym, ap, subst, ◌∙◌, Bool-cases, inl, inr}

-- The session stands under its own identifier, keeps its invariant and is known by its name.
abbrev pub IsNamed :
    StudioBridgeLimits → BrokerState → StudioBridgeSessionId → SessionRecord → Type 0
IsNamed limits s id r =
    IsSession limits r
    × (r.snapshot.id ≡ id)
    × (get r.snapshot.external_session_id s.external_sessions ≡ some id)

-- A name belongs to a session that bears it.
abbrev pub IsBorne : BrokerState → Text → StudioBridgeSessionId → Type 0
IsBorne s name id =
    (r : SessionRecord) × (get id s.sessions ≡ some r) × (r.snapshot.external_session_id ≡ name)

-- Sessions and names agree, every session keeps its invariant, and there are not too many.
pub record IsBroker (limits : StudioBridgeLimits) (s : BrokerState) : Type 0 where
  pub named :
      (id : StudioBridgeSessionId) (r : SessionRecord)
      → get id s.sessions ≡ some r
      → IsNamed limits s id r
  pub borne :
      (name : Text) (id : StudioBridgeSessionId)
      → get name s.external_sessions ≡ some id
      → IsBorne s name id
  pub counted : length s.sessions ≤ limits.max_sessions

-- A session that is written in place keeps its identifier and its name.
abbrev pub SameSession : SessionRecord → SessionRecord → Type 0
SameSession r r' =
    (r'.snapshot.id ≡ r.snapshot.id)
    × (r'.snapshot.external_session_id ≡ r.snapshot.external_session_id)

put_record-IsNamed :
    (limits : StudioBridgeLimits) (s : BrokerState) (id : StudioBridgeSessionId)
    (r r' : SessionRecord)
    → IsBroker limits s
    → get id s.sessions ≡ some r
    → SameSession r r'
    → IsSession limits r'
    → (j : StudioBridgeSessionId) (q : SessionRecord) → get j (update id r' s.sessions) ≡ some q
    → IsNamed limits s j q
put_record-IsNamed limits s id r r' h e (same_id, same_name) k j q g =
    elim (Bool-cases (key_eq id j)) [
      | inl hit ↦
          let here : id ≡ j = key_eq→eq id j hit in
          let found : some q ≡ some r' =
            sym g
            ∙ ap (λ (i : StudioBridgeSessionId). get i (update id r' s.sessions)) (sym here)
            ∙ get-update_self id r' s.sessions e in
          let is : q ≡ r' = cc in
          let (_, own, name) = h.named id r e in
          subst (λ (x : SessionRecord). IsNamed limits s j x) (sym is)
            (
              k,
              same_id ∙ own ∙ here,
              ap (λ (n : Text). get n s.external_sessions) same_name
                  ∙ name
                  ∙ ap (λ (i : StudioBridgeSessionId). some i) here,
            )
      | inr miss ↦ h.named j q (sym (get-update_other id j r' s.sessions miss) ∙ g)
    ]

put_record-IsBorne :
    (limits : StudioBridgeLimits) (s : BrokerState) (id : StudioBridgeSessionId)
    (r r' : SessionRecord)
    → IsBroker limits s
    → get id s.sessions ≡ some r
    → SameSession r r'
    → (name : Text) (j : StudioBridgeSessionId) → get name s.external_sessions ≡ some j
    → IsBorne (put_record id r' s) name j
put_record-IsBorne limits s id r r' h e (same_id, same_name) name j g =
    let (q, there, bears) = h.borne name j g in
    elim (Bool-cases (key_eq id j)) [
      | inl hit ↦
          let here : id ≡ j = key_eq→eq id j hit in
          let found : some q ≡ some r =
            sym there ∙ ap (λ (i : StudioBridgeSessionId). get i s.sessions) (sym here) ∙ e in
          let is : q ≡ r = cc in
          (
            r',
            subst (λ (i : StudioBridgeSessionId). get i (update id r' s.sessions) ≡ some r') here
                (get-update_self id r' s.sessions e),
            same_name ∙ sym (ap (λ (x : SessionRecord). x.snapshot.external_session_id) is) ∙ bears,
          )
      | inr miss ↦ (q, get-update_other id j r' s.sessions miss ∙ there, bears)
    ]

pub put_record-IsBroker :
    (limits : StudioBridgeLimits) (s : BrokerState) (id : StudioBridgeSessionId)
    (r r' : SessionRecord)
    → IsBroker limits s
    → get id s.sessions ≡ some r
    → SameSession r r'
    → IsSession limits r'
    → IsBroker limits (put_record id r' s)
put_record-IsBroker limits s id r r' h e same k = record {
  named = put_record-IsNamed limits s id r r' h e same k;
  borne = put_record-IsBorne limits s id r r' h e same;
  counted = omega (arith, h.counted, length-update id r' s.sessions);
}
