-- ===== src/Connections/Broker/Connect.antt =====
-- What a provider that is connected has in the broker (crates/lattice-connections/src/lib.rs).
use abraxius_lattice.Connections.Broker.Health.{write_health-ok}
use abraxius_lattice.Connections.Broker.Refresh.{refresh_catalog-ok, settled-ok}
use abraxius_lattice.Connections.Types.{
  ProviderConnection, BrokerError, provider_unavailable, Timed, finished, settled,
}
use abraxius_lattice.Connections.Broker.{
  ProviderSlot, Slots, ConnectionBroker, Answer, slot, connection_health, or_status, with_providers,
  set_connection_state, set_connection, tool_count, refresh_catalog, keep_connection,
  connect_answered, connect_slot, connect,
}
use abraxius_lattice.Tools.Types.{
  ProviderId, ProviderDescriptor, connecting, connected, healthy, ImportedTool, ToolFabricError,
}
use abraxius_lattice.Tools.Providers.{
  ProviderRegistry, get_provider, with_health, update_descriptor, refreshed_health,
}
use abraxius_lattice.Tools.Catalog.{CatalogOps}
use abraxius_lattice.Tools.Stored.{AllStored}
use abraxius_lattice.Base.Results.{Result, ok, err, Result-cases, continue-eq-ok, ok_or-eq-ok}
use abraxius_lattice.Base.Text.{text_eq, text_eq_iff}
use abraxius_lattice.Base.Maps.{text_key, get, get-update_self}
use abraxius_lattice.Base.{
  false, not, List, Option, none, some, ◌≡◌, ◌⊎◌, inl, inr, refl, sym, ap, subst, ◌∙◌, if-split,
  arith,
}

-- The provider is connected: its slot has the connection, its health says so, and what it listed is
-- in the catalog.
abbrev pub IsConnected :
    CatalogOps
    → ProviderId
    → ProviderConnection
    → Timed (List ImportedTool)
    → ConnectionBroker
    → Type 0
IsConnected ops id connection listed b =
    ((s : ProviderSlot) × (get id b.slots ≡ some s) × (s.connection ≡ some connection))
    × ((p : ProviderDescriptor) × (get id b.providers ≡ some p)
        × (p.health.connection_state ≡ connected)
        × (p.health.status ≡ healthy))
    × ((tools : List ImportedTool) × (listed ≡ finished (ok tools))
        × AllStored ops.schema_ops.hash id tools b.catalog)

with_providers-slots :
    (r : Result (Unit {0}) ToolFabricError × ProviderRegistry) (b b' : ConnectionBroker)
    {u : Unit {0}}
    → with_providers r b ≡ (ok u, b')
    → b'.slots ≡ b.slots
unfolding with_providers
with_providers-slots r b b' h = sym (ap (λ (x : Answer (Unit {0})). x.1.slots) h)

keep_connection-IsConnected :
    (ops : CatalogOps) (id : ProviderId) (s : ProviderSlot) (connection c : ProviderConnection)
    (descriptor : ProviderDescriptor) (listed : Timed (List ImportedTool)) (b b' : ConnectionBroker)
    → get id b.slots ≡ some s
    → keep_connection ops id s connection descriptor listed b ≡ (ok c, b')
    → (connection ≡ c) × IsConnected ops id c listed b'
unfolding keep_connection set_connection set_connection_state connection_health or_status
    get_provider with_health refreshed_health
keep_connection-IsConnected ops id s connection c descriptor listed b b' there h =
    let kept = set_connection id s (some connection) b in
    let (_, b1, h1, h) =
      continue-eq-ok (with_providers (update_descriptor descriptor kept.providers) kept) _ h in
    let (_, b2, h2, h) = continue-eq-ok (set_connection_state id connected (some healthy) b1) _ h in
    let (_, b3, h3, h) = continue-eq-ok (refresh_catalog ops id listed b2) _ h in
    let same : connection ≡ c = cc in
    let last : b3 ≡ b' = cc in
    let (p, _, now, slots, _) =
      write_health-ok (get id b1.providers) id (connection_health connected (some healthy)) b1 b2
        refl h2 in
    let (tools, refresh, given, stored, slots', (q, before, after)) =
      refresh_catalog-ok ops id listed b2 b3 h3 in
    let slot_there : get id b3.slots ≡ some (record s { connection = some connection }) =
      ap (λ (m : Slots). get id m) (slots' ∙ slots ∙ with_providers-slots _ kept b1 h1)
      ∙ get-update_self id (record s { connection = some connection }) b.slots there in
    let is : with_health (connection_health connected (some healthy) p.health) p ≡ q =
      some_eq (sym now ∙ before) in
    let state : connected ≡ q.health.connection_state =
      ap (λ (d : ProviderDescriptor). d.health.connection_state) is in
    let status : healthy ≡ q.health.status = ap (λ (d : ProviderDescriptor). d.health.status) is in
    let whole : IsConnected ops id connection listed b3 = (
      (record s { connection = some connection }, slot_there, refl),
      (
        with_health (refreshed_health refresh (tool_count refresh) q.health) q,
        after,
        sym state,
        sym status,
      ),
      (tools, given, stored),
    ) in
    (
      same,
      subst (λ (x : ConnectionBroker). IsConnected ops id c listed x) last
          (subst (λ (x : ProviderConnection). IsConnected ops id x listed b3) same whole),
    )
  where
    some_eq : {x y : ProviderDescriptor} → some x ≡ some y → x ≡ y
    some_eq h = cc

-- Only the health is written before the provider is asked.
set_connecting :
    (id : ProviderId) (b b' : ConnectionBroker) {u : Unit {0}}
    → set_connection_state id connecting none b ≡ (ok u, b')
    → b'.slots ≡ b.slots
unfolding set_connection_state get_provider
set_connecting id b b' h =
    let (_, _, _, slots, _) =
      write_health-ok (get id b.providers) id (connection_health connecting none) b b' refl h in
    slots

-- The provider's answer is this connection.
abbrev IsGiven : Result ProviderConnection BrokerError → ProviderConnection → Type 0
IsGiven m c = m ≡ ok c

connect_answered-IsConnected :
    (ops : CatalogOps) (id : ProviderId) (s : ProviderSlot)
    (m : Result ProviderConnection BrokerError) (descriptor : ProviderDescriptor)
    (listed : Timed (List ImportedTool)) (b b' : ConnectionBroker) (c : ProviderConnection)
    → get id b.slots ≡ some s
    → connect_answered ops id s m descriptor listed b ≡ (ok c, b')
    → (m ≡ ok c) × (c.provider_id ≡ id) × IsConnected ops id c listed b'
unfolding connect_answered
connect_answered-IsConnected ops id s (err e) descriptor listed b b' c there h = cc
connect_answered-IsConnected ops id s (ok connection) descriptor listed b b' c there h =
    if-split
      (λ (x : Answer ProviderConnection).
        x ≡ (ok c, b')
        → IsGiven (ok connection) c × (c.provider_id ≡ id) × IsConnected ops id c listed b')
      (not (text_eq connection.provider_id id)) (λ _ q. cc)
      (λ own q.
        let (same, whole) =
          keep_connection-IsConnected ops id s connection c descriptor listed b b' there q in
        (
          ap (λ x. ok x) same,
          ap (λ (x : ProviderConnection). x.provider_id) (sym same) ∙ owned own,
          whole,
        ))
      h
  where
    owned : not (text_eq connection.provider_id id) ≡ false → connection.provider_id ≡ id
    owned own = ground (arith, own, text_eq_iff connection.provider_id id)

-- Either the slot had this connection already and nothing is changed, or the provider gave it under
-- its own identity and is connected with it.
abbrev pub Connects :
    CatalogOps
    → ProviderId
    → Timed ProviderConnection
    → Timed (List ImportedTool)
    → ConnectionBroker
    → ProviderConnection
    → ConnectionBroker
    → Type 0
Connects ops id answer listed b c b' =
    ((s : ProviderSlot) × (get id b.slots ≡ some s) × (s.connection ≡ some c) × (b' ≡ b))
    ⊎ ((answer ≡ finished (ok c)) × (c.provider_id ≡ id) × IsConnected ops id c listed b')

connect_slot-ok :
    (ops : CatalogOps) (id : ProviderId) (s : ProviderSlot) (o : Option ProviderConnection)
    (answer : Timed ProviderConnection) (descriptor : ProviderDescriptor)
    (listed : Timed (List ImportedTool)) (b b' : ConnectionBroker) (c : ProviderConnection)
    → get id b.slots ≡ some s
    → s.connection ≡ o
    → connect_slot ops id s o answer descriptor listed b ≡ (ok c, b')
    → Connects ops id answer listed b c b'
unfolding connect_slot
connect_slot-ok ops id s (some existing) answer descriptor listed b b' c there e h =
    let same : existing ≡ c = cc in
    let kept : b ≡ b' = cc in
    inl (s, there, e ∙ ap (λ (x : ProviderConnection). some x) same, sym kept)
connect_slot-ok ops id s none answer descriptor listed b b' c there e h =
    let (_, b1, h1, h) = continue-eq-ok (set_connection_state id connecting none b) _ h in
    let (given, own, whole) =
      connect_answered-IsConnected ops id s (settled answer) descriptor listed b1 b' c
        (ap (λ (m : Slots). get id m) (set_connecting id b b1 h1) ∙ there) h in
    inr (settled-ok answer given, own, whole)

slot-ok :
    (id : ProviderId) (b : ConnectionBroker) {s : ProviderSlot}
    → slot id b ≡ ok s
    → get id b.slots ≡ some s
unfolding slot
slot-ok id b e = ok_or-eq-ok (get id b.slots) (provider_unavailable id) e

-- A `connect` that succeeds gives the connection that the slot had already, and changes nothing; or
-- the one that the provider answered with under its own identity. Then the slot has it, the
-- registry says that the provider is connected and healthy, and every tool that the provider listed
-- is found in the catalog.
pub connect-ok :
    (ops : CatalogOps) (id : ProviderId) (answer : Timed ProviderConnection)
    (descriptor : ProviderDescriptor) (listed : Timed (List ImportedTool)) (b : ConnectionBroker)
    (c : ProviderConnection)
    → (connect ops id answer descriptor listed b).0 ≡ ok c
    → Connects ops id answer listed b c (connect ops id answer descriptor listed b).1
unfolding connect
connect-ok ops id answer descriptor listed b c =
    let rest : Result ProviderSlot BrokerError → Answer ProviderConnection = λ o.
      elim o as (λ _. Answer ProviderConnection) [
        | err e ↦ (err e, b)
        | ok s ↦ connect_slot ops id s s.connection answer descriptor listed b
      ] in
    elim (Result-cases (slot id b)) [
      | inl (s, e) ↦
          subst
            (λ (o : Result ProviderSlot BrokerError).
              (rest o).0 ≡ ok c → Connects ops id answer listed b c (rest o).1)
            (sym e)
            (λ h.
              connect_slot-ok ops id s s.connection answer descriptor listed b (rest (ok s)).1 c
                (slot-ok id b e) refl (paired (rest (ok s)) h))
      | inr (x, e) ↦
          subst
            (λ (o : Result ProviderSlot BrokerError).
              (rest o).0 ≡ ok c → Connects ops id answer listed b c (rest o).1)
            (sym e) (λ h. cc)
    ]
  where
    paired : (x : Answer ProviderConnection) → x.0 ≡ ok c → x ≡ (ok c, x.1)
    paired (m, s) e = ap (λ (r : Result ProviderConnection BrokerError). (r, s)) e
