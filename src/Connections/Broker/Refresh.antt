-- ===== src/Connections/Broker/Refresh.antt =====
-- The refresh of a provider's tools (crates/lattice-connections/src/lib.rs).
use abraxius_lattice.Connections.Broker.Health.{write_health-ok}
use abraxius_lattice.Connections.Types.{BrokerError, Timed, finished, expired, settled}
use abraxius_lattice.Connections.Broker.{
  ConnectionBroker, slot, tool_count, record_refresh, import_catalog, is_connected_slot,
  refresh_listed, refresh_catalog,
}
use abraxius_lattice.Tools.Types.{
  ProviderId, ProviderDescriptor, ImportedTool, CatalogRefresh, ToolFabricError,
}
use abraxius_lattice.Tools.Providers.{get_provider, with_health, refreshed_health}
use abraxius_lattice.Tools.Catalog.{CatalogOps, refresh_provider}
use abraxius_lattice.Tools.Stored.{AllStored, refresh_provider-AllStored}
use abraxius_lattice.Base.Results.{Result, ok, err, and_then, Result-cases, and_then-eq-ok}
use abraxius_lattice.Base.Maps.{text_key, get}
use abraxius_lattice.Base.{List, some, ◌≡◌, inl, inr, refl, sym, ap, subst, ◌∙◌}

-- What a refresh that succeeds leaves: the tools are in the catalog, and the health of the provider
-- changed in nothing but the catalog's revision and the number of tools.
abbrev pub Refreshed :
    CatalogOps
    → ProviderId
    → Timed (List ImportedTool)
    → ConnectionBroker
    → ConnectionBroker
    → Type 0
Refreshed ops id listed b b' =
    (tools : List ImportedTool) × (refresh : CatalogRefresh) × (listed ≡ finished (ok tools))
    × AllStored ops.schema_ops.hash id tools b'.catalog
    × (b'.slots ≡ b.slots)
    × ((p : ProviderDescriptor) × (get id b.providers ≡ some p)
        × (get id b'.providers
            ≡ some (with_health (refreshed_health refresh (tool_count refresh) p.health) p)))

pub settled-ok : {A : Type 0} (t : Timed A) {a : A} → settled t ≡ ok a → t ≡ finished (ok a)
unfolding settled
settled-ok (finished (ok x)) {a} h = let same : x ≡ a = cc in ap (λ y. finished (ok y)) same
settled-ok (finished (err e)) h = cc
settled-ok expired h = cc

import_catalog-ok :
    (ops : CatalogOps) (id : ProviderId) (tools : List ImportedTool) (b b' : ConnectionBroker)
    {u : Unit {0}}
    → import_catalog ops id tools b ≡ (ok u, b')
    → Refreshed ops id (finished (ok tools)) b b'
unfolding import_catalog record_refresh get_provider
import_catalog-ok ops id tools b b' h =
    let next = (refresh_provider ops id tools b.catalog).1 in
    elim (Result-cases (refresh_provider ops id tools b.catalog).0) [
      | inl (refresh, e) ↦
          let written =
            ap
              (λ (m : Result CatalogRefresh ToolFabricError).
                record_refresh m id (record b { catalog = next }))
              (sym e)
            ∙ h in
          let (p, there, now, slots, catalog) =
            write_health-ok (get id b.providers) id (refreshed_health refresh (tool_count refresh))
              (record b { catalog = next }) b' refl written in
          (
            tools,
            refresh,
            refl,
            subst (AllStored ops.schema_ops.hash id tools) (sym catalog)
                (refresh_provider-AllStored ops id tools b.catalog refresh e),
            slots,
            (p, there, now),
          )
      | inr (x, e) ↦
          let failed =
            ap
              (λ (m : Result CatalogRefresh ToolFabricError).
                record_refresh m id (record b { catalog = next }))
              (sym e)
            ∙ h in
          absurd cc
    ]

refresh_listed-ok :
    (ops : CatalogOps) (id : ProviderId) (listed : Timed (List ImportedTool))
    (m : Result (List ImportedTool) BrokerError) (b b' : ConnectionBroker) {u : Unit {0}}
    → ((tools : List ImportedTool) → m ≡ ok tools → listed ≡ finished (ok tools))
    → refresh_listed ops id m b ≡ (ok u, b')
    → Refreshed ops id listed b b'
unfolding refresh_listed
refresh_listed-ok ops id listed (ok tools) b b' k h =
    subst (λ (t : Timed (List ImportedTool)). Refreshed ops id t b b') (sym (k tools refl))
      (import_catalog-ok ops id tools b b' h)
refresh_listed-ok ops id listed (err e) b b' k h = cc

pub refresh_catalog-ok :
    (ops : CatalogOps) (id : ProviderId) (listed : Timed (List ImportedTool))
    (b b' : ConnectionBroker) {u : Unit {0}}
    → refresh_catalog ops id listed b ≡ (ok u, b')
    → Refreshed ops id listed b b'
unfolding refresh_catalog
refresh_catalog-ok ops id listed b b' h =
    refresh_listed-ok ops id listed
      (and_then (slot id b) (λ s. and_then (is_connected_slot id s) (λ _. settled listed))) b b'
      (λ tools e.
        let (s, _, e) = and_then-eq-ok (slot id b) _ e in
        let (_, _, e) = and_then-eq-ok (is_connected_slot id s) _ e in settled-ok listed e)
      h
