-- ===== src/Connections/Broker.antt =====
-- The lifecycle of the providers in the broker (crates/lattice-connections/src/lib.rs). What a
-- provider answers is an argument, as `timeout` gives it. The semaphores are never closed; they
-- stand as the number of their permits.
pub mod Health
pub mod Refresh
pub mod Connect
use abraxius_lattice.Connections.Types.{
  ProviderConnection, BrokerError, provider_unavailable, provider_identity_mismatch, fabric, Timed,
  settled,
}
use abraxius_lattice.Connections.Store.{ResultStore}
use abraxius_lattice.Tools.Types.{
  ProviderId, ProviderDescriptor, ProviderHealth, ProviderConnectionState, connecting, connected,
  disconnected, ProviderHealthStatus, healthy, unavailable_status, ImportedTool, CatalogRefresh,
  ToolFabricError, ToolDescriptor,
}
use abraxius_lattice.Tools.Providers.{
  ProviderRegistry, register, list_providers, get_provider, update_health, update_descriptor,
  refreshed_health,
}
use abraxius_lattice.Tools.Catalog.{ToolCatalog, CatalogOps, refresh_provider}
use abraxius_lattice.Tools.Search.{search}
use abraxius_lattice.Base.Results.{Result, ok, err, and_then, map_err, continue, ok_or}
use abraxius_lattice.Base.Text.{Text, text_eq}
use abraxius_lattice.Base.Maps.{text_key, get, insert, update}
use abraxius_lattice.Base.{
  Bool, List, [], Option, none, some, ℕ, ◌+◌, min, length, u64_max, if◌then◌else◌, not, ltb,
}

pub record ProviderSlot : Type 0 where
  pub connection : Option ProviderConnection
  pub concurrency : ℕ

abbrev pub Slots : Type 0
Slots = List (ProviderId × ProviderSlot)

-- The parts of the broker that change, its store of results apart.
pub record ConnectionBroker : Type 0 where
  pub providers : ProviderRegistry
  pub catalog : ToolCatalog
  pub slots : Slots

unfoldable pub new_broker : ConnectionBroker
new_broker = record {
  providers = [];
  catalog = record {
    tools = [];
    provider_tools = [];
    schema_registry = [];
    catalog_revisions = [];
  };
  slots = [];
}

abbrev pub Answer : Type 0 → Type 0
Answer A = Result A BrokerError × ConnectionBroker

-- `max(1)`.
unfoldable pub at_least_one : ℕ → ℕ
at_least_one n = if ltb n 1 then 1 else n

-- The registry's answer decides whether the slot is inserted.
unfoldable pub insert_slot :
    Result (Unit {0}) ToolFabricError → ProviderId → ℕ → ConnectionBroker → Answer ProviderId
insert_slot (err e) id concurrency b = (err (fabric e), b)
insert_slot (ok _) id concurrency b = (
  ok id,
  record b {
    slots =
        insert id (record { connection = none; concurrency = at_least_one concurrency }) b.slots;
  },
)

unfoldable pub register_provider : ProviderDescriptor → ℕ → ConnectionBroker → Answer ProviderId
register_provider descriptor concurrency b =
    let (result, providers) = register descriptor b.providers in
    insert_slot result descriptor.id concurrency (record b { providers = providers })

unfoldable pub slot : ProviderId → ConnectionBroker → Result ProviderSlot BrokerError
slot id b = ok_or (get id b.slots) (provider_unavailable id)

unfoldable pub or_status : Option ProviderHealthStatus → ProviderHealthStatus → ProviderHealthStatus
or_status none current = current
or_status (some status) current = status

unfoldable pub connection_health :
    ProviderConnectionState → Option ProviderHealthStatus → ProviderHealth → ProviderHealth
connection_health state status health = record health {
  connection_state = state;
  status = or_status status health.status;
}

-- The end of the methods that write a health.
unfoldable pub with_providers :
    Result (Unit {0}) ToolFabricError × ProviderRegistry → ConnectionBroker → Answer (Unit {0})
with_providers (result, providers) b = (map_err fabric result, record b { providers = providers })

unfoldable pub write_health :
    Option ProviderDescriptor
    → ProviderId
    → (ProviderHealth → ProviderHealth)
    → ConnectionBroker
    → Answer (Unit {0})
write_health none id change b = (err (provider_unavailable id), b)
write_health (some provider) id change b =
    with_providers (update_health id (change provider.health) b.providers) b

unfoldable pub set_connection_state :
    ProviderId
    → ProviderConnectionState
    → Option ProviderHealthStatus
    → ConnectionBroker
    → Answer (Unit {0})
set_connection_state id state status b =
    write_health (get_provider id b.providers) id (connection_health state status) b

-- What `slot.connection` is assigned, in the slot that the map has.
unfoldable pub set_connection :
    ProviderId → ProviderSlot → Option ProviderConnection → ConnectionBroker → ConnectionBroker
set_connection id s connection b = record b {
  slots = update id (record s { connection = connection }) b.slots;
}

unfoldable pub tool_count : CatalogRefresh → ℕ
tool_count refresh =
    min (length refresh.added + length refresh.unchanged + length refresh.schema_changed) u64_max

unfoldable pub record_refresh :
    Result CatalogRefresh ToolFabricError → ProviderId → ConnectionBroker → Answer (Unit {0})
record_refresh (err e) id b = (err (fabric e), b)
record_refresh (ok refresh) id b =
    write_health (get_provider id b.providers) id (refreshed_health refresh (tool_count refresh)) b

unfoldable pub import_catalog :
    CatalogOps → ProviderId → List ImportedTool → ConnectionBroker → Answer (Unit {0})
import_catalog ops id tools b =
    let (result, catalog) = refresh_provider ops id tools b.catalog in
    record_refresh result id (record b { catalog = catalog })

unfoldable pub is_connected_slot : ProviderId → ProviderSlot → Result (Unit {0}) BrokerError
is_connected_slot id s =
    and_then (ok_or s.connection (provider_unavailable id)) (λ (_ : ProviderConnection). ok tt)

unfoldable pub refresh_listed :
    CatalogOps
    → ProviderId
    → Result (List ImportedTool) BrokerError
    → ConnectionBroker
    → Answer (Unit {0})
refresh_listed ops id (err e) b = (err e, b)
refresh_listed ops id (ok tools) b = import_catalog ops id tools b

unfoldable pub refresh_catalog :
    CatalogOps → ProviderId → Timed (List ImportedTool) → ConnectionBroker → Answer (Unit {0})
refresh_catalog ops id listed b =
    refresh_listed ops id
      (and_then (slot id b) (λ s. and_then (is_connected_slot id s) (λ _. settled listed))) b

-- After the provider has connected under its own identity: the connection is kept, the descriptor
-- and the state are written, and the catalog is read.
unfoldable pub keep_connection :
    CatalogOps
    → ProviderId
    → ProviderSlot
    → ProviderConnection
    → ProviderDescriptor
    → Timed (List ImportedTool)
    → ConnectionBroker
    → Answer ProviderConnection
keep_connection ops id s connection descriptor listed b =
    let kept = set_connection id s (some connection) b in
    continue (with_providers (update_descriptor descriptor kept.providers) kept) (λ _ b.
      continue (set_connection_state id connected (some healthy) b)
        (λ _ b. continue (refresh_catalog ops id listed b) (λ _ b. (ok connection, b))))

-- The provider's answer to `connect`.
unfoldable pub connect_answered :
    CatalogOps
    → ProviderId
    → ProviderSlot
    → Result ProviderConnection BrokerError
    → ProviderDescriptor
    → Timed (List ImportedTool)
    → ConnectionBroker
    → Answer ProviderConnection
connect_answered ops id s (err e) descriptor listed b = (err e, b)
connect_answered ops id s (ok connection) descriptor listed b =
    if not (text_eq connection.provider_id id)
    then (err provider_identity_mismatch, b)
    else keep_connection ops id s connection descriptor listed b

unfoldable pub connect_slot :
    CatalogOps
    → ProviderId
    → ProviderSlot
    → Option ProviderConnection
    → Timed ProviderConnection
    → ProviderDescriptor
    → Timed (List ImportedTool)
    → ConnectionBroker
    → Answer ProviderConnection
connect_slot ops id s (some existing) answer descriptor listed b = (ok existing, b)
connect_slot ops id s none answer descriptor listed b =
    continue (set_connection_state id connecting none b)
      (λ _ b. connect_answered ops id s (settled answer) descriptor listed b)

-- On what the provider answers to `connect`, the descriptor that it has then, and its tools.
unfoldable pub connect :
    CatalogOps
    → ProviderId
    → Timed ProviderConnection
    → ProviderDescriptor
    → Timed (List ImportedTool)
    → ConnectionBroker
    → Answer ProviderConnection
connect ops id answer descriptor listed b = elim (slot id b) [
  | err e ↦ (err e, b)
  | ok s ↦ connect_slot ops id s s.connection answer descriptor listed b
]

unfoldable pub disconnect_slot :
    ProviderId → ProviderSlot → Result (Unit {0}) BrokerError → ConnectionBroker → Answer (Unit {0})
disconnect_slot id s (err e) b = (err e, b)
disconnect_slot id s (ok _) b =
    set_connection_state id disconnected (some unavailable_status) (set_connection id s none b)

unfoldable pub disconnect : ProviderId → Timed (Unit {0}) → ConnectionBroker → Answer (Unit {0})
disconnect id answer b = elim (slot id b) [
  | err e ↦ (err e, b)
  | ok s ↦ disconnect_slot id s (settled answer) b
]

unfoldable pub providers_of : ConnectionBroker → List ProviderDescriptor
providers_of b = list_providers b.providers

unfoldable pub search_tools : Text → ℕ → ConnectionBroker → List ToolDescriptor
search_tools query limit b = search query limit b.catalog
