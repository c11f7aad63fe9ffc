-- ===== src/Tools/Providers.antt =====
-- The registry of providers (crates/lattice-tools/src/lib.rs).
use abraxius_lattice.Tools.Types.{
  ProviderId, ProviderDescriptor, ProviderHealth, ToolFabricError, provider_not_found,
  provider_already_registered, CatalogRefresh,
}
use abraxius_lattice.Base.Results.{Result, ok, err}
use abraxius_lattice.Base.Maps.{text_key, get, insert, contains_key, values}
use abraxius_lattice.Base.{List, Option, none, some, if◌then◌else◌, ℕ}

-- `ProviderRegistry`: its field `providers`.
abbrev pub ProviderRegistry : Type 0
ProviderRegistry = List (ProviderId × ProviderDescriptor)

unfoldable pub register :
    ProviderDescriptor → ProviderRegistry → Result (Unit {0}) ToolFabricError × ProviderRegistry
register descriptor providers =
    if contains_key descriptor.id providers
    then (err (provider_already_registered descriptor.id), providers)
    else (ok tt, insert descriptor.id descriptor providers)

unfoldable pub list_providers : ProviderRegistry → List ProviderDescriptor
list_providers providers = values providers

unfoldable pub get_provider : ProviderId → ProviderRegistry → Option ProviderDescriptor
get_provider id providers = get id providers

unfoldable pub with_health : ProviderHealth → ProviderDescriptor → ProviderDescriptor
with_health health provider = record {
  id = provider.id;
  kind = provider.kind;
  name = provider.name;
  version = provider.version;
  trust = provider.trust;
  transport = provider.transport;
  health = health;
  metadata = provider.metadata;
}

-- What `get_mut` gives is written in place.
unfoldable pub update_health :
    ProviderId
    → ProviderHealth
    → ProviderRegistry
    → Result (Unit {0}) ToolFabricError × ProviderRegistry
update_health id health providers = elim (get id providers) [
  | none ↦ (err (provider_not_found id), providers)
  | some provider ↦ (ok tt, insert id (with_health health provider) providers)
]

unfoldable pub update_descriptor :
    ProviderDescriptor → ProviderRegistry → Result (Unit {0}) ToolFabricError × ProviderRegistry
update_descriptor descriptor providers = elim (get descriptor.id providers) [
  | none ↦ (err (provider_not_found descriptor.id), providers)
  | some current ↦ (ok tt, insert descriptor.id (with_health current.health descriptor) providers)
]

unfoldable pub refreshed_health : CatalogRefresh → ℕ → ProviderHealth → ProviderHealth
refreshed_health refresh tool_count health = record {
  status = health.status;
  reason = health.reason;
  last_successful_operation_unix_ms = health.last_successful_operation_unix_ms;
  last_failure = health.last_failure;
  rtt_micros = health.rtt_micros;
  consecutive_failures = health.consecutive_failures;
  connected_at_unix_ms = health.connected_at_unix_ms;
  catalog_revision = some refresh.catalog_revision;
  tool_count = tool_count;
  resource_count = health.resource_count;
  authentication = health.authentication;
  connection_state = health.connection_state;
}

unfoldable pub update_catalog_health :
    ProviderId
    → CatalogRefresh
    → ℕ
    → ProviderRegistry
    → Result (Unit {0}) ToolFabricError × ProviderRegistry
update_catalog_health provider_id refresh tool_count providers = elim (get provider_id providers) [
  | none ↦ (err (provider_not_found provider_id), providers)
  | some provider ↦
      update_health provider_id (refreshed_health refresh tool_count provider.health) providers
]
