-- ===== src/Connections/Broker/Health.antt =====
-- The writing of a provider's health (crates/lattice-connections/src/lib.rs).
use abraxius_lattice.Connections.Broker.{ConnectionBroker, Answer, with_providers, write_health}
use abraxius_lattice.Tools.Types.{
  ProviderId, ProviderDescriptor, ProviderHealth, ToolFabricError, provider_not_found,
}
use abraxius_lattice.Tools.Providers.{ProviderRegistry, with_health, update_health}
use abraxius_lattice.Base.Results.{Result, ok, err}
use abraxius_lattice.Base.Maps.{text_key, get, insert, get-insert_self}
use abraxius_lattice.Base.{Option, none, some, ◌≡◌, refl, sym, ap, subst, ◌∙◌}

-- A health was written: the provider was there, and has now the changed health; the slots and the
-- catalog are as they were.
abbrev pub Rewritten :
    ProviderId → (ProviderHealth → ProviderHealth) → ConnectionBroker → ConnectionBroker → Type 0
Rewritten id change b b' =
    (p : ProviderDescriptor) × (get id b.providers ≡ some p)
    × (get id b'.providers ≡ some (with_health (change p.health) p))
    × (b'.slots ≡ b.slots)
    × (b'.catalog ≡ b.catalog)

update_health-found :
    (id : ProviderId) (health : ProviderHealth) (p : ProviderDescriptor) (ps : ProviderRegistry)
    → get id ps ≡ some p
    → update_health id health ps ≡ (ok tt, insert id (with_health health p) ps)
unfolding update_health
update_health-found id health p ps e =
    ap
      (λ (o : Option ProviderDescriptor).
        elim o as (λ _. Result (Unit {0}) ToolFabricError × ProviderRegistry) [
          | none ↦ (err (provider_not_found id), ps)
          | some provider ↦ (ok tt, insert id (with_health health provider) ps)
        ])
      e

pub write_health-ok :
    (o : Option ProviderDescriptor) (id : ProviderId) (change : ProviderHealth → ProviderHealth)
    (b b' : ConnectionBroker) {u : Unit {0}}
    → get id b.providers ≡ o
    → write_health o id change b ≡ (ok u, b')
    → Rewritten id change b b'
unfolding write_health with_providers
write_health-ok none id change b b' e h = cc
write_health-ok (some p) id change b b' e h =
    let found = update_health-found id (change p.health) p b.providers e in
    let same : record b { providers = insert id (with_health (change p.health) p) b.providers }
        ≡ b' =
      ap
        (λ (x : Result (Unit {0}) ToolFabricError × ProviderRegistry). record b { providers = x.1 })
        (sym found)
      ∙ ap (λ (x : Answer (Unit {0})). x.1) h in
    subst (λ (x : ConnectionBroker). Rewritten id change b x) same
      (p, e, get-insert_self id (with_health (change p.health) p) b.providers, refl, refl)
