-- ===== src/Tools/Registry.antt =====
-- The registry of providers keeps what an operation does not name (crates/lattice-tools/src/lib.rs).
use abraxius_lattice.Tools.Types.{
  ProviderId, ProviderDescriptor, ProviderHealth, ToolFabricError, provider_already_registered,
}
use abraxius_lattice.Tools.Providers.{
  ProviderRegistry, register, get_provider, with_health, update_descriptor,
}
use abraxius_lattice.Base.Results.{Result, ok, err}
use abraxius_lattice.Base.Maps.{
  text_key, get, insert, contains_key, key_eq, key_eq→eq, get-insert, get-insert_self,
}
use abraxius_lattice.Base.{
  true, false, Option, none, some, ◌≡◌, ◌⊎◌, inl, inr, refl, ap, ◌∙◌, Option-cases, if-split,
  if-true, if-false, sym, arith,
}

-- What is recorded of a provider's health.
abbrev health_of : Option ProviderDescriptor → Option ProviderHealth
health_of none = none
health_of (some d) = some d.health

contains_none :
    (id : ProviderId) (providers : ProviderRegistry)
    → get id providers ≡ none
    → contains_key id providers ≡ false
unfolding contains_key
contains_none id providers e = rw (e, contains_key) refl

contains_some :
    (id : ProviderId) (providers : ProviderRegistry) {p : ProviderDescriptor}
    → get id providers ≡ some p
    → contains_key id providers ≡ true
unfolding contains_key
contains_some id providers e = rw (e, contains_key) refl

-- Registering under a new identifier succeeds, and under a known one fails and changes nothing.
-- After a success the descriptor is found under its identifier.
get_provider-register :
    (d : ProviderDescriptor) (providers : ProviderRegistry)
    → ((get_provider d.id providers ≡ none)
        × ((register d providers).0 ≡ ok tt)
        × (get_provider d.id (register d providers).1 ≡ some d))
      ⊎ (((register d providers).0 ≡ err (provider_already_registered d.id))
          × ((register d providers).1 ≡ providers))
unfolding get_provider register
get_provider-register d providers = elim (Option-cases (get d.id providers)) [
  | inl e ↦
      let new =
        if-false {b = contains_key d.id providers}
          (err (provider_already_registered d.id), providers) (ok tt, insert d.id d providers)
          (contains_none d.id providers e) in
      inl (
        e,
        ap (λ (r : Result (Unit {0}) ToolFabricError × ProviderRegistry). r.0) new,
        ap (λ (r : Result (Unit {0}) ToolFabricError × ProviderRegistry). get d.id r.1) new
            ∙ get-insert_self d.id d providers,
      )
  | inr (p, e) ↦
      let old =
        if-true {b = contains_key d.id providers}
          (err (provider_already_registered d.id), providers) (ok tt, insert d.id d providers)
          (contains_some d.id providers e) in
      inr (
        ap (λ (r : Result (Unit {0}) ToolFabricError × ProviderRegistry). r.0) old,
        ap (λ (r : Result (Unit {0}) ToolFabricError × ProviderRegistry). r.1) old,
      )
]

update_descriptor-none :
    (d : ProviderDescriptor) (providers : ProviderRegistry)
    → get d.id providers ≡ none
    → (update_descriptor d providers).1 ≡ providers
unfolding update_descriptor
update_descriptor-none d providers e = ground (arith, e)

update_descriptor-some :
    (d c : ProviderDescriptor) (providers : ProviderRegistry)
    → get d.id providers ≡ some c
    → (update_descriptor d providers).1 ≡ insert d.id (with_health c.health d) providers
unfolding update_descriptor
update_descriptor-some d c providers e = ground (arith, e)

health_of-insert :
    (d c : ProviderDescriptor) (providers : ProviderRegistry) (id : ProviderId)
    → get d.id providers ≡ some c
    → health_of (get id (insert d.id (with_health c.health d) providers))
      ≡ health_of (get id providers)
unfolding with_health
health_of-insert d c providers id e =
    ap health_of (get-insert d.id id (with_health c.health d) providers)
    ∙ if-split (λ (o : Option ProviderDescriptor). health_of o ≡ health_of (get id providers))
        (key_eq d.id id)
        (λ same.
          ap health_of (sym e)
          ∙ ap (λ (k : ProviderId). health_of (get k providers)) (key_eq→eq d.id id same))
        (λ other. refl)

-- Whatever `update_descriptor` is given, the health that is recorded of every provider stays.
health_of-update_descriptor :
    (d : ProviderDescriptor) (providers : ProviderRegistry) (id : ProviderId)
    → health_of (get_provider id (update_descriptor d providers).1)
      ≡ health_of (get_provider id providers)
unfolding get_provider
health_of-update_descriptor d providers id = elim (Option-cases (get d.id providers)) [
  | inl e ↦
      ap (λ (m : ProviderRegistry). health_of (get id m)) (update_descriptor-none d providers e)
  | inr (c, e) ↦
      ap (λ (m : ProviderRegistry). health_of (get id m)) (update_descriptor-some d c providers e)
      ∙ health_of-insert d c providers id e
]
