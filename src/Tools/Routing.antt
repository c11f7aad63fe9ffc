-- ===== src/Tools/Routing.antt =====
-- What the router chooses (crates/lattice-tools/src/lib.rs).
use abraxius_lattice.Tools.Types.{
  ToolRef, ToolDescriptor, RoutingRequest, capability_unavailable, ProviderId, ProviderDescriptor,
  connected, degraded_state, CapabilityBinding, any_target, available,
}
use abraxius_lattice.Tools.Reflect.{is_available_iff, target_matches_iff, is_connected_iff}
use abraxius_lattice.Tools.Providers.{ProviderRegistry, get_provider}
use abraxius_lattice.Tools.Catalog.{ToolCatalog, active_tools, filter_tools, is_available}
use abraxius_lattice.Tools.Router.{
  has_connected_provider, is_preferred, offers, any_binding, target_matches, reference, references,
  candidates, choose, resolve,
}
use abraxius_lattice.Base.Results.{ok, err}
use abraxius_lattice.Base.Maps.{values, text_key, get}
use abraxius_lattice.Base.Text.{text_eq, text_eq_iff}
use abraxius_lattice.Base.{
  arith, Bool, true, ◌&&◌, some, Option-cases, List, [], ◌∷◌, ◌≡◌, ◌⊎◌, inl, inr, ◌↔◌, refl, sym,
  ap, subst, ◌∙◌, if-split, Bool-cases, if-true, if-false,
}

-- The tool stands in the list.
abbrev pub In : ToolDescriptor → List ToolDescriptor → Type 0
In t [] = ⊥
In t (u ∷ us) = (t ≡ u) ⊎ In t us

filter_tools→In :
    (p : ToolDescriptor → Bool) (t : ToolDescriptor) (ts : List ToolDescriptor)
    → In t (filter_tools p ts)
    → In t ts × (p t ≡ true)
unfolding filter_tools
filter_tools→In p t [] h = absurd h
filter_tools→In p t (u ∷ us) h = elim (Bool-cases (p u)) [
  | inl e ↦ elim (subst (λ (l : List ToolDescriptor). In t l) (if-true _ _ e) h) [
    | inl same ↦ (inl same, ap p same ∙ e)
    | inr later ↦ let (i, q) = filter_tools→In p t us later in (inr i, q)
  ]
  | inr e ↦
      let (i, q) =
        filter_tools→In p t us (subst (λ (l : List ToolDescriptor). In t l) (if-false _ _ e) h) in
      (inr i, q)
]

In→filter_tools :
    (p : ToolDescriptor → Bool) (t : ToolDescriptor) (ts : List ToolDescriptor)
    → In t ts
    → p t ≡ true
    → In t (filter_tools p ts)
unfolding filter_tools
In→filter_tools p t [] h q = absurd h
In→filter_tools p t (u ∷ us) (inl same) q =
    subst (λ (l : List ToolDescriptor). In t l) (sym (if-true _ _ (ap p (sym same) ∙ q))) (inl same)
In→filter_tools p t (u ∷ us) (inr later) q =
    if-split (λ (l : List ToolDescriptor). In t l) (p u) (λ e. inr (In→filter_tools p t us later q))
      (λ e. In→filter_tools p t us later q)

-- The provider of the tool is registered, and is connected or degraded.
abbrev pub IsServed : ProviderRegistry → ToolDescriptor → Type 0
IsServed providers t =
    (p : ProviderDescriptor) × (get t.provider_id providers ≡ some p)
    × ((p.health.connection_state ≡ connected) ⊎ (p.health.connection_state ≡ degraded_state))

-- If the request prefers a provider, it is that of the tool.
abbrev pub IsWanted : RoutingRequest → ToolDescriptor → Type 0
IsWanted request t = (q : ProviderId) → request.preferred_provider ≡ some q → t.provider_id ≡ q

-- One of the bindings is for the capability, at any target or at that of the request.
abbrev pub Binds : RoutingRequest → List CapabilityBinding → Type 0
Binds request [] = ⊥
Binds request (b ∷ bs) =
    ((b.capability ≡ request.capability) × ((b.target ≡ any_target) ⊎ (b.target ≡ request.target)))
    ⊎ Binds request bs

-- The tool is in the catalog and available, its provider is connected or degraded and is the
-- preferred one, and it has the capability at the target.
abbrev pub IsCandidate : ToolCatalog → ProviderRegistry → RoutingRequest → ToolDescriptor → Type 0
IsCandidate catalog providers request t =
    In t (values catalog.tools)
    × ((t.availability ≡ available)
        × (IsServed providers t × (IsWanted request t × Binds request t.capabilities)))

has_connected_provider_iff :
    (providers : ProviderRegistry) (t : ToolDescriptor)
    → (has_connected_provider providers t ≡ true) ↔ IsServed providers t
unfolding has_connected_provider get_provider
has_connected_provider_iff providers t = (
  λ h. elim (Option-cases (get t.provider_id providers)) [
    | inl e ↦ absurd (ground (arith, e))
    | inr (p, e) ↦ (p, e, (is_connected_iff p.health.connection_state).0 (ground (arith, e, h)))
  ],
  λ (p, e, c).
      let serves = (is_connected_iff p.health.connection_state).1 c in ground (arith, e, serves),
)

is_preferred_iff :
    (request : RoutingRequest) (t : ToolDescriptor)
    → (is_preferred request t ≡ true) ↔ IsWanted request t
unfolding is_preferred
is_preferred_iff request t = (
  λ h q e. (text_eq_iff t.provider_id q).0 (ground (arith, e, h)),
  λ w. elim (Option-cases request.preferred_provider) [
    | inl e ↦ ground (arith, e)
    | inr (q, e) ↦ let same = (text_eq_iff t.provider_id q).1 (w q e) in ground (arith, e, same)
  ],
)

binding_iff :
    (request : RoutingRequest) (b : CapabilityBinding)
    → ((text_eq b.capability request.capability && target_matches b.target request.target) ≡ true)
      ↔ ((b.capability ≡ request.capability)
          × ((b.target ≡ any_target) ⊎ (b.target ≡ request.target)))
binding_iff request b = (
  λ h. (
    (text_eq_iff b.capability request.capability).0 (ground (arith, h)),
    (target_matches_iff b.target request.target).0 (ground (arith, h)),
  ),
  λ (c, m).
      let own = (text_eq_iff b.capability request.capability).1 c in
      let at = (target_matches_iff b.target request.target).1 m in ground (arith, own, at),
)

any_binding_iff :
    (request : RoutingRequest) (bs : List CapabilityBinding)
    → (any_binding request bs ≡ true) ↔ Binds request bs
unfolding any_binding
any_binding_iff request [] = (λ h. cc, λ h. absurd h)
any_binding_iff request (b ∷ bs) =
    let fits = text_eq b.capability request.capability && target_matches b.target request.target in
    (
      λ h. elim (Bool-cases fits) [
        | inl e ↦ inl ((binding_iff request b).0 e)
        | inr e ↦ inr ((any_binding_iff request bs).0 (ground (arith, e, h)))
      ],
      λ h. elim h [
        | inl own ↦ let e = (binding_iff request b).1 own in ground (arith, e)
        | inr later ↦ let e = (any_binding_iff request bs).1 later in ground (arith, e)
      ],
    )

candidates_iff :
    (catalog : ToolCatalog) (providers : ProviderRegistry) (request : RoutingRequest)
    (t : ToolDescriptor)
    → In t (candidates catalog providers request) ↔ IsCandidate catalog providers request t
unfolding candidates active_tools offers
candidates_iff catalog providers request t = (
  λ h.
      let (h1, o) = filter_tools→In (offers request) t _ h in
      let (h2, r) = filter_tools→In (is_preferred request) t _ h1 in
      let (h3, c) = filter_tools→In (has_connected_provider providers) t _ h2 in
      let (h4, a) = filter_tools→In is_available t _ h3 in
      (
        h4,
        (
          (is_available_iff t).0 a,
          (
            (has_connected_provider_iff providers t).0 c,
            ((is_preferred_iff request t).0 r, (any_binding_iff request t.capabilities).0 o),
          ),
        ),
      ),
  λ (i, (a, (c, (r, o)))).
      In→filter_tools (offers request) t _
        (In→filter_tools (is_preferred request) t _
          (In→filter_tools (has_connected_provider providers) t _
            (In→filter_tools is_available t _ i ((is_available_iff t).1 a))
            ((has_connected_provider_iff providers t).1 c))
          ((is_preferred_iff request t).1 r))
        ((any_binding_iff request t.capabilities).1 o),
)

choose-eq-ok :
    (request : RoutingRequest) (ts : List ToolDescriptor) {r : ToolRef}
    → choose request (references ts) ≡ ok r
    → (t : ToolDescriptor) × (ts ≡ t ∷ []) × (r ≡ reference t)
unfolding choose references
choose-eq-ok request [] h = cc
choose-eq-ok request (t ∷ []) h = (t, refl, cc)
choose-eq-ok request (t ∷ u ∷ us) h = cc

-- When `resolve` succeeds, the reference is that of an available tool of the catalog whose provider
-- is connected or degraded, is the preferred one if one is preferred, and which offers the
-- capability at the target; and there is no other such tool.
pub resolve-eq-ok :
    (catalog : ToolCatalog) (providers : ProviderRegistry) (request : RoutingRequest) (r : ToolRef)
    → resolve catalog providers request ≡ ok r
    → (t : ToolDescriptor) × (IsCandidate catalog providers request t
        × ((r ≡ reference t)
            × ((u : ToolDescriptor) → IsCandidate catalog providers request u → u ≡ t)))
unfolding resolve
resolve-eq-ok catalog providers request r h =
    let (t, one, e) = choose-eq-ok request (candidates catalog providers request) h in
    (
      t,
      (
        (candidates_iff catalog providers request t).0
            (subst (λ (l : List ToolDescriptor). In t l) (sym one) (inl refl)),
        (
          e,
          λ u c.
              elim (subst (λ (l : List ToolDescriptor). In u l) one
                ((candidates_iff catalog providers request u).1 c)) [
                  | inl same ↦ same
                  | inr more ↦ absurd more
                ],
        ),
      ),
    )

choose_unavailable :
    (request : RoutingRequest) (ts : List ToolDescriptor)
    → choose request (references ts) ≡ err (capability_unavailable request.capability)
    → ts ≡ []
unfolding choose references
choose_unavailable request [] h = refl
choose_unavailable request (t ∷ []) h = cc
choose_unavailable request (t ∷ u ∷ us) h = cc

-- When `resolve` says that the capability is unavailable, no tool of the catalog passes the tests.
pub resolve_unavailable :
    (catalog : ToolCatalog) (providers : ProviderRegistry) (request : RoutingRequest)
    (t : ToolDescriptor)
    → resolve catalog providers request ≡ err (capability_unavailable request.capability)
    → ¬ IsCandidate catalog providers request t
unfolding resolve
resolve_unavailable catalog providers request t h c =
    subst (λ (l : List ToolDescriptor). In t l)
      (choose_unavailable request (candidates catalog providers request) h)
      ((candidates_iff catalog providers request t).1 c)
