-- ===== src/Tools/Reflect.antt =====
-- What the tests of the router say (crates/lattice-tools/src/lib.rs).
use abraxius_lattice.Tools.Types.{
  ToolDescriptor, CapabilityTarget, any_target, studio_session, studio_environment, cloud_place,
  workspace_target, ProviderConnectionState, configured, unavailable_state, discovering, connecting,
  initializing, connected, degraded_state, reconnecting, disconnected, failed_state, disabled,
  ToolAvailability, available, stale, unavailable, quarantined,
}
use abraxius_lattice.Tools.Catalog.{is_available}
use abraxius_lattice.Tools.Router.{target_eq, target_matches, is_connected}
use abraxius_lattice.Base.Text.{text_eq_iff}
use abraxius_lattice.Base.{
  Bool, true, false, ◌||◌, ◌≡◌, ◌⊎◌, inl, inr, ◌↔◌, refl, sym, ap, ap₂, ◌∙◌, arith, Bool-cases,
  ==-self,
}

available_only :
    (a : ToolAvailability)
    → (elim a as (λ _. Bool) [
      | available ↦ true
      | stale ↦ false
      | unavailable ↦ false
      | quarantined ↦ false
    ]
        ≡ true)
    → a ≡ available
available_only available h = refl
available_only stale h = cc
available_only unavailable h = cc
available_only quarantined h = cc

pub is_available_iff : (t : ToolDescriptor) → (is_available t ≡ true) ↔ (t.availability ≡ available)
unfolding is_available
is_available_iff t = (λ h. available_only t.availability h, λ e. rw (e, is_available) refl)

is_connected→ :
    (s : ProviderConnectionState) → is_connected s ≡ true → (s ≡ connected) ⊎ (s ≡ degraded_state)
unfolding is_connected
is_connected→ configured h = cc
is_connected→ unavailable_state h = cc
is_connected→ discovering h = cc
is_connected→ connecting h = cc
is_connected→ initializing h = cc
is_connected→ connected h = inl refl
is_connected→ degraded_state h = inr refl
is_connected→ reconnecting h = cc
is_connected→ disconnected h = cc
is_connected→ failed_state h = cc
is_connected→ disabled h = cc

pub is_connected_iff :
    (s : ProviderConnectionState)
    → (is_connected s ≡ true) ↔ ((s ≡ connected) ⊎ (s ≡ degraded_state))
unfolding is_connected
is_connected_iff s =
    (is_connected→ s, λ h. elim h [ inl e ↦ ap is_connected e | inr e ↦ ap is_connected e ])

target_eq→eq : (a b : CapabilityTarget) → target_eq a b ≡ true → a ≡ b
unfolding target_eq
target_eq→eq any_target any_target h = refl
target_eq→eq any_target (studio_session b) h = cc
target_eq→eq any_target (studio_environment b) h = cc
target_eq→eq any_target (cloud_place b b2) h = cc
target_eq→eq any_target (workspace_target b) h = cc
target_eq→eq (studio_session a) any_target h = cc
target_eq→eq (studio_session a) (studio_session b) h = ap studio_session ((text_eq_iff a b).0 h)
target_eq→eq (studio_session a) (studio_environment b) h = cc
target_eq→eq (studio_session a) (cloud_place b b2) h = cc
target_eq→eq (studio_session a) (workspace_target b) h = cc
target_eq→eq (studio_environment a) any_target h = cc
target_eq→eq (studio_environment a) (studio_session b) h = cc
target_eq→eq (studio_environment a) (studio_environment b) h =
    ap studio_environment ((text_eq_iff a b).0 h)
target_eq→eq (studio_environment a) (cloud_place b b2) h = cc
target_eq→eq (studio_environment a) (workspace_target b) h = cc
target_eq→eq (cloud_place a a2) any_target h = cc
target_eq→eq (cloud_place a a2) (studio_session b) h = cc
target_eq→eq (cloud_place a a2) (studio_environment b) h = cc
target_eq→eq (cloud_place a a2) (cloud_place b b2) h =
    ap₂ cloud_place (ground (arith, h)) (ground (arith, h))
target_eq→eq (cloud_place a a2) (workspace_target b) h = cc
target_eq→eq (workspace_target a) any_target h = cc
target_eq→eq (workspace_target a) (studio_session b) h = cc
target_eq→eq (workspace_target a) (studio_environment b) h = cc
target_eq→eq (workspace_target a) (cloud_place b b2) h = cc
target_eq→eq (workspace_target a) (workspace_target b) h =
    ap workspace_target ((text_eq_iff a b).0 h)

target_eq_self : (a : CapabilityTarget) → target_eq a a ≡ true
unfolding target_eq
target_eq_self any_target = refl
target_eq_self (studio_session a) = (text_eq_iff a a).1 refl
target_eq_self (studio_environment a) = (text_eq_iff a a).1 refl
target_eq_self (cloud_place a a2) = ground (arith, ==-self a, ==-self a2)
target_eq_self (workspace_target a) = (text_eq_iff a a).1 refl

any_target_only :
    (a : CapabilityTarget)
    → (elim a as (λ _. Bool) [ any_target ↦ true | _ ↦ false ] ≡ true)
    → a ≡ any_target
any_target_only any_target h = refl
any_target_only (studio_session a) h = cc
any_target_only (studio_environment a) h = cc
any_target_only (cloud_place a a2) h = cc
any_target_only (workspace_target a) h = cc

pub target_matches_iff :
    (a b : CapabilityTarget) → (target_matches a b ≡ true) ↔ ((a ≡ any_target) ⊎ (a ≡ b))
unfolding target_matches
target_matches_iff a b = (
  λ h. elim (Bool-cases (target_eq a b)) [
    | inl e ↦ inr (target_eq→eq a b e)
    | inr e ↦ inl (any_target_only a (ground (arith, e, h)))
  ],
  λ h. elim h [
    | inl e ↦ ap (λ (x : CapabilityTarget). target_matches x b) e ∙ any_always
    | inr e ↦ let same = ap (target_eq a) (sym e) ∙ target_eq_self a in ground (arith, same)
  ],
)
  where
    any_always : (target_eq any_target b || true) ≡ true
    any_always = ground arith
