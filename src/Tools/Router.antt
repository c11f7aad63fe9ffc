-- ===== src/Tools/Router.antt =====
-- The router (crates/lattice-tools/src/lib.rs).
use abraxius_lattice.Tools.Types.{
  ToolRef, ToolDescriptor, RoutingRequest, CapabilityTarget, any_target, studio_session,
  studio_environment, cloud_place, workspace_target, CapabilityBinding, ProviderConnectionState,
  connected, degraded_state, ToolFabricError, capability_unavailable, ambiguous_capability,
}
use abraxius_lattice.Tools.Providers.{ProviderRegistry, get_provider}
use abraxius_lattice.Tools.Catalog.{ToolCatalog, active_tools, filter_tools}
use abraxius_lattice.Base.Results.{Result, ok, err}
use abraxius_lattice.Base.Text.{text_eq}
use abraxius_lattice.Base.{Bool, true, false, List, none, some, [], ◌∷◌, ◌==◌, ◌&&◌, ◌||◌}

-- The derived `PartialEq`.
unfoldable pub target_eq : CapabilityTarget → CapabilityTarget → Bool
target_eq any_target any_target = true
target_eq (studio_session a) (studio_session b) = text_eq a b
target_eq (studio_environment a) (studio_environment b) = text_eq a b
target_eq (cloud_place u p) (cloud_place v q) = u == v && p == q
target_eq (workspace_target a) (workspace_target b) = text_eq a b
target_eq _ _ = false

unfoldable pub target_matches : CapabilityTarget → CapabilityTarget → Bool
target_matches binding requested =
    target_eq binding requested || elim binding [ any_target ↦ true | _ ↦ false ]

unfoldable pub is_connected : ProviderConnectionState → Bool
is_connected state = elim state [ connected ↦ true | degraded_state ↦ true | _ ↦ false ]

unfoldable pub has_connected_provider : ProviderRegistry → ToolDescriptor → Bool
has_connected_provider providers tool = elim (get_provider tool.provider_id providers) [
  | none ↦ false
  | some provider ↦ is_connected provider.health.connection_state
]

unfoldable pub is_preferred : RoutingRequest → ToolDescriptor → Bool
is_preferred request tool = elim request.preferred_provider [
  | none ↦ true
  | some provider ↦ text_eq tool.provider_id provider
]

unfoldable pub any_binding : RoutingRequest → List CapabilityBinding → Bool
any_binding request [] = false
any_binding request (b ∷ bs) =
    (text_eq b.capability request.capability && target_matches b.target request.target)
    || any_binding request bs

unfoldable pub offers : RoutingRequest → ToolDescriptor → Bool
offers request tool = any_binding request tool.capabilities

unfoldable pub reference : ToolDescriptor → ToolRef
reference tool = record { provider_id = tool.provider_id; tool_id = tool.id }

unfoldable pub references : List ToolDescriptor → List ToolRef
references [] = []
references (t ∷ ts) = reference t ∷ references ts

unfoldable pub candidates : ToolCatalog → ProviderRegistry → RoutingRequest → List ToolDescriptor
candidates catalog providers request = filter_tools (offers request) (
    filter_tools (is_preferred request)
      (filter_tools (has_connected_provider providers) (active_tools catalog)))

-- The `match` on the candidates.
unfoldable pub choose : RoutingRequest → List ToolRef → Result ToolRef ToolFabricError
choose request [] = err (capability_unavailable request.capability)
choose request (only ∷ []) = ok only
choose request (a ∷ b ∷ rest) = err (ambiguous_capability request.capability (a ∷ b ∷ rest))

unfoldable pub resolve :
    ToolCatalog → ProviderRegistry → RoutingRequest → Result ToolRef ToolFabricError
resolve catalog providers request =
    choose request (references (candidates catalog providers request))
