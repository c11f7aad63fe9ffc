-- ===== src/Connections/Call/Guards.antt =====
-- What has to hold before a provider is asked (crates/lattice-connections/src/lib.rs).
use abraxius_lattice.Connections.Types.{
  ProviderConnection, ProviderCallResult, PolicyDecision, Policy, BrokerError, provider_unavailable,
  tool_not_found, fabric, json_failed, Timed,
}
use abraxius_lattice.Connections.Store.{ResultStore}
use abraxius_lattice.Connections.Broker.{Slots, ProviderSlot, is_connected_slot}
use abraxius_lattice.Connections.Call.{
  CallOps, CallHeader, find_tool, check_available, check_policy, policy_request, check_slot,
  admit_call, Cancellation, cancelled_by, finish_call, call, Outcome,
}
use abraxius_lattice.Tools.Types.{
  ToolRef, ToolDescriptor, SchemaRecord, ContentHash, LatticeId, Value,
}
use abraxius_lattice.Tools.Catalog.{ToolCatalog, get_tool, schema, is_available}
use abraxius_lattice.Tools.Schema.{validate_tool_input}
use abraxius_lattice.Base.Results.{
  Result, ok, err, map_err, ok_or, Result-cases, and_then-eq-ok, ok_or-eq-ok, map_err-eq-ok,
}
use abraxius_lattice.Base.Text.{Text}
use abraxius_lattice.Base.Maps.{text_key, get}
use abraxius_lattice.Base.{true, List, some, ℕ, ◌≡◌, ◌⊎◌, inl, inr, sym, ap, ◌∙◌, arith}

-- The tool is in the catalog and available, and its schema is there and accepts the arguments.
abbrev pub IsCallable : ToolRef → Value → ToolCatalog → ToolDescriptor → Type 0
IsCallable tool_ref arguments catalog tool =
    (get_tool tool_ref catalog ≡ some tool)
    × (is_available tool ≡ true)
    × ((s : SchemaRecord) × (schema tool.input_schema catalog ≡ some s)
        × (validate_tool_input s.normalized_schema arguments ≡ ok tt))

-- The provider of the tool is connected.
abbrev pub IsReachable : ToolRef → Slots → Type 0
IsReachable tool_ref slots =
    (s : ProviderSlot) × (connection : ProviderConnection) × (get tool_ref.provider_id slots
      ≡ some s)
    × (s.connection ≡ some connection)

-- The policy allows to call the tool with arguments of this hash.
abbrev pub IsAllowed : Policy → Text → ToolRef → ToolDescriptor → ContentHash → Type 0
IsAllowed policy caller tool_ref tool arguments_hash =
    (policy (policy_request caller tool_ref tool.input_schema arguments_hash)).allowed ≡ true

-- All that a call needs.
abbrev pub IsAdmitted : CallOps → Policy → Text → ToolRef → Value → ToolCatalog → Slots → Type 0
IsAdmitted ops policy caller tool_ref arguments catalog slots =
    (encoded : List ℕ) × (tool : ToolDescriptor) × (ops.to_vec arguments ≡ ok encoded)
    × IsCallable tool_ref arguments catalog tool
    × IsAllowed policy caller tool_ref tool (ops.store_ops.content_hash encoded)
    × IsReachable tool_ref slots

check_available-ok :
    (tool : ToolDescriptor) {u : Unit {0}} → check_available tool ≡ ok u → is_available tool ≡ true
unfolding check_available
check_available-ok tool {u} h = grind arith

check_policy-ok :
    (decision : PolicyDecision) {u : Unit {0}}
    → check_policy decision ≡ ok u
    → decision.allowed ≡ true
unfolding check_policy
check_policy-ok decision {u} h = grind arith

find_tool-ok :
    (tool_ref : ToolRef) (arguments : Value) (catalog : ToolCatalog) {tool : ToolDescriptor}
    → find_tool tool_ref arguments catalog ≡ ok tool
    → (get_tool tool_ref catalog ≡ some tool)
      × ((s : SchemaRecord) × (schema tool.input_schema catalog ≡ some s)
          × (validate_tool_input s.normalized_schema arguments ≡ ok tt))
unfolding find_tool
find_tool-ok tool_ref arguments catalog {tool} h =
    let (found, e, h) = and_then-eq-ok (ok_or (get_tool tool_ref catalog) tool_not_found) _ h in
    let (s, e', h) =
      and_then-eq-ok (ok_or (schema found.input_schema catalog) tool_not_found) _ h in
    let (u, e'', h) =
      and_then-eq-ok (map_err fabric (validate_tool_input s.normalized_schema arguments)) _ h in
    let same : found ≡ tool = cc in
    (
      ok_or-eq-ok (get_tool tool_ref catalog) tool_not_found e
          ∙ ap (λ (t : ToolDescriptor). some t) same,
      (
        s,
        ap (λ (t : ToolDescriptor). schema t.input_schema catalog) (sym same)
            ∙ ok_or-eq-ok (schema found.input_schema catalog) tool_not_found e',
        map_err-eq-ok fabric (validate_tool_input s.normalized_schema arguments) e'',
      ),
    )

connected_slot :
    (tool_ref : ToolRef) (s : ProviderSlot) {u : Unit {0}}
    → is_connected_slot tool_ref.provider_id s ≡ ok u
    → (connection : ProviderConnection) × (s.connection ≡ some connection)
unfolding is_connected_slot
connected_slot tool_ref s h =
    let (connection, e, _) =
      and_then-eq-ok (ok_or s.connection (provider_unavailable tool_ref.provider_id)) _ h in
    (connection, ok_or-eq-ok s.connection _ e)

check_slot-IsReachable :
    (tool_ref : ToolRef) (slots : Slots) {u : Unit {0}}
    → check_slot tool_ref slots ≡ ok u
    → IsReachable tool_ref slots
unfolding check_slot
check_slot-IsReachable tool_ref slots h =
    let (s, e, h) =
      and_then-eq-ok
        (ok_or (get tool_ref.provider_id slots) (provider_unavailable tool_ref.provider_id)) _ h in
    let (connection, e') = connected_slot tool_ref s h in
    (s, connection, ok_or-eq-ok (get tool_ref.provider_id slots) _ e, e')

admit_call-IsAdmitted :
    (ops : CallOps) (policy : Policy) (caller : Text) (tool_ref : ToolRef) (arguments : Value)
    (operation_id : LatticeId) (started_at : ℕ) (catalog : ToolCatalog) (slots : Slots)
    {header : CallHeader}
    → admit_call ops policy caller tool_ref arguments operation_id started_at catalog slots
      ≡ ok header
    → IsAdmitted ops policy caller tool_ref arguments catalog slots
unfolding admit_call
admit_call-IsAdmitted ops policy caller tool_ref arguments operation_id started_at catalog slots h =
    let (encoded, e, h) = and_then-eq-ok (map_err json_failed (ops.to_vec arguments)) _ h in
    let (tool, e1, h) = and_then-eq-ok (find_tool tool_ref arguments catalog) _ h in
    let (_, e2, h) = and_then-eq-ok (check_available tool) _ h in
    let (_, e3, h) =
      and_then-eq-ok
        (check_policy (
          policy (
            policy_request caller tool_ref tool.input_schema (ops.store_ops.content_hash encoded))))
        _ h in
    let (_, e4, h) = and_then-eq-ok (check_slot tool_ref slots) _ h in
    let (there, fits) = find_tool-ok tool_ref arguments catalog e1 in
    (
      encoded,
      tool,
      map_err-eq-ok json_failed (ops.to_vec arguments) e,
      (there, check_available-ok tool e2, fits),
      check_policy-ok _ e3,
      check_slot-IsReachable tool_ref slots e4,
    )

-- Either the tool is in the catalog and available, its schema accepts the arguments, the policy
-- allows the call and the tool's provider is connected; or the call fails with an error that no
-- provider has a part in: it is the same whatever would be answered, and nothing is stored.
pub call-IsAdmitted :
    (ops : CallOps) (policy : Policy) (caller : Text) (tool_ref : ToolRef) (arguments : Value)
    (cancellation : Cancellation) (operation_id : LatticeId) (started_at : ℕ)
    (catalog : ToolCatalog) (slots : Slots)
    → IsAdmitted ops policy caller tool_ref arguments catalog slots
      ⊎ ((e : BrokerError) × ((answer : Timed ProviderCallResult) (id : LatticeId) (finished_at : ℕ)
              (store : ResultStore)
            → call ops policy caller tool_ref arguments cancellation operation_id started_at catalog
                slots answer id finished_at store
              ≡ (err e, store)))
unfolding call
call-IsAdmitted ops policy caller tool_ref arguments cancellation operation_id started_at catalog
      slots =
    elim (Result-cases
      (admit_call ops policy caller tool_ref arguments operation_id started_at catalog slots)) [
        | inl (header, e) ↦ inl (
            admit_call-IsAdmitted ops policy caller tool_ref arguments operation_id started_at
              catalog slots e)
        | inr (x, e) ↦ inr (
          x,
          λ answer id finished_at store.
              ap
                (λ (o : Result CallHeader BrokerError). elim o as (λ _. Outcome) [
                  | err e ↦ (err e, store)
                  | ok header ↦
                      finish_call ops header (cancelled_by cancellation) answer id finished_at store
                ])
                e,
        )
      ]
