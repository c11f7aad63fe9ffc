-- ===== src/Connections/Call.antt =====
-- The call of a tool (crates/lattice-connections/src/lib.rs). The catalog, the slots and the store
-- are those that the call finds when it reads them, which other operations may change in between.
-- Fresh identifiers, times and what the provider answers are arguments; the duration that the caller
-- may give only decides when the answer is that the time is over.
pub mod Guards
pub mod Delivery
use abraxius_lattice.Connections.Types.{
  ProviderCallResult, PolicyRequest, PolicyDecision, Policy, InvocationStatus, call_succeeded,
  call_failed, call_cancelled, call_timed_out, ToolInvocationResult, ResultRef, BrokerError,
  provider_unavailable, tool_not_found, tool_unavailable, policy_denied, result_too_large, fabric,
  json_failed, Timed, finished, expired, show_provider_error,
}
use abraxius_lattice.Connections.Store.{ResultStore, StoreOps, put}
use abraxius_lattice.Connections.Broker.{Slots, ProviderSlot, is_connected_slot}
use abraxius_lattice.Tools.Types.{
  ToolRef, ToolDescriptor, SchemaRevision, SchemaRecord, ContentHash, LatticeId, Value,
}
use abraxius_lattice.Tools.Catalog.{ToolCatalog, get_tool, schema, is_available}
use abraxius_lattice.Tools.Schema.{validate_tool_input}
use abraxius_lattice.Base.Results.{Result, ok, err, and_then, map_err, ok_or}
use abraxius_lattice.Base.Text.{Text, codes}
use abraxius_lattice.Base.Maps.{text_key, get}
use abraxius_lattice.Base.{
  Bool, true, false, not, List, Option, none, some, ℕ, min, ltb, leb, length, u64_max,
  if◌then◌else◌,
}

-- `inline_limit` and `result_limit` of the broker.
abbrev pub inline_limit : ℕ
inline_limit = 65536

abbrev pub result_limit : ℕ
result_limit = 67108864

-- `serde_json::to_vec`, and what the store calls.
pub record CallOps : Type 0 where
  pub to_vec : Value → Result (List ℕ) Text
  pub store_ops : StoreOps

-- What every result of one call has in common.
pub record CallHeader : Type 0 where
  pub operation_id : LatticeId
  pub tool_ref : ToolRef
  pub schema_revision : SchemaRevision
  pub arguments_hash : ContentHash
  pub started_at_unix_ms : ℕ

-- Under the lock of the catalog: the tool and its schema are there and the arguments fit.
unfoldable pub find_tool : ToolRef → Value → ToolCatalog → Result ToolDescriptor BrokerError
find_tool tool_ref arguments catalog =
    and_then (ok_or (get_tool tool_ref catalog) tool_not_found) (λ (tool : ToolDescriptor).
      and_then (ok_or (schema tool.input_schema catalog) tool_not_found) (λ (s : SchemaRecord).
        and_then (map_err fabric (validate_tool_input s.normalized_schema arguments))
          (λ _. ok tool)))

unfoldable pub check_available : ToolDescriptor → Result (Unit {0}) BrokerError
check_available tool = if not (is_available tool) then err tool_unavailable else ok tt

unfoldable pub check_policy : PolicyDecision → Result (Unit {0}) BrokerError
check_policy decision = if not decision.allowed then err (policy_denied decision.reason) else ok tt

unfoldable pub policy_request : Text → ToolRef → SchemaRevision → ContentHash → PolicyRequest
policy_request caller tool_ref schema_revision arguments_hash = record {
  caller = caller;
  provider_id = tool_ref.provider_id;
  tool_ref = tool_ref;
  schema_revision = schema_revision;
  arguments_hash = arguments_hash;
}

unfoldable pub check_slot : ToolRef → Slots → Result (Unit {0}) BrokerError
check_slot tool_ref slots =
    and_then (ok_or (get tool_ref.provider_id slots) (provider_unavailable tool_ref.provider_id))
      (λ (s : ProviderSlot). is_connected_slot tool_ref.provider_id s)

-- The guards of `call`, in their order: what the call may go on with.
unfoldable pub admit_call :
    CallOps
    → Policy
    → Text
    → ToolRef
    → Value
    → LatticeId
    → ℕ
    → ToolCatalog
    → Slots
    → Result CallHeader BrokerError
admit_call ops policy caller tool_ref arguments operation_id started_at catalog slots =
    and_then (map_err json_failed (ops.to_vec arguments)) (λ (encoded : List ℕ).
      let arguments_hash = ops.store_ops.content_hash encoded in
      and_then (find_tool tool_ref arguments catalog) (λ (tool : ToolDescriptor).
        and_then (check_available tool) (λ _.
          and_then
            (check_policy
              (policy (policy_request caller tool_ref tool.input_schema arguments_hash)))
            (λ _. and_then (check_slot tool_ref slots) (λ _. ok (record {
              operation_id = operation_id;
              tool_ref = tool_ref;
              schema_revision = tool.input_schema;
              arguments_hash = arguments_hash;
              started_at_unix_ms = started_at;
            }))))))

unfoldable pub terminal_result : CallHeader → InvocationStatus → Text → ℕ → ToolInvocationResult
terminal_result header status error finished_at = record {
  operation_id = header.operation_id;
  tool_ref = header.tool_ref;
  provider_id = header.tool_ref.provider_id;
  schema_revision = header.schema_revision;
  arguments_hash = header.arguments_hash;
  started_at_unix_ms = header.started_at_unix_ms;
  finished_at_unix_ms = finished_at;
  status = status;
  inline = none;
  result_ref = none;
  byte_len = 0;
  content_type = none;
  error = some error;
  cancellation_supported = none;
}

-- The token of the call, if it has one: whether it is raised before the request is sent, and whether
-- it is raised before the request ends.
pub data Cancellation : Type 0 where
  no_token : Cancellation
  token : Bool → Bool → Cancellation

-- `OperationCancellation`: the value of its channel.
pub record OperationCancellation : Type 0 where
  pub raised : Bool

unfoldable pub default_cancellation : OperationCancellation
default_cancellation = record { raised = false }

unfoldable pub cancel : OperationCancellation → OperationCancellation
cancel c = record { raised = true }

-- The token that a call is given, and whether it is raised before the request ends.
unfoldable pub cancellation_of : Option OperationCancellation → Bool → Cancellation
cancellation_of none raised_later = no_token
cancellation_of (some c) raised_later = token c.raised raised_later

-- The reason that the call is cancelled for.
unfoldable pub cancelled_by : Cancellation → Option Text
cancelled_by no_token = none
cancelled_by (token true _) = some (codes "operation cancelled before dispatch")
cancelled_by (token false true) = some (codes "cancellation requested; provider future was dropped")
cancelled_by (token false false) = none

unfoldable pub succeeded_result :
    CallHeader → ProviderCallResult → Option Value → Option ResultRef → ℕ → ℕ → ToolInvocationResult
succeeded_result header result inline result_ref byte_len finished_at = record {
  operation_id = header.operation_id;
  tool_ref = header.tool_ref;
  provider_id = header.tool_ref.provider_id;
  schema_revision = header.schema_revision;
  arguments_hash = header.arguments_hash;
  started_at_unix_ms = header.started_at_unix_ms;
  finished_at_unix_ms = finished_at;
  status = call_succeeded;
  inline = inline;
  result_ref = result_ref;
  byte_len = byte_len;
  content_type = some result.content_type;
  error = none;
  cancellation_supported = some result.cancellation_supported;
}

abbrev pub Outcome : Type 0
Outcome = Result ToolInvocationResult BrokerError × ResultStore

-- What the provider gave back, in its encoding: a small value stays inline, a larger one is stored,
-- and one over the limit is refused.
unfoldable pub deliver :
    CallOps
    → CallHeader
    → ProviderCallResult
    → Result (List ℕ) Text
    → LatticeId
    → ℕ
    → ResultStore
    → Outcome
deliver ops header result (err e) id finished_at store = (err (json_failed e), store)
deliver ops header result (ok encoded) id finished_at store =
    let byte_len = min (length encoded) u64_max in
    let (stored, store') = put ops.store_ops id encoded result.content_type store in
    if ltb result_limit (length encoded)
    then (err (result_too_large (length encoded)), store)
    else if leb (length encoded) inline_limit
    then (
      ok (succeeded_result header result (some result.structured) none byte_len finished_at),
      store,
    )
    else (
      ok (succeeded_result header result none (some stored.reference) byte_len finished_at),
      store',
    )

unfoldable pub finish_response :
    CallOps → CallHeader → Timed ProviderCallResult → LatticeId → ℕ → ResultStore → Outcome
finish_response ops header (finished (ok result)) id finished_at store =
    deliver ops header result (ops.to_vec result.structured) id finished_at store
finish_response ops header (finished (err e)) id finished_at store =
    (ok (terminal_result header call_failed (show_provider_error e) finished_at), store)
finish_response ops header expired id finished_at store = (
  ok (
      terminal_result header call_timed_out
        (codes "provider operation timed out; underlying cancellation is not guaranteed")
        finished_at),
  store,
)

unfoldable pub finish_call :
    CallOps
    → CallHeader
    → Option Text
    → Timed ProviderCallResult
    → LatticeId
    → ℕ
    → ResultStore
    → Outcome
finish_call ops header (some reason) answer id finished_at store =
    (ok (terminal_result header call_cancelled reason finished_at), store)
finish_call ops header none answer id finished_at store =
    finish_response ops header answer id finished_at store

unfoldable pub call :
    CallOps
    → Policy
    → Text
    → ToolRef
    → Value
    → Cancellation
    → LatticeId
    → ℕ
    → ToolCatalog
    → Slots
    → Timed ProviderCallResult
    → LatticeId
    → ℕ
    → ResultStore
    → Outcome
call ops policy caller tool_ref arguments cancellation operation_id started_at catalog slots answer
      id finished_at store =
    elim (admit_call ops policy caller tool_ref arguments operation_id started_at catalog slots) [
      | err e ↦ (err e, store)
      | ok header ↦ finish_call ops header (cancelled_by cancellation) answer id finished_at store
    ]
