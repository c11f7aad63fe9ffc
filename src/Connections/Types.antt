-- ===== src/Connections/Types.antt =====
-- The data of the connection broker (crates/lattice-connections/src/lib.rs). The clock's times are
-- natural. An error of `serde_json` stands as its text.
use abraxius_lattice.Tools.Types.{
  ProviderId, ToolRef, SchemaRevision, ContentHash, LatticeId, Value, ToolFabricError,
}
use abraxius_lattice.Base.Results.{Result, ok, err}
use abraxius_lattice.Base.Text.{Text, codes}
use abraxius_lattice.Base.{Bool, false, List, Option, ◌++◌, ℕ}

pub record ProviderConnection : Type 0 where
  pub id : LatticeId
  pub provider_id : ProviderId
  pub endpoint_identity : Text
  pub connected_at_unix_ms : ℕ

pub record ProviderCallResult : Type 0 where
  pub structured : Value
  pub content_type : Text
  pub cancellation_supported : Bool

pub record PolicyRequest : Type 0 where
  pub caller : Text
  pub provider_id : ProviderId
  pub tool_ref : ToolRef
  pub schema_revision : SchemaRevision
  pub arguments_hash : ContentHash

pub record PolicyDecision : Type 0 where
  pub allowed : Bool
  pub reason : Text

-- A `PolicyEnforcer`, which is code of whoever builds the broker.
abbrev pub Policy : Type 0
Policy = PolicyRequest → PolicyDecision

unfoldable pub deny_all_policy : Policy
deny_all_policy request = record {
  allowed = false;
  reason = codes "deny-by-default: no execution policy is configured";
}

abbrev pub ResultRef : Type 0
ResultRef = Text

unfoldable pub new_result_ref : (LatticeId → Text) → LatticeId → ResultRef
new_result_ref show_id id = codes "lattice://result/" ++ show_id id

pub record StoredResult : Type 0 where
  pub reference : ResultRef
  pub content_hash : ContentHash
  pub content_type : Text
  pub bytes : List ℕ

pub data InvocationStatus : Type 0 where
  call_succeeded : InvocationStatus
  call_failed : InvocationStatus
  call_cancelled : InvocationStatus
  call_timed_out : InvocationStatus

pub record ToolInvocationResult : Type 0 where
  pub operation_id : LatticeId
  pub tool_ref : ToolRef
  pub provider_id : ProviderId
  pub schema_revision : SchemaRevision
  pub arguments_hash : ContentHash
  pub started_at_unix_ms : ℕ
  pub finished_at_unix_ms : ℕ
  pub status : InvocationStatus
  pub inline : Option Value
  pub result_ref : Option ResultRef
  pub byte_len : ℕ
  pub content_type : Option Text
  pub error : Option Text
  pub cancellation_supported : Option Bool

pub data ProviderError : Type 0 where
  connection_failed : Text → ProviderError
  protocol_error : Text → ProviderError
  provider_tool_not_found : ProviderError
  provider_cancelled : ProviderError

-- `Display` of `ProviderError`.
unfoldable pub show_provider_error : ProviderError → Text
show_provider_error (connection_failed reason) = codes "PROVIDER_CONNECTION_FAILED: " ++ reason
show_provider_error (protocol_error reason) = codes "PROVIDER_PROTOCOL_ERROR: " ++ reason
show_provider_error provider_tool_not_found =
    codes "TOOL_NOT_FOUND: provider does not recognize the tool"
show_provider_error provider_cancelled =
    codes "OPERATION_CANCELLED: provider operation was cancelled"

pub data BrokerError : Type 0 where
  provider_unavailable : ProviderId → BrokerError
  provider_identity_mismatch : BrokerError
  tool_not_found : BrokerError
  tool_unavailable : BrokerError
  policy_denied : Text → BrokerError
  operation_timeout : BrokerError
  result_too_large : ℕ → BrokerError
  result_not_found : BrokerError
  broker_closed : BrokerError
  provider_failed : ProviderError → BrokerError
  fabric : ToolFabricError → BrokerError
  json_failed : Text → BrokerError

-- What waiting for a provider under `tokio::time::timeout` ends with.
pub data Timed (A : Type 0) : Type 0 where
  finished : Result A ProviderError → Timed A
  expired : Timed A

-- `map_err(|_| OperationTimeout)??`.
unfoldable pub settled : {A : Type 0} → Timed A → Result A BrokerError
settled (finished (ok a)) = ok a
settled (finished (err e)) = err (provider_failed e)
settled expired = err operation_timeout
