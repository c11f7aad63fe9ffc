-- ===== src/Tests/Connections.antt =====
-- crates/lattice-connections: the theorems at a small catalog and one provider.
use abraxius_lattice.Connections.Types.{
  ProviderConnection, ProviderCallResult, Policy, ToolInvocationResult, call_succeeded, BrokerError,
  Timed, finished, settled, deny_all_policy,
}
use abraxius_lattice.Connections.Store.{ResultStore, StoreOps, put, stored_result}
use abraxius_lattice.Connections.Broker.{
  ConnectionBroker, Slots, new_broker, connect, register_provider, slot, insert_slot, connect_slot,
  connect_answered, keep_connection, set_connection, set_connection_state, write_health,
  with_providers, refresh_catalog, refresh_listed, import_catalog, record_refresh,
  is_connected_slot, connection_health, or_status, at_least_one, tool_count,
}
use abraxius_lattice.Connections.Broker.Connect.{connect-ok, Connects}
use abraxius_lattice.Connections.Call.{
  CallOps, no_token, token, call, admit_call, find_tool, check_available, check_policy,
  policy_request, check_slot, cancelled_by, cancellation_of, cancel, default_cancellation,
  finish_call, finish_response, deliver, succeeded_result,
}
use abraxius_lattice.Connections.Call.Guards.{call-IsAdmitted, IsAdmitted}
use abraxius_lattice.Connections.Call.Delivery.{call-ok, Succeeds}
use abraxius_lattice.Tools.Types.{
  ToolRef, ToolDescriptor, ProviderDescriptor, Value, object, no_members, member_and, string, null,
  ImportedTool, LatticeId,
}
use abraxius_lattice.Tools.Catalog.{
  ToolCatalog, CatalogOps, get_tool, schema, is_available, imported_descriptor, refresh_provider,
  import_tools, is_blank, refresh_imported, catalog_revision, register_output, is_whitespace,
}
use abraxius_lattice.Tools.Schema.{
  schema_record, register_schema, encode_schema, validate_schema, as_object, walk, normalize_json,
  insert_member, get_schema, validate_tool_input, validate_objects, check_input,
  check_required_field, check_properties_field, array_field, object_field, as_array, get_member,
}
use abraxius_lattice.Tools.Builtin.{builtin_tool, lattice_descriptor}
use abraxius_lattice.Tools.Providers.{
  register, get_provider, update_health, update_descriptor, with_health,
}
use abraxius_lattice.Tools.Ids.{tool_id}
use abraxius_lattice.Base.Results.{ok, err}
use abraxius_lattice.Base.Text.{codes, text_eq}
use abraxius_lattice.Base.Maps.{text_key, get, insert, update, contains_key, compare_text}
use abraxius_lattice.Base.{[], ◌∷◌, none, some, ℕ, ◌≡◌, ◌⊎◌, true, false, refl, take}

abbrev store_ops : StoreOps
store_ops = record { show_id = λ id. codes "r"; content_hash = λ bytes. take 32 bytes }

abbrev call_ops : CallOps
call_ops = record { to_vec = λ v. ok (110 ∷ 117 ∷ 108 ∷ 108 ∷ []); store_ops = store_ops }

abbrev catalog_ops : CatalogOps
catalog_ops = record {
  schema_ops = record { hash = λ bytes. take 32 bytes; to_vec = λ v. ok (1 ∷ []) };
  tools_to_vec = λ tools. ok [];
}

abbrev provider : ProviderDescriptor
provider = record (lattice_descriptor (λ bytes. take 32 bytes) (codes "1")) { id = 7 ∷ [] }

abbrev any_object : Value
any_object = object (member_and (codes "type") (string (codes "object")) no_members)

abbrev echo : ImportedTool
echo = builtin_tool (codes "echo") [] (codes "lattice:echo@1") any_object

abbrev connection : ProviderConnection
connection = record {
  id = 3 ∷ [];
  provider_id = 7 ∷ [];
  endpoint_identity = codes "local";
  connected_at_unix_ms = 100;
}

abbrev registered : ConnectionBroker
registered = (register_provider provider 1 new_broker).1

connects :
    (connect catalog_ops
      (7 ∷ [])
      (finished (ok connection))
      provider
      (finished (ok (echo ∷ [])))
      registered).0
    ≡ ok connection
unfolding connect connect_slot connect_answered keep_connection set_connection set_connection_state
    write_health with_providers refresh_catalog refresh_listed import_catalog record_refresh
    is_connected_slot connection_health or_status slot settled register_provider insert_slot
    new_broker at_least_one tool_count register get_provider update_health update_descriptor
    with_health get insert update contains_key compare_text lattice_descriptor refresh_provider
    import_tools is_blank builtin_tool register_schema encode_schema validate_schema as_object walk
    refresh_imported catalog_revision register_output normalize_json insert_member is_whitespace
    text_eq tool_id
connects = refl

connect-ok_example :
    Connects catalog_ops
      (7 ∷ [])
      (finished (ok connection))
      (finished (ok (echo ∷ [])))
      registered
      connection
      (connect catalog_ops
        (7 ∷ [])
        (finished (ok connection))
        provider
        (finished (ok (echo ∷ [])))
        registered).1
connect-ok_example =
    connect-ok catalog_ops (7 ∷ []) (finished (ok connection)) provider (finished (ok (echo ∷ [])))
      registered connection connects

-- The tool in a catalog and its connected provider.
abbrev echo_tool : ToolDescriptor
echo_tool = imported_descriptor (9 ∷ []) (7 ∷ []) echo (5 ∷ []) none

abbrev catalog : ToolCatalog
catalog = record {
  tools = (9 ∷ [], echo_tool) ∷ [];
  provider_tools = [];
  schema_registry = (5 ∷ [], schema_record (5 ∷ []) any_object any_object 1) ∷ [];
  catalog_revisions = [];
}

abbrev slots : Slots
slots = (7 ∷ [], record { connection = some connection; concurrency = 1 }) ∷ []

abbrev echo_ref : ToolRef
echo_ref = record { provider_id = 7 ∷ []; tool_id = 9 ∷ [] }

abbrev allow : Policy
allow request = record { allowed = true; reason = [] }

call-IsAdmitted_example :
    IsAdmitted call_ops deny_all_policy (codes "agent") echo_ref (object no_members) catalog slots
    ⊎ ((e : BrokerError) × ((answer : Timed ProviderCallResult) (id : LatticeId) (finished_at : ℕ)
            (store : ResultStore)
          → call call_ops deny_all_policy
              (codes "agent")
              echo_ref
              (object no_members)
              no_token
              (4 ∷ [])
              200
              catalog
              slots
              answer
              id
              finished_at
              store
            ≡ (err e, store)))
call-IsAdmitted_example =
    call-IsAdmitted call_ops deny_all_policy (codes "agent") echo_ref (object no_members) no_token
      (4 ∷ []) 200 catalog slots

abbrev null_answer : Timed ProviderCallResult
null_answer = finished (
    ok (record {
      structured = null;
      content_type = codes "application/json";
      cancellation_supported = true;
    }))

abbrev given : ToolInvocationResult
given = record {
  operation_id = 4 ∷ [];
  tool_ref = echo_ref;
  provider_id = 7 ∷ [];
  schema_revision = 5 ∷ [];
  arguments_hash = 110 ∷ 117 ∷ 108 ∷ 108 ∷ [];
  started_at_unix_ms = 200;
  finished_at_unix_ms = 300;
  status = call_succeeded;
  inline = some null;
  result_ref = none;
  byte_len = 4;
  content_type = some (codes "application/json");
  error = none;
  cancellation_supported = some true;
}

calls :
    (call call_ops allow
      (codes "agent")
      echo_ref
      (object no_members)
      (token false false)
      (4 ∷ [])
      200
      catalog
      slots
      null_answer
      (6 ∷ [])
      300
      []).0
    ≡ ok given
unfolding call admit_call find_tool check_available check_policy policy_request check_slot
    is_connected_slot cancelled_by finish_call finish_response deliver succeeded_result put
    stored_result get_tool schema is_available get_schema get compare_text text_eq
    imported_descriptor schema_record validate_tool_input validate_objects check_input
    check_required_field check_properties_field array_field object_field as_object as_array
    get_member
calls = refl

call-ok_example :
    Succeeds call_ops null_answer given []
      (call call_ops allow
        (codes "agent")
        echo_ref
        (object no_members)
        (token false false)
        (4 ∷ [])
        200
        catalog
        slots
        null_answer
        (6 ∷ [])
        300
        []).1
call-ok_example =
    call-ok call_ops allow (codes "agent") echo_ref (object no_members) (token false false) (4 ∷ [])
      200 catalog slots null_answer (6 ∷ []) 300 [] given calls refl

-- A call with a token that was cancelled before is not sent.
cancelled_before :
    cancelled_by (cancellation_of (some (cancel default_cancellation)) false)
    ≡ some (codes "operation cancelled before dispatch")
unfolding cancelled_by cancellation_of cancel default_cancellation
cancelled_before = refl
