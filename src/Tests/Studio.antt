-- ===== src/Tests/Studio.antt =====
-- crates/lattice-studio: the theorems at two sessions.
use abraxius_lattice.Studio.{
  StudioMcpConnectionSnapshot, StudioSession, StudioManager, mcp_connected, stdio_transport,
  edit_state, permits_requests, explicit_target, bind_mcp_connection, at_session,
  bind_session_connection, is_some_text, is_some_nat, is_live, accepts_requests, live_sessions,
  the_only, ambiguous_session,
}
use abraxius_lattice.Studio.Target.{explicit_target-ok, HasSession, IsLive, IsMeant}
use abraxius_lattice.Studio.Binding.{explicit_target-bind_mcp_connection, IsOwn}
use abraxius_lattice.Base.Results.{ok, err}
use abraxius_lattice.Base.Text.{codes, text_eq}
use abraxius_lattice.Base.{[], ◌∷◌, Option, none, some, ℕ, ◌≡◌, true, refl}

abbrev connection : StudioMcpConnectionSnapshot
connection = record {
  id = 1 ∷ [];
  studio_session_id = 2 ∷ [];
  environment_id = 3 ∷ [];
  process_id = 77;
  state = mcp_connected;
  transport = stdio_transport;
  endpoint_identity = codes "test";
  protocol_version = codes "test";
  protocol_negotiation = codes "test";
  protocol_session_model = codes "test";
  protocol_fallback_reason = none;
  server_name = codes "test";
  server_version = codes "1";
  capabilities = [];
  tools = [];
  tool_catalog_revision = codes "b3:test";
  connected_at_unix_ms = 0;
  last_successful_request_unix_ms = none;
  last_rtt_micros = none;
  failure_count = 0;
  last_error = none;
}

abbrev session : ℕ → Option StudioMcpConnectionSnapshot → StudioSession
session n c = record {
  id = n ∷ [];
  external_id = codes "studio";
  place_label = none;
  state = edit_state;
  environment_id = some (3 ∷ []);
  process_id = some 77;
  capabilities = [];
  connected = true;
  mcp_connection = c;
  last_heartbeat_unix_ms = none;
}

abbrev manager : StudioManager
manager = session 1 none ∷ session 2 none ∷ []

binds : (bind_mcp_connection connection manager).0 ≡ ok tt
unfolding bind_mcp_connection at_session bind_session_connection is_some_text is_some_nat text_eq
    permits_requests
binds = refl

explicit_target-bind_mcp_connection_example :
    (s : StudioSession) × IsOwn connection s
    × (s.connected ≡ true
        → explicit_target (some (2 ∷ [])) (bind_mcp_connection connection manager).1
          ≡ ok (record s { mcp_connection = some connection }))
explicit_target-bind_mcp_connection_example =
    explicit_target-bind_mcp_connection connection manager binds

abbrev one_live : StudioManager
one_live = session 1 none ∷ session 2 (some connection) ∷ []

targets : explicit_target none one_live ≡ ok (session 2 (some connection))
unfolding explicit_target live_sessions is_live accepts_requests permits_requests the_only
targets = refl

explicit_target-ok_example :
    HasSession (session 2 (some connection)) one_live
    × IsLive (session 2 (some connection))
    × IsMeant none one_live (session 2 (some connection))
explicit_target-ok_example = explicit_target-ok none one_live (session 2 (some connection)) targets

-- Two live sessions make a target necessary.
ambiguous : explicit_target none (session 1 (some connection) ∷ one_live) ≡ err ambiguous_session
unfolding explicit_target live_sessions is_live accepts_requests permits_requests the_only
ambiguous = refl
