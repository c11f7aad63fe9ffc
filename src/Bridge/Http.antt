-- ===== src/Bridge/Http.antt =====
-- The requests that the bridge's service answers (crates/lattice-studio-bridge/src/lib.rs). What the
-- web framework has read of a request is an argument: the credential of its header, and the payload
-- or the failure to read it. `blake3::hash` is a parameter.
pub mod Guard
use abraxius_lattice.Bridge.Types.{
  StudioBridgeError, session_not_found, session_capacity_exceeded, command_capacity_exceeded,
  binding_conflict, out_of_order_report, invalid_authentication_configuration, non_loopback_bind,
  protocol_mismatch, invalid_registration, StudioBridgeLimits, StudioBridgeRegistration,
  StudioBridgeRegistrationResponse, StudioBridgeReport, StudioBridgeReportResponse,
  StudioBridgeSessionId, StudioBridgeSessionSnapshot, StudioBridgeCommandResult,
  bridge_protocol_version,
}
use abraxius_lattice.Bridge.Pairing.{PairingState, NonceOps, issue_challenge, redeem, matches}
use abraxius_lattice.Bridge.Broker.{
  BrokerState, register, report, list_sessions, validate_small_identifier, any_control,
}
use abraxius_lattice.Tools.Types.{LatticeId}
use abraxius_lattice.Base.Results.{Result, ok, err, and_then, map_err, continue}
use abraxius_lattice.Base.Text.{Text, codes, text_eq, strip_prefix, as_bytes, byte_len}
use abraxius_lattice.Base.Split.{is_empty}
use abraxius_lattice.Base.{
  Bool, true, false, ◌&&◌, ◌||◌, not, List, [], ◌∷◌, Option, none, some, ℕ, ltb, leb, ◌==◌,
  if◌then◌else◌, length,
}

-- `StudioBridgeAuthToken`: its bytes.
unfoldable pub new_token : List ℕ → Result (List ℕ) StudioBridgeError
new_token value =
    if leb 32 (length value) && leb (length value) 256
    then ok value
    else err invalid_authentication_configuration

-- The comparison of two hashes, which looks at every byte: the fold over the differing bits ends at
-- zero exactly if all pairs are equal, and `zip` stops with the shorter one.
unfoldable pub same_bytes : List ℕ → List ℕ → Bool
same_bytes [] candidate = true
same_bytes (a ∷ expected) [] = true
same_bytes (a ∷ expected) (b ∷ candidate) = a == b && same_bytes expected candidate

unfoldable pub token_matches : (List ℕ → List ℕ) → List ℕ → List ℕ → Bool
token_matches hash token candidate = same_bytes (hash token) (hash candidate)

pub record HttpState : Type 0 where
  pub broker : BrokerState
  pub manual_token : Option (List ℕ)
  pub pairing : PairingState

-- The request could not be read: the text of the rejection.
pub data StudioBridgeHttpError : Type 0 where
  unauthorized : StudioBridgeHttpError
  pairing_rejected : StudioBridgeHttpError
  invalid_json : Text → StudioBridgeHttpError
  bridge : StudioBridgeError → StudioBridgeHttpError

-- `into_response`: the status and the code.
unfoldable pub status_of : StudioBridgeError → ℕ
status_of error = elim error [
  | session_not_found _ ↦ 404
  | session_capacity_exceeded ↦ 429
  | command_capacity_exceeded _ ↦ 429
  | binding_conflict ↦ 409
  | out_of_order_report _ _ ↦ 409
  | _ ↦ 400
]

unfoldable pub into_response : StudioBridgeHttpError → ℕ × Text
into_response unauthorized = (401, codes "STUDIO_BRIDGE_UNAUTHORIZED")
into_response pairing_rejected = (401, codes "STUDIO_BRIDGE_PAIRING_REJECTED")
into_response (invalid_json _) = (400, codes "STUDIO_BRIDGE_REQUEST_INVALID")
into_response (bridge error) = (status_of error, codes "STUDIO_BRIDGE_REQUEST_FAILED")

pub record StudioBridgeDiscoveryResponse : Type 0 where
  pub service : Text
  pub protocol_version : ℕ
  pub authentication : Text
  pub challenge : Text
  pub challenge_expires_unix_ms : ℕ

pub record StudioBridgePairingRequest : Type 0 where
  pub challenge : Text
  pub client_kind : Text
  pub client_name : Option Text

pub record StudioBridgePairingResponse : Type 0 where
  pub service : Text
  pub protocol_version : ℕ
  pub session_token : Text
  pub session_expires_unix_ms : ℕ

abbrev pub service_name : Text
service_name = codes "abraxius-lattice-studio-bridge"

unfoldable pub discovery_response : Text × ℕ → StudioBridgeDiscoveryResponse
discovery_response (challenge, expires) = record {
  service = service_name;
  protocol_version = bridge_protocol_version;
  authentication = codes "loopback_auto_pair";
  challenge = challenge;
  challenge_expires_unix_ms = expires;
}

unfoldable pub discover_http :
    NonceOps → LatticeId → ℕ → HttpState → StudioBridgeDiscoveryResponse × HttpState
discover_http ops id now s =
    let (issued, pairing) = issue_challenge ops id now s.pairing in
    (discovery_response issued, record s { pairing = pairing })

unfoldable pub is_client_kind : Text → Bool
is_client_kind kind =
    text_eq kind (codes "roblox-studio-plugin") || text_eq kind (codes "lattice-desktop")

unfoldable pub is_challenge : Text → Bool
is_challenge t = not (is_empty t || ltb 256 (byte_len t) || any_control t)

unfoldable pub validate_client_name : Option Text → Result (Unit {0}) StudioBridgeHttpError
validate_client_name none = ok tt
validate_client_name (some name) = map_err bridge (validate_small_identifier name)

unfoldable pub validate_pairing :
    StudioBridgePairingRequest → Result (Unit {0}) StudioBridgeHttpError
validate_pairing payload =
    if is_client_kind payload.client_kind && is_challenge payload.challenge
    then validate_client_name payload.client_name
    else err pairing_rejected

unfoldable pub pairing_response :
    Option (Text × ℕ) → Result StudioBridgePairingResponse StudioBridgeHttpError
pairing_response none = err pairing_rejected
pairing_response (some (token, expires)) = ok (record {
  service = service_name;
  protocol_version = bridge_protocol_version;
  session_token = token;
  session_expires_unix_ms = expires;
})

unfoldable pub pair_http :
    NonceOps
    → LatticeId
    → ℕ
    → Result StudioBridgePairingRequest Text
    → HttpState
    → Result StudioBridgePairingResponse StudioBridgeHttpError × HttpState
pair_http ops id now (err rejection) s = (err (invalid_json rejection), s)
pair_http ops id now (ok payload) s =
    let (redeemed, pairing) = redeem ops id payload.challenge now s.pairing in
    elim (validate_pairing payload) [
      | err e ↦ (err e, s)
      | ok _ ↦ (pairing_response redeemed, record s { pairing = pairing })
    ]

unfoldable pub manual_matches : (List ℕ → List ℕ) → Option (List ℕ) → Text → Bool
manual_matches hash none supplied = false
manual_matches hash (some expected) supplied = token_matches hash expected (as_bytes supplied)

-- The credential behind `Bearer `, of the value of the header if that is a text.
unfoldable pub supplied_token : Option Text → Option Text
supplied_token none = none
supplied_token (some value) = strip_prefix (codes "Bearer ") value

-- The pairing is asked, and so expires what is over, only if the manual token does not match.
unfoldable pub check_token :
    (List ℕ → List ℕ)
    → ℕ
    → Option Text
    → HttpState
    → Result (Unit {0}) StudioBridgeHttpError × HttpState
check_token hash now none s = (err unauthorized, s)
check_token hash now (some supplied) s =
    let (paired, pairing) = matches supplied now s.pairing in
    if manual_matches hash s.manual_token supplied
    then (ok tt, s)
    else (if paired then ok tt else err unauthorized, record s { pairing = pairing })

unfoldable pub authenticate :
    (List ℕ → List ℕ)
    → ℕ
    → Option Text
    → HttpState
    → Result (Unit {0}) StudioBridgeHttpError × HttpState
authenticate hash now header s = check_token hash now (supplied_token header) s

-- `state.broker`'s method, with its error as one of the service.
unfoldable pub on_broker :
    {A : Type 0}
    → (BrokerState → Result A StudioBridgeError × BrokerState)
    → HttpState
    → Result A StudioBridgeHttpError × HttpState
on_broker method s =
    let (result, broker) = method s.broker in (map_err bridge result, record s { broker = broker })

unfoldable pub register_http :
    (List ℕ → List ℕ)
    → StudioBridgeLimits
    → ℕ
    → StudioBridgeSessionId
    → Option Text
    → Result StudioBridgeRegistration Text
    → HttpState
    → Result StudioBridgeRegistrationResponse StudioBridgeHttpError × HttpState
register_http hash limits now fresh header payload s =
    continue (authenticate hash now header s) (λ _ s.
      continue (map_err invalid_json payload, s)
        (λ p s. on_broker (λ b. register limits p now fresh b) s))

-- The results that a report sends to the calls that wait are left out of the answer.
unfoldable pub report_http :
    (List ℕ → List ℕ)
    → StudioBridgeLimits
    → ℕ
    → Option Text
    → Result StudioBridgeReport Text
    → HttpState
    → Result StudioBridgeReportResponse StudioBridgeHttpError × HttpState
report_http hash limits now header payload s = continue (authenticate hash now header s) (λ _ s.
    continue (map_err invalid_json payload, s)
      (λ p s.
        on_broker (λ b. let (result, broker, sent) = report limits now p b in (result, broker)) s))

unfoldable pub sessions_http :
    (List ℕ → List ℕ)
    → StudioBridgeLimits
    → ℕ
    → Option Text
    → HttpState
    → Result (List StudioBridgeSessionSnapshot) StudioBridgeHttpError × HttpState
sessions_http hash limits now header s = continue (authenticate hash now header s) (λ _ s.
    let (sessions, broker) = list_sessions limits now s.broker in
    (ok sessions, record s { broker = broker }))

-- `bind_studio_bridge` before it opens a socket, on whether the address is a loopback.
unfoldable pub check_bind : Bool → Result (Unit {0}) StudioBridgeError
check_bind is_loopback = if not is_loopback then err non_loopback_bind else ok tt
