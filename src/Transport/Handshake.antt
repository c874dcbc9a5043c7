-- ===== src/Transport/Handshake.antt =====
-- `_ensure_connected` and `_authentication` of src/dcc_mcp_obs/protocol.py, and the endpoint that
-- src/dcc_mcp_obs/config.py describes.
use dcc_mcp_obs.Base.{
  ℕ, ◌^◌, min, String, count, Bool, true, false, ◌&&◌, ◌||◌, List, [], ◌∷◌, Option, none, some,
  nat_eq, leb, if◌then◌else◌,
}
use dcc_mcp_obs.Value.{pos, Value, null, bool, int, float, str, dict, Fields, end}
use dcc_mcp_obs.Value.Dict.{get, entries}
use dcc_mcp_obs.Value.Text.{strip_prefix}
use dcc_mcp_obs.Value.Check.{dict_type}
use dcc_mcp_obs.Transport.Wire.{
  Peer, Wire, Attempt, done, broken, protocol_error, Step, connected, closed, give, break, call,
  computed, demand, ◌>>=◌, ◌>>◌,
}
use dcc_mcp_obs.Transport.Deadline.{remaining}
use dcc_mcp_obs.Transport.Frames.{read_json, send_json}

-- the fields of `ObsEndpointConfig` that the transport reads; the timeout in ticks
pub record Endpoint : Type 0 where
  pub host : String
  pub port : ℕ
  pub password : String
  pub timeout : ℕ

-- the float of a small natural number, as its IEEE 754 binary64 bit pattern
unfoldable pub float_of_op : ℕ → ℕ
float_of_op n =
    if nat_eq n 2
    then 0x4000000000000000
    else if nat_eq n 5
    then 0x4014000000000000
    else if nat_eq n 7
    then 0x401c000000000000
    else 0

-- v == n as Python compares numbers, for n one of 0, 2, 5 and 7: False is 0, and 0.0 and -0.0 are 0.
unfoldable pub op_is : ℕ → Value → Bool
unfolding float_of_op
op_is n (int (pos m)) = nat_eq m n
op_is n (bool b) = nat_eq n 0 && (if b then false else true)
op_is n (float bits) = nat_eq bits (float_of_op n) || (nat_eq n 0 && nat_eq bits (2 ^ 63))
op_is n _ = false

-- the fields of a dict, none of another value
unfoldable pub fields_of : Value → Fields
fields_of (dict d) = d
fields_of _ = end

-- type(v) is int and v == 1
unfoldable pub is_one : Value → Bool
is_one (int (pos n)) = nat_eq n 1
is_one _ = false

-- isinstance(v, str) and v.startswith("5.")
unfoldable pub version_five : Value → Bool
version_five (str s) = elim (strip_prefix "5." s) [ none ↦ false | some rest ↦ true ]
version_five _ = false

unfoldable pub nonempty : Value → Step String
nonempty (str s) =
    if leb 1 (count s) then give s else break (protocol_error "OBS_HANDSHAKE_INVALID")
nonempty _ = break (protocol_error "OBS_HANDSHAKE_INVALID")

unfoldable pub object_authentication : Value → Step Fields
object_authentication (dict d) = give d
object_authentication _ = break (protocol_error "OBS_HANDSHAKE_INVALID")

unfoldable pub identify_request : List (String × Value) → Fields
identify_request authentication = entries (
    ("op", int (pos 1))
    ∷ (
      "d",
      dict (
          entries
            (("rpcVersion", int (pos 1)) ∷ ("eventSubscriptions", int (pos 0)) ∷ authentication)),
    )
    ∷ [])

module _ (peer : Peer) (endpoint : Endpoint) where
  unfoldable pub authentication : Value → Step String
  unfolding object_authentication nonempty
  authentication raw = do
    details ← object_authentication raw
    challenge ← nonempty (get "challenge" details)
    salt ← nonempty (get "salt" details)
    secret ← computed (peer.digest endpoint.password salt)
    computed (peer.digest secret challenge)

  -- `if authentication is not None`
  unfoldable pub authentication_entry : Value → Step (List (String × Value))
  authentication_entry null = give []
  authentication_entry raw = do
    answer ← authentication raw
    give (("authentication", str answer) ∷ [])

  unfoldable pub handshake : ℕ → ℕ → Step (Unit {0})
  unfolding fields_of identify_request
  handshake socket deadline = do
    hello ← read_json peer socket deadline
    demand (op_is 0 (get "op" hello) && dict_type (get "d" hello)) "OBS_HANDSHAKE_INVALID"
    let details = fields_of (get "d" hello)
    demand (is_one (get "rpcVersion" details) && version_five (get "obsWebSocketVersion" details))
        "OBS_VERSION_UNSUPPORTED"
    entry ← authentication_entry (get "authentication" details)
    send_json peer socket (identify_request entry) deadline false
    identified ← read_json peer socket deadline
    demand (op_is 2 (get "op" identified)) "OBS_AUTHENTICATION_FAILED"
    demand (is_one (get "negotiatedRpcVersion" (fields_of (get "d" identified))))
        "OBS_VERSION_UNSUPPORTED"

  -- the socket is closed if what follows it fails
  abbrev pub closing : {A : Type 0} → ℕ → Attempt A × Wire → Attempt A × Wire
  closing socket (done a, w) = (done a, w)
  closing socket (broken e, w) = (broken e, record w { trace = closed socket ∷ w.trace })

  unfoldable pub introduced : ℕ → ℕ → Step (Unit {0})
  introduced socket deadline w = closing socket (handshake socket deadline w)

  unfoldable pub keep_socket : ℕ → Step ℕ
  keep_socket socket w = (done socket, record w { socket = some socket })

  unfoldable pub open_socket : ℕ → Step ℕ
  unfolding keep_socket
  open_socket deadline = do
    left ← remaining peer deadline
    socket ←
        call (connected (peer.url endpoint.host endpoint.port) (min endpoint.timeout left))
          (λ h. peer.connect h (peer.url endpoint.host endpoint.port) (min endpoint.timeout left))
    introduced socket deadline
    keep_socket socket

  unfoldable pub connected_or_open : Option ℕ → ℕ → Step ℕ
  connected_or_open (some socket) deadline = give socket
  connected_or_open none deadline = open_socket deadline

  unfoldable pub ensure_connected : ℕ → Step ℕ
  unfolding connected_or_open
  ensure_connected deadline w = connected_or_open w.socket deadline w
