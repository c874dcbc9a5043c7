-- ===== src/Config.antt =====
-- `ObsEndpointConfig` of src/dcc_mcp_obs/config.py, read from the environment variables.
pub mod Secret
pub mod Bounds
mod Tests
use dcc_mcp_obs.Base.{
  ℕ, String, Bool, true, false, not, ◌&&◌, ◌||◌, List, [], ◌∷◌, Option, none, some, ◌==◌, between,
  nat_eq, mem_text, if◌then◌else◌,
}
use dcc_mcp_obs.Value.{pos, Value, bool, int, str, Fields}
use dcc_mcp_obs.Value.Dict.{entries}

-- what was returned, or the code of a ConfigError
pub data Configured (A : Type 0) : Type 0 where
  refused : String → Configured A
  accepted : A → Configured A

module _ {A B : Type 0} where
  infixl 5 ◌>>=◌ ◌>>◌
  abbrev pub ◌>>=◌ : Configured A → (A → Configured B) → Configured B
  refused code >>= next = refused code
  accepted value >>= next = next value

  abbrev pub ◌>>◌ : Configured A → Configured B → Configured B
  test >> rest = test >>= λ passed. rest

abbrev pub ensure : Bool → String → Configured (Unit {0})
ensure true code = accepted tt
ensure false code = refused code

-- the parts of a URL that the code reads
pub record Url : Type 0 where
  pub scheme : String
  pub hostname : Option String
  pub port : Option ℕ
  pub username : Option String
  pub password : Option String
  pub path : String
  pub query : String
  pub fragment : String

-- The standard library, as the code calls it.
pub record Library : Type 0 where
  -- urllib.parse.urlsplit and the `port` of its result, `none` for ValueError
  pub urlsplit : String → Option Url
  -- float(s) as a bit pattern, `none` for ValueError
  pub float_of_text : String → Option ℕ
  -- s.strip().casefold()
  pub strip_casefold : String → String

abbrev pub transport_modes : List String
transport_modes = "websocket" ∷ "dual" ∷ []

pub record ObsEndpointConfig : Type 0 where
  pub host : String
  pub port : ℕ
  pub secure : Bool
  pub password : String
  pub timeout_seconds : ℕ
  pub transport_mode : String

abbrev pub Environment : Type 0
Environment = String → Option String

unfoldable pub or_default : Option String → String → String
or_default none otherwise = otherwise
or_default (some value) otherwise = value

abbrev absent : Option String → Bool
absent none = true
absent (some s) = false

abbrev is_loopback : Option String → Bool
is_loopback none = false
is_loopback (some name) = name == "127.0.0.1"

-- The port of a plain loopback URL, without credentials, query or fragment.
unfoldable pub endpoint_port : Option Url → Configured ℕ
endpoint_port none = refused "OBS_ENDPOINT_INVALID"
endpoint_port (some url) = elim url.port [
  | none ↦ refused "OBS_ENDPOINT_INVALID"
  | some port ↦
      if url.scheme == "ws"
        && is_loopback url.hostname
        && between 1 65535 port
        && absent url.username
        && absent url.password
        && (url.path == "" || url.path == "/")
        && url.query == ""
        && url.fragment == ""
      then accepted port
      else refused "OBS_ENDPOINT_INVALID"
]

-- 0.1 <= timeout <= 30.0: between two positive floats the order is that of the bit patterns
unfoldable pub timeout_in_range : Option ℕ → Configured ℕ
timeout_in_range none = refused "OBS_TIMEOUT_INVALID"
timeout_in_range (some bits) =
    if between 0x3fb999999999999a 0x403e000000000000 bits
    then accepted bits
    else refused "OBS_TIMEOUT_INVALID"

module _ (lib : Library) where
  unfoldable pub from_environment : Environment → Configured ObsEndpointConfig
  unfolding or_default endpoint_port timeout_in_range
  from_environment environ = do
    port ←
        endpoint_port
          (lib.urlsplit (or_default (environ "DCC_MCP_OBS_WEBSOCKET_URL") "ws://127.0.0.1:4455"))
    timeout ←
        timeout_in_range
          (lib.float_of_text (or_default (environ "DCC_MCP_OBS_TIMEOUT_SECONDS") "5"))
    ensure
        (mem_text transport_modes
          (lib.strip_casefold (or_default (environ "DCC_MCP_OBS_TRANSPORT") "dual")))
        "OBS_TRANSPORT_INVALID"
    accepted (record {
      host = "127.0.0.1";
      port = port;
      secure = false;
      password = or_default (environ "DCC_MCP_OBS_WEBSOCKET_PASSWORD") "";
      timeout_seconds = timeout;
      transport_mode = lib.strip_casefold (or_default (environ "DCC_MCP_OBS_TRANSPORT") "dual");
    })

unfoldable pub require_control_port : Value → Configured ℕ
require_control_port (int (pos n)) =
    if between 1 65535 n then accepted n else refused "OBS_CONTROL_PORT_INVALID"
require_control_port _ = refused "OBS_CONTROL_PORT_INVALID"

unfoldable pub public_summary : ObsEndpointConfig → Value → Configured Fields
unfolding require_control_port
public_summary config control_port = do
  port ← require_control_port control_port
  ensure (not (nat_eq port config.port)) "OBS_PORT_CONFLICT"
  accepted (
      entries (
        ("host", str config.host)
        ∷ ("port", int (pos config.port))
        ∷ ("secure", bool config.secure)
        ∷ ("controlPort", int (pos port))
        ∷ ("transportMode", str config.transport_mode)
        ∷ []))
