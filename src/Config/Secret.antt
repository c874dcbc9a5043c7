-- ===== src/Config/Secret.antt =====
-- The password of src/dcc_mcp_obs/config.py is written and never shown.
use dcc_mcp_obs.Base.{ℕ, String, Bool, true, false, ◌≡◌, refl, mem_text}
use dcc_mcp_obs.Value.{Value}
use dcc_mcp_obs.Config.{
  Configured, refused, accepted, ◌>>=◌, Library, Environment, ObsEndpointConfig, transport_modes,
  or_default, endpoint_port, timeout_in_range, ensure, from_environment, public_summary,
}

abbrev built : Configured ℕ → Configured ℕ → Bool → String → String → Configured ObsEndpointConfig
built port timeout known mode password = port >>= λ port. timeout >>= λ timeout.
    ensure known "OBS_TRANSPORT_INVALID" >>= λ passed. accepted (record {
      host = "127.0.0.1";
      port = port;
      secure = false;
      password = password;
      timeout_seconds = timeout;
      transport_mode = mode;
    })

built-same :
    (port timeout : Configured ℕ) (known : Bool) (mode a b : String) (control_port : Value)
    → (built port timeout known mode a >>= λ config. public_summary config control_port)
      ≡ (built port timeout known mode b >>= λ config. public_summary config control_port)
unfolding public_summary
built-same (refused code) timeout known mode a b control_port = refl
built-same (accepted port) (refused code) known mode a b control_port = refl
built-same (accepted port) (accepted timeout) false mode a b control_port = refl
built-same (accepted port) (accepted timeout) true mode a b control_port = refl

-- Where two environments agree on all but the password, the configuration is refused with the same code,
-- or its public summary is the same, refusals included.
pub public_summary-secret :
    (lib : Library) (environ other : Environment) (control_port : Value)
    → environ "DCC_MCP_OBS_WEBSOCKET_URL" ≡ other "DCC_MCP_OBS_WEBSOCKET_URL"
    → environ "DCC_MCP_OBS_TIMEOUT_SECONDS" ≡ other "DCC_MCP_OBS_TIMEOUT_SECONDS"
    → environ "DCC_MCP_OBS_TRANSPORT" ≡ other "DCC_MCP_OBS_TRANSPORT"
    → (from_environment lib environ >>= λ config. public_summary config control_port)
      ≡ (from_environment lib other >>= λ config. public_summary config control_port)
unfolding from_environment
public_summary-secret lib environ other control_port url timeout mode =
    let asked = or_default (other "DCC_MCP_OBS_WEBSOCKET_URL") "ws://127.0.0.1:4455" in
    let seconds = or_default (other "DCC_MCP_OBS_TIMEOUT_SECONDS") "5" in
    let named = lib.strip_casefold (or_default (other "DCC_MCP_OBS_TRANSPORT") "dual") in
    rw (url, timeout, mode)
      (built-same (endpoint_port (lib.urlsplit asked))
        (timeout_in_range (lib.float_of_text seconds)) (mem_text transport_modes named) named
        (or_default (environ "DCC_MCP_OBS_WEBSOCKET_PASSWORD") "")
        (or_default (other "DCC_MCP_OBS_WEBSOCKET_PASSWORD") "") control_port)
