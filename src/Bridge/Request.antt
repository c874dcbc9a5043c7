-- ===== src/Bridge/Request.antt =====
-- `ObsControlBridge._request` of src/dcc_mcp_obs/bridge.py: one guarded call of the transport.
use dcc_mcp_obs.Base.{ℕ, String, ltb, leb, if◌then◌else◌}
use dcc_mcp_obs.Value.{Value, dict, Fields}
use dcc_mcp_obs.Value.Dict.{get}
use dcc_mcp_obs.Value.Check.{is_false}
use dcc_mcp_obs.Result.{bridge_error, Result, ok, err}
use dcc_mcp_obs.Exec.{Exec, raise, lift, guard, ◌>>=◌, ◌>>◌}
use dcc_mcp_obs.Bridge.Constants.{public_error_code}
use dcc_mcp_obs.Bridge.Host.{Host, History, Outcome, returned, raised, clock, vendor_request}

-- `isinstance(response, dict)`, and no `"ok": False`
unfoldable pub accepted_response : Value → Result Fields
accepted_response (dict response) =
    if is_false (get "ok" response)
    then err (bridge_error (public_error_code (get "errorCode" response) "OBS_REQUEST_FAILED"))
    else ok response
accepted_response _ = err (bridge_error "OBS_RESPONSE_INVALID")

module _ (host : Host) where
  unfoldable pub receive : ℕ → Outcome → Exec History Fields
  receive deadline (raised code) =
      raise (bridge_error (public_error_code code "OBS_CONNECTION_FAILED"))
  receive deadline (returned response) = do
    now ← clock host
    guard (leb now deadline) "OBS_TIMEOUT"
    lift (accepted_response response)

  unfoldable pub request : String → Fields → ℕ → Exec History Fields
  request rt payload deadline = do
    now ← clock host
    guard (ltb now deadline) "OBS_TIMEOUT"
    outcome ← vendor_request host rt payload deadline
    receive deadline outcome
