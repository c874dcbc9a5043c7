-- ===== src/Config/Tests.antt =====
-- The theorem on src/dcc_mcp_obs/config.py at work.
use dcc_mcp_obs.Base.{false, String, ◌==◌, none, some, refl, ◌≡◌, if◌then◌else◌}
use dcc_mcp_obs.Value.{pos, int}
use dcc_mcp_obs.Config.{
  ◌>>=◌, Url, Library, ObsEndpointConfig, accepted, or_default, endpoint_port, timeout_in_range,
  Environment, from_environment, public_summary,
}
use dcc_mcp_obs.Config.Bounds.{IsLocal, from_environment-IsLocal}
use dcc_mcp_obs.Config.Secret.{public_summary-secret}

abbrev local_url : Url
local_url = record {
  scheme = "ws";
  hostname = some "127.0.0.1";
  port = some 4455;
  username = none;
  password = none;
  path = "";
  query = "";
  fragment = "";
}

-- 5.0 for every timeout
abbrev library : Library
library = record {
  urlsplit = λ url. some local_url;
  float_of_text = λ text. some 0x4014000000000000;
  strip_casefold = λ text. text;
}

abbrev protected_by : String → Environment
protected_by word name = if name == "DCC_MCP_OBS_WEBSOCKET_PASSWORD" then some word else none

public_summary-secret_example :
    (from_environment library (protected_by "one") >>= λ config.
    public_summary config (int (pos 9766)))
    ≡ (from_environment library (protected_by "two") >>= λ config.
        public_summary config (int (pos 9766)))
public_summary-secret_example =
    public_summary-secret library (protected_by "one") (protected_by "two") (int (pos 9766)) refl
      refl refl

abbrev local_config : ObsEndpointConfig
local_config = record {
  host = "127.0.0.1";
  port = 4455;
  secure = false;
  password = "one";
  timeout_seconds = 0x4014000000000000;
  transport_mode = "dual";
}

local_accepted : from_environment library (protected_by "one") ≡ accepted local_config
unfolding from_environment or_default endpoint_port timeout_in_range
local_accepted = refl

from_environment-IsLocal_example : IsLocal local_config
from_environment-IsLocal_example =
    from_environment-IsLocal library (protected_by "one") local_config local_accepted
