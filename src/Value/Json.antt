-- ===== src/Value/Json.antt =====
-- How `json.loads` ends.
use dcc_mcp_obs.Value.{Value}

pub data Loaded : Type 0 where
  loaded : Value → Loaded
  -- JSONDecodeError
  not_json : Loaded
  -- ValueError, of an int with too many digits
  long_number : Loaded
  -- RecursionError
  deep_nesting : Loaded
