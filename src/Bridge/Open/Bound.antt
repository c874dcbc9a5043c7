-- ===== src/Bridge/Open/Bound.antt =====
-- What is known of a bridge that `__init__` of src/dcc_mcp_obs/bridge.py returns.
use dcc_mcp_obs.Base.{ℕ, String, ◌≤◌, ◌≡◌, some}
use dcc_mcp_obs.Value.{pos, Value, int}
use dcc_mcp_obs.Value.Text.{before_dot}
use dcc_mcp_obs.Result.Yields.{Yields}
use dcc_mcp_obs.Bridge.Constants.{version, second}
use dcc_mcp_obs.Bridge.Host.{Host}
use dcc_mcp_obs.Bridge.Session.{Session}
use dcc_mcp_obs.Bridge.Calls.Answers.{Answers}
use dcc_mcp_obs.Bridge.Open.{Opening}

-- The bridge is bound to the process and the instance that were asked for, whose plugin has the version
-- of this package and whose OBS is of version 28 or later, and its settings are in range.
pub record Bound (host : Host) (o : Opening) (s : Session) : Type 0 where
  pub process : o.expected_pid ≡ int (pos s.identity.host_pid)
  pub running : 1 ≤ s.identity.host_pid
  pub instance : (id : String) → o.expected_instance_id ≡ some id → s.identity.instance_id ≡ id
  pub plugin : s.identity.plugin_version ≡ version
  pub obs :
      (major : ℕ) × (host.library.int_of_text (before_dot s.identity.obs_version)
        ≡ some (pos major))
      × (28 ≤ major)
  pub attempts : (1 ≤ s.postcondition_attempts) × (s.postcondition_attempts ≤ 20)
  pub interval : s.postcondition_poll_seconds ≤ second
