-- ===== src/Bridge/Identity.antt =====
-- `_Identity`, `_parse_identity` and `_parse_event_sequence` of src/dcc_mcp_obs/bridge.py.
use dcc_mcp_obs.Base.{
  ℕ, String, count, ◌==◌, eq_iff, Bool, true, ◌&&◌, ◌≡◌, arith, leb, nat_eq, if◌then◌else◌,
}
use dcc_mcp_obs.Value.{pos, Value, int, str, Fields}
use dcc_mcp_obs.Value.Dict.{get}
use dcc_mcp_obs.Result.{bridge_error, Result, ok, err, ◌>>=◌}

pub record Identity : Type 0 where
  pub instance_id : String
  pub plugin_version : String
  pub obs_version : String
  pub host_pid : ℕ

-- isinstance(v, str) and v
unfoldable pub nonempty_text : Value → Result String
nonempty_text (str s) = if leb 1 (count s) then ok s else err (bridge_error "OBS_RESPONSE_INVALID")
nonempty_text _ = err (bridge_error "OBS_RESPONSE_INVALID")

-- isinstance(v, int) and not isinstance(v, bool) and v >= lo
unfoldable pub natural_from : ℕ → Value → Result ℕ
natural_from lo (int (pos n)) = if leb lo n then ok n else err (bridge_error "OBS_RESPONSE_INVALID")
natural_from lo _ = err (bridge_error "OBS_RESPONSE_INVALID")

-- The tests run in the source's order; every one raises the same exception.
unfoldable pub short_text : ℕ → String → Result String
short_text limit s = if leb (count s) limit then ok s else err (bridge_error "OBS_RESPONSE_INVALID")

unfoldable pub parse_identity : Fields → Result Identity
unfolding nonempty_text natural_from short_text
parse_identity response = do
  instance_id ← nonempty_text (get "instanceId" response)
  instance_id ← short_text 128 instance_id
  plugin_version ← nonempty_text (get "pluginVersion" response)
  obs_version ← nonempty_text (get "obsVersion" response)
  host_pid ← natural_from 1 (get "hostPid" response)
  ok (record {
    instance_id = instance_id;
    plugin_version = plugin_version;
    obs_version = obs_version;
    host_pid = host_pid;
  })

unfoldable pub parse_event_sequence : Fields → Result ℕ
unfolding natural_from
parse_event_sequence response = natural_from 0 (get "eventSequence" response)

-- The dataclass's `==`.
unfoldable pub same_identity : Identity → Identity → Bool
same_identity a b =
    a.instance_id == b.instance_id
    && a.plugin_version == b.plugin_version
    && a.obs_version == b.obs_version
    && nat_eq a.host_pid b.host_pid

pub same_identity→eq : (a b : Identity) → same_identity a b ≡ true → a ≡ b
unfolding same_identity
same_identity→eq a b h = ground (
  arith,
  eq_iff a.instance_id b.instance_id,
  eq_iff a.plugin_version b.plugin_version,
  eq_iff a.obs_version b.obs_version,
)
