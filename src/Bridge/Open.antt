-- ===== src/Bridge/Open.antt =====
-- `ObsControlBridge.__init__` of src/dcc_mcp_obs/bridge.py: the arguments, the first status of the
-- plugin, and the versions it must have.
pub mod Bound
use dcc_mcp_obs.Base.{
  ℕ, String, Bool, true, false, ◌&&◌, Option, none, some, ◌==◌, leb, between, nat_eq, if◌then◌else◌,
}
use dcc_mcp_obs.Value.{ℤ, pos, negsuc, Value, int, Fields, end}
use dcc_mcp_obs.Value.Dict.{get}
use dcc_mcp_obs.Value.Text.{before_dot}
use dcc_mcp_obs.Value.Check.{is_true}
use dcc_mcp_obs.Result.{Result, ok, err, bridge_error, overflow_error}
use dcc_mcp_obs.Exec.{Exec, pure, raise, lift, gets, guard, ◌>>=◌, ◌>>◌}
use dcc_mcp_obs.Bridge.Constants.{version, second}
use dcc_mcp_obs.Bridge.Host.{Host, History}
use dcc_mcp_obs.Bridge.Identity.{Identity, parse_identity, parse_event_sequence}
use dcc_mcp_obs.Bridge.Request.{request}
use dcc_mcp_obs.Bridge.Validate.{validate_read_only_response}
use dcc_mcp_obs.Bridge.Session.{Session, deadline_or_default}

-- the `deadline` argument: None, a finite number, or anything else
pub data BoundDeadline : Type 0 where
  no_deadline : BoundDeadline
  bound_at : ℕ → BoundDeadline
  no_number : BoundDeadline
  -- an int that is too large for a float
  too_large : BoundDeadline

-- The arguments; the interval between two readbacks is a number, in ticks.
pub record Opening : Type 0 where
  pub expected_pid : Value
  pub expected_instance_id : Option String
  pub postcondition_attempts : Value
  pub postcondition_poll_seconds : ℕ
  pub deadline : BoundDeadline
  -- current_deadline()
  pub current_deadline : Option ℕ

unfoldable pub require_pid : Value → Result ℕ
require_pid (int (pos n)) = if leb 1 n then ok n else err (bridge_error "OBS_IDENTITY_INVALID")
require_pid _ = err (bridge_error "OBS_IDENTITY_INVALID")

unfoldable pub require_attempts : Value → Result ℕ
require_attempts (int (pos n)) =
    if between 1 20 n then ok n else err (bridge_error "OBS_ARGUMENT_INVALID")
require_attempts _ = err (bridge_error "OBS_ARGUMENT_INVALID")

-- the deadline that every operation of the bridge has
unfoldable pub bound_deadline : Opening → Result (Option ℕ)
bound_deadline o = elim o.deadline [
  | no_deadline ↦ ok o.current_deadline
  | bound_at d ↦ ok (some d)
  | no_number ↦ err (bridge_error "OBS_ARGUMENT_INVALID")
  | too_large ↦ err overflow_error
]

unfoldable pub expected_instance : Option String → String → Bool
expected_instance none instance_id = true
expected_instance (some expected) instance_id = instance_id == expected

-- obs_major >= 28, False where the part before the dot is no number
unfoldable pub supported : Option ℤ → Bool
supported none = false
supported (some (pos major)) = leb 28 major
supported (some (negsuc n)) = false

module _ (host : Host) where
  -- the checks of the first status, in their order
  unfoldable pub opened : Opening → ℕ → ℕ → Option ℕ → Fields → Exec History Session
  unfolding expected_instance supported before_dot
  opened o pid attempts bound status = do
    identity ← lift (parse_identity status)
    event_sequence ← lift (parse_event_sequence status)
    lift (validate_read_only_response host.library "GetPluginStatus" status)
    guard
        (nat_eq identity.host_pid pid
          && expected_instance o.expected_instance_id identity.instance_id
          && is_true (get "ready" status))
        "OBS_INSTANCE_NOT_READY"
    guard (identity.plugin_version == version) "OBS_PLUGIN_VERSION_UNSUPPORTED"
    guard (supported (host.library.int_of_text (before_dot identity.obs_version)))
        "OBS_VERSION_UNSUPPORTED"
    history ← gets (λ h. h)
    pure (record {
      postcondition_attempts = attempts;
      postcondition_poll_seconds = o.postcondition_poll_seconds;
      bound_deadline = bound;
      identity = identity;
      event_sequence = event_sequence;
      history = history;
    })

  unfoldable pub open_bridge : Opening → Exec History Session
  unfolding require_pid require_attempts bound_deadline opened deadline_or_default
  open_bridge o = do
    pid ← lift (require_pid o.expected_pid)
    attempts ← lift (require_attempts o.postcondition_attempts)
    guard (leb o.postcondition_poll_seconds second) "OBS_ARGUMENT_INVALID"
    bound ← lift (bound_deadline o)
    deadline ← deadline_or_default host bound
    status ← request host "GetPluginStatus" end deadline
    opened o pid attempts bound status
