-- ===== src/Bridge/Session.antt =====
-- `ObsControlBridge` of src/dcc_mcp_obs/bridge.py: the object's state, `_checked`,
-- `_operation_deadline` and `_poll`. `_request_lock` makes each `_checked` one step.
pub mod Effects
use dcc_mcp_obs.Base.{ℕ, ◌+◌, ◌-◌, min, String, Option, none, some, ltb}
use dcc_mcp_obs.Value.{Fields}
use dcc_mcp_obs.Value.Dict.{get}
use dcc_mcp_obs.Value.Check.{is_true}
use dcc_mcp_obs.Exec.{Exec, pure, lift, gets, modify, guard, ◌>>=◌, ◌>>◌}
use dcc_mcp_obs.Bridge.Constants.{default_operation_timeout_seconds}
use dcc_mcp_obs.Bridge.Host.{Host, History, clock, sleep}
use dcc_mcp_obs.Bridge.Identity.{Identity}
use dcc_mcp_obs.Bridge.Request.{request}
use dcc_mcp_obs.Bridge.Accept.{accept}

pub record Session : Type 0 where
  pub postcondition_attempts : ℕ
  pub postcondition_poll_seconds : ℕ
  pub bound_deadline : Option ℕ
  pub identity : Identity
  pub event_sequence : ℕ
  pub history : History

-- An action on the history alone.
unfoldable pub on_history : {A : Type 0} → Exec History A → Exec Session A
on_history m s = let (r, h) = m s.history in (r, record s { history = h })

module _ (host : Host) where
  -- The response is returned, and its event sequence kept, only if `accept` passes it.
  unfoldable pub conclude : String → Fields → Exec Session Fields
  conclude rt response s =
      (do
        n ← lift (accept host.library rt s.identity s.event_sequence response)
        modify (λ t. record t { event_sequence = n })
        pure response)
        s

  unfoldable pub checked : String → Fields → ℕ → Exec Session Fields
  unfolding on_history
  checked rt payload deadline = do
    response ← on_history (request host rt payload deadline)
    conclude rt response

  unfoldable pub deadline_or_default : Option ℕ → Exec History ℕ
  deadline_or_default (some deadline) = pure deadline
  deadline_or_default none = do now ← clock host; pure (now + default_operation_timeout_seconds)

  unfoldable pub operation_deadline : Exec Session ℕ
  unfolding deadline_or_default on_history
  operation_deadline s = on_history (deadline_or_default s.bound_deadline) s

  -- `deadline - now <= 0` is `deadline <= now`
  unfoldable pub poll : ℕ → Exec Session (Unit {0})
  unfolding on_history
  poll deadline = do
    now ← on_history (clock host)
    guard (ltb now deadline) "OBS_TIMEOUT"
    interval ← gets (λ s. s.postcondition_poll_seconds)
    on_history (sleep (min interval (deadline - now)))

  -- `accepted = self._checked(...)`, refused unless `accepted` is True
  unfoldable pub acknowledged : String → Fields → ℕ → Exec Session Fields
  acknowledged rt payload deadline = do
    response ← checked rt payload deadline
    guard (is_true (get "accepted" response)) "OBS_MUTATION_REJECTED"
    pure response
