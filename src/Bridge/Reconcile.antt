-- ===== src/Bridge/Reconcile.antt =====
-- The shape of every mutation of src/dcc_mcp_obs/bridge.py: one request that OBS acknowledges, then
-- at most `postcondition_attempts` readbacks until one shows the state that was asked for.
-- `_mutate_and_reconcile`, and the loops that the other mutations spell out.
pub mod Trace
pub mod First
pub mod Once
pub mod Live
use dcc_mcp_obs.Base.{ℕ, zero, suc, String, Bool, true, false}
use dcc_mcp_obs.Value.{bool, Fields, end}
use dcc_mcp_obs.Value.Dict.{put}
use dcc_mcp_obs.Result.{bridge_error, Result, ok}
use dcc_mcp_obs.Exec.{Exec, pure, raise, lift, gets, ◌>>=◌, ◌>>◌}
use dcc_mcp_obs.Bridge.Host.{Host}
use dcc_mcp_obs.Bridge.Session.{Session, checked, poll, operation_deadline, acknowledged}

-- {**readback, "verified": True}
unfoldable pub verified : Fields → Fields
verified readback = put "verified" (bool true) readback

module _ (host : Host) (deadline : ℕ) where
  -- `if attempt + 1 < self._postcondition_attempts: self._poll(deadline)`, by the attempts left
  unfoldable pub poll_unless_last : ℕ → Exec Session (Unit {0})
  poll_unless_last zero = pure tt
  poll_unless_last (suc n) = poll host deadline

  module _ (rt : String) (payload : Fields) (matches : Fields → Result Bool)
      (report : Fields → Fields) where
    -- one readback judged, with `n` attempts left
    unfoldable pub judge : ℕ → Exec Session Fields → Fields → Exec Session Fields
    judge n retry readback = do
      matched ← lift (matches readback)
      elim matched [ true ↦ pure (report readback) | false ↦ (do poll_unless_last n; retry) ]

    unfoldable pub settle : ℕ → Exec Session Fields
    settle zero = raise (bridge_error "OBS_POSTCONDITION_FAILED")
    settle (suc n) = do readback ← checked host rt payload deadline; judge n (settle n) readback

-- The loop, with the attempts that the bridge was made with.
unfoldable pub settle_by :
    Host → String → Fields → (Fields → Result Bool) → (Fields → Fields) → ℕ → Exec Session Fields
settle_by host rt payload matches report deadline = do
  attempts ← gets (λ s. s.postcondition_attempts)
  settle host deadline rt payload matches report attempts

module _ (host : Host) (rt : String) (payload : Fields) (readback_type : String)
    (readback_payload : Fields) (matches : Fields → Result Bool) (report : Fields → Fields) where
  unfoldable pub mutate_then_settle : Exec Session Fields
  unfolding settle_by
  mutate_then_settle = do
    deadline ← operation_deadline host
    accepted ← acknowledged host rt payload deadline
    settle_by host readback_type readback_payload matches report deadline

unfoldable pub mutate_and_reconcile :
    Host → String → Fields → String → Fields → (Fields → Result Bool) → Exec Session Fields
mutate_and_reconcile host rt payload readback_type readback_payload matches =
    mutate_then_settle host rt payload readback_type readback_payload matches verified
