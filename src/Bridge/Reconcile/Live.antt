-- ===== src/Bridge/Reconcile/Live.antt =====
-- When the mutations of src/dcc_mcp_obs/bridge.py that wait for a readback succeed.
use dcc_mcp_obs.Base.{ℕ, zero, suc, ◌<◌, String, Bool, true, false, ◌≡◌, refl, arith}
use dcc_mcp_obs.Value.{Fields}
use dcc_mcp_obs.Result.{Result, ok}
use dcc_mcp_obs.Exec.{pure, lift, gets, ◌>>=◌}
use dcc_mcp_obs.Bridge.Host.{Host}
use dcc_mcp_obs.Bridge.Session.{Session, checked, poll, operation_deadline, acknowledged}
use dcc_mcp_obs.Bridge.Reconcile.{judge, settle, settle_by, poll_unless_last, mutate_then_settle}

module _ (host : Host) (deadline : ℕ) (rt : String) (payload : Fields)
    (matches : Fields → Result Bool) where
  -- Read back from the bridge `s`, OBS shows the state that `matches` looks for after at most `k` answers
  -- that do not show it, each followed by a wait that the deadline allows.
  pub data Appears : ℕ → Session → Type 0 where
    now :
        (k : ℕ) (s t : Session) (readback : Fields)
        → checked host rt payload deadline s ≡ (ok readback, t)
        → matches readback ≡ ok true
        → Appears k s
    later :
        (k : ℕ) (s t u : Session) (readback : Fields)
        → checked host rt payload deadline s ≡ (ok readback, t)
        → matches readback ≡ ok false
        → poll host deadline t ≡ (ok tt, u)
        → Appears k u
        → Appears (suc k) s

  module _ (report : Fields → Fields) where
    Reported : Result Fields → Type 0
    Reported result =
        (readback : Fields) × (matches readback ≡ ok true) × (result ≡ ok (report readback))

    settle-Reported :
        (n k : ℕ) (s : Session)
        → Appears k s
        → k < n
        → Reported (settle host deadline rt payload matches report n s).0
    unfolding settle judge poll_unless_last pure lift ◌>>=◌ Reported
    settle-Reported zero k s shows early = absurd (omega (arith, early))
    settle-Reported (suc n) k s (now j before t readback answered shown) early =
        rw (answered, shown) (readback, shown, refl)
    settle-Reported (suc zero) k s (later j before t u readback answered other waited rest) early =
        absurd (omega (arith, early))
    settle-Reported (suc (suc n)) k s (later j before t u readback answered other waited rest)
          early =
        rw (answered, other, waited) (settle-Reported (suc n) j u rest (omega (arith, early)))

module _ (host : Host) (rt : String) (payload : Fields) (readback_type : String)
    (readback_payload : Fields) (matches : Fields → Result Bool) (report : Fields → Fields) where
  -- If OBS acknowledges the mutation, and then shows the state after fewer answers that do not show it than
  -- there are attempts, each followed by a wait that the deadline allows, the mutation returns the report of
  -- a readback that shows the state.
  pub mutate_then_settle-Appears :
      (s t u : Session) (deadline k : ℕ) (accepted : Fields)
      → operation_deadline host s ≡ (ok deadline, t)
      → acknowledged host rt payload deadline t ≡ (ok accepted, u)
      → Appears host deadline readback_type readback_payload matches k u
      → k < u.postcondition_attempts
      → (readback : Fields) × (matches readback ≡ ok true)
        × ((mutate_then_settle host rt payload readback_type readback_payload matches report s).0
            ≡ ok (report readback))
  unfolding mutate_then_settle settle_by gets ◌>>=◌ Reported
  mutate_then_settle-Appears s t u deadline k accepted timed acked shows early =
      rw (timed, acked)
        (settle-Reported host deadline readback_type readback_payload matches report
          u.postcondition_attempts k u shows early)
