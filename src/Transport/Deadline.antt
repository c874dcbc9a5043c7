-- ===== src/Transport/Deadline.antt =====
-- `_remaining` and `_within_deadline` of src/dcc_mcp_obs/protocol.py.
use dcc_mcp_obs.Base.{ℕ, ◌-◌, ltb, leb}
use dcc_mcp_obs.Transport.Wire.{Peer, Step, gave, read_clock, call, demand, give, ◌>>=◌, ◌>>◌}

module _ (peer : Peer) where
  unfoldable pub clock : Step ℕ
  clock = call read_clock (λ h. gave (peer.now h))

  -- `deadline - now <= 0` is `deadline <= now`
  unfoldable pub remaining : ℕ → Step ℕ
  unfolding clock
  remaining deadline = do
    now ← clock
    demand (ltb now deadline) "OBS_TIMEOUT"
    give (deadline - now)

  unfoldable pub within_deadline : ℕ → Step (Unit {0})
  unfolding clock
  within_deadline deadline = do now ← clock; demand (leb now deadline) "OBS_TIMEOUT"
