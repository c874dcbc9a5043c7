-- ===== src/Bridge/Accept.antt =====
-- The tests of `ObsControlBridge._checked` (src/dcc_mcp_obs/bridge.py) on a response, against the
-- identity and the event sequence that the bridge holds.
use dcc_mcp_obs.Base.{ℕ, ◌<◌, String, ◌≡◌, ltb, arith}
use dcc_mcp_obs.Value.{Fields}
use dcc_mcp_obs.Value.Check.{need, need-eq-ok}
use dcc_mcp_obs.Result.{Result, ok, ◌>>=◌, ◌>>◌, >>=-eq-ok}
use dcc_mcp_obs.Bridge.Host.{Library}
use dcc_mcp_obs.Bridge.Identity.{
  Identity, parse_identity, parse_event_sequence, same_identity, same_identity→eq,
}
use dcc_mcp_obs.Bridge.Validate.{validate_read_only_response}

-- the response's event sequence, if the response passes
unfoldable pub accept : Library → String → Identity → ℕ → Fields → Result ℕ
unfolding need
accept lib rt expected last response = do
  identity ← parse_identity response
  need "OBS_INSTANCE_DRIFT" (same_identity identity expected)
  event_sequence ← parse_event_sequence response
  need "OBS_EVENT_SEQUENCE_INVALID" (ltb last event_sequence)
  validate_read_only_response lib rt response
  ok event_sequence

-- What a response has shown when it is accepted.
pub record Accepted (lib : Library) (rt : String) (expected : Identity) (last : ℕ)
    (response : Fields) (event_sequence : ℕ) : Type 0 where
  pub same : parse_identity response ≡ ok expected
  pub sequence : parse_event_sequence response ≡ ok event_sequence
  pub later : last < event_sequence
  pub valid : validate_read_only_response lib rt response ≡ ok tt

-- A response that is accepted has the identity that the bridge holds and an event sequence later than
-- the last, which is the one returned, and has passed the checks of its request type.
pub accept-Accepted :
    (lib : Library) (rt : String) (expected : Identity) (last : ℕ) (response : Fields) {n : ℕ}
    → accept lib rt expected last response ≡ ok n
    → Accepted lib rt expected last response n
unfolding accept
accept-Accepted lib rt expected last response h =
    let (identity, parsed, h1) = >>=-eq-ok (parse_identity response) _ h in
    let (_, same, h2) =
      >>=-eq-ok (need "OBS_INSTANCE_DRIFT" (same_identity identity expected)) _ h1 in
    let (sequence, found, h3) = >>=-eq-ok (parse_event_sequence response) _ h2 in
    let (_, later, h4) = >>=-eq-ok (need "OBS_EVENT_SEQUENCE_INVALID" (ltb last sequence)) _ h3 in
    let (_, valid, h5) = >>=-eq-ok (validate_read_only_response lib rt response) _ h4 in
    let eq = same_identity→eq identity expected (need-eq-ok _ _ same) in
    let increases = need-eq-ok _ _ later in
    record { same = rw (← eq) parsed; sequence = cc; later = ground arith; valid = valid }
