-- ===== src/Dispatcher.antt =====
-- `deadline_scope` of src/dcc_mcp_obs/deadline.py and `ObsBridgeDispatcher.dispatch_callable` of
-- src/dcc_mcp_obs/dispatcher.py. A bridge that the function makes reads the deadline of the scope.
pub mod Scope
mod Tests
use dcc_mcp_obs.Base.{
  ℕ, ◌+◌, ◌^◌, String, Bool, true, false, not, ◌&&◌, List, [], ◌∷◌, Option, none, some, leb, ltb,
  nat_eq, ◌%◌, if◌then◌else◌,
}
use dcc_mcp_obs.Value.{pos, negsuc, Value, null, int, float, Fields}
use dcc_mcp_obs.Value.Dict.{get, without}
use dcc_mcp_obs.Value.Check.{need, number_type, number_finite}
use dcc_mcp_obs.Result.{Result, ok, err, bridge_error, ◌>>=◌, ◌>>◌}
use dcc_mcp_obs.Exec.{Exec, ◌>>=◌ as bind, lift}

-- The context variable, and whatever else the function works on.
pub record Context (W : Type 0) : Type 0 where
  pub current_deadline : Option ℕ
  pub world : W

-- The clock and float(seconds), in ticks.
pub record Clock (W : Type 0) : Type 0 where
  pub now : W → ℕ
  pub ticks : Value → ℕ

-- v > 0, of a finite number
unfoldable pub positive : Value → Bool
positive (int (pos n)) = leb 1 n
positive (float bits) = ltb bits (2 ^ 63) && leb 1 bits
positive _ = false

abbrev pub dispatch_keys : List String
dispatch_keys =
    "timeout_hint_secs" ∷ "affinity" ∷ "context" ∷ "action_name" ∷ "skill_name" ∷ "execution"
    ∷ "thread_affinity" ∷ []

-- kwargs.pop(key, None) for each key
unfoldable pub without_all : List String → Fields → Fields
unfolding without
without_all [] kwargs = kwargs
without_all (key ∷ keys) kwargs = without_all keys (without key kwargs)

unfoldable pub require_hint : Value → Result (Unit {0})
unfolding positive
require_hint hint = do
  need "OBS_ARGUMENT_INVALID" (number_type hint)
  finite ← number_finite hint
  need "OBS_ARGUMENT_INVALID" finite
  need "OBS_ARGUMENT_INVALID" (positive hint)

unfoldable pub deadline_of : {W : Type 0} → Clock W → Value → Context W → Result (Option ℕ)
unfolding require_hint
deadline_of clock null c = ok none
deadline_of clock hint c = do require_hint hint; ok (some (clock.now c.world + clock.ticks hint))

module _ {W A : Type 0} where
  -- the variable is reset however the body ends
  unfoldable pub deadline_scope : Option ℕ → Exec (Context W) A → Exec (Context W) A
  deadline_scope deadline body c =
      let (result, after) = body (record c { current_deadline = deadline }) in
      (result, record after { current_deadline = c.current_deadline })

  unfoldable pub dispatch_callable :
      Clock W → (Fields → Exec (Context W) A) → Fields → Exec (Context W) A
  unfolding deadline_scope deadline_of without_all get
  dispatch_callable clock func kwargs c =
      bind (lift (deadline_of clock (get "timeout_hint_secs" kwargs) c))
        (λ deadline. deadline_scope deadline (func (without_all dispatch_keys kwargs))) c
