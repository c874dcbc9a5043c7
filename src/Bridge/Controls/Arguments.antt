-- ===== src/Bridge/Controls/Arguments.antt =====
-- The argument checks of src/dcc_mcp_obs/bridge.py. Arguments are Python objects, as the code tests
-- their types.
use dcc_mcp_obs.Base.{
  ℕ, suc, String, count, Bool, false, List, [], ◌∷◌, between, leb, nat_eq, if◌then◌else◌,
}
use dcc_mcp_obs.Value.{pos, Value, bool, int, str, dict, Fields}
use dcc_mcp_obs.Value.Dict.{get}
use dcc_mcp_obs.Value.Check.{is_false, equals_text, list_type, items_of, need}
use dcc_mcp_obs.Result.{bridge_error, Result, ok, err, ◌>>=◌, ◌>>◌}
use dcc_mcp_obs.Exec.{Exec, ◌>>=◌ as bind}
use dcc_mcp_obs.Bridge.Host.{Host}
use dcc_mcp_obs.Bridge.Session.{Session, checked, operation_deadline}

unfoldable pub require_name : Value → Result String
require_name (str s) =
    if between 1 256 (count s) then ok s else err (bridge_error "OBS_ARGUMENT_INVALID")
require_name _ = err (bridge_error "OBS_ARGUMENT_INVALID")

unfoldable pub require_item_id : Value → Result ℕ
require_item_id (int (pos n)) = if leb 1 n then ok n else err (bridge_error "OBS_ARGUMENT_INVALID")
require_item_id _ = err (bridge_error "OBS_ARGUMENT_INVALID")

-- `if type(enabled) is not bool: raise`
unfoldable pub require_bool : Value → Result Bool
require_bool (bool b) = ok b
require_bool _ = err (bridge_error "OBS_ARGUMENT_INVALID")

-- v == n for an int n, of a value that the response checks let through as an int
unfoldable pub equals_nat : ℕ → Value → Bool
equals_nat n (int (pos m)) = nat_eq m n
equals_nat n _ = false

-- how many entries are dicts with `entry.get(name_key) == target`
unfoldable pub names_in : String → String → List Value → ℕ
unfolding equals_text get
names_in name_key target [] = 0
names_in name_key target (dict d ∷ entries) =
    let rest = names_in name_key target entries in
    if equals_text target (get name_key d) then suc rest else rest
names_in name_key target (_ ∷ entries) = names_in name_key target entries

-- `_select_exact_name`: one entry of a complete listing carries the name
unfoldable pub select_exact_name : Fields → String → String → Value → String → Result (Unit {0})
unfolding require_name need list_type is_false items_of names_in
select_exact_name response collection_key name_key target missing_code = do
  target ← require_name target
  need "OBS_RESPONSE_INVALID" (list_type (get collection_key response))
  need "OBS_RESPONSE_INCOMPLETE" (is_false (get "truncated" response))
  need "OBS_TARGET_AMBIGUOUS"
      (leb (names_in name_key target (items_of (get collection_key response))) 1)
  need missing_code (leb 1 (names_in name_key target (items_of (get collection_key response))))

-- self._checked(request_type, data, deadline=self._operation_deadline())
unfoldable pub now_checked : Host → String → Fields → Exec Session Fields
now_checked host rt payload =
    bind (operation_deadline host) (λ deadline. checked host rt payload deadline)
