-- ===== src/Bridge/Validate/Items.antt =====
-- The tests that the response checks of src/dcc_mcp_obs/bridge.py share: the exception they raise,
-- the tests on lists of dicts.
use dcc_mcp_obs.Base.{
  ℕ, String, Bool, true, false, ◌&&◌, ◌||◌, List, ◌++◌, length, between, all, if◌then◌else◌,
}
use dcc_mcp_obs.Value.{Value, list, dict, Fields, elements}
use dcc_mcp_obs.Value.Dict.{get, has, keys_within, keys_equal}
use dcc_mcp_obs.Value.Check.{need, need_member, text_between, is_null}
use dcc_mcp_obs.Result.{Result}
use dcc_mcp_obs.Bridge.Constants.{identity_keys}

-- `raise BridgeError("OBS_RESPONSE_INVALID")` unless the test holds
unfoldable pub check : Bool → Result (Unit {0})
unfolding need
check b = need "OBS_RESPONSE_INVALID" b

-- unless the value is in the set; an unhashable value is a TypeError
unfoldable pub check_member : List String → Value → Result (Unit {0})
unfolding need_member
check_member ts v = need_member "OBS_RESPONSE_INVALID" ts v

-- set(response) - (_IDENTITY_KEYS | keys) is empty
unfoldable pub allows : List String → Fields → Bool
unfolding keys_within
allows keys response = keys_within (identity_keys ++ keys) response

-- set(response) == _IDENTITY_KEYS | keys
unfoldable pub exactly : List String → Fields → Bool
unfolding keys_equal
exactly keys response = keys_equal (identity_keys ++ keys) response

-- isinstance(v, dict) and p(v)
unfoldable pub dict_with : (Fields → Bool) → Value → Bool
dict_with p (dict d) = p d
dict_with p _ = false

-- isinstance(v, list) and lo <= len(v) <= hi and every element is a dict with p
unfoldable pub dicts_between : ℕ → ℕ → (Fields → Bool) → Value → Bool
unfolding elements dict_with
dicts_between lo hi p (list vs) =
    between lo hi (length (elements vs)) && all (dict_with p) (elements vs)
dicts_between lo hi p _ = false

-- v is None or p(v)
unfoldable pub null_or : (Value → Bool) → Value → Bool
unfolding is_null
null_or p v = is_null v || p v

-- "k" not in d or p(d["k"])
unfoldable pub absent_or : (Value → Bool) → String → Fields → Bool
unfolding has get
absent_or p k d = if has k d then p (get k d) else true

-- a name: isinstance(v, str) and 1 <= len(v) <= 256
unfoldable pub name : Value → Bool
unfolding text_between
name v = text_between 1 256 v
