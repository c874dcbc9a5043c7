-- ===== src/Bridge/Settings.antt =====
-- The reviewed settings of sources and filters in src/dcc_mcp_obs/bridge.py: the sets of kinds,
-- `_require_schema_version`, `_normalize_input_settings` and `_normalize_filter_settings`.
use dcc_mcp_obs.Base.{
  ℕ, ◌-◌, ◌^◌, String, Bool, true, false, not, ◌&&◌, List, [], ◌∷◌, leb, mem_text, if◌then◌else◌,
}
use dcc_mcp_obs.Value.{pos, negsuc, Value, int, float, dict, Fields, end, field}
use dcc_mcp_obs.Value.Dict.{get, keys_within, keys_equal}
use dcc_mcp_obs.Value.Float.{magnitude_at_most}
use dcc_mcp_obs.Value.Check.{
  equals_text, int_between, need, need_member, number_finite, number_type,
}
use dcc_mcp_obs.Result.{bridge_error, Result, ok, err, ◌>>=◌, ◌>>◌}
use dcc_mcp_obs.Bridge.Host.{Library}

abbrev pub typed_settings_schema_version : String
typed_settings_schema_version = "1.0"

abbrev pub reviewed_input_kinds : List String
reviewed_input_kinds = ("color_source_v3" ∷ [])

abbrev pub reviewed_filter_kinds : List String
reviewed_filter_kinds = ("gain_filter" ∷ [])

abbrev pub source_monitor_types : List String
source_monitor_types = ("none" ∷ "monitor_only" ∷ "monitor_and_output" ∷ [])

abbrev pub media_states : List String
media_states =
    ("none" ∷ "playing" ∷ "opening" ∷ "buffering" ∷ "paused" ∷ "stopped" ∷ "ended" ∷ "error" ∷ [])

unfoldable pub require_schema_version : Value → Result (Unit {0})
unfolding need equals_text
require_schema_version v =
    need "OBS_SCHEMA_UNSUPPORTED" (equals_text typed_settings_schema_version v)

abbrev setting_maximum : String → ℕ
setting_maximum key = if mem_text ("width" ∷ "height" ∷ []) key then 8192 else 2 ^ 32 - 1

abbrev setting_minimum : String → ℕ
setting_minimum key = if mem_text ("width" ∷ "height" ∷ []) key then 1 else 0

-- The loop over settings.items(): the values in range, each kept under its key.
unfoldable pub normalize_settings : Fields → Result Fields
unfolding need int_between
normalize_settings end = ok end
normalize_settings (field key value rest) = do
  need "OBS_ARGUMENT_INVALID" (int_between (setting_minimum key) (setting_maximum key) value)
  normalized ← normalize_settings rest
  ok (field key value normalized)

unfoldable pub is_empty : Fields → Bool
is_empty end = true
is_empty (field k v d) = false

unfoldable pub nonempty_settings : Value → Result Fields
unfolding is_empty keys_within
nonempty_settings (dict d) =
    if not (is_empty d) && keys_within ("width" ∷ "height" ∷ "color" ∷ []) d
    then ok d
    else err (bridge_error "OBS_ARGUMENT_INVALID")
nonempty_settings _ = err (bridge_error "OBS_ARGUMENT_INVALID")

unfoldable pub normalize_input_settings : Value → Value → Value → Result Fields
unfolding require_schema_version need_member nonempty_settings normalize_settings
normalize_input_settings source_kind schema_version settings = do
  require_schema_version schema_version
  need_member "OBS_SOURCE_KIND_UNSUPPORTED" reviewed_input_kinds source_kind
  d ← nonempty_settings settings
  normalize_settings d

-- -30 <= value <= 30, of a finite number
unfoldable pub in_gain_range : Value → Bool
unfolding magnitude_at_most
in_gain_range (int (pos n)) = leb n 30
in_gain_range (int (negsuc n)) = leb n 29
in_gain_range (float bits) = magnitude_at_most 0x403e000000000000 bits
in_gain_range _ = false

-- float(value)
unfoldable pub to_float : Library → Value → Value
to_float lib (int n) = float (lib.float_of_int n)
to_float lib v = v

unfoldable pub only_db : Value → Result Value
unfolding keys_equal get
only_db (dict d) =
    if keys_equal ("db" ∷ []) d then ok (get "db" d) else err (bridge_error "OBS_ARGUMENT_INVALID")
only_db _ = err (bridge_error "OBS_ARGUMENT_INVALID")

unfoldable pub normalize_filter_settings : Library → Value → Value → Value → Result Fields
unfolding require_schema_version need need_member only_db number_type number_finite in_gain_range
    to_float
normalize_filter_settings lib filter_kind schema_version settings = do
  require_schema_version schema_version
  need_member "OBS_FILTER_KIND_UNSUPPORTED" reviewed_filter_kinds filter_kind
  value ← only_db settings
  need "OBS_ARGUMENT_INVALID" (number_type value)
  finite ← number_finite value
  need "OBS_ARGUMENT_INVALID" finite
  need "OBS_ARGUMENT_INVALID" (in_gain_range value)
  ok (field "db" (to_float lib value) end)
