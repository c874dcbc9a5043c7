-- ===== src/Bridge/Validate/Sources.antt =====
-- `_validate_read_only_response` of src/dcc_mcp_obs/bridge.py: sources, inputs, properties, filters,
-- audio and media.
use dcc_mcp_obs.Base.{
  ◌-◌, ◌^◌, String, Bool, true, false, ◌&&◌, ◌||◌, List, [], ◌∷◌, length, between, leb, all,
  if◌then◌else◌,
}
use dcc_mcp_obs.Value.{pos, negsuc, Value, int, float, str, dict, Fields, end, field}
use dcc_mcp_obs.Value.Dict.{get, keys_equal}
use dcc_mcp_obs.Value.Float.{float_from_zero}
use dcc_mcp_obs.Value.Check.{
  is_true, bool_type, text_type, text_between, equals_text, int_type, int_between, list_type,
  dict_type, items_of, hashable, in_texts, number_finite, number_type,
}
use dcc_mcp_obs.Result.{bridge_error, type_error, attribute_error, Result, ok, err, ◌>>=◌, ◌>>◌}
use dcc_mcp_obs.Bridge.Host.{Library}
use dcc_mcp_obs.Bridge.Validate.Items.{
  check, check_member, allows, exactly, dict_with, dicts_between, name,
}
use dcc_mcp_obs.Bridge.Settings.{
  typed_settings_schema_version, reviewed_input_kinds, reviewed_filter_kinds, source_monitor_types,
  media_states, normalize_input_settings, normalize_filter_settings,
}

valid_source : Fields → Bool
valid_source source =
    keys_equal ("sceneItemId" ∷ "sourceName" ∷ "sourceKind" ∷ "enabled" ∷ []) source
    && int_type (get "sceneItemId" source)
    && name (get "sourceName" source)
    && name (get "sourceKind" source)
    && bool_type (get "enabled" source)

unfoldable pub check_sources : Fields → Result (Unit {0})
unfolding check valid_source
check_sources response = do
  check (allows ("sceneName" ∷ "sources" ∷ "truncated" ∷ []) response)
  check (name (get "sceneName" response))
  check (dicts_between 0 512 valid_source (get "sources" response))
  check (bool_type (get "truncated" response))

unfoldable pub check_source_identity : Fields → Result (Unit {0})
unfolding check check_member
check_source_identity response = do
  check (
      exactly
        ("sourceName" ∷ "sourceKind" ∷ "sourceType" ∷ "outputFlags" ∷ "active" ∷ "showing" ∷ "width"
          ∷ "height" ∷ [])
        response)
  check (name (get "sourceName" response) && name (get "sourceKind" response))
  check_member ("input" ∷ "filter" ∷ "scene" ∷ "transition" ∷ "unknown" ∷ [])
      (get "sourceType" response)
  check (int_between 0 (2 ^ 32 - 1) (get "outputFlags" response))
  check (bool_type (get "active" response))
  check (bool_type (get "showing" response))
  check (int_between 0 16384 (get "width" response))
  check (int_between 0 16384 (get "height" response))

unfoldable pub check_input_kind : Value → Result (Unit {0})
unfolding check check_member
check_input_kind (dict item) = do
  check (keys_equal ("sourceKind" ∷ "displayName" ∷ []) item)
  check_member reviewed_input_kinds (get "sourceKind" item)
  check (text_between 1 128 (get "displayName" item))
check_input_kind _ = err (bridge_error "OBS_RESPONSE_INVALID")

-- any(... for item in items): the first failing element ends the walk
unfoldable pub check_each : (Value → Result (Unit {0})) → List Value → Result (Unit {0})
check_each p [] = ok tt
check_each p (v ∷ vs) = let rest = check_each p vs in do p v; rest

unfoldable pub check_input_kinds : Fields → Result (Unit {0})
unfolding check check_each check_input_kind
check_input_kinds response = do
  check (exactly ("schemaVersion" ∷ "inputKinds" ∷ []) response)
  check (equals_text typed_settings_schema_version (get "schemaVersion" response))
  check (list_type (get "inputKinds" response))
  check (between 1 16 (length (items_of (get "inputKinds" response))))
  check_each check_input_kind (items_of (get "inputKinds" response))

unfoldable pub check_input_settings : Fields → Result (Unit {0})
unfolding check check_member
check_input_settings response = do
  check (exactly ("sourceName" ∷ "sourceKind" ∷ "schemaVersion" ∷ "settings" ∷ []) response)
  check (name (get "sourceName" response))
  check_member reviewed_input_kinds (get "sourceKind" response)
  check (equals_text typed_settings_schema_version (get "schemaVersion" response))
  check (dict_type (get "settings" response))
  normalized ←
      normalize_input_settings (get "sourceKind" response) (get "schemaVersion" response)
        (get "settings" response)
  ok tt

-- {item.get("propertyName") for item in properties}: an element without `get` is an AttributeError,
-- an unhashable name a TypeError
unfoldable pub property_names : List Value → Result (List Value)
unfolding hashable
property_names [] = ok []
property_names (dict item ∷ items) =
    let rest = property_names items in
    if hashable (get "propertyName" item)
    then (do names ← rest; ok (get "propertyName" item ∷ names))
    else err type_error
property_names (_ ∷ items) = err attribute_error

any_equals : String → List Value → Bool
any_equals s [] = false
any_equals s (v ∷ vs) = equals_text s v || any_equals s vs

-- names == {"width", "height", "color"}
unfoldable pub reviewed_property_names : List Value → Bool
unfolding any_equals in_texts
reviewed_property_names names =
    all (in_texts ("width" ∷ "height" ∷ "color" ∷ [])) names
    && any_equals "width" names
    && any_equals "height" names
    && any_equals "color" names

-- item["minimum"] <= item["maximum"]
int_le : Value → Value → Bool
int_le (int (pos a)) (int (pos b)) = leb a b
int_le (int (negsuc a)) (int (pos b)) = true
int_le (int (negsuc a)) (int (negsuc b)) = leb b a
int_le _ _ = false

property_entry : Fields → Bool
unfolding int_le
property_entry item =
    keys_equal ("propertyName" ∷ "valueType" ∷ "minimum" ∷ "maximum" ∷ []) item
    && equals_text "integer" (get "valueType" item)
    && int_type (get "minimum" item)
    && int_type (get "maximum" item)
    && int_le (get "minimum" item) (get "maximum" item)

unfoldable pub check_properties : Fields → Result (Unit {0})
unfolding check check_member property_names reviewed_property_names property_entry
check_properties response = do
  check (exactly ("sourceKind" ∷ "schemaVersion" ∷ "properties" ∷ []) response)
  check_member reviewed_input_kinds (get "sourceKind" response)
  check (equals_text typed_settings_schema_version (get "schemaVersion" response))
  check (list_type (get "properties" response))
  names ← property_names (items_of (get "properties" response))
  check (reviewed_property_names names)
  check (all (dict_with property_entry) (items_of (get "properties" response)))

text_of : Value → String
text_of (str s) = s
text_of _ = ""

unfoldable pub check_property_value : Fields → Result (Unit {0})
unfolding check check_member text_of
check_property_value response = do
  check
      (exactly ("sourceKind" ∷ "schemaVersion" ∷ "propertyName" ∷ "value" ∷ "valid" ∷ []) response)
  check_member reviewed_input_kinds (get "sourceKind" response)
  check (equals_text typed_settings_schema_version (get "schemaVersion" response))
  check_member ("width" ∷ "height" ∷ "color" ∷ []) (get "propertyName" response)
  check (int_type (get "value" response))
  check (is_true (get "valid" response))
  normalized ←
      normalize_input_settings (get "sourceKind" response) (get "schemaVersion" response)
        (dict (field (text_of (get "propertyName" response)) (get "value" response) end))
  ok tt

filter_entry : Fields → Bool
filter_entry item =
    keys_equal ("filterName" ∷ "filterKind" ∷ "enabled" ∷ []) item
    && name (get "filterName" item)
    && name (get "filterKind" item)
    && bool_type (get "enabled" item)

unfoldable pub check_filters : Fields → Result (Unit {0})
unfolding check filter_entry
check_filters response = do
  check (exactly ("sourceName" ∷ "filters" ∷ "truncated" ∷ []) response)
  check (name (get "sourceName" response))
  check (dicts_between 0 64 filter_entry (get "filters" response))
  check (bool_type (get "truncated" response))

unfoldable pub check_filter : Library → Fields → Result (Unit {0})
unfolding check check_member
check_filter lib response = do
  check (
      exactly
        ("sourceName" ∷ "filterName" ∷ "filterKind" ∷ "enabled" ∷ "schemaVersion" ∷ "settings" ∷ [])
        response)
  check (name (get "sourceName" response) && name (get "filterName" response))
  check_member reviewed_filter_kinds (get "filterKind" response)
  check (equals_text typed_settings_schema_version (get "schemaVersion" response))
  check (bool_type (get "enabled" response))
  check (dict_type (get "settings" response))
  normalized ←
      normalize_filter_settings lib (get "filterKind" response) (get "schemaVersion" response)
        (get "settings" response)
  ok tt

-- 0 <= volume <= 20
volume_in_range : Value → Bool
unfolding float_from_zero
volume_in_range (int (pos n)) = leb n 20
volume_in_range (float bits) = float_from_zero 0x4034000000000000 bits
volume_in_range _ = false

unfoldable pub check_source_volume : Fields → Result (Unit {0})
unfolding check volume_in_range
check_source_volume response = do
  check (exactly ("sourceName" ∷ "volume" ∷ []) response)
  check (text_type (get "sourceName" response))
  check (number_type (get "volume" response))
  finite ← number_finite (get "volume" response)
  check finite
  check (volume_in_range (get "volume" response))

unfoldable pub check_source_mute : Fields → Result (Unit {0})
unfolding check
check_source_mute response = do
  check (exactly ("sourceName" ∷ "muted" ∷ []) response)
  check (text_type (get "sourceName" response))
  check (bool_type (get "muted" response))

unfoldable pub check_source_monitor_type : Fields → Result (Unit {0})
unfolding check check_member
check_source_monitor_type response = do
  check (exactly ("sourceName" ∷ "monitorType" ∷ []) response)
  check (text_type (get "sourceName" response))
  check_member source_monitor_types (get "monitorType" response)

unfoldable pub check_media_status : Fields → Result (Unit {0})
unfolding check check_member
check_media_status response = do
  check (exactly ("sourceName" ∷ "mediaState" ∷ "mediaDurationMs" ∷ "mediaCursorMs" ∷ []) response)
  check (text_type (get "sourceName" response))
  check_member media_states (get "mediaState" response)
  check (int_between 0 (2 ^ 63 - 1) (get "mediaDurationMs" response))
  check (int_between 0 (2 ^ 63 - 1) (get "mediaCursorMs" response))
