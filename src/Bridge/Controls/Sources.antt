-- ===== src/Bridge/Controls/Sources.antt =====
-- Sources, inputs and properties in src/dcc_mcp_obs/bridge.py.
use dcc_mcp_obs.Base.{String, Bool, true, not, ◌&&◌, [], ◌∷◌, ◌==◌, if◌then◌else◌}
use dcc_mcp_obs.Value.{pos, Value, null, bool, int, str, list, dict, Fields, field, end}
use dcc_mcp_obs.Value.Dict.{get, has, entries}
use dcc_mcp_obs.Value.Check.{is_true, equals_text}
use dcc_mcp_obs.Value.Equal.{same_value}
use dcc_mcp_obs.Result.{Result, ok, err, attribute_error, type_error}
use dcc_mcp_obs.Result.{◌>>=◌ as chain}
use dcc_mcp_obs.Exec.{Exec, pure, lift, guard, ◌>>=◌, ◌>>◌}
use dcc_mcp_obs.Bridge.Host.{Host}
use dcc_mcp_obs.Bridge.Settings.{normalize_input_settings}
use dcc_mcp_obs.Bridge.Session.{Session}
use dcc_mcp_obs.Bridge.Reconcile.{verified, mutate_and_reconcile}
use dcc_mcp_obs.Bridge.Controls.Arguments.{require_name, require_bool, now_checked}

-- all(settings.get(key) == value for key, value in normalized.items())
unfoldable pub shows_all : Fields → Fields → Bool
unfolding get same_value
shows_all end settings = true
shows_all (field key value normalized) settings =
    same_value value (get key settings) && shows_all normalized settings

-- result.get("settings", {})
unfoldable pub settings_of : Fields → Value
unfolding has get
settings_of result = if has "settings" result then get "settings" result else dict end

-- `get` is an attribute of a dict alone; the test is of the dict
unfoldable pub settings_show : (Fields → Bool) → Value → Result Bool
settings_show test (dict settings) = ok (test settings)
settings_show test _ = err attribute_error

-- {property_name: value}, which needs a hashable key; any key but a text is refused as a setting
unfoldable pub single_setting : Value → Value → Result Value
single_setting (str name) value = ok (dict (field name value end))
single_setting (list vs) value = err type_error
single_setting (dict d) value = err type_error
single_setting _ value = ok null

unfoldable pub value_at : Value → Fields → Value
unfolding get
value_at (str key) d = get key d
value_at _ d = null

-- `self._normalize_input_settings(source_kind, schema_version, {property_name: value})`
unfoldable pub normalize_property : Value → Value → Value → Value → Result Fields
unfolding single_setting
normalize_property source_kind schema_version property_name value =
    chain (single_setting property_name value) (normalize_input_settings source_kind schema_version)

-- the settings that a request which only reads is checked with
abbrev sample_settings : Value
sample_settings = dict (field "width" (int (pos 1)) end)

-- the payload of GetInputSettings
unfoldable pub input_query : String → Value → Value → Fields
unfolding entries
input_query source source_kind schema_version = entries (
    ("sourceName", str source)
    ∷ ("sourceKind", source_kind)
    ∷ ("schemaVersion", schema_version)
    ∷ [])

module _ (host : Host) where
  unfoldable pub get_source_identity : Value → Exec Session Fields
  get_source_identity source_name = do
    source ← lift (require_name source_name)
    now_checked host "GetSourceIdentity" (entries (("sourceName", str source) ∷ []))

  unfoldable pub create_source : Value → Value → Value → Value → Value → Value → Exec Session Fields
  unfolding input_query
  create_source scene_name source_name source_kind schema_version settings enabled = do
    scene ← lift (require_name scene_name)
    source ← lift (require_name source_name)
    normalized ← lift (normalize_input_settings source_kind schema_version settings)
    wanted ← lift (require_bool enabled)
    mutate_and_reconcile host "CreateSource"
        (entries (
          ("sceneName", str scene)
          ∷ ("sourceName", str source)
          ∷ ("sourceKind", source_kind)
          ∷ ("schemaVersion", schema_version)
          ∷ ("settings", dict normalized)
          ∷ ("enabled", bool wanted)
          ∷ ("capability", str "sources")
          ∷ []))
        "GetInputSettings" (input_query source source_kind schema_version)
        (λ result. ok (same_value (get "settings" result) (dict normalized)))

  unfoldable pub rename_source : Value → Value → Exec Session Fields
  rename_source source_name new_source_name = do
    source ← lift (require_name source_name)
    renamed ← lift (require_name new_source_name)
    guard (not (source == renamed)) "OBS_ARGUMENT_INVALID"
    mutate_and_reconcile host "RenameSource"
        (entries (
          ("sourceName", str source)
          ∷ ("newSourceName", str renamed)
          ∷ ("capability", str "sources")
          ∷ []))
        "GetSourceIdentity" (entries (("sourceName", str renamed) ∷ []))
        (λ result. ok (equals_text renamed (get "sourceName" result)))

  -- an accepted removal is verified by the answer itself
  unfoldable pub removed : String → Fields → Exec Session Fields
  removed rt payload = do
    result ← now_checked host rt payload
    guard (is_true (get "accepted" result) && is_true (get "removed" result))
        "OBS_MUTATION_REJECTED"
    pure (verified result)

  unfoldable pub remove_source : Value → Exec Session Fields
  unfolding removed
  remove_source source_name = do
    source ← lift (require_name source_name)
    removed "RemoveSource"
        (entries (("sourceName", str source) ∷ ("capability", str "sources") ∷ []))

  unfoldable pub list_input_kinds : Exec Session Fields
  list_input_kinds = now_checked host "ListInputKinds" end

  unfoldable pub get_input_settings : Value → Value → Value → Exec Session Fields
  unfolding input_query
  get_input_settings source_name source_kind schema_version = do
    source ← lift (require_name source_name)
    reviewed ← lift (normalize_input_settings source_kind schema_version sample_settings)
    now_checked host "GetInputSettings" (input_query source source_kind schema_version)

  unfoldable pub set_input_settings : Value → Value → Value → Value → Exec Session Fields
  unfolding input_query settings_of settings_show shows_all
  set_input_settings source_name source_kind schema_version settings = do
    source ← lift (require_name source_name)
    normalized ← lift (normalize_input_settings source_kind schema_version settings)
    mutate_and_reconcile host "SetInputSettings"
        (entries (
          ("sourceName", str source)
          ∷ ("sourceKind", source_kind)
          ∷ ("schemaVersion", schema_version)
          ∷ ("settings", dict normalized)
          ∷ ("capability", str "inputs")
          ∷ []))
        "GetInputSettings" (input_query source source_kind schema_version)
        (λ result. settings_show (shows_all normalized) (settings_of result))

  unfoldable pub describe_properties : Value → Value → Exec Session Fields
  describe_properties source_kind schema_version = do
    reviewed ← lift (normalize_input_settings source_kind schema_version sample_settings)
    now_checked host "DescribeProperties"
        (entries (("sourceKind", source_kind) ∷ ("schemaVersion", schema_version) ∷ []))

  unfoldable pub validate_property_value : Value → Value → Value → Value → Exec Session Fields
  unfolding normalize_property value_at
  validate_property_value source_kind schema_version property_name value = do
    normalized ← lift (normalize_property source_kind schema_version property_name value)
    now_checked host "ValidatePropertyValue" (
        entries (
          ("sourceKind", source_kind)
          ∷ ("schemaVersion", schema_version)
          ∷ ("propertyName", property_name)
          ∷ ("value", value_at property_name normalized)
          ∷ []))

  unfoldable pub set_property_value : Value → Value → Value → Value → Value → Exec Session Fields
  unfolding normalize_property value_at input_query settings_of settings_show
  set_property_value source_name source_kind schema_version property_name value = do
    source ← lift (require_name source_name)
    normalized ← lift (normalize_property source_kind schema_version property_name value)
    mutate_and_reconcile host "SetPropertyValue"
        (entries (
          ("sourceName", str source)
          ∷ ("sourceKind", source_kind)
          ∷ ("schemaVersion", schema_version)
          ∷ ("propertyName", property_name)
          ∷ ("value", value_at property_name normalized)
          ∷ ("capability", str "properties")
          ∷ []))
        "GetInputSettings" (input_query source source_kind schema_version)
        (λ result.
          settings_show
            (λ settings.
              same_value (value_at property_name settings) (value_at property_name normalized))
            (settings_of result))
