-- ===== src/Bridge/Calls/Sources.antt =====
-- The methods of sources, inputs and properties in src/dcc_mcp_obs/bridge.py are sound.
use dcc_mcp_obs.Value.{Value}
use dcc_mcp_obs.Bridge.Host.{Host}
use dcc_mcp_obs.Bridge.Sound.{IsSound}
use dcc_mcp_obs.Bridge.Calls.Arguments.{call_rules}
use dcc_mcp_obs.Base.{Bool}
use dcc_mcp_obs.Value.{str, list, dict, Fields}
use dcc_mcp_obs.Result.{type_error, attribute_error}
use dcc_mcp_obs.Result.Fails.{Fails, Fails-ok, Fails-err, Fails-bind}
use dcc_mcp_obs.Bridge.Published.{IsPublished}
use dcc_mcp_obs.Bridge.Published.Scenes.{normalize_input_settings-Fails}
use dcc_mcp_obs.Bridge.Controls.Sources.{
  settings_show, single_setting, normalize_property, removed, get_source_identity, create_source,
  rename_source, remove_source, list_input_kinds, get_input_settings, set_input_settings,
  describe_properties, validate_property_value, set_property_value,
}

settings_show-Fails :
    (test : Fields → Bool) (settings : Value) → Fails IsPublished (settings_show test settings)
unfolding settings_show
settings_show-Fails test (dict d) = Fails-ok _
settings_show-Fails test _ = Fails-err attribute_error tt

single_setting-Fails : (name value : Value) → Fails IsPublished (single_setting name value)
unfolding single_setting
single_setting-Fails (str name) value = Fails-ok _
single_setting-Fails (list vs) value = Fails-err type_error tt
single_setting-Fails (dict d) value = Fails-err type_error tt
single_setting-Fails _ value = Fails-ok _

normalize_property-Fails :
    (kind version name value : Value)
    → Fails IsPublished (normalize_property kind version name value)
unfolding normalize_property
normalize_property-Fails kind version name value =
    Fails-bind (single_setting name value) _ (single_setting-Fails name value)
      (normalize_input_settings-Fails kind version)

ruleset source_rules =
    (call_rules, settings_show-Fails, normalize_property-Fails, normalize_input_settings-Fails)

module _ (host : Host) where
  pub get_source_identity-IsSound :
      (source_name : Value) → IsSound (get_source_identity host source_name)
  unfolding get_source_identity
  get_source_identity-IsSound source_name = search source_rules depth 16

  pub create_source-IsSound :
      (scene_name : Value) (source_name : Value) (source_kind : Value) (schema_version : Value)
      (settings : Value) (enabled : Value)
      → IsSound
          (create_source host scene_name source_name source_kind schema_version settings enabled)
  unfolding create_source
  create_source-IsSound scene_name source_name source_kind schema_version settings enabled =
      search source_rules depth 16

  pub rename_source-IsSound :
      (source_name : Value) (new_source_name : Value)
      → IsSound (rename_source host source_name new_source_name)
  unfolding rename_source
  rename_source-IsSound source_name new_source_name = search source_rules depth 16

  pub remove_source-IsSound : (source_name : Value) → IsSound (remove_source host source_name)
  unfolding remove_source removed
  remove_source-IsSound source_name = search source_rules depth 16

  pub list_input_kinds-IsSound : IsSound (list_input_kinds host)
  unfolding list_input_kinds
  list_input_kinds-IsSound = search source_rules depth 16

  pub get_input_settings-IsSound :
      (source_name : Value) (source_kind : Value) (schema_version : Value)
      → IsSound (get_input_settings host source_name source_kind schema_version)
  unfolding get_input_settings
  get_input_settings-IsSound source_name source_kind schema_version = search source_rules depth 16

  pub set_input_settings-IsSound :
      (source_name : Value) (source_kind : Value) (schema_version : Value) (settings : Value)
      → IsSound (set_input_settings host source_name source_kind schema_version settings)
  unfolding set_input_settings
  set_input_settings-IsSound source_name source_kind schema_version settings =
      search source_rules depth 16

  pub describe_properties-IsSound :
      (source_kind : Value) (schema_version : Value)
      → IsSound (describe_properties host source_kind schema_version)
  unfolding describe_properties
  describe_properties-IsSound source_kind schema_version = search source_rules depth 16

  pub validate_property_value-IsSound :
      (source_kind : Value) (schema_version : Value) (property_name : Value) (value : Value)
      → IsSound (validate_property_value host source_kind schema_version property_name value)
  unfolding validate_property_value
  validate_property_value-IsSound source_kind schema_version property_name value =
      search source_rules depth 16

  pub set_property_value-IsSound :
      (source_name : Value) (source_kind : Value) (schema_version : Value) (property_name : Value)
      (value : Value)
      → IsSound (set_property_value host source_name source_kind schema_version property_name value)
  unfolding set_property_value
  set_property_value-IsSound source_name source_kind schema_version property_name value =
      search source_rules depth 16
