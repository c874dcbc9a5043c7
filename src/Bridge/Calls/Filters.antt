-- ===== src/Bridge/Calls/Filters.antt =====
-- The methods of filters in src/dcc_mcp_obs/bridge.py are sound.
use dcc_mcp_obs.Value.{Value}
use dcc_mcp_obs.Bridge.Host.{Host}
use dcc_mcp_obs.Bridge.Sound.{IsSound}
use dcc_mcp_obs.Bridge.Calls.Arguments.{call_rules}
use dcc_mcp_obs.Bridge.Published.Scenes.{normalize_filter_settings-Fails}
use dcc_mcp_obs.Bridge.Controls.Sources.{removed}
use dcc_mcp_obs.Bridge.Controls.Filters.{
  list_filters, get_filter, create_filter, set_filter_enabled, set_filter_settings, remove_filter,
}

ruleset filter_rules = (call_rules, normalize_filter_settings-Fails)

module _ (host : Host) where
  pub list_filters-IsSound : (source_name : Value) → IsSound (list_filters host source_name)
  unfolding list_filters
  list_filters-IsSound source_name = search filter_rules depth 16

  pub get_filter-IsSound :
      (source_name : Value) (filter_name : Value) (filter_kind : Value) (schema_version : Value)
      → IsSound (get_filter host source_name filter_name filter_kind schema_version)
  unfolding get_filter
  get_filter-IsSound source_name filter_name filter_kind schema_version =
      search filter_rules depth 16

  pub create_filter-IsSound :
      (source_name : Value) (filter_name : Value) (filter_kind : Value) (schema_version : Value)
      (settings : Value) (enabled : Value)
      → IsSound
          (create_filter host source_name filter_name filter_kind schema_version settings enabled)
  unfolding create_filter
  create_filter-IsSound source_name filter_name filter_kind schema_version settings enabled =
      search filter_rules depth 16

  pub set_filter_enabled-IsSound :
      (source_name : Value) (filter_name : Value) (enabled : Value)
      → IsSound (set_filter_enabled host source_name filter_name enabled)
  unfolding set_filter_enabled
  set_filter_enabled-IsSound source_name filter_name enabled = search filter_rules depth 16

  pub set_filter_settings-IsSound :
      (source_name : Value) (filter_name : Value) (filter_kind : Value) (schema_version : Value)
      (settings : Value)
      → IsSound
          (set_filter_settings host source_name filter_name filter_kind schema_version settings)
  unfolding set_filter_settings
  set_filter_settings-IsSound source_name filter_name filter_kind schema_version settings =
      search filter_rules depth 16

  pub remove_filter-IsSound :
      (source_name : Value) (filter_name : Value)
      → IsSound (remove_filter host source_name filter_name)
  unfolding remove_filter removed
  remove_filter-IsSound source_name filter_name = search filter_rules depth 16
