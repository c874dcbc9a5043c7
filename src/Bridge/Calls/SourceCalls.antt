-- ===== src/Bridge/Calls/SourceCalls.antt =====
-- The methods on sources, inputs, filters, volume and media in src/dcc_mcp_obs/bridge.py as calls.
use dcc_mcp_obs.Value.{Value, Fields}
use dcc_mcp_obs.Exec.{Exec}
use dcc_mcp_obs.Bridge.Host.{Host}
use dcc_mcp_obs.Bridge.Session.{Session}
use dcc_mcp_obs.Bridge.Sound.{IsSound}
use dcc_mcp_obs.Bridge.Controls.Sources.{
  get_source_identity, create_source, rename_source, remove_source, list_input_kinds,
  get_input_settings, set_input_settings, describe_properties, validate_property_value,
  set_property_value,
}
use dcc_mcp_obs.Bridge.Calls.Sources.{
  get_source_identity-IsSound, create_source-IsSound, rename_source-IsSound, remove_source-IsSound,
  list_input_kinds-IsSound, get_input_settings-IsSound, set_input_settings-IsSound,
  describe_properties-IsSound, validate_property_value-IsSound, set_property_value-IsSound,
}
use dcc_mcp_obs.Bridge.Controls.Filters.{
  list_filters, get_filter, create_filter, set_filter_enabled, set_filter_settings, remove_filter,
}
use dcc_mcp_obs.Bridge.Calls.Filters.{
  list_filters-IsSound, get_filter-IsSound, create_filter-IsSound, set_filter_enabled-IsSound,
  set_filter_settings-IsSound, remove_filter-IsSound,
}
use dcc_mcp_obs.Bridge.Controls.Media.{
  get_source_volume, set_source_volume, get_source_mute, set_source_mute, get_source_monitor_type,
  set_source_monitor_type, get_media_status, play_media, pause_media, restart_media, stop_media,
  seek_media,
}
use dcc_mcp_obs.Bridge.Calls.Media.{
  get_source_volume-IsSound, set_source_volume-IsSound, get_source_mute-IsSound,
  set_source_mute-IsSound, get_source_monitor_type-IsSound, set_source_monitor_type-IsSound,
  get_media_status-IsSound, play_media-IsSound, pause_media-IsSound, restart_media-IsSound,
  stop_media-IsSound, seek_media-IsSound,
}

-- A call of a method on sources, inputs, filters, volume or media, with its arguments.
pub data SourceCall : Type 0 where
  call_get_source_identity : Value → SourceCall
  call_create_source : Value → Value → Value → Value → Value → Value → SourceCall
  call_rename_source : Value → Value → SourceCall
  call_remove_source : Value → SourceCall
  call_list_input_kinds : SourceCall
  call_get_input_settings : Value → Value → Value → SourceCall
  call_set_input_settings : Value → Value → Value → Value → SourceCall
  call_describe_properties : Value → Value → SourceCall
  call_validate_property_value : Value → Value → Value → Value → SourceCall
  call_set_property_value : Value → Value → Value → Value → Value → SourceCall
  call_list_filters : Value → SourceCall
  call_get_filter : Value → Value → Value → Value → SourceCall
  call_create_filter : Value → Value → Value → Value → Value → Value → SourceCall
  call_set_filter_enabled : Value → Value → Value → SourceCall
  call_set_filter_settings : Value → Value → Value → Value → Value → SourceCall
  call_remove_filter : Value → Value → SourceCall
  call_get_source_volume : Value → SourceCall
  call_set_source_volume : Value → Value → SourceCall
  call_get_source_mute : Value → SourceCall
  call_set_source_mute : Value → Value → SourceCall
  call_get_source_monitor_type : Value → SourceCall
  call_set_source_monitor_type : Value → Value → SourceCall
  call_get_media_status : Value → SourceCall
  call_play_media : Value → SourceCall
  call_pause_media : Value → SourceCall
  call_restart_media : Value → SourceCall
  call_stop_media : Value → SourceCall
  call_seek_media : Value → Value → SourceCall

unfoldable pub perform_source : Host → SourceCall → Exec Session Fields
perform_source host (call_get_source_identity source_name) = get_source_identity host source_name
perform_source host
      (call_create_source scene_name source_name source_kind schema_version settings enabled) =
    create_source host scene_name source_name source_kind schema_version settings enabled
perform_source host (call_rename_source source_name new_source_name) =
    rename_source host source_name new_source_name
perform_source host (call_remove_source source_name) = remove_source host source_name
perform_source host call_list_input_kinds = list_input_kinds host
perform_source host (call_get_input_settings source_name source_kind schema_version) =
    get_input_settings host source_name source_kind schema_version
perform_source host (call_set_input_settings source_name source_kind schema_version settings) =
    set_input_settings host source_name source_kind schema_version settings
perform_source host (call_describe_properties source_kind schema_version) =
    describe_properties host source_kind schema_version
perform_source host (call_validate_property_value source_kind schema_version property_name value) =
    validate_property_value host source_kind schema_version property_name value
perform_source host
      (call_set_property_value source_name source_kind schema_version property_name value) =
    set_property_value host source_name source_kind schema_version property_name value
perform_source host (call_list_filters source_name) = list_filters host source_name
perform_source host (call_get_filter source_name filter_name filter_kind schema_version) =
    get_filter host source_name filter_name filter_kind schema_version
perform_source host
      (call_create_filter source_name filter_name filter_kind schema_version settings enabled) =
    create_filter host source_name filter_name filter_kind schema_version settings enabled
perform_source host (call_set_filter_enabled source_name filter_name enabled) =
    set_filter_enabled host source_name filter_name enabled
perform_source host
      (call_set_filter_settings source_name filter_name filter_kind schema_version settings) =
    set_filter_settings host source_name filter_name filter_kind schema_version settings
perform_source host (call_remove_filter source_name filter_name) =
    remove_filter host source_name filter_name
perform_source host (call_get_source_volume source_name) = get_source_volume host source_name
perform_source host (call_set_source_volume source_name volume) =
    set_source_volume host source_name volume
perform_source host (call_get_source_mute source_name) = get_source_mute host source_name
perform_source host (call_set_source_mute source_name muted) =
    set_source_mute host source_name muted
perform_source host (call_get_source_monitor_type source_name) =
    get_source_monitor_type host source_name
perform_source host (call_set_source_monitor_type source_name monitor_type) =
    set_source_monitor_type host source_name monitor_type
perform_source host (call_get_media_status source_name) = get_media_status host source_name
perform_source host (call_play_media source_name) = play_media host source_name
perform_source host (call_pause_media source_name) = pause_media host source_name
perform_source host (call_restart_media source_name) = restart_media host source_name
perform_source host (call_stop_media source_name) = stop_media host source_name
perform_source host (call_seek_media source_name media_cursor_ms) =
    seek_media host source_name media_cursor_ms

pub perform_source-IsSound : (host : Host) (call : SourceCall) → IsSound (perform_source host call)
unfolding perform_source
perform_source-IsSound host (call_get_source_identity source_name) =
    get_source_identity-IsSound host source_name
perform_source-IsSound host
      (call_create_source scene_name source_name source_kind schema_version settings enabled) =
    create_source-IsSound host scene_name source_name source_kind schema_version settings enabled
perform_source-IsSound host (call_rename_source source_name new_source_name) =
    rename_source-IsSound host source_name new_source_name
perform_source-IsSound host (call_remove_source source_name) =
    remove_source-IsSound host source_name
perform_source-IsSound host call_list_input_kinds = list_input_kinds-IsSound host
perform_source-IsSound host (call_get_input_settings source_name source_kind schema_version) =
    get_input_settings-IsSound host source_name source_kind schema_version
perform_source-IsSound host
      (call_set_input_settings source_name source_kind schema_version settings) =
    set_input_settings-IsSound host source_name source_kind schema_version settings
perform_source-IsSound host (call_describe_properties source_kind schema_version) =
    describe_properties-IsSound host source_kind schema_version
perform_source-IsSound host
      (call_validate_property_value source_kind schema_version property_name value) =
    validate_property_value-IsSound host source_kind schema_version property_name value
perform_source-IsSound host
      (call_set_property_value source_name source_kind schema_version property_name value) =
    set_property_value-IsSound host source_name source_kind schema_version property_name value
perform_source-IsSound host (call_list_filters source_name) = list_filters-IsSound host source_name
perform_source-IsSound host (call_get_filter source_name filter_name filter_kind schema_version) =
    get_filter-IsSound host source_name filter_name filter_kind schema_version
perform_source-IsSound host
      (call_create_filter source_name filter_name filter_kind schema_version settings enabled) =
    create_filter-IsSound host source_name filter_name filter_kind schema_version settings enabled
perform_source-IsSound host (call_set_filter_enabled source_name filter_name enabled) =
    set_filter_enabled-IsSound host source_name filter_name enabled
perform_source-IsSound host
      (call_set_filter_settings source_name filter_name filter_kind schema_version settings) =
    set_filter_settings-IsSound host source_name filter_name filter_kind schema_version settings
perform_source-IsSound host (call_remove_filter source_name filter_name) =
    remove_filter-IsSound host source_name filter_name
perform_source-IsSound host (call_get_source_volume source_name) =
    get_source_volume-IsSound host source_name
perform_source-IsSound host (call_set_source_volume source_name volume) =
    set_source_volume-IsSound host source_name volume
perform_source-IsSound host (call_get_source_mute source_name) =
    get_source_mute-IsSound host source_name
perform_source-IsSound host (call_set_source_mute source_name muted) =
    set_source_mute-IsSound host source_name muted
perform_source-IsSound host (call_get_source_monitor_type source_name) =
    get_source_monitor_type-IsSound host source_name
perform_source-IsSound host (call_set_source_monitor_type source_name monitor_type) =
    set_source_monitor_type-IsSound host source_name monitor_type
perform_source-IsSound host (call_get_media_status source_name) =
    get_media_status-IsSound host source_name
perform_source-IsSound host (call_play_media source_name) = play_media-IsSound host source_name
perform_source-IsSound host (call_pause_media source_name) = pause_media-IsSound host source_name
perform_source-IsSound host (call_restart_media source_name) =
    restart_media-IsSound host source_name
perform_source-IsSound host (call_stop_media source_name) = stop_media-IsSound host source_name
perform_source-IsSound host (call_seek_media source_name media_cursor_ms) =
    seek_media-IsSound host source_name media_cursor_ms
