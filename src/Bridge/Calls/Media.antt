-- ===== src/Bridge/Calls/Media.antt =====
-- The methods of volume, mute, monitoring and media in src/dcc_mcp_obs/bridge.py are sound.
use dcc_mcp_obs.Value.{Value}
use dcc_mcp_obs.Bridge.Host.{Host}
use dcc_mcp_obs.Bridge.Sound.{IsSound}
use dcc_mcp_obs.Bridge.Calls.Arguments.{call_rules}
use dcc_mcp_obs.Base.{leb}
use dcc_mcp_obs.Value.{pos, negsuc, int, float}
use dcc_mcp_obs.Result.Fails.{Fails, Fails-ok, Fails-if}
use dcc_mcp_obs.Bridge.Host.{Library}
use dcc_mcp_obs.Bridge.Published.{IsPublished}
use dcc_mcp_obs.Bridge.Published.Scenes.{number_finite-Fails}
use dcc_mcp_obs.Bridge.Calls.Arguments.{argument-Fails}
use dcc_mcp_obs.Bridge.Calls.Items.{converted-Fails}
use dcc_mcp_obs.Bridge.Controls.Media.{
  shows_volume, require_cursor, require_volume, source_status, source_mutation, media_mutation,
  get_source_volume, set_source_volume, get_source_mute, set_source_mute, get_source_monitor_type,
  set_source_monitor_type, get_media_status, play_media, pause_media, restart_media, stop_media,
  seek_media,
}

shows_volume-Fails :
    (lib : Library) (expected actual : Value) → Fails IsPublished (shows_volume lib expected actual)
unfolding shows_volume
shows_volume-Fails lib expected (int n) = converted-Fails (int n) _
shows_volume-Fails lib expected (float bits) = Fails-ok _
shows_volume-Fails lib expected _ = Fails-ok _

require_cursor-Fails : (v : Value) → Fails IsPublished (require_cursor v)
unfolding require_cursor
require_cursor-Fails (int (pos n)) = Fails-if (leb n 86400000) _ _ (Fails-ok n) argument-Fails
require_cursor-Fails (int (negsuc n)) = argument-Fails
require_cursor-Fails _ = argument-Fails

require_volume-Fails : (lib : Library) (v : Value) → Fails IsPublished (require_volume lib v)
unfolding require_volume
require_volume-Fails lib v = search (call_rules, number_finite-Fails) depth 16

ruleset media_rules = (call_rules, shows_volume-Fails, require_cursor-Fails, require_volume-Fails)

module _ (host : Host) where
  pub get_source_volume-IsSound :
      (source_name : Value) → IsSound (get_source_volume host source_name)
  unfolding get_source_volume source_status
  get_source_volume-IsSound source_name = search media_rules depth 16

  pub set_source_volume-IsSound :
      (source_name : Value) (volume : Value) → IsSound (set_source_volume host source_name volume)
  unfolding set_source_volume source_mutation
  set_source_volume-IsSound source_name volume = search media_rules depth 16

  pub get_source_mute-IsSound : (source_name : Value) → IsSound (get_source_mute host source_name)
  unfolding get_source_mute source_status
  get_source_mute-IsSound source_name = search media_rules depth 16

  pub set_source_mute-IsSound :
      (source_name : Value) (muted : Value) → IsSound (set_source_mute host source_name muted)
  unfolding set_source_mute source_mutation
  set_source_mute-IsSound source_name muted = search media_rules depth 16

  pub get_source_monitor_type-IsSound :
      (source_name : Value) → IsSound (get_source_monitor_type host source_name)
  unfolding get_source_monitor_type source_status
  get_source_monitor_type-IsSound source_name = search media_rules depth 16

  pub set_source_monitor_type-IsSound :
      (source_name : Value) (monitor_type : Value)
      → IsSound (set_source_monitor_type host source_name monitor_type)
  unfolding set_source_monitor_type source_mutation
  set_source_monitor_type-IsSound source_name monitor_type = search media_rules depth 16

  pub get_media_status-IsSound : (source_name : Value) → IsSound (get_media_status host source_name)
  unfolding get_media_status source_status
  get_media_status-IsSound source_name = search media_rules depth 16

  pub play_media-IsSound : (source_name : Value) → IsSound (play_media host source_name)
  unfolding play_media media_mutation
  play_media-IsSound source_name = search media_rules depth 16

  pub pause_media-IsSound : (source_name : Value) → IsSound (pause_media host source_name)
  unfolding pause_media media_mutation
  pause_media-IsSound source_name = search media_rules depth 16

  pub restart_media-IsSound : (source_name : Value) → IsSound (restart_media host source_name)
  unfolding restart_media media_mutation
  restart_media-IsSound source_name = search media_rules depth 16

  pub stop_media-IsSound : (source_name : Value) → IsSound (stop_media host source_name)
  unfolding stop_media media_mutation
  stop_media-IsSound source_name = search media_rules depth 16

  pub seek_media-IsSound :
      (source_name : Value) (media_cursor_ms : Value)
      → IsSound (seek_media host source_name media_cursor_ms)
  unfolding seek_media media_mutation
  seek_media-IsSound source_name media_cursor_ms = search media_rules depth 16
