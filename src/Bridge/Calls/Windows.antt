-- ===== src/Bridge/Calls/Windows.antt =====
-- The methods of window capture and of the program frame in src/dcc_mcp_obs/bridge.py are sound.
use dcc_mcp_obs.Value.{Value}
use dcc_mcp_obs.Bridge.Host.{Host}
use dcc_mcp_obs.Bridge.Sound.{IsSound}
use dcc_mcp_obs.Bridge.Calls.Arguments.{call_rules}
use dcc_mcp_obs.Base.{◌&&◌, between, count}
use dcc_mcp_obs.Value.{str}
use dcc_mcp_obs.Result.Fails.{Fails, Fails-ok, Fails-if}
use dcc_mcp_obs.Bridge.Published.{IsPublished}
use dcc_mcp_obs.Bridge.Published.Scenes.{decode_program_frame-Fails}
use dcc_mcp_obs.Bridge.Calls.Arguments.{argument-Fails}
use dcc_mcp_obs.Bridge.Calls.Items.{optional_name-Fails}
use dcc_mcp_obs.Bridge.Controls.Windows.Matching.{
  CaptureArguments, window_capture_payload, separator_free, require_executable, require_window,
}
use dcc_mcp_obs.Bridge.Controls.Windows.{
  readback_window_capture, window_mutation, create_window_capture_source,
  list_window_capture_candidates, restore_window_capture_candidate, get_window_capture_source,
  rebind_window_capture_source, set_window_capture_method, set_window_capture_audio,
  capture_program_frame,
}

window_capture_payload-Fails : (a : CaptureArguments) → Fails IsPublished (window_capture_payload a)
unfolding window_capture_payload
window_capture_payload-Fails a = search call_rules depth 30

require_executable-Fails : (v : Value) → Fails IsPublished (require_executable v)
unfolding require_executable
require_executable-Fails (str s) =
    Fails-if (between 1 256 (count s) && separator_free s) _ _ (Fails-ok s) argument-Fails
require_executable-Fails _ = argument-Fails

require_window-Fails :
    (process_id window_handle : Value) → Fails IsPublished (require_window process_id window_handle)
unfolding require_window
require_window-Fails process_id window_handle = search call_rules depth 12

ruleset window_rules = (
  call_rules, window_capture_payload-Fails, require_executable-Fails, require_window-Fails,
  optional_name-Fails, decode_program_frame-Fails,
)

module _ (host : Host) where
  pub create_window_capture_source-IsSound :
      (a : CaptureArguments) → IsSound (create_window_capture_source host a)
  unfolding create_window_capture_source window_mutation readback_window_capture
  create_window_capture_source-IsSound a = search window_rules depth 20

  pub list_window_capture_candidates-IsSound :
      (executable : Value) (window_title : Value)
      → IsSound (list_window_capture_candidates host executable window_title)
  unfolding list_window_capture_candidates
  list_window_capture_candidates-IsSound executable window_title = search window_rules depth 20

  pub restore_window_capture_candidate-IsSound :
      (executable : Value) (process_id : Value) (window_handle : Value) (window_title : Value)
      → IsSound
          (restore_window_capture_candidate host executable process_id window_handle window_title)
  unfolding restore_window_capture_candidate
  restore_window_capture_candidate-IsSound executable process_id window_handle window_title =
      search window_rules depth 20

  pub get_window_capture_source-IsSound :
      (a : CaptureArguments) → IsSound (get_window_capture_source host a)
  unfolding get_window_capture_source readback_window_capture
  get_window_capture_source-IsSound a = search window_rules depth 20

  pub rebind_window_capture_source-IsSound :
      (expected_process_id : Value) (expected_window_handle : Value) (expected_window_title : Value)
      (a : CaptureArguments)
      → IsSound (
          rebind_window_capture_source host expected_process_id expected_window_handle
            expected_window_title a)
  unfolding rebind_window_capture_source window_mutation readback_window_capture
  rebind_window_capture_source-IsSound expected_process_id expected_window_handle
        expected_window_title a =
      search window_rules depth 20

  pub set_window_capture_method-IsSound :
      (a : CaptureArguments) → IsSound (set_window_capture_method host a)
  unfolding set_window_capture_method window_mutation readback_window_capture
  set_window_capture_method-IsSound a = search window_rules depth 20

  pub set_window_capture_audio-IsSound :
      (a : CaptureArguments) → IsSound (set_window_capture_audio host a)
  unfolding set_window_capture_audio set_window_capture_method window_mutation
      readback_window_capture
  set_window_capture_audio-IsSound a = search window_rules depth 20

  pub capture_program_frame-IsSound : IsSound (capture_program_frame host)
  unfolding capture_program_frame
  capture_program_frame-IsSound = search window_rules depth 20
