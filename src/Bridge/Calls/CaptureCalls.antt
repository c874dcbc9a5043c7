-- ===== src/Bridge/Calls/CaptureCalls.antt =====
-- The methods on window captures, the program frame, overlays and scene recordings in
-- src/dcc_mcp_obs/bridge.py as calls.
use dcc_mcp_obs.Value.{Value, Fields}
use dcc_mcp_obs.Exec.{Exec}
use dcc_mcp_obs.Bridge.Host.{Host}
use dcc_mcp_obs.Bridge.Session.{Session}
use dcc_mcp_obs.Bridge.Sound.{IsSound}
use dcc_mcp_obs.Bridge.Controls.Windows.{
  create_window_capture_source, list_window_capture_candidates, restore_window_capture_candidate,
  get_window_capture_source, rebind_window_capture_source, set_window_capture_method,
  set_window_capture_audio, capture_program_frame,
}
use dcc_mcp_obs.Bridge.Calls.Windows.{
  create_window_capture_source-IsSound, list_window_capture_candidates-IsSound,
  restore_window_capture_candidate-IsSound, get_window_capture_source-IsSound,
  rebind_window_capture_source-IsSound, set_window_capture_method-IsSound,
  set_window_capture_audio-IsSound, capture_program_frame-IsSound,
}
use dcc_mcp_obs.Bridge.Controls.AgentInput.{
  create_agent_input_overlay, get_agent_input_overlay, set_agent_input_overlay_layout,
  emit_agent_input_activity, clear_agent_input_overlay,
}
use dcc_mcp_obs.Bridge.Calls.Overlays.{
  create_agent_input_overlay-IsSound, get_agent_input_overlay-IsSound,
  set_agent_input_overlay_layout-IsSound, emit_agent_input_activity-IsSound,
  clear_agent_input_overlay-IsSound,
}
use dcc_mcp_obs.Bridge.Controls.Presentation.{
  get_presentation_overlay, create_presentation_overlay, set_presentation_overlay_layout,
  update_presentation_overlay,
}
use dcc_mcp_obs.Bridge.Calls.Overlays.{
  get_presentation_overlay-IsSound, create_presentation_overlay-IsSound,
  set_presentation_overlay_layout-IsSound, update_presentation_overlay-IsSound,
}
use dcc_mcp_obs.Bridge.Controls.SceneRecordings.{
  scene_recording_status, start_scene_recordings, stop_scene_recordings,
}
use dcc_mcp_obs.Bridge.Calls.SceneRecordings.{
  scene_recording_status-IsSound, start_scene_recordings-IsSound, stop_scene_recordings-IsSound,
}
use dcc_mcp_obs.Bridge.Controls.Windows.Matching.{CaptureArguments}

-- A call of a method on window captures, overlays or scene recordings, with its arguments.
pub data CaptureCall : Type 0 where
  call_create_window_capture_source : CaptureArguments → CaptureCall
  call_list_window_capture_candidates : Value → Value → CaptureCall
  call_restore_window_capture_candidate : Value → Value → Value → Value → CaptureCall
  call_get_window_capture_source : CaptureArguments → CaptureCall
  call_rebind_window_capture_source : Value → Value → Value → CaptureArguments → CaptureCall
  call_set_window_capture_method : CaptureArguments → CaptureCall
  call_set_window_capture_audio : CaptureArguments → CaptureCall
  call_capture_program_frame : CaptureCall
  call_create_agent_input_overlay : Value → Value → Value → CaptureCall
  call_get_agent_input_overlay : Value → Value → CaptureCall
  call_set_agent_input_overlay_layout : Value → Value → Value → Value → Value → CaptureCall
  call_emit_agent_input_activity :
      Value → Value → Value → Value → Value → Value → Value → Value → Value → CaptureCall
  call_clear_agent_input_overlay : Value → Value → CaptureCall
  call_get_presentation_overlay : Value → Value → CaptureCall
  call_create_presentation_overlay : Value → Value → Value → Value → Value → Value → CaptureCall
  call_set_presentation_overlay_layout : Value → Value → Value → Value → Value → Value → CaptureCall
  call_update_presentation_overlay : Value → Value → Value → Value → Value → Value → CaptureCall
  call_scene_recording_status : Value → CaptureCall
  call_start_scene_recordings : Value → CaptureCall
  call_stop_scene_recordings : Value → CaptureCall

unfoldable pub perform_capture : Host → CaptureCall → Exec Session Fields
perform_capture host (call_create_window_capture_source a) = create_window_capture_source host a
perform_capture host (call_list_window_capture_candidates executable window_title) =
    list_window_capture_candidates host executable window_title
perform_capture host
      (call_restore_window_capture_candidate executable process_id window_handle window_title) =
    restore_window_capture_candidate host executable process_id window_handle window_title
perform_capture host (call_get_window_capture_source a) = get_window_capture_source host a
perform_capture host
      (call_rebind_window_capture_source expected_process_id expected_window_handle
        expected_window_title a) =
    rebind_window_capture_source host expected_process_id expected_window_handle
      expected_window_title a
perform_capture host (call_set_window_capture_method a) = set_window_capture_method host a
perform_capture host (call_set_window_capture_audio a) = set_window_capture_audio host a
perform_capture host call_capture_program_frame = capture_program_frame host
perform_capture host (call_create_agent_input_overlay scene_name source_name anchor) =
    create_agent_input_overlay host scene_name source_name anchor
perform_capture host (call_get_agent_input_overlay scene_name source_name) =
    get_agent_input_overlay host scene_name source_name
perform_capture host
      (call_set_agent_input_overlay_layout scene_name anchor opacity margin source_name) =
    set_agent_input_overlay_layout host scene_name anchor opacity margin source_name
perform_capture host
      (call_emit_agent_input_activity scene_name event_kind source_name keys mouse_button
        wheel_direction character_count duration_ms agent_id) =
    emit_agent_input_activity host scene_name event_kind source_name keys mouse_button
      wheel_direction character_count duration_ms agent_id
perform_capture host (call_clear_agent_input_overlay scene_name source_name) =
    clear_agent_input_overlay host scene_name source_name
perform_capture host (call_get_presentation_overlay scene_name source_name) =
    get_presentation_overlay host scene_name source_name
perform_capture host
      (call_create_presentation_overlay scene_name source_name anchor opacity margin width) =
    create_presentation_overlay host scene_name source_name anchor opacity margin width
perform_capture host
      (call_set_presentation_overlay_layout scene_name anchor opacity margin width source_name) =
    set_presentation_overlay_layout host scene_name anchor opacity margin width source_name
perform_capture host
      (call_update_presentation_overlay scene_name title rows logo_path visible source_name) =
    update_presentation_overlay host scene_name title rows logo_path visible source_name
perform_capture host (call_scene_recording_status session_id) =
    scene_recording_status host session_id
perform_capture host (call_start_scene_recordings recordings) =
    start_scene_recordings host recordings
perform_capture host (call_stop_scene_recordings session_id) = stop_scene_recordings host session_id

pub perform_capture-IsSound :
    (host : Host) (call : CaptureCall) → IsSound (perform_capture host call)
unfolding perform_capture
perform_capture-IsSound host (call_create_window_capture_source a) =
    create_window_capture_source-IsSound host a
perform_capture-IsSound host (call_list_window_capture_candidates executable window_title) =
    list_window_capture_candidates-IsSound host executable window_title
perform_capture-IsSound host
      (call_restore_window_capture_candidate executable process_id window_handle window_title) =
    restore_window_capture_candidate-IsSound host executable process_id window_handle window_title
perform_capture-IsSound host (call_get_window_capture_source a) =
    get_window_capture_source-IsSound host a
perform_capture-IsSound host
      (call_rebind_window_capture_source expected_process_id expected_window_handle
        expected_window_title a) =
    rebind_window_capture_source-IsSound host expected_process_id expected_window_handle
      expected_window_title a
perform_capture-IsSound host (call_set_window_capture_method a) =
    set_window_capture_method-IsSound host a
perform_capture-IsSound host (call_set_window_capture_audio a) =
    set_window_capture_audio-IsSound host a
perform_capture-IsSound host call_capture_program_frame = capture_program_frame-IsSound host
perform_capture-IsSound host (call_create_agent_input_overlay scene_name source_name anchor) =
    create_agent_input_overlay-IsSound host scene_name source_name anchor
perform_capture-IsSound host (call_get_agent_input_overlay scene_name source_name) =
    get_agent_input_overlay-IsSound host scene_name source_name
perform_capture-IsSound host
      (call_set_agent_input_overlay_layout scene_name anchor opacity margin source_name) =
    set_agent_input_overlay_layout-IsSound host scene_name anchor opacity margin source_name
perform_capture-IsSound host
      (call_emit_agent_input_activity scene_name event_kind source_name keys mouse_button
        wheel_direction character_count duration_ms agent_id) =
    emit_agent_input_activity-IsSound host scene_name event_kind source_name keys mouse_button
      wheel_direction character_count duration_ms agent_id
perform_capture-IsSound host (call_clear_agent_input_overlay scene_name source_name) =
    clear_agent_input_overlay-IsSound host scene_name source_name
perform_capture-IsSound host (call_get_presentation_overlay scene_name source_name) =
    get_presentation_overlay-IsSound host scene_name source_name
perform_capture-IsSound host
      (call_create_presentation_overlay scene_name source_name anchor opacity margin width) =
    create_presentation_overlay-IsSound host scene_name source_name anchor opacity margin width
perform_capture-IsSound host
      (call_set_presentation_overlay_layout scene_name anchor opacity margin width source_name) =
    set_presentation_overlay_layout-IsSound host scene_name anchor opacity margin width source_name
perform_capture-IsSound host
      (call_update_presentation_overlay scene_name title rows logo_path visible source_name) =
    update_presentation_overlay-IsSound host scene_name title rows logo_path visible source_name
perform_capture-IsSound host (call_scene_recording_status session_id) =
    scene_recording_status-IsSound host session_id
perform_capture-IsSound host (call_start_scene_recordings recordings) =
    start_scene_recordings-IsSound host recordings
perform_capture-IsSound host (call_stop_scene_recordings session_id) =
    stop_scene_recordings-IsSound host session_id
