-- ===== src/Bridge/Calls/Script.antt =====
-- Sequences of calls of the public methods in src/dcc_mcp_obs/bridge.py.
use dcc_mcp_obs.Base.{◌≤◌, List, [], ◌∷◌, arith}
use dcc_mcp_obs.Bridge.Host.{Host}
use dcc_mcp_obs.Bridge.Session.{Session}
use dcc_mcp_obs.Bridge.Reconcile.Trace.{Later, Later-refl, Later-trans}
use dcc_mcp_obs.Bridge.Controls.Recording.{stop_recording, pause_recording, resume_recording}
use dcc_mcp_obs.Bridge.Controls.Recording.Ends.{
  IsMonotonic, Ends, recording_mutation-Ends, start_recording-Ends, sound-Ends,
}
use dcc_mcp_obs.Bridge.Calls.{
  Call, perform, call_status, call_list_scenes, call_get_current_scene, call_set_current_scene,
  call_set_current_preview_scene, call_create_scene, call_remove_scene, call_rename_scene,
  call_list_transitions, call_get_current_transition, call_set_current_transition,
  call_trigger_transition, call_get_studio_mode_status, call_get_current_preview_scene,
  call_set_studio_mode, call_trigger_studio_mode_transition, call_list_scene_items,
  call_get_scene_item, call_create_scene_item, call_set_scene_item_enabled, call_update_scene_item,
  call_remove_scene_item, call_start_streaming, call_stop_streaming, call_start_replay_buffer,
  call_stop_replay_buffer, call_start_virtual_camera, call_stop_virtual_camera,
  call_save_replay_buffer, call_start_output, call_stop_output, call_output_status,
  call_list_profiles, call_get_current_profile, call_set_current_profile,
  call_list_scene_collections, call_get_current_scene_collection, call_set_current_scene_collection,
  call_list_allowlisted_hotkeys, call_trigger_allowlisted_hotkey, call_capture_source_screenshot,
  call_get_operator_status, call_request_graceful_shutdown, call_list_sources, call_start_recording,
  call_stop_recording, call_pause_recording, call_resume_recording,
}
use dcc_mcp_obs.Bridge.Calls.Scenes.{
  status-IsSound, list_scenes-IsSound, get_current_scene-IsSound, set_current_scene-IsSound,
  set_current_preview_scene-IsSound, create_scene-IsSound, remove_scene-IsSound,
  rename_scene-IsSound, list_transitions-IsSound, get_current_transition-IsSound,
  set_current_transition-IsSound, trigger_transition-IsSound, get_studio_mode_status-IsSound,
  get_current_preview_scene-IsSound, set_studio_mode-IsSound,
  trigger_studio_mode_transition-IsSound,
}
use dcc_mcp_obs.Bridge.Calls.Items.{
  list_scene_items-IsSound, get_scene_item-IsSound, create_scene_item-IsSound,
  set_scene_item_enabled-IsSound, update_scene_item-IsSound, remove_scene_item-IsSound,
}
use dcc_mcp_obs.Bridge.Calls.Outputs.{
  start_streaming-IsSound, stop_streaming-IsSound, start_replay_buffer-IsSound,
  stop_replay_buffer-IsSound, start_virtual_camera-IsSound, stop_virtual_camera-IsSound,
  save_replay_buffer-IsSound, start_output-IsSound, stop_output-IsSound, output_status-IsSound,
}
use dcc_mcp_obs.Bridge.Calls.Operator.{
  list_profiles-IsSound, get_current_profile-IsSound, set_current_profile-IsSound,
  list_scene_collections-IsSound, get_current_scene_collection-IsSound,
  set_current_scene_collection-IsSound, list_allowlisted_hotkeys-IsSound,
  trigger_allowlisted_hotkey-IsSound, capture_source_screenshot-IsSound,
  get_operator_status-IsSound, request_graceful_shutdown-IsSound, list_sources-IsSound,
}
use dcc_mcp_obs.Bridge.Calls.{
  call_recording_status, call_streaming_status, call_replay_buffer_status,
  call_virtual_camera_status, call_list_outputs,
}
use dcc_mcp_obs.Bridge.Calls.Outputs.{
  recording_status-IsSound, streaming_status-IsSound, replay_buffer_status-IsSound,
  virtual_camera_status-IsSound, list_outputs-IsSound,
}
use dcc_mcp_obs.Bridge.Calls.{call_set_scene_item_transform, call_source, call_capture}
use dcc_mcp_obs.Bridge.Calls.SourceCalls.{perform_source-IsSound}
use dcc_mcp_obs.Bridge.Calls.CaptureCalls.{perform_capture-IsSound}
use dcc_mcp_obs.Bridge.Calls.Transform.{set_scene_item_transform-IsSound}

module _ (host : Host) (ticks : IsMonotonic host) where
  -- Whatever public method is called, with whatever arguments, and however OBS answers: if the
  -- clock never goes back, a sleep lasts as long as asked, and the interval between two readbacks is at
  -- least one tick, the call ends with an answer or with an error that has a published code or is an
  -- exception of Python's own, never out of fuel, on the same bridge, and its event sequence has not fallen.
  pub perform-Ends :
      (call : Call) (s : Session) → 1 ≤ s.postcondition_poll_seconds → Ends s (perform host call s)
  unfolding perform stop_recording pause_recording resume_recording
  perform-Ends call_status s interval = sound-Ends (status-IsSound host) s
  perform-Ends call_list_scenes s interval = sound-Ends (list_scenes-IsSound host) s
  perform-Ends call_get_current_scene s interval = sound-Ends (get_current_scene-IsSound host) s
  perform-Ends (call_set_current_scene scene_name) s interval =
      sound-Ends (set_current_scene-IsSound host scene_name) s
  perform-Ends (call_set_current_preview_scene scene_name) s interval =
      sound-Ends (set_current_preview_scene-IsSound host scene_name) s
  perform-Ends (call_create_scene scene_name) s interval =
      sound-Ends (create_scene-IsSound host scene_name) s
  perform-Ends (call_remove_scene scene_name) s interval =
      sound-Ends (remove_scene-IsSound host scene_name) s
  perform-Ends (call_rename_scene scene_name new_scene_name) s interval =
      sound-Ends (rename_scene-IsSound host scene_name new_scene_name) s
  perform-Ends call_list_transitions s interval = sound-Ends (list_transitions-IsSound host) s
  perform-Ends call_get_current_transition s interval =
      sound-Ends (get_current_transition-IsSound host) s
  perform-Ends (call_set_current_transition transition_name duration_ms) s interval =
      sound-Ends (set_current_transition-IsSound host transition_name duration_ms) s
  perform-Ends (call_trigger_transition scene_name) s interval =
      sound-Ends (trigger_transition-IsSound host scene_name) s
  perform-Ends call_get_studio_mode_status s interval =
      sound-Ends (get_studio_mode_status-IsSound host) s
  perform-Ends call_get_current_preview_scene s interval =
      sound-Ends (get_current_preview_scene-IsSound host) s
  perform-Ends (call_set_studio_mode enabled) s interval =
      sound-Ends (set_studio_mode-IsSound host enabled) s
  perform-Ends call_trigger_studio_mode_transition s interval =
      sound-Ends (trigger_studio_mode_transition-IsSound host) s
  perform-Ends (call_list_scene_items scene_name) s interval =
      sound-Ends (list_scene_items-IsSound host scene_name) s
  perform-Ends (call_get_scene_item scene_name scene_item_id) s interval =
      sound-Ends (get_scene_item-IsSound host scene_name scene_item_id) s
  perform-Ends (call_create_scene_item scene_name source_name source_kind enabled) s interval =
      sound-Ends (create_scene_item-IsSound host scene_name source_name source_kind enabled) s
  perform-Ends (call_set_scene_item_enabled scene_name scene_item_id enabled) s interval =
      sound-Ends (set_scene_item_enabled-IsSound host scene_name scene_item_id enabled) s
  perform-Ends (call_update_scene_item scene_name scene_item_id enabled) s interval =
      sound-Ends (update_scene_item-IsSound host scene_name scene_item_id enabled) s
  perform-Ends (call_remove_scene_item scene_name scene_item_id) s interval =
      sound-Ends (remove_scene_item-IsSound host scene_name scene_item_id) s
  perform-Ends call_start_streaming s interval = sound-Ends (start_streaming-IsSound host) s
  perform-Ends call_stop_streaming s interval = sound-Ends (stop_streaming-IsSound host) s
  perform-Ends call_start_replay_buffer s interval = sound-Ends (start_replay_buffer-IsSound host) s
  perform-Ends call_stop_replay_buffer s interval = sound-Ends (stop_replay_buffer-IsSound host) s
  perform-Ends call_start_virtual_camera s interval =
      sound-Ends (start_virtual_camera-IsSound host) s
  perform-Ends call_stop_virtual_camera s interval = sound-Ends (stop_virtual_camera-IsSound host) s
  perform-Ends call_save_replay_buffer s interval = sound-Ends (save_replay_buffer-IsSound host) s
  perform-Ends (call_start_output output_name) s interval =
      sound-Ends (start_output-IsSound host output_name) s
  perform-Ends (call_stop_output output_name) s interval =
      sound-Ends (stop_output-IsSound host output_name) s
  perform-Ends (call_output_status output_name) s interval =
      sound-Ends (output_status-IsSound host output_name) s
  perform-Ends call_list_profiles s interval = sound-Ends (list_profiles-IsSound host) s
  perform-Ends call_get_current_profile s interval = sound-Ends (get_current_profile-IsSound host) s
  perform-Ends (call_set_current_profile profile_name) s interval =
      sound-Ends (set_current_profile-IsSound host profile_name) s
  perform-Ends call_list_scene_collections s interval =
      sound-Ends (list_scene_collections-IsSound host) s
  perform-Ends call_get_current_scene_collection s interval =
      sound-Ends (get_current_scene_collection-IsSound host) s
  perform-Ends (call_set_current_scene_collection collection_name) s interval =
      sound-Ends (set_current_scene_collection-IsSound host collection_name) s
  perform-Ends call_list_allowlisted_hotkeys s interval =
      sound-Ends (list_allowlisted_hotkeys-IsSound host) s
  perform-Ends (call_trigger_allowlisted_hotkey hotkey_id) s interval =
      sound-Ends (trigger_allowlisted_hotkey-IsSound host hotkey_id) s
  perform-Ends (call_capture_source_screenshot source_name format) s interval =
      sound-Ends (capture_source_screenshot-IsSound host source_name format) s
  perform-Ends call_get_operator_status s interval = sound-Ends (get_operator_status-IsSound host) s
  perform-Ends call_request_graceful_shutdown s interval =
      sound-Ends (request_graceful_shutdown-IsSound host) s
  perform-Ends (call_list_sources scene_name) s interval =
      sound-Ends (list_sources-IsSound host scene_name) s
  perform-Ends call_recording_status s interval = sound-Ends (recording_status-IsSound host) s
  perform-Ends call_streaming_status s interval = sound-Ends (streaming_status-IsSound host) s
  perform-Ends call_replay_buffer_status s interval =
      sound-Ends (replay_buffer_status-IsSound host) s
  perform-Ends call_virtual_camera_status s interval =
      sound-Ends (virtual_camera_status-IsSound host) s
  perform-Ends call_list_outputs s interval = sound-Ends (list_outputs-IsSound host) s
  perform-Ends (call_set_scene_item_transform scene_name scene_item_id position scale rotation) s
        interval =
      sound-Ends
        (set_scene_item_transform-IsSound host scene_name scene_item_id position scale rotation) s
  perform-Ends (call_start_recording output_directory) s interval =
      start_recording-Ends host ticks output_directory s interval
  perform-Ends call_stop_recording s interval = recording_mutation-Ends host ticks _ _ _ s interval
  perform-Ends call_pause_recording s interval = recording_mutation-Ends host ticks _ _ _ s interval
  perform-Ends call_resume_recording s interval =
      recording_mutation-Ends host ticks _ _ _ s interval
  perform-Ends (call_source call) s interval = sound-Ends (perform_source-IsSound host call) s
  perform-Ends (call_capture call) s interval = sound-Ends (perform_capture-IsSound host call) s

-- The bridge after a sequence of calls, whatever each of them has answered.
unfoldable pub session_after : Host → List Call → Session → Session
session_after host [] s = s
session_after host (call ∷ calls) s = session_after host calls (perform host call s).1

-- After any sequence of modelled calls the bridge has the identity and the settings that it had, and its
-- event sequence has not fallen, if the clock never goes back, a sleep lasts as long as asked, and the
-- interval between two readbacks is at least one tick.
pub session_after-Later :
    (host : Host)
    → IsMonotonic host
    → (calls : List Call) (s : Session) → 1 ≤ s.postcondition_poll_seconds
    → Later s (session_after host calls s)
unfolding session_after
session_after-Later host ticks [] s interval = Later-refl s
session_after-Later host ticks (call ∷ calls) s interval =
    let first = (perform-Ends host ticks call s interval).later in
    Later-trans first (
      session_after-Later host ticks calls (perform host call s).1
        (omega (arith, first.same.interval)))
