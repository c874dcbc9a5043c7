-- ===== src/Bridge/Calls.antt =====
-- The public methods of `ObsControlBridge` in src/dcc_mcp_obs/bridge.py as calls, and any sequence of
-- them on one bridge.
pub mod Arguments
pub mod Scenes
pub mod Items
pub mod Transform
pub mod Sources
pub mod Filters
pub mod Media
pub mod Windows
pub mod Overlays
pub mod SceneRecordings
pub mod SourceCalls
pub mod CaptureCalls
pub mod Outputs
pub mod Operator
pub mod Answers
pub mod Script
pub mod Sends
use dcc_mcp_obs.Value.{Value, Fields}
use dcc_mcp_obs.Exec.{Exec}
use dcc_mcp_obs.Bridge.Host.{Host}
use dcc_mcp_obs.Bridge.Session.{Session}
use dcc_mcp_obs.Bridge.Controls.Scenes.{
  status, list_scenes, get_current_scene, set_current_scene, set_current_preview_scene,
  create_scene, remove_scene, rename_scene, list_transitions, get_current_transition,
  set_current_transition, trigger_transition, get_studio_mode_status, get_current_preview_scene,
  set_studio_mode, trigger_studio_mode_transition,
}
use dcc_mcp_obs.Bridge.Controls.Items.{
  list_scene_items, get_scene_item, create_scene_item, set_scene_item_enabled, update_scene_item,
  remove_scene_item,
}
use dcc_mcp_obs.Bridge.Controls.Outputs.{
  start_streaming, stop_streaming, start_replay_buffer, stop_replay_buffer, start_virtual_camera,
  stop_virtual_camera, save_replay_buffer, start_output, stop_output, output_status,
}
use dcc_mcp_obs.Bridge.Controls.Operator.{
  list_profiles, get_current_profile, set_current_profile, list_scene_collections,
  get_current_scene_collection, set_current_scene_collection, list_allowlisted_hotkeys,
  trigger_allowlisted_hotkey, capture_source_screenshot, get_operator_status,
  request_graceful_shutdown, list_sources,
}
use dcc_mcp_obs.Bridge.Controls.Recording.{
  start_recording, stop_recording, pause_recording, resume_recording,
}
use dcc_mcp_obs.Bridge.Controls.Outputs.{
  recording_status, streaming_status, replay_buffer_status, virtual_camera_status, list_outputs,
}
use dcc_mcp_obs.Bridge.Controls.Transform.{set_scene_item_transform}
use dcc_mcp_obs.Bridge.Calls.SourceCalls.{SourceCall, perform_source}
use dcc_mcp_obs.Bridge.Calls.CaptureCalls.{CaptureCall, perform_capture}

-- A call of a public method, with its arguments.
pub data Call : Type 0 where
  call_status : Call
  call_list_scenes : Call
  call_get_current_scene : Call
  call_set_current_scene : Value → Call
  call_set_current_preview_scene : Value → Call
  call_create_scene : Value → Call
  call_remove_scene : Value → Call
  call_rename_scene : Value → Value → Call
  call_list_transitions : Call
  call_get_current_transition : Call
  call_set_current_transition : Value → Value → Call
  call_trigger_transition : Value → Call
  call_get_studio_mode_status : Call
  call_get_current_preview_scene : Call
  call_set_studio_mode : Value → Call
  call_trigger_studio_mode_transition : Call
  call_list_scene_items : Value → Call
  call_get_scene_item : Value → Value → Call
  call_create_scene_item : Value → Value → Value → Value → Call
  call_set_scene_item_enabled : Value → Value → Value → Call
  call_update_scene_item : Value → Value → Value → Call
  call_set_scene_item_transform : Value → Value → Value → Value → Value → Call
  call_remove_scene_item : Value → Value → Call
  call_start_streaming : Call
  call_stop_streaming : Call
  call_start_replay_buffer : Call
  call_stop_replay_buffer : Call
  call_start_virtual_camera : Call
  call_stop_virtual_camera : Call
  call_save_replay_buffer : Call
  call_start_output : Value → Call
  call_stop_output : Value → Call
  call_output_status : Value → Call
  call_list_profiles : Call
  call_get_current_profile : Call
  call_set_current_profile : Value → Call
  call_list_scene_collections : Call
  call_get_current_scene_collection : Call
  call_set_current_scene_collection : Value → Call
  call_list_allowlisted_hotkeys : Call
  call_trigger_allowlisted_hotkey : Value → Call
  call_capture_source_screenshot : Value → Value → Call
  call_get_operator_status : Call
  call_request_graceful_shutdown : Call
  call_list_sources : Value → Call
  call_recording_status : Call
  call_streaming_status : Call
  call_replay_buffer_status : Call
  call_virtual_camera_status : Call
  call_list_outputs : Call
  call_start_recording : Value → Call
  call_stop_recording : Call
  call_pause_recording : Call
  call_resume_recording : Call
  call_source : SourceCall → Call
  call_capture : CaptureCall → Call

unfoldable pub perform : Host → Call → Exec Session Fields
perform host call_status = status host
perform host call_list_scenes = list_scenes host
perform host call_get_current_scene = get_current_scene host
perform host (call_set_current_scene scene_name) = set_current_scene host scene_name
perform host (call_set_current_preview_scene scene_name) = set_current_preview_scene host scene_name
perform host (call_create_scene scene_name) = create_scene host scene_name
perform host (call_remove_scene scene_name) = remove_scene host scene_name
perform host (call_rename_scene scene_name new_scene_name) =
    rename_scene host scene_name new_scene_name
perform host call_list_transitions = list_transitions host
perform host call_get_current_transition = get_current_transition host
perform host (call_set_current_transition transition_name duration_ms) =
    set_current_transition host transition_name duration_ms
perform host (call_trigger_transition scene_name) = trigger_transition host scene_name
perform host call_get_studio_mode_status = get_studio_mode_status host
perform host call_get_current_preview_scene = get_current_preview_scene host
perform host (call_set_studio_mode enabled) = set_studio_mode host enabled
perform host call_trigger_studio_mode_transition = trigger_studio_mode_transition host
perform host (call_list_scene_items scene_name) = list_scene_items host scene_name
perform host (call_get_scene_item scene_name scene_item_id) =
    get_scene_item host scene_name scene_item_id
perform host (call_create_scene_item scene_name source_name source_kind enabled) =
    create_scene_item host scene_name source_name source_kind enabled
perform host (call_set_scene_item_enabled scene_name scene_item_id enabled) =
    set_scene_item_enabled host scene_name scene_item_id enabled
perform host (call_update_scene_item scene_name scene_item_id enabled) =
    update_scene_item host scene_name scene_item_id enabled
perform host (call_remove_scene_item scene_name scene_item_id) =
    remove_scene_item host scene_name scene_item_id
perform host call_start_streaming = start_streaming host
perform host call_stop_streaming = stop_streaming host
perform host call_start_replay_buffer = start_replay_buffer host
perform host call_stop_replay_buffer = stop_replay_buffer host
perform host call_start_virtual_camera = start_virtual_camera host
perform host call_stop_virtual_camera = stop_virtual_camera host
perform host call_save_replay_buffer = save_replay_buffer host
perform host (call_start_output output_name) = start_output host output_name
perform host (call_stop_output output_name) = stop_output host output_name
perform host (call_output_status output_name) = output_status host output_name
perform host call_list_profiles = list_profiles host
perform host call_get_current_profile = get_current_profile host
perform host (call_set_current_profile profile_name) = set_current_profile host profile_name
perform host call_list_scene_collections = list_scene_collections host
perform host call_get_current_scene_collection = get_current_scene_collection host
perform host (call_set_current_scene_collection collection_name) =
    set_current_scene_collection host collection_name
perform host call_list_allowlisted_hotkeys = list_allowlisted_hotkeys host
perform host (call_trigger_allowlisted_hotkey hotkey_id) = trigger_allowlisted_hotkey host hotkey_id
perform host (call_capture_source_screenshot source_name format) =
    capture_source_screenshot host source_name format
perform host call_get_operator_status = get_operator_status host
perform host call_request_graceful_shutdown = request_graceful_shutdown host
perform host (call_list_sources scene_name) = list_sources host scene_name
perform host (call_start_recording output_directory) = start_recording host output_directory
perform host call_stop_recording = stop_recording host
perform host call_pause_recording = pause_recording host
perform host call_resume_recording = resume_recording host
perform host call_recording_status = recording_status host
perform host call_streaming_status = streaming_status host
perform host call_replay_buffer_status = replay_buffer_status host
perform host call_virtual_camera_status = virtual_camera_status host
perform host call_list_outputs = list_outputs host
perform host (call_set_scene_item_transform scene_name scene_item_id position scale rotation) =
    set_scene_item_transform host scene_name scene_item_id position scale rotation
perform host (call_source call) = perform_source host call
perform host (call_capture call) = perform_capture host call
