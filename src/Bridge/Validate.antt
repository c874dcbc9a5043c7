-- ===== src/Bridge/Validate.antt =====
-- `_validate_read_only_response` of src/dcc_mcp_obs/bridge.py: the check that every response passes
-- before the bridge uses it, by request type. The child modules check the types, a group each.
pub mod Items
pub mod Scenes
pub mod Overlays
pub mod Recordings
pub mod Navigation
pub mod Sources
pub mod Mutations
use dcc_mcp_obs.Base.{
  ℕ, zero, suc, ◌+◌, ◌-◌, ◌*◌, ◌^◌, ◌≤◌, ◌<◌, String, count, ◌==◌, Bool, true, false, not, ◌&&◌,
  ◌||◌, List, [], ◌∷◌, ◌++◌, Option, none, some, length, take, drop, between, leb, ltb, nat_eq, all,
  mem_text, if◌then◌else◌,
}
use dcc_mcp_obs.Value.{
  ℤ, pos, negsuc, Value, null, bool, int, float, str, list, dict, Fields, end, field, elements,
}
use dcc_mcp_obs.Value.Dict.{get, has, put, pick, keys_within, has_all, keys_equal}
use dcc_mcp_obs.Value.Float.{magnitude_at_most, float_from_zero}
use dcc_mcp_obs.Value.Text.{
  split_commas, strip_prefix, ends_with, all_codes, printable, base_name, before_dot,
}
use dcc_mcp_obs.Value.Check.{
  is_true, is_false, is_null, bool_type, text_type, text_between, equals_text, int_type, int_from,
  int_between, list_type, dict_type, items_of, need, need_member, hashable, in_texts, number_finite,
  number_type,
}
use dcc_mcp_obs.Result.{
  Error, bridge_error, type_error, attribute_error, Result, ok, err, ◌>>=◌, ◌>>◌,
}
use dcc_mcp_obs.Bridge.Constants.{identity_keys}
use dcc_mcp_obs.Bridge.Host.{Library}
use dcc_mcp_obs.Bridge.Validate.Items.{
  check, check_member, allows, exactly, dict_with, dicts_between, null_or, absent_or, name,
}
use dcc_mcp_obs.Bridge.Frame.{decode_program_frame}
use Items.{check as check_that}
use Scenes.{
  check_plugin_status, check_scenes, check_window_capture_candidates, check_current_scene,
  check_scene_items, check_scene_item_readback, check_window_capture_source,
}
use Overlays.{check_agent_input_overlay, check_presentation_overlay}
use Recordings.{
  check_scene_recording_session, check_recording_status, check_flag, check_outputs,
  check_output_status, check_screenshot,
}
use Navigation.{
  check_transitions, check_current_transition, check_current_preview_scene,
  check_studio_mode_status, check_names, check_current_name, check_hotkeys, check_operator_status,
}
use Sources.{
  check_sources, check_source_identity, check_input_kinds, check_input_settings, check_properties,
  check_property_value, check_filters, check_filter, check_source_volume, check_source_mute,
  check_source_monitor_type, check_media_status,
}
use Mutations.{mutation_requests, check_mutation}

-- The request types whose response must carry every identity key and `"ok": True`.
unfoldable pub identified_requests : List String
identified_requests =
    ("GetPluginStatus" ∷ "ListWindowCaptureCandidates" ∷ "ListScenes" ∷ "GetCurrentScene"
      ∷ "ListSceneItems" ∷ "GetSceneItem" ∷ "ListTransitions" ∷ "GetCurrentTransition"
      ∷ "GetStudioModeStatus" ∷ "GetCurrentPreviewScene" ∷ "ListProfiles" ∷ "GetCurrentProfile"
      ∷ "ListSceneCollections" ∷ "GetCurrentSceneCollection" ∷ "ListSources" ∷ "GetSourceIdentity"
      ∷ "ListInputKinds" ∷ "GetInputSettings" ∷ "DescribeProperties" ∷ "ValidatePropertyValue"
      ∷ "ListFilters" ∷ "GetFilter" ∷ "GetSourceVolume" ∷ "GetSourceMute" ∷ "GetSourceMonitorType"
      ∷ "GetMediaStatus" ∷ "GetRecordingStatus" ∷ "GetStreamingStatus" ∷ "GetReplayBufferStatus"
      ∷ "GetVirtualCameraStatus" ∷ "ListOutputs" ∷ "GetOutputStatus" ∷ "ListAllowlistedHotkeys"
      ∷ "GetOperatorStatus" ∷ "GetAgentInputOverlay" ∷ "GetSceneRecordingSession"
      ∷ "CaptureScreenshot" ∷ "CaptureProgramFrame" ∷ [])

unfoldable pub check_program_frame : Library → Fields → Result (Unit {0})
check_program_frame lib response = do image ← decode_program_frame lib response; ok tt

unfoldable pub validate_mutation : String → Fields → Result (Unit {0})
unfolding mutation_requests
validate_mutation rt response =
    if mem_text mutation_requests rt then check_mutation rt response else ok tt

unfoldable pub validate_output : Library → String → Fields → Result (Unit {0})
validate_output lib rt response =
    if rt == "GetRecordingStatus"
    then check_recording_status response
    else if rt == "GetStreamingStatus"
    then check_flag "streamingActive" response
    else if rt == "GetReplayBufferStatus"
    then check_flag "replayBufferActive" response
    else if rt == "GetVirtualCameraStatus"
    then check_flag "virtualCameraActive" response
    else if rt == "ListOutputs"
    then check_outputs response
    else if rt == "GetOutputStatus"
    then check_output_status response
    else if rt == "ListAllowlistedHotkeys"
    then check_hotkeys response
    else if rt == "GetOperatorStatus"
    then check_operator_status response
    else if rt == "CaptureScreenshot"
    then check_screenshot response
    else if rt == "CaptureProgramFrame"
    then check_program_frame lib response
    else validate_mutation rt response

unfoldable pub validate_source : Library → String → Fields → Result (Unit {0})
validate_source lib rt response =
    if rt == "ListSources"
    then check_sources response
    else if rt == "GetSourceIdentity"
    then check_source_identity response
    else if rt == "ListInputKinds"
    then check_input_kinds response
    else if rt == "GetInputSettings"
    then check_input_settings response
    else if rt == "DescribeProperties"
    then check_properties response
    else if rt == "ValidatePropertyValue"
    then check_property_value response
    else if rt == "ListFilters"
    then check_filters response
    else if rt == "GetFilter"
    then check_filter lib response
    else if rt == "GetSourceVolume"
    then check_source_volume response
    else if rt == "GetSourceMute"
    then check_source_mute response
    else if rt == "GetSourceMonitorType"
    then check_source_monitor_type response
    else if rt == "GetMediaStatus"
    then check_media_status response
    else validate_output lib rt response

unfoldable pub validate_navigation : Library → String → Fields → Result (Unit {0})
validate_navigation lib rt response =
    if rt == "ListTransitions"
    then check_transitions response
    else if rt == "GetCurrentTransition"
    then check_current_transition response
    else if rt == "GetCurrentPreviewScene"
    then check_current_preview_scene response
    else if rt == "GetStudioModeStatus"
    then check_studio_mode_status response
    else if rt == "ListProfiles"
    then check_names "profiles" "profileName" "currentProfileName" response
    else if rt == "ListSceneCollections"
    then check_names "sceneCollections" "sceneCollectionName" "currentSceneCollectionName" response
    else if rt == "GetCurrentProfile"
    then check_current_name "profileName" response
    else if rt == "GetCurrentSceneCollection"
    then check_current_name "sceneCollectionName" response
    else validate_source lib rt response

unfoldable pub validate_scene : Library → String → Fields → Result (Unit {0})
validate_scene lib rt response =
    if rt == "GetPluginStatus"
    then check_plugin_status response
    else if rt == "ListScenes"
    then check_scenes response
    else if rt == "ListWindowCaptureCandidates"
    then check_window_capture_candidates response
    else if rt == "GetCurrentScene"
    then check_current_scene response
    else if rt == "ListSceneItems"
    then check_scene_items response
    else if rt == "GetSceneItem"
    then check_scene_item_readback response
    else if rt == "GetWindowCaptureSource"
    then check_window_capture_source false response
    else if rt == "GetAgentInputOverlay"
    then check_agent_input_overlay response
    else if rt == "GetPresentationOverlay"
    then check_presentation_overlay lib response
    else if rt == "GetSceneRecordingSession"
    then check_scene_recording_session lib response
    else validate_navigation lib rt response

unfoldable pub validate_read_only_response : Library → String → Fields → Result (Unit {0})
unfolding identified_requests
validate_read_only_response lib rt response = do
  check (
      not (mem_text identified_requests rt)
      || (has_all identity_keys response && is_true (get "ok" response)))
  validate_scene lib rt response
