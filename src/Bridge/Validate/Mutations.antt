-- ===== src/Bridge/Validate/Mutations.antt =====
-- `_validate_read_only_response` of src/dcc_mcp_obs/bridge.py: the acknowledgements of mutations.
use dcc_mcp_obs.Base.{String, ◌==◌, Bool, true, ◌&&◌, List, [], ◌∷◌, ◌++◌, mem_text, if◌then◌else◌}
use dcc_mcp_obs.Value.{Fields}
use dcc_mcp_obs.Value.Dict.{get, pick, keys_within}
use dcc_mcp_obs.Value.Check.{is_true, bool_type, text_type, text_between, equals_text, int_from}
use dcc_mcp_obs.Result.{Result, ok, ◌>>◌}
use dcc_mcp_obs.Bridge.Constants.{identity_keys}
use dcc_mcp_obs.Bridge.Validate.Items.{check, absent_or, name}
use dcc_mcp_obs.Bridge.Validate.Scenes.{
  check_window_capture_source, check_scene_item, item_payload, valid_window_capture_candidate,
}

unfoldable pub mutation_requests : List String
mutation_requests =
    ("StartRecording" ∷ "StopRecording" ∷ "PauseRecording" ∷ "ResumeRecording" ∷ "StartStreaming"
      ∷ "StopStreaming" ∷ "StartReplayBuffer" ∷ "StopReplayBuffer" ∷ "SaveReplayBuffer"
      ∷ "StartVirtualCamera" ∷ "StopVirtualCamera" ∷ "StartOutput" ∷ "StopOutput"
      ∷ "SetCurrentProfile" ∷ "SetCurrentSceneCollection" ∷ "SetCurrentScene" ∷ "CreateScene"
      ∷ "RenameScene" ∷ "RemoveScene" ∷ "CreateSceneItem" ∷ "CreateWindowCaptureSource"
      ∷ "RestoreWindowCaptureCandidate" ∷ "RebindWindowCaptureSource" ∷ "SetWindowCaptureMethod"
      ∷ "SetSceneItemEnabled" ∷ "SetSceneItemTransform" ∷ "RemoveSceneItem" ∷ "SetCurrentTransition"
      ∷ "TriggerTransition" ∷ "SetStudioMode" ∷ "SetCurrentPreviewScene"
      ∷ "TriggerStudioModeTransition" ∷ "TriggerAllowlistedHotkey" ∷ "RequestGracefulShutdown"
      ∷ "CreateAgentInputOverlay" ∷ "SetAgentInputOverlayLayout" ∷ "EmitAgentInputActivity"
      ∷ "ClearAgentInputOverlay" ∷ "CreatePresentationOverlay" ∷ "SetPresentationOverlayLayout"
      ∷ "UpdatePresentationOverlay" ∷ "StartSceneRecordings" ∷ "StopSceneRecordings"
      ∷ "CreateSource" ∷ "RenameSource" ∷ "RemoveSource" ∷ "SetInputSettings" ∷ "SetPropertyValue"
      ∷ "CreateFilter" ∷ "SetFilterEnabled" ∷ "SetFilterSettings" ∷ "RemoveFilter"
      ∷ "SetSourceVolume" ∷ "SetSourceMute" ∷ "SetSourceMonitorType" ∷ "PlayMedia" ∷ "PauseMedia"
      ∷ "RestartMedia" ∷ "StopMedia" ∷ "SeekMedia" ∷ [])

abbrev window_capture_mutations : List String
window_capture_mutations =
    ("CreateWindowCaptureSource" ∷ "RebindWindowCaptureSource" ∷ "SetWindowCaptureMethod" ∷ [])

abbrev scene_item_mutations : List String
scene_item_mutations =
    ("CreateSceneItem" ∷ "CreateWindowCaptureSource" ∷ "RebindWindowCaptureSource"
      ∷ "SetWindowCaptureMethod" ∷ "SetSceneItemEnabled" ∷ "SetSceneItemTransform"
      ∷ "RemoveSceneItem" ∷ [])

abbrev scene_item_keys : List String
scene_item_keys =
    ("sceneName" ∷ "sceneItemId" ∷ "sourceName" ∷ "sourceKind" ∷ "enabled" ∷ "capability" ∷ "posX"
      ∷ "posY" ∷ "scaleX" ∷ "scaleY" ∷ "rotation" ∷ [])

abbrev window_keys : List String
window_keys =
    ("processId" ∷ "windowHandle" ∷ "windowTitle" ∷ "windowClass" ∷ "executable" ∷ "captureCursor"
      ∷ "clientArea" ∷ "captureAudio" ∷ "captureMethod" ∷ "bindingVerified" ∷ [])

abbrev candidate_keys : List String
candidate_keys =
    ("processId" ∷ "windowHandle" ∷ "windowTitle" ∷ "windowClass" ∷ "executable" ∷ "visible"
      ∷ "minimized" ∷ "clientWidth" ∷ "clientHeight" ∷ "captureReady" ∷ [])

-- the first ladder of `allowed`
unfoldable pub target_keys : String → List String
target_keys rt =
    if rt == "SetCurrentProfile"
    then ("profileName" ∷ [])
    else if rt == "SetCurrentSceneCollection"
    then ("sceneCollectionName" ∷ [])
    else if rt == "TriggerAllowlistedHotkey"
    then ("hotkeyName" ∷ [])
    else if mem_text ("SetCurrentScene" ∷ "SetCurrentPreviewScene" ∷ []) rt
    then ("sceneName" ∷ [])
    else if mem_text ("CreateScene" ∷ "RemoveScene" ∷ []) rt
    then ("sceneName" ∷ "capability" ∷ [])
    else if rt == "RenameScene"
    then ("sceneName" ∷ "newSceneName" ∷ "capability" ∷ [])
    else if rt == "SetCurrentTransition"
    then ("transitionName" ∷ "durationMs" ∷ [])
    else if mem_text scene_item_mutations rt
    then (if mem_text window_capture_mutations rt
        then scene_item_keys ++ window_keys
        else scene_item_keys)
    else if rt == "RestoreWindowCaptureCandidate"
    then candidate_keys ++ ("capability" ∷ [])
    else if rt == "TriggerStudioModeTransition"
    then ("capability" ∷ [])
    else if rt == "TriggerTransition"
    then ("capability" ∷ "sceneName" ∷ [])
    else if rt == "SetStudioMode"
    then ("studioModeEnabled" ∷ "capability" ∷ [])
    else []

-- the second ladder
unfoldable pub result_keys : String → List String
result_keys rt =
    if rt == "SaveReplayBuffer"
    then ("submitted" ∷ [])
    else if rt == "RequestGracefulShutdown"
    then ("shutdownScheduled" ∷ [])
    else if mem_text ("EmitAgentInputActivity" ∷ "ClearAgentInputOverlay" ∷ []) rt
    then ("activitySequence" ∷ [])
    else if mem_text ("StartSceneRecordings" ∷ "StopSceneRecordings" ∷ []) rt
    then ("sessionId" ∷ [])
    else if mem_text ("RemoveSource" ∷ "RemoveFilter" ∷ []) rt
    then ("removed" ∷ [])
    else if rt == "RenameSource"
    then ("newSourceName" ∷ [])
    else []

-- `if request_type in rts and not test: raise …`
unfoldable pub required_of : List String → Bool → String → Result (Unit {0})
unfolding check
required_of rts test rt = if mem_text rts rt then check test else ok tt

-- the checks of the scene item or window binding that the acknowledgement carries
unfoldable pub check_item_mutation : String → Fields → Result (Unit {0})
unfolding check check_window_capture_source check_scene_item item_payload
check_item_mutation rt response =
    if mem_text window_capture_mutations rt
    then check_window_capture_source true response
    else if rt == "RemoveSceneItem"
    then check (int_from 1 (get "sceneItemId" response) && text_type (get "sceneName" response))
    else if mem_text scene_item_mutations rt
    then check_scene_item (item_payload response)
    else ok tt

unfoldable pub check_restored : String → Fields → Result (Unit {0})
unfolding check pick valid_window_capture_candidate
check_restored rt response =
    if rt == "RestoreWindowCaptureCandidate"
    then check (
        valid_window_capture_candidate (pick candidate_keys response)
        && equals_text "window_capture" (get "capability" response))
    else ok tt

unfoldable pub check_mutation : String → Fields → Result (Unit {0})
unfolding check target_keys result_keys required_of check_item_mutation check_restored
check_mutation rt response = do
  check (
      keys_within (identity_keys ++ ("accepted" ∷ []) ++ target_keys rt ++ result_keys rt) response)
  check (is_true (get "ok" response))
  check (bool_type (get "accepted" response))
  required_of ("SetCurrentScene" ∷ "SetCurrentPreviewScene" ∷ []) (name (get "sceneName" response))
      rt
  required_of ("SetCurrentTransition" ∷ []) (name (get "transitionName" response)) rt
  required_of ("TriggerTransition" ∷ []) (name (get "sceneName" response)) rt
  check_item_mutation rt response
  check_restored rt response
  required_of ("TriggerAllowlistedHotkey" ∷ []) (text_between 1 128 (get "hotkeyName" response)) rt
  required_of ("SaveReplayBuffer" ∷ []) (absent_or bool_type "submitted" response) rt
  required_of ("RequestGracefulShutdown" ∷ []) (is_true (get "shutdownScheduled" response)) rt
  required_of ("EmitAgentInputActivity" ∷ "ClearAgentInputOverlay" ∷ [])
      (int_from 1 (get "activitySequence" response)) rt
  required_of ("StartSceneRecordings" ∷ "StopSceneRecordings" ∷ [])
      (text_between 1 128 (get "sessionId" response)) rt
  required_of ("RemoveSource" ∷ "RemoveFilter" ∷ []) (is_true (get "removed" response)) rt
  required_of ("RenameSource" ∷ []) (name (get "newSourceName" response)) rt
