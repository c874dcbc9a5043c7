-- ===== src/Transport/Requests.antt =====
-- The request types of src/dcc_mcp_obs/protocol.py: `VENDOR_REQUESTS` and `MUTATING_VENDOR_REQUESTS`.
use dcc_mcp_obs.Base.{String, List, [], ◌∷◌}

unfoldable pub vendor_requests : List String
vendor_requests =
    "GetPluginStatus" ∷ "GetOperatorStatus" ∷ "RequestGracefulShutdown" ∷ "CreateAgentInputOverlay"
    ∷ "GetAgentInputOverlay" ∷ "SetAgentInputOverlayLayout" ∷ "EmitAgentInputActivity"
    ∷ "ClearAgentInputOverlay" ∷ "CreatePresentationOverlay" ∷ "GetPresentationOverlay"
    ∷ "SetPresentationOverlayLayout" ∷ "UpdatePresentationOverlay" ∷ "ListScenes"
    ∷ "GetCurrentScene" ∷ "SetCurrentScene" ∷ "CreateScene" ∷ "RenameScene" ∷ "RemoveScene"
    ∷ "ListSources" ∷ "GetSourceIdentity" ∷ "CreateSource" ∷ "RenameSource" ∷ "RemoveSource"
    ∷ "ListInputKinds" ∷ "GetInputSettings" ∷ "SetInputSettings" ∷ "DescribeProperties"
    ∷ "ValidatePropertyValue" ∷ "SetPropertyValue" ∷ "ListFilters" ∷ "GetFilter" ∷ "CreateFilter"
    ∷ "SetFilterEnabled" ∷ "SetFilterSettings" ∷ "RemoveFilter" ∷ "GetSourceVolume"
    ∷ "SetSourceVolume" ∷ "GetSourceMute" ∷ "SetSourceMute" ∷ "GetSourceMonitorType"
    ∷ "SetSourceMonitorType" ∷ "GetMediaStatus" ∷ "PlayMedia" ∷ "PauseMedia" ∷ "RestartMedia"
    ∷ "StopMedia" ∷ "SeekMedia" ∷ "ListSceneItems" ∷ "GetSceneItem" ∷ "CreateSceneItem"
    ∷ "CreateWindowCaptureSource" ∷ "GetWindowCaptureSource" ∷ "ListWindowCaptureCandidates"
    ∷ "RestoreWindowCaptureCandidate" ∷ "RebindWindowCaptureSource" ∷ "SetWindowCaptureMethod"
    ∷ "RemoveSceneItem" ∷ "SetSceneItemEnabled" ∷ "SetSceneItemTransform" ∷ "ListTransitions"
    ∷ "GetCurrentTransition" ∷ "SetCurrentTransition" ∷ "TriggerTransition" ∷ "GetStudioModeStatus"
    ∷ "SetStudioMode" ∷ "GetCurrentPreviewScene" ∷ "SetCurrentPreviewScene"
    ∷ "TriggerStudioModeTransition" ∷ "GetRecordingStatus" ∷ "StartRecording" ∷ "StopRecording"
    ∷ "PauseRecording" ∷ "ResumeRecording" ∷ "StartSceneRecordings" ∷ "GetSceneRecordingSession"
    ∷ "StopSceneRecordings" ∷ "GetStreamingStatus" ∷ "StartStreaming" ∷ "StopStreaming"
    ∷ "GetReplayBufferStatus" ∷ "StartReplayBuffer" ∷ "StopReplayBuffer" ∷ "SaveReplayBuffer"
    ∷ "GetVirtualCameraStatus" ∷ "StartVirtualCamera" ∷ "StopVirtualCamera" ∷ "ListOutputs"
    ∷ "GetOutputStatus" ∷ "StartOutput" ∷ "StopOutput" ∷ "ListProfiles" ∷ "GetCurrentProfile"
    ∷ "SetCurrentProfile" ∷ "ListSceneCollections" ∷ "GetCurrentSceneCollection"
    ∷ "SetCurrentSceneCollection" ∷ "ListAllowlistedHotkeys" ∷ "TriggerAllowlistedHotkey"
    ∷ "CaptureScreenshot" ∷ "CaptureSourceScreenshot" ∷ "CaptureProgramFrame" ∷ []

unfoldable pub mutating_vendor_requests : List String
mutating_vendor_requests =
    "StartRecording" ∷ "StopRecording" ∷ "PauseRecording" ∷ "ResumeRecording" ∷ "StartStreaming"
    ∷ "StopStreaming" ∷ "StartReplayBuffer" ∷ "StopReplayBuffer" ∷ "SaveReplayBuffer"
    ∷ "StartVirtualCamera" ∷ "StopVirtualCamera" ∷ "StartOutput" ∷ "StopOutput"
    ∷ "SetCurrentProfile" ∷ "SetCurrentSceneCollection" ∷ "SetCurrentScene" ∷ "CreateScene"
    ∷ "RenameScene" ∷ "RemoveScene" ∷ "CreateSceneItem" ∷ "CreateWindowCaptureSource"
    ∷ "RestoreWindowCaptureCandidate" ∷ "RebindWindowCaptureSource" ∷ "SetWindowCaptureMethod"
    ∷ "RemoveSceneItem" ∷ "SetSceneItemEnabled" ∷ "SetSceneItemTransform"
    ∷ "RequestGracefulShutdown" ∷ "CreateAgentInputOverlay" ∷ "SetAgentInputOverlayLayout"
    ∷ "EmitAgentInputActivity" ∷ "ClearAgentInputOverlay" ∷ "CreatePresentationOverlay"
    ∷ "SetPresentationOverlayLayout" ∷ "UpdatePresentationOverlay" ∷ "StartSceneRecordings"
    ∷ "StopSceneRecordings" ∷ "SetCurrentTransition" ∷ "TriggerTransition"
    ∷ "SetCurrentPreviewScene" ∷ "SetStudioMode" ∷ "TriggerStudioModeTransition"
    ∷ "TriggerAllowlistedHotkey" ∷ "CaptureScreenshot" ∷ "CaptureSourceScreenshot" ∷ "CreateSource"
    ∷ "RenameSource" ∷ "RemoveSource" ∷ "SetInputSettings" ∷ "SetPropertyValue" ∷ "CreateFilter"
    ∷ "SetFilterEnabled" ∷ "SetFilterSettings" ∷ "RemoveFilter" ∷ "SetSourceVolume"
    ∷ "SetSourceMute" ∷ "SetSourceMonitorType" ∷ "PlayMedia" ∷ "PauseMedia" ∷ "RestartMedia"
    ∷ "StopMedia" ∷ "SeekMedia" ∷ []
