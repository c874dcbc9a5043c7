-- ===== src/Bridge/Constants.antt =====
-- The constants of src/dcc_mcp_obs/bridge.py, and `_public_error_code`.
use dcc_mcp_obs.Base.{ℕ, ◌*◌, String, count, ◌&&◌, List, [], ◌∷◌, between, mem_text, if◌then◌else◌}
use dcc_mcp_obs.Value.{Value, str}

abbrev pub version : String
version = "1.5.2"

-- Times are natural numbers of a fixed tick, the resolution of `time.monotonic`: a nanosecond.
abbrev pub second : ℕ
second = 1_000_000_000

abbrev pub default_operation_timeout_seconds : ℕ
default_operation_timeout_seconds = 30 * second

abbrev pub stop_recording_return_margin_seconds : ℕ
stop_recording_return_margin_seconds = 1 * second

abbrev pub max_public_error_code_length : ℕ
max_public_error_code_length = 64

unfoldable pub allowlisted_hotkeys : List String
allowlisted_hotkeys =
    "start_recording" ∷ "stop_recording" ∷ "start_streaming" ∷ "stop_streaming"
    ∷ "start_replay_buffer" ∷ "stop_replay_buffer" ∷ "start_virtual_camera" ∷ "stop_virtual_camera"
    ∷ "OBSBasic.StartRecording" ∷ "OBSBasic.StopRecording" ∷ "OBSBasic.StartStreaming"
    ∷ "OBSBasic.StopStreaming" ∷ "OBSBasic.StartReplayBuffer" ∷ "OBSBasic.StopReplayBuffer"
    ∷ "OBSBasic.StartVirtualCam" ∷ "OBSBasic.StopVirtualCam" ∷ []

unfoldable pub public_downstream_errors : List String
public_downstream_errors =
    "OBS_ARGUMENT_INVALID" ∷ "OBS_AUTHENTICATION_FAILED" ∷ "OBS_AUTHENTICATION_REQUIRED"
    ∷ "OBS_CONNECTION_FAILED" ∷ "OBS_EVENT_OVERFLOW" ∷ "OBS_FRAME_TOO_LARGE"
    ∷ "OBS_HANDSHAKE_INVALID" ∷ "OBS_INSTANCE_NOT_READY" ∷ "OBS_RECORDING_NOT_ACTIVE"
    ∷ "OBS_RECORDING_PATH_INVALID" ∷ "OBS_REQUEST_FAILED" ∷ "OBS_REQUEST_INVALID"
    ∷ "OBS_RESPONSE_INVALID" ∷ "OBS_RESPONSE_MISMATCH" ∷ "OBS_SCENE_NOT_FOUND"
    ∷ "OBS_SCENE_ITEM_NOT_FOUND" ∷ "OBS_SOURCE_NOT_FOUND" ∷ "OBS_TRANSITION_NOT_FOUND"
    ∷ "OBS_STUDIO_MODE_INACTIVE" ∷ "OBS_OUTPUT_NOT_FOUND" ∷ "OBS_OUTPUT_NOT_ACTIVE"
    ∷ "OBS_OUTPUT_ACTIVE" ∷ "OBS_MUTATION_REJECTED" ∷ "OBS_TIMEOUT" ∷ "OBS_UI_TIMEOUT"
    ∷ "OBS_VERSION_UNSUPPORTED" ∷ "OBS_PROFILE_NOT_FOUND" ∷ "OBS_SCENE_COLLECTION_NOT_FOUND"
    ∷ "OBS_HOTKEY_NOT_ALLOWLISTED" ∷ "OBS_TARGET_AMBIGUOUS" ∷ "OBS_SCREENSHOT_INVALID"
    ∷ "OBS_SCREENSHOT_UNVERIFIED" ∷ "OBS_RESPONSE_INCOMPLETE" ∷ "OBS_UI_INDETERMINATE"
    ∷ "OBS_UNSUPPORTED_PLATFORM" ∷ "OBS_WINDOW_IDENTITY_DRIFT" ∷ "OBS_WINDOW_NOT_FOUND"
    ∷ "OBS_SCHEMA_UNSUPPORTED" ∷ "OBS_SOURCE_KIND_UNSUPPORTED" ∷ "OBS_SOURCE_ALREADY_EXISTS"
    ∷ "OBS_FILTER_KIND_UNSUPPORTED" ∷ "OBS_PROPERTY_NOT_FOUND" ∷ "OBS_MEDIA_NOT_CONTROLLABLE" ∷ []

abbrev pub identity_keys : List String
identity_keys =
    "instanceId" ∷ "pluginVersion" ∷ "obsVersion" ∷ "hostPid" ∷ "eventSequence" ∷ "ok" ∷ []

-- A downstream code passes only if it is a short text of the public set.
unfoldable pub public_error_code : Value → String → String
public_error_code (str raw) fallback =
    if between 1 max_public_error_code_length (count raw) && mem_text public_downstream_errors raw
    then raw
    else fallback
public_error_code _ fallback = fallback
