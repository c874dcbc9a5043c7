-- ===== src/Bridge/Tests.antt =====
-- The bridge of src/dcc_mcp_obs/bridge.py run against a small OBS, on concrete inputs.
mod Runs
mod Captures
mod Examples
mod Witnesses
use dcc_mcp_obs.Base.{
  ℕ, suc, ◌+◌, String, ◌==◌, Bool, true, false, List, [], ◌∷◌, Option, none, some, ◌≡◌, refl,
  length, if◌then◌else◌,
}
use dcc_mcp_obs.Value.{pos, Value, null, bool, int, float, str, list, dict, nil, cons, Fields, end}
use dcc_mcp_obs.Value.Dict.{entries}
use dcc_mcp_obs.Result.{Result, ok, err}
use dcc_mcp_obs.Value.Json.{not_json}
use dcc_mcp_obs.Bridge.Host.{
  resolved_to, Host, Library, History, Event, read_clock, requested, slept, returned,
}
use dcc_mcp_obs.Bridge.Identity.{Identity}
use dcc_mcp_obs.Bridge.Session.{Session}

abbrev pub test_library : Library
test_library = record {
  lower = λ s. s;
  loads = λ _. not_json;
  b64decode = λ _. none;
  crc32 = λ _. 0;
  float_of_int = λ _. 0;
  is_close = λ _ _. true;
  volume_close = λ _ _. true;
  int_of_text = λ _. some (pos 31);
  casefold = λ s. s;
  sha256 = λ _. "";
  dumps = λ _. "[]";
  strip = λ s. s;
  isalnum = λ _. true;
  resolve = λ s. resolved_to s;
  suffix = λ _. ".png";
  path_absolute = λ _. true;
  file_size = λ _. some 1;
  same_windows_path = λ _ _. false;
  same_posix_path = λ p q. p == q;
  posix_absolute = λ _. true;
  is_absolute = λ _. true;
  windows_absolute = λ _. false;
  windows_parent_is = λ _ _. false;
  posix_parent_is = λ _ _. true;
}

-- every event takes a tick, and a sleep as long as it is asked to
abbrev pub test_now : History → ℕ
test_now [] = 0
test_now (read_clock t ∷ h) = suc (test_now h)
test_now (requested rt payload deadline outcome ∷ h) = suc (test_now h)
test_now (slept d ∷ h) = suc (test_now h + d)

abbrev window_fields : List (String × Value)
window_fields =
    ("sceneName", str "Main")
    ∷ ("sceneItemId", int (pos 1))
    ∷ ("sourceName", str "app")
    ∷ ("sourceKind", str "window_capture")
    ∷ ("enabled", bool true)
    ∷ ("processId", int (pos 42))
    ∷ ("windowHandle", int (pos 43))
    ∷ ("windowTitle", str "App")
    ∷ ("windowClass", str "Class")
    ∷ ("executable", str "app.exe")
    ∷ ("captureCursor", bool true)
    ∷ ("clientArea", bool true)
    ∷ ("captureAudio", bool false)
    ∷ ("captureMethod", str "automatic")
    ∷ ("bindingVerified", bool true)
    ∷ []

-- the fields of each response, by the request
abbrev pub test_fields : String → List (String × Value)
test_fields rt =
    if rt == "ListScenes"
    then ("scenes", list (cons (dict (entries (("sceneName", str "Main") ∷ []))) nil))
      ∷ ("truncated", bool false)
      ∷ ("currentSceneName", null)
      ∷ []
    else if rt == "GetCurrentScene"
    then ("sceneName", str "Main") ∷ []
    else if rt == "SetCurrentScene"
    then ("accepted", bool true) ∷ ("sceneName", str "Main") ∷ []
    else if rt == "GetStudioModeStatus"
    then ("studioModeEnabled", bool true) ∷ []
    else if rt == "GetStreamingStatus"
    then ("streamingActive", bool true) ∷ []
    else if rt == "GetOutputStatus"
    then ("outputName", str "out") ∷ ("outputKind", str "out") ∷ ("outputActive", bool true) ∷ []
    else if rt == "GetPluginStatus"
    then ("ready", bool true) ∷ []
    else if rt == "GetMediaStatus"
    then ("sourceName", str "clip")
      ∷ ("mediaState", str "playing")
      ∷ ("mediaDurationMs", int (pos 5000))
      ∷ ("mediaCursorMs", int (pos 1100))
      ∷ []
    else if rt == "GetWindowCaptureSource"
    then window_fields
    else if rt == "RebindWindowCaptureSource"
    then ("accepted", bool true) ∷ window_fields
    else if rt == "TriggerAllowlistedHotkey"
    then ("accepted", bool true) ∷ ("hotkeyName", str "start_recording") ∷ []
    else ("accepted", bool true) ∷ []

abbrev pub test_response : ℕ → String → Fields
test_response n rt = entries (
    ("ok", bool true)
    ∷ ("instanceId", str "obs")
    ∷ ("pluginVersion", str "1.5.2")
    ∷ ("obsVersion", str "31.0.0")
    ∷ ("hostPid", int (pos 7))
    ∷ ("eventSequence", int (pos n))
    ∷ test_fields rt)

abbrev pub test_host : Host
test_host = record {
  library = test_library;
  now = test_now;
  reply = λ h rt payload deadline. returned (dict (test_response (length h) rt));
}

abbrev pub test_session : Session
test_session = record {
  postcondition_attempts = 3;
  postcondition_poll_seconds = 5;
  bound_deadline = none;
  identity = record {
    instance_id = "obs";
    plugin_version = "1.5.2";
    obs_version = "31.0.0";
    host_pid = 7;
  };
  event_sequence = 0;
  history = [];
}
