-- ===== src/Bridge/Tests/Witnesses.antt =====
-- Theorems on the bridge of src/dcc_mcp_obs/bridge.py applied to concrete runs.
use dcc_mcp_obs.Bridge.Calls.Answers.Hotkeys.{Triggered, trigger_allowlisted_hotkey-listed}
use dcc_mcp_obs.Base.{
  ◌≤◌, ◌∷◌, ◌≡◌, ◌↔◌, true, refl, arith, String, Bool, mem_text, [], false, none,
}
use dcc_mcp_obs.Value.{str, bool, Fields, end}
use dcc_mcp_obs.Value.Dict.{get, put}
use dcc_mcp_obs.Value.Check.{is_bool}
use dcc_mcp_obs.Result.{Result, ok, bridge_error}
use dcc_mcp_obs.Bridge.Constants.{allowlisted_hotkeys, public_error_code, public_downstream_errors}
use dcc_mcp_obs.Bridge.Host.{Event, History, read_clock, requested, slept}
use dcc_mcp_obs.Bridge.Accept.{Accepted, accept-Accepted}
use dcc_mcp_obs.Bridge.Session.{checked}
use dcc_mcp_obs.Bridge.Session.Effects.{Concludes, checked-Concludes}
use dcc_mcp_obs.Bridge.Reconcile.{verified, settle, mutate_then_settle}
use dcc_mcp_obs.Bridge.Reconcile.Trace.{Settles, Later}
use dcc_mcp_obs.Bridge.Reconcile.First.{First, settle-First}
use dcc_mcp_obs.Bridge.Reconcile.Once.{MutatesOnce, mutate_then_settle-MutatesOnce}
use dcc_mcp_obs.Bridge.Published.{IsPublished, published_errors, public_error_code-IsPublished}
use dcc_mcp_obs.Bridge.Sound.Raises.{Raises, checked-Raises}
use dcc_mcp_obs.Bridge.Controls.Arguments.{select_exact_name}
use dcc_mcp_obs.Bridge.Controls.Exact.{OneNamed, select_exact_name-exact}
use dcc_mcp_obs.Bridge.Controls.Recording.{Target, recording_mutation}
use dcc_mcp_obs.Bridge.Controls.Recording.Ends.{IsMonotonic, Ends, recording_mutation-Ends}
use dcc_mcp_obs.Bridge.Calls.{
  perform, call_stop_recording, call_start_streaming, call_set_current_scene,
}
use dcc_mcp_obs.Bridge.Calls.Script.{perform-Ends, session_after, session_after-Later}
use dcc_mcp_obs.Bridge.Calls.Answers.Methods.{
  Named, ShownOutput, set_current_scene-shows, set_studio_mode-shows, output_mutation-shows,
}
use dcc_mcp_obs.Bridge.Tests.{test_host, test_session, test_response, test_library, test_now}
use dcc_mcp_obs.Bridge.Tests.Runs.{hotkey_run, scene_run, studio_run, output_run, accept_run}

test_ticks : IsMonotonic test_host
test_ticks = record { forward = go; lasts = λ d h. omega arith }
  where
    go : (e : Event) (h : History) → test_now h ≤ test_now (e ∷ h)
    go (read_clock t) h = omega arith
    go (requested rt payload deadline outcome) h = omega arith
    go (slept d) h = omega arith

abbrev streams : Fields → Result Bool
streams readback = ok (is_bool true (get "streamingActive" readback))

mutate_then_settle-MutatesOnce_example :
    MutatesOnce test_host "StartStreaming" "GetStreamingStatus" streams verified test_session (
      mutate_then_settle test_host "StartStreaming" end "GetStreamingStatus" end streams verified
        test_session)
mutate_then_settle-MutatesOnce_example =
    mutate_then_settle-MutatesOnce test_host "StartStreaming" end "GetStreamingStatus" end streams
      verified test_session

checked-Concludes_example :
    Concludes test_host "GetCurrentScene" test_session
      (checked test_host "GetCurrentScene" end 100 test_session)
checked-Concludes_example = checked-Concludes test_host "GetCurrentScene" end 100 test_session

checked-Raises_example :
    Raises test_library "GetCurrentScene" test_session
      (checked test_host "GetCurrentScene" end 100 test_session)
checked-Raises_example = checked-Raises test_host "GetCurrentScene" end 100 test_session

perform-Ends_example : Ends test_session (perform test_host call_stop_recording test_session)
perform-Ends_example =
    perform-Ends test_host test_ticks call_stop_recording test_session (omega arith)

session_after-Later_example : Later test_session (
    session_after test_host
      (call_set_current_scene (str "Main") ∷ call_start_streaming ∷ [])
      test_session)
session_after-Later_example =
    session_after-Later test_host test_ticks
      (call_set_current_scene (str "Main") ∷ call_start_streaming ∷ []) test_session (omega arith)

abbrev test_target : Target
test_target = record { stopping = true; active = false; paused = false; directory = none }

recording_mutation-Ends_example :
    Ends test_session (recording_mutation test_host "StopRecording" test_target end test_session)
recording_mutation-Ends_example =
    recording_mutation-Ends test_host test_ticks "StopRecording" test_target end test_session
      (omega arith)

settle-First_example :
    Settles "GetStreamingStatus" streams verified 3 test_session
      (settle test_host 100 "GetStreamingStatus" end streams verified 3 test_session)
    × First streams verified 3 test_session
        (settle test_host 100 "GetStreamingStatus" end streams verified 3 test_session)
settle-First_example =
    settle-First test_host 100 "GetStreamingStatus" end streams verified 3 test_session

accept-Accepted_example :
    Accepted test_library "GetCurrentScene" test_session.identity 0
      (test_response 4 "GetCurrentScene")
      4
accept-Accepted_example =
    accept-Accepted test_library "GetCurrentScene" test_session.identity 0
      (test_response 4 "GetCurrentScene") accept_run

public_error_code-IsPublished_example :
    IsPublished (bridge_error (public_error_code (str "obs_secret") "OBS_REQUEST_FAILED"))
unfolding published_errors public_downstream_errors
public_error_code-IsPublished_example =
    public_error_code-IsPublished (str "obs_secret") "OBS_REQUEST_FAILED" refl

select_exact_name-exact_example :
    (select_exact_name
        (test_response 4 "ListScenes")
        "scenes"
        "sceneName"
        (str "Main")
        "OBS_SCENE_NOT_FOUND"
      ≡ ok tt)
    ↔ OneNamed "sceneName" "Main" (test_response 4 "ListScenes") "scenes"
select_exact_name-exact_example =
    select_exact_name-exact (test_response 4 "ListScenes") "scenes" "sceneName" "Main"
      "OBS_SCENE_NOT_FOUND" refl

set_current_scene-shows_example :
    (name : String) × (str "Main" ≡ str name)
    × Named "sceneName" name (put "verified" (bool true) (test_response 9 "GetCurrentScene"))
set_current_scene-shows_example =
    set_current_scene-shows test_host (str "Main") test_session
      (put "verified" (bool true) (test_response 9 "GetCurrentScene")) scene_run

abbrev studio_answer : Fields
studio_answer = put "verified" (bool true) (test_response 5 "GetStudioModeStatus")

set_studio_mode-shows_example :
    (get "studioModeEnabled" studio_answer ≡ bool true) × (get "verified" studio_answer ≡ bool true)
set_studio_mode-shows_example =
    set_studio_mode-shows test_host (bool true) test_session studio_answer studio_run

output_mutation-shows_example :
    ShownOutput (str "out") true (put "verified" (bool true) (test_response 5 "GetOutputStatus"))
output_mutation-shows_example =
    output_mutation-shows test_host "StartOutput" (str "out") true test_session
      (put "verified" (bool true) (test_response 5 "GetOutputStatus")) output_run

abbrev hotkey_answer : Fields
hotkey_answer =
    put "hotkeyName" (str "start_recording") (test_response 2 "TriggerAllowlistedHotkey")

trigger_allowlisted_hotkey-listed_example :
    (hotkey : String) × (str "start_recording" ≡ str hotkey)
    × (mem_text allowlisted_hotkeys hotkey ≡ true)
    × Triggered test_host test_session hotkey hotkey_answer
trigger_allowlisted_hotkey-listed_example =
    trigger_allowlisted_hotkey-listed test_host (str "start_recording") test_session hotkey_answer
      hotkey_run
