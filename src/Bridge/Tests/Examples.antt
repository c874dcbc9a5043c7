-- ===== src/Bridge/Tests/Examples.antt =====
-- Further theorems on the bridge of src/dcc_mcp_obs/bridge.py applied to concrete runs.
use dcc_mcp_obs.Base.{ℕ, ◌≤◌, ◌+◌, Bool, true, ◌≡◌, refl, arith, [], ◌∷◌, length, all, mem_text}
use dcc_mcp_obs.Value.{pos, str, bool, int, Fields, end}
use dcc_mcp_obs.Value.Dict.{get, put}
use dcc_mcp_obs.Value.Text.{join_commas}
use dcc_mcp_obs.Value.Check.{is_bool}
use dcc_mcp_obs.Result.{Result, ok}
use dcc_mcp_obs.Bridge.Session.{Session, checked, operation_deadline, acknowledged}
use dcc_mcp_obs.Bridge.Session.Effects.{requests}
use dcc_mcp_obs.Bridge.Reconcile.{verified, mutate_then_settle}
use dcc_mcp_obs.Bridge.Reconcile.Live.{now, mutate_then_settle-Appears}
use dcc_mcp_obs.Bridge.Open.Bound.{Bound}
use dcc_mcp_obs.Bridge.Validate.Overlays.{agent_input_keys}
use dcc_mcp_obs.Bridge.Controls.AgentInput.Showing.{keys_in}
use dcc_mcp_obs.Bridge.Controls.AgentInput.Keys.{keys_in-join_commas}
use dcc_mcp_obs.Bridge.Controls.RecordingPlan.Distinct.{
  Distinct, normalize_scene_recording_plan-Distinct,
}
use dcc_mcp_obs.Bridge.Controls.SceneRecordings.{stop_scene_recordings}
use dcc_mcp_obs.Bridge.Calls.Sends.{count_of}
use dcc_mcp_obs.Bridge.Calls.Sends.Stops.{stop_scene_recordings-twice}
use dcc_mcp_obs.Bridge.Calls.Answers.Media.{Near, seek_media-shows}
use dcc_mcp_obs.Bridge.Calls.Answers.Windows.{ShownWindow, rebind_window_capture_source-shows}
use dcc_mcp_obs.Bridge.Tests.{test_host, test_session, test_response, test_library}
use dcc_mcp_obs.Bridge.Tests.Captures.{
  seek_run, test_capture, rebind_run, test_recordings, test_plan, plan_run,
}
use dcc_mcp_obs.Exec.{◌>>=◌}
use dcc_mcp_obs.Bridge.Host.{clock}
use dcc_mcp_obs.Bridge.Identity.{parse_event_sequence}
use dcc_mcp_obs.Bridge.Request.{request}
use dcc_mcp_obs.Bridge.Host.{vendor_request}
use dcc_mcp_obs.Bridge.Request.{receive}
use dcc_mcp_obs.Bridge.Request.{accepted_response}
use dcc_mcp_obs.Value.Check.{is_false}
use dcc_mcp_obs.Value.Dict.{entries}
use dcc_mcp_obs.Bridge.Session.{conclude}
use dcc_mcp_obs.Bridge.Accept.{accept}
use dcc_mcp_obs.Bridge.Identity.{parse_identity}
use dcc_mcp_obs.Bridge.Identity.{same_identity}
use dcc_mcp_obs.Bridge.Validate.{validate_read_only_response}
use dcc_mcp_obs.Bridge.Validate.Items.{check}
use dcc_mcp_obs.Bridge.Validate.{validate_scene}
use dcc_mcp_obs.Bridge.Validate.{validate_navigation}
use dcc_mcp_obs.Bridge.Validate.{validate_source}
use dcc_mcp_obs.Bridge.Validate.{validate_output}
use dcc_mcp_obs.Bridge.Validate.{validate_mutation}
use dcc_mcp_obs.Bridge.Validate.Mutations.{check_mutation}
use dcc_mcp_obs.Value.Check.{bool_type}
use dcc_mcp_obs.Bridge.Validate.Recordings.{check_flag}
use dcc_mcp_obs.Bridge.Validate.Items.{allows}
use dcc_mcp_obs.Value.Check.{is_true}

keys_in-join_commas_example :
    keys_in (join_commas ("ctrl" ∷ "shift" ∷ "f12" ∷ [])) ≡ "ctrl" ∷ "shift" ∷ "f12" ∷ []
unfolding agent_input_keys
keys_in-join_commas_example = keys_in-join_commas ("ctrl" ∷ "shift" ∷ "f12" ∷ []) known_run
  where
    known_run : all (mem_text agent_input_keys) ("ctrl" ∷ "shift" ∷ "f12" ∷ []) ≡ true
    known_run = refl

normalize_scene_recording_plan-Distinct_example :
    (1 ≤ length test_plan) × (length test_plan ≤ 8) × Distinct test_library [] [] test_plan
normalize_scene_recording_plan-Distinct_example =
    normalize_scene_recording_plan-Distinct test_library test_recordings test_plan plan_run

stop_scene_recordings-twice_example :
    count_of "StopSceneRecordings"
      (requests (stop_scene_recordings test_host (str "session") test_session).1.history)
    ≤ 2 + count_of "StopSceneRecordings" (requests test_session.history)
stop_scene_recordings-twice_example =
    stop_scene_recordings-twice test_host (str "session") test_session

abbrev rebind_answer : Fields
rebind_answer = put "verified" (bool true) (test_response 5 "GetWindowCaptureSource")

rebind_window_capture_source-shows_example : ShownWindow test_capture rebind_answer
rebind_window_capture_source-shows_example =
    rebind_window_capture_source-shows test_host (int (pos 1)) (int (pos 2)) (str "Old")
      test_capture test_session rebind_answer rebind_run

abbrev seek_answer : Fields
seek_answer = put "verified" (bool true) (test_response 5 "GetMediaStatus")

seek_media-shows_example :
    (cursor : ℕ) × (int (pos 1000) ≡ int (pos cursor))
    × (cursor ≤ 86_400_000)
    × Near cursor (get "mediaCursorMs" seek_answer)
    × (get "verified" seek_answer ≡ bool true)
seek_media-shows_example =
    seek_media-shows test_host (str "clip") (int (pos 1000)) test_session seek_answer seek_run

abbrev streaming : Fields → Result Bool
streaming readback = ok (is_bool true (get "streamingActive" readback))

abbrev timed : Session
timed = (operation_deadline test_host test_session).1

abbrev deadline : ℕ
deadline = 30_000_000_000

abbrev acknowledged_at : Session
acknowledged_at = (acknowledged test_host "StartStreaming" end deadline timed).1

timed_run : operation_deadline test_host test_session ≡ (ok deadline, timed)
unfolding operation_deadline ◌>>=◌ clock parse_event_sequence acknowledged checked
timed_run = refl

acknowledged_run :
    acknowledged test_host "StartStreaming" end deadline timed
    ≡ (ok (test_response 2 "StartStreaming"), acknowledged_at)
unfolding acknowledged ◌>>=◌ checked request clock operation_deadline vendor_request receive
    accepted_response is_false get entries conclude accept parse_identity same_identity
    parse_event_sequence validate_read_only_response check validate_scene validate_navigation
    validate_source validate_output validate_mutation check_mutation bool_type
acknowledged_run = refl

readback_run : checked test_host "GetStreamingStatus" end deadline acknowledged_at ≡ (
  ok (test_response 5 "GetStreamingStatus"),
  (checked test_host "GetStreamingStatus" end deadline acknowledged_at).1,
)
unfolding checked ◌>>=◌ request clock acknowledged operation_deadline vendor_request receive
    accepted_response is_false get entries conclude accept parse_identity same_identity
    parse_event_sequence validate_read_only_response check validate_scene validate_navigation
    validate_source validate_output validate_mutation check_mutation bool_type check_flag allows
readback_run = refl

shown_run : streaming (test_response 5 "GetStreamingStatus") ≡ ok true
unfolding is_bool is_true get entries parse_event_sequence
shown_run = refl

attempts_run : acknowledged_at.postcondition_attempts ≡ 3
unfolding acknowledged ◌>>=◌ checked request clock operation_deadline vendor_request receive
    accepted_response is_false get entries conclude accept parse_identity same_identity
    parse_event_sequence validate_read_only_response check validate_scene validate_navigation
    validate_source validate_output validate_mutation check_mutation bool_type
attempts_run = refl

mutate_then_settle-Appears_example :
    (readback : Fields) × (streaming readback ≡ ok true)
    × ((mutate_then_settle test_host "StartStreaming" end "GetStreamingStatus" end streaming
          verified test_session).0
        ≡ ok (verified readback))
mutate_then_settle-Appears_example =
    mutate_then_settle-Appears test_host "StartStreaming" end "GetStreamingStatus" end streaming
      verified test_session timed acknowledged_at deadline 0 (test_response 2 "StartStreaming")
      timed_run acknowledged_run (now 0 acknowledged_at _ _ readback_run shown_run)
      (omega (arith, attempts_run))
