-- ===== src/Bridge/Tests/Captures.antt =====
-- Runs of further methods of src/dcc_mcp_obs/bridge.py against the small OBS.
use dcc_mcp_obs.Base.{String, ◌≡◌, true, false, refl, [], ◌∷◌, List, none, some}
use dcc_mcp_obs.Value.{Value, pos, str, bool, int, list, dict, cons, nil, Fields}
use dcc_mcp_obs.Value.Dict.{put, entries}
use dcc_mcp_obs.Result.{ok}
use dcc_mcp_obs.Bridge.Session.{Session}
use dcc_mcp_obs.Bridge.Tests.{test_host, test_session, test_response, test_library}
use dcc_mcp_obs.Bridge.Open.{Opening, no_deadline, open_bridge}
use dcc_mcp_obs.Bridge.Controls.Media.{seek_media}
use dcc_mcp_obs.Bridge.Controls.Windows.Matching.{CaptureArguments}
use dcc_mcp_obs.Bridge.Controls.Windows.{rebind_window_capture_source}
use dcc_mcp_obs.Bridge.Controls.RecordingPlan.{normalize_scene_recording_plan}
use dcc_mcp_obs.Value.{elements}
use dcc_mcp_obs.Value.Check.{need}
use dcc_mcp_obs.Value.Dict.{has_all}
use dcc_mcp_obs.Value.Dict.{keys_within}
use dcc_mcp_obs.Bridge.Controls.Arguments.{require_name}
use dcc_mcp_obs.Value.Equal.{same_value}
use dcc_mcp_obs.Exec.{◌>>=◌}
use dcc_mcp_obs.Bridge.Reconcile.{mutate_and_reconcile}
use dcc_mcp_obs.Bridge.Reconcile.{mutate_then_settle}
use dcc_mcp_obs.Bridge.Session.{operation_deadline}
use dcc_mcp_obs.Bridge.Host.{clock}
use dcc_mcp_obs.Bridge.Session.{acknowledged}
use dcc_mcp_obs.Bridge.Session.{checked}
use dcc_mcp_obs.Bridge.Request.{request}
use dcc_mcp_obs.Bridge.Host.{vendor_request}
use dcc_mcp_obs.Bridge.Request.{receive}
use dcc_mcp_obs.Bridge.Request.{accepted_response}
use dcc_mcp_obs.Value.Check.{is_false}
use dcc_mcp_obs.Bridge.Session.{conclude}
use dcc_mcp_obs.Bridge.Accept.{accept}
use dcc_mcp_obs.Bridge.Identity.{parse_identity}
use dcc_mcp_obs.Bridge.Identity.{same_identity}
use dcc_mcp_obs.Bridge.Identity.{parse_event_sequence}
use dcc_mcp_obs.Bridge.Validate.{validate_read_only_response}
use dcc_mcp_obs.Bridge.Validate.Items.{check}
use dcc_mcp_obs.Bridge.Validate.{validate_scene}
use dcc_mcp_obs.Bridge.Validate.{validate_navigation}
use dcc_mcp_obs.Bridge.Validate.{validate_source}
use dcc_mcp_obs.Bridge.Validate.{validate_output}
use dcc_mcp_obs.Bridge.Validate.{validate_mutation}
use dcc_mcp_obs.Bridge.Validate.Mutations.{check_mutation}
use dcc_mcp_obs.Value.Check.{bool_type}
use dcc_mcp_obs.Bridge.Reconcile.{settle}
use dcc_mcp_obs.Bridge.Validate.Sources.{check_media_status}
use dcc_mcp_obs.Bridge.Validate.Items.{exactly}
use dcc_mcp_obs.Value.Check.{text_type}
use dcc_mcp_obs.Value.Check.{int_between}
use dcc_mcp_obs.Bridge.Reconcile.{judge}
use dcc_mcp_obs.Bridge.Reconcile.{verified}
use dcc_mcp_obs.Value.Dict.{get}
use dcc_mcp_obs.Value.Dict.{has}
use dcc_mcp_obs.Value.Check.{is_true}
use dcc_mcp_obs.Bridge.Validate.Scenes.{check_plugin_status}
use dcc_mcp_obs.Bridge.Validate.Items.{allows}
use dcc_mcp_obs.Bridge.Controls.Windows.Matching.{window_capture_payload}
use dcc_mcp_obs.Bridge.Controls.Arguments.{require_bool}
use dcc_mcp_obs.Value.Check.{in_texts}
use dcc_mcp_obs.Bridge.Validate.Items.{name}
use dcc_mcp_obs.Value.Check.{equals_text}
use dcc_mcp_obs.Bridge.Validate.Items.{absent_or}
use dcc_mcp_obs.Bridge.Reconcile.{settle_by}

abbrev pub test_opening : Opening
test_opening = record {
  expected_pid = int (pos 7);
  expected_instance_id = some "obs";
  postcondition_attempts = int (pos 20);
  postcondition_poll_seconds = 100_000_000;
  deadline = no_deadline;
  current_deadline = none;
}

abbrev pub opened_session : Session
opened_session = (record test_session {
  postcondition_attempts = 20;
  postcondition_poll_seconds = 100_000_000;
  event_sequence = 2;
  history = (open_bridge test_host test_opening []).1;
})

pub open_run : (open_bridge test_host test_opening []).0 ≡ ok opened_session
unfolding open_bridge ◌>>=◌ clock request vendor_request receive accepted_response is_false get
    entries parse_identity parse_event_sequence validate_read_only_response check has_all has
    is_true put validate_scene check_plugin_status allows
open_run = refl

pub seek_run :
    (seek_media test_host (str "clip") (int (pos 1000)) test_session).0
    ≡ ok (put "verified" (bool true) (test_response 5 "GetMediaStatus"))
unfolding seek_media ◌>>=◌ require_name mutate_and_reconcile mutate_then_settle operation_deadline
    clock acknowledged checked request vendor_request receive accepted_response is_false entries
    conclude accept put parse_identity same_identity parse_event_sequence
    validate_read_only_response check validate_scene validate_navigation validate_source
    validate_output validate_mutation check_mutation bool_type settle check_media_status exactly
    text_type int_between judge verified
seek_run = refl

abbrev pub test_capture : CaptureArguments
test_capture = record {
  scene_name = str "Main";
  source_name = str "app";
  process_id = int (pos 42);
  window_handle = int (pos 43);
  window_title = str "App";
  capture_cursor = bool true;
  client_area = bool true;
  capture_audio = bool false;
  capture_method = str "automatic";
  enabled = bool true;
}

pub rebind_run :
    (rebind_window_capture_source test_host
      (int (pos 1))
      (int (pos 2))
      (str "Old")
      test_capture
      test_session).0
    ≡ ok (put "verified" (bool true) (test_response 5 "GetWindowCaptureSource"))
unfolding rebind_window_capture_source ◌>>=◌ window_capture_payload require_name need int_between
    require_bool in_texts operation_deadline clock acknowledged checked request vendor_request
    receive accepted_response is_false put get entries conclude accept parse_identity same_identity
    parse_event_sequence validate_read_only_response check validate_scene validate_navigation
    validate_source validate_output validate_mutation check_mutation bool_type name equals_text
    absent_or settle_by settle judge same_value verified
rebind_run = refl

abbrev recording_item : String → String → Value
recording_item scene prefix =
    dict (entries (("scene_name", str scene) ∷ ("file_name_prefix", str prefix) ∷ []))

abbrev pub test_recordings : Value
test_recordings = list (cons (recording_item "Main" "a") (cons (recording_item "Other" "b") nil))

abbrev planned_item : String → String → Fields
planned_item scene prefix = entries (
    ("sceneName", str scene)
    ∷ ("fileNamePrefix", str prefix)
    ∷ ("outputDirectory", str "")
    ∷ ("applicationId", str "")
    ∷ ("runId", str "")
    ∷ ("sourceName", str "")
    ∷ ("processId", int (pos 0))
    ∷ ("windowHandle", int (pos 0))
    ∷ [])

abbrev pub test_plan : List Fields
test_plan = planned_item "Main" "a" ∷ planned_item "Other" "b" ∷ []

pub plan_run : normalize_scene_recording_plan test_library test_recordings ≡ ok test_plan
unfolding normalize_scene_recording_plan elements need has_all entries keys_within require_name
    same_value
plan_run = refl
