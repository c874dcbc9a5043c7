-- ===== src/Bridge/Tests/Runs.antt =====
-- Runs of methods of src/dcc_mcp_obs/bridge.py against the small OBS.
use dcc_mcp_obs.Base.{◌≡◌, true, refl}
use dcc_mcp_obs.Value.{str, bool}
use dcc_mcp_obs.Value.Dict.{put}
use dcc_mcp_obs.Result.{ok}
use dcc_mcp_obs.Bridge.Tests.{test_host, test_session, test_response, test_library}
use dcc_mcp_obs.Bridge.Accept.{accept}
use dcc_mcp_obs.Bridge.Controls.Scenes.{set_current_scene, set_studio_mode}
use dcc_mcp_obs.Bridge.Controls.Outputs.{output_mutation}
use dcc_mcp_obs.Bridge.Controls.Operator.{trigger_allowlisted_hotkey}
use dcc_mcp_obs.Exec.{◌>>=◌}
use dcc_mcp_obs.Bridge.Constants.{allowlisted_hotkeys}
use dcc_mcp_obs.Bridge.Controls.Arguments.{now_checked}
use dcc_mcp_obs.Bridge.Session.{operation_deadline}
use dcc_mcp_obs.Bridge.Host.{clock}
use dcc_mcp_obs.Bridge.Session.{checked}
use dcc_mcp_obs.Bridge.Request.{request}
use dcc_mcp_obs.Bridge.Host.{vendor_request}
use dcc_mcp_obs.Bridge.Request.{receive}
use dcc_mcp_obs.Bridge.Request.{accepted_response}
use dcc_mcp_obs.Value.Check.{is_false}
use dcc_mcp_obs.Value.Dict.{get}
use dcc_mcp_obs.Value.Dict.{entries}
use dcc_mcp_obs.Bridge.Session.{conclude}
use dcc_mcp_obs.Bridge.Identity.{parse_identity}
use dcc_mcp_obs.Bridge.Identity.{same_identity}
use dcc_mcp_obs.Bridge.Identity.{parse_event_sequence}
use dcc_mcp_obs.Bridge.Validate.{validate_read_only_response}
use dcc_mcp_obs.Bridge.Validate.Items.{check}
use dcc_mcp_obs.Bridge.Validate.{validate_scene}
use dcc_mcp_obs.Bridge.Validate.{validate_navigation}
use dcc_mcp_obs.Bridge.Validate.{validate_source}
use dcc_mcp_obs.Bridge.Validate.{validate_output}
use dcc_mcp_obs.Bridge.Validate.{validate_mutation}
use dcc_mcp_obs.Bridge.Validate.Mutations.{check_mutation}
use dcc_mcp_obs.Value.Check.{bool_type}
use dcc_mcp_obs.Value.Check.{text_between}
use dcc_mcp_obs.Value.Check.{equals_text}
use dcc_mcp_obs.Value.Dict.{has_all}
use dcc_mcp_obs.Value.Dict.{has}
use dcc_mcp_obs.Value.Check.{is_true}
use dcc_mcp_obs.Bridge.Validate.Scenes.{check_current_scene}
use dcc_mcp_obs.Bridge.Validate.Items.{allows}
use dcc_mcp_obs.Bridge.Validate.Items.{name}
use dcc_mcp_obs.Bridge.Controls.Arguments.{require_name}
use dcc_mcp_obs.Bridge.Reconcile.{mutate_then_settle}
use dcc_mcp_obs.Bridge.Session.{acknowledged}
use dcc_mcp_obs.Bridge.Reconcile.{settle}
use dcc_mcp_obs.Bridge.Validate.Recordings.{check_output_status}
use dcc_mcp_obs.Bridge.Reconcile.{judge}
use dcc_mcp_obs.Value.Check.{is_bool}
use dcc_mcp_obs.Bridge.Reconcile.{verified}
use dcc_mcp_obs.Bridge.Controls.Arguments.{require_bool}
use dcc_mcp_obs.Bridge.Validate.Navigation.{check_studio_mode_status}
use dcc_mcp_obs.Bridge.Validate.Items.{absent_or}
use dcc_mcp_obs.Bridge.Validate.Scenes.{check_scenes}
use dcc_mcp_obs.Bridge.Validate.Items.{dicts_between}
use dcc_mcp_obs.Value.Dict.{keys_equal}
use dcc_mcp_obs.Bridge.Validate.Items.{null_or}
use dcc_mcp_obs.Bridge.Controls.Arguments.{select_exact_name}

pub hotkey_run :
    (trigger_allowlisted_hotkey test_host (str "start_recording") test_session).0
    ≡ ok (put "hotkeyName" (str "start_recording") (test_response 2 "TriggerAllowlistedHotkey"))
unfolding trigger_allowlisted_hotkey put ◌>>=◌ allowlisted_hotkeys now_checked operation_deadline
    clock checked request vendor_request receive accepted_response is_false get entries conclude
    accept parse_identity same_identity parse_event_sequence validate_read_only_response check
    validate_scene validate_navigation validate_source validate_output validate_mutation
    check_mutation bool_type text_between equals_text
hotkey_run = refl

pub scene_run :
    (set_current_scene test_host (str "Main") test_session).0
    ≡ ok (put "verified" (bool true) (test_response 9 "GetCurrentScene"))
unfolding set_current_scene put ◌>>=◌ now_checked operation_deadline clock checked request
    vendor_request receive accepted_response is_false get entries conclude accept parse_identity
    same_identity parse_event_sequence validate_read_only_response check has_all has is_true
    validate_scene check_scenes allows dicts_between keys_equal name bool_type null_or
    select_exact_name mutate_then_settle acknowledged validate_navigation validate_source
    validate_output validate_mutation check_mutation settle check_current_scene judge verified
scene_run = refl

pub studio_run :
    (set_studio_mode test_host (bool true) test_session).0
    ≡ ok (put "verified" (bool true) (test_response 5 "GetStudioModeStatus"))
unfolding set_studio_mode put ◌>>=◌ require_bool mutate_then_settle operation_deadline clock
    acknowledged checked request vendor_request receive accepted_response is_false get entries
    conclude accept parse_identity same_identity parse_event_sequence validate_read_only_response
    check validate_scene validate_navigation validate_source validate_output validate_mutation
    check_mutation bool_type settle check_studio_mode_status allows absent_or judge is_bool verified
studio_run = refl

pub output_run :
    (output_mutation test_host "StartOutput" (str "out") true test_session).0
    ≡ ok (put "verified" (bool true) (test_response 5 "GetOutputStatus"))
unfolding output_mutation put ◌>>=◌ require_name mutate_then_settle operation_deadline clock
    acknowledged checked request vendor_request receive accepted_response is_false get entries
    conclude accept parse_identity same_identity parse_event_sequence validate_read_only_response
    check validate_scene validate_navigation validate_source validate_output validate_mutation
    check_mutation bool_type settle check_output_status allows name judge equals_text is_bool
    verified
output_run = refl

pub accept_run :
    accept test_library "GetCurrentScene" test_session.identity 0
      (test_response 4 "GetCurrentScene")
    ≡ ok 4
unfolding accept parse_identity get entries same_identity parse_event_sequence
    validate_read_only_response check has_all has is_true validate_scene check_current_scene allows
    name
accept_run = refl
