-- ===== src/Bridge/Published/Others.antt =====
-- The errors of the checks on overlays, recordings, navigation and sources: src/dcc_mcp_obs/bridge.py.
use dcc_mcp_obs.Base.{String, List, [], ◌∷◌}
use dcc_mcp_obs.Value.{Value, null, bool, int, float, str, list, dict, Fields}
use dcc_mcp_obs.Value.Json.{Loaded, loaded, not_json, long_number, deep_nesting}
use dcc_mcp_obs.Value.Dict.{get}
use dcc_mcp_obs.Result.{type_error, attribute_error, value_error, recursion_error, Result}
use dcc_mcp_obs.Result.Fails.{Fails, Fails-ok, Fails-err, Fails-if, Fails-bind}
use dcc_mcp_obs.Bridge.Host.{Library}
use dcc_mcp_obs.Bridge.Published.{IsPublished, Fails-check}
use dcc_mcp_obs.Bridge.Published.Scenes.{
  rules, invalid-Fails, normalize_input_settings-Fails, normalize_filter_settings-Fails,
}
use dcc_mcp_obs.Bridge.Validate.Overlays.{
  load_rows, loaded_rows, check_overlay, check_agent_input_overlay, check_presentation_overlay,
}
use dcc_mcp_obs.Bridge.Validate.Recordings.{
  check_recordings, check_scene_recording_session, check_recording_status, check_flag,
  check_outputs, check_output_status, check_screenshot,
}
use dcc_mcp_obs.Bridge.Validate.Navigation.{
  check_transition_envelope, check_transition_details, check_transitions, check_current_transition,
  check_current_preview_scene, check_studio_mode_status, check_names, check_current_name,
  check_hotkeys, check_operator_status,
}
use dcc_mcp_obs.Bridge.Validate.Sources.{
  check_sources, check_source_identity, check_input_kind, check_each, check_input_kinds,
  check_input_settings, property_names, check_properties, check_property_value, check_filters,
  check_filter, check_source_volume, check_source_mute, check_source_monitor_type,
  check_media_status,
}

check_overlay-Fails :
    (source_kind : String) (response : Fields)
    → Fails IsPublished (check_overlay source_kind response)
unfolding check_overlay
check_overlay-Fails source_kind response = search (rules) depth 30

pub check_agent_input_overlay-Fails :
    (response : Fields) → Fails IsPublished (check_agent_input_overlay response)
unfolding check_agent_input_overlay
check_agent_input_overlay-Fails response = search (rules, check_overlay-Fails) depth 40

loaded_rows-Fails : (l : Loaded) → Fails IsPublished (loaded_rows l)
unfolding loaded_rows
loaded_rows-Fails (loaded rows) = Fails-ok rows
loaded_rows-Fails not_json = Fails-ok null
loaded_rows-Fails long_number = Fails-err value_error tt
loaded_rows-Fails deep_nesting = Fails-err recursion_error tt

pub load_rows-Fails : (lib : Library) (v : Value) → Fails IsPublished (load_rows lib v)
unfolding load_rows
load_rows-Fails lib (str s) = loaded_rows-Fails (lib.loads s)
load_rows-Fails lib null = Fails-ok null
load_rows-Fails lib (bool b) = Fails-ok null
load_rows-Fails lib (int n) = Fails-ok null
load_rows-Fails lib (float x) = Fails-ok null
load_rows-Fails lib (list l) = Fails-ok null
load_rows-Fails lib (dict d) = Fails-ok null

pub check_presentation_overlay-Fails :
    (lib : Library) (response : Fields)
    → Fails IsPublished (check_presentation_overlay lib response)
unfolding check_presentation_overlay
check_presentation_overlay-Fails lib response =
    search (rules, check_overlay-Fails, load_rows-Fails) depth 30

check_recordings-Fails :
    (lib : Library) (seen items : List Value) → Fails IsPublished (check_recordings lib seen items)
unfolding check_recordings
check_recordings-Fails lib seen [] = Fails-ok tt
check_recordings-Fails lib seen (dict item ∷ items) =
    Fails-bind _ _ (Fails-check _)
      (λ _. check_recordings-Fails lib (get "sceneName" item ∷ seen) items)
check_recordings-Fails lib seen (_ ∷ items) = invalid-Fails

pub check_scene_recording_session-Fails :
    (lib : Library) (response : Fields)
    → Fails IsPublished (check_scene_recording_session lib response)
unfolding check_scene_recording_session
check_scene_recording_session-Fails lib response = search (rules, check_recordings-Fails) depth 30

pub check_recording_status-Fails :
    (response : Fields) → Fails IsPublished (check_recording_status response)
unfolding check_recording_status
check_recording_status-Fails response = search (rules) depth 40

pub check_flag-Fails :
    (key : String) (response : Fields) → Fails IsPublished (check_flag key response)
unfolding check_flag
check_flag-Fails key response = search (rules) depth 30

pub check_outputs-Fails : (response : Fields) → Fails IsPublished (check_outputs response)
unfolding check_outputs
check_outputs-Fails response = search (rules) depth 30

pub check_output_status-Fails :
    (response : Fields) → Fails IsPublished (check_output_status response)
unfolding check_output_status
check_output_status-Fails response = search (rules) depth 30

pub check_screenshot-Fails : (response : Fields) → Fails IsPublished (check_screenshot response)
unfolding check_screenshot
check_screenshot-Fails response = search (rules) depth 30

check_transition_envelope-Fails :
    (response : Fields) → Fails IsPublished (check_transition_envelope response)
unfolding check_transition_envelope
check_transition_envelope-Fails response = search (rules) depth 30

check_transition_details-Fails :
    (response : Fields) → Fails IsPublished (check_transition_details response)
unfolding check_transition_details
check_transition_details-Fails response = search (rules) depth 30

pub check_transitions-Fails : (response : Fields) → Fails IsPublished (check_transitions response)
unfolding check_transitions
check_transitions-Fails response = search (rules, check_transition_details-Fails) depth 30

pub check_current_transition-Fails :
    (response : Fields) → Fails IsPublished (check_current_transition response)
unfolding check_current_transition
check_current_transition-Fails response = search (rules, check_transition_details-Fails) depth 30

pub check_current_preview_scene-Fails :
    (response : Fields) → Fails IsPublished (check_current_preview_scene response)
unfolding check_current_preview_scene
check_current_preview_scene-Fails response = search (rules) depth 30

pub check_studio_mode_status-Fails :
    (response : Fields) → Fails IsPublished (check_studio_mode_status response)
unfolding check_studio_mode_status
check_studio_mode_status-Fails response = search (rules) depth 30

pub check_names-Fails :
    (collection_key name_key current_key : String) (response : Fields)
    → Fails IsPublished (check_names collection_key name_key current_key response)
unfolding check_names
check_names-Fails collection_key name_key current_key response = search (rules) depth 30

pub check_current_name-Fails :
    (key : String) (response : Fields) → Fails IsPublished (check_current_name key response)
unfolding check_current_name
check_current_name-Fails key response = search (rules) depth 30

pub check_hotkeys-Fails : (response : Fields) → Fails IsPublished (check_hotkeys response)
unfolding check_hotkeys
check_hotkeys-Fails response = search (rules) depth 30

pub check_operator_status-Fails :
    (response : Fields) → Fails IsPublished (check_operator_status response)
unfolding check_operator_status
check_operator_status-Fails response = search (rules) depth 30

pub check_sources-Fails : (response : Fields) → Fails IsPublished (check_sources response)
unfolding check_sources
check_sources-Fails response = search (rules) depth 30

pub check_source_identity-Fails :
    (response : Fields) → Fails IsPublished (check_source_identity response)
unfolding check_source_identity
check_source_identity-Fails response = search (rules) depth 30

check_input_kind-Fails : (item : Value) → Fails IsPublished (check_input_kind item)
unfolding check_input_kind
check_input_kind-Fails (dict item) = search rules depth 20
check_input_kind-Fails _ = invalid-Fails

check_each-Fails :
    (p : Value → Result (Unit {0})) (vs : List Value)
    → ((v : Value) → Fails IsPublished (p v))
    → Fails IsPublished (check_each p vs)
unfolding check_each
check_each-Fails p [] h = Fails-ok tt
check_each-Fails p (v ∷ vs) h = Fails-bind _ _ (h v) (λ _. check_each-Fails p vs h)

pub check_input_kinds-Fails : (response : Fields) → Fails IsPublished (check_input_kinds response)
unfolding check_input_kinds
check_input_kinds-Fails response = search (rules, check_each-Fails, check_input_kind-Fails) depth 30

pub check_input_settings-Fails :
    (response : Fields) → Fails IsPublished (check_input_settings response)
unfolding check_input_settings
check_input_settings-Fails response = search (rules, normalize_input_settings-Fails) depth 30

property_names-Fails : (items : List Value) → Fails IsPublished (property_names items)
unfolding property_names
property_names-Fails [] = Fails-ok []
property_names-Fails (dict item ∷ items) =
    Fails-if _ _ _ (Fails-bind _ _ (property_names-Fails items) (λ names. Fails-ok _))
      (Fails-err type_error tt)
property_names-Fails (_ ∷ items) = Fails-err attribute_error tt

pub check_properties-Fails : (response : Fields) → Fails IsPublished (check_properties response)
unfolding check_properties
check_properties-Fails response = search (rules, property_names-Fails) depth 30

pub check_property_value-Fails :
    (response : Fields) → Fails IsPublished (check_property_value response)
unfolding check_property_value
check_property_value-Fails response = search (rules, normalize_input_settings-Fails) depth 30

pub check_filters-Fails : (response : Fields) → Fails IsPublished (check_filters response)
unfolding check_filters
check_filters-Fails response = search (rules) depth 30

pub check_filter-Fails :
    (lib : Library) (response : Fields) → Fails IsPublished (check_filter lib response)
unfolding check_filter
check_filter-Fails lib response = search (rules, normalize_filter_settings-Fails) depth 30

pub check_source_volume-Fails :
    (response : Fields) → Fails IsPublished (check_source_volume response)
unfolding check_source_volume
check_source_volume-Fails response = search (rules) depth 30

pub check_source_mute-Fails : (response : Fields) → Fails IsPublished (check_source_mute response)
unfolding check_source_mute
check_source_mute-Fails response = search (rules) depth 30

pub check_source_monitor_type-Fails :
    (response : Fields) → Fails IsPublished (check_source_monitor_type response)
unfolding check_source_monitor_type
check_source_monitor_type-Fails response = search (rules) depth 30

pub check_media_status-Fails : (response : Fields) → Fails IsPublished (check_media_status response)
unfolding check_media_status
check_media_status-Fails response = search (rules) depth 30
