-- ===== src/Bridge/Published/Validate.antt =====
-- The errors of `_validate_read_only_response` of src/dcc_mcp_obs/bridge.py.
use dcc_mcp_obs.Base.{String, Bool, List}
use dcc_mcp_obs.Value.{Fields}
use dcc_mcp_obs.Result.Fails.{Fails}
use dcc_mcp_obs.Bridge.Host.{Library}
use dcc_mcp_obs.Bridge.Published.{IsPublished}
use dcc_mcp_obs.Bridge.Published.Scenes
use dcc_mcp_obs.Bridge.Published.Scenes.{
  rules, decode_program_frame-Fails, check_scene_item-Fails, check_window_capture_source-Fails,
}
use dcc_mcp_obs.Bridge.Published.Others
use dcc_mcp_obs.Bridge.Validate.Mutations.{
  required_of, check_item_mutation, check_restored, check_mutation,
}
use dcc_mcp_obs.Bridge.Validate.{
  check_program_frame, validate_mutation, validate_output, validate_source, validate_navigation,
  validate_scene, validate_read_only_response,
}

required_of-Fails :
    (rts : List String) (test : Bool) (rt : String) → Fails IsPublished (required_of rts test rt)
unfolding required_of
required_of-Fails rts test rt = search (rules) depth 30

check_item_mutation-Fails :
    (rt : String) (response : Fields) → Fails IsPublished (check_item_mutation rt response)
unfolding check_item_mutation
check_item_mutation-Fails rt response =
    search (rules, check_scene_item-Fails, check_window_capture_source-Fails) depth 30

check_restored-Fails :
    (rt : String) (response : Fields) → Fails IsPublished (check_restored rt response)
unfolding check_restored
check_restored-Fails rt response = search (rules) depth 30

check_mutation-Fails :
    (rt : String) (response : Fields) → Fails IsPublished (check_mutation rt response)
unfolding check_mutation
check_mutation-Fails rt response =
    search (rules, required_of-Fails, check_item_mutation-Fails, check_restored-Fails) depth 40

check_program_frame-Fails :
    (lib : Library) (response : Fields) → Fails IsPublished (check_program_frame lib response)
unfolding check_program_frame
check_program_frame-Fails lib response = search (rules, decode_program_frame-Fails) depth 30

validate_mutation-Fails :
    (rt : String) (response : Fields) → Fails IsPublished (validate_mutation rt response)
unfolding validate_mutation
validate_mutation-Fails rt response = search (rules, check_mutation-Fails) depth 30

validate_output-Fails :
    (lib : Library) (rt : String) (response : Fields)
    → Fails IsPublished (validate_output lib rt response)
unfolding validate_output
validate_output-Fails lib rt response =
    search
      (
        rules, validate_mutation-Fails, check_program_frame-Fails,
        Others.check_recording_status-Fails, Others.check_flag-Fails, Others.check_outputs-Fails,
        Others.check_output_status-Fails, Others.check_hotkeys-Fails,
        Others.check_operator_status-Fails, Others.check_screenshot-Fails,
      )
      depth 40

validate_source-Fails :
    (lib : Library) (rt : String) (response : Fields)
    → Fails IsPublished (validate_source lib rt response)
unfolding validate_source
validate_source-Fails lib rt response =
    search
      (
        rules, validate_output-Fails, Others.check_sources-Fails,
        Others.check_source_identity-Fails, Others.check_input_kinds-Fails,
        Others.check_input_settings-Fails, Others.check_properties-Fails,
        Others.check_property_value-Fails, Others.check_filters-Fails, Others.check_filter-Fails,
        Others.check_source_volume-Fails, Others.check_source_mute-Fails,
        Others.check_source_monitor_type-Fails, Others.check_media_status-Fails,
      )
      depth 40

validate_navigation-Fails :
    (lib : Library) (rt : String) (response : Fields)
    → Fails IsPublished (validate_navigation lib rt response)
unfolding validate_navigation
validate_navigation-Fails lib rt response =
    search
      (
        rules, validate_source-Fails, Others.check_transitions-Fails,
        Others.check_current_transition-Fails, Others.check_current_preview_scene-Fails,
        Others.check_studio_mode_status-Fails, Others.check_names-Fails,
        Others.check_current_name-Fails,
      )
      depth 40

validate_scene-Fails :
    (lib : Library) (rt : String) (response : Fields)
    → Fails IsPublished (validate_scene lib rt response)
unfolding validate_scene
validate_scene-Fails lib rt response =
    search
      (
        rules, validate_navigation-Fails, check_window_capture_source-Fails,
        Scenes.check_plugin_status-Fails, Scenes.check_scenes-Fails,
        Scenes.check_window_capture_candidates-Fails, Scenes.check_current_scene-Fails,
        Scenes.check_scene_items-Fails, Scenes.check_scene_item_readback-Fails,
        Others.check_agent_input_overlay-Fails, Others.check_presentation_overlay-Fails,
        Others.check_scene_recording_session-Fails,
      )
      depth 40

-- Whatever the request type and the response, an error of `_validate_read_only_response` has a published
-- code or is an exception of Python's own (TypeError, AttributeError, OverflowError).
pub validate_read_only_response-Fails :
    (lib : Library) (rt : String) (response : Fields)
    → Fails IsPublished (validate_read_only_response lib rt response)
unfolding validate_read_only_response
validate_read_only_response-Fails lib rt response = search (rules, validate_scene-Fails) depth 30
