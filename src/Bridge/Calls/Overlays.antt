-- ===== src/Bridge/Calls/Overlays.antt =====
-- The methods of the two overlays in src/dcc_mcp_obs/bridge.py are sound.
use dcc_mcp_obs.Bridge.Published.Others.{load_rows-Fails}
use dcc_mcp_obs.Value.{Value}
use dcc_mcp_obs.Bridge.Host.{Resolved, resolved_to, os_error, bad_text, no_home, Host}
use dcc_mcp_obs.Bridge.Sound.{IsSound}
use dcc_mcp_obs.Bridge.Calls.Arguments.{call_rules}
use dcc_mcp_obs.Base.{String, ◌==◌, if◌then◌else◌}
use dcc_mcp_obs.Value.{null, bool, int, float, str, list, dict}
use dcc_mcp_obs.Result.{value_error, runtime_error, ok, err, type_error}
use dcc_mcp_obs.Result.Fails.{Fails, Fails-ok, Fails-err, Fails-if}
use dcc_mcp_obs.Bridge.Host.{Resolved, resolved_to, os_error, bad_text, no_home, Library}
use dcc_mcp_obs.Bridge.Published.{IsPublished}
use dcc_mcp_obs.Bridge.Calls.Arguments.{argument-Fails}
use dcc_mcp_obs.Bridge.Calls.Scenes.{select_scene-IsSound}
use dcc_mcp_obs.Bridge.Controls.AgentInput.Showing.{Activity, keys_argument, require_activity}
use dcc_mcp_obs.Bridge.Controls.AgentInput.{
  read_agent_input_overlay, confirm_agent_input, overlay_activity, create_agent_input_overlay,
  get_agent_input_overlay, set_agent_input_overlay_layout, emit_agent_input_activity,
  clear_agent_input_overlay,
}
use dcc_mcp_obs.Bridge.Controls.Presentation.{
  validate_presentation_layout, truthy, resolved_logo, normalize_logo, read_presentation_overlay,
  presentation_mutation, get_presentation_overlay, create_presentation_overlay,
  set_presentation_overlay_layout, update_presentation_overlay,
}

keys_argument-Fails : (v : Value) → Fails IsPublished (keys_argument v)
unfolding keys_argument
keys_argument-Fails null = Fails-ok _
keys_argument-Fails (list items) = Fails-ok _
keys_argument-Fails _ = argument-Fails

require_activity-Fails : (a : Activity) → Fails IsPublished (require_activity a)
unfolding require_activity
require_activity-Fails a = search call_rules depth 30

validate_presentation_layout-Fails :
    (anchor opacity margin width : Value)
    → Fails IsPublished (validate_presentation_layout anchor opacity margin width)
unfolding validate_presentation_layout
validate_presentation_layout-Fails anchor opacity margin width = search call_rules depth 16

module _ (lib : Library) where
  resolved_logo-Fails : (path : Resolved) → Fails IsPublished (resolved_logo lib path)
  unfolding resolved_logo
  resolved_logo-Fails os_error = argument-Fails
  resolved_logo-Fails bad_text = Fails-err value_error tt
  resolved_logo-Fails no_home = Fails-err runtime_error tt
  resolved_logo-Fails (resolved_to path) = Fails-if _ _ _ (Fails-ok path) argument-Fails

  refused_path-Fails :
      (v : Value) → Fails {A = String} IsPublished (if truthy v then err type_error else ok "")
  refused_path-Fails v = Fails-if (truthy v) _ _ (Fails-err type_error tt) (Fails-ok "")

  normalize_logo-Fails : (v : Value) → Fails IsPublished (normalize_logo lib v)
  unfolding normalize_logo
  normalize_logo-Fails (str s) = Fails-if (s == "") _ _ (Fails-ok "") (resolved_logo-Fails _)
  normalize_logo-Fails null = refused_path-Fails null
  normalize_logo-Fails (bool b) = refused_path-Fails (bool b)
  normalize_logo-Fails (int n) = refused_path-Fails (int n)
  normalize_logo-Fails (float x) = refused_path-Fails (float x)
  normalize_logo-Fails (list l) = refused_path-Fails (list l)
  normalize_logo-Fails (dict d) = refused_path-Fails (dict d)

ruleset overlay_rules = (
  call_rules, keys_argument-Fails, require_activity-Fails, validate_presentation_layout-Fails,
  normalize_logo-Fails, load_rows-Fails, select_scene-IsSound,
)

module _ (host : Host) where
  pub create_agent_input_overlay-IsSound :
      (scene_name : Value) (source_name : Value) (anchor : Value)
      → IsSound (create_agent_input_overlay host scene_name source_name anchor)
  unfolding create_agent_input_overlay confirm_agent_input read_agent_input_overlay
  create_agent_input_overlay-IsSound scene_name source_name anchor = search overlay_rules depth 20

  pub get_agent_input_overlay-IsSound :
      (scene_name : Value) (source_name : Value)
      → IsSound (get_agent_input_overlay host scene_name source_name)
  unfolding get_agent_input_overlay read_agent_input_overlay
  get_agent_input_overlay-IsSound scene_name source_name = search overlay_rules depth 20

  pub set_agent_input_overlay_layout-IsSound :
      (scene_name : Value) (anchor : Value) (opacity : Value) (margin : Value) (source_name : Value)
      → IsSound (set_agent_input_overlay_layout host scene_name anchor opacity margin source_name)
  unfolding set_agent_input_overlay_layout confirm_agent_input read_agent_input_overlay
  set_agent_input_overlay_layout-IsSound scene_name anchor opacity margin source_name =
      search overlay_rules depth 20

  pub emit_agent_input_activity-IsSound :
      (scene_name : Value) (event_kind : Value) (source_name : Value) (keys : Value)
      (mouse_button : Value) (wheel_direction : Value) (character_count : Value)
      (duration_ms : Value) (agent_id : Value)
      → IsSound (
          emit_agent_input_activity host scene_name event_kind source_name keys mouse_button
            wheel_direction character_count duration_ms agent_id)
  unfolding emit_agent_input_activity overlay_activity confirm_agent_input read_agent_input_overlay
  emit_agent_input_activity-IsSound scene_name event_kind source_name keys mouse_button
        wheel_direction character_count duration_ms agent_id =
      search overlay_rules depth 20

  pub clear_agent_input_overlay-IsSound :
      (scene_name : Value) (source_name : Value)
      → IsSound (clear_agent_input_overlay host scene_name source_name)
  unfolding clear_agent_input_overlay overlay_activity confirm_agent_input read_agent_input_overlay
  clear_agent_input_overlay-IsSound scene_name source_name = search overlay_rules depth 20

  pub get_presentation_overlay-IsSound :
      (scene_name : Value) (source_name : Value)
      → IsSound (get_presentation_overlay host scene_name source_name)
  unfolding get_presentation_overlay read_presentation_overlay
  get_presentation_overlay-IsSound scene_name source_name = search overlay_rules depth 20

  pub create_presentation_overlay-IsSound :
      (scene_name : Value) (source_name : Value) (anchor : Value) (opacity : Value) (margin : Value)
      (width : Value)
      → IsSound
          (create_presentation_overlay host scene_name source_name anchor opacity margin width)
  unfolding create_presentation_overlay presentation_mutation read_presentation_overlay
  create_presentation_overlay-IsSound scene_name source_name anchor opacity margin width =
      search overlay_rules depth 20

  pub set_presentation_overlay_layout-IsSound :
      (scene_name : Value) (anchor : Value) (opacity : Value) (margin : Value) (width : Value)
      (source_name : Value)
      → IsSound
          (set_presentation_overlay_layout host scene_name anchor opacity margin width source_name)
  unfolding set_presentation_overlay_layout presentation_mutation read_presentation_overlay
  set_presentation_overlay_layout-IsSound scene_name anchor opacity margin width source_name =
      search overlay_rules depth 20

  pub update_presentation_overlay-IsSound :
      (scene_name : Value) (title : Value) (rows : Value) (logo_path : Value) (visible : Value)
      (source_name : Value)
      → IsSound
          (update_presentation_overlay host scene_name title rows logo_path visible source_name)
  unfolding update_presentation_overlay presentation_mutation read_presentation_overlay
  update_presentation_overlay-IsSound scene_name title rows logo_path visible source_name =
      search overlay_rules depth 20
