-- ===== src/Bridge/Calls/Scenes.antt =====
-- The methods of scenes, transitions and Studio Mode in src/dcc_mcp_obs/bridge.py are sound.
use dcc_mcp_obs.Value.{Value}
use dcc_mcp_obs.Bridge.Host.{Host}
use dcc_mcp_obs.Bridge.Sound.{IsSound}
use dcc_mcp_obs.Bridge.Calls.Arguments.{call_rules, select_exact_name-Fails}
use dcc_mcp_obs.Bridge.Controls.Arguments.{select_exact_name}
use dcc_mcp_obs.Base.{none, ◌==◌, refl, leb}
use dcc_mcp_obs.Value.{pos, negsuc, null, int, str, Fields}
use dcc_mcp_obs.Result.{bridge_error, err}
use dcc_mcp_obs.Result.Fails.{Fails, Fails-ok, Fails-err, Fails-if}
use dcc_mcp_obs.Bridge.Constants.{public_downstream_errors}
use dcc_mcp_obs.Bridge.Published.{IsPublished, published_errors}
use dcc_mcp_obs.Bridge.Calls.Arguments.{argument-Fails}
use dcc_mcp_obs.Bridge.Controls.Scenes.{
  select_scene, name_mutation, scene_name_mutation, two_scenes, two_texts, duration_argument,
}
use dcc_mcp_obs.Bridge.Controls.Scenes.{
  status, list_scenes, get_current_scene, set_current_scene, set_current_preview_scene,
  create_scene, remove_scene, rename_scene, list_transitions, get_current_transition,
  set_current_transition, trigger_transition, get_studio_mode_status, get_current_preview_scene,
  set_studio_mode, trigger_studio_mode_transition,
}

unmet-Fails :
    {A : Type 0} → Fails {A = A} IsPublished (err (bridge_error "OBS_POSTCONDITION_FAILED"))
unfolding published_errors
unmet-Fails = Fails-err _ refl

two_texts-Fails : (v w : Value) → Fails IsPublished (two_texts v w)
unfolding two_texts
two_texts-Fails (str program) (str preview) =
    Fails-if (program == preview) _ _ unmet-Fails (Fails-ok _)
two_texts-Fails (str program) _ = unmet-Fails
two_texts-Fails _ _ = unmet-Fails

two_scenes-Fails : (before : Fields) → Fails IsPublished (two_scenes before)
unfolding two_scenes
two_scenes-Fails before = search two_texts-Fails

duration_argument-Fails : (v : Value) → Fails IsPublished (duration_argument v)
unfolding duration_argument
duration_argument-Fails null = Fails-ok none
duration_argument-Fails (int (pos n)) = Fails-if (leb n 3_600_000) _ _ (Fails-ok _) argument-Fails
duration_argument-Fails (int (negsuc n)) = argument-Fails
duration_argument-Fails _ = argument-Fails

transition_name-Fails :
    (response : Fields) (name : Value)
    → Fails IsPublished
        (select_exact_name response "transitions" "transitionName" name "OBS_TRANSITION_NOT_FOUND")
unfolding published_errors public_downstream_errors
transition_name-Fails response name = select_exact_name-Fails response _ _ name _ refl

scene_name-Fails :
    (response : Fields) (name : Value)
    → Fails IsPublished (select_exact_name response "scenes" "sceneName" name "OBS_SCENE_NOT_FOUND")
unfolding published_errors public_downstream_errors
scene_name-Fails response name = select_exact_name-Fails response _ _ name _ refl

module _ (host : Host) where
  pub select_scene-IsSound : (v : Value) → IsSound (select_scene host v)
  unfolding select_scene list_scenes
  select_scene-IsSound v = search (call_rules, scene_name-Fails) depth 12

  ruleset scene_rules = (
    call_rules, select_scene-IsSound, scene_name-Fails, transition_name-Fails,
    duration_argument-Fails, two_scenes-Fails,
  )

  pub status-IsSound : IsSound (status host)
  unfolding status
  status-IsSound = search scene_rules depth 16

  pub list_scenes-IsSound : IsSound (list_scenes host)
  unfolding list_scenes
  list_scenes-IsSound = search scene_rules depth 16

  pub get_current_scene-IsSound : IsSound (get_current_scene host)
  unfolding get_current_scene
  get_current_scene-IsSound = search scene_rules depth 16

  pub set_current_scene-IsSound : (scene_name : Value) → IsSound (set_current_scene host scene_name)
  unfolding set_current_scene scene_name_mutation name_mutation
  set_current_scene-IsSound scene_name = search scene_rules depth 16

  pub set_current_preview_scene-IsSound :
      (scene_name : Value) → IsSound (set_current_preview_scene host scene_name)
  unfolding set_current_preview_scene scene_name_mutation name_mutation
  set_current_preview_scene-IsSound scene_name = search scene_rules depth 16

  pub create_scene-IsSound : (scene_name : Value) → IsSound (create_scene host scene_name)
  unfolding create_scene
  create_scene-IsSound scene_name = search scene_rules depth 16

  pub remove_scene-IsSound : (scene_name : Value) → IsSound (remove_scene host scene_name)
  unfolding remove_scene
  remove_scene-IsSound scene_name = search scene_rules depth 16

  pub rename_scene-IsSound :
      (scene_name new_scene_name : Value) → IsSound (rename_scene host scene_name new_scene_name)
  unfolding rename_scene
  rename_scene-IsSound scene_name new_scene_name = search scene_rules depth 16

  pub list_transitions-IsSound : IsSound (list_transitions host)
  unfolding list_transitions
  list_transitions-IsSound = search scene_rules depth 16

  pub get_current_transition-IsSound : IsSound (get_current_transition host)
  unfolding get_current_transition
  get_current_transition-IsSound = search scene_rules depth 16

  pub set_current_transition-IsSound :
      (transition_name duration_ms : Value)
      → IsSound (set_current_transition host transition_name duration_ms)
  unfolding set_current_transition
  set_current_transition-IsSound transition_name duration_ms = search scene_rules depth 16

  pub trigger_transition-IsSound :
      (scene_name : Value) → IsSound (trigger_transition host scene_name)
  unfolding trigger_transition
  trigger_transition-IsSound scene_name = search scene_rules depth 16

  pub get_studio_mode_status-IsSound : IsSound (get_studio_mode_status host)
  unfolding get_studio_mode_status
  get_studio_mode_status-IsSound = search scene_rules depth 16

  pub get_current_preview_scene-IsSound : IsSound (get_current_preview_scene host)
  unfolding get_current_preview_scene
  get_current_preview_scene-IsSound = search scene_rules depth 16

  pub set_studio_mode-IsSound : (enabled : Value) → IsSound (set_studio_mode host enabled)
  unfolding set_studio_mode
  set_studio_mode-IsSound enabled = search scene_rules depth 16

  pub trigger_studio_mode_transition-IsSound : IsSound (trigger_studio_mode_transition host)
  unfolding trigger_studio_mode_transition
  trigger_studio_mode_transition-IsSound = search scene_rules depth 16
