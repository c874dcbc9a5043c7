-- ===== src/Bridge/Controls/Scenes.antt =====
-- Scenes, transitions and Studio Mode in src/dcc_mcp_obs/bridge.py.
use dcc_mcp_obs.Base.{
  ℕ, String, ◌==◌, Bool, true, not, ◌&&◌, ◌||◌, List, [], ◌∷◌, Option, none, some, leb,
  if◌then◌else◌,
}
use dcc_mcp_obs.Value.{pos, Value, null, bool, int, str, Fields, end}
use dcc_mcp_obs.Value.Dict.{get, entries, put}
use dcc_mcp_obs.Value.Check.{is_bool, equals_text, items_of}
use dcc_mcp_obs.Bridge.Host.{Host}
use dcc_mcp_obs.Result.{bridge_error, Result, ok, err}
use dcc_mcp_obs.Exec.{Exec, pure, lift, guard, ◌>>=◌, ◌>>◌}
use dcc_mcp_obs.Bridge.Session.{Session, checked, operation_deadline, acknowledged}
use dcc_mcp_obs.Bridge.Reconcile.{verified, settle_by, mutate_then_settle}
use dcc_mcp_obs.Bridge.Controls.Arguments.{
  require_name, require_bool, select_exact_name, names_in, equals_nat, now_checked,
}

-- `duration_ms is None` or an int from 0 to 3600000
unfoldable pub duration_argument : Value → Result (Option ℕ)
duration_argument null = ok none
duration_argument (int (pos n)) =
    if leb n 3_600_000 then ok (some n) else err (bridge_error "OBS_ARGUMENT_INVALID")
duration_argument _ = err (bridge_error "OBS_ARGUMENT_INVALID")

unfoldable pub two_texts : Value → Value → Result (String × String)
two_texts (str program) (str preview) =
    if program == preview
    then err (bridge_error "OBS_POSTCONDITION_FAILED")
    else ok (program, preview)
two_texts _ _ = err (bridge_error "OBS_POSTCONDITION_FAILED")

-- The program and the preview scene, two different texts.
unfoldable pub two_scenes : Fields → Result (String × String)
unfolding two_texts
two_scenes before = two_texts (get "programSceneName" before) (get "previewSceneName" before)

module _ (host : Host) where
  unfoldable pub status : Exec Session Fields
  status = now_checked host "GetPluginStatus" end

  unfoldable pub list_scenes : Exec Session Fields
  list_scenes = now_checked host "ListScenes" end

  unfoldable pub get_current_scene : Exec Session Fields
  get_current_scene = now_checked host "GetCurrentScene" end

  -- `_name_mutation`
  unfoldable pub name_mutation : String → String → String → String → Fields → Exec Session Fields
  name_mutation rt status_request key target payload =
      mutate_then_settle host rt payload status_request end
        (λ readback. ok (equals_text target (get key readback))) verified

  unfoldable pub scene_name_mutation : String → String → String → String → Exec Session Fields
  unfolding name_mutation
  scene_name_mutation rt status_request scene_name capability =
      name_mutation rt status_request "sceneName" scene_name
        (entries (("sceneName", str scene_name) ∷ ("capability", str capability) ∷ []))

  unfoldable pub select_scene : Value → Exec Session String
  unfolding list_scenes
  select_scene scene_name = do
    scenes ← list_scenes
    lift (select_exact_name scenes "scenes" "sceneName" scene_name "OBS_SCENE_NOT_FOUND")
    lift (require_name scene_name)

  unfoldable pub set_current_scene : Value → Exec Session Fields
  unfolding select_scene scene_name_mutation
  set_current_scene scene_name = do
    target ← select_scene scene_name
    scene_name_mutation "SetCurrentScene" "GetCurrentScene" target "scene_switch"

  unfoldable pub set_current_preview_scene : Value → Exec Session Fields
  unfolding select_scene scene_name_mutation
  set_current_preview_scene scene_name = do
    target ← select_scene scene_name
    scene_name_mutation "SetCurrentPreviewScene" "GetCurrentPreviewScene" target "studio_preview"

  -- any(item.get("sceneName") == scene_name for item in scenes["scenes"])
  unfoldable pub has_scene : String → Fields → Bool
  unfolding names_in items_of
  has_scene scene_name scenes =
      leb 1 (names_in "sceneName" scene_name (items_of (get "scenes" scenes)))

  scene_graph : String → Fields
  scene_graph scene_name =
      entries (("sceneName", str scene_name) ∷ ("capability", str "scene_graph") ∷ [])

  unfoldable pub create_scene : Value → Exec Session Fields
  unfolding has_scene scene_graph
  create_scene scene_name = do
    name ← lift (require_name scene_name)
    mutate_then_settle host "CreateScene" (scene_graph name) "ListScenes" end
        (λ scenes. ok (has_scene name scenes))
        (λ scenes. put "verified" (bool true) (put "sceneName" (str name) scenes))

  unfoldable pub remove_scene : Value → Exec Session Fields
  unfolding select_scene has_scene scene_graph
  remove_scene scene_name = do
    name ← lift (require_name scene_name)
    target ← select_scene (str name)
    mutate_then_settle host "RemoveScene" (scene_graph target) "ListScenes" end
        (λ scenes. ok (not (has_scene target scenes)))
        (λ scenes. put "verified" (bool true) (put "removed" (bool true) scenes))

  unfoldable pub rename_scene : Value → Value → Exec Session Fields
  unfolding list_scenes has_scene
  rename_scene scene_name new_scene_name = do
    old ← lift (require_name scene_name)
    new ← lift (require_name new_scene_name)
    guard (not (old == new)) "OBS_ARGUMENT_INVALID"
    scenes ← list_scenes
    lift (select_exact_name scenes "scenes" "sceneName" (str old) "OBS_SCENE_NOT_FOUND")
    guard (not (has_scene new scenes)) "OBS_TARGET_AMBIGUOUS"
    mutate_then_settle host "RenameScene"
        (entries (
          ("sceneName", str old)
          ∷ ("newSceneName", str new)
          ∷ ("capability", str "scene_graph")
          ∷ []))
        "ListScenes" end (λ after. ok (has_scene new after && not (has_scene old after)))
        (λ after. put "verified" (bool true) (put "sceneName" (str new) after))

  unfoldable pub list_transitions : Exec Session Fields
  list_transitions = now_checked host "ListTransitions" end

  unfoldable pub get_current_transition : Exec Session Fields
  get_current_transition = now_checked host "GetCurrentTransition" end

  duration_entry : Option ℕ → List (String × Value)
  duration_entry none = []
  duration_entry (some n) = ("durationMs", int (pos n)) ∷ []

  duration_shown : Option ℕ → Fields → Bool
  unfolding equals_nat
  duration_shown none readback = true
  duration_shown (some n) readback = equals_nat n (get "durationMs" readback)

  unfoldable pub set_current_transition : Value → Value → Exec Session Fields
  unfolding list_transitions duration_argument duration_entry duration_shown
  set_current_transition transition_name duration_ms = do
    name ← lift (require_name transition_name)
    duration ← lift (duration_argument duration_ms)
    transitions ← list_transitions
    lift (
        select_exact_name transitions "transitions" "transitionName" (str name)
          "OBS_TRANSITION_NOT_FOUND")
    mutate_then_settle host "SetCurrentTransition"
        (entries (
          ("transitionName", str name)
          ∷ ("capability", str "transitions")
          ∷ duration_entry duration))
        "GetCurrentTransition" end
        (λ readback.
          ok (equals_text name (get "transitionName" readback) && duration_shown duration readback))
        (λ readback. put "verified" (bool true) (put "accepted" (bool true) readback))

  -- The readback is reported, and compared with nothing.
  unfoldable pub trigger_transition : Value → Exec Session Fields
  unfolding select_scene
  trigger_transition scene_name = do
    target ← select_scene scene_name
    deadline ← operation_deadline host
    accepted ←
        acknowledged host "TriggerTransition"
          (entries (("sceneName", str target) ∷ ("capability", str "transitions") ∷ [])) deadline
    readback ← checked host "GetCurrentTransition" end deadline
    pure (
        put "verified" (bool true)
          (put "accepted" (bool true) (put "sceneName" (str target) readback)))

  unfoldable pub get_studio_mode_status : Exec Session Fields
  get_studio_mode_status = now_checked host "GetStudioModeStatus" end

  unfoldable pub get_current_preview_scene : Exec Session Fields
  get_current_preview_scene = now_checked host "GetCurrentPreviewScene" end

  unfoldable pub set_studio_mode : Value → Exec Session Fields
  set_studio_mode enabled = do
    wanted ← lift (require_bool enabled)
    mutate_then_settle host "SetStudioMode"
        (entries (("studioModeEnabled", bool wanted) ∷ ("capability", str "studio_mode") ∷ []))
        "GetStudioModeStatus" end
        (λ readback. ok (is_bool wanted (get "studioModeEnabled" readback))) verified

  -- The program scene has become the preview, and the preview is one of the two.
  unfoldable pub transitioned : String → String → Fields → Bool
  transitioned program preview readback =
      equals_text preview (get "programSceneName" readback)
      && (equals_text preview (get "previewSceneName" readback)
          || equals_text program (get "previewSceneName" readback))

  -- One deadline serves the readback before the request and all that follows.
  unfoldable pub trigger_studio_mode_transition : Exec Session Fields
  unfolding two_scenes transitioned
  trigger_studio_mode_transition = do
    deadline ← operation_deadline host
    before ← checked host "GetStudioModeStatus" end deadline
    scenes ← lift (two_scenes before)
    accepted ←
        acknowledged host "TriggerStudioModeTransition"
          (entries (("capability", str "studio_transition") ∷ [])) deadline
    settle_by host "GetStudioModeStatus" end
        (λ readback. ok (transitioned scenes.0 scenes.1 readback))
        (λ readback. put "verified" (bool true) (put "accepted" (bool true) readback)) deadline
