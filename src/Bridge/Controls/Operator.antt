-- ===== src/Bridge/Controls/Operator.antt =====
-- Profiles, scene collections, hotkeys, screenshots, the operator status and the shutdown request in
-- src/dcc_mcp_obs/bridge.py.
use dcc_mcp_obs.Base.{String, count, ◌&&◌, [], ◌∷◌, between, mem_text, if◌then◌else◌}
use dcc_mcp_obs.Value.{Value, null, str, Fields, end}
use dcc_mcp_obs.Value.Dict.{get, entries, put}
use dcc_mcp_obs.Value.Check.{is_true, text_between, equals_text, in_texts}
use dcc_mcp_obs.Bridge.Host.{Host}
use dcc_mcp_obs.Result.{bridge_error, Result, ok, err}
use dcc_mcp_obs.Exec.{Exec, pure, raise, lift, guard, ◌>>=◌, ◌>>◌}
use dcc_mcp_obs.Bridge.Session.{Session}
use dcc_mcp_obs.Bridge.Reconcile.{verified, mutate_then_settle}
use dcc_mcp_obs.Bridge.Controls.Arguments.{require_name, select_exact_name, now_checked}
use dcc_mcp_obs.Bridge.Constants.{allowlisted_hotkeys}

unfoldable pub allowlisted : Value → Result String
allowlisted (str hotkey_id) =
    if between 1 128 (count hotkey_id) && mem_text allowlisted_hotkeys hotkey_id
    then ok hotkey_id
    else err (bridge_error "OBS_HOTKEY_NOT_ALLOWLISTED")
allowlisted _ = err (bridge_error "OBS_HOTKEY_NOT_ALLOWLISTED")

unfoldable pub image_format : Value → Result Value
image_format v =
    if in_texts ("png" ∷ "jpg" ∷ "jpeg" ∷ "webp" ∷ []) v
    then ok v
    else err (bridge_error "OBS_SCREENSHOT_INVALID")

unfoldable pub screenshot_source : Value → Result Value
screenshot_source v =
    if text_between 1 256 v then ok v else err (bridge_error "OBS_SCREENSHOT_INVALID")

module _ (host : Host) where
  -- `_select_profile_or_collection`
  unfoldable pub select_profile_or_collection :
      String → String → String → String → Exec Session Fields
  select_profile_or_collection rt status_request key target =
      mutate_then_settle host rt (entries ((key, str target) ∷ [])) status_request end
        (λ readback. ok (equals_text target (get key readback))) verified

  unfoldable pub list_profiles : Exec Session Fields
  list_profiles = now_checked host "ListProfiles" end

  unfoldable pub get_current_profile : Exec Session Fields
  get_current_profile = now_checked host "GetCurrentProfile" end

  unfoldable pub set_current_profile : Value → Exec Session Fields
  unfolding list_profiles select_profile_or_collection
  set_current_profile profile_name = do
    profiles ← list_profiles
    lift (select_exact_name profiles "profiles" "profileName" profile_name "OBS_PROFILE_NOT_FOUND")
    target ← lift (require_name profile_name)
    select_profile_or_collection "SetCurrentProfile" "GetCurrentProfile" "profileName" target

  unfoldable pub list_scene_collections : Exec Session Fields
  list_scene_collections = now_checked host "ListSceneCollections" end

  unfoldable pub get_current_scene_collection : Exec Session Fields
  get_current_scene_collection = now_checked host "GetCurrentSceneCollection" end

  unfoldable pub set_current_scene_collection : Value → Exec Session Fields
  unfolding list_scene_collections select_profile_or_collection
  set_current_scene_collection collection_name = do
    collections ← list_scene_collections
    lift (
        select_exact_name collections "sceneCollections" "sceneCollectionName" collection_name
          "OBS_SCENE_COLLECTION_NOT_FOUND")
    target ← lift (require_name collection_name)
    select_profile_or_collection "SetCurrentSceneCollection" "GetCurrentSceneCollection"
        "sceneCollectionName" target

  unfoldable pub list_allowlisted_hotkeys : Exec Session Fields
  list_allowlisted_hotkeys = now_checked host "ListAllowlistedHotkeys" end

  unfoldable pub trigger_allowlisted_hotkey : Value → Exec Session Fields
  unfolding allowlisted
  trigger_allowlisted_hotkey hotkey_id = do
    hotkey ← lift (allowlisted hotkey_id)
    response ←
        now_checked host "TriggerAllowlistedHotkey" (entries (("hotkeyName", str hotkey) ∷ []))
    guard (is_true (get "accepted" response)) "OBS_HOTKEY_NOT_ALLOWLISTED"
    guard (equals_text hotkey (get "hotkeyName" response)) "OBS_RESPONSE_INVALID"
    pure (put "hotkeyName" (str hotkey) response)

  -- A screenshot cannot be verified, and none is ever claimed.
  unfoldable pub capture_source_screenshot : Value → Value → Exec Session Fields
  unfolding image_format screenshot_source
  capture_source_screenshot source_name format = do
    source ← lift (screenshot_source source_name)
    image ← lift (image_format format)
    response ←
        now_checked host "CaptureScreenshot"
          (entries (("sourceName", source) ∷ ("imageFormat", image) ∷ []))
    raise (bridge_error "OBS_SCREENSHOT_UNVERIFIED")

  unfoldable pub get_operator_status : Exec Session Fields
  get_operator_status = now_checked host "GetOperatorStatus" end

  unfoldable pub request_graceful_shutdown : Exec Session Fields
  request_graceful_shutdown = do
    response ←
        now_checked host "RequestGracefulShutdown"
          (entries (("capability", str "application_lifecycle") ∷ []))
    guard (is_true (get "accepted" response) && is_true (get "shutdownScheduled" response))
        "OBS_MUTATION_REJECTED"
    pure response

  unfoldable pub list_sources : Value → Exec Session Fields
  list_sources null = now_checked host "ListSources" end
  list_sources scene_name = do
    name ← lift (require_name scene_name)
    now_checked host "ListSources" (entries (("sceneName", str name) ∷ []))
