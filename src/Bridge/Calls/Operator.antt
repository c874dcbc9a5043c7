-- ===== src/Bridge/Calls/Operator.antt =====
-- The methods of profiles, scene collections, hotkeys, screenshots and the operator in
-- src/dcc_mcp_obs/bridge.py are sound.
use dcc_mcp_obs.Value.{Value}
use dcc_mcp_obs.Bridge.Host.{Host}
use dcc_mcp_obs.Bridge.Sound.{IsSound}
use dcc_mcp_obs.Bridge.Calls.Arguments.{call_rules}
use dcc_mcp_obs.Base.{count, ◌&&◌, refl, between, mem_text}
use dcc_mcp_obs.Value.{null, bool, int, float, str, list, dict, Fields}
use dcc_mcp_obs.Result.{bridge_error, err}
use dcc_mcp_obs.Result.Fails.{Fails, Fails-ok, Fails-err, Fails-if}
use dcc_mcp_obs.Bridge.Constants.{public_downstream_errors, allowlisted_hotkeys}
use dcc_mcp_obs.Bridge.Published.{IsPublished, published_errors}
use dcc_mcp_obs.Bridge.Calls.Arguments.{select_exact_name-Fails}
use dcc_mcp_obs.Bridge.Controls.Arguments.{select_exact_name}
use dcc_mcp_obs.Exec.{raise}
use dcc_mcp_obs.Bridge.Sound.{IsSound-raise}
use dcc_mcp_obs.Bridge.Controls.Operator.{
  select_profile_or_collection, allowlisted, image_format, screenshot_source, list_sources,
}
use dcc_mcp_obs.Bridge.Controls.Operator.{
  list_profiles, get_current_profile, set_current_profile, list_scene_collections,
  get_current_scene_collection, set_current_scene_collection, list_allowlisted_hotkeys,
  trigger_allowlisted_hotkey, capture_source_screenshot, get_operator_status,
  request_graceful_shutdown,
}

profile_name-Fails :
    (response : Fields) (name : Value)
    → Fails IsPublished
        (select_exact_name response "profiles" "profileName" name "OBS_PROFILE_NOT_FOUND")
unfolding published_errors public_downstream_errors
profile_name-Fails response name = select_exact_name-Fails response _ _ name _ refl

collection_name-Fails :
    (response : Fields) (name : Value)
    → Fails IsPublished (
        select_exact_name response "sceneCollections" "sceneCollectionName" name
          "OBS_SCENE_COLLECTION_NOT_FOUND")
unfolding published_errors public_downstream_errors
collection_name-Fails response name = select_exact_name-Fails response _ _ name _ refl

refused-Fails :
    {A : Type 0} → Fails {A = A} IsPublished (err (bridge_error "OBS_HOTKEY_NOT_ALLOWLISTED"))
unfolding published_errors public_downstream_errors
refused-Fails = Fails-err _ refl

allowlisted-Fails : (v : Value) → Fails IsPublished (allowlisted v)
unfolding allowlisted
allowlisted-Fails (str hotkey_id) =
    Fails-if (between 1 128 (count hotkey_id) && mem_text allowlisted_hotkeys hotkey_id) _ _
      (Fails-ok hotkey_id) refused-Fails
allowlisted-Fails _ = refused-Fails

screenshot-Fails :
    {A : Type 0} → Fails {A = A} IsPublished (err (bridge_error "OBS_SCREENSHOT_INVALID"))
unfolding published_errors public_downstream_errors
screenshot-Fails = Fails-err _ refl

image_format-Fails : (v : Value) → Fails IsPublished (image_format v)
unfolding image_format
image_format-Fails v = Fails-if _ _ _ (Fails-ok v) screenshot-Fails

screenshot_source-Fails : (v : Value) → Fails IsPublished (screenshot_source v)
unfolding screenshot_source
screenshot_source-Fails v = Fails-if _ _ _ (Fails-ok v) screenshot-Fails

unverified-IsSound :
    {A : Type 0} → IsSound {A = A} (raise (bridge_error "OBS_SCREENSHOT_UNVERIFIED"))
unfolding published_errors public_downstream_errors
unverified-IsSound = IsSound-raise _ refl

module _ (host : Host) where
  ruleset operator_rules = (
    call_rules, profile_name-Fails, collection_name-Fails, allowlisted-Fails, image_format-Fails,
    screenshot_source-Fails, unverified-IsSound,
  )

  pub list_profiles-IsSound : IsSound (list_profiles host)
  unfolding list_profiles
  list_profiles-IsSound = search operator_rules depth 16

  pub get_current_profile-IsSound : IsSound (get_current_profile host)
  unfolding get_current_profile
  get_current_profile-IsSound = search operator_rules depth 16

  pub set_current_profile-IsSound :
      (profile_name : Value) → IsSound (set_current_profile host profile_name)
  unfolding set_current_profile select_profile_or_collection list_profiles
  set_current_profile-IsSound profile_name = search operator_rules depth 16

  pub list_scene_collections-IsSound : IsSound (list_scene_collections host)
  unfolding list_scene_collections
  list_scene_collections-IsSound = search operator_rules depth 16

  pub get_current_scene_collection-IsSound : IsSound (get_current_scene_collection host)
  unfolding get_current_scene_collection
  get_current_scene_collection-IsSound = search operator_rules depth 16

  pub set_current_scene_collection-IsSound :
      (collection_name : Value) → IsSound (set_current_scene_collection host collection_name)
  unfolding set_current_scene_collection select_profile_or_collection list_scene_collections
  set_current_scene_collection-IsSound collection_name = search operator_rules depth 16

  pub list_allowlisted_hotkeys-IsSound : IsSound (list_allowlisted_hotkeys host)
  unfolding list_allowlisted_hotkeys
  list_allowlisted_hotkeys-IsSound = search operator_rules depth 16

  pub trigger_allowlisted_hotkey-IsSound :
      (hotkey_id : Value) → IsSound (trigger_allowlisted_hotkey host hotkey_id)
  unfolding trigger_allowlisted_hotkey
  trigger_allowlisted_hotkey-IsSound hotkey_id = search operator_rules depth 16

  pub capture_source_screenshot-IsSound :
      (source_name format : Value) → IsSound (capture_source_screenshot host source_name format)
  unfolding capture_source_screenshot
  capture_source_screenshot-IsSound source_name format = search operator_rules depth 16

  pub get_operator_status-IsSound : IsSound (get_operator_status host)
  unfolding get_operator_status
  get_operator_status-IsSound = search operator_rules depth 16

  pub request_graceful_shutdown-IsSound : IsSound (request_graceful_shutdown host)
  unfolding request_graceful_shutdown
  request_graceful_shutdown-IsSound = search operator_rules depth 16

  pub list_sources-IsSound : (scene_name : Value) → IsSound (list_sources host scene_name)
  unfolding list_sources
  list_sources-IsSound null = search call_rules
  list_sources-IsSound (bool b) = search call_rules
  list_sources-IsSound (int n) = search call_rules
  list_sources-IsSound (float x) = search call_rules
  list_sources-IsSound (str s) = search call_rules
  list_sources-IsSound (list l) = search call_rules
  list_sources-IsSound (dict d) = search call_rules
