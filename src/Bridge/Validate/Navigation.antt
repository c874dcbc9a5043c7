-- ===== src/Bridge/Validate/Navigation.antt =====
-- `_validate_read_only_response` of src/dcc_mcp_obs/bridge.py: transitions, Studio Mode, profiles,
-- scene collections, hotkeys and the operator status.
use dcc_mcp_obs.Base.{String, Bool, ◌&&◌, [], ◌∷◌, all}
use dcc_mcp_obs.Value.{Value, Fields}
use dcc_mcp_obs.Value.Dict.{get, has, keys_within, keys_equal}
use dcc_mcp_obs.Value.Check.{is_true, bool_type, text_between, int_between, list_type, items_of}
use dcc_mcp_obs.Result.{Result, ◌>>◌}
use dcc_mcp_obs.Bridge.Validate.Items.{check, allows, dicts_between, absent_or, name}

transition_entry : Fields → Bool
transition_entry item =
    keys_within ("transitionName" ∷ "transitionKind" ∷ []) item
    && has "transitionName" item
    && name (get "transitionName" item)
    && absent_or name "transitionKind" item

unfoldable pub check_transition_envelope : Fields → Result (Unit {0})
unfolding check
check_transition_envelope response = check (
    allows
      ("transitions" ∷ "truncated" ∷ "transitionName" ∷ "currentTransitionName" ∷ "durationMs" ∷ [])
      response)

unfoldable pub check_transition_details : Fields → Result (Unit {0})
unfolding check
check_transition_details response = do
  check (absent_or name "currentTransitionName" response)
  check (absent_or (int_between 0 3_600_000) "durationMs" response)

unfoldable pub check_transitions : Fields → Result (Unit {0})
unfolding check transition_entry check_transition_envelope check_transition_details
check_transitions response = do
  check_transition_envelope response
  check (dicts_between 0 128 transition_entry (get "transitions" response))
  check (bool_type (get "truncated" response))
  check_transition_details response

unfoldable pub check_current_transition : Fields → Result (Unit {0})
unfolding check check_transition_envelope check_transition_details
check_current_transition response = do
  check_transition_envelope response
  check (name (get "transitionName" response))
  check_transition_details response

unfoldable pub check_current_preview_scene : Fields → Result (Unit {0})
unfolding check
check_current_preview_scene response =
    check (allows ("sceneName" ∷ []) response && name (get "sceneName" response))

unfoldable pub check_studio_mode_status : Fields → Result (Unit {0})
unfolding check
check_studio_mode_status response = do
  check (allows ("studioModeEnabled" ∷ "previewSceneName" ∷ "programSceneName" ∷ []) response)
  check (bool_type (get "studioModeEnabled" response))
  check (absent_or name "previewSceneName" response)
  check (absent_or name "programSceneName" response)

name_entry : String → Fields → Bool
name_entry name_key item = keys_equal (name_key ∷ []) item && name (get name_key item)

-- profiles and scene collections: the key of the list, of a name in it, and of the current name
unfoldable pub check_names : String → String → String → Fields → Result (Unit {0})
unfolding check name_entry
check_names collection_key name_key current_key response = do
  check (allows (collection_key ∷ "truncated" ∷ current_key ∷ []) response)
  check (dicts_between 0 128 (name_entry name_key) (get collection_key response))
  check (bool_type (get "truncated" response))
  check (absent_or name current_key response)

unfoldable pub check_current_name : String → Fields → Result (Unit {0})
unfolding check
check_current_name key response = check (allows (key ∷ []) response && name (get key response))

hotkey_entry : Fields → Bool
hotkey_entry item =
    keys_within ("hotkeyName" ∷ "description" ∷ []) item
    && text_between 1 128 (get "hotkeyName" item)
    && absent_or (text_between 0 256) "description" item

unfoldable pub check_hotkeys : Fields → Result (Unit {0})
unfolding check hotkey_entry
check_hotkeys response = do
  check (allows ("hotkeys" ∷ "truncated" ∷ []) response)
  check (dicts_between 0 128 hotkey_entry (get "hotkeys" response))
  check (bool_type (get "truncated" response))

hotkey_names : Value → Bool
hotkey_names v = list_type v && all (text_between 1 128) (items_of v)

unfoldable pub check_operator_status : Fields → Result (Unit {0})
unfolding check hotkey_names
check_operator_status response = do
  check (
      allows
        ("ready" ∷ "uiThreadReady" ∷ "configPathRedacted" ∷ "profileName" ∷ "sceneCollectionName"
          ∷ "allowlistedHotkeys" ∷ "configVersion" ∷ [])
        response)
  check (is_true (get "ready" response))
  check (is_true (get "uiThreadReady" response))
  check (is_true (get "configPathRedacted" response))
  check (absent_or name "profileName" response)
  check (absent_or name "sceneCollectionName" response)
  check (absent_or hotkey_names "allowlistedHotkeys" response)
  check (absent_or (text_between 1 128) "configVersion" response)
