-- ===== src/Bridge/Validate/Scenes.antt =====
-- `_validate_read_only_response` of src/dcc_mcp_obs/bridge.py: the responses on the plugin, scenes,
-- scene items and window capture.
use dcc_mcp_obs.Base.{
  ◌-◌, ◌^◌, String, Bool, true, false, not, ◌&&◌, ◌||◌, List, [], ◌∷◌, ◌++◌, length, leb,
  if◌then◌else◌,
}
use dcc_mcp_obs.Value.{Value, dict, Fields}
use dcc_mcp_obs.Value.Dict.{get, has, pick, keys_within, has_all, keys_equal}
use dcc_mcp_obs.Value.Check.{
  is_true, is_false, bool_type, text_type, text_between, equals_text, int_from, int_between,
  list_type, items_of, number_finite, number_type,
}
use dcc_mcp_obs.Result.{Result, ok, ◌>>=◌, ◌>>◌}
use dcc_mcp_obs.Bridge.Constants.{identity_keys}
use dcc_mcp_obs.Bridge.Validate.Items.{
  check, check_member, allows, dicts_between, null_or, absent_or, name,
}

abbrev pub window_capture_methods : List String
window_capture_methods = ("automatic" ∷ "bitblt" ∷ "windows_graphics_capture" ∷ [])

unfoldable pub check_plugin_status : Fields → Result (Unit {0})
unfolding check
check_plugin_status response =
    check (allows ("ready" ∷ []) response && is_true (get "ready" response))

scene_entry : Fields → Bool
scene_entry scene = keys_equal ("sceneName" ∷ []) scene && name (get "sceneName" scene)

unfoldable pub check_scenes : Fields → Result (Unit {0})
unfolding check scene_entry
check_scenes response = do
  check (allows ("currentSceneName" ∷ "scenes" ∷ "truncated" ∷ []) response)
  check (dicts_between 0 256 scene_entry (get "scenes" response))
  check (bool_type (get "truncated" response))
  check (null_or (text_between 0 256) (get "currentSceneName" response))

unfoldable pub check_current_scene : Fields → Result (Unit {0})
unfolding check
check_current_scene response =
    check (allows ("sceneName" ∷ []) response && name (get "sceneName" response))

-- candidate["captureReady"] is (visible and not minimized and clientWidth > 0 and clientHeight > 0)
unfoldable pub capture_ready : Fields → Bool
unfolding is_true int_from
capture_ready c =
    is_true (get "visible" c)
    && not (is_true (get "minimized" c))
    && int_from 1 (get "clientWidth" c)
    && int_from 1 (get "clientHeight" c)

unfoldable pub valid_window_capture_candidate : Fields → Bool
unfolding capture_ready
valid_window_capture_candidate c =
    keys_equal
      ("processId" ∷ "windowHandle" ∷ "windowTitle" ∷ "windowClass" ∷ "executable" ∷ "visible"
        ∷ "minimized" ∷ "clientWidth" ∷ "clientHeight" ∷ "captureReady" ∷ [])
      c
    && int_between 1 (2 ^ 32 - 1) (get "processId" c)
    && int_between 1 (2 ^ 63 - 1) (get "windowHandle" c)
    && name (get "windowTitle" c)
    && name (get "windowClass" c)
    && name (get "executable" c)
    && bool_type (get "visible" c)
    && bool_type (get "minimized" c)
    && int_between 0 (2 ^ 31 - 1) (get "clientWidth" c)
    && int_between 0 (2 ^ 31 - 1) (get "clientHeight" c)
    && bool_type (get "captureReady" c)
    && (if capture_ready c then is_true (get "captureReady" c) else is_false (get "captureReady" c))

unfoldable pub check_window_capture_candidates : Fields → Result (Unit {0})
unfolding check valid_window_capture_candidate
check_window_capture_candidates response = do
  check (allows ("executable" ∷ "windowTitle" ∷ "candidates" ∷ "truncated" ∷ []) response)
  check (name (get "executable" response))
  check (null_or name (get "windowTitle" response))
  check (dicts_between 0 64 valid_window_capture_candidate (get "candidates" response))
  check (bool_type (get "truncated" response))

-- `key not in item or (type(item[key]) in (int, float) and math.isfinite(float(item[key])))`
unfoldable pub optional_number : String → Fields → Result Bool
unfolding number_type number_finite has get
optional_number key item =
    if has key item
    then (if number_type (get key item) then number_finite (get key item) else ok false)
    else ok true

-- The set of optional keys is walked in this order; the source's is that of a set.
unfoldable pub optional_numbers : List String → Fields → Result Bool
unfolding optional_number
optional_numbers [] item = ok true
optional_numbers (key ∷ keys) item =
    let rest = optional_numbers keys item in
    do fits ← optional_number key item; if fits then rest else ok false

unfoldable pub valid_scene_item : Value → Result Bool
unfolding optional_numbers
valid_scene_item (dict item) =
    if has_all ("sceneName" ∷ "sceneItemId" ∷ "sourceName" ∷ "sourceKind" ∷ "enabled" ∷ []) item
      && keys_within
          ("sceneName" ∷ "sceneItemId" ∷ "sourceName" ∷ "sourceKind" ∷ "enabled" ∷ "posX" ∷ "posY"
            ∷ "scaleX" ∷ "scaleY" ∷ "rotation" ∷ [])
          item
      && name (get "sceneName" item)
      && int_from 1 (get "sceneItemId" item)
      && name (get "sourceName" item)
      && name (get "sourceKind" item)
      && bool_type (get "enabled" item)
    then optional_numbers ("posX" ∷ "posY" ∷ "scaleX" ∷ "scaleY" ∷ "rotation" ∷ []) item
    else ok false
valid_scene_item _ = ok false

unfoldable pub check_scene_item : Value → Result (Unit {0})
unfolding check valid_scene_item
check_scene_item item = do valid ← valid_scene_item item; check valid

unfoldable pub check_each_scene_item : List Value → Result (Unit {0})
unfolding check_scene_item
check_each_scene_item [] = ok tt
check_each_scene_item (item ∷ items) =
    let rest = check_each_scene_item items in do check_scene_item item; rest

unfoldable pub check_scene_item_envelope : Fields → Result (Unit {0})
unfolding check
check_scene_item_envelope response = do
  check (
      allows
        ("sceneName" ∷ "sceneItemId" ∷ "sourceName" ∷ "sourceKind" ∷ "enabled" ∷ "sceneItems"
          ∷ "truncated" ∷ "exists" ∷ "removed" ∷ "posX" ∷ "posY" ∷ "scaleX" ∷ "scaleY" ∷ "rotation"
          ∷ [])
        response)
  check (text_type (get "sceneName" response))
  check (absent_or (int_from 1) "sceneItemId" response)

unfoldable pub check_scene_items : Fields → Result (Unit {0})
unfolding check check_scene_item_envelope check_each_scene_item
check_scene_items response = do
  check_scene_item_envelope response
  check (list_type (get "sceneItems" response))
  check (leb (length (items_of (get "sceneItems" response))) 512)
  check (bool_type (get "truncated" response))
  check_each_scene_item (items_of (get "sceneItems" response))

unfoldable pub item_payload : Fields → Value
unfolding pick
item_payload response =
    dict
      (pick ("sceneName" ∷ "sceneItemId" ∷ "sourceName" ∷ "sourceKind" ∷ "enabled" ∷ []) response)

unfoldable pub check_scene_item_readback : Fields → Result (Unit {0})
unfolding check check_scene_item_envelope check_scene_item item_payload
check_scene_item_readback response = do
  check_scene_item_envelope response
  if is_false (get "exists" response) || is_true (get "removed" response)
      then check (allows ("sceneName" ∷ "sceneItemId" ∷ "exists" ∷ "removed" ∷ []) response)
      else check_scene_item (item_payload response)

abbrev binding_keys : List String
binding_keys =
    ("sceneName" ∷ "sceneItemId" ∷ "sourceName" ∷ "sourceKind" ∷ "enabled" ∷ "processId"
      ∷ "windowHandle" ∷ "windowTitle" ∷ "windowClass" ∷ "executable" ∷ "captureCursor"
      ∷ "clientArea" ∷ "captureAudio" ∷ "captureMethod" ∷ "bindingVerified" ∷ [])

-- set(source) against the required and the allowed keys, by whether the response answers a mutation
unfoldable pub window_capture_keys : Bool → Fields → Bool
unfolding has_all keys_within
window_capture_keys false source =
    has_all (identity_keys ++ binding_keys) source
    && keys_within (identity_keys ++ binding_keys) source
window_capture_keys true source =
    has_all (identity_keys ++ binding_keys ++ ("accepted" ∷ [])) source
    && keys_within (identity_keys ++ binding_keys ++ ("accepted" ∷ "capability" ∷ [])) source

-- `if not _valid_window_capture_source(source, mutation=mutation): raise …`
unfoldable pub check_window_capture_source : Bool → Fields → Result (Unit {0})
unfolding check check_member window_capture_keys
check_window_capture_source mutation source = do
  check (window_capture_keys mutation source)
  check (name (get "sceneName" source))
  check (int_from 1 (get "sceneItemId" source))
  check (name (get "sourceName" source))
  check (equals_text "window_capture" (get "sourceKind" source))
  check (bool_type (get "enabled" source))
  check (int_between 1 (2 ^ 32 - 1) (get "processId" source))
  check (int_between 1 (2 ^ 63 - 1) (get "windowHandle" source))
  check (
      name (get "windowTitle" source)
      && name (get "windowClass" source)
      && name (get "executable" source))
  check (bool_type (get "captureCursor" source))
  check (bool_type (get "clientArea" source))
  check (bool_type (get "captureAudio" source))
  check_member window_capture_methods (get "captureMethod" source)
  check (is_true (get "bindingVerified" source))
  check (not mutation || is_true (get "accepted" source))
  check (absent_or (equals_text "window_capture") "capability" source)
