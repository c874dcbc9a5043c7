-- ===== src/Bridge/Controls/Transform.antt =====
-- `set_scene_item_transform` of src/dcc_mcp_obs/bridge.py.
use dcc_mcp_obs.Base.{suc, String, ◌&&◌, List, [], ◌∷◌, ◌++◌, Option, none, some, if◌then◌else◌}
use dcc_mcp_obs.Value.{pos, negsuc, Value, null, int, float, str, list, elements, Fields}
use dcc_mcp_obs.Value.Dict.{entries}
use dcc_mcp_obs.Value.Float.{int_too_large, is_finite}
use dcc_mcp_obs.Value.Check.{number_type}
use dcc_mcp_obs.Result.{bridge_error, overflow_error, Result, ok, err, ◌>>=◌}
use dcc_mcp_obs.Exec.{Exec, lift, ◌>>=◌ as bind}
use dcc_mcp_obs.Bridge.Host.{Host, Library}
use dcc_mcp_obs.Bridge.Session.{Session, operation_deadline, acknowledged}
use dcc_mcp_obs.Bridge.Controls.Arguments.{require_name, require_item_id}
use dcc_mcp_obs.Bridge.Controls.Items.{nothing_expected, readback_scene_item}

-- float(v) of an int or a float
unfoldable pub as_float : Library → Value → Result Value
as_float lib (int (pos n)) =
    if int_too_large n then err overflow_error else ok (float (lib.float_of_int (pos n)))
as_float lib (int (negsuc n)) =
    if int_too_large (suc n) then err overflow_error else ok (float (lib.float_of_int (negsuc n)))
as_float lib (float bits) = ok (float bits)
as_float lib _ = err (bridge_error "OBS_ARGUMENT_INVALID")

unfoldable pub both_floats : Library → Value → Value → Result (Option (Value × Value))
both_floats lib v w = do x ← as_float lib v; y ← as_float lib w; ok (some (x, y))

-- the types of both components are tested before either is converted
unfoldable pub two_numbers : Library → List Value → Result (Option (Value × Value))
two_numbers lib (v ∷ w ∷ []) =
    if number_type v && number_type w
    then both_floats lib v w
    else err (bridge_error "OBS_ARGUMENT_INVALID")
two_numbers lib _ = err (bridge_error "OBS_ARGUMENT_INVALID")

-- `position` and `scale`: None, or a sequence of two numbers
unfoldable pub pair_argument : Library → Value → Result (Option (Value × Value))
pair_argument lib null = ok none
pair_argument lib (list items) = two_numbers lib (elements items)
pair_argument lib _ = err (bridge_error "OBS_ARGUMENT_INVALID")

unfoldable pub finite_float : Value → Result (Option Value)
finite_float (float bits) =
    if is_finite bits then ok (some (float bits)) else err (bridge_error "OBS_ARGUMENT_INVALID")
finite_float _ = err (bridge_error "OBS_ARGUMENT_INVALID")

-- `rotation`: None, or a finite number
unfoldable pub rotation_argument : Library → Value → Result (Option Value)
rotation_argument lib null = ok none
rotation_argument lib v = as_float lib v >>= finite_float

pair_entries : String → String → Option (Value × Value) → List (String × Value)
pair_entries key_x key_y none = []
pair_entries key_x key_y (some (x, y)) = (key_x, x) ∷ (key_y, y) ∷ []

rotation_entries : Option Value → List (String × Value)
rotation_entries none = []
rotation_entries (some v) = ("rotation", v) ∷ []

-- the entries that `data` has besides the first three
transform_entries :
    Option (Value × Value) → Option (Value × Value) → Option Value → List (String × Value)
unfolding pair_entries rotation_entries
transform_entries position scale rotation =
    pair_entries "posX" "posY" position
    ++ pair_entries "scaleX" "scaleY" scale
    ++ rotation_entries rotation

unfoldable pub some_entries : List (String × Value) → Result (List (String × Value))
some_entries [] = err (bridge_error "OBS_ARGUMENT_INVALID")
some_entries (kv ∷ kvs) = ok (kv ∷ kvs)

module _ (host : Host) where
  unfoldable pub set_scene_item_transform :
      Value → Value → Value → Value → Value → Exec Session Fields
  unfolding transform_entries
  set_scene_item_transform scene_name scene_item_id position scale rotation =
      bind (lift (require_name scene_name)) λ scene.
        bind (lift (require_item_id scene_item_id)) λ item_id.
          bind (lift (pair_argument host.library position)) λ place.
            bind (lift (pair_argument host.library scale)) λ size.
              bind (lift (rotation_argument host.library rotation)) λ angle.
                bind (lift (some_entries (transform_entries place size angle))) λ changes.
                  bind (operation_deadline host) λ deadline.
                    bind
                      (acknowledged host "SetSceneItemTransform"
                        (entries (
                          ("sceneName", str scene)
                          ∷ ("sceneItemId", int (pos item_id))
                          ∷ ("capability", str "scene_graph")
                          ∷ changes))
                        deadline)
                      λ accepted.
                        readback_scene_item host scene item_id
                          (record nothing_expected {
                            position = place;
                            scale = size;
                            rotation = angle;
                          })
                          deadline
