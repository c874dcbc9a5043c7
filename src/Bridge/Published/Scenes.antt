-- ===== src/Bridge/Published/Scenes.antt =====
-- The errors of the checks on scenes, settings and frames: src/dcc_mcp_obs/bridge.py.
use dcc_mcp_obs.Base.{
  ℕ, zero, suc, String, Bool, true, false, List, [], ◌∷◌, refl, length, ltb, Option, none, some,
}
use dcc_mcp_obs.Value.{pos, negsuc, Value, int, float, str, dict, Fields, end, field}
use dcc_mcp_obs.Value.Check.{need, need_member, number_finite}
use dcc_mcp_obs.Value.Float.{int_too_large}
use dcc_mcp_obs.Result.{bridge_error, overflow_error, ok, err}
use dcc_mcp_obs.Result.Fails.{Fails, Fails-ok, Fails-err, Fails-if, Fails-bind, fails_rules}
use dcc_mcp_obs.Bridge.Constants.{public_downstream_errors}
use dcc_mcp_obs.Bridge.Host.{Library}
use dcc_mcp_obs.Bridge.Published.{
  IsPublished, published_errors, Fails-check, Fails-check_member, Fails-need, Fails-need_member,
}
use dcc_mcp_obs.Bridge.Settings.{
  require_schema_version, normalize_settings, nonempty_settings, normalize_input_settings, only_db,
  normalize_filter_settings,
}
use dcc_mcp_obs.Bridge.Frame.{
  read_chunk, walk_chunks, Walk, check_image, image_bytes, decode_program_frame,
}
use dcc_mcp_obs.Bridge.Validate.Scenes.{
  check_plugin_status, check_scenes, check_current_scene, check_window_capture_candidates,
  optional_number, optional_numbers, valid_scene_item, check_scene_item, check_each_scene_item,
  check_scene_item_envelope, check_scene_items, check_scene_item_readback,
  check_window_capture_source,
}

pub number_finite-Fails : (v : Value) → Fails IsPublished (number_finite v)
unfolding number_finite
number_finite-Fails (float bits) = Fails-ok _
number_finite-Fails (int (pos n)) =
    Fails-if (int_too_large n) _ _ (Fails-err overflow_error tt) (Fails-ok true)
number_finite-Fails (int (negsuc n)) =
    Fails-if (int_too_large (suc n)) _ _ (Fails-err overflow_error tt) (Fails-ok true)
number_finite-Fails _ = Fails-ok _

pub invalid-Fails :
    {A : Type 0} → Fails {A = A} IsPublished (err (bridge_error "OBS_RESPONSE_INVALID"))
unfolding published_errors public_downstream_errors
invalid-Fails = Fails-err _ refl

pub argument-Fails :
    {A : Type 0} → Fails {A = A} IsPublished (err (bridge_error "OBS_ARGUMENT_INVALID"))
unfolding published_errors public_downstream_errors
argument-Fails = Fails-err _ refl

pub argument_need-Fails : (b : Bool) → Fails IsPublished (need "OBS_ARGUMENT_INVALID" b)
unfolding published_errors public_downstream_errors
argument_need-Fails b = Fails-need _ b refl

pub ruleset rules = (
  fails_rules, Fails-check, Fails-check_member, invalid-Fails, argument-Fails, argument_need-Fails,
  number_finite-Fails,
)

require_schema_version-Fails : (v : Value) → Fails IsPublished (require_schema_version v)
unfolding require_schema_version published_errors public_downstream_errors
require_schema_version-Fails v = Fails-need _ _ refl

normalize_settings-Fails : (d : Fields) → Fails IsPublished (normalize_settings d)
unfolding normalize_settings
normalize_settings-Fails end = Fails-ok end
normalize_settings-Fails (field k v d) =
    Fails-bind _ _ (argument_need-Fails _)
      (λ _. Fails-bind _ _ (normalize_settings-Fails d) (λ n. Fails-ok _))

nonempty_settings-Fails : (v : Value) → Fails IsPublished (nonempty_settings v)
unfolding nonempty_settings
nonempty_settings-Fails (dict d) = search rules
nonempty_settings-Fails _ = argument-Fails

source_need-Fails :
    (ts : List String) (v : Value)
    → Fails IsPublished (need_member "OBS_SOURCE_KIND_UNSUPPORTED" ts v)
unfolding published_errors public_downstream_errors
source_need-Fails ts v = Fails-need_member _ ts v refl

pub normalize_input_settings-Fails :
    (k v s : Value) → Fails IsPublished (normalize_input_settings k v s)
unfolding normalize_input_settings
normalize_input_settings-Fails k v s =
    search
      (
        rules, source_need-Fails, require_schema_version-Fails, nonempty_settings-Fails,
        normalize_settings-Fails,
      )
      depth 20

only_db-Fails : (v : Value) → Fails IsPublished (only_db v)
unfolding only_db
only_db-Fails (dict d) = search rules
only_db-Fails _ = argument-Fails

kind_need-Fails :
    (ts : List String) (v : Value)
    → Fails IsPublished (need_member "OBS_FILTER_KIND_UNSUPPORTED" ts v)
unfolding published_errors public_downstream_errors
kind_need-Fails ts v = Fails-need_member _ ts v refl

pub normalize_filter_settings-Fails :
    (lib : Library) (k v s : Value) → Fails IsPublished (normalize_filter_settings lib k v s)
unfolding normalize_filter_settings
normalize_filter_settings-Fails lib k v s =
    search (rules, kind_need-Fails, require_schema_version-Fails, only_db-Fails) depth 20

read_chunk-Fails :
    (lib : Library) (image : List ℕ) (w : Walk) → Fails IsPublished (read_chunk lib image w)
unfolding read_chunk
read_chunk-Fails lib image w = search rules depth 20

walk_chunks-Fails :
    (lib : Library) (image : List ℕ) (n : ℕ) (w : Walk)
    → Fails IsPublished (walk_chunks lib image n w)
unfolding walk_chunks
walk_chunks-Fails lib image zero w =
    Fails-if (ltb w.offset (length image)) _ _ invalid-Fails (Fails-ok w)
walk_chunks-Fails lib image (suc n) w =
    Fails-if (ltb w.offset (length image)) _ _
      (Fails-bind _ _ (read_chunk-Fails lib image w) (walk_chunks-Fails lib image n)) (Fails-ok w)

check_image-Fails : (lib : Library) (image : List ℕ) → Fails IsPublished (check_image lib image)
unfolding check_image
check_image-Fails lib image = search (rules, walk_chunks-Fails) depth 25

option_image-Fails :
    (lib : Library) (o : Option (List ℕ))
    → Fails {A = List ℕ} IsPublished
        (elim o [ none ↦ err (bridge_error "OBS_RESPONSE_INVALID") | some image ↦ ok image ])
option_image-Fails lib none = invalid-Fails
option_image-Fails lib (some image) = Fails-ok image

option_text-Fails :
    (lib : Library) (o : Option String)
    → Fails {A = List ℕ} IsPublished (elim o [
      | none ↦ err (bridge_error "OBS_RESPONSE_INVALID")
      | some encoded ↦ elim (lib.b64decode encoded) [
        | none ↦ err (bridge_error "OBS_RESPONSE_INVALID")
        | some image ↦ ok image
      ]
    ])
option_text-Fails lib none = invalid-Fails
option_text-Fails lib (some encoded) = option_image-Fails lib (lib.b64decode encoded)

image_bytes-Fails : (lib : Library) (v : Value) → Fails IsPublished (image_bytes lib v)
unfolding image_bytes
image_bytes-Fails lib (str s) = option_text-Fails lib _
image_bytes-Fails lib _ = invalid-Fails

pub decode_program_frame-Fails :
    (lib : Library) (response : Fields) → Fails IsPublished (decode_program_frame lib response)
unfolding decode_program_frame
decode_program_frame-Fails lib response =
    search (rules, image_bytes-Fails, check_image-Fails) depth 30

pub check_plugin_status-Fails :
    (response : Fields) → Fails IsPublished (check_plugin_status response)
unfolding check_plugin_status
check_plugin_status-Fails response = search (rules) depth 30

pub check_scenes-Fails : (response : Fields) → Fails IsPublished (check_scenes response)
unfolding check_scenes
check_scenes-Fails response = search (rules) depth 30

pub check_current_scene-Fails :
    (response : Fields) → Fails IsPublished (check_current_scene response)
unfolding check_current_scene
check_current_scene-Fails response = search (rules) depth 30

pub check_window_capture_candidates-Fails :
    (response : Fields) → Fails IsPublished (check_window_capture_candidates response)
unfolding check_window_capture_candidates
check_window_capture_candidates-Fails response = search (rules) depth 30

optional_number-Fails :
    (key : String) (item : Fields) → Fails IsPublished (optional_number key item)
unfolding optional_number
optional_number-Fails key item = search rules

optional_numbers-Fails :
    (keys : List String) (item : Fields) → Fails IsPublished (optional_numbers keys item)
unfolding optional_numbers
optional_numbers-Fails [] item = Fails-ok true
optional_numbers-Fails (key ∷ keys) item =
    Fails-bind _ _ (optional_number-Fails key item)
      (λ b. Fails-if b _ _ (optional_numbers-Fails keys item) (Fails-ok false))

valid_scene_item-Fails : (item : Value) → Fails IsPublished (valid_scene_item item)
unfolding valid_scene_item
valid_scene_item-Fails (dict item) = search (rules, optional_numbers-Fails)
valid_scene_item-Fails _ = Fails-ok false

pub check_scene_item-Fails : (item : Value) → Fails IsPublished (check_scene_item item)
unfolding check_scene_item
check_scene_item-Fails item = search (rules, valid_scene_item-Fails) depth 30

check_each_scene_item-Fails : (items : List Value) → Fails IsPublished (check_each_scene_item items)
unfolding check_each_scene_item
check_each_scene_item-Fails [] = Fails-ok tt
check_each_scene_item-Fails (item ∷ items) =
    Fails-bind _ _ (check_scene_item-Fails item) (λ _. check_each_scene_item-Fails items)

check_scene_item_envelope-Fails :
    (response : Fields) → Fails IsPublished (check_scene_item_envelope response)
unfolding check_scene_item_envelope
check_scene_item_envelope-Fails response = search (rules) depth 30

pub check_scene_items-Fails : (response : Fields) → Fails IsPublished (check_scene_items response)
unfolding check_scene_items
check_scene_items-Fails response =
    search (rules, check_scene_item_envelope-Fails, check_each_scene_item-Fails) depth 30

pub check_scene_item_readback-Fails :
    (response : Fields) → Fails IsPublished (check_scene_item_readback response)
unfolding check_scene_item_readback
check_scene_item_readback-Fails response =
    search (rules, check_scene_item_envelope-Fails, check_scene_item-Fails) depth 30

pub check_window_capture_source-Fails :
    (mutation : Bool) (source : Fields)
    → Fails IsPublished (check_window_capture_source mutation source)
unfolding check_window_capture_source
check_window_capture_source-Fails mutation source = search (rules) depth 30
