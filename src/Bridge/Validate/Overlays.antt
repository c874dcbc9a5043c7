-- ===== src/Bridge/Validate/Overlays.antt =====
-- `_validate_read_only_response` of src/dcc_mcp_obs/bridge.py: the two overlays.
use dcc_mcp_obs.Base.{
  ℕ, String, count, Bool, true, false, ◌&&◌, List, [], ◌∷◌, ◌++◌, length, leb, all, mem_text,
  if◌then◌else◌,
}
use dcc_mcp_obs.Value.{Value, null, str, Fields}
use dcc_mcp_obs.Value.Dict.{get, keys_equal}
use dcc_mcp_obs.Value.Text.{split_commas, all_codes, printable}
use dcc_mcp_obs.Value.Check.{bool_type, text_between, equals_text, int_from, int_between}
use dcc_mcp_obs.Value.Json.{Loaded, loaded, not_json, long_number, deep_nesting}
use dcc_mcp_obs.Result.{Result, ok, err, value_error, recursion_error, ◌>>=◌, ◌>>◌}
use dcc_mcp_obs.Bridge.Host.{Library}
use dcc_mcp_obs.Bridge.Validate.Items.{check, check_member, exactly, dicts_between, name}

abbrev pub agent_input_overlay_anchors : List String
agent_input_overlay_anchors =
    ("top_left" ∷ "top_center" ∷ "top_right" ∷ "center_left" ∷ "center_right" ∷ "bottom_left"
      ∷ "bottom_center" ∷ "bottom_right" ∷ [])

abbrev pub agent_input_event_kinds : List String
agent_input_event_kinds = ("shortcut" ∷ "mouse_button" ∷ "mouse_wheel" ∷ "typing" ∷ [])

unfoldable pub agent_input_keys : List String
agent_input_keys =
    ("ctrl" ∷ "shift" ∷ "alt" ∷ "meta" ∷ "enter" ∷ "escape" ∷ "tab" ∷ "space" ∷ "backspace"
      ∷ "delete" ∷ "up" ∷ "down" ∷ "left" ∷ "right" ∷ "a" ∷ "b" ∷ "c" ∷ "d" ∷ "e" ∷ "f" ∷ "g" ∷ "h"
      ∷ "i" ∷ "j" ∷ "k" ∷ "l" ∷ "m" ∷ "n" ∷ "o" ∷ "p" ∷ "q" ∷ "r" ∷ "s" ∷ "t" ∷ "u" ∷ "v" ∷ "w"
      ∷ "x" ∷ "y" ∷ "z" ∷ "0" ∷ "1" ∷ "2" ∷ "3" ∷ "4" ∷ "5" ∷ "6" ∷ "7" ∷ "8" ∷ "9" ∷ "f1" ∷ "f2"
      ∷ "f3" ∷ "f4" ∷ "f5" ∷ "f6" ∷ "f7" ∷ "f8" ∷ "f9" ∷ "f10" ∷ "f11" ∷ "f12" ∷ [])

abbrev pub agent_input_mouse_buttons : List String
agent_input_mouse_buttons = ("none" ∷ "left" ∷ "right" ∷ "middle" ∷ "back" ∷ "forward" ∷ [])

abbrev pub agent_input_wheel_directions : List String
agent_input_wheel_directions = ("none" ∷ "up" ∷ "down" ∷ "left" ∷ "right" ∷ [])

-- `keys_csv.split(",") if keys_csv else []`, at most four and all known
unfoldable pub known_keys : Value → Bool
unfolding split_commas agent_input_keys
known_keys (str keys_csv) =
    if leb 1 (count keys_csv)
    then leb (length (split_commas keys_csv)) 4
      && all (mem_text agent_input_keys) (split_commas keys_csv)
    else true
known_keys _ = true

-- The part that both overlays share: the scene item, its kind, theme and layout.
unfoldable pub check_overlay : String → Fields → Result (Unit {0})
unfolding check check_member
check_overlay source_kind response = do
  check (name (get "sceneName" response))
  check (int_from 1 (get "sceneItemId" response))
  check (name (get "sourceName" response))
  check (equals_text source_kind (get "sourceKind" response))
  check (equals_text "dcc_mcp_dark" (get "theme" response))
  check_member (agent_input_overlay_anchors ++ ("custom" ∷ [])) (get "anchor" response)
  check (int_between 20 100 (get "opacity" response))
  check (int_between 8 160 (get "margin" response))

unfoldable pub check_agent_input_overlay : Fields → Result (Unit {0})
unfolding check check_member check_overlay known_keys
check_agent_input_overlay response = do
  check (
      exactly
        ("sceneName" ∷ "sceneItemId" ∷ "sourceName" ∷ "sourceKind" ∷ "theme" ∷ "anchor" ∷ "opacity"
          ∷ "margin" ∷ "agentId" ∷ "active" ∷ "activitySequence" ∷ "eventKind" ∷ "keysCsv"
          ∷ "mouseButton" ∷ "wheelDirection" ∷ "characterCount" ∷ "cueLabel" ∷ "durationMs"
          ∷ "remainingMs" ∷ [])
        response)
  check_overlay "dcc_mcp_agent_input_overlay" response
  check (text_between 0 64 (get "agentId" response))
  check (bool_type (get "active" response))
  check (int_from 0 (get "activitySequence" response))
  check_member (agent_input_event_kinds ++ ("none" ∷ [])) (get "eventKind" response)
  check (text_between 0 32 (get "keysCsv" response))
  check (known_keys (get "keysCsv" response))
  check_member agent_input_mouse_buttons (get "mouseButton" response)
  check_member agent_input_wheel_directions (get "wheelDirection" response)
  check (int_between 0 10000 (get "characterCount" response))
  check (text_between 0 96 (get "cueLabel" response))
  check (int_between 0 5000 (get "durationMs" response))
  check (int_between 0 5000 (get "remainingMs" response))

unfoldable pub valid_presentation_text : ℕ → Value → Bool
unfolding all_codes printable
valid_presentation_text maximum (str s) = leb (count s) maximum && all_codes printable s
valid_presentation_text maximum _ = false

presentation_row : Fields → Bool
unfolding valid_presentation_text
presentation_row row =
    keys_equal ("label" ∷ "value" ∷ []) row
    && valid_presentation_text 32 (get "label" row)
    && valid_presentation_text 64 (get "value" row)

unfoldable pub valid_presentation_rows : Value → Bool
unfolding presentation_row
valid_presentation_rows rows = dicts_between 0 8 presentation_row rows

-- None where the text is no JSON; the other exceptions of json.loads are not caught
unfoldable pub loaded_rows : Loaded → Result Value
loaded_rows (loaded rows) = ok rows
loaded_rows not_json = ok null
loaded_rows long_number = err value_error
loaded_rows deep_nesting = err recursion_error

-- json.loads(rows_json)
unfoldable pub load_rows : Library → Value → Result Value
unfolding loaded_rows
load_rows lib (str rows_json) = loaded_rows (lib.loads rows_json)
load_rows lib _ = ok null

unfoldable pub check_presentation_overlay : Library → Fields → Result (Unit {0})
unfolding check check_overlay valid_presentation_text valid_presentation_rows load_rows
check_presentation_overlay lib response = do
  rows ← load_rows lib (get "rowsJson" response)
  check (
      exactly
        ("sceneName" ∷ "sceneItemId" ∷ "sourceName" ∷ "sourceKind" ∷ "theme" ∷ "anchor" ∷ "opacity"
          ∷ "margin" ∷ "width" ∷ "visible" ∷ "title" ∷ "rowsJson" ∷ "logoPath" ∷ [])
        response)
  check_overlay "dcc_mcp_presentation_overlay" response
  check (int_between 360 960 (get "width" response))
  check (bool_type (get "visible" response))
  check (valid_presentation_text 128 (get "title" response))
  check (valid_presentation_rows rows)
  check (text_between 0 4096 (get "logoPath" response))
