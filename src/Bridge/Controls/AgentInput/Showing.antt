-- ===== src/Bridge/Controls/AgentInput/Showing.antt =====
-- The arguments of the agent input overlay in src/dcc_mcp_obs/bridge.py, and what its readbacks are
-- held against.
use dcc_mcp_obs.Base.{
  String, count, Bool, true, false, not, ◌&&◌, List, [], ◌∷◌, between, leb, length, all,
  if◌then◌else◌,
}
use dcc_mcp_obs.Value.{pos, Value, null, int, str, list, Fields, Items, cons, nil, elements}
use dcc_mcp_obs.Value.Dict.{get, entries}
use dcc_mcp_obs.Value.Text.{split_commas, all_codes, printable}
use dcc_mcp_obs.Value.Check.{
  is_true, is_false, equals_text, int_between, need, need_member, in_texts,
}
use dcc_mcp_obs.Value.Equal.{same_value}
use dcc_mcp_obs.Result.{Result, ok, err, bridge_error, ◌>>◌}
use dcc_mcp_obs.Bridge.Validate.Overlays.{
  agent_input_event_kinds, agent_input_keys, agent_input_mouse_buttons,
  agent_input_wheel_directions,
}

-- `keys_csv.split(",") if keys_csv else []`
unfoldable pub keys_in : String → List String
unfolding split_commas
keys_in keys_csv = if leb 1 (count keys_csv) then split_commas keys_csv else []

unfoldable pub text_items : List String → Items
text_items [] = nil
text_items (t ∷ ts) = cons (str t) (text_items ts)

-- the keys of a response whose `keysCsv` the response checks have found to be a text
unfoldable pub response_keys : Value → Items
unfolding keys_in text_items
response_keys (str keys_csv) = text_items (keys_in keys_csv)
response_keys _ = nil

unfoldable pub texts_of : List Value → List String
texts_of [] = []
texts_of (str s ∷ vs) = s ∷ texts_of vs
texts_of (_ ∷ vs) = texts_of vs

-- `keys`: None, or a list
unfoldable pub keys_argument : Value → Result (List Value)
keys_argument null = ok []
keys_argument (list items) = ok (elements items)
keys_argument _ = err (bridge_error "OBS_ARGUMENT_INVALID")

unfoldable pub valid_agent_id : Value → Bool
unfolding all_codes printable
valid_agent_id (str s) = between 1 64 (count s) && all_codes printable s
valid_agent_id _ = false

-- the arguments of `emit_agent_input_activity`, besides the overlay
pub record Activity : Type 0 where
  pub event_kind : Value
  pub keys : List Value
  pub mouse_button : Value
  pub wheel_direction : Value
  pub character_count : Value
  pub duration_ms : Value
  pub agent_id : Value

abbrev pub agree : Bool → Bool → Bool
agree true c = c
agree false c = not c

-- each field stands with its own kind of event, and with no other
unfoldable pub one_kind : Activity → Bool
one_kind a =
    agree (equals_text "shortcut" a.event_kind) (leb 1 (length a.keys))
    && agree (equals_text "mouse_button" a.event_kind) (not (equals_text "none" a.mouse_button))
    && agree (equals_text "mouse_wheel" a.event_kind) (not (equals_text "none" a.wheel_direction))
    && agree (equals_text "typing" a.event_kind) (not (same_value a.character_count (int (pos 0))))

unfoldable pub require_activity : Activity → Result (Unit {0})
unfolding need valid_agent_id one_kind
require_activity a = do
  need_member "OBS_ARGUMENT_INVALID" agent_input_event_kinds a.event_kind
  need "OBS_ARGUMENT_INVALID" (int_between 250 5000 a.duration_ms)
  need_member "OBS_ARGUMENT_INVALID" agent_input_mouse_buttons a.mouse_button
  need_member "OBS_ARGUMENT_INVALID" agent_input_wheel_directions a.wheel_direction
  need "OBS_ARGUMENT_INVALID" (int_between 0 10000 a.character_count)
  need "OBS_ARGUMENT_INVALID" (leb (length a.keys) 4)
  need "OBS_ARGUMENT_INVALID" (all (in_texts agent_input_keys) a.keys)
  need "OBS_ARGUMENT_INVALID" (valid_agent_id a.agent_id)
  need "OBS_ARGUMENT_INVALID" (one_kind a)

-- 0 < remaining <= duration, of two ints
unfoldable pub still_shown : Value → Value → Bool
still_shown (int (pos duration)) remaining = int_between 1 duration remaining
still_shown _ remaining = false

unfoldable pub shows_activity : Activity → Value → Fields → Bool
unfolding texts_of text_items still_shown
shows_activity a activity_sequence readback =
    is_true (get "active" readback)
    && same_value (get "activitySequence" readback) activity_sequence
    && same_value (get "eventKind" readback) a.event_kind
    && same_value (get "keys" readback) (list (text_items (texts_of a.keys)))
    && same_value (get "mouseButton" readback) a.mouse_button
    && same_value (get "wheelDirection" readback) a.wheel_direction
    && same_value (get "characterCount" readback) a.character_count
    && same_value (get "durationMs" readback) a.duration_ms
    && same_value (get "agentId" readback) a.agent_id
    && still_shown a.duration_ms (get "remainingMs" readback)

unfoldable pub shows_nothing : Value → Fields → Bool
shows_nothing activity_sequence readback =
    is_false (get "active" readback)
    && same_value (get "activitySequence" readback) activity_sequence
    && equals_text "none" (get "eventKind" readback)
    && same_value (get "keys" readback) (list nil)
    && equals_text "none" (get "mouseButton" readback)
    && equals_text "none" (get "wheelDirection" readback)
    && same_value (get "characterCount" readback) (int (pos 0))
    && equals_text "" (get "cueLabel" readback)
    && same_value (get "durationMs" readback) (int (pos 0))
    && same_value (get "remainingMs" readback) (int (pos 0))

abbrev pub overlay_payload : String → String → List (String × Value) → Fields
overlay_payload scene source more =
    entries (("sceneName", str scene) ∷ ("sourceName", str source) ∷ more)
