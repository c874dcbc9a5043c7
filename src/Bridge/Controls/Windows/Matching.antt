-- ===== src/Bridge/Controls/Windows/Matching.antt =====
-- The arguments of the window capture methods in src/dcc_mcp_obs/bridge.py, and what their readbacks
-- are held against.
use dcc_mcp_obs.Base.{
  ◌-◌, ◌^◌, String, count, Bool, true, false, not, ◌&&◌, ◌||◌, List, [], ◌∷◌, Option, none, some,
  between, ◌==◌, nat_eq, all, if◌then◌else◌,
}
use dcc_mcp_obs.Value.{Value, null, bool, str, dict, Fields}
use dcc_mcp_obs.Value.Dict.{get, entries, merge, pick}
use dcc_mcp_obs.Value.Check.{is_true, equals_text, int_between, need, list_type, items_of, in_texts}
use dcc_mcp_obs.Value.Equal.{same_value}
use dcc_mcp_obs.Result.{Result, ok, err, bridge_error, ◌>>=◌, ◌>>◌}
use dcc_mcp_obs.Bridge.Constants.{identity_keys}
use dcc_mcp_obs.Bridge.Validate.Scenes.{window_capture_methods}
use dcc_mcp_obs.Value.Text.{all_codes}
use dcc_mcp_obs.Bridge.Host.{Library}
use dcc_mcp_obs.Bridge.Reconcile.{verified}
use dcc_mcp_obs.Bridge.Controls.Arguments.{require_name, require_bool}

-- the arguments that the methods of a window capture source share
pub record CaptureArguments : Type 0 where
  pub scene_name : Value
  pub source_name : Value
  pub process_id : Value
  pub window_handle : Value
  pub window_title : Value
  pub capture_cursor : Value
  pub client_area : Value
  pub capture_audio : Value
  pub capture_method : Value
  pub enabled : Value

-- `_window_capture_payload`
unfoldable pub window_capture_payload : CaptureArguments → Result Fields
window_capture_payload a = do
  scene ← require_name a.scene_name
  source ← require_name a.source_name
  title ← require_name a.window_title
  need "OBS_ARGUMENT_INVALID" (int_between 1 (2 ^ 32 - 1) a.process_id)
  need "OBS_ARGUMENT_INVALID" (int_between 1 (2 ^ 63 - 1) a.window_handle)
  cursor ← require_bool a.capture_cursor
  area ← require_bool a.client_area
  audio ← require_bool a.capture_audio
  wanted ← require_bool a.enabled
  need "OBS_ARGUMENT_INVALID" (in_texts window_capture_methods a.capture_method)
  ok (
      entries (
        ("sceneName", str scene)
        ∷ ("sourceName", str source)
        ∷ ("processId", a.process_id)
        ∷ ("windowHandle", a.window_handle)
        ∷ ("windowTitle", str title)
        ∷ ("captureCursor", bool cursor)
        ∷ ("clientArea", bool area)
        ∷ ("captureAudio", bool audio)
        ∷ ("captureMethod", a.capture_method)
        ∷ ("enabled", bool wanted)
        ∷ ("capability", str "window_capture")
        ∷ []))

-- the keys that a readback shares with the request
abbrev pub bound_keys : List String
bound_keys =
    "sceneName" ∷ "sourceName" ∷ "processId" ∷ "windowHandle" ∷ "windowTitle" ∷ "captureCursor"
    ∷ "clientArea" ∷ "captureAudio" ∷ "captureMethod" ∷ "enabled" ∷ []

-- the condition of `_readback_window_capture`
unfoldable pub shows_binding : Fields → Fields → Bool
shows_binding expected readback =
    is_true (get "bindingVerified" readback)
    && equals_text "window_capture" (get "sourceKind" readback)
    && all (λ key. same_value (get key readback) (get key expected)) bound_keys

abbrev pub title_value : Option String → Value
title_value none = null
title_value (some title) = str title

unfoldable pub title_entry : Option String → List (String × Value)
title_entry none = []
title_entry (some title) = ("windowTitle", str title) ∷ []

unfoldable pub require_window : Value → Value → Result (Unit {0})
require_window process_id window_handle = do
  need "OBS_ARGUMENT_INVALID" (int_between 1 (2 ^ 32 - 1) process_id)
  need "OBS_ARGUMENT_INVALID" (int_between 1 (2 ^ 63 - 1) window_handle)

module _ (lib : Library) where
  -- entry.get("executable", "").casefold() == executable.casefold(), of an entry whose executable the
  -- response checks have found to be a text
  unfoldable pub same_executable : String → Fields → Bool
  same_executable executable entry = elim (get "executable" entry) [
    | str s ↦ lib.casefold s == lib.casefold executable
    | other ↦ false
  ]

  unfoldable pub right_title : Option String → Value → Bool
  right_title none entry = true
  right_title (some title) entry = equals_text title entry

  -- what `list_window_capture_candidates` expects of each candidate
  unfoldable pub candidate_listed : String → Option String → Value → Bool
  unfolding same_executable right_title
  candidate_listed executable title (dict candidate) =
      same_executable executable candidate && right_title title (get "windowTitle" candidate)
  candidate_listed executable title _ = false

  -- the conditions of `list_window_capture_candidates` on the answer
  unfoldable pub listing_matches : String → Option String → Fields → Bool
  unfolding same_executable candidate_listed
  listing_matches executable title result =
      same_executable executable result
      && same_value (get "windowTitle" result) (title_value title)
      && list_type (get "candidates" result)
      && all (candidate_listed executable title) (items_of (get "candidates" result))

  unfoldable pub is_candidate : String → Value → Value → Value → Value → Bool
  unfolding same_executable
  is_candidate executable process_id window_handle window_title (dict candidate) =
      same_value (get "processId" candidate) process_id
      && same_value (get "windowHandle" candidate) window_handle
      && same_value (get "windowTitle" candidate) window_title
      && same_executable executable candidate
  is_candidate executable process_id window_handle window_title _ = false

  -- `[candidate for candidate in readback["candidates"] if ...]`
  unfoldable pub matching : String → Value → Value → Value → List Value → List Value
  unfolding is_candidate
  matching executable process_id window_handle window_title [] = []
  matching executable process_id window_handle window_title (c ∷ cs) =
      let rest = matching executable process_id window_handle window_title cs in
      if is_candidate executable process_id window_handle window_title c then c ∷ rest else rest

-- the only match, if it is ready
unfoldable pub single_ready : List Value → Option Fields
single_ready (dict candidate ∷ []) =
    if is_true (get "captureReady" candidate) then some candidate else none
single_ready _ = none

abbrev pub is_some : Option Fields → Bool
is_some none = false
is_some (some candidate) = true

-- {**identity, **matches[0], "verified": True}
unfoldable pub restored_report : Fields → Option Fields → Fields
unfolding verified
restored_report readback none = readback
restored_report readback (some candidate) = verified (merge (pick identity_keys readback) candidate)

unfoldable pub separator_free : String → Bool
separator_free = all_codes (λ c. not (nat_eq c 47 || nat_eq c 92 || nat_eq c 58))

-- 1 to 256 characters, none of them a separator of paths
unfoldable pub require_executable : Value → Result String
unfolding separator_free
require_executable (str s) =
    if between 1 256 (count s) && separator_free s
    then ok s
    else err (bridge_error "OBS_ARGUMENT_INVALID")
require_executable _ = err (bridge_error "OBS_ARGUMENT_INVALID")
