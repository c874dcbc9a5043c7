-- ===== src/Bridge/Controls/RecordingPlan.antt =====
-- The plan of a multi-scene recording in src/dcc_mcp_obs/bridge.py: `_normalize_scene_recording_plan`
-- and the checks of identifiers.
pub mod Distinct
use dcc_mcp_obs.Base.{
  ℕ, String, count, Bool, not, ◌&&◌, ◌||◌, List, [], ◌∷◌, ◌++◌, ◌==◌, between, leb, nat_eq, length,
  mem_text, if◌then◌else◌,
}
use dcc_mcp_obs.Value.{pos, Value, int, str, list, dict, Fields, elements}
use dcc_mcp_obs.Value.Dict.{get, has, has_all, keys_within, entries}
use dcc_mcp_obs.Value.Text.{all_codes, ends_with}
use dcc_mcp_obs.Value.Check.{text_between, int_between, need}
use dcc_mcp_obs.Value.Equal.{same_value}
use dcc_mcp_obs.Result.{Result, ok, err, bridge_error, ◌>>=◌, ◌>>◌}
use dcc_mcp_obs.Bridge.Host.{Library}
use dcc_mcp_obs.Bridge.Controls.Arguments.{require_name}

-- item.get(key, default)
unfoldable pub get_or : String → Value → Fields → Value
unfolding has get
get_or key otherwise item = if has key item then get key item else otherwise

-- not one of <>:"/\|?* and no control character
unfoldable pub filename_code : ℕ → Bool
filename_code c =
    leb 32 c
    && not (
        nat_eq c 60
        || nat_eq c 62
        || nat_eq c 58
        || nat_eq c 34
        || nat_eq c 47
        || nat_eq c 92
        || nat_eq c 124
        || nat_eq c 63
        || nat_eq c 42)

-- character.isascii() and (character.isalnum() or character in "-_.:"); the ASCII characters that are
-- alphanumeric are the digits and the letters
unfoldable pub identifier_code : ℕ → Bool
identifier_code c =
    between 48 57 c
    || between 65 90 c
    || between 97 122 c
    || nat_eq c 45
    || nat_eq c 95
    || nat_eq c 46
    || nat_eq c 58

-- `_require_optional_identifier`
unfoldable pub require_optional_identifier : Value → Result String
unfolding all_codes identifier_code
require_optional_identifier (str s) =
    if s == "" || (between 1 128 (count s) && all_codes identifier_code s)
    then ok s
    else err (bridge_error "OBS_ARGUMENT_INVALID")
require_optional_identifier _ = err (bridge_error "OBS_ARGUMENT_INVALID")

module _ (lib : Library) where
  -- `_require_session_id`
  unfoldable pub require_session_id : Value → Result String
  unfolding all_codes
  require_session_id (str s) =
      if between 1 128 (count s) && all_codes (λ c. lib.isalnum c || nat_eq c 45 || nat_eq c 95) s
      then ok s
      else err (bridge_error "OBS_ARGUMENT_INVALID")
  require_session_id _ = err (bridge_error "OBS_ARGUMENT_INVALID")

  unfoldable pub clean_name : String → Bool
  unfolding all_codes ends_with filename_code
  clean_name s = s == lib.strip s && not (ends_with "." s) && all_codes filename_code s

  -- a prefix that no earlier recording has, in a scene that no earlier recording has
  unfoldable pub require_prefix : List String → List String → String → Value → Result String
  unfolding clean_name
  require_prefix scenes prefixes scene (str s) =
      if between 1 96 (count s)
        && clean_name s
        && not (mem_text scenes scene)
        && not (mem_text prefixes (lib.casefold s))
      then ok s
      else err (bridge_error "OBS_ARGUMENT_INVALID")
  require_prefix scenes prefixes scene _ = err (bridge_error "OBS_ARGUMENT_INVALID")

  -- "" or the name of an mp4 file
  unfoldable pub require_file_name : Value → Result String
  unfolding clean_name ends_with
  require_file_name (str s) =
      if s == "" || (leb (count s) 160 && ends_with ".mp4" (lib.casefold s) && clean_name s)
      then ok s
      else err (bridge_error "OBS_ARGUMENT_INVALID")
  require_file_name _ = err (bridge_error "OBS_ARGUMENT_INVALID")

  -- "" or an absolute path of either system
  unfoldable pub require_output_directory : Value → Result String
  unfolding all_codes
  require_output_directory (str s) =
      if leb (count s) 4096
        && all_codes (λ c. leb 32 c) s
        && (s == "" || lib.windows_absolute s || lib.posix_absolute s)
      then ok s
      else err (bridge_error "OBS_ARGUMENT_INVALID")
  require_output_directory _ = err (bridge_error "OBS_ARGUMENT_INVALID")

  -- value in ("", 0)
  unfoldable pub unset : Value → Bool
  unset v = same_value v (str "") || same_value v (int (pos 0))

  -- no binding at all, or a whole one
  unfoldable pub valid_binding : Value → Value → Value → Bool
  unfolding unset
  valid_binding source_name process_id window_handle =
      (unset source_name && unset process_id && unset window_handle)
      || (text_between 1 256 source_name
          && int_between 1 0xFFFFFFFF process_id
          && int_between 1 0x7FFFFFFFFFFFFFFF window_handle)

  file_entry : String → List (String × Value)
  file_entry file_name = if file_name == "" then [] else ("fileName", str file_name) ∷ []

  unfoldable pub normalize_recording :
      List String → List String → Fields → Result (String × String × Fields)
  unfolding get_or require_optional_identifier require_prefix require_file_name
      require_output_directory valid_binding file_entry
  normalize_recording scenes prefixes item = do
    need "OBS_ARGUMENT_INVALID" (
        has_all ("scene_name" ∷ "file_name_prefix" ∷ []) item
        && keys_within
            ("scene_name" ∷ "file_name_prefix" ∷ "file_name" ∷ "output_directory" ∷ "application_id"
              ∷ "run_id" ∷ "source_name" ∷ "process_id" ∷ "window_handle" ∷ [])
            item)
    scene ← require_name (get "scene_name" item)
    prefix ← require_prefix scenes prefixes scene (get "file_name_prefix" item)
    file_name ← require_file_name (get_or "file_name" (str "") item)
    directory ← require_output_directory (get_or "output_directory" (str "") item)
    application_id ← require_optional_identifier (get_or "application_id" (str "") item)
    run_id ← require_optional_identifier (get_or "run_id" (str "") item)
    need "OBS_ARGUMENT_INVALID" (
        valid_binding (get_or "source_name" (str "") item) (get_or "process_id" (int (pos 0)) item)
          (get_or "window_handle" (int (pos 0)) item))
    ok (
      scene,
      lib.casefold prefix,
      entries (
          (("sceneName", str scene)
            ∷ ("fileNamePrefix", str prefix)
            ∷ ("outputDirectory", str directory)
            ∷ ("applicationId", str application_id)
            ∷ ("runId", str run_id)
            ∷ ("sourceName", get_or "source_name" (str "") item)
            ∷ ("processId", get_or "process_id" (int (pos 0)) item)
            ∷ ("windowHandle", get_or "window_handle" (int (pos 0)) item)
            ∷ [])
          ++ file_entry file_name),
    )

  -- The loop over the recordings, with the scenes and the folded prefixes seen.
  unfoldable pub normalize_recordings :
      List String → List String → List Value → Result (List Fields)
  unfolding normalize_recording
  normalize_recordings scenes prefixes [] = ok []
  normalize_recordings scenes prefixes (dict item ∷ items) = do
    (scene, prefix, normalized) ← normalize_recording scenes prefixes item
    rest ← normalize_recordings (scene ∷ scenes) (prefix ∷ prefixes) items
    ok (normalized ∷ rest)
  normalize_recordings scenes prefixes (_ ∷ items) = err (bridge_error "OBS_ARGUMENT_INVALID")

  -- `_normalize_scene_recording_plan`
  unfoldable pub normalize_scene_recording_plan : Value → Result (List Fields)
  unfolding normalize_recordings
  normalize_scene_recording_plan (list items) =
      if between 1 8 (length (elements items))
      then normalize_recordings [] [] (elements items)
      else err (bridge_error "OBS_ARGUMENT_INVALID")
  normalize_scene_recording_plan _ = err (bridge_error "OBS_ARGUMENT_INVALID")
