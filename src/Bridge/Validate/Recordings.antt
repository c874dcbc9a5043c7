-- ===== src/Bridge/Validate/Recordings.antt =====
-- `_validate_read_only_response` of src/dcc_mcp_obs/bridge.py: scene recording sessions, the
-- recording status, outputs and screenshots.
use dcc_mcp_obs.Base.{
  ◌-◌, ◌^◌, String, count, ◌==◌, Bool, false, not, ◌&&◌, ◌||◌, List, [], ◌∷◌, length, between, leb,
}
use dcc_mcp_obs.Value.{Value, str, dict, Fields}
use dcc_mcp_obs.Value.Dict.{get, keys_equal}
use dcc_mcp_obs.Value.Text.{ends_with, base_name}
use dcc_mcp_obs.Value.Check.{
  is_true, is_false, bool_type, text_type, text_between, equals_text, int_from, int_between,
  list_type, items_of, in_texts,
}
use dcc_mcp_obs.Result.{bridge_error, Result, ok, err, ◌>>◌}
use dcc_mcp_obs.Bridge.Host.{Library}
use dcc_mcp_obs.Bridge.Validate.Items.{
  check, check_member, allows, exactly, dict_with, dicts_between, absent_or, name,
}

recording_fields : List String
recording_fields =
    ("sceneName" ∷ "applicationId" ∷ "runId" ∷ "sourceName" ∷ "processId" ∷ "windowHandle"
      ∷ "bindingVerified" ∷ "fileName" ∷ "outputDirectory" ∷ "outputPath" ∷ "outputActive"
      ∷ "videoOnly" ∷ "videoWidth" ∷ "videoHeight" ∷ "totalBytes" ∷ "totalFrames" ∷ "lastError"
      ∷ [])

-- isinstance(file_name, str) and file_name.lower().endswith(".mp4") and len(file_name) <= 160
mp4_name : Library → Value → Bool
unfolding ends_with
mp4_name lib (str file_name) = ends_with ".mp4" (lib.lower file_name) && leb (count file_name) 160
mp4_name lib _ = false

-- the last component of the path is the file's name
names_file : Value → Value → Bool
unfolding base_name
names_file (str path) (str file_name) = base_name path == file_name
names_file _ _ = false

recording_entry : Library → Fields → Bool
unfolding recording_fields mp4_name names_file
recording_entry lib item =
    keys_equal recording_fields item
    && name (get "sceneName" item)
    && text_between 0 128 (get "applicationId" item)
    && text_between 0 128 (get "runId" item)
    && text_between 0 256 (get "sourceName" item)
    && int_between 0 0xFFFFFFFF (get "processId" item)
    && int_between 0 0x7FFFFFFFFFFFFFFF (get "windowHandle" item)
    && bool_type (get "bindingVerified" item)
    && mp4_name lib (get "fileName" item)
    && text_between 1 4096 (get "outputPath" item)
    && text_between 1 4096 (get "outputDirectory" item)
    && names_file (get "outputPath" item) (get "fileName" item)
    && bool_type (get "outputActive" item)
    && is_true (get "videoOnly" item)
    && int_between 1 16384 (get "videoWidth" item)
    && int_between 1 16384 (get "videoHeight" item)
    && int_from 0 (get "totalBytes" item)
    && int_from 0 (get "totalFrames" item)
    && text_between 0 128 (get "lastError" item)

-- scene_name in seen_scenes
seen_before : List Value → Value → Bool
seen_before [] v = false
seen_before (str s ∷ seen) v = equals_text s v || seen_before seen v
seen_before (_ ∷ seen) v = seen_before seen v

unfoldable pub check_recordings : Library → List Value → List Value → Result (Unit {0})
unfolding check recording_entry seen_before dict_with
check_recordings lib seen [] = ok tt
check_recordings lib seen (dict item ∷ items) =
    let rest = check_recordings lib (get "sceneName" item ∷ seen) items in
    do check (recording_entry lib item && not (seen_before seen (get "sceneName" item))); rest
check_recordings lib seen (_ ∷ items) = err (bridge_error "OBS_RESPONSE_INVALID")

unfoldable pub check_scene_recording_session : Library → Fields → Result (Unit {0})
unfolding check check_recordings
check_scene_recording_session lib response = do
  check (
      exactly ("sessionId" ∷ "sessionActive" ∷ "startedAt" ∷ "stoppedAt" ∷ "recordings" ∷ [])
        response)
  check (text_between 1 128 (get "sessionId" response))
  check (bool_type (get "sessionActive" response))
  check (text_between 1 64 (get "startedAt" response))
  check (text_between 0 64 (get "stoppedAt" response))
  check (list_type (get "recordings" response))
  check (between 1 8 (length (items_of (get "recordings" response))))
  check_recordings lib [] (items_of (get "recordings" response))

abbrev pub recording_output_states : List String
recording_output_states =
    ("idle" ∷ "recording" ∷ "finalizing" ∷ "complete" ∷ "stalled" ∷ "empty" ∷ "failed" ∷ "missing"
      ∷ [])

-- the state agrees with the activity: active just in the states "recording" and "finalizing"
unfoldable pub activity_agrees : Fields → Bool
unfolding is_true is_false in_texts
activity_agrees response =
    not (
      is_true (get "outputActive" response)
      && not (in_texts ("recording" ∷ "finalizing" ∷ []) (get "outputState" response)))
    && not (
        is_false (get "outputActive" response)
        && in_texts ("recording" ∷ "finalizing" ∷ []) (get "outputState" response))

unfoldable pub check_recording_status : Fields → Result (Unit {0})
unfolding check check_member activity_agrees
check_recording_status response = do
  check (
      allows
        ("outputActive" ∷ "outputPaused" ∷ "outputState" ∷ "outputName" ∷ "outputKind"
          ∷ "outputPath" ∷ "lastError" ∷ "outputTimecode" ∷ "totalBytes" ∷ "totalFrames"
          ∷ "outputBytes" ∷ "outputDuration" ∷ [])
        response)
  check (bool_type (get "outputActive" response))
  check (bool_type (get "outputPaused" response))
  check_member recording_output_states (get "outputState" response)
  check (activity_agrees response)
  check (absent_or (text_between 0 256) "outputName" response)
  check (absent_or (text_between 0 256) "outputKind" response)
  check (absent_or (text_between 0 4096) "outputPath" response)
  check (absent_or (text_between 0 4096) "lastError" response)
  check (absent_or (text_between 0 32) "outputTimecode" response)
  check (absent_or (int_between 0 (2 ^ 63 - 1)) "totalBytes" response)
  check (absent_or (int_between 0 (2 ^ 63 - 1)) "totalFrames" response)
  check (absent_or (int_between 0 (2 ^ 63 - 1)) "outputBytes" response)
  check (absent_or (int_between 0 (2 ^ 63 - 1)) "outputDuration" response)

-- streaming, replay buffer, virtual camera: one flag
unfoldable pub check_flag : String → Fields → Result (Unit {0})
unfolding check
check_flag key response = check (allows (key ∷ []) response && bool_type (get key response))

output_entry : Fields → Bool
output_entry item =
    keys_equal ("outputName" ∷ "outputKind" ∷ "outputActive" ∷ []) item
    && name (get "outputName" item)
    && name (get "outputKind" item)
    && bool_type (get "outputActive" item)

unfoldable pub check_outputs : Fields → Result (Unit {0})
unfolding check output_entry
check_outputs response = do
  check (allows ("outputs" ∷ "truncated" ∷ []) response)
  check (dicts_between 0 64 output_entry (get "outputs" response))
  check (bool_type (get "truncated" response))

unfoldable pub check_output_status : Fields → Result (Unit {0})
unfolding check
check_output_status response = do
  check (allows ("outputName" ∷ "outputKind" ∷ "outputActive" ∷ []) response)
  check (name (get "outputName" response))
  check (name (get "outputKind" response))
  check (bool_type (get "outputActive" response))

unfoldable pub check_screenshot : Fields → Result (Unit {0})
unfolding check check_member
check_screenshot response = do
  check (
      allows
        ("accepted" ∷ "screenshotId" ∷ "imageFormat" ∷ "width" ∷ "height" ∷ "path" ∷ "pathRedacted"
          ∷ [])
        response)
  check (is_true (get "accepted" response))
  check (name (get "screenshotId" response))
  check_member ("png" ∷ "jpg" ∷ "jpeg" ∷ "webp" ∷ []) (get "imageFormat" response)
  check (is_true (get "pathRedacted" response))
  check (absent_or text_type "path" response)
  check (absent_or (int_from 1) "width" response)
  check (absent_or (int_from 1) "height" response)
