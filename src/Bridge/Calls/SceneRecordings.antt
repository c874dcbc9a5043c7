-- ===== src/Bridge/Calls/SceneRecordings.antt =====
-- The methods of multi-scene recordings in src/dcc_mcp_obs/bridge.py are sound.
use dcc_mcp_obs.Value.{Value}
use dcc_mcp_obs.Bridge.Host.{Host}
use dcc_mcp_obs.Result.{ok}
use dcc_mcp_obs.Bridge.Reconcile.{verified}
use dcc_mcp_obs.Bridge.Sound.{IsSound, IsSound-bind}
use dcc_mcp_obs.Bridge.Sound.Exchange.{checked-IsSound}
use dcc_mcp_obs.Bridge.Calls.Arguments.{call_rules}
use dcc_mcp_obs.Base.{ℕ, zero, suc, String, List, [], ◌∷◌}
use dcc_mcp_obs.Value.{str, list, dict, elements, Fields}
use dcc_mcp_obs.Result.Fails.{Fails, Fails-ok, Fails-if, Fails-bind}
use dcc_mcp_obs.Exec.{Exec}
use dcc_mcp_obs.Bridge.Host.{Library}
use dcc_mcp_obs.Bridge.Session.{Session}
use dcc_mcp_obs.Bridge.Published.{IsPublished}
use dcc_mcp_obs.Bridge.Sound.Loops.{clock-IsSound, judge-IsSound}
use dcc_mcp_obs.Bridge.Calls.Arguments.{argument-Fails}
use dcc_mcp_obs.Bridge.Controls.RecordingPlan.{
  require_optional_identifier, require_session_id, require_prefix, require_file_name,
  require_output_directory, normalize_recording, normalize_recordings,
  normalize_scene_recording_plan,
}
use dcc_mcp_obs.Bridge.Controls.SceneRecordings.{
  session_payload, shows_stopped, await_stopped, stop_round, scene_recording_status,
  start_scene_recordings, stop_scene_recordings,
}

require_optional_identifier-Fails : (v : Value) → Fails IsPublished (require_optional_identifier v)
unfolding require_optional_identifier
require_optional_identifier-Fails (str s) = Fails-if _ _ _ (Fails-ok s) argument-Fails
require_optional_identifier-Fails _ = argument-Fails

module _ (lib : Library) where
  require_session_id-Fails : (v : Value) → Fails IsPublished (require_session_id lib v)
  unfolding require_session_id
  require_session_id-Fails (str s) = Fails-if _ _ _ (Fails-ok s) argument-Fails
  require_session_id-Fails _ = argument-Fails

  require_prefix-Fails :
      (scenes prefixes : List String) (scene : String) (v : Value)
      → Fails IsPublished (require_prefix lib scenes prefixes scene v)
  unfolding require_prefix
  require_prefix-Fails scenes prefixes scene (str s) = Fails-if _ _ _ (Fails-ok s) argument-Fails
  require_prefix-Fails scenes prefixes scene _ = argument-Fails

  require_file_name-Fails : (v : Value) → Fails IsPublished (require_file_name lib v)
  unfolding require_file_name
  require_file_name-Fails (str s) = Fails-if _ _ _ (Fails-ok s) argument-Fails
  require_file_name-Fails _ = argument-Fails

  require_output_directory-Fails : (v : Value) → Fails IsPublished (require_output_directory lib v)
  unfolding require_output_directory
  require_output_directory-Fails (str s) = Fails-if _ _ _ (Fails-ok s) argument-Fails
  require_output_directory-Fails _ = argument-Fails

  normalize_recording-Fails :
      (scenes prefixes : List String) (item : Fields)
      → Fails IsPublished (normalize_recording lib scenes prefixes item)
  unfolding normalize_recording
  normalize_recording-Fails scenes prefixes item =
      search
        (
          call_rules, require_optional_identifier-Fails, require_prefix-Fails,
          require_file_name-Fails, require_output_directory-Fails,
        )
        depth 24

  normalize_recordings-Fails :
      (scenes prefixes : List String) (items : List Value)
      → Fails IsPublished (normalize_recordings lib scenes prefixes items)
  unfolding normalize_recordings
  normalize_recordings-Fails scenes prefixes [] = Fails-ok []
  normalize_recordings-Fails scenes prefixes (dict item ∷ items) =
      Fails-bind _ _ (normalize_recording-Fails scenes prefixes item) (λ seen.
        Fails-bind _ _ (normalize_recordings-Fails (seen.0 ∷ scenes) (seen.1 ∷ prefixes) items)
          (λ rest. Fails-ok _))
  normalize_recordings-Fails scenes prefixes (_ ∷ items) = argument-Fails

  normalize_scene_recording_plan-Fails :
      (v : Value) → Fails IsPublished (normalize_scene_recording_plan lib v)
  unfolding normalize_scene_recording_plan
  normalize_scene_recording_plan-Fails (list items) =
      Fails-if _ _ _ (normalize_recordings-Fails [] [] (elements items)) argument-Fails
  normalize_scene_recording_plan-Fails _ = argument-Fails

module _ (host : Host) (id : String) (deadline : ℕ) (give_up : Exec Session Fields) where
  await_stopped-IsSound :
      (n : ℕ) → IsSound give_up → IsSound (await_stopped host id deadline give_up n)
  unfolding await_stopped
  await_stopped-IsSound zero quits = quits
  await_stopped-IsSound (suc n) quits =
      IsSound-bind _ _
        (checked-IsSound host "GetSceneRecordingSession" (session_payload id) deadline)
        λ readback.
          judge-IsSound host "GetSceneRecordingSession" (session_payload id)
            (λ shown. ok (shows_stopped id shown)) verified (λ shown. Fails-ok _) deadline n _
            readback (await_stopped-IsSound n quits)

  stop_round-IsSound : IsSound give_up → IsSound (stop_round host id deadline give_up)
  unfolding stop_round
  stop_round-IsSound quits = search (call_rules, await_stopped-IsSound) depth 16

ruleset recordings_rules = (
  call_rules, require_session_id-Fails, normalize_scene_recording_plan-Fails, stop_round-IsSound,
  clock-IsSound,
)

module _ (host : Host) where
  pub scene_recording_status-IsSound :
      (session_id : Value) → IsSound (scene_recording_status host session_id)
  unfolding scene_recording_status
  scene_recording_status-IsSound session_id = search recordings_rules depth 20

  pub start_scene_recordings-IsSound :
      (recordings : Value) → IsSound (start_scene_recordings host recordings)
  unfolding start_scene_recordings
  start_scene_recordings-IsSound recordings = search recordings_rules depth 20

  pub stop_scene_recordings-IsSound :
      (session_id : Value) → IsSound (stop_scene_recordings host session_id)
  unfolding stop_scene_recordings
  stop_scene_recordings-IsSound session_id = search recordings_rules depth 20
