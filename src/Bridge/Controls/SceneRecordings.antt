-- ===== src/Bridge/Controls/SceneRecordings.antt =====
-- Multi-scene recordings in src/dcc_mcp_obs/bridge.py.
use dcc_mcp_obs.Base.{
  ℕ, zero, suc, String, Bool, true, false, not, ◌&&◌, ◌||◌, List, [], ◌∷◌, all, ltb, if◌then◌else◌,
}
use dcc_mcp_obs.Value.{Value, str, list, dict, Fields, Items, cons, nil}
use dcc_mcp_obs.Value.Dict.{get, entries}
use dcc_mcp_obs.Value.Check.{is_true, is_false, text_type, equals_text, items_of}
use dcc_mcp_obs.Value.Equal.{same_value}
use dcc_mcp_obs.Result.{ok, bridge_error}
use dcc_mcp_obs.Exec.{Exec, raise, lift, gets, guard, ◌>>=◌ as bind, ◌>>◌ as after}
use dcc_mcp_obs.Bridge.Host.{Host, Library, clock}
use dcc_mcp_obs.Bridge.Session.{Session, checked, operation_deadline, on_history}
use dcc_mcp_obs.Bridge.Reconcile.{verified, judge, settle_by}
use dcc_mcp_obs.Bridge.Controls.Arguments.{now_checked}
use dcc_mcp_obs.Bridge.Controls.Presentation.{truthy}
use dcc_mcp_obs.Bridge.Controls.RecordingPlan.{require_session_id, normalize_scene_recording_plan}

unfoldable pub dict_items : List Fields → Items
dict_items [] = nil
dict_items (d ∷ ds) = cons (dict d) (dict_items ds)

abbrev pub session_payload : String → Fields
session_payload session_id = entries (("sessionId", str session_id) ∷ [])

-- an entry of the readback, which the response checks have found to be dicts
unfoldable pub output_is : Bool → Value → Bool
output_is true (dict item) = is_true (get "outputActive" item)
output_is false (dict item) = is_false (get "outputActive" item)
output_is expected _ = false

module _ (lib : Library) where
  -- `_same_recording_path`
  unfoldable pub same_recording_path : Value → Value → Bool
  same_recording_path (str actual) (str expected) =
      if lib.windows_absolute expected
      then lib.same_windows_path actual expected
      else lib.same_posix_path actual expected
  same_recording_path _ _ = false

  -- one recording of the readback and the plan's entry for it
  unfoldable pub shows_recording : Fields → Fields → Bool
  unfolding same_recording_path
  shows_recording actual expected =
      same_value (get "applicationId" actual) (get "applicationId" expected)
      && same_value (get "runId" actual) (get "runId" expected)
      && (not (truthy (get "outputDirectory" expected))
          || same_recording_path (get "outputDirectory" actual) (get "outputDirectory" expected))
      && (not (truthy (get "sourceName" expected))
          || (same_value (get "sourceName" actual) (get "sourceName" expected)
              && same_value (get "processId" actual) (get "processId" expected)
              && same_value (get "windowHandle" actual) (get "windowHandle" expected)
              && is_true (get "bindingVerified" actual)))

  -- the same scenes in the same order, each recording as planned
  unfoldable pub shows_plan : List Fields → List Value → Bool
  unfolding shows_recording
  shows_plan [] [] = true
  shows_plan (expected ∷ plan) (dict actual ∷ items) =
      same_value (get "sceneName" actual) (get "sceneName" expected)
      && shows_recording actual expected
      && shows_plan plan items
  shows_plan _ _ = false

  unfoldable pub shows_started : String → List Fields → Fields → Bool
  unfolding output_is shows_plan
  shows_started session_id plan readback =
      equals_text session_id (get "sessionId" readback)
      && is_true (get "sessionActive" readback)
      && all (output_is true) (items_of (get "recordings" readback))
      && shows_plan plan (items_of (get "recordings" readback))

unfoldable pub shows_stopped : String → Fields → Bool
unfolding output_is
shows_stopped session_id readback =
    equals_text session_id (get "sessionId" readback)
    && is_false (get "sessionActive" readback)
    && all (output_is false) (items_of (get "recordings" readback))

module _ (host : Host) where
  unfoldable pub scene_recording_status : Value → Exec Session Fields
  scene_recording_status session_id =
      bind (lift (require_session_id host.library session_id))
        (λ id. now_checked host "GetSceneRecordingSession" (session_payload id))

  unfoldable pub start_scene_recordings : Value → Exec Session Fields
  unfolding dict_items shows_started
  start_scene_recordings recordings =
      bind (lift (normalize_scene_recording_plan host.library recordings)) (λ plan.
        bind (operation_deadline host) (λ deadline.
          bind
            (checked host "StartSceneRecordings"
              (entries (("recordings", list (dict_items plan)) ∷ [])) deadline)
            (λ accepted.
              after
                (guard (is_true (get "accepted" accepted) && text_type (get "sessionId" accepted))
                  "OBS_MUTATION_REJECTED")
                (bind (lift (require_session_id host.library (get "sessionId" accepted))) (λ id.
                  settle_by host "GetSceneRecordingSession" (session_payload id)
                    (λ readback. ok (shows_started host.library id plan readback)) verified
                    deadline)))))

  module _ (id : String) (deadline : ℕ) (give_up : Exec Session Fields) where
    -- the readbacks after one StopSceneRecordings; what follows where none shows the end
    unfoldable pub await_stopped : ℕ → Exec Session Fields
    unfolding shows_stopped
    await_stopped zero = give_up
    await_stopped (suc n) =
        bind (checked host "GetSceneRecordingSession" (session_payload id) deadline) (λ readback.
          judge host deadline "GetSceneRecordingSession" (session_payload id)
            (λ shown. ok (shows_stopped id shown)) verified n (await_stopped n) readback)

    -- one round of `stop_scene_recordings`
    unfoldable pub stop_round : Exec Session Fields
    unfolding await_stopped
    stop_round =
        bind (checked host "StopSceneRecordings" (session_payload id) deadline) (λ accepted.
          after
            (guard (is_true (get "accepted" accepted) && equals_text id (get "sessionId" accepted))
              "OBS_MUTATION_REJECTED")
            (bind (gets (λ s. s.postcondition_attempts)) await_stopped))

  -- StopSceneRecordings is sent a second time where the first was of no effect, before the deadline
  unfoldable pub stop_scene_recordings : Value → Exec Session Fields
  unfolding stop_round
  stop_scene_recordings session_id = bind (lift (require_session_id host.library session_id)) (λ id.
      bind (operation_deadline host) (λ deadline.
        let last = stop_round id deadline (raise (bridge_error "OBS_POSTCONDITION_FAILED")) in
        let again =
          bind (on_history (clock host))
            (λ now. after (guard (ltb now deadline) "OBS_TIMEOUT") last) in
        stop_round id deadline again))
