-- ===== src/Bridge/Calls/Sends/Stops.antt =====
-- How often `stop_scene_recordings` of src/dcc_mcp_obs/bridge.py asks OBS to stop.
use dcc_mcp_obs.Base.{ℕ, zero, suc, ◌+◌, ◌≤◌, String, refl, ltb}
use dcc_mcp_obs.Value.{Value, Fields}
use dcc_mcp_obs.Result.{ok, bridge_error}
use dcc_mcp_obs.Exec.{Exec, gets, lift, guard}
use dcc_mcp_obs.Bridge.Host.{Host, clock}
use dcc_mcp_obs.Bridge.Session.{Session, checked, on_history, operation_deadline}
use dcc_mcp_obs.Bridge.Session.Effects.{requests}
use dcc_mcp_obs.Bridge.Reconcile.{verified}
use dcc_mcp_obs.Bridge.Controls.RecordingPlan.{require_session_id}
use dcc_mcp_obs.Bridge.Controls.SceneRecordings.{
  session_payload, shows_stopped, await_stopped, stop_round, stop_scene_recordings,
}
use dcc_mcp_obs.Bridge.Calls.Sends.{
  count_of, SendsAtMost, SendsAtMost-raise, SendsAtMost-lift, SendsAtMost-gets, SendsAtMost-guard,
  SendsAtMost-bind, SendsAtMost-after, SendsAtMost-other, SendsAtMost-checked, SendsAtMost-clock,
  SendsAtMost-operation_deadline, SendsAtMost-judge,
}

abbrev stop : String
stop = "StopSceneRecordings"

module _ (host : Host) (id : String) (deadline k : ℕ) (give_up : Exec Session Fields)
    (quits : SendsAtMost stop k give_up) where
  await_stopped-SendsAtMost :
      (n : ℕ) → SendsAtMost stop k (await_stopped host id deadline give_up n)
  unfolding await_stopped
  await_stopped-SendsAtMost zero = quits
  await_stopped-SendsAtMost (suc n) =
      SendsAtMost-after stop k
        (checked host "GetSceneRecordingSession" (session_payload id) deadline) _
        (SendsAtMost-other host stop "GetSceneRecordingSession" (session_payload id) deadline refl)
        λ readback.
          SendsAtMost-judge host stop k deadline "GetSceneRecordingSession" (session_payload id)
            (λ shown. ok (shows_stopped id shown)) verified n _ readback
            (await_stopped-SendsAtMost n)

  stop_round-SendsAtMost : SendsAtMost stop (1 + k) (stop_round host id deadline give_up)
  unfolding stop_round
  stop_round-SendsAtMost =
      SendsAtMost-bind stop 1 k (checked host stop (session_payload id) deadline) _
        (SendsAtMost-checked host stop stop (session_payload id) deadline)
        λ accepted. SendsAtMost-after stop k (guard _ _) _ (SendsAtMost-guard stop 0 _ _) λ _.
          SendsAtMost-after stop k (gets (λ s. s.postcondition_attempts)) _
            (SendsAtMost-gets stop 0 _) await_stopped-SendsAtMost

module _ (host : Host) (session_id : Value) where
  stop_scene_recordings-SendsAtMost : SendsAtMost stop 2 (stop_scene_recordings host session_id)
  unfolding stop_scene_recordings
  stop_scene_recordings-SendsAtMost =
      SendsAtMost-after stop 2 (lift (require_session_id host.library session_id)) _
        (SendsAtMost-lift stop 0 _)
        λ id.
          SendsAtMost-after stop 2 (operation_deadline host) _
            (SendsAtMost-operation_deadline host stop)
            λ deadline. stop_round-SendsAtMost host id deadline 1 _ (
              SendsAtMost-after stop 1 (on_history (clock host)) _ (SendsAtMost-clock host stop)
                λ now.
                  SendsAtMost-after stop 1 (guard (ltb now deadline) _) _
                    (SendsAtMost-guard stop 0 _ _)
                    λ _.
                      stop_round-SendsAtMost host id deadline 0 _
                        (SendsAtMost-raise stop 0 (bridge_error "OBS_POSTCONDITION_FAILED")))

  -- However OBS answers, one call of `stop_scene_recordings` sends StopSceneRecordings at most twice.
  pub stop_scene_recordings-twice :
      (s : Session)
      → count_of "StopSceneRecordings"
          (requests (stop_scene_recordings host session_id s).1.history)
        ≤ 2 + count_of "StopSceneRecordings" (requests s.history)
  stop_scene_recordings-twice s = stop_scene_recordings-SendsAtMost.bound s
