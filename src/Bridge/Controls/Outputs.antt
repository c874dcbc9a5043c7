-- ===== src/Bridge/Controls/Outputs.antt =====
-- Streaming, replay buffer, virtual camera, outputs and recording in src/dcc_mcp_obs/bridge.py.
use dcc_mcp_obs.Base.{String, Bool, true, false, ◌&&◌, [], ◌∷◌}
use dcc_mcp_obs.Value.{Value, bool, str, Fields, end}
use dcc_mcp_obs.Value.Dict.{get, entries, put}
use dcc_mcp_obs.Value.Check.{is_bool, equals_text}
use dcc_mcp_obs.Bridge.Host.{Host}
use dcc_mcp_obs.Result.{ok}
use dcc_mcp_obs.Exec.{Exec, pure, lift, ◌>>=◌}
use dcc_mcp_obs.Bridge.Session.{Session, checked, operation_deadline, acknowledged}
use dcc_mcp_obs.Bridge.Reconcile.{verified, mutate_then_settle}
use dcc_mcp_obs.Bridge.Controls.Arguments.{require_name, now_checked}

module _ (host : Host) where
  -- `_domain_mutation`
  unfoldable pub domain_mutation : String → String → String → Bool → Exec Session Fields
  domain_mutation rt status_request key expected =
      mutate_then_settle host rt end status_request end
        (λ readback. ok (is_bool expected (get key readback))) verified

  unfoldable pub start_streaming : Exec Session Fields
  unfolding domain_mutation
  start_streaming = domain_mutation "StartStreaming" "GetStreamingStatus" "streamingActive" true

  unfoldable pub stop_streaming : Exec Session Fields
  unfolding domain_mutation
  stop_streaming = domain_mutation "StopStreaming" "GetStreamingStatus" "streamingActive" false

  unfoldable pub start_replay_buffer : Exec Session Fields
  unfolding domain_mutation
  start_replay_buffer =
      domain_mutation "StartReplayBuffer" "GetReplayBufferStatus" "replayBufferActive" true

  unfoldable pub stop_replay_buffer : Exec Session Fields
  unfolding domain_mutation
  stop_replay_buffer =
      domain_mutation "StopReplayBuffer" "GetReplayBufferStatus" "replayBufferActive" false

  unfoldable pub start_virtual_camera : Exec Session Fields
  unfolding domain_mutation
  start_virtual_camera =
      domain_mutation "StartVirtualCamera" "GetVirtualCameraStatus" "virtualCameraActive" true

  unfoldable pub stop_virtual_camera : Exec Session Fields
  unfolding domain_mutation
  stop_virtual_camera =
      domain_mutation "StopVirtualCamera" "GetVirtualCameraStatus" "virtualCameraActive" false

  -- A save is asynchronous: it is reported as submitted, and never as verified.
  unfoldable pub save_replay_buffer : Exec Session Fields
  save_replay_buffer = do
    deadline ← operation_deadline host
    accepted ← acknowledged host "SaveReplayBuffer" end deadline
    readback ← checked host "GetReplayBufferStatus" end deadline
    pure (put "submitted" (bool true) (put "accepted" (bool true) readback))

  -- the name, the kind and the activity that `_output_mutation` waits for
  unfoldable pub output_shown : String → Bool → Fields → Bool
  output_shown output_name expected readback =
      equals_text output_name (get "outputName" readback)
      && equals_text output_name (get "outputKind" readback)
      && is_bool expected (get "outputActive" readback)

  -- `_output_mutation`
  unfoldable pub output_mutation : String → Value → Bool → Exec Session Fields
  unfolding output_shown
  output_mutation rt output_name expected = do
    name ← lift (require_name output_name)
    mutate_then_settle host rt (entries (("outputName", str name) ∷ [])) "GetOutputStatus"
        (entries (("outputName", str name) ∷ []))
        (λ readback. ok (output_shown name expected readback)) verified

  unfoldable pub start_output : Value → Exec Session Fields
  unfolding output_mutation
  start_output output_name = output_mutation "StartOutput" output_name true

  unfoldable pub stop_output : Value → Exec Session Fields
  unfolding output_mutation
  stop_output output_name = output_mutation "StopOutput" output_name false

  unfoldable pub output_status : Value → Exec Session Fields
  output_status output_name = do
    name ← lift (require_name output_name)
    now_checked host "GetOutputStatus" (entries (("outputName", str name) ∷ []))

  unfoldable pub recording_status : Exec Session Fields
  recording_status = now_checked host "GetRecordingStatus" end

  unfoldable pub streaming_status : Exec Session Fields
  streaming_status = now_checked host "GetStreamingStatus" end

  unfoldable pub replay_buffer_status : Exec Session Fields
  replay_buffer_status = now_checked host "GetReplayBufferStatus" end

  unfoldable pub virtual_camera_status : Exec Session Fields
  virtual_camera_status = now_checked host "GetVirtualCameraStatus" end

  unfoldable pub list_outputs : Exec Session Fields
  list_outputs = now_checked host "ListOutputs" end
