-- ===== src/Bridge/Calls/Outputs.antt =====
-- The methods of streaming, the replay buffer, the virtual camera and the outputs in
-- src/dcc_mcp_obs/bridge.py are sound.
use dcc_mcp_obs.Value.{Value}
use dcc_mcp_obs.Bridge.Host.{Host}
use dcc_mcp_obs.Bridge.Sound.{IsSound}
use dcc_mcp_obs.Bridge.Calls.Arguments.{call_rules}
use dcc_mcp_obs.Bridge.Controls.Outputs.{domain_mutation, output_mutation}
use dcc_mcp_obs.Bridge.Controls.Outputs.{
  start_streaming, stop_streaming, start_replay_buffer, stop_replay_buffer, start_virtual_camera,
  stop_virtual_camera, save_replay_buffer, start_output, stop_output, output_status,
}
use dcc_mcp_obs.Bridge.Controls.Outputs.{
  recording_status, streaming_status, replay_buffer_status, virtual_camera_status, list_outputs,
}

module _ (host : Host) where
  pub start_streaming-IsSound : IsSound (start_streaming host)
  unfolding start_streaming domain_mutation
  start_streaming-IsSound = search call_rules depth 16

  pub stop_streaming-IsSound : IsSound (stop_streaming host)
  unfolding stop_streaming domain_mutation
  stop_streaming-IsSound = search call_rules depth 16

  pub start_replay_buffer-IsSound : IsSound (start_replay_buffer host)
  unfolding start_replay_buffer domain_mutation
  start_replay_buffer-IsSound = search call_rules depth 16

  pub stop_replay_buffer-IsSound : IsSound (stop_replay_buffer host)
  unfolding stop_replay_buffer domain_mutation
  stop_replay_buffer-IsSound = search call_rules depth 16

  pub start_virtual_camera-IsSound : IsSound (start_virtual_camera host)
  unfolding start_virtual_camera domain_mutation
  start_virtual_camera-IsSound = search call_rules depth 16

  pub stop_virtual_camera-IsSound : IsSound (stop_virtual_camera host)
  unfolding stop_virtual_camera domain_mutation
  stop_virtual_camera-IsSound = search call_rules depth 16

  pub save_replay_buffer-IsSound : IsSound (save_replay_buffer host)
  unfolding save_replay_buffer
  save_replay_buffer-IsSound = search call_rules depth 16

  pub start_output-IsSound : (output_name : Value) → IsSound (start_output host output_name)
  unfolding start_output output_mutation
  start_output-IsSound output_name = search call_rules depth 16

  pub stop_output-IsSound : (output_name : Value) → IsSound (stop_output host output_name)
  unfolding stop_output output_mutation
  stop_output-IsSound output_name = search call_rules depth 16

  pub output_status-IsSound : (output_name : Value) → IsSound (output_status host output_name)
  unfolding output_status
  output_status-IsSound output_name = search call_rules depth 16

  pub recording_status-IsSound : IsSound (recording_status host)
  unfolding recording_status
  recording_status-IsSound = search call_rules depth 16

  pub streaming_status-IsSound : IsSound (streaming_status host)
  unfolding streaming_status
  streaming_status-IsSound = search call_rules depth 16

  pub replay_buffer_status-IsSound : IsSound (replay_buffer_status host)
  unfolding replay_buffer_status
  replay_buffer_status-IsSound = search call_rules depth 16

  pub virtual_camera_status-IsSound : IsSound (virtual_camera_status host)
  unfolding virtual_camera_status
  virtual_camera_status-IsSound = search call_rules depth 16

  pub list_outputs-IsSound : IsSound (list_outputs host)
  unfolding list_outputs
  list_outputs-IsSound = search call_rules depth 16
