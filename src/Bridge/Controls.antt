-- ===== src/Bridge/Controls.antt =====
-- The public methods of `ObsControlBridge` (src/dcc_mcp_obs/bridge.py), by domain.
pub mod Sources
pub mod Filters
pub mod Media
pub mod Windows
pub mod AgentInput
pub mod Presentation
pub mod RecordingPlan
pub mod SceneRecordings
pub mod Arguments
pub mod Exact
pub mod Scenes
pub mod Items
pub mod Transform
pub mod Operator
pub mod Outputs
pub mod Recording
