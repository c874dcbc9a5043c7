-- ===== src/Bridge.antt =====
-- The bridge of src/dcc_mcp_obs/bridge.py.
pub mod Constants
pub mod Host
pub mod Identity
pub mod Request
pub mod Settings
pub mod Frame
pub mod Validate
pub mod Accept
pub mod Session
pub mod Open
pub mod Reconcile
pub mod Published
pub mod Sound
pub mod Controls
pub mod Calls
pub mod Tests
