-- ===== src/Transport.antt =====
-- `ObsWebSocketTransport` of src/dcc_mcp_obs/protocol.py.
pub mod Wire
pub mod Deadline
pub mod Requests
pub mod Frames
pub mod Handshake
pub mod Vendor
pub mod Quiet
pub mod Steps
pub mod Asking
pub mod Reads
pub mod Once
pub mod Codes
mod Tests
