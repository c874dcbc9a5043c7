-- ===== src/Transport/Tests.antt =====
-- `vendor_request` of src/dcc_mcp_obs/protocol.py against a peer that takes a request and never answers.
use dcc_mcp_obs.Base.{String, ◌≡◌, refl, true, false, [], some, ◌+◌, ◌≤◌}
use dcc_mcp_obs.Value.{str, dict, end}
use dcc_mcp_obs.Result.{err, bridge_error}
use dcc_mcp_obs.Bridge.Host.{raised}
use dcc_mcp_obs.Bridge.Request.{receive}
use dcc_mcp_obs.Bridge.Tests.{test_host}
use dcc_mcp_obs.Base.{◌⊎◌}
use dcc_mcp_obs.Transport.Wire.{Trouble, trouble}
use dcc_mcp_obs.Value.Json.{loaded}
use dcc_mcp_obs.Transport.Wire.{
  Peer, Wire, protocol_error, broken, gave, troubled, timed_out, ◌>>=◌,
}
use dcc_mcp_obs.Transport.Handshake.{Endpoint, ensure_connected}
use dcc_mcp_obs.Transport.Vendor.{
  at, vendor_request, accepted_arguments, given_deadline, under_lock, exchange, request_stamp,
  receive_response, receive_frames, failure_code,
}
use dcc_mcp_obs.Transport.Quiet.{vendor_sends}
use dcc_mcp_obs.Transport.Once.{VendorResult, mutates, vendor_request-VendorResult}
use dcc_mcp_obs.Transport.Codes.{vendor_request-receive}
use dcc_mcp_obs.Transport.Requests.{vendor_requests, mutating_vendor_requests}
use dcc_mcp_obs.Transport.Deadline.{remaining}
use dcc_mcp_obs.Transport.Frames.{send_json, read_json}
use dcc_mcp_obs.Transport.Reads.{reads}
use dcc_mcp_obs.Transport.Reads.Bound.{vendor_request-frames}

abbrev silent_peer : Peer
silent_peer = record {
  now = λ h. 0;
  wall = λ h. 0;
  acquire = λ h left. gave true;
  fresh_id = λ h. "id";
  connect = λ h url timeout. troubled timed_out;
  set_timeout = λ h socket left. gave tt;
  recv = λ h socket. troubled timed_out;
  send = λ h socket s. gave tt;
  dumps = λ value. "{}";
  loads = λ s. loaded (dict end);
  encoded_size = λ s. some 2;
  decode = λ bs. some "";
  digest = λ a b. some "";
  url = λ host port. "ws://127.0.0.1:4455";
}

abbrev test_endpoint : Endpoint
test_endpoint = record { host = "127.0.0.1"; port = 4455; password = ""; timeout = 50 }

abbrev test_wire : Wire
test_wire = record { socket = some 0; request_sent = false; trace = [] }

abbrev wire_after : Wire
wire_after =
    (vendor_request silent_peer test_endpoint (str "StartStreaming") (dict end) (at 100)
      test_wire).1

unanswered_run :
    vendor_request silent_peer test_endpoint (str "StartStreaming") (dict end) (at 100) test_wire
    ≡ (broken (protocol_error "OBS_UI_INDETERMINATE"), wire_after)
unfolding vendor_request ◌>>=◌ accepted_arguments vendor_requests given_deadline remaining
    under_lock exchange ensure_connected request_stamp send_json receive_response receive_frames
    read_json failure_code mutating_vendor_requests
unanswered_run = refl

vendor_request-VendorResult_example :
    VendorResult false (mutates (str "StartStreaming")) (vendor_sends test_wire.trace) (
      vendor_request silent_peer test_endpoint (str "StartStreaming") (dict end) (at 100) test_wire)
vendor_request-VendorResult_example =
    vendor_request-VendorResult silent_peer test_endpoint (str "StartStreaming") (dict end) (at 100)
      test_wire

vendor_request-receive_example :
    ((code : String) × (protocol_error "OBS_UI_INDETERMINATE" ≡ protocol_error code)
      × ((receive test_host 100 (raised (str "OBS_UI_INDETERMINATE")) []).0
          ≡ err (bridge_error code)))
    ⊎ ((kind : Trouble) × (protocol_error "OBS_UI_INDETERMINATE" ≡ trouble kind)
        × (vendor_sends wire_after.trace ≡ vendor_sends test_wire.trace)
        × ((receive test_host 100 (raised (str "OBS_UI_INDETERMINATE")) []).0
            ≡ err (bridge_error "OBS_CONNECTION_FAILED")))
vendor_request-receive_example =
    vendor_request-receive silent_peer test_endpoint (str "StartStreaming") (dict end) (at 100)
      test_wire wire_after (protocol_error "OBS_UI_INDETERMINATE") unanswered_run test_host 100 []

vendor_request-frames_example :
    reads
      (vendor_request silent_peer test_endpoint
        (str "StartStreaming")
        (dict end)
        (at 100)
        test_wire).1.trace
    ≤ 67 + 0
vendor_request-frames_example =
    vendor_request-frames silent_peer test_endpoint (str "StartStreaming") (dict end) (at 100)
      test_wire
