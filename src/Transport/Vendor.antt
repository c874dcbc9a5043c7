-- ===== src/Transport/Vendor.antt =====
-- `vendor_request`, `_receive_response`, `_disconnect_locked` and `close` of
-- src/dcc_mcp_obs/protocol.py.
use dcc_mcp_obs.Base.{
  ℕ, zero, suc, ◌+◌, ◌-◌, ◌*◌, ◌/◌, min, String, Bool, true, false, ◌&&◌, [], ◌∷◌, Option, none,
  some, mem_text, if◌then◌else◌,
}
use dcc_mcp_obs.Value.{pos, Value, int, str, dict, Fields}
use dcc_mcp_obs.Value.Dict.{get, entries, put}
use dcc_mcp_obs.Value.Check.{is_true, dict_type, equals_text}
use dcc_mcp_obs.Bridge.Constants.{second}
use dcc_mcp_obs.Transport.Wire.{
  Peer, Wire, Attempt, done, broken, Failure, protocol_error, trouble, timed_out, failed, Step,
  gave, drew_id, read_wall_clock, locked, closed, give, break, call, demand, ◌>>=◌, ◌>>◌,
}
use dcc_mcp_obs.Transport.Deadline.{clock, remaining}
use dcc_mcp_obs.Transport.Requests.{vendor_requests, mutating_vendor_requests}
use dcc_mcp_obs.Transport.Frames.{read_json, send_json}
use dcc_mcp_obs.Transport.Handshake.{Endpoint, op_is, fields_of, ensure_connected}

-- MAX_INTERLEAVED_EVENTS
abbrev pub max_interleaved_events : ℕ
max_interleaved_events = 64

-- _NATIVE_MAX_DEADLINE_SECONDS - _NATIVE_DEADLINE_ROUNDING_RESERVE_SECONDS, in ticks
abbrev pub native_max_budget : ℕ
native_max_budget = 120 * second - second / 1000

-- the deadline that a caller gives: none, a finite time, an int that is too large for a float, of which
-- math.isfinite raises OverflowError, or anything else
pub data GivenDeadline : Type 0 where
  no_deadline : GivenDeadline
  at : ℕ → GivenDeadline
  too_large : GivenDeadline
  not_finite : GivenDeadline

-- math.ceil((wall + budget) * 1000) for a time in seconds: milliseconds, rounded up
unfoldable pub native_deadline : ℕ → ℕ → ℕ
native_deadline wall left = (wall + min left native_max_budget + 999_999) / 1_000_000

unfoldable pub vendor_frame : String → String → Fields → Fields
vendor_frame request_id rt payload = entries (
    ("op", int (pos 6))
    ∷ (
      "d",
      dict (
          entries (
            ("requestType", str "CallVendorRequest")
            ∷ ("requestId", str request_id)
            ∷ (
              "requestData",
              dict (
                  entries (
                    ("vendorName", str "dcc-mcp-obs")
                    ∷ ("requestType", str rt)
                    ∷ ("requestData", dict payload)
                    ∷ [])),
            )
            ∷ [])),
    )
    ∷ [])

unfoldable pub stamped_frame : String × ℕ → String → Fields → Fields
unfolding vendor_frame
stamped_frame stamp rt payload =
    vendor_frame stamp.0 rt (put "__dccDeadlineAtMs" (int (pos stamp.1)) payload)

-- the dict that a response must have
unfoldable pub object_response : Value → Step Fields
object_response (dict d) = give d
object_response _ = break (protocol_error "OBS_RESPONSE_INVALID")

-- isinstance(status, dict) and status.get("result") is True
unfoldable pub succeeded : Value → Bool
unfolding fields_of
succeeded status = dict_type status && is_true (get "result" (fields_of status))

abbrev pub close_socket : Option ℕ → Wire → Wire
close_socket none w = w
close_socket (some k) w = record w { socket = none; trace = closed k ∷ w.trace }

-- `_disconnect_locked`; an exception of `socket.close` is suppressed
unfoldable pub disconnect : Wire → Wire
disconnect w = close_socket w.socket w

module _ (peer : Peer) where
  -- the answer that a message which is no event gives
  unfoldable pub read_answer : String → Fields → Step Fields
  unfolding object_response
  read_answer request_id message = do
    demand (op_is 7 (get "op" message)) "OBS_RESPONSE_INVALID"
    response ← object_response (get "d" message)
    demand (equals_text request_id (get "requestId" response)) "OBS_RESPONSE_MISMATCH"
    demand (equals_text "CallVendorRequest" (get "requestType" response)) "OBS_RESPONSE_MISMATCH"
    give response

  -- events are skipped
  unfoldable pub skip_event : String → Step Fields → Fields → Step Fields
  skip_event request_id next message =
      if op_is 5 (get "op" message) then next else read_answer request_id message

  -- the frames that may still be read
  unfoldable pub receive_frames : ℕ → ℕ → String → ℕ → Step Fields
  receive_frames zero socket request_id deadline = break (protocol_error "OBS_EVENT_OVERFLOW")
  receive_frames (suc frames) socket request_id deadline = do
    message ← read_json peer socket deadline
    skip_event request_id (receive_frames frames socket request_id deadline) message

  unfoldable pub receive_response : ℕ → String → ℕ → Step Fields
  receive_response socket request_id deadline =
      receive_frames (suc max_interleaved_events) socket request_id deadline

module _ (peer : Peer) (endpoint : Endpoint) where
  -- the id of the request, and the deadline that it carries
  unfoldable pub request_stamp : ℕ → Step (String × ℕ)
  unfolding native_deadline
  request_stamp deadline = do
    request_id ← call drew_id (λ h. gave (peer.fresh_id h))
    left ← remaining peer deadline
    wall ← call read_wall_clock (λ h. gave (peer.wall h))
    remaining peer deadline
    give (request_id, native_deadline wall left)

  -- the payload of a response that says that the request has succeeded
  unfoldable pub vendor_payload : Fields → Step Fields
  unfolding object_response succeeded
  vendor_payload response = do
    demand (succeeded (get "requestStatus" response)) "OBS_REQUEST_FAILED"
    payload ← object_response (get "responseData" response)
    object_response (get "responseData" payload)

  -- what `vendor_request` tries
  unfoldable pub exchange : String → Fields → ℕ → Step Fields
  exchange rt payload deadline = do
    socket ← ensure_connected peer endpoint deadline
    stamp ← request_stamp deadline
    send_json peer socket (stamped_frame stamp rt payload) deadline true
    response ← receive_response peer socket stamp.0 deadline
    vendor_payload response

  -- the code of the handler that catches the exception
  unfoldable pub plain_code : Failure → String
  plain_code (protocol_error code) = code
  plain_code (trouble timed_out) = "OBS_TIMEOUT"
  plain_code (trouble failed) = "OBS_CONNECTION_FAILED"

  unfoldable pub failure_code : Bool → Bool → Failure → String
  unfolding plain_code
  failure_code request_sent mutating e =
      if request_sent && mutating then "OBS_UI_INDETERMINATE" else plain_code e

  -- the handlers
  abbrev pub handled : String → Attempt Fields × Wire → Attempt Fields × Wire
  handled rt (done payload, w) = (done payload, w)
  handled rt (broken e, w) = (
    broken (protocol_error (failure_code w.request_sent (mem_text mutating_vendor_requests rt) e)),
    disconnect w,
  )

  -- what is done under the lock
  unfoldable pub under_lock : String → Fields → ℕ → Step Fields
  under_lock rt payload deadline w =
      handled rt (exchange rt payload deadline (record w { request_sent = false }))

  unfoldable pub given_deadline : GivenDeadline → Step ℕ
  given_deadline no_deadline = do now ← clock peer; give (now + endpoint.timeout)
  given_deadline (at deadline) = give deadline
  given_deadline too_large = break (trouble failed)
  given_deadline not_finite = break (protocol_error "OBS_REQUEST_INVALID")

  unfoldable pub accepted_arguments : Value → Value → Step (String × Fields)
  accepted_arguments (str rt) (dict payload) =
      if mem_text vendor_requests rt
      then give (rt, payload)
      else break (protocol_error "OBS_REQUEST_INVALID")
  accepted_arguments _ _ = break (protocol_error "OBS_REQUEST_INVALID")

  unfoldable pub vendor_request : Value → Value → GivenDeadline → Step Fields
  vendor_request request_type payload given = do
    (rt, fields) ← accepted_arguments request_type payload
    deadline ← given_deadline given
    left ← remaining peer deadline
    acquired ← call (locked left) (λ h. peer.acquire h left)
    demand acquired "OBS_TIMEOUT"
    under_lock rt fields deadline

  unfoldable pub close : Step (Unit {0})
  unfolding disconnect
  close w = give tt (disconnect w)
