-- ===== src/Transport/Frames.antt =====
-- `_read_json` and `_send_json` of src/dcc_mcp_obs/protocol.py.
use dcc_mcp_obs.Base.{ℕ, String, Bool, true, Option, none, some, length, leb, if◌then◌else◌}
use dcc_mcp_obs.Value.{dict, Fields}
use dcc_mcp_obs.Value.Json.{Loaded, loaded, deep_nesting}
use dcc_mcp_obs.Transport.Wire.{
  Peer, Step, Received, text, bytes, other, timeout_set, received, sent, protocol_error, trouble,
  failed, give, break, call, computed, demand, ◌>>=◌, ◌>>◌,
}
use dcc_mcp_obs.Transport.Deadline.{remaining, within_deadline}

abbrev pub max_frame_bytes : ℕ
max_frame_bytes = 1_048_576

-- json.loads gives an object; a RecursionError is not caught here
unfoldable pub object_of : Loaded → Step Fields
object_of (loaded (dict d)) = give d
object_of deep_nesting = break (trouble failed)
object_of _ = break (protocol_error "OBS_RESPONSE_INVALID")

unfoldable pub decoded : Option String → Step String
decoded none = break (protocol_error "OBS_RESPONSE_INVALID")
decoded (some s) = give s

unfoldable pub mark_request_sent : Bool → Step (Unit {0})
mark_request_sent marks w = give tt (if marks then record w { request_sent = true } else w)

module _ (peer : Peer) where
  unfoldable pub frame_text : Received → Step String
  unfolding decoded
  frame_text (text s) = give s
  frame_text (bytes bs) = do
    demand (leb (length bs) max_frame_bytes) "OBS_FRAME_TOO_LARGE"
    decoded (peer.decode bs)
  frame_text other = break (protocol_error "OBS_FRAME_TOO_LARGE")

  -- len(s.encode("utf-8")) is at most MAX_FRAME_BYTES
  unfoldable pub small_enough : String → Step (Unit {0})
  small_enough s = do
    size ← computed (peer.encoded_size s)
    demand (leb size max_frame_bytes) "OBS_FRAME_TOO_LARGE"

  unfoldable pub read_json : ℕ → ℕ → Step Fields
  unfolding remaining within_deadline frame_text small_enough object_of
  read_json socket deadline = do
    left ← remaining peer deadline
    call (timeout_set socket left) (λ h. peer.set_timeout h socket left)
    raw ← call (received socket) (λ h. peer.recv h socket)
    within_deadline peer deadline
    s ← frame_text raw
    small_enough s
    object_of (peer.loads s)

  -- `marks` is whether `on_send_attempt` is given, which notes that the request is sent
  unfoldable pub send_json : ℕ → Fields → ℕ → Bool → Step (Unit {0})
  unfolding remaining within_deadline small_enough mark_request_sent
  send_json socket value deadline marks = do
    small_enough (peer.dumps value)
    left ← remaining peer deadline
    call (timeout_set socket left) (λ h. peer.set_timeout h socket left)
    mark_request_sent marks
    call (sent socket value) (λ h. peer.send h socket (peer.dumps value))
    within_deadline peer deadline
