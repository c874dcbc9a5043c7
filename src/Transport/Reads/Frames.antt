-- ===== src/Transport/Reads/Frames.antt =====
-- The frames that a response takes in src/dcc_mcp_obs/protocol.py.
use dcc_mcp_obs.Base.{
  ℕ, zero, suc, ◌+◌, String, count, Bool, true, false, Option, none, some, refl, leb, arith,
}
use dcc_mcp_obs.Value.{Value, str, dict, Fields}
use dcc_mcp_obs.Value.Dict.{get}
use dcc_mcp_obs.Value.Json.{Loaded, loaded, not_json, long_number, deep_nesting}
use dcc_mcp_obs.Transport.Wire.{
  Peer, Received, text, bytes, other, give, call, timeout_set, received,
}
use dcc_mcp_obs.Transport.Deadline.{clock, remaining, within_deadline}
use dcc_mcp_obs.Transport.Frames.{
  object_of, decoded, mark_request_sent, frame_text, small_enough, read_json, send_json,
}
use dcc_mcp_obs.Transport.Handshake.{op_is, nonempty, object_authentication}
use dcc_mcp_obs.Transport.Vendor.{
  object_response, read_answer, skip_event, receive_frames, receive_response,
}
use dcc_mcp_obs.Transport.Reads.{
  Reads, Reads-give, Reads-break, Reads-call, Reads-if, Reads-more, Reads-bind, still_rules,
}

object_of-Reads : (o : Loaded) → Reads 0 (object_of o)
unfolding object_of
object_of-Reads (loaded (dict d)) = Reads-give d
object_of-Reads (loaded _) = Reads-break _
object_of-Reads not_json = Reads-break _
object_of-Reads long_number = Reads-break _
object_of-Reads deep_nesting = Reads-break _

decoded-Reads : (o : Option String) → Reads 0 (decoded o)
unfolding decoded
decoded-Reads none = Reads-break _
decoded-Reads (some s) = Reads-give s

marked-Reads : (marks : Bool) → Reads 0 (mark_request_sent marks)
unfolding mark_request_sent give
marked-Reads true = record { bound = λ w. ground arith }
marked-Reads false = record { bound = λ w. ground arith }

pub nonempty-Reads : (v : Value) → Reads 0 (nonempty v)
unfolding nonempty
nonempty-Reads (str s) = Reads-if 0 (leb 1 (count s)) _ _ (Reads-give s) (Reads-break _)
nonempty-Reads _ = Reads-break _

pub object_authentication-Reads : (v : Value) → Reads 0 (object_authentication v)
unfolding object_authentication
object_authentication-Reads (dict d) = Reads-give d
object_authentication-Reads _ = Reads-break _

pub object_response-Reads : (v : Value) → Reads 0 (object_response v)
unfolding object_response
object_response-Reads (dict d) = Reads-give d
object_response-Reads _ = Reads-break _

module _ (peer : Peer) where
  pub clock-Reads : Reads 0 (clock peer)
  unfolding clock
  clock-Reads = Reads-call _ _ (λ h. refl)

  pub remaining-Reads : (deadline : ℕ) → Reads 0 (remaining peer deadline)
  unfolding remaining
  remaining-Reads deadline = search (still_rules, clock-Reads) depth 10

  within_deadline-Reads : (deadline : ℕ) → Reads 0 (within_deadline peer deadline)
  unfolding within_deadline
  within_deadline-Reads deadline = search (still_rules, clock-Reads) depth 10

  frame_text-Reads : (raw : Received) → Reads 0 (frame_text peer raw)
  unfolding frame_text
  frame_text-Reads (text s) = Reads-give s
  frame_text-Reads (bytes bs) = search (still_rules, decoded-Reads) depth 10
  frame_text-Reads other = Reads-break _

  small_enough-Reads : (s : String) → Reads 0 (small_enough peer s)
  unfolding small_enough
  small_enough-Reads s = search still_rules depth 10

  set_timeout-Reads :
      (socket left : ℕ)
      → Reads 0 (call (timeout_set socket left) (λ h. peer.set_timeout h socket left))
  set_timeout-Reads socket left = Reads-call _ _ (λ h. refl)

  recv-Reads : (socket : ℕ) → Reads 1 (call (received socket) (λ h. peer.recv h socket))
  unfolding call
  recv-Reads socket = record { bound = λ w. ground arith }

  pub read_json-Reads : (socket deadline : ℕ) → Reads 1 (read_json peer socket deadline)
  unfolding read_json
  read_json-Reads socket deadline = Reads-bind 0 1 _ _ (remaining-Reads deadline) λ left.
      Reads-bind 0 1 _ _ (set_timeout-Reads socket left) λ set.
        Reads-bind 1 0 _ _ (recv-Reads socket) λ raw.
          search
            (
              still_rules, within_deadline-Reads, frame_text-Reads, small_enough-Reads,
              object_of-Reads,
            )
            depth 16

  pub send_json-Reads :
      (socket : ℕ) (frame : Fields) (deadline : ℕ) (marks : Bool)
      → Reads 0 (send_json peer socket frame deadline marks)
  unfolding send_json
  send_json-Reads socket frame deadline marks =
      search (still_rules, remaining-Reads, within_deadline-Reads, small_enough-Reads, marked-Reads)
        depth 16

  read_answer-Reads : (id : String) (message : Fields) → Reads 0 (read_answer peer id message)
  unfolding read_answer
  read_answer-Reads id message = search (still_rules, object_response-Reads) depth 16

  receive_frames-Reads :
      (frames socket : ℕ) (id : String) (deadline : ℕ)
      → Reads frames (receive_frames peer frames socket id deadline)
  unfolding receive_frames skip_event
  receive_frames-Reads zero socket id deadline = Reads-break _
  receive_frames-Reads (suc frames) socket id deadline =
      Reads-more (1 + frames) (suc frames) _
        (Reads-bind 1 frames _ _ (read_json-Reads socket deadline) λ message.
          Reads-if frames (op_is 5 (get "op" message)) _ _
            (receive_frames-Reads frames socket id deadline)
            (Reads-more 0 frames _ (read_answer-Reads id message) (ground arith)))
        (ground arith)

  pub receive_response-Reads :
      (socket : ℕ) (id : String) (deadline : ℕ)
      → Reads 65 (receive_response peer socket id deadline)
  unfolding receive_response
  receive_response-Reads socket id deadline = receive_frames-Reads 65 socket id deadline
