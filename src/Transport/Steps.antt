-- ===== src/Transport/Steps.antt =====
-- The steps of src/dcc_mcp_obs/protocol.py that send no vendor request.
use dcc_mcp_obs.Base.{
  ℕ, zero, suc, String, count, false, List, [], ◌∷◌, Option, none, some, ◌≡◌, refl, leb,
}
use dcc_mcp_obs.Value.{Value, null, bool, int, float, str, list, dict, Fields}
use dcc_mcp_obs.Value.Dict.{get, entries}
use dcc_mcp_obs.Bridge.Controls.Arguments.{equals_nat}
use dcc_mcp_obs.Value.Json.{Loaded, loaded, not_json, long_number, deep_nesting}
use dcc_mcp_obs.Transport.Wire.{
  Peer, Wire, failed, Trace, Attempt, done, broken, Received, text, bytes, other, give, call, sent,
  timeout_set,
}
use dcc_mcp_obs.Transport.Deadline.{clock, remaining, within_deadline}
use dcc_mcp_obs.Transport.Frames.{
  object_of, decoded, mark_request_sent, frame_text, small_enough, read_json, send_json,
}
use dcc_mcp_obs.Transport.Handshake.{
  Endpoint, op_is, nonempty, object_authentication, identify_request, authentication,
  authentication_entry, handshake, closing, introduced, keep_socket, open_socket, connected_or_open,
  ensure_connected,
}
use dcc_mcp_obs.Transport.Vendor.{
  object_response, read_answer, skip_event, receive_frames, receive_response, request_stamp,
  vendor_payload,
}
use dcc_mcp_obs.Transport.Quiet.{
  Quiet, Quiet-trouble, Quiet-give, Quiet-break, Quiet-if, Quiet-bind, Quiet-call, quiet_rules,
  Breaks, vendor_sends,
}

object_of-Quiet : (o : Loaded) → Quiet (object_of o)
unfolding object_of
object_of-Quiet (loaded (dict d)) = Quiet-give d
object_of-Quiet (loaded _) = Quiet-break _ refl
object_of-Quiet not_json = Quiet-break _ refl
object_of-Quiet long_number = Quiet-break _ refl
object_of-Quiet deep_nesting = Quiet-trouble failed

decoded-Quiet : (o : Option String) → Quiet (decoded o)
unfolding decoded
decoded-Quiet none = Quiet-break _ refl
decoded-Quiet (some s) = Quiet-give s

unmarked-Quiet : Quiet (mark_request_sent false)
unfolding mark_request_sent give
unmarked-Quiet = record { sends = λ w. refl; flag = λ w. refl; breaks = λ w. tt }

nonempty-Quiet : (v : Value) → Quiet (nonempty v)
unfolding nonempty
nonempty-Quiet (str s) = Quiet-if (leb 1 (count s)) _ _ (Quiet-give s) (Quiet-break _ refl)
nonempty-Quiet _ = Quiet-break _ refl

object_authentication-Quiet : (v : Value) → Quiet (object_authentication v)
unfolding object_authentication
object_authentication-Quiet (dict d) = Quiet-give d
object_authentication-Quiet _ = Quiet-break _ refl

object_response-Quiet : (v : Value) → Quiet (object_response v)
unfolding object_response
object_response-Quiet (dict d) = Quiet-give d
object_response-Quiet _ = Quiet-break _ refl

module _ (peer : Peer) where
  pub clock-Quiet : Quiet (clock peer)
  unfolding clock
  clock-Quiet = Quiet-call _ _ (λ h. refl)

  pub remaining-Quiet : (deadline : ℕ) → Quiet (remaining peer deadline)
  unfolding remaining
  remaining-Quiet deadline = search (quiet_rules, clock-Quiet) depth 10

  pub within_deadline-Quiet : (deadline : ℕ) → Quiet (within_deadline peer deadline)
  unfolding within_deadline
  within_deadline-Quiet deadline = search (quiet_rules, clock-Quiet) depth 10

  frame_text-Quiet : (raw : Received) → Quiet (frame_text peer raw)
  unfolding frame_text
  frame_text-Quiet (text s) = Quiet-give s
  frame_text-Quiet (bytes bs) = search (quiet_rules, decoded-Quiet) depth 10
  frame_text-Quiet other = Quiet-break _ refl

  pub small_enough-Quiet : (s : String) → Quiet (small_enough peer s)
  unfolding small_enough
  small_enough-Quiet s = search quiet_rules depth 10

  pub set_timeout-Quiet :
      (socket left : ℕ)
      → Quiet (call (timeout_set socket left) (λ h. peer.set_timeout h socket left))
  set_timeout-Quiet socket left = Quiet-call _ _ (λ h. refl)

  pub read_json-Quiet : (socket deadline : ℕ) → Quiet (read_json peer socket deadline)
  unfolding read_json
  read_json-Quiet socket deadline =
      search
        (
          quiet_rules, remaining-Quiet, within_deadline-Quiet, frame_text-Quiet, small_enough-Quiet,
          object_of-Quiet,
        )
        depth 16

  other_op :
      (socket : ℕ) (frame : Fields) (h : Trace)
      → equals_nat 6 (get "op" frame) ≡ false
      → vendor_sends (sent socket frame ∷ h) ≡ vendor_sends h
  other_op socket frame h e = rw e

  pub send_json-Quiet :
      (socket : ℕ) (frame : Fields) (deadline : ℕ)
      → equals_nat 6 (get "op" frame) ≡ false
      → Quiet (send_json peer socket frame deadline false)
  unfolding send_json
  send_json-Quiet socket frame deadline e =
      search
        (
          quiet_rules, remaining-Quiet, within_deadline-Quiet, small_enough-Quiet, unmarked-Quiet,
          other_op,
        )
        depth 16

  read_answer-Quiet : (id : String) (message : Fields) → Quiet (read_answer peer id message)
  unfolding read_answer
  read_answer-Quiet id message = search (quiet_rules, object_response-Quiet) depth 16

  receive_frames-Quiet :
      (frames socket : ℕ) (id : String) (deadline : ℕ)
      → Quiet (receive_frames peer frames socket id deadline)
  unfolding receive_frames skip_event
  receive_frames-Quiet zero socket id deadline = Quiet-break _ refl
  receive_frames-Quiet (suc frames) socket id deadline =
      Quiet-bind _ _ (read_json-Quiet socket deadline) λ message.
        Quiet-if (op_is 5 (get "op" message)) _ _ (receive_frames-Quiet frames socket id deadline)
          (read_answer-Quiet id message)

  pub receive_response-Quiet :
      (socket : ℕ) (id : String) (deadline : ℕ) → Quiet (receive_response peer socket id deadline)
  unfolding receive_response
  receive_response-Quiet socket id deadline = receive_frames-Quiet _ socket id deadline

module _ (peer : Peer) (endpoint : Endpoint) where
  authentication-Quiet : (raw : Value) → Quiet (authentication peer endpoint raw)
  unfolding authentication
  authentication-Quiet raw =
      search (quiet_rules, nonempty-Quiet, object_authentication-Quiet) depth 16

  authentication_entry-Quiet : (raw : Value) → Quiet (authentication_entry peer endpoint raw)
  unfolding authentication_entry
  authentication_entry-Quiet null = Quiet-give []
  authentication_entry-Quiet (bool b) = search (quiet_rules, authentication-Quiet)
  authentication_entry-Quiet (int n) = search (quiet_rules, authentication-Quiet)
  authentication_entry-Quiet (float x) = search (quiet_rules, authentication-Quiet)
  authentication_entry-Quiet (str s) = search (quiet_rules, authentication-Quiet)
  authentication_entry-Quiet (list l) = search (quiet_rules, authentication-Quiet)
  authentication_entry-Quiet (dict d) = search (quiet_rules, authentication-Quiet)

  identify-Quiet :
      (socket : ℕ) (entry : List (String × Value)) (deadline : ℕ)
      → Quiet (send_json peer socket (identify_request entry) deadline false)
  unfolding identify_request entries get equals_nat
  identify-Quiet socket entry deadline =
      send_json-Quiet peer socket (identify_request entry) deadline refl

  handshake-Quiet : (socket deadline : ℕ) → Quiet (handshake peer endpoint socket deadline)
  unfolding handshake
  handshake-Quiet socket deadline =
      search (quiet_rules, read_json-Quiet, authentication_entry-Quiet, identify-Quiet) depth 20

  closing-Quiet :
      {A : Type 0} (socket : ℕ) (w : Wire) (p : Attempt A × Wire)
      → vendor_sends p.1.trace ≡ vendor_sends w.trace
      → p.1.request_sent ≡ w.request_sent
      → Breaks p.0
      → (vendor_sends (closing peer endpoint socket p).1.trace ≡ vendor_sends w.trace)
        × ((closing peer endpoint socket p).1.request_sent ≡ w.request_sent)
        × Breaks (closing peer endpoint socket p).0
  closing-Quiet socket w (done a, v) sends flag breaks = (sends, flag, breaks)
  closing-Quiet socket w (broken e, v) sends flag breaks = (sends, flag, breaks)

  introduced-Quiet : (socket deadline : ℕ) → Quiet (introduced peer endpoint socket deadline)
  unfolding introduced
  introduced-Quiet socket deadline =
      let q = handshake-Quiet socket deadline in
      let all = λ (w : Wire).
        closing-Quiet socket w (handshake peer endpoint socket deadline w) (q.sends w) (q.flag w)
          (q.breaks w) in
      record { sends = λ w. (all w).0; flag = λ w. (all w).1; breaks = λ w. (all w).2 }

  keep_socket-Quiet : (socket : ℕ) → Quiet (keep_socket peer endpoint socket)
  unfolding keep_socket
  keep_socket-Quiet socket = record { sends = λ w. refl; flag = λ w. refl; breaks = λ w. tt }

  open_socket-Quiet : (deadline : ℕ) → Quiet (open_socket peer endpoint deadline)
  unfolding open_socket
  open_socket-Quiet deadline =
      search (quiet_rules, remaining-Quiet, introduced-Quiet, keep_socket-Quiet) depth 16

  connected_or_open-Quiet :
      (held : Option ℕ) (deadline : ℕ) → Quiet (connected_or_open peer endpoint held deadline)
  unfolding connected_or_open
  connected_or_open-Quiet none deadline = open_socket-Quiet deadline
  connected_or_open-Quiet (some k) deadline = Quiet-give k

  pub ensure_connected-Quiet : (deadline : ℕ) → Quiet (ensure_connected peer endpoint deadline)
  unfolding ensure_connected
  ensure_connected-Quiet deadline = record {
    sends = λ w. (connected_or_open-Quiet w.socket deadline).sends w;
    flag = λ w. (connected_or_open-Quiet w.socket deadline).flag w;
    breaks = λ w. (connected_or_open-Quiet w.socket deadline).breaks w;
  }

  pub request_stamp-Quiet : (deadline : ℕ) → Quiet (request_stamp peer endpoint deadline)
  unfolding request_stamp
  request_stamp-Quiet deadline = search (quiet_rules, remaining-Quiet) depth 16

  pub vendor_payload-Quiet : (response : Fields) → Quiet (vendor_payload peer endpoint response)
  unfolding vendor_payload
  vendor_payload-Quiet response = search (quiet_rules, object_response-Quiet) depth 16
