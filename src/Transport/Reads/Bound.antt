-- ===== src/Transport/Reads/Bound.antt =====
-- The frames that `vendor_request` of src/dcc_mcp_obs/protocol.py reads.
use dcc_mcp_obs.Base.{
  ℕ, ◌+◌, ◌≤◌, String, true, false, [], Option, none, some, ◌≡◌, refl, arith, mem_text,
}
use dcc_mcp_obs.Value.{Value, null, str, dict, Fields}
use dcc_mcp_obs.Transport.Wire.{Peer, Wire, Attempt, done, broken, call, locked, connected}
use dcc_mcp_obs.Transport.Handshake.{
  Endpoint, authentication, authentication_entry, handshake, closing, introduced, keep_socket,
  open_socket, connected_or_open, ensure_connected,
}
use dcc_mcp_obs.Transport.Vendor.{
  request_stamp, vendor_payload, exchange, under_lock, handled, vendor_request, accepted_arguments,
  given_deadline, GivenDeadline, no_deadline, at, not_finite, too_large, disconnect, close_socket,
}
use dcc_mcp_obs.Transport.Requests.{vendor_requests}
use dcc_mcp_obs.Transport.Reads.{
  reads, Reads, Reads-give, Reads-break, Reads-call, Reads-if, Reads-more, Reads-demand, Reads-bind,
  still_rules,
}
use dcc_mcp_obs.Transport.Reads.Frames.{
  nonempty-Reads, object_authentication-Reads, object_response-Reads, clock-Reads, remaining-Reads,
  read_json-Reads, send_json-Reads, receive_response-Reads,
}

module _ (peer : Peer) (endpoint : Endpoint) where
  authentication-Reads : (raw : Value) → Reads 0 (authentication peer endpoint raw)
  unfolding authentication
  authentication-Reads raw =
      search (still_rules, nonempty-Reads, object_authentication-Reads) depth 16

  authentication_entry-Reads : (raw : Value) → Reads 0 (authentication_entry peer endpoint raw)
  unfolding authentication_entry
  authentication_entry-Reads null = Reads-give []
  authentication_entry-Reads raw = search (still_rules, authentication-Reads)

  handshake-Reads : (socket deadline : ℕ) → Reads 2 (handshake peer endpoint socket deadline)
  unfolding handshake
  handshake-Reads socket deadline =
      Reads-bind 1 1 _ _ (read_json-Reads peer socket deadline) λ hello.
        Reads-bind 0 1 _ _ (Reads-demand _ _) λ first.
          Reads-bind 0 1 _ _ (Reads-demand _ _) λ second.
            Reads-bind 0 1 _ _ (authentication_entry-Reads _) λ entry.
              Reads-bind 0 1 _ _ (send_json-Reads peer socket _ deadline false) λ sent.
                Reads-bind 1 0 _ _ (read_json-Reads peer socket deadline)
                  λ identified. search still_rules depth 10

  reads-closing :
      {A : Type 0} (socket : ℕ) (p : Attempt A × Wire)
      → reads (closing peer endpoint socket p).1.trace ≡ reads p.1.trace
  reads-closing socket (done a, v) = refl
  reads-closing socket (broken e, v) = refl

  introduced-Reads : (socket deadline : ℕ) → Reads 2 (introduced peer endpoint socket deadline)
  unfolding introduced
  introduced-Reads socket deadline = record {
    bound = λ w.
        rw (reads-closing socket (handshake peer endpoint socket deadline w))
          ((handshake-Reads socket deadline).bound w);
  }

  keep_socket-Reads : (socket : ℕ) → Reads 0 (keep_socket peer endpoint socket)
  unfolding keep_socket
  keep_socket-Reads socket = record { bound = λ w. ground arith }

  connect-Reads :
      (url : String) (left : ℕ) → Reads 0 (call (connected url left) (λ h. peer.connect h url left))
  connect-Reads url left = Reads-call _ _ (λ h. refl)

  open_socket-Reads : (deadline : ℕ) → Reads 2 (open_socket peer endpoint deadline)
  unfolding open_socket
  open_socket-Reads deadline = Reads-bind 0 2 _ _ (remaining-Reads peer deadline) λ left.
      Reads-bind 0 2 _ _ (connect-Reads _ _) λ socket.
        Reads-bind 2 0 _ _ (introduced-Reads socket deadline) λ known. keep_socket-Reads socket

  connected_or_open-Reads :
      (held : Option ℕ) (deadline : ℕ) → Reads 2 (connected_or_open peer endpoint held deadline)
  unfolding connected_or_open
  connected_or_open-Reads none deadline = open_socket-Reads deadline
  connected_or_open-Reads (some k) deadline = Reads-more 0 2 _ (Reads-give k) (ground arith)

  ensure_connected-Reads : (deadline : ℕ) → Reads 2 (ensure_connected peer endpoint deadline)
  unfolding ensure_connected
  ensure_connected-Reads deadline = record {
    bound = λ w. (connected_or_open-Reads w.socket deadline).bound w;
  }

  request_stamp-Reads : (deadline : ℕ) → Reads 0 (request_stamp peer endpoint deadline)
  unfolding request_stamp
  request_stamp-Reads deadline = search (still_rules, remaining-Reads) depth 16

  vendor_payload-Reads : (response : Fields) → Reads 0 (vendor_payload peer endpoint response)
  unfolding vendor_payload
  vendor_payload-Reads response = search (still_rules, object_response-Reads) depth 16

  exchange-Reads :
      (rt : String) (payload : Fields) (deadline : ℕ)
      → Reads 67 (exchange peer endpoint rt payload deadline)
  unfolding exchange
  exchange-Reads rt payload deadline =
      Reads-bind 2 65 _ _ (ensure_connected-Reads deadline) λ socket.
        Reads-bind 0 65 _ _ (request_stamp-Reads deadline) λ stamp.
          Reads-bind 0 65 _ _ (send_json-Reads peer socket _ deadline true) λ marked.
            Reads-bind 65 0 _ _ (receive_response-Reads peer socket stamp.0 deadline)
              vendor_payload-Reads

  reads-disconnect : (w : Wire) → reads (disconnect w).trace ≡ reads w.trace
  unfolding disconnect
  reads-disconnect w = go w.socket
    where
      go : (held : Option ℕ) → reads (close_socket held w).trace ≡ reads w.trace
      go none = refl
      go (some k) = refl

  reads-handled :
      (rt : String) (p : Attempt Fields × Wire)
      → reads (handled peer endpoint rt p).1.trace ≡ reads p.1.trace
  reads-handled rt (done payload, v) = refl
  reads-handled rt (broken e, v) = reads-disconnect v

  under_lock-Reads :
      (rt : String) (payload : Fields) (deadline : ℕ)
      → Reads 67 (under_lock peer endpoint rt payload deadline)
  unfolding under_lock
  under_lock-Reads rt payload deadline = record {
    bound = λ w.
        let unsent : Wire = record w { request_sent = false } in
        rw (reads-handled rt (exchange peer endpoint rt payload deadline unsent))
          ((exchange-Reads rt payload deadline).bound unsent);
  }

  accepted_arguments-Reads :
      (request_type payload : Value)
      → Reads 0 (accepted_arguments peer endpoint request_type payload)
  unfolding accepted_arguments
  accepted_arguments-Reads (str rt) (dict payload) =
      Reads-if 0 (mem_text vendor_requests rt) _ _ (Reads-give _) (Reads-break _)
  accepted_arguments-Reads rt payload = Reads-break _

  given_deadline-Reads : (given : GivenDeadline) → Reads 0 (given_deadline peer endpoint given)
  unfolding given_deadline
  given_deadline-Reads no_deadline = search (still_rules, clock-Reads)
  given_deadline-Reads (at deadline) = Reads-give deadline
  given_deadline-Reads too_large = Reads-break _
  given_deadline-Reads not_finite = Reads-break _

  lock-Reads : (left : ℕ) → Reads 0 (call (locked left) (λ h. peer.acquire h left))
  lock-Reads left = Reads-call _ _ (λ h. refl)

  vendor_request-Reads :
      (request_type payload : Value) (given : GivenDeadline)
      → Reads 67 (vendor_request peer endpoint request_type payload given)
  unfolding vendor_request
  vendor_request-Reads request_type payload given =
      Reads-bind 0 67 _ _ (accepted_arguments-Reads request_type payload) λ accepted.
        Reads-bind 0 67 _ _ (given_deadline-Reads given) λ deadline.
          Reads-bind 0 67 _ _ (remaining-Reads peer deadline) λ left.
            Reads-bind 0 67 _ _ (lock-Reads left) λ acquired.
              Reads-bind 0 67 _ _ (Reads-demand acquired _)
                λ free. under_lock-Reads accepted.0 accepted.1 deadline

  -- However the peer answers, one vendor request reads at most 67 frames, those that introduce it to the
  -- peer included.
  pub vendor_request-frames :
      (request_type payload : Value) (given : GivenDeadline) (w : Wire)
      → reads (vendor_request peer endpoint request_type payload given w).1.trace
        ≤ 67 + reads w.trace
  vendor_request-frames request_type payload given w =
      (vendor_request-Reads request_type payload given).bound w
