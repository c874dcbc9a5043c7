-- ===== src/Transport/Reads.antt =====
-- How many frames `ObsWebSocketTransport` (src/dcc_mcp_obs/protocol.py) reads.
pub mod Frames
pub mod Bound
use dcc_mcp_obs.Base.{
  ℕ, zero, suc, ◌+◌, ◌≤◌, String, count, Bool, true, false, List, [], ◌∷◌, Option, none, some, ◌≡◌,
  refl, leb, arith, if◌then◌else◌, mem_text,
}
use dcc_mcp_obs.Value.{Value, null, bool, int, float, str, list, dict, Fields}
use dcc_mcp_obs.Value.Dict.{get}
use dcc_mcp_obs.Transport.Wire.{
  Peer, Wire, Trace, Attempt, done, broken, Received, text, bytes, other, give, call, sent, break,
  timeout_set, Failure, Reply, gave, computed, demand, ◌>>=◌, Step, WireEvent, read_clock,
  read_wall_clock, drew_id, locked, connected, received, closed,
}
use dcc_mcp_obs.Transport.Deadline.{clock, remaining, within_deadline}
use dcc_mcp_obs.Transport.Frames.{
  object_of, decoded, mark_request_sent, frame_text, small_enough, read_json, send_json,
}
use dcc_mcp_obs.Transport.Handshake.{
  Endpoint, op_is, nonempty, object_authentication, identify_request, authentication,
  authentication_entry, handshake, closing, introduced, keep_socket, open_socket, connected_or_open,
  ensure_connected,
}
use dcc_mcp_obs.Transport.Vendor.{
  object_response, read_answer, skip_event, receive_frames, receive_response, request_stamp,
  vendor_payload, exchange, under_lock, handled, vendor_request, accepted_arguments, given_deadline,
  GivenDeadline, no_deadline, at, not_finite, disconnect, close_socket, max_interleaved_events,
  stamped_frame,
}

-- how many frames have been read
abbrev pub reads : Trace → ℕ
reads [] = 0
reads (received k ∷ h) = suc (reads h)
reads (read_clock ∷ h) = reads h
reads (read_wall_clock ∷ h) = reads h
reads (drew_id ∷ h) = reads h
reads (locked n ∷ h) = reads h
reads (connected url n ∷ h) = reads h
reads (timeout_set k n ∷ h) = reads h
reads (sent k frame ∷ h) = reads h
reads (closed k ∷ h) = reads h

-- The step reads at most `n` frames, whatever the peer answers.
pub record Reads {A : Type 0} (n : ℕ) (m : Step A) : Type 0 where
  pub bound : (w : Wire) → reads (m w).1.trace ≤ n + reads w.trace

module _ {A : Type 0} where
  pub Reads-give : (a : A) → Reads 0 (give a)
  unfolding give
  Reads-give a = record { bound = λ w. ground arith }

  pub Reads-break : (e : Failure) → Reads {A = A} 0 (break e)
  unfolding break
  Reads-break e = record { bound = λ w. ground arith }

  pub Reads-call :
      (e : WireEvent) (reply : Trace → Reply A)
      → ((h : Trace) → reads (e ∷ h) ≡ reads h)
      → Reads 0 (call e reply)
  unfolding call
  Reads-call e reply still = record { bound = λ w. rw (still w.trace) (ground arith) }

  pub Reads-computed : (o : Option A) → Reads 0 (computed o)
  unfolding computed
  Reads-computed none = record { bound = λ w. ground arith }
  Reads-computed (some a) = record { bound = λ w. ground arith }

  pub Reads-if :
      (n : ℕ) (b : Bool) (m k : Step A) → Reads n m → Reads n k → Reads n (if b then m else k)
  Reads-if n true m k rm rk = rm
  Reads-if n false m k rm rk = rk

  pub Reads-more : (n k : ℕ) (m : Step A) → Reads n m → n ≤ k → Reads k m
  Reads-more n k m rm more = record { bound = λ w. let here = rm.bound w in ground arith }

pub Reads-demand : (b : Bool) (c : String) → Reads 0 (demand b c)
unfolding demand
Reads-demand true c = record { bound = λ w. ground arith }
Reads-demand false c = record { bound = λ w. ground arith }

module _ {A B : Type 0} where
  followed_reads :
      (n k : ℕ) (w : Wire) (p : Attempt A × Wire) (f : A → Step B)
      → reads p.1.trace ≤ n + reads w.trace
      → ((a : A) → Reads k (f a))
      → reads (((λ (_ : Wire). p) >>= f) w).1.trace ≤ n + k + reads w.trace
  unfolding ◌>>=◌
  followed_reads n k w (done a, v) f early later = let after = (later a).bound v in ground arith
  followed_reads n k w (broken e, v) f early later = ground arith

  pub Reads-bind :
      (n k : ℕ) (m : Step A) (f : A → Step B)
      → Reads n m
      → ((a : A) → Reads k (f a))
      → Reads (n + k) (m >>= f)
  unfolding ◌>>=◌
  Reads-bind n k m f rm rf = record { bound = λ w. followed_reads n k w (m w) f (rm.bound w) rf }

  pub Reads-then :
      (m : Step A) (f : A → Step B) → Reads 0 m → ((a : A) → Reads 0 (f a)) → Reads 0 (m >>= f)
  Reads-then m f rm rf = Reads-bind 0 0 m f rm rf

pub ruleset still_rules =
    (Reads-give, Reads-break, Reads-computed, Reads-if, Reads-demand, Reads-then, Reads-call)
