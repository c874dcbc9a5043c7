-- ===== src/Transport/Asking.antt =====
-- Steps of src/dcc_mcp_obs/protocol.py that send at most one vendor request, and note it when they do.
use dcc_mcp_obs.Base.{ℕ, suc, String, true, ◌≡◌, refl, ◌∙◌, ap, ◌⊎◌, inl, inr}
use dcc_mcp_obs.Value.{Fields}
use dcc_mcp_obs.Value.Dict.{get, entries}
use dcc_mcp_obs.Bridge.Controls.Arguments.{equals_nat}
use dcc_mcp_obs.Transport.Wire.{
  Peer, Reply, gave, troubled, Attempt, done, broken, Wire, Step, sent, give, call, attempt_of,
  ◌>>=◌,
}
use dcc_mcp_obs.Transport.Deadline.{within_deadline}
use dcc_mcp_obs.Transport.Frames.{mark_request_sent, send_json}
use dcc_mcp_obs.Transport.Handshake.{Endpoint}
use dcc_mcp_obs.Transport.Vendor.{vendor_frame, stamped_frame, exchange}
use dcc_mcp_obs.Transport.Quiet.{Quiet, quiet_rules, IsPlain, Breaks, vendor_sends}
use dcc_mcp_obs.Transport.Steps.{
  remaining-Quiet, within_deadline-Quiet, small_enough-Quiet, set_timeout-Quiet,
  ensure_connected-Quiet, request_stamp-Quiet, receive_response-Quiet, vendor_payload-Quiet,
}

-- one vendor request more has been sent, and it is noted
pub record Asked (w v : Wire) : Type 0 where
  pub noted : v.request_sent ≡ true
  pub once : vendor_sends v.trace ≡ suc (vendor_sends w.trace)

-- none has been sent, and none is noted that was not
pub record Unasked (w v : Wire) : Type 0 where
  pub flag : v.request_sent ≡ w.request_sent
  pub none_sent : vendor_sends v.trace ≡ vendor_sends w.trace

abbrev pub Asks : {A : Type 0} → Wire → Attempt A × Wire → Type 0
Asks w (done a, v) = Asked w v
Asks w (broken e, v) = IsPlain e × (Asked w v ⊎ Unasked w v)

pub record Asking {A : Type 0} (m : Step A) : Type 0 where
  pub at_wire : (w : Wire) → Asks w (m w)

module _ {A B : Type 0} where
  quiet_first :
      (w : Wire) (p : Attempt A × Wire) (f : A → Step B)
      → Breaks p.0
      → p.1.request_sent ≡ w.request_sent
      → vendor_sends p.1.trace ≡ vendor_sends w.trace
      → ((a : A) → Asking (f a))
      → Asks w (((λ (_ : Wire). p) >>= f) w)
  unfolding ◌>>=◌
  quiet_first w (done a, v) f breaks flag sends asking = shifted (f a v) ((asking a).at_wire v)
    where
      later : (u : Wire) → Asked v u → Asked w u
      later u asked = record { noted = asked.noted; once = asked.once ∙ ap suc sends }

      shifted : (q : Attempt B × Wire) → Asks v q → Asks w q
      shifted (done b, u) asked = later u asked
      shifted (broken e, u) (plain, inl asked) = (plain, inl (later u asked))
      shifted (broken e, u) (plain, inr un) =
          (plain, inr (record { flag = un.flag ∙ flag; none_sent = un.none_sent ∙ sends }))
  quiet_first w (broken e, v) f breaks flag sends asking =
      (breaks, inr (record { flag = flag; none_sent = sends }))

  pub Asking-Quiet_first :
      (m : Step A) (f : A → Step B) → Quiet m → ((a : A) → Asking (f a)) → Asking (m >>= f)
  unfolding ◌>>=◌
  Asking-Quiet_first m f quiet asking = record {
    at_wire = λ w. quiet_first w (m w) f (quiet.breaks w) (quiet.flag w) (quiet.sends w) asking;
  }

  Quiet-last :
      (w : Wire) (p : Attempt A × Wire) (f : A → Step B)
      → Asks w p
      → ((a : A) → Quiet (f a))
      → Asks w (((λ (_ : Wire). p) >>= f) w)
  unfolding ◌>>=◌
  Quiet-last w (done a, v) f asked quiet =
      kept (f a v) ((quiet a).breaks v) ((quiet a).flag v) ((quiet a).sends v)
    where
      kept :
          (q : Attempt B × Wire)
          → Breaks q.0
          → q.1.request_sent ≡ v.request_sent
          → vendor_sends q.1.trace ≡ vendor_sends v.trace
          → Asks w q
      kept (done b, u) breaks flag sends = record {
        noted = flag ∙ asked.noted;
        once = sends ∙ asked.once;
      }
      kept (broken e, u) breaks flag sends =
          (breaks, inl (record { noted = flag ∙ asked.noted; once = sends ∙ asked.once }))
  Quiet-last w (broken e, v) f asks quiet = asks

  pub Asking-Quiet_last :
      (m : Step A) (f : A → Step B) → Asking m → ((a : A) → Quiet (f a)) → Asking (m >>= f)
  unfolding ◌>>=◌
  Asking-Quiet_last m f asking quiet = record {
    at_wire = λ w. Quiet-last w (m w) f (asking.at_wire w) quiet;
  }

module _ (peer : Peer) where
  -- the request is noted, and then sent
  noted_send : ℕ → Fields → Step (Unit {0})
  noted_send socket frame = mark_request_sent true >>= λ _.
      call (sent socket frame) (λ h. peer.send h socket (peer.dumps frame))

  sent-Asks : (w v : Wire) (r : Reply (Unit {0})) → Asked w v → Asks w (attempt_of r, v)
  sent-Asks w v (gave a) asked = asked
  sent-Asks w v (troubled t) asked = (tt, inl asked)

  request-Asks :
      (socket : ℕ) (frame : Fields) (w : Wire)
      → equals_nat 6 (get "op" frame) ≡ true
      → Asks w (noted_send socket frame w)
  unfolding noted_send ◌>>=◌ mark_request_sent give call
  request-Asks socket frame w e =
      sent-Asks w _ (peer.send w.trace socket (peer.dumps frame))
        (record { noted = refl; once = rw e })

  tail-Asking :
      (socket : ℕ) (frame : Fields) (deadline : ℕ)
      → equals_nat 6 (get "op" frame) ≡ true
      → Asking (
          mark_request_sent true >>= λ _.
          (call (sent socket frame) (λ h. peer.send h socket (peer.dumps frame)) >>= λ _.
          within_deadline peer deadline))
  unfolding ◌>>=◌ mark_request_sent give noted_send
  tail-Asking socket frame deadline e = record {
    at_wire = λ w.
        Quiet-last w (noted_send socket frame w) (λ _. within_deadline peer deadline)
          (request-Asks socket frame w e) (λ _. within_deadline-Quiet peer deadline);
  }

  send_json-Asking :
      (socket : ℕ) (frame : Fields) (deadline : ℕ)
      → equals_nat 6 (get "op" frame) ≡ true
      → Asking (send_json peer socket frame deadline true)
  unfolding send_json
  send_json-Asking socket frame deadline e = Asking-Quiet_first _ _ (small_enough-Quiet peer _) λ _.
      Asking-Quiet_first _ _ (remaining-Quiet peer deadline) λ left.
        Asking-Quiet_first _ _ (set_timeout-Quiet peer socket left)
          λ _. tail-Asking socket frame deadline e

  request-Asking :
      (socket : ℕ) (stamp : String × ℕ) (rt : String) (payload : Fields) (deadline : ℕ)
      → Asking (send_json peer socket (stamped_frame stamp rt payload) deadline true)
  unfolding stamped_frame vendor_frame entries get equals_nat
  request-Asking socket stamp rt payload deadline =
      send_json-Asking socket (stamped_frame stamp rt payload) deadline refl

pub exchange-Asking :
    (peer : Peer) (endpoint : Endpoint) (rt : String) (payload : Fields) (deadline : ℕ)
    → Asking (exchange peer endpoint rt payload deadline)
unfolding exchange
exchange-Asking peer endpoint rt payload deadline =
    Asking-Quiet_first _ _ (ensure_connected-Quiet peer endpoint deadline) λ socket.
      Asking-Quiet_first _ _ (request_stamp-Quiet peer endpoint deadline) λ stamp.
        Asking-Quiet_last _ _ (request-Asking peer socket stamp rt payload deadline)
          λ _. search (quiet_rules, receive_response-Quiet, vendor_payload-Quiet)
