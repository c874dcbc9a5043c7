-- ===== src/Transport/Once.antt =====
-- What `vendor_request` of src/dcc_mcp_obs/protocol.py sends, and what its errors say about that.
use dcc_mcp_obs.Base.{
  ℕ, suc, ◌-◌, ltb, String, Bool, true, false, ◌≡◌, refl, ◌∙◌, ◌⊎◌, inl, inr, Option, none, some,
  ◌∷◌, mem_text, Bool-cases,
}
use dcc_mcp_obs.Value.{Value, str, dict, Fields}
use dcc_mcp_obs.Transport.Wire.{
  Peer, Trouble, timed_out, failed, Reply, gave, troubled, attempt_of, Failure, protocol_error,
  trouble, Attempt, done, broken, Wire, Trace, Step, locked, read_clock, call, demand, ◌>>=◌, ◌>>◌,
}
use dcc_mcp_obs.Transport.Deadline.{clock, remaining}
use dcc_mcp_obs.Transport.Requests.{vendor_requests, mutating_vendor_requests}
use dcc_mcp_obs.Transport.Handshake.{Endpoint}
use dcc_mcp_obs.Transport.Vendor.{
  GivenDeadline, no_deadline, at, too_large, not_finite, disconnect, close_socket, plain_code,
  failure_code, handled, under_lock, given_deadline, accepted_arguments, exchange, vendor_request,
}
use dcc_mcp_obs.Transport.Quiet.{IsPlain, plain_errors, vendor_sends}
use dcc_mcp_obs.Transport.Asking.{Asks, exchange-Asking}

-- `request_type in MUTATING_VENDOR_REQUESTS`
abbrev pub mutates : Value → Bool
mutates (str rt) = mem_text mutating_vendor_requests rt
mutates _ = false

-- The request has been sent: the socket is dropped, and the code of a mutation is the one that says that
-- nobody knows whether it was done.
pub record FailedAfter (mutating : Bool) (before : ℕ) (code : String) (v : Wire) : Type 0 where
  pub once : vendor_sends v.trace ≡ suc before
  pub dropped : v.socket ≡ none
  pub code_of :
      ((mutating ≡ true) × (code ≡ "OBS_UI_INDETERMINATE"))
      ⊎ ((mutating ≡ false) × (mem_text plain_errors code ≡ true))

-- Nothing has been sent: the code is one of the others, whatever the request.
pub record FailedBefore (before : ℕ) (code : String) (v : Wire) : Type 0 where
  pub none_sent : vendor_sends v.trace ≡ before
  pub code_of : mem_text plain_errors code ≡ true

abbrev pub is_too_large : GivenDeadline → Bool
is_too_large too_large = true
is_too_large _ = false

-- is taking the lock the last thing that was tried?
abbrev pub at_lock : Trace → Bool
at_lock (locked left ∷ h) = true
at_lock _ = false

-- Another exception than ProtocolError: it comes of the test of the deadline, or of taking the lock, and
-- nothing has been sent.
pub record Escaped (huge : Bool) (before : ℕ) (e : Failure) (v : Wire) : Type 0 where
  pub kind : Trouble
  pub same : e ≡ trouble kind
  pub origin : (huge ≡ true) ⊎ (at_lock v.trace ≡ true)
  pub none_sent : vendor_sends v.trace ≡ before

-- `before` vendor requests have been sent before the call, and `huge` is whether the deadline that was
-- given is an int that is too large for a float.
abbrev pub VendorResult : Bool → Bool → ℕ → Attempt Fields × Wire → Type 0
VendorResult huge mutating before (done payload, v) = vendor_sends v.trace ≡ suc before
VendorResult huge mutating before (broken e, v) =
    ((code : String) × (e ≡ protocol_error code)
      × (FailedAfter mutating before code v ⊎ FailedBefore before code v))
    ⊎ Escaped huge before e v

module _ (peer : Peer) (endpoint : Endpoint) where
  plain_code-plain :
      (e : Failure) → IsPlain e → mem_text plain_errors (plain_code peer endpoint e) ≡ true
  unfolding plain_code
  plain_code-plain (protocol_error c) h = h
  plain_code-plain (trouble timed_out) h = refl
  plain_code-plain (trouble failed) h = refl

  disconnect-sends : (w : Wire) → vendor_sends (disconnect w).trace ≡ vendor_sends w.trace
  unfolding disconnect
  disconnect-sends w = go w.socket
    where
      go : (o : Option ℕ) → vendor_sends (close_socket o w).trace ≡ vendor_sends w.trace
      go none = refl
      go (some k) = refl

  disconnect-drops : (w : Wire) → (disconnect w).socket ≡ none
  unfolding disconnect
  disconnect-drops w = go w.socket refl
    where
      go : (o : Option ℕ) → w.socket ≡ o → (close_socket o w).socket ≡ none
      go none e = e
      go (some k) e = refl

  asked_code :
      (mutating : Bool) (e : Failure)
      → IsPlain e
      → ((mutating ≡ true) × (failure_code peer endpoint true mutating e ≡ "OBS_UI_INDETERMINATE"))
        ⊎ ((mutating ≡ false)
            × (mem_text plain_errors (failure_code peer endpoint true mutating e) ≡ true))
  unfolding failure_code
  asked_code true e plain = inl (refl, refl)
  asked_code false e plain = inr (refl, plain_code-plain e plain)

  timed : String → Fields → ℕ → Step Fields
  timed rt fields deadline = do
    left ← remaining peer deadline
    acquired ← call (locked left) (λ h. peer.acquire h left)
    demand acquired "OBS_TIMEOUT"
    under_lock peer endpoint rt fields deadline

module _ (peer : Peer) (endpoint : Endpoint) (huge : Bool) where
  handled-VendorResult :
      (rt : String) (w : Wire) (p : Attempt Fields × Wire)
      → w.request_sent ≡ false
      → Asks w p
      → VendorResult huge
          (mem_text mutating_vendor_requests rt)
          (vendor_sends w.trace)
          (handled peer endpoint rt p)
  unfolding failure_code
  handled-VendorResult rt w (done payload, v) unset asked = asked.once
  handled-VendorResult rt w (broken e, v) unset (plain, inl asked) = inl (
    failure_code peer endpoint v.request_sent (mem_text mutating_vendor_requests rt) e,
    refl,
    inl (record {
      once = disconnect-sends peer endpoint v ∙ asked.once;
      dropped = disconnect-drops peer endpoint v;
      code_of =
          rw asked.noted (asked_code peer endpoint (mem_text mutating_vendor_requests rt) e plain);
    }),
  )
  handled-VendorResult rt w (broken e, v) unset (plain, inr un) = inl (
    failure_code peer endpoint v.request_sent (mem_text mutating_vendor_requests rt) e,
    refl,
    inr (record {
      none_sent = disconnect-sends peer endpoint v ∙ un.none_sent;
      code_of = rw (un.flag ∙ unset) (plain_code-plain peer endpoint e plain);
    }),
  )

  under_lock-VendorResult :
      (rt : String) (payload : Fields) (deadline : ℕ) (w : Wire)
      → VendorResult huge
          (mem_text mutating_vendor_requests rt)
          (vendor_sends w.trace)
          (under_lock peer endpoint rt payload deadline w)
  unfolding under_lock
  under_lock-VendorResult rt payload deadline w =
      let start = record w { request_sent = false } in
      handled-VendorResult rt start (exchange peer endpoint rt payload deadline start) refl
        ((exchange-Asking peer endpoint rt payload deadline).at_wire start)

  -- a failure before the lock is held
  refused :
      (mutating : Bool) (before : ℕ) (code : String) (v : Wire)
      → vendor_sends v.trace ≡ before
      → mem_text plain_errors code ≡ true
      → VendorResult huge mutating before (broken (protocol_error code), v)
  refused mutating before code v sends plain =
      inl (code, refl, inr (record { none_sent = sends; code_of = plain }))

  escaped :
      (mutating : Bool) (kind : Trouble) (v : Wire)
      → (huge ≡ true) ⊎ (at_lock v.trace ≡ true)
      → VendorResult huge mutating (vendor_sends v.trace) (broken (trouble kind), v)
  escaped mutating kind v from =
      inr (record { kind = kind; same = refl; origin = from; none_sent = refl })

  locked-VendorResult :
      (rt : String) (fields : Fields) (deadline : ℕ) (w : Wire) (r : Reply Bool)
      → at_lock w.trace ≡ true
      → VendorResult huge (mem_text mutating_vendor_requests rt) (vendor_sends w.trace) (
          ((λ _. (attempt_of r, w)) >>= λ acquired.
          demand acquired "OBS_TIMEOUT" >>= λ _. under_lock peer endpoint rt fields deadline)
            w)
  unfolding ◌>>=◌ demand
  locked-VendorResult rt fields deadline w (troubled t) last = escaped _ t w (inr last)
  locked-VendorResult rt fields deadline w (gave false) last = refused _ _ "OBS_TIMEOUT" w refl refl
  locked-VendorResult rt fields deadline w (gave true) last =
      under_lock-VendorResult rt fields deadline w

  timed-VendorResult :
      (rt : String) (fields : Fields) (deadline : ℕ) (w : Wire)
      → VendorResult huge
          (mem_text mutating_vendor_requests rt)
          (vendor_sends w.trace)
          (timed peer endpoint rt fields deadline w)
  unfolding timed remaining clock ◌>>=◌
  timed-VendorResult rt fields deadline w =
      let now = peer.now w.trace in
      let h = read_clock ∷ w.trace in
      let left = deadline - now in
      elim (Bool-cases (ltb now deadline)) [
        | inr late ↦ rw late (refused _ _ "OBS_TIMEOUT" (record w { trace = h }) refl refl)
        | inl early ↦ rw early (
            locked-VendorResult rt fields deadline (record w { trace = locked left ∷ h })
              (peer.acquire h left) refl)
      ]

module _ (peer : Peer) (endpoint : Endpoint) where
  given-VendorResult :
      (rt : String) (fields : Fields) (given : GivenDeadline) (w : Wire)
      → VendorResult
          (is_too_large given)
          (mem_text mutating_vendor_requests rt)
          (vendor_sends w.trace)
          ((given_deadline peer endpoint given >>= timed peer endpoint rt fields) w)
  unfolding ◌>>=◌ given_deadline clock
  given-VendorResult rt fields no_deadline w =
      timed-VendorResult peer endpoint false rt fields _ (record w { trace = read_clock ∷ w.trace })
  given-VendorResult rt fields (at deadline) w =
      timed-VendorResult peer endpoint false rt fields deadline w
  given-VendorResult rt fields too_large w = escaped peer endpoint true _ failed w (inl refl)
  given-VendorResult rt fields not_finite w =
      refused peer endpoint false _ _ "OBS_REQUEST_INVALID" w refl refl

  known-VendorResult :
      (rt : String) (fields : Fields) (given : GivenDeadline) (w : Wire)
      → VendorResult
          (is_too_large given)
          (mem_text mutating_vendor_requests rt)
          (vendor_sends w.trace)
          (vendor_request peer endpoint (str rt) (dict fields) given w)
  unfolding vendor_request accepted_arguments timed ◌>>=◌
  known-VendorResult rt fields given w = elim (Bool-cases (mem_text vendor_requests rt)) [
    | inl known ↦ rw known (given-VendorResult rt fields given w)
    | inr unknown ↦
        rw unknown
          (refused peer endpoint (is_too_large given) _ _ "OBS_REQUEST_INVALID" w refl refl)
  ]

  -- A vendor request is sent at most once. If it answers, it has been sent. If it fails, then either
  -- nothing has been sent, and an exception that is no ProtocolError comes of a deadline that is too large
  -- for a float or of taking the lock, or it raises ProtocolError with a code: where it has been sent, the socket is dropped, and the code is
  -- OBS_UI_INDETERMINATE for a mutating request and one of the others for any other; where it has not
  -- been sent, the code is one of the others, whatever the request is.
  pub vendor_request-VendorResult :
      (request_type payload : Value) (given : GivenDeadline) (w : Wire)
      → VendorResult
          (is_too_large given)
          (mutates request_type)
          (vendor_sends w.trace)
          (vendor_request peer endpoint request_type payload given w)
  unfolding vendor_request accepted_arguments ◌>>=◌
  vendor_request-VendorResult (str rt) (dict fields) given w = known-VendorResult rt fields given w
  vendor_request-VendorResult rt payload given w =
      refused peer endpoint (is_too_large given) (mutates rt) (vendor_sends w.trace)
        "OBS_REQUEST_INVALID" w refl refl
