-- ===== src/Bridge/Session/Effects.antt =====
-- What one `_checked` call does to the bridge and to the history, however it ends.
use dcc_mcp_obs.Base.{ℕ, String, List, [], ◌∷◌, ◌≡◌, refl, ◌⊎◌, inl, inr, ltb, arith, Bool-cases}
use dcc_mcp_obs.Value.{Fields}
use dcc_mcp_obs.Result.{Result, ok, err}
use dcc_mcp_obs.Exec.{◌>>=◌}
use dcc_mcp_obs.Bridge.Host.{
  Host, History, Outcome, returned, raised, read_clock, requested, slept, clock, vendor_request,
}
use dcc_mcp_obs.Bridge.Request.{receive, request, accepted_response}
use dcc_mcp_obs.Bridge.Accept.{Accepted, accept, accept-Accepted}
use dcc_mcp_obs.Bridge.Session.{Session, on_history, conclude, checked}

-- The request types sent, the latest first.
abbrev pub requests : History → List String
requests [] = []
requests (requested rt payload deadline outcome ∷ h) = rt ∷ requests h
requests (read_clock t ∷ h) = requests h
requests (slept t ∷ h) = requests h

-- Nothing but the history and the event sequence has changed.
pub record SameBridge (s t : Session) : Type 0 where
  pub attempts : t.postcondition_attempts ≡ s.postcondition_attempts
  pub interval : t.postcondition_poll_seconds ≡ s.postcondition_poll_seconds
  pub deadline : t.bound_deadline ≡ s.bound_deadline
  pub identity : t.identity ≡ s.identity

-- A call that fails has left the event sequence alone; a call that returns has accepted the response
-- against the identity and the sequence that the bridge held.
abbrev pub Concludes : Host → String → Session → Result Fields × Session → Type 0
Concludes host rt s (ok response, t) =
    SameBridge s t
    × (requests t.history ≡ rt ∷ requests s.history)
    × Accepted host.library rt s.identity s.event_sequence response t.event_sequence
Concludes host rt s (err e, t) =
    SameBridge s t
    × ((requests t.history ≡ requests s.history) ⊎ (requests t.history ≡ rt ∷ requests s.history))
    × (t.event_sequence ≡ s.event_sequence)

abbrev Sends : String → History → Result Fields × History → Type 0
Sends rt h (ok response, h') = requests h' ≡ rt ∷ requests h
Sends rt h (err e, h') = (requests h' ≡ requests h) ⊎ (requests h' ≡ rt ∷ requests h)

module _ (host : Host) (rt : String) (payload : Fields) (deadline : ℕ) where
  receive-Sends :
      (h : History) (outcome : Outcome)
      → Sends rt h (receive host deadline outcome (requested rt payload deadline outcome ∷ h))
  unfolding receive clock accepted_response ◌>>=◌
  receive-Sends h (raised code) = inr refl
  receive-Sends h (returned response) = ground arith

  request-Sends : (h : History) → Sends rt h (request host rt payload deadline h)
  unfolding request clock vendor_request ◌>>=◌
  request-Sends h = elim (Bool-cases (ltb (host.now h) deadline)) [
    | inl early ↦ rw early (receive-Sends (read_clock (host.now h) ∷ h) _)
    | inr late ↦ rw late (inl refl)
  ]

  -- the response is judged in a state that differs from `s` in its history alone
  judged :
      (s : Session) (response : Fields) (h : History) (verdict : Result ℕ)
      → requests h ≡ rt ∷ requests s.history
      → accept host.library rt s.identity s.event_sequence response ≡ verdict
      → Concludes host rt s (conclude host rt response (record s { history = h }))
  unfolding conclude ◌>>=◌
  judged s response h (ok n) sent e = rw e (
    record { attempts = refl; interval = refl; deadline = refl; identity = refl },
    sent,
    accept-Accepted host.library rt s.identity s.event_sequence response e,
  )
  judged s response h (err c) sent e = rw e (
    record { attempts = refl; interval = refl; deadline = refl; identity = refl },
    inr sent,
    refl,
  )

  after :
      (s : Session) (p : Result Fields × History)
      → Sends rt s.history p
      → Concludes host rt s ((on_history (λ _. p) >>= conclude host rt) s)
  unfolding on_history ◌>>=◌
  after s (ok response, h) sent = judged s response h _ sent refl
  after s (err e, h) sent =
      (record { attempts = refl; interval = refl; deadline = refl; identity = refl }, sent, refl)

  -- However a `_checked` call ends, it has sent its request at most once and changed nothing but the
  -- history and the event sequence. If it returns a response, that response was sent for and accepted, and
  -- the event sequence is the response's. If it fails, the event sequence is as it was.
  pub checked-Concludes : (s : Session) → Concludes host rt s (checked host rt payload deadline s)
  unfolding checked on_history ◌>>=◌
  checked-Concludes s =
      after s (request host rt payload deadline s.history) (request-Sends s.history)
