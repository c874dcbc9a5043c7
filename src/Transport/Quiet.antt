-- ===== src/Transport/Quiet.antt =====
-- Steps of src/dcc_mcp_obs/protocol.py that send no vendor request; one rule for each way to build a
-- step.
use dcc_mcp_obs.Base.{
  ℕ, suc, String, Bool, true, false, List, [], ◌∷◌, Option, none, some, ◌≡◌, refl, ◌∙◌, mem_text,
  if◌then◌else◌,
}
use dcc_mcp_obs.Value.Dict.{get}
use dcc_mcp_obs.Bridge.Controls.Arguments.{equals_nat}
use dcc_mcp_obs.Transport.Wire.{
  Trouble, Failure, protocol_error, trouble, Attempt, done, broken, Reply, gave, troubled,
  WireEvent, Trace, read_clock, read_wall_clock, drew_id, locked, connected, timeout_set, received,
  sent, closed, Wire, Step, give, break, call, attempt_of, computed, demand, ◌>>=◌,
}

-- the codes that a step raises before `vendor_request` chooses its own
abbrev pub plain_errors : List String
plain_errors =
    "OBS_TIMEOUT" ∷ "OBS_FRAME_TOO_LARGE" ∷ "OBS_RESPONSE_INVALID" ∷ "OBS_HANDSHAKE_INVALID"
    ∷ "OBS_VERSION_UNSUPPORTED" ∷ "OBS_AUTHENTICATION_FAILED" ∷ "OBS_RESPONSE_MISMATCH"
    ∷ "OBS_EVENT_OVERFLOW" ∷ "OBS_REQUEST_FAILED" ∷ "OBS_REQUEST_INVALID" ∷ "OBS_CONNECTION_FAILED"
    ∷ []

abbrev pub IsPlain : Failure → Type 0
IsPlain (protocol_error c) = mem_text plain_errors c ≡ true
IsPlain (trouble t) = Unit

abbrev pub Breaks : {A : Type 0} → Attempt A → Type 0
Breaks (done a) = Unit
Breaks (broken e) = IsPlain e

-- how many vendor requests, messages with op 6, have been sent
abbrev pub vendor_sends : Trace → ℕ
vendor_sends [] = 0
vendor_sends (sent k frame ∷ h) =
    let rest = vendor_sends h in if equals_nat 6 (get "op" frame) then suc rest else rest
vendor_sends (read_clock ∷ h) = vendor_sends h
vendor_sends (read_wall_clock ∷ h) = vendor_sends h
vendor_sends (drew_id ∷ h) = vendor_sends h
vendor_sends (locked n ∷ h) = vendor_sends h
vendor_sends (connected url n ∷ h) = vendor_sends h
vendor_sends (timeout_set k n ∷ h) = vendor_sends h
vendor_sends (received k ∷ h) = vendor_sends h
vendor_sends (closed k ∷ h) = vendor_sends h

-- The step sends no vendor request and notes none, and raises plain codes alone.
pub record Quiet {A : Type 0} (m : Step A) : Type 0 where
  pub sends : (w : Wire) → vendor_sends (m w).1.trace ≡ vendor_sends w.trace
  pub flag : (w : Wire) → (m w).1.request_sent ≡ w.request_sent
  pub breaks : (w : Wire) → Breaks (m w).0

module _ {A : Type 0} where
  pub Quiet-give : (a : A) → Quiet (give a)
  unfolding give
  Quiet-give a = record { sends = λ w. refl; flag = λ w. refl; breaks = λ w. tt }

  pub Quiet-break :
      (c : String) → mem_text plain_errors c ≡ true → Quiet {A = A} (break (protocol_error c))
  unfolding break
  Quiet-break c h = record { sends = λ w. refl; flag = λ w. refl; breaks = λ w. h }

  pub Quiet-trouble : (t : Trouble) → Quiet {A = A} (break (trouble t))
  unfolding break
  Quiet-trouble t = record { sends = λ w. refl; flag = λ w. refl; breaks = λ w. tt }

  attempt-Breaks : (r : Reply A) → Breaks (attempt_of r)
  attempt-Breaks (gave a) = tt
  attempt-Breaks (troubled t) = tt

  pub Quiet-call :
      (e : WireEvent) (reply : Trace → Reply A)
      → ((h : Trace) → vendor_sends (e ∷ h) ≡ vendor_sends h)
      → Quiet (call e reply)
  unfolding call
  Quiet-call e reply quiet = record {
    sends = λ w. quiet w.trace;
    flag = λ w. refl;
    breaks = λ w. attempt-Breaks (reply w.trace);
  }

  pub Quiet-computed : (o : Option A) → Quiet (computed o)
  unfolding computed
  Quiet-computed none = record { sends = λ w. refl; flag = λ w. refl; breaks = λ w. tt }
  Quiet-computed (some a) = record { sends = λ w. refl; flag = λ w. refl; breaks = λ w. tt }

  pub Quiet-if : (b : Bool) (m n : Step A) → Quiet m → Quiet n → Quiet (if b then m else n)
  Quiet-if true m n qm qn = qm
  Quiet-if false m n qm qn = qn

pub Quiet-demand : (b : Bool) (c : String) → mem_text plain_errors c ≡ true → Quiet (demand b c)
unfolding demand
Quiet-demand true c h = record { sends = λ w. refl; flag = λ w. refl; breaks = λ w. tt }
Quiet-demand false c h = record { sends = λ w. refl; flag = λ w. refl; breaks = λ w. h }

module _ {A B : Type 0} where
  followed :
      (w : Wire) (p : Attempt A × Wire) (f : A → Step B)
      → vendor_sends p.1.trace ≡ vendor_sends w.trace
      → p.1.request_sent ≡ w.request_sent
      → Breaks p.0
      → ((a : A) → Quiet (f a))
      → (vendor_sends (((λ (_ : Wire). p) >>= f) w).1.trace ≡ vendor_sends w.trace)
        × ((((λ (_ : Wire). p) >>= f) w).1.request_sent ≡ w.request_sent)
        × Breaks (((λ (_ : Wire). p) >>= f) w).0
  unfolding ◌>>=◌
  followed w (done a, v) f sends flag breaks qf =
      ((qf a).sends v ∙ sends, (qf a).flag v ∙ flag, (qf a).breaks v)
  followed w (broken e, v) f sends flag breaks qf = (sends, flag, breaks)

  pub Quiet-bind :
      (m : Step A) (f : A → Step B) → Quiet m → ((a : A) → Quiet (f a)) → Quiet (m >>= f)
  unfolding ◌>>=◌
  Quiet-bind m f qm qf = record {
    sends = λ w. (followed w (m w) f (qm.sends w) (qm.flag w) (qm.breaks w) qf).0;
    flag = λ w. (followed w (m w) f (qm.sends w) (qm.flag w) (qm.breaks w) qf).1;
    breaks = λ w. (followed w (m w) f (qm.sends w) (qm.flag w) (qm.breaks w) qf).2;
  }

pub ruleset quiet_rules =
    (Quiet-give, Quiet-break, Quiet-computed, Quiet-if, Quiet-demand, Quiet-bind, Quiet-call)
