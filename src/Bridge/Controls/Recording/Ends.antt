-- ===== src/Bridge/Controls/Recording/Ends.antt =====
-- The loop of `_recording_mutation` (src/dcc_mcp_obs/bridge.py) ends: each round that goes on sleeps,
-- and none goes on past the deadline.
use dcc_mcp_obs.Base.{
  none, ℕ, zero, suc, ◌+◌, ◌-◌, ◌<◌, ◌≤◌, min, ◌∷◌, Bool, true, false, not, ◌&&◌, ◌≡◌, refl, inl,
  inr, leb, ltb, arith, Bool-cases, if◌then◌else◌, String, mem_text,
}
use dcc_mcp_obs.Value.{Fields, end, Value, null, str}
use dcc_mcp_obs.Result.{bridge_error, Result, ok, err}
use dcc_mcp_obs.Result.Fails.{Fails, Fails-if, Fails-ok, Fails-err}
use dcc_mcp_obs.Exec.{Exec, lift, pure, ◌>>=◌}
use dcc_mcp_obs.Bridge.Constants.{public_downstream_errors, stop_recording_return_margin_seconds}
use dcc_mcp_obs.Bridge.Host.{
  Library, Host, Event, History, Outcome, returned, raised, requested, read_clock, slept, clock,
  sleep, vendor_request,
}
use dcc_mcp_obs.Bridge.Request.{receive, request}
use dcc_mcp_obs.Bridge.Session.{
  Session, on_history, conclude, checked, operation_deadline, acknowledged,
}
use dcc_mcp_obs.Bridge.Reconcile.Trace.{Later, Later-trans, Later-refl, Later-history}
use dcc_mcp_obs.Bridge.Published.{IsPublished, published_errors}
use dcc_mcp_obs.Bridge.Sound.{IsSound, IsSound-lift}
use dcc_mcp_obs.Bridge.Sound.Exchange.{checked-IsSound}
use dcc_mcp_obs.Bridge.Sound.Loops.{operation_deadline-IsSound, acknowledged-IsSound}
use dcc_mcp_obs.Bridge.Controls.Recording.{
  Target, state_matches, wait_or_end, judge_recording, record_loop, recording_mutation,
  require_absolute_directory, some_directory, directory_argument, start_recording,
}

-- What `time.monotonic` and `time.sleep` document: the clock never goes back, and a sleep lasts at
-- least as long as it is asked to.
pub record IsMonotonic (host : Host) : Type 0 where
  pub forward : (e : Event) (h : History) → host.now h ≤ host.now (e ∷ h)
  pub lasts : (d : ℕ) (h : History) → host.now h + d ≤ host.now (slept d ∷ h)

-- The way `p` in which an action from `s` has ended is that of a sound one.
pub record Ends (s : Session) (p : Result Fields × Session) : Type 0 where
  pub later : Later s p.1
  pub published : Fails IsPublished p.0

Ends-trans : {s t : Session} {p : Result Fields × Session} → Later s t → Ends t p → Ends s p
Ends-trans later e = record { later = Later-trans later e.later; published = e.published }

Ends-if :
    {s : Session} (t : Session) (b : Bool) (m n : Exec Session Fields)
    → (b ≡ true → Ends s (m t))
    → (b ≡ false → Ends s (n t))
    → Ends s ((if b then m else n) t)
Ends-if t true m n em en = em refl
Ends-if t false m n em en = en refl

raised-Ends :
    {s t : Session} (c : String)
    → mem_text published_errors c ≡ true
    → Later s t
    → Ends s (err (bridge_error c), t)
raised-Ends c h later = record { later = later; published = Fails-err _ h }

module _ (host : Host) (ticks : IsMonotonic host) where
  receive_forward :
      (deadline : ℕ) (o : Outcome) (h : History)
      → host.now h ≤ host.now (receive host deadline o h).1
  unfolding receive clock ◌>>=◌
  receive_forward deadline (raised code) h = omega arith
  receive_forward deadline (returned v) h = elim (Bool-cases (leb (host.now h) deadline)) [
    | inl early ↦ rw early (ticks.forward (read_clock (host.now h)) h)
    | inr late ↦ rw late (ticks.forward (read_clock (host.now h)) h)
  ]

  request_forward :
      (rt : String) (payload : Fields) (deadline : ℕ) (h : History)
      → host.now h ≤ host.now (request host rt payload deadline h).1
  unfolding request clock vendor_request ◌>>=◌
  request_forward rt payload deadline h =
      let read = ticks.forward (read_clock (host.now h)) h in
      let h' = read_clock (host.now h) ∷ h in
      let o = host.reply h' rt payload deadline in
      let sent = ticks.forward (requested rt payload deadline o) h' in
      let got = receive_forward deadline o (requested rt payload deadline o ∷ h') in
      elim (Bool-cases (ltb (host.now h) deadline)) [
        | inl early ↦ rw early (omega (arith, read, sent, got))
        | inr late ↦ rw late read
      ]

  conclude-history :
      (rt : String) (response : Fields) (s : Session)
      → (conclude host rt response s).1.history ≡ s.history
  unfolding conclude ◌>>=◌
  conclude-history rt response s = ground arith

  checked_forward :
      (rt : String) (payload : Fields) (deadline : ℕ) (s : Session)
      → host.now s.history ≤ host.now (checked host rt payload deadline s).1.history
  unfolding checked on_history ◌>>=◌
  checked_forward rt payload deadline s =
      go (request host rt payload deadline s.history)
        (request_forward rt payload deadline s.history)
    where
      go :
          (p : Result Fields × History)
          → host.now s.history ≤ host.now p.1
          → host.now s.history ≤ host.now ((on_history (λ _. p) >>= conclude host rt) s).1.history
      go (ok response, h) forward =
          rw (conclude-history rt response (record s { history = h })) forward
      go (err e, h) forward = forward

  module _ (target : Target) (deadline : ℕ) where
    -- a round that goes on starts the next at a later tick, before the deadline
    wait_or_end-Ends :
        (attempt : ℕ) (retry : Exec Session Fields) (readback : Fields) (t : Session)
        → (host.now t.history < deadline
            → (u : Session) → host.now t.history < host.now u.history
            → Later t u
            → Ends u (retry u))
        → 1 ≤ t.postcondition_poll_seconds
        → Ends t (wait_or_end host target deadline attempt retry readback t)
    unfolding wait_or_end clock sleep on_history ◌>>=◌ published_errors public_downstream_errors
    wait_or_end-Ends attempt retry readback t ih interval =
        let now = host.now t.history in
        let h = read_clock now ∷ t.history in
        let u = record t { history = h } in
        let nap = min t.postcondition_poll_seconds (deadline - now) in
        let v = record t { history = slept nap ∷ h } in
        let read = Later-history t h in
        let rested = Later-history t (slept nap ∷ h) in
        let margin = target.stopping && leb (deadline - now) stop_recording_return_margin_seconds in
        let spent = not target.stopping && leb t.postcondition_attempts attempt in
        elim (Bool-cases margin) [
          | inl e ↦ rw e (record { later = read; published = Fails-ok _ })
          | inr e ↦ rw e (elim (Bool-cases spent) [
            | inl f ↦ rw f (raised-Ends "OBS_POSTCONDITION_FAILED" refl read)
            | inr f ↦ rw f (elim (Bool-cases (leb deadline now)) [
              | inl g ↦ rw g (raised-Ends "OBS_TIMEOUT" refl read)
              | inr g ↦ rw g (
                  Ends-trans rested (
                    ih (ground arith) v
                      (ground (arith, ticks.forward (read_clock now) t.history, ticks.lasts nap h))
                      rested))
            ])
          ])
        ]

    judge_recording-Ends :
        (attempt : ℕ) (retry : Exec Session Fields) (readback : Fields) (t : Session)
        → (host.now t.history < deadline
            → (u : Session) → host.now t.history < host.now u.history
            → Later t u
            → Ends u (retry u))
        → 1 ≤ t.postcondition_poll_seconds
        → Ends t (judge_recording host target deadline attempt retry readback t)
    unfolding judge_recording pure
    judge_recording-Ends attempt retry readback t ih interval =
        Ends-if t (state_matches host.library target readback) _ _
          (λ matched. record { later = Later-refl t; published = Fails-ok _ })
          (λ other. wait_or_end-Ends attempt retry readback t ih interval)

    -- a round, by the way its readback has ended
    round-Ends :
        (attempt : ℕ) (retry : Exec Session Fields) (s : Session) (p : Result Fields × Session)
        → Later s p.1
        → Fails IsPublished p.0
        → host.now s.history ≤ host.now p.1.history
        → (host.now s.history < deadline
            → (u : Session) → host.now s.history < host.now u.history
            → Later s u
            → Ends u (retry u))
        → 1 ≤ s.postcondition_poll_seconds
        → Ends s (((λ _. p) >>= judge_recording host target deadline attempt retry) s)
    unfolding ◌>>=◌
    round-Ends attempt retry s (err e, t) later published forward ih interval = record {
      later = later;
      published = Fails-err e (published.because e refl);
    }
    round-Ends attempt retry s (ok readback, t) later published forward ih interval =
        Ends-trans later (
          judge_recording-Ends attempt retry readback t
            (λ before u past more. ih (omega arith) u (omega arith) (Later-trans later more))
            (omega (arith, later.same.interval)))

    pub record_loop-Ends :
        (fuel attempt : ℕ) (s : Session)
        → deadline < host.now s.history + fuel
        → 0 < fuel
        → 1 ≤ s.postcondition_poll_seconds
        → Ends s (record_loop host target deadline fuel attempt s)
    unfolding record_loop ◌>>=◌
    record_loop-Ends zero attempt s enough some_fuel interval = absurd (omega arith)
    record_loop-Ends (suc fuel) attempt s enough some_fuel interval =
        let sound = checked-IsSound host "GetRecordingStatus" end deadline in
        round-Ends (suc attempt) (record_loop host target deadline fuel (suc attempt)) s
          (checked host "GetRecordingStatus" end deadline s) (sound.later s) (sound.published s)
          (checked_forward "GetRecordingStatus" end deadline s)
          (λ before u past more.
            record_loop-Ends fuel (suc attempt) u (omega arith) (omega arith)
              (omega (arith, more.same.interval)))
          interval

module _ {A : Type 0} where
  after-Ends :
      (s : Session) (p : Result A × Session) (f : A → Exec Session Fields)
      → Later s p.1
      → Fails IsPublished p.0
      → ((a : A) (t : Session) → Later s t → Ends t (f a t))
      → Ends s (((λ _. p) >>= f) s)
  unfolding ◌>>=◌
  after-Ends s (ok a, t) f later published ends = Ends-trans later (ends a t later)
  after-Ends s (err e, t) f later published ends = record {
    later = later;
    published = Fails-err e (published.because e refl);
  }

  bind-Ends :
      (m : Exec Session A) (f : A → Exec Session Fields) (s : Session)
      → IsSound m
      → ((a : A) (t : Session) → Later s t → Ends t (f a t))
      → Ends s ((m >>= f) s)
  unfolding ◌>>=◌
  bind-Ends m f s sound ends = after-Ends s (m s) f (sound.later s) (sound.published s) ends

-- A recording mutation ends with an answer, or with an error that has a published code or is an exception
-- of Python's own, never out of fuel, on the same bridge and however OBS answers, if the clock never
-- goes back, a sleep lasts as long as asked, and the interval between two readbacks is at least one tick.
pub recording_mutation-Ends :
    (host : Host)
    → IsMonotonic host
    → (rt : String) (target : Target) (payload : Fields) (s : Session)
    → 1 ≤ s.postcondition_poll_seconds
    → Ends s (recording_mutation host rt target payload s)
unfolding recording_mutation
recording_mutation-Ends host ticks rt target payload s interval =
    bind-Ends (operation_deadline host) _ s (operation_deadline-IsSound host) λ deadline t later.
      bind-Ends (acknowledged host rt payload deadline) _ t
        (acknowledged-IsSound host rt payload deadline)
        λ accepted u more.
          record_loop-Ends host ticks target deadline (suc deadline) 0 u (omega arith) (omega arith)
            (omega (arith, later.same.interval, more.same.interval))

pub sound-Ends : {m : Exec Session Fields} → IsSound m → (s : Session) → Ends s (m s)
sound-Ends sound s = record { later = sound.later s; published = sound.published s }

refused-Fails :
    {A : Type 0} → Fails {A = A} IsPublished (err (bridge_error "OBS_RECORDING_PATH_INVALID"))
unfolding published_errors public_downstream_errors
refused-Fails = Fails-err _ refl

require_absolute_directory-Fails :
    (lib : Library) (v : Value) → Fails IsPublished (require_absolute_directory lib v)
unfolding require_absolute_directory
require_absolute_directory-Fails lib (str s) = Fails-if _ _ _ (Fails-ok s) refused-Fails
require_absolute_directory-Fails lib _ = refused-Fails

some_directory-Fails :
    (r : Result String) → Fails IsPublished r → Fails IsPublished (some_directory r)
unfolding some_directory
some_directory-Fails (ok s) f = Fails-ok _
some_directory-Fails (err e) f = Fails-err e (f.because e refl)

directory_argument-Fails :
    (lib : Library) (v : Value) → Fails IsPublished (directory_argument lib v)
unfolding directory_argument
directory_argument-Fails lib null = Fails-ok none
directory_argument-Fails lib v = search (some_directory-Fails, require_absolute_directory-Fails)

pub start_recording-Ends :
    (host : Host)
    → IsMonotonic host
    → (output_directory : Value) (s : Session) → 1 ≤ s.postcondition_poll_seconds
    → Ends s (start_recording host output_directory s)
unfolding start_recording
start_recording-Ends host ticks output_directory s interval =
    bind-Ends (lift (directory_argument host.library output_directory)) _ s
      (IsSound-lift _ (directory_argument-Fails host.library output_directory))
      λ directory t later.
        recording_mutation-Ends host ticks _ _ _ t (omega (arith, later.same.interval))
