-- ===== src/Bridge/Reconcile/Once.antt =====
-- A mutation of src/dcc_mcp_obs/bridge.py is sent once and never again, whatever happens after it.
use dcc_mcp_obs.Base.{
  ℕ, suc, ◌+◌, ◌<◌, ◌≤◌, String, Bool, true, ◌∷◌, ◌++◌, ◌≡◌, refl, ap, ◌∙◌, ◌⊎◌, inl, inr,
  replicate, arith, Bool-cases, Option-cases,
}
use dcc_mcp_obs.Value.{Fields}
use dcc_mcp_obs.Value.Dict.{get}
use dcc_mcp_obs.Value.Check.{is_true}
use dcc_mcp_obs.Result.{Result, ok, err}
use dcc_mcp_obs.Exec.{pure, guard, ◌>>=◌}
use dcc_mcp_obs.Bridge.Host.{Host, read_clock, clock}
use dcc_mcp_obs.Bridge.Constants.{default_operation_timeout_seconds}
use dcc_mcp_obs.Bridge.Accept.{Accepted}
use dcc_mcp_obs.Bridge.Session.{
  Session, checked, deadline_or_default, operation_deadline, acknowledged,
}
use dcc_mcp_obs.Bridge.Session.Effects.{requests, Concludes, checked-Concludes}
use dcc_mcp_obs.Bridge.Reconcile.{settle_by, mutate_then_settle}
use dcc_mcp_obs.Bridge.Reconcile.Trace.{
  Later, Later-trans, Later-history, Shown, Settles, settle-Settles,
}

-- The acknowledgement that came before the readbacks.
pub record Acked (host : Host) (rt : String) (s t : Session) : Type 0 where
  pub response : Fields
  pub event_sequence : ℕ
  pub accepted : is_true (get "accepted" response) ≡ true
  pub passed : Accepted host.library rt s.identity s.event_sequence response event_sequence
  pub earlier : event_sequence < t.event_sequence

-- An answer stands on one acknowledged request followed by readbacks of one type alone, the last of
-- which matches. An error comes before the request, or after it and at most as many readbacks as
-- there are attempts.
abbrev pub MutatesOnce :
    Host
    → String
    → String
    → (Fields → Result Bool)
    → (Fields → Fields)
    → Session
    → Result Fields × Session
    → Type 0
MutatesOnce host rt readback_type matches report s (ok result, t) =
    (k : ℕ) × (readback : Fields) × (k < s.postcondition_attempts)
    × (requests t.history ≡ replicate (suc k) readback_type ++ rt ∷ requests s.history)
    × (result ≡ report readback)
    × Shown matches s t readback
    × Acked host rt s t
    × Later s t
MutatesOnce host rt readback_type matches report s (err e, t) =
    ((requests t.history ≡ requests s.history)
      ⊎ ((k : ℕ) × (k ≤ s.postcondition_attempts)
          × (requests t.history ≡ replicate k readback_type ++ rt ∷ requests s.history)))
    × Later s t

module _ (host : Host) where
  operation_deadline_total :
      (s : Session)
      → (d : ℕ) × (u : Session) × (operation_deadline host s ≡ (ok d, u))
        × (requests u.history ≡ requests s.history)
        × (u.event_sequence ≡ s.event_sequence)
        × Later s u
  unfolding operation_deadline deadline_or_default clock ◌>>=◌
  operation_deadline_total s = elim (Option-cases s.bound_deadline) [
    | inl unbound ↦ (
      host.now s.history + default_operation_timeout_seconds,
      record s { history = read_clock (host.now s.history) ∷ s.history },
      rw unbound,
      refl,
      refl,
      Later-history s _,
    )
    | inr (d, bound) ↦
        (d, record s { history = s.history }, rw bound, refl, refl, Later-history s _)
  ]

module _ (host : Host) (rt : String) (payload : Fields) (readback_type : String)
    (readback_payload : Fields) (matches : Fields → Result Bool) (report : Fields → Fields) where
  -- the loop, from the state that the acknowledgement left
  settled :
      (s t : Session) (response : Fields) (q : Result Fields × Session)
      → Concludes host rt s (ok response, t)
      → is_true (get "accepted" response) ≡ true
      → Settles readback_type matches report t.postcondition_attempts t q
      → MutatesOnce host rt readback_type matches report s q
  settled s t response (ok result, v) (same, sent, acc) yes'
        (k, readback, bound, trace, shape, shown, later) =
      (
        k,
        readback,
        omega (arith, same.attempts),
        trace ∙ ap (λ l. replicate (suc k) readback_type ++ l) sent,
        shape,
        record {
          matched = shown.matched;
          identity = shown.identity ∙ ap ok same.identity;
          sequence = shown.sequence;
          later = omega (arith, acc.later, shown.later);
        },
        record {
          response = response;
          event_sequence = t.event_sequence;
          accepted = yes';
          passed = acc;
          earlier = shown.later;
        },
        Later-trans (record { same = same; grows = omega (arith, acc.later) }) later,
      )
  settled s t response (err e, v) (same, sent, acc) yes' (k, bound, trace, later) = (
    inr (k, omega (arith, same.attempts), trace ∙ ap (λ l. replicate k readback_type ++ l) sent),
    Later-trans (record { same = same; grows = omega (arith, acc.later) }) later,
  )

  acked :
      (deadline : ℕ) (s : Session) (p : Result Fields × Session)
      → Concludes host rt s p
      → MutatesOnce host rt readback_type matches report s (
          ((λ _.
                ((λ _. p) >>= λ response.
                (guard (is_true (get "accepted" response)) "OBS_MUTATION_REJECTED" >>= λ _.
                pure response))
                  s)
              >>= λ _. settle_by host readback_type readback_payload matches report deadline)
            s)
  unfolding settle_by ◌>>=◌
  acked deadline s (ok response, t) c = elim (Bool-cases (is_true (get "accepted" response))) [
    | inl yes' ↦ rw yes' (
        settled s t response _ c yes' (
          settle-Settles host deadline readback_type readback_payload matches report
            t.postcondition_attempts t))
    | inr refused ↦
        rw refused
          (inr (0, omega arith, c.1), record { same = c.0; grows = omega (arith, c.2.later) })
  ]
  acked deadline s (err e, t) (same, inl none_sent, kept) =
      (inl none_sent, record { same = same; grows = omega (arith, kept) })
  acked deadline s (err e, t) (same, inr sent, kept) =
      (inr (0, omega arith, sent), record { same = same; grows = omega (arith, kept) })

  -- reading the clock for the deadline moves the start
  started :
      (s u : Session) (q : Result Fields × Session)
      → requests u.history ≡ requests s.history
      → u.event_sequence ≡ s.event_sequence
      → Later s u
      → MutatesOnce host rt readback_type matches report u q
      → MutatesOnce host rt readback_type matches report s q
  started s u (ok result, t) quiet kept later (k, readback, bound, trace, shape, shown, ack, more) =
      (
        k,
        readback,
        omega (arith, later.same.attempts),
        trace ∙ ap (λ l. replicate (suc k) readback_type ++ rt ∷ l) quiet,
        shape,
        record {
          matched = shown.matched;
          identity = shown.identity ∙ ap ok later.same.identity;
          sequence = shown.sequence;
          later = omega (arith, kept, shown.later);
        },
        record {
          response = ack.response;
          event_sequence = ack.event_sequence;
          accepted = ack.accepted;
          passed = record {
            same = ack.passed.same ∙ ap ok later.same.identity;
            sequence = ack.passed.sequence;
            later = omega (arith, kept, ack.passed.later);
            valid = ack.passed.valid;
          };
          earlier = ack.earlier;
        },
        Later-trans later more,
      )
  started s u (err e, t) quiet kept later (inl before, more) =
      (inl (before ∙ quiet), Later-trans later more)
  started s u (err e, t) quiet kept later (inr (k, bound, trace), more) = (
    inr (
      k,
      omega (arith, later.same.attempts),
      trace ∙ ap (λ l. replicate k readback_type ++ rt ∷ l) quiet,
    ),
    Later-trans later more,
  )

  -- A mutation that waits for its readback sends its request at most once. An answer stands on one
  -- acknowledged request, followed by readbacks of one type only, at most as many as the attempts; the last
  -- of them matches, has the bridge's identity, and carries a later event sequence than the acknowledgement.
  -- An error comes before the request is sent, or after it and at most as many readbacks as there are
  -- attempts. In either case the bridge is the same and its event sequence has not fallen.
  pub mutate_then_settle-MutatesOnce :
      (s : Session)
      → MutatesOnce host rt readback_type matches report s
          (mutate_then_settle host rt payload readback_type readback_payload matches report s)
  unfolding mutate_then_settle acknowledged ◌>>=◌
  mutate_then_settle-MutatesOnce s =
      let (d, u, found, quiet, kept, later) = operation_deadline_total host s in
      rw found (
        started s u _ quiet kept later
          (acked d u (checked host rt payload d u) (checked-Concludes host rt payload d u)))
