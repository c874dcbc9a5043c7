-- ===== src/Bridge/Reconcile/Trace.antt =====
-- What a mutation of src/dcc_mcp_obs/bridge.py sends, and what its answer rests on.
use dcc_mcp_obs.Base.{
  ℕ, zero, suc, ◌<◌, ◌≤◌, String, Bool, true, false, List, ◌∷◌, ◌++◌, ◌≡◌, refl, ap, ◌∙◌, inl, inr,
  replicate, ltb, arith, Bool-cases,
}
use dcc_mcp_obs.Value.{Fields}
use dcc_mcp_obs.Result.{Result, ok, err}
use dcc_mcp_obs.Exec.{Exec, ◌>>=◌}
use dcc_mcp_obs.Bridge.Host.{Host, History, clock, sleep}
use dcc_mcp_obs.Bridge.Identity.{parse_identity, parse_event_sequence}
use dcc_mcp_obs.Bridge.Session.{Session, on_history, checked, poll}
use dcc_mcp_obs.Bridge.Session.Effects.{requests, SameBridge, Concludes, checked-Concludes}
use dcc_mcp_obs.Bridge.Reconcile.{poll_unless_last, judge, settle}

pub replicate-snoc {ℓ} :
    {A : Type ℓ} (k : ℕ) (a : A) (l : List A) → replicate k a ++ a ∷ l ≡ replicate (suc k) a ++ l
replicate-snoc zero a l = refl
replicate-snoc (suc k) a l = ap (λ r. a ∷ r) (replicate-snoc k a l)

-- What stands between two states of a bridge: the same bridge, and a sequence that never falls.
pub record Later (s t : Session) : Type 0 where
  pub same : SameBridge s t
  pub grows : s.event_sequence ≤ t.event_sequence

pub Later-trans : {s t u : Session} → Later s t → Later t u → Later s u
Later-trans a b = record {
  same = record {
    attempts = b.same.attempts ∙ a.same.attempts;
    interval = b.same.interval ∙ a.same.interval;
    deadline = b.same.deadline ∙ a.same.deadline;
    identity = b.same.identity ∙ a.same.identity;
  };
  grows = omega arith;
}

pub Later-refl : (s : Session) → Later s s
Later-refl s = record {
  same = record { attempts = refl; interval = refl; deadline = refl; identity = refl };
  grows = omega arith;
}

pub Later-history : (s : Session) (h : History) → Later s (record s { history = h })
Later-history s h = record {
  same = record { attempts = refl; interval = refl; deadline = refl; identity = refl };
  grows = omega arith;
}

-- The readback on which a verified answer rests.
pub record Shown (matches : Fields → Result Bool) (s t : Session) (readback : Fields) : Type 0 where
  pub matched : matches readback ≡ ok true
  pub identity : parse_identity readback ≡ ok s.identity
  pub sequence : parse_event_sequence readback ≡ ok t.event_sequence
  pub later : s.event_sequence < t.event_sequence

-- A loop of `n` readbacks of type `rt` at most: an answer rests on the last, which matches.
abbrev pub Settles :
    String
    → (Fields → Result Bool)
    → (Fields → Fields)
    → ℕ
    → Session
    → Result Fields × Session
    → Type 0
Settles rt matches report n s (ok result, t) =
    (k : ℕ) × (readback : Fields) × (k < n)
    × (requests t.history ≡ replicate (suc k) rt ++ requests s.history)
    × (result ≡ report readback)
    × Shown matches s t readback
    × Later s t
Settles rt matches report n s (err e, t) =
    (k : ℕ) × (k ≤ n) × (requests t.history ≡ replicate k rt ++ requests s.history) × Later s t

-- An action that sends nothing and keeps the bridge.
pub record Silent {A : Type 0} (m : Exec Session A) : Type 0 where
  pub at :
      (s : Session)
      → (requests (m s).1.history ≡ requests s.history)
        × Later s (m s).1
        × ((m s).1.event_sequence ≡ s.event_sequence)

module _ (host : Host) (deadline : ℕ) where
  poll-Silent : Silent (poll host deadline)
  unfolding poll on_history clock sleep ◌>>=◌
  poll-Silent = record {
    at = λ s. elim (Bool-cases (ltb (host.now s.history) deadline)) [
      | inl early ↦ rw early (refl, Later-history s _, refl)
      | inr late ↦ rw late (refl, Later-history s _, refl)
    ];
  }

  poll_unless_last-Silent : (n : ℕ) → Silent (poll_unless_last host deadline n)
  unfolding poll_unless_last ◌>>=◌
  poll_unless_last-Silent zero = record { at = λ s. (refl, Later-refl s, refl) }
  poll_unless_last-Silent (suc n) = poll-Silent

module _ (rt : String) (matches : Fields → Result Bool) (report : Fields → Fields) where
  -- one readback more, sent before the loop began
  Settles-shift :
      (n : ℕ) (s u : Session) (q : Result Fields × Session)
      → requests u.history ≡ rt ∷ requests s.history
      → Later s u
      → Settles rt matches report n u q
      → Settles rt matches report (suc n) s q
  Settles-shift n s u (ok result, t) sent later (k, readback, bound, trace, shape, shown, more) = (
    suc k,
    readback,
    omega arith,
    trace
        ∙ ap (λ l. replicate (suc k) rt ++ l) sent
        ∙ replicate-snoc (suc k) rt (requests s.history),
    shape,
    record {
      matched = shown.matched;
      identity = shown.identity ∙ ap ok later.same.identity;
      sequence = shown.sequence;
      later = omega (arith, later.grows, shown.later);
    },
    Later-trans later more,
  )
  Settles-shift n s u (err e, t) sent later (k, bound, trace, more) = (
    suc k,
    omega arith,
    trace ∙ ap (λ l. replicate k rt ++ l) sent ∙ replicate-snoc k rt (requests s.history),
    Later-trans later more,
  )

module _ (host : Host) (deadline : ℕ) (rt : String) (payload : Fields)
    (matches : Fields → Result Bool) (report : Fields → Fields) where
  polled :
      (n : ℕ) (s t : Session) (retry : Exec Session Fields) (p : Result (Unit {0}) × Session)
      → ((u : Session) → Settles rt matches report n u (retry u))
      → requests t.history ≡ rt ∷ requests s.history
      → Later s t
      → requests p.1.history ≡ requests t.history
      → Later t p.1
      → Settles rt matches report (suc n) s (((λ _. p) >>= λ _. retry) t)
  unfolding ◌>>=◌
  polled n s t retry (ok _, u) ih sent later quiet more =
      Settles-shift rt matches report n s u (retry u) (quiet ∙ sent) (Later-trans later more) (ih u)
  polled n s t retry (err e, u) ih sent later quiet more =
      (1, omega arith, quiet ∙ sent, Later-trans later more)

  judge-Settles :
      (n : ℕ) (s t : Session) (retry : Exec Session Fields) (readback : Fields) (m : Result Bool)
      → matches readback ≡ m
      → ((u : Session) → Settles rt matches report n u (retry u))
      → Concludes host rt s (ok readback, t)
      → Settles rt matches report
          (suc n)
          s
          (judge host deadline rt payload matches report n retry readback t)
  unfolding judge ◌>>=◌
  judge-Settles n s t retry readback (ok true) e ih (same, sent, acc) = rw e (
    0,
    readback,
    omega arith,
    sent,
    refl,
    record { matched = e; identity = acc.same; sequence = acc.sequence; later = acc.later },
    record { same = same; grows = omega (arith, acc.later) },
  )
  judge-Settles n s t retry readback (ok false) e ih (same, sent, acc) =
      let (quiet, more, _) = (poll_unless_last-Silent host deadline n).at t in
      rw e (
        polled n s t retry (poll_unless_last host deadline n t) ih sent
          (record { same = same; grows = omega (arith, acc.later) }) quiet more)
  judge-Settles n s t retry readback (err c) e ih (same, sent, acc) =
      rw e (1, omega arith, sent, record { same = same; grows = omega (arith, acc.later) })

  checked-Settles :
      (n : ℕ) (s : Session) (retry : Exec Session Fields) (p : Result Fields × Session)
      → Concludes host rt s p
      → ((u : Session) → Settles rt matches report n u (retry u))
      → Settles rt matches report
          (suc n)
          s
          (((λ _. p) >>= judge host deadline rt payload matches report n retry) s)
  unfolding ◌>>=◌
  checked-Settles n s retry (ok readback, t) c ih =
      judge-Settles n s t retry readback (matches readback) refl ih c
  checked-Settles n s retry (err e, t) (same, inl none_sent, kept) ih =
      (0, omega arith, none_sent, record { same = same; grows = omega (arith, kept) })
  checked-Settles n s retry (err e, t) (same, inr sent, kept) ih =
      (1, omega arith, sent, record { same = same; grows = omega (arith, kept) })

  -- The readback loop with `n` attempts sends at most `n` requests, all of the readback's type. If it
  -- answers, the answer is the report of the last readback, which matches, has the bridge's identity, and
  -- carries a later event sequence than the loop began with. In any case the bridge is the same.
  pub settle-Settles :
      (n : ℕ) (s : Session)
      → Settles rt matches report n s (settle host deadline rt payload matches report n s)
  unfolding settle ◌>>=◌
  settle-Settles zero s = (0, omega arith, refl, Later-refl s)
  settle-Settles (suc n) s =
      checked-Settles n s (settle host deadline rt payload matches report n)
        (checked host rt payload deadline s) (checked-Concludes host rt payload deadline s)
        (settle-Settles n)
