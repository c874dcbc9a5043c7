-- ===== src/Bridge/Calls/Sends.antt =====
-- How often a method of src/dcc_mcp_obs/bridge.py sends a request of one type: one rule for each way to
-- build a method.
pub mod Stops
use dcc_mcp_obs.Base.{
  ℕ, zero, suc, ◌+◌, ◌≤◌, String, Bool, true, false, ◌≡◌, refl, sym, ap, ◌⊎◌, inl, inr, List, [],
  ◌∷◌, Option, none, some, ◌==◌, Bool-cases, arith, if◌then◌else◌,
}
use dcc_mcp_obs.Value.{Value, Fields}
use dcc_mcp_obs.Result.{Error, Result, ok, err}
use dcc_mcp_obs.Exec.{Exec, pure, lift, gets, guard, raise, ◌>>=◌}
use dcc_mcp_obs.Bridge.Host.{Host, History, clock, sleep}
use dcc_mcp_obs.Bridge.Session.{
  Session, on_history, checked, poll, operation_deadline, deadline_or_default,
}
use dcc_mcp_obs.Bridge.Session.Effects.{requests, Concludes, checked-Concludes}
use dcc_mcp_obs.Bridge.Reconcile.{judge, poll_unless_last}

abbrev pub count_of : String → List String → ℕ
count_of rt [] = 0
count_of rt (r ∷ rs) = let rest = count_of rt rs in if r == rt then suc rest else rest

-- The action sends at most `k` requests of the type.
pub record SendsAtMost {A : Type 0} (rt : String) (k : ℕ) (m : Exec Session A) : Type 0 where
  pub bound :
      (s : Session) → count_of rt (requests (m s).1.history) ≤ k + count_of rt (requests s.history)

module _ {A : Type 0} (rt : String) (k : ℕ) where
  pub SendsAtMost-pure : (a : A) → SendsAtMost rt k (pure a)
  unfolding pure
  SendsAtMost-pure a = record { bound = λ s. omega arith }

  pub SendsAtMost-raise : (e : Error) → SendsAtMost {A = A} rt k (raise e)
  unfolding raise
  SendsAtMost-raise e = record { bound = λ s. omega arith }

  pub SendsAtMost-lift : (r : Result A) → SendsAtMost rt k (lift r)
  unfolding lift
  SendsAtMost-lift r = record { bound = λ s. omega arith }

  pub SendsAtMost-gets : (f : Session → A) → SendsAtMost rt k (gets f)
  unfolding gets
  SendsAtMost-gets f = record { bound = λ s. omega arith }

pub SendsAtMost-guard : (rt : String) (k : ℕ) (b : Bool) (c : String) → SendsAtMost rt k (guard b c)
unfolding guard
SendsAtMost-guard rt k true c = record { bound = λ s. omega arith }
SendsAtMost-guard rt k false c = record { bound = λ s. omega arith }

module _ {A B : Type 0} (rt : String) (j k : ℕ) where
  continued :
      (before : ℕ) (r : Result A) (t : Session) (f : A → Exec Session B)
      → count_of rt (requests t.history) ≤ j + before
      → ((a : A) → SendsAtMost rt k (f a))
      → count_of rt (requests (((λ (_ : Session). (r, t)) >>= f) t).1.history) ≤ (j + k) + before
  unfolding ◌>>=◌
  continued before (ok a) t f first later = omega (arith, (later a).bound t)
  continued before (err e) t f first later = omega arith

  pub SendsAtMost-bind :
      (m : Exec Session A) (f : A → Exec Session B)
      → SendsAtMost rt j m
      → ((a : A) → SendsAtMost rt k (f a))
      → SendsAtMost rt (j + k) (m >>= f)
  unfolding ◌>>=◌
  SendsAtMost-bind m f first later = record {
    bound =
        λ s. continued (count_of rt (requests s.history)) (m s).0 (m s).1 f (first.bound s) later;
  }

-- an action that sends no request of the type, and then one that does
pub SendsAtMost-after :
    {A B : Type 0} (rt : String) (k : ℕ) (m : Exec Session A) (f : A → Exec Session B)
    → SendsAtMost rt 0 m
    → ((a : A) → SendsAtMost rt k (f a))
    → SendsAtMost rt k (m >>= f)
SendsAtMost-after rt k m f first later = record {
  bound = λ s. omega (arith, (SendsAtMost-bind rt 0 k m f first later).bound s);
}

module _ (host : Host) (rt : String) where
  concluded :
      (sent : String) (s : Session) (p : Result Fields × Session)
      → Concludes host sent s p
      → (requests p.1.history ≡ requests s.history)
        ⊎ (requests p.1.history ≡ sent ∷ requests s.history)
  concluded sent s (ok response, t) (same, asked, accepted) = inr asked
  concluded sent s (err e, t) (same, asked, stays) = asked

  other-bound :
      (sent : String) (before after : List String)
      → (sent == rt) ≡ false
      → (after ≡ before) ⊎ (after ≡ sent ∷ before)
      → count_of rt after ≤ 0 + count_of rt before
  other-bound sent before after other (inl e) = rw e (omega arith)
  other-bound sent before after other (inr e) = rw (e, other) (omega arith)

  once-bound :
      (sent : String) (before after : List String)
      → (after ≡ before) ⊎ (after ≡ sent ∷ before)
      → count_of rt after ≤ 1 + count_of rt before
  once-bound sent before after (inl e) = rw e (omega arith)
  once-bound sent before after (inr e) = rw e (ground arith)

  pub SendsAtMost-other :
      (sent : String) (payload : Fields) (deadline : ℕ)
      → (sent == rt) ≡ false
      → SendsAtMost rt 0 (checked host sent payload deadline)
  SendsAtMost-other sent payload deadline other = record {
    bound = λ s.
        other-bound sent (requests s.history) _ other
          (concluded sent s _ (checked-Concludes host sent payload deadline s));
  }

  pub SendsAtMost-checked :
      (sent : String) (payload : Fields) (deadline : ℕ)
      → SendsAtMost rt 1 (checked host sent payload deadline)
  SendsAtMost-checked sent payload deadline = record {
    bound = λ s.
        once-bound sent (requests s.history) _
          (concluded sent s _ (checked-Concludes host sent payload deadline s));
  }

  on_history-bound :
      {A : Type 0} (m : Exec History A)
      → ((h : History) → requests (m h).1 ≡ requests h)
      → SendsAtMost rt 0 (on_history m)
  unfolding on_history
  on_history-bound m same = record { bound = λ s. rw (same s.history) (omega arith) }

  pub SendsAtMost-clock : SendsAtMost rt 0 (on_history (clock host))
  unfolding clock
  SendsAtMost-clock = on_history-bound (clock host) (λ h. refl)

  SendsAtMost-sleep : (duration : ℕ) → SendsAtMost rt 0 (on_history (sleep duration))
  unfolding sleep
  SendsAtMost-sleep duration = on_history-bound (sleep duration) (λ h. refl)

  pub SendsAtMost-poll : (deadline : ℕ) → SendsAtMost rt 0 (poll host deadline)
  unfolding poll
  SendsAtMost-poll deadline =
      search
        (
          SendsAtMost-after, SendsAtMost-clock, SendsAtMost-sleep, SendsAtMost-guard,
          SendsAtMost-gets,
        )
        depth 12

  pub SendsAtMost-poll_unless_last :
      (deadline n : ℕ) → SendsAtMost rt 0 (poll_unless_last host deadline n)
  unfolding poll_unless_last
  SendsAtMost-poll_unless_last deadline zero = SendsAtMost-pure rt 0 tt
  SendsAtMost-poll_unless_last deadline (suc n) = SendsAtMost-poll deadline

  default-same :
      (bound : Option ℕ) (h : History) → requests (deadline_or_default host bound h).1 ≡ requests h
  unfolding deadline_or_default clock pure ◌>>=◌
  default-same none h = refl
  default-same (some deadline) h = refl

  pub SendsAtMost-operation_deadline : SendsAtMost rt 0 (operation_deadline host)
  unfolding operation_deadline
  SendsAtMost-operation_deadline = record {
    bound = λ s.
        (on_history-bound (deadline_or_default host s.bound_deadline)
            (default-same s.bound_deadline)).bound
          s;
  }

  module _ (k deadline : ℕ) (sent : String) (payload : Fields) (matches : Fields → Result Bool)
      (report : Fields → Fields) where
    chosen :
        (matched : Bool) (m n : Exec Session Fields)
        → SendsAtMost rt k m
        → SendsAtMost rt k n
        → SendsAtMost rt k (elim matched [ true ↦ m | false ↦ n ])
    chosen true m n sm sn = sm
    chosen false m n sm sn = sn

    -- a readback that is judged sends nothing of its own
    pub SendsAtMost-judge :
        (n : ℕ) (retry : Exec Session Fields) (readback : Fields)
        → SendsAtMost rt k retry
        → SendsAtMost rt k (judge host deadline sent payload matches report n retry readback)
    unfolding judge
    SendsAtMost-judge n retry readback again =
        SendsAtMost-after rt k (lift (matches readback)) _ (SendsAtMost-lift rt 0 _) λ matched.
          chosen matched _ _ (SendsAtMost-pure rt k _) (
            SendsAtMost-after rt k (poll_unless_last host deadline n) _
              (SendsAtMost-poll_unless_last deadline n) (λ _. again))
