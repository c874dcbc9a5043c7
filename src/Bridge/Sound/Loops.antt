-- ===== src/Bridge/Sound/Loops.antt =====
-- The mutations of src/dcc_mcp_obs/bridge.py are sound if the test of their readbacks is.
use dcc_mcp_obs.Base.{ℕ, zero, suc, String, Bool, true, false, refl, Option, none, some}
use dcc_mcp_obs.Value.{Fields}
use dcc_mcp_obs.Result.{bridge_error, Result}
use dcc_mcp_obs.Result.Fails.{Fails, Fails-ok}
use dcc_mcp_obs.Exec.{Exec, raise, lift, guard, ◌>>=◌}
use dcc_mcp_obs.Bridge.Constants.{public_downstream_errors}
use dcc_mcp_obs.Bridge.Host.{Host, History, clock, sleep}
use dcc_mcp_obs.Bridge.Session.{
  Session, on_history, checked, deadline_or_default, operation_deadline, poll, acknowledged,
}
use dcc_mcp_obs.Bridge.Reconcile.Trace.{Later-history}
use dcc_mcp_obs.Bridge.Reconcile.{poll_unless_last, judge, settle, settle_by, mutate_then_settle}
use dcc_mcp_obs.Bridge.Published.{IsPublished, published_errors}
use dcc_mcp_obs.Bridge.Sound.{
  IsSound, IsSound-pure, IsSound-raise, IsSound-lift, IsSound-gets, IsSound-if, IsSound-guard,
  IsSound-bind,
}
use dcc_mcp_obs.Bridge.Sound.Exchange.{checked-IsSound}
use dcc_mcp_obs.Bridge.Controls.Arguments.{now_checked}

-- each code that the bridge raises of its own is published
pub mutation_guard-IsSound : (b : Bool) → IsSound (guard b "OBS_MUTATION_REJECTED")
unfolding published_errors public_downstream_errors
mutation_guard-IsSound b = IsSound-guard b _ refl

pub postcondition-IsSound :
    {A : Type 0} → IsSound {A = A} (raise (bridge_error "OBS_POSTCONDITION_FAILED"))
unfolding published_errors
postcondition-IsSound = IsSound-raise _ refl

-- an action on the history
pub on_history-IsSound :
    {A : Type 0} (m : Exec History A)
    → ((h : History) → Fails IsPublished (m h).0)
    → IsSound (on_history m)
unfolding on_history
on_history-IsSound m f = record {
  later = λ s. Later-history s (m s.history).1;
  published = λ s. f s.history;
}

pub ruleset sound_rules = (
  IsSound-pure, IsSound-lift, IsSound-gets, IsSound-if, IsSound-bind, mutation_guard-IsSound,
  postcondition-IsSound,
)

module _ (host : Host) where
  pub clock-IsSound : IsSound (on_history (clock host))
  unfolding clock
  clock-IsSound = on_history-IsSound (clock host) (λ h. Fails-ok _)

  deadline_or_default-Fails :
      (o : Option ℕ) (h : History) → Fails IsPublished (deadline_or_default host o h).0
  unfolding deadline_or_default clock ◌>>=◌
  deadline_or_default-Fails (some d) h = Fails-ok d
  deadline_or_default-Fails none h = Fails-ok _

  pub operation_deadline-IsSound : IsSound (operation_deadline host)
  unfolding operation_deadline
  operation_deadline-IsSound = record {
    later = λ s.
        (on_history-IsSound (deadline_or_default host s.bound_deadline)
            (deadline_or_default-Fails s.bound_deadline)).later
          s;
    published = λ s. deadline_or_default-Fails s.bound_deadline s.history;
  }

  timeout_guard-IsSound : (b : Bool) → IsSound (guard b "OBS_TIMEOUT")
  unfolding published_errors public_downstream_errors
  timeout_guard-IsSound b = IsSound-guard b _ refl

  sleep-IsSound : (d : ℕ) → IsSound (on_history (sleep d))
  unfolding sleep
  sleep-IsSound d = on_history-IsSound (sleep d) (λ h. Fails-ok tt)

  poll-IsSound : (deadline : ℕ) → IsSound (poll host deadline)
  unfolding poll
  poll-IsSound deadline =
      search (sound_rules, clock-IsSound, timeout_guard-IsSound, sleep-IsSound) depth 12

  pub poll_unless_last-IsSound : (deadline n : ℕ) → IsSound (poll_unless_last host deadline n)
  unfolding poll_unless_last
  poll_unless_last-IsSound deadline zero = IsSound-pure tt
  poll_unless_last-IsSound deadline (suc n) = poll-IsSound deadline

  pub acknowledged-IsSound :
      (rt : String) (payload : Fields) (deadline : ℕ)
      → IsSound (acknowledged host rt payload deadline)
  unfolding acknowledged
  acknowledged-IsSound rt payload deadline = search (sound_rules, checked-IsSound) depth 12

  pub now_checked-IsSound : (rt : String) (payload : Fields) → IsSound (now_checked host rt payload)
  unfolding now_checked
  now_checked-IsSound rt payload = search (sound_rules, checked-IsSound, operation_deadline-IsSound)

  module _ (rt : String) (payload : Fields) (matches : Fields → Result Bool)
      (report : Fields → Fields)
      (total : (readback : Fields) → Fails IsPublished (matches readback)) where
    chosen-IsSound :
        (matched : Bool) (m n : Exec Session Fields)
        → IsSound m
        → IsSound n
        → IsSound (elim matched [ true ↦ m | false ↦ n ])
    chosen-IsSound true m n sm sn = sm
    chosen-IsSound false m n sm sn = sn

    pub judge-IsSound :
        (deadline n : ℕ) (retry : Exec Session Fields) (readback : Fields)
        → IsSound retry
        → IsSound (judge host deadline rt payload matches report n retry readback)
    unfolding judge
    judge-IsSound deadline n retry readback again =
        IsSound-bind (lift (matches readback)) _ (IsSound-lift _ (total readback)) λ matched.
          chosen-IsSound matched _ _ (IsSound-pure (report readback)) (
            IsSound-bind (poll_unless_last host deadline n) _ (poll_unless_last-IsSound deadline n)
              (λ _. again))

    settle-IsSound : (deadline n : ℕ) → IsSound (settle host deadline rt payload matches report n)
    unfolding settle
    settle-IsSound deadline zero = postcondition-IsSound
    settle-IsSound deadline (suc n) =
        IsSound-bind (checked host rt payload deadline) _ (checked-IsSound host rt payload deadline)
          λ readback. judge-IsSound deadline n _ readback (settle-IsSound deadline n)

    pub settle_by-IsSound :
        (deadline : ℕ) → IsSound (settle_by host rt payload matches report deadline)
    unfolding settle_by
    settle_by-IsSound deadline = search (sound_rules, settle-IsSound)

  module _ (rt : String) (payload : Fields) (readback_type : String) (readback_payload : Fields)
      (matches : Fields → Result Bool) (report : Fields → Fields)
      (total : (readback : Fields) → Fails IsPublished (matches readback)) where
    pub mutate_then_settle-IsSound :
        IsSound (mutate_then_settle host rt payload readback_type readback_payload matches report)
    unfolding mutate_then_settle
    mutate_then_settle-IsSound =
        search
          (sound_rules, operation_deadline-IsSound, acknowledged-IsSound, settle_by-IsSound, total)
          depth 10
