-- ===== src/Bridge/Sound.antt =====
-- Actions of the bridge (src/dcc_mcp_obs/bridge.py) that keep its identity, never let its event
-- sequence fall, and raise no error but those with a published code and exceptions of Python's own; one rule for each
-- way to build an action.
pub mod Exchange
pub mod Raises
pub mod Loops
use dcc_mcp_obs.Base.{
  ℕ, zero, suc, String, Bool, true, false, ◌≡◌, refl, Option, none, some, mem_text, arith, ltb, leb,
  Bool-cases, inl, inr, if◌then◌else◌,
}
use dcc_mcp_obs.Value.{ℤ, Value, dict, Fields}
use dcc_mcp_obs.Value.Dict.{get}
use dcc_mcp_obs.Value.Check.{need, is_false, is_true}
use dcc_mcp_obs.Result.{Error, bridge_error, Result, ok, err}
use dcc_mcp_obs.Result.Fails.{Fails, Fails-ok, Fails-err, Fails-if, fails_rules}
use dcc_mcp_obs.Exec.{Exec, pure, raise, lift, gets, modify, guard, ◌>>=◌}
use dcc_mcp_obs.Bridge.Constants.{public_downstream_errors}
use dcc_mcp_obs.Bridge.Host.{
  Host, Library, History, Outcome, returned, raised, clock, vendor_request, sleep,
}
use dcc_mcp_obs.Bridge.Identity.{
  parse_identity, parse_event_sequence, nonempty_text, natural_from, short_text, Identity,
}
use dcc_mcp_obs.Bridge.Request.{accepted_response, receive, request}
use dcc_mcp_obs.Bridge.Accept.{accept}
use dcc_mcp_obs.Bridge.Session.{
  Session, on_history, conclude, checked, deadline_or_default, operation_deadline, poll,
  acknowledged,
}
use dcc_mcp_obs.Bridge.Session.Effects.{Concludes, checked-Concludes}
use dcc_mcp_obs.Bridge.Reconcile.Trace.{Later, Later-trans, Later-refl, Later-history}
use dcc_mcp_obs.Bridge.Reconcile.{poll_unless_last, judge, settle, settle_by, mutate_then_settle}
use dcc_mcp_obs.Bridge.Published.{
  IsPublished, published_errors, public_error_code-IsPublished, Fails-need,
}
use dcc_mcp_obs.Bridge.Published.Scenes.{rules, invalid-Fails}
use dcc_mcp_obs.Bridge.Published.Validate.{validate_read_only_response-Fails}

pub record IsSound {A : Type 0} (m : Exec Session A) : Type 0 where
  pub later : (s : Session) → Later s (m s).1
  pub published : (s : Session) → Fails IsPublished (m s).0

module _ {A : Type 0} where
  pub IsSound-pure : (a : A) → IsSound (pure a)
  unfolding pure
  IsSound-pure a = record { later = Later-refl; published = λ s. Fails-ok a }

  pub IsSound-raise :
      (c : String) → mem_text published_errors c ≡ true → IsSound {A = A} (raise (bridge_error c))
  unfolding raise
  IsSound-raise c h = record { later = Later-refl; published = λ s. Fails-err _ h }

  pub IsSound-lift : (r : Result A) → Fails IsPublished r → IsSound (lift r)
  unfolding lift
  IsSound-lift r f = record { later = Later-refl; published = λ s. f }

  pub IsSound-gets : (f : Session → A) → IsSound (gets f)
  unfolding gets
  IsSound-gets f = record { later = Later-refl; published = λ s. Fails-ok _ }

  pub IsSound-if :
      (b : Bool) (m n : Exec Session A) → IsSound m → IsSound n → IsSound (if b then m else n)
  IsSound-if true m n sm sn = sm
  IsSound-if false m n sm sn = sn

pub IsSound-guard :
    (b : Bool) (c : String) → mem_text published_errors c ≡ true → IsSound (guard b c)
unfolding guard
IsSound-guard true c h = record { later = Later-refl; published = λ s. Fails-ok tt }
IsSound-guard false c h = record { later = Later-refl; published = λ s. Fails-err _ h }

module _ {A B : Type 0} where
  continued :
      (s : Session) (p : Result A × Session) (f : A → Exec Session B)
      → Later s p.1
      → Fails IsPublished p.0
      → ((a : A) → IsSound (f a))
      → Later s (((λ _. p) >>= f) s).1 × Fails IsPublished (((λ _. p) >>= f) s).0
  unfolding ◌>>=◌
  continued s (ok a, t) f later published sf =
      (Later-trans later ((sf a).later t), (sf a).published t)
  continued s (err e, t) f later published sf = (later, Fails-err e (published.because e refl))

  pub IsSound-bind :
      (m : Exec Session A) (f : A → Exec Session B)
      → IsSound m
      → ((a : A) → IsSound (f a))
      → IsSound (m >>= f)
  unfolding ◌>>=◌
  IsSound-bind m f sm sf = record {
    later = λ s. (continued s (m s) f (sm.later s) (sm.published s) sf).0;
    published = λ s. (continued s (m s) f (sm.later s) (sm.published s) sf).1;
  }
