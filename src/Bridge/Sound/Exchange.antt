-- ===== src/Bridge/Sound/Exchange.antt =====
-- One `_checked` call of src/dcc_mcp_obs/bridge.py is sound.
use dcc_mcp_obs.Base.{ℕ, String, arith, inl, inr}
use dcc_mcp_obs.Value.{Fields}
use dcc_mcp_obs.Result.{Error, bridge_error, Result, ok, err}
use dcc_mcp_obs.Result.Fails.{Fails, Fails-ok, Fails-err}
use dcc_mcp_obs.Bridge.Host.{Host, Library}
use dcc_mcp_obs.Bridge.Session.{Session, checked}
use dcc_mcp_obs.Bridge.Session.Effects.{Concludes, checked-Concludes}
use dcc_mcp_obs.Bridge.Reconcile.Trace.{Later}
use dcc_mcp_obs.Bridge.Published.{IsPublished}
use dcc_mcp_obs.Bridge.Published.Validate.{validate_read_only_response-Fails}
use dcc_mcp_obs.Bridge.Sound.{IsSound}
use dcc_mcp_obs.Bridge.Sound.Raises.{IsCoded, Raises, checked-Raises}

coded-IsPublished : (e : Error) → IsCoded e → IsPublished e
coded-IsPublished (bridge_error c) h = h
coded-IsPublished _ h = absurd h

raised-Fails :
    (lib : Library) (rt : String) (s : Session) (p : Result Fields × Session)
    → Raises lib rt s p
    → Fails IsPublished p.0
raised-Fails lib rt s (ok response, t) heard = Fails-ok response
raised-Fails lib rt s (err e, t) (inl coded) = Fails-err e (coded-IsPublished e coded)
raised-Fails lib rt s (err e, t) (inr (response, raises, heard)) =
    Fails-err e ((validate_read_only_response-Fails lib rt response).because e raises)

module _ (host : Host) where
  concluded :
      (rt : String) (s : Session) (p : Result Fields × Session)
      → Concludes host rt s p
      → Later s p.1
  concluded rt s (ok response, t) (same, sent, acc) = record {
    same = same;
    grows = omega (arith, acc.later);
  }
  concluded rt s (err e, t) (same, sent, kept) = record { same = same; grows = omega (arith, kept) }

  -- From every state, a `_checked` call keeps the bridge's identity and settings and does not let the event
  -- sequence fall, and if it fails its error has a published code or is an exception of Python's own.
  pub checked-IsSound :
      (rt : String) (payload : Fields) (deadline : ℕ) → IsSound (checked host rt payload deadline)
  checked-IsSound rt payload deadline = record {
    later = λ s.
        concluded rt s (checked host rt payload deadline s)
          (checked-Concludes host rt payload deadline s);
    published = λ s.
        raised-Fails host.library rt s (checked host rt payload deadline s)
          (checked-Raises host rt payload deadline s);
  }
