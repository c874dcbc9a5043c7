-- ===== src/Bridge/Calls/Answers.antt =====
-- Rules for what the answers of the methods of src/dcc_mcp_obs/bridge.py show.
pub mod Methods
pub mod Hotkeys
pub mod Windows
pub mod Media
use dcc_mcp_obs.Base.{
  String, count, Bool, true, false, ◌≡◌, refl, [], ◌∷◌, ◌==◌, ◌&&◌, arith, eq_iff, between,
  mem_text, if◌then◌else◌, ap, ◌∙◌, sym, Bool-cases, inl, inr,
}
use dcc_mcp_obs.Value.{Value, null, bool, int, float, str, list, dict, Fields, end}
use dcc_mcp_obs.Value.Dict.{get, put, get-put, get-put_self, entries}
use dcc_mcp_obs.Value.Check.{equals_text, is_bool, is_true, is_false}
use dcc_mcp_obs.Result.{Result, bridge_error, Error, ok, err}
use dcc_mcp_obs.Exec.{Exec, pure, raise, lift, guard, ◌>>=◌}
use dcc_mcp_obs.Bridge.Constants.{allowlisted_hotkeys}
use dcc_mcp_obs.Bridge.Host.{Host}
use dcc_mcp_obs.Bridge.Session.{Session}
use dcc_mcp_obs.Bridge.Reconcile.{verified, mutate_then_settle}
use dcc_mcp_obs.Bridge.Reconcile.Once.{MutatesOnce, mutate_then_settle-MutatesOnce}
use dcc_mcp_obs.Bridge.Controls.Arguments.{
  require_name, require_bool, select_exact_name, now_checked,
}
use dcc_mcp_obs.Bridge.Controls.Scenes.{
  set_current_scene, select_scene, scene_name_mutation, name_mutation, set_studio_mode,
}
use dcc_mcp_obs.Bridge.Controls.Outputs.{
  output_mutation, output_shown, start_output, domain_mutation, start_streaming,
}
use dcc_mcp_obs.Bridge.Controls.Operator.{
  allowlisted, trigger_allowlisted_hotkey, capture_source_screenshot,
}

ok-differs : {A : Type 0} {a : A} {c : Error} → ◌≡◌ {A = Result A} (err c) (ok a) → ⊥
ok-differs h = cc

pub ok-same : {A : Type 0} {a b : A} → ◌≡◌ {A = Result A} (ok a) (ok b) → a ≡ b
ok-same h = cc

-- Every answer of the action has `P`.
pub record Answers {S A : Type 0} (P : A → Type 0) (m : Exec S A) : Type 0 where
  pub gives : (s : S) (a : A) → (m s).0 ≡ ok a → P a

module _ {S A B : Type 0} {P : B → Type 0} where
  continued :
      (r : Result A × S) (f : A → Exec S B) (s : S) (b : B)
      → ((a : A) → r.0 ≡ ok a → Answers P (f a))
      → (((λ (_ : S). r) >>= f) s).0 ≡ ok b
      → P b
  unfolding ◌>>=◌
  continued (ok a, t) f s b h e = (h a refl).gives t b e
  continued (err c, t) f s b h e = absurd (ok-differs e)

  pub Answers-bind :
      (m : Exec S A) (f : A → Exec S B) → ((a : A) → Answers P (f a)) → Answers P (m >>= f)
  unfolding ◌>>=◌
  Answers-bind m f h = record { gives = λ s b e. continued (m s) f s b (λ a _. h a) e }

  pub Answers-lift :
      (r : Result A) (f : A → Exec S B)
      → ((a : A) → r ≡ ok a → Answers P (f a))
      → Answers P (lift r >>= f)
  unfolding ◌>>=◌ lift
  Answers-lift r f h = record { gives = λ s b e. continued (r, s) f s b h e }

  -- what the first action's answers show is known to the second
  pub Answers-then :
      {Q : A → Type 0} (m : Exec S A) (f : A → Exec S B)
      → Answers Q m
      → ((a : A) → Q a → Answers P (f a))
      → Answers P (m >>= f)
  unfolding ◌>>=◌
  Answers-then m f q h = record {
    gives = λ s b e. continued (m s) f s b (λ a known. h a (q.gives s a known)) e;
  }

module _ {S B : Type 0} {P : B → Type 0} where
  pub Answers-result : (r : Result B) → ((a : B) → r ≡ ok a → P a) → Answers {S = S} P (lift r)
  unfolding lift
  Answers-result r h = record { gives = λ s a e. h a e }

  pub Answers-guard :
      (b : Bool) (c : String) (f : Unit {0} → Exec S B)
      → (b ≡ true → Answers P (f tt))
      → Answers P (guard b c >>= f)
  unfolding ◌>>=◌ guard
  Answers-guard true c f h = record { gives = λ s a e. (h refl).gives s a e }
  Answers-guard false c f h = record { gives = λ s a e. absurd (ok-differs e) }

  pub Answers-pure : (a : B) → P a → Answers {S = S} P (pure a)
  unfolding pure
  Answers-pure a p = record { gives = λ s b e. rw (ok-same e) at p }

  pub Answers-raise : (c : Error) → Answers {S = S} P (raise c)
  unfolding raise
  Answers-raise c = record { gives = λ s a e. absurd (ok-differs e) }

pub Answers-weaken :
    {S A : Type 0} {P Q : A → Type 0} {m : Exec S A}
    → Answers P m
    → ((a : A) → P a → Q a)
    → Answers Q m
Answers-weaken p f = record { gives = λ s a e. f a (p.gives s a e) }

-- the readback on which an answer of a mutation rests
unfoldable pub Shows : (Fields → Result Bool) → (Fields → Fields) → Fields → Type 0
Shows matches report a = (readback : Fields) × (matches readback ≡ ok true) × (a ≡ report readback)

module _ (host : Host) (rt : String) (payload : Fields) (readback_type : String)
    (readback_payload : Fields) (matches : Fields → Result Bool) (report : Fields → Fields) where
  shown :
      (s : Session) (p : Result Fields × Session) (a : Fields)
      → MutatesOnce host rt readback_type matches report s p
      → p.0 ≡ ok a
      → Shows matches report a
  unfolding Shows
  shown s (ok result, t) a (k, readback, bound, trace, shape, shows, acked, later) e =
      (readback, shows.matched, cc)
  shown s (err c, t) a once e = absurd (ok-differs e)

  pub mutate_then_settle-Answers :
      Answers
        (Shows matches report)
        (mutate_then_settle host rt payload readback_type readback_payload matches report)
  mutate_then_settle-Answers = record {
    gives = λ s a e.
        shown s _ a
          (mutate_then_settle-MutatesOnce host rt payload readback_type readback_payload matches
            report s)
          e;
  }
