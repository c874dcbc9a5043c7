-- ===== src/Bridge/Published.antt =====
-- The codes that a `BridgeError` of src/dcc_mcp_obs/bridge.py can carry: the public set for codes
-- from downstream, and those that the bridge raises of its own.
pub mod Scenes
pub mod Others
pub mod Validate
use dcc_mcp_obs.Base.{
  String, ◌==◌, ◌≡◌, refl, inl, inr, Bool, true, false, ◌||◌, ◌&&◌, List, [], ◌∷◌, ◌++◌, arith,
  mem_text, Bool-cases, between, count, if◌then◌else◌,
}
use dcc_mcp_obs.Value.{Value, str}
use dcc_mcp_obs.Value.Check.{need, need_member, hashable, in_texts, number_finite}
use dcc_mcp_obs.Result.{
  Error, bridge_error, type_error, attribute_error, overflow_error, out_of_fuel, Result, ok, err,
}
use dcc_mcp_obs.Result.Fails.{Fails, Fails-ok, Fails-err, Fails-if, fails_rules}
use dcc_mcp_obs.Bridge.Constants.{public_downstream_errors, public_error_code}
use dcc_mcp_obs.Bridge.Validate.Items.{check, check_member}

abbrev own_errors : List String
own_errors =
    "OBS_IDENTITY_INVALID" ∷ "OBS_INSTANCE_DRIFT" ∷ "OBS_EVENT_SEQUENCE_INVALID"
    ∷ "OBS_POSTCONDITION_FAILED" ∷ "OBS_PLUGIN_VERSION_UNSUPPORTED" ∷ []

unfoldable pub published_errors : List String
published_errors = own_errors ++ public_downstream_errors

-- A `BridgeError` has a published code. An exception of Python itself has none.
abbrev pub IsPublished : Error → Type 0
IsPublished (bridge_error c) = mem_text published_errors c ≡ true
IsPublished out_of_fuel = ⊥
IsPublished _ = Unit

mem_text-append :
    (ts us : List String) (c : String) → mem_text us c ≡ true → mem_text (ts ++ us) c ≡ true
mem_text-append [] us c h = h
mem_text-append (t ∷ ts) us c h = elim (Bool-cases (c == t)) [
  | inl e ↦ rw e
  | inr e ↦ rw e (mem_text-append ts us c h)
]

public-mem :
    (c : String) → mem_text public_downstream_errors c ≡ true → mem_text published_errors c ≡ true
unfolding published_errors
public-mem c h = mem_text-append own_errors public_downstream_errors c h

pass_or_fallback :
    (short public : Bool) (raw fallback : String)
    → (public ≡ true → mem_text published_errors raw ≡ true)
    → mem_text published_errors fallback ≡ true
    → mem_text published_errors (if short && public then raw else fallback) ≡ true
pass_or_fallback true true raw fallback h k = h refl
pass_or_fallback true false raw fallback h k = k
pass_or_fallback false public raw fallback h k = k

-- The code that `_public_error_code` returns is published, whatever the downstream code is, if the
-- fallback is published.
pub public_error_code-IsPublished :
    (raw : Value) (fallback : String)
    → mem_text published_errors fallback ≡ true
    → IsPublished (bridge_error (public_error_code raw fallback))
unfolding public_error_code
public_error_code-IsPublished (str raw) fallback h =
    pass_or_fallback _ _ raw fallback (public-mem raw) h
public_error_code-IsPublished _ fallback h = h

pub Fails-check : (b : Bool) → Fails IsPublished (check b)
unfolding check published_errors public_downstream_errors
Fails-check true = Fails-ok tt
Fails-check false = Fails-err _ refl

pub Fails-need :
    (c : String) (b : Bool) → mem_text published_errors c ≡ true → Fails IsPublished (need c b)
unfolding need
Fails-need c true h = Fails-ok tt
Fails-need c false h = Fails-err _ h

pub Fails-need_member :
    (c : String) (ts : List String) (v : Value)
    → mem_text published_errors c ≡ true
    → Fails IsPublished (need_member c ts v)
unfolding need_member
Fails-need_member c ts v h =
    Fails-if (hashable v) _ _ (Fails-need c (in_texts ts v) h) (Fails-err type_error tt)

pub Fails-check_member : (ts : List String) (v : Value) → Fails IsPublished (check_member ts v)
unfolding check_member published_errors public_downstream_errors
Fails-check_member ts v = Fails-need_member "OBS_RESPONSE_INVALID" ts v refl
