-- ===== src/Bridge/Calls/Answers/Hotkeys.antt =====
-- What an answer of `trigger_allowlisted_hotkey` of src/dcc_mcp_obs/bridge.py rests on.
use dcc_mcp_obs.Base.{
  String, count, Bool, true, false, ◌≡◌, refl, [], ◌∷◌, ◌&&◌, between, mem_text, if◌then◌else◌, ap,
}
use dcc_mcp_obs.Value.{Value, null, bool, int, float, str, list, dict, Fields}
use dcc_mcp_obs.Value.Dict.{get, put, entries}
use dcc_mcp_obs.Value.Check.{equals_text-str, is_true}
use dcc_mcp_obs.Result.{Result, Error, ok, err}
use dcc_mcp_obs.Exec.{Exec, pure, lift, guard, ◌>>=◌}
use dcc_mcp_obs.Bridge.Constants.{allowlisted_hotkeys}
use dcc_mcp_obs.Bridge.Host.{Host}
use dcc_mcp_obs.Bridge.Session.{Session}
use dcc_mcp_obs.Bridge.Controls.Arguments.{now_checked}
use dcc_mcp_obs.Bridge.Controls.Operator.{allowlisted, trigger_allowlisted_hotkey}
use dcc_mcp_obs.Bridge.Calls.Answers.{ok-same}

both_tests :
    (b c : Bool) (s t : String) (e : Error)
    → ◌≡◌ {A = Result String} (if b && c then ok s else err e) (ok t)
    → (s ≡ t) × (c ≡ true)
both_tests true true s t e h = (ok-same h, refl)
both_tests true false s t e h = cc
both_tests false c s t e h = cc

allowlisted-str :
    (v : Value) (hotkey : String)
    → allowlisted v ≡ ok hotkey
    → (v ≡ str hotkey) × (mem_text allowlisted_hotkeys hotkey ≡ true)
unfolding allowlisted
allowlisted-str (str s) hotkey h =
    let (same, listed) = both_tests (between 1 128 (count s)) _ s hotkey _ h in
    (ap str same, rw same at listed)
allowlisted-str null hotkey h = cc
allowlisted-str (bool b) hotkey h = cc
allowlisted-str (int n) hotkey h = cc
allowlisted-str (float x) hotkey h = cc
allowlisted-str (list l) hotkey h = cc
allowlisted-str (dict d) hotkey h = cc

-- a sequence that answers has answered at its first action
module _ {S A B : Type 0} where
  continued :
      (p : Result A × S) (f : A → Exec S B) (s : S) (b : B)
      → (((λ (_ : S). p) >>= f) s).0 ≡ ok b
      → (a : A) × (p.0 ≡ ok a) × ((f a p.1).0 ≡ ok b)
  unfolding ◌>>=◌
  continued (ok a, t) f s b h = (a, refl, h)
  continued (err e, t) f s b h = cc

  first_answers :
      (m : Exec S A) (f : A → Exec S B) (s : S) (b : B)
      → ((m >>= f) s).0 ≡ ok b
      → (a : A) × ((m s).0 ≡ ok a) × ((f a (m s).1).0 ≡ ok b)
  unfolding ◌>>=◌
  first_answers m f s b h = continued (m s) f s b h

guard_passes :
    {S : Type 0} (b : Bool) (code : String) (s : S) (a : Unit {0})
    → (guard b code s).0 ≡ ok a
    → (b ≡ true) × ((guard b code s).1 ≡ s)
unfolding guard
guard_passes true code s a h = (refl, refl)
guard_passes false code s a h = cc

is_true-bool : (v : Value) → is_true v ≡ true → v ≡ bool true
unfolding is_true
is_true-bool (bool true) h = refl
is_true-bool (bool false) h = cc
is_true-bool null h = cc
is_true-bool (int n) h = cc
is_true-bool (float x) h = cc
is_true-bool (str s) h = cc
is_true-bool (list l) h = cc
is_true-bool (dict d) h = cc

-- The response of OBS that an answer about the hotkey is made of.
pub record Triggered (host : Host) (s : Session) (hotkey : String) (answer : Fields) : Type 0 where
  pub response : Fields
  pub received :
      (now_checked host "TriggerAllowlistedHotkey" (entries (("hotkeyName", str hotkey) ∷ [])) s).0
      ≡ ok response
  pub accepted : get "accepted" response ≡ bool true
  pub about : get "hotkeyName" response ≡ str hotkey
  pub shown : answer ≡ put "hotkeyName" (str hotkey) response

module _ (host : Host) where
  -- If `trigger_allowlisted_hotkey` answers, its argument was the name of a hotkey of the allow-list, and
  -- the answer is the checked response of OBS to this request, which says that the request was accepted
  -- and names this hotkey.
  pub trigger_allowlisted_hotkey-listed :
      (hotkey_id : Value) (s : Session) (answer : Fields)
      → (trigger_allowlisted_hotkey host hotkey_id s).0 ≡ ok answer
      → (hotkey : String) × (hotkey_id ≡ str hotkey)
        × (mem_text allowlisted_hotkeys hotkey ≡ true)
        × Triggered host s hotkey answer
  unfolding trigger_allowlisted_hotkey lift pure
  trigger_allowlisted_hotkey-listed hotkey_id s answer h =
      let (hotkey, listed, h1) = first_answers _ _ s answer h in
      let (response, received, h2) = first_answers _ _ s answer h1 in
      let (a, passed, h3) = first_answers _ _ _ answer h2 in
      let (b, same, h4) = first_answers _ _ _ answer h3 in
      let (asked, member) = allowlisted-str hotkey_id hotkey listed in
      (
        hotkey,
        asked,
        member,
        record {
          response = response;
          received = received;
          accepted = is_true-bool _ (guard_passes _ _ _ a passed).0;
          about = equals_text-str hotkey _ (guard_passes _ _ _ b same).0;
          shown = cc;
        },
      )
