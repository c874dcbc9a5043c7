-- ===== src/Bridge/Calls/Items.antt =====
-- The methods of scene items in src/dcc_mcp_obs/bridge.py are sound.
use dcc_mcp_obs.Value.{Value}
use dcc_mcp_obs.Bridge.Host.{Host}
use dcc_mcp_obs.Bridge.Sound.{IsSound}
use dcc_mcp_obs.Bridge.Calls.Arguments.{call_rules}
use dcc_mcp_obs.Base.{
  ℕ, zero, suc, String, count, ◌==◌, Bool, true, false, Option, refl, leb, between, none, some,
}
use dcc_mcp_obs.Value.{pos, negsuc, null, bool, int, float, str, list, dict, Fields}
use dcc_mcp_obs.Value.Dict.{get}
use dcc_mcp_obs.Value.Float.{int_too_large}
use dcc_mcp_obs.Result.{Error, bridge_error, overflow_error, Result, ok, err}
use dcc_mcp_obs.Result.Fails.{Fails, Fails-ok, Fails-err, Fails-if}
use dcc_mcp_obs.Bridge.Constants.{public_downstream_errors}
use dcc_mcp_obs.Bridge.Published.{IsPublished, published_errors}
use dcc_mcp_obs.Bridge.Calls.Arguments.{argument-Fails}
use dcc_mcp_obs.Exec.{Exec, raise}
use dcc_mcp_obs.Bridge.Session.{Session, checked}
use dcc_mcp_obs.Bridge.Sound.{IsSound-raise, IsSound-pure, IsSound-if}
use dcc_mcp_obs.Bridge.Sound.Exchange.{checked-IsSound}
use dcc_mcp_obs.Bridge.Sound.Loops.{poll_unless_last-IsSound, postcondition-IsSound}
use dcc_mcp_obs.Bridge.Controls.Items.{
  Expected, item_query, ◌and◌, converted, shows_number, shows_pair, shows_item, created_item,
  optional_name, readback_scene_item, judge_error, judge_item, judge_answer, settle_removed,
}
use dcc_mcp_obs.Bridge.Host.{Library}
use dcc_mcp_obs.Bridge.Reconcile.Trace.{Later-refl, Later-trans}
use dcc_mcp_obs.Bridge.Controls.Items.{
  list_scene_items, get_scene_item, create_scene_item, set_scene_item_enabled, update_scene_item,
  remove_scene_item,
}

and-Fails :
    (r q : Result Bool) → Fails IsPublished r → Fails IsPublished q → Fails IsPublished (r and q)
and-Fails (ok true) q fr fq = fq
and-Fails (ok false) q fr fq = Fails-ok false
and-Fails (err e) q fr fq = fr

pub converted-Fails : (v : Value) (close : Bool) → Fails IsPublished (converted v close)
unfolding converted
converted-Fails (int (pos n)) close =
    Fails-if (int_too_large n) _ _ (Fails-err overflow_error tt) (Fails-ok close)
converted-Fails (int (negsuc n)) close =
    Fails-if (int_too_large (suc n)) _ _ (Fails-err overflow_error tt) (Fails-ok close)
converted-Fails (float bits) close = Fails-ok close
converted-Fails _ close = Fails-ok false

module _ (lib : Library) where
  shows_number-Fails :
      (key : String) (v : Option Value) (readback : Fields)
      → Fails IsPublished (shows_number lib key v readback)
  unfolding shows_number
  shows_number-Fails key none readback = Fails-ok true
  shows_number-Fails key (some v) readback = converted-Fails (get key readback) _

  shows_pair-Fails :
      (key_x key_y : String) (v : Option (Value × Value)) (readback : Fields)
      → Fails IsPublished (shows_pair lib key_x key_y v readback)
  unfolding shows_pair
  shows_pair-Fails key_x key_y none readback = Fails-ok true
  shows_pair-Fails key_x key_y (some (x, y)) readback = and-Fails _ _ (Fails-ok _) (
      and-Fails _ _ (shows_number-Fails key_x (some x) readback)
        (shows_number-Fails key_y (some y) readback))

  pub shows_item-Fails :
      (scene_name : String) (item_id : ℕ) (expected : Expected) (readback : Fields)
      → Fails IsPublished (shows_item lib scene_name item_id expected readback)
  unfolding shows_item
  shows_item-Fails scene_name item_id expected readback =
      search (and-Fails, Fails-ok, shows_pair-Fails, shows_number-Fails)

unusable-Fails :
    {A : Type 0} → Fails {A = A} IsPublished (err (bridge_error "OBS_RESPONSE_INVALID"))
unfolding published_errors public_downstream_errors
unusable-Fails = Fails-err _ refl

created_item-Fails : (v : Value) → Fails IsPublished (created_item v)
unfolding created_item
created_item-Fails (int (pos n)) = Fails-if (leb 1 n) _ _ (Fails-ok n) unusable-Fails
created_item-Fails (int (negsuc n)) = unusable-Fails
created_item-Fails _ = unusable-Fails

pub optional_name-Fails : (v : Value) → Fails IsPublished (optional_name v)
unfolding optional_name
optional_name-Fails null = Fails-ok none
optional_name-Fails (str s) = Fails-if (between 1 256 (count s)) _ _ (Fails-ok _) argument-Fails
optional_name-Fails _ = argument-Fails

raised-IsSound :
    {A : Type 0} (e : Error) → Fails {A = A} IsPublished (err e) → IsSound {A = A} (raise e)
unfolding raise
raised-IsSound e f = record { later = Later-refl; published = λ s. f }

refused_item-IsSound : {A : Type 0} → IsSound {A = A} (raise (bridge_error "OBS_ARGUMENT_INVALID"))
unfolding published_errors public_downstream_errors
refused_item-IsSound = IsSound-raise _ refl

module _ (host : Host) where
  judge_error-IsSound :
      (scene : String) (item_id : ℕ) (e : Error)
      → Fails {A = Fields} IsPublished (err e)
      → IsSound (judge_error host scene item_id e)
  unfolding judge_error
  judge_error-IsSound scene item_id (bridge_error code) f =
      IsSound-if (code == "OBS_SCENE_ITEM_NOT_FOUND") _ _ (IsSound-pure _)
        (IsSound-raise code (f.because _ refl))
  judge_error-IsSound scene item_id e f = raised-IsSound e f

  judge_item-IsSound :
      (deadline n : ℕ) (retry : Exec Session Fields) (readback : Fields)
      → IsSound retry
      → IsSound (judge_item host deadline n retry readback)
  unfolding judge_item
  judge_item-IsSound deadline n retry readback again = search (call_rules, poll_unless_last-IsSound)

  judge_answer-Sound :
      (deadline : ℕ) (scene : String) (item_id n : ℕ) (retry : Exec Session Fields)
      (answer : Result Fields)
      → IsSound retry
      → Fails IsPublished answer
      → IsSound (judge_answer host deadline scene item_id n retry answer)
  judge_answer-Sound deadline scene item_id n retry (ok readback) again f =
      judge_item-IsSound deadline n retry readback again
  judge_answer-Sound deadline scene item_id n retry (err e) again f =
      judge_error-IsSound scene item_id e (Fails-err e (f.because e refl))

  settle_removed-IsSound :
      (deadline : ℕ) (scene : String) (item_id n : ℕ)
      → IsSound (settle_removed host deadline scene item_id n)
  unfolding settle_removed
  settle_removed-IsSound deadline scene item_id zero = record {
    later = postcondition-IsSound.later;
    published = postcondition-IsSound.published;
  }
  settle_removed-IsSound deadline scene item_id (suc n) =
      let retry = settle_removed host deadline scene item_id n in
      let asked = checked-IsSound host "GetSceneItem" (item_query scene item_id) deadline in
      let judged = λ (s : Session).
        judge_answer-Sound deadline scene item_id n retry
          (checked host "GetSceneItem" (item_query scene item_id) deadline s).0
          (settle_removed-IsSound deadline scene item_id n) (asked.published s) in
      record {
        later = λ s. Later-trans (asked.later s) ((judged s).later _);
        published = λ s. (judged s).published _;
      }

  ruleset item_rules = (
    call_rules, shows_item-Fails, created_item-Fails, optional_name-Fails, settle_removed-IsSound,
  )

  pub list_scene_items-IsSound : (scene_name : Value) → IsSound (list_scene_items host scene_name)
  unfolding list_scene_items
  list_scene_items-IsSound scene_name = search item_rules depth 16

  pub get_scene_item-IsSound :
      (scene_name scene_item_id : Value) → IsSound (get_scene_item host scene_name scene_item_id)
  unfolding get_scene_item
  get_scene_item-IsSound scene_name scene_item_id = search item_rules depth 16

  pub create_scene_item-IsSound :
      (scene_name source_name source_kind enabled : Value)
      → IsSound (create_scene_item host scene_name source_name source_kind enabled)
  unfolding create_scene_item readback_scene_item
  create_scene_item-IsSound scene_name source_name source_kind enabled = search item_rules depth 16

  pub set_scene_item_enabled-IsSound :
      (scene_name scene_item_id enabled : Value)
      → IsSound (set_scene_item_enabled host scene_name scene_item_id enabled)
  unfolding set_scene_item_enabled readback_scene_item
  set_scene_item_enabled-IsSound scene_name scene_item_id enabled = search item_rules depth 16

  pub update_scene_item-IsSound :
      (scene_name scene_item_id enabled : Value)
      → IsSound (update_scene_item host scene_name scene_item_id enabled)
  unfolding update_scene_item
  update_scene_item-IsSound scene_name scene_item_id null = refused_item-IsSound
  update_scene_item-IsSound scene_name scene_item_id (bool b) =
      set_scene_item_enabled-IsSound scene_name scene_item_id _
  update_scene_item-IsSound scene_name scene_item_id (int n) =
      set_scene_item_enabled-IsSound scene_name scene_item_id _
  update_scene_item-IsSound scene_name scene_item_id (float x) =
      set_scene_item_enabled-IsSound scene_name scene_item_id _
  update_scene_item-IsSound scene_name scene_item_id (str t) =
      set_scene_item_enabled-IsSound scene_name scene_item_id _
  update_scene_item-IsSound scene_name scene_item_id (list l) =
      set_scene_item_enabled-IsSound scene_name scene_item_id _
  update_scene_item-IsSound scene_name scene_item_id (dict d) =
      set_scene_item_enabled-IsSound scene_name scene_item_id _

  pub remove_scene_item-IsSound :
      (scene_name scene_item_id : Value) → IsSound (remove_scene_item host scene_name scene_item_id)
  unfolding remove_scene_item
  remove_scene_item-IsSound scene_name scene_item_id = search item_rules depth 16
