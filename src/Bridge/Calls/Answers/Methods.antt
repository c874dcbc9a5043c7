-- ===== src/Bridge/Calls/Answers/Methods.antt =====
-- What the answers of the methods of src/dcc_mcp_obs/bridge.py show.
use dcc_mcp_obs.Base.{String, Bool, true, false, ◌≡◌, refl, ◌==◌, ◌&&◌, arith, ap, ◌∙◌, sym}
use dcc_mcp_obs.Value.{Value, null, bool, int, float, str, list, dict, Fields}
use dcc_mcp_obs.Value.Dict.{get, get-put, get-put_self}
use dcc_mcp_obs.Value.Check.{equals_text, equals_text-str, is_bool, is_true, is_false}
use dcc_mcp_obs.Result.{Result, ok}
use dcc_mcp_obs.Bridge.Host.{Host}
use dcc_mcp_obs.Bridge.Session.{Session}
use dcc_mcp_obs.Bridge.Reconcile.{verified}
use dcc_mcp_obs.Bridge.Controls.Arguments.{require_name, require_bool}
use dcc_mcp_obs.Bridge.Controls.Scenes.{
  set_current_scene, select_scene, scene_name_mutation, name_mutation, set_studio_mode,
}
use dcc_mcp_obs.Bridge.Controls.Outputs.{output_mutation, output_shown}
use dcc_mcp_obs.Bridge.Calls.Answers.{
  ok-same, Answers, Answers-bind, Answers-lift, Answers-weaken, Answers-then, Answers-result, Shows,
  mutate_then_settle-Answers,
}

pub require_name-str : (v : Value) (name : String) → require_name v ≡ ok name → v ≡ str name
unfolding require_name
require_name-str (str s) name h = ground arith
require_name-str null name h = cc
require_name-str (bool b) name h = cc
require_name-str (int n) name h = cc
require_name-str (float x) name h = cc
require_name-str (list l) name h = cc
require_name-str (dict d) name h = cc

is_bool-bool : (b : Bool) (v : Value) → is_bool b v ≡ true → v ≡ bool b
unfolding is_bool is_true is_false
is_bool-bool true (bool true) h = refl
is_bool-bool false (bool false) h = refl
is_bool-bool true (bool false) h = cc
is_bool-bool false (bool true) h = cc
is_bool-bool true null h = cc
is_bool-bool false null h = cc
is_bool-bool true (int n) h = cc
is_bool-bool false (int n) h = cc
is_bool-bool true (float x) h = cc
is_bool-bool false (float x) h = cc
is_bool-bool true (str s) h = cc
is_bool-bool false (str s) h = cc
is_bool-bool true (list l) h = cc
is_bool-bool false (list l) h = cc
is_bool-bool true (dict d) h = cc
is_bool-bool false (dict d) h = cc

pub ok-true : {b : Bool} → ◌≡◌ {A = Result Bool} (ok b) (ok true) → b ≡ true
ok-true h = cc

-- An answer that says "verified" and shows the name under the key.
pub record Named (key name : String) (answer : Fields) : Type 0 where
  pub shown : get key answer ≡ str name
  pub verified_flag : get "verified" answer ≡ bool true

-- An answer that says "verified" and shows an output in a state.
pub record ShownOutput (output_name : Value) (active_state : Bool) (answer : Fields) : Type 0 where
  pub name : get "outputName" answer ≡ output_name
  pub kind : get "outputKind" answer ≡ output_name
  pub active : get "outputActive" answer ≡ bool active_state
  pub verified_flag : get "verified" answer ≡ bool true

pub and_left : (b c : Bool) → (b && c) ≡ true → b ≡ true
and_left true c h = refl
and_left false c h = cc

pub and_right : (b c : Bool) → (b && c) ≡ true → c ≡ true
and_right true c h = h
and_right false c h = cc

require_bool-bool : (v : Value) (b : Bool) → require_bool v ≡ ok b → v ≡ bool b
unfolding require_bool
require_bool-bool (bool c) b h = ap bool (ok-same h)
require_bool-bool null b h = cc
require_bool-bool (int n) b h = cc
require_bool-bool (float x) b h = cc
require_bool-bool (str s) b h = cc
require_bool-bool (list l) b h = cc
require_bool-bool (dict d) b h = cc

module _ (host : Host) where
  switched :
      (enabled : Value) (wanted : Bool)
      → require_bool enabled ≡ ok wanted
      → (answer : Fields)
      → Shows (λ readback. ok (is_bool wanted (get "studioModeEnabled" readback))) verified answer
      → (get "studioModeEnabled" answer ≡ enabled) × (get "verified" answer ≡ bool true)
  unfolding Shows verified
  switched enabled wanted asked answer (readback, matched, shape) = rw shape (
    get-put "verified" "studioModeEnabled" (bool true) readback
        ∙ is_bool-bool wanted (get "studioModeEnabled" readback) (ok-true matched)
        ∙ sym (require_bool-bool enabled wanted asked),
    get-put_self "verified" (bool true) readback,
  )

  output-ShownOutput :
      (output_name : Value) (name : String)
      → output_name ≡ str name
      → (expected : Bool) (answer : Fields)
      → Shows (λ readback. ok (output_shown host name expected readback)) verified answer
      → ShownOutput output_name expected answer
  unfolding Shows verified output_shown
  output-ShownOutput output_name name asked expected answer (readback, matched, shape) =
      let shown = ok-true matched in
      let texts = and_left _ _ shown in
      rw shape (record {
        name =
            get-put "verified" "outputName" (bool true) readback
            ∙ equals_text-str name _ (and_left _ _ texts)
            ∙ sym asked;
        kind =
            get-put "verified" "outputKind" (bool true) readback
            ∙ equals_text-str name _ (and_right _ _ texts)
            ∙ sym asked;
        active =
            get-put "verified" "outputActive" (bool true) readback
            ∙ is_bool-bool expected _ (and_right _ _ shown);
        verified_flag = get-put_self "verified" (bool true) readback;
      })

  named :
      (key target : String) (answer : Fields)
      → ("verified" == key) ≡ false
      → Shows (λ readback. ok (equals_text target (get key readback))) verified answer
      → Named key target answer
  unfolding Shows verified
  named key target answer other (readback, matched, shape) = rw shape (record {
    shown =
        get-put "verified" key (bool true) readback
        ∙ rw other (equals_text-str target (get key readback) (ok-true matched));
    verified_flag = get-put_self "verified" (bool true) readback;
  })

  select_scene-Answers : (v : Value) → Answers (λ target. v ≡ str target) (select_scene host v)
  unfolding select_scene
  select_scene-Answers v =
      Answers-bind _ _
        λ scenes. Answers-lift _ _ λ _ chosen. Answers-result (require_name v) (require_name-str v)

  set_current_scene-Answers :
      (scene_name : Value)
      → Answers
          (λ answer. (name : String) × (scene_name ≡ str name) × Named "sceneName" name answer)
          (set_current_scene host scene_name)
  unfolding set_current_scene select_scene scene_name_mutation name_mutation
  set_current_scene-Answers scene_name =
      Answers-then _ _ (select_scene-Answers scene_name) λ target asked.
        Answers-weaken
          (mutate_then_settle-Answers host _ _ _ _
            (λ readback. ok (equals_text target (get "sceneName" readback))) verified)
          λ answer shows. (target, asked, named "sceneName" target answer refl shows)

  set_studio_mode-Answers :
      (enabled : Value)
      → Answers
          (λ answer.
            (get "studioModeEnabled" answer ≡ enabled) × (get "verified" answer ≡ bool true))
          (set_studio_mode host enabled)
  unfolding set_studio_mode
  set_studio_mode-Answers enabled = Answers-lift (require_bool enabled) _ λ wanted asked.
      Answers-weaken
        (mutate_then_settle-Answers host _ _ _ _
          (λ readback. ok (is_bool wanted (get "studioModeEnabled" readback))) verified)
        λ answer shows. switched enabled wanted asked answer shows

  output_mutation-Answers :
      (rt : String) (output_name : Value) (expected : Bool)
      → Answers (ShownOutput output_name expected) (output_mutation host rt output_name expected)
  unfolding output_mutation
  output_mutation-Answers rt output_name expected =
      Answers-lift (require_name output_name) _ λ name asked.
        Answers-weaken
          (mutate_then_settle-Answers host _ _ _ _
            (λ readback. ok (output_shown host name expected readback)) verified)
          λ answer shows.
            output-ShownOutput output_name name (require_name-str output_name name asked) expected
              answer shows

  -- If `set_current_scene` answers, its argument was a text, the answer shows the scene of that name as
  -- the current one, and it says that this is verified.
  pub set_current_scene-shows :
      (scene_name : Value) (s : Session) (answer : Fields)
      → (set_current_scene host scene_name s).0 ≡ ok answer
      → (name : String) × (scene_name ≡ str name) × Named "sceneName" name answer
  set_current_scene-shows scene_name s answer h =
      (set_current_scene-Answers scene_name).gives s answer h

  -- If `set_studio_mode` answers, its argument was a Boolean, the answer shows the mode that was asked
  -- for, and it says that this is verified.
  pub set_studio_mode-shows :
      (enabled : Value) (s : Session) (answer : Fields)
      → (set_studio_mode host enabled s).0 ≡ ok answer
      → (get "studioModeEnabled" answer ≡ enabled) × (get "verified" answer ≡ bool true)
  set_studio_mode-shows enabled s answer h = (set_studio_mode-Answers enabled).gives s answer h

  -- If `_output_mutation` (`start_output`, `stop_output`) answers, the answer shows the output that was
  -- asked for, by its name and its kind, in the state that was asked for, and says that this is
  -- verified.
  pub output_mutation-shows :
      (rt : String) (output_name : Value) (expected : Bool) (s : Session) (answer : Fields)
      → (output_mutation host rt output_name expected s).0 ≡ ok answer
      → ShownOutput output_name expected answer
  output_mutation-shows rt output_name expected s answer h =
      (output_mutation-Answers rt output_name expected).gives s answer h
