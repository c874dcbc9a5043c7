-- ===== src/Bridge/Calls/Answers/Windows.antt =====
-- What the answers of the window capture methods of src/dcc_mcp_obs/bridge.py show.
use dcc_mcp_obs.Base.{String, true, false, ◌≡◌, refl, sym, [], ◌∷◌, all-mem, mem_text, ◌==◌}
use dcc_mcp_obs.Value.{Value, bool, str, Fields}
use dcc_mcp_obs.Value.Dict.{get, put, entries, get-put, get-put_self}
use dcc_mcp_obs.Value.Equal.{same_value}
use dcc_mcp_obs.Result.{ok}
use dcc_mcp_obs.Result.Yields.{Yields, Yields-ok, Yields-bind}
use dcc_mcp_obs.Bridge.Host.{Host}
use dcc_mcp_obs.Bridge.Session.{Session}
use dcc_mcp_obs.Bridge.Reconcile.{verified, mutate_then_settle}
use dcc_mcp_obs.Bridge.Controls.Arguments.{require_name}
use dcc_mcp_obs.Bridge.Controls.Windows.Matching.{
  CaptureArguments, window_capture_payload, bound_keys, shows_binding,
}
use dcc_mcp_obs.Bridge.Controls.Windows.{
  window_mutation, readback_window_capture, rebind_window_capture_source,
}
use dcc_mcp_obs.Bridge.Calls.Answers.{
  Answers, Answers-lift, Answers-weaken, Shows, mutate_then_settle-Answers,
}
use dcc_mcp_obs.Bridge.Calls.Answers.Methods.{require_name-str, ok-true, and_right}

-- The answer shows the window, the title and the method that were asked for, and says that the binding
-- is verified.
pub record ShownWindow (a : CaptureArguments) (answer : Fields) : Type 0 where
  pub process : same_value (get "processId" answer) a.process_id ≡ true
  pub handle : same_value (get "windowHandle" answer) a.window_handle ≡ true
  pub title : same_value (get "windowTitle" answer) a.window_title ≡ true
  pub method : same_value (get "captureMethod" answer) a.capture_method ≡ true
  pub verified_flag : get "verified" answer ≡ bool true

abbrev Sent : CaptureArguments → Fields → Type 0
Sent a payload =
    (get "processId" payload ≡ a.process_id)
    × (get "windowHandle" payload ≡ a.window_handle)
    × (get "windowTitle" payload ≡ a.window_title)
    × (get "captureMethod" payload ≡ a.capture_method)

sent :
    (a : CaptureArguments) (scene source title : Value) (cursor area audio enabled : Value)
    → title ≡ a.window_title
    → Yields (Sent a) (
        ok (
          entries (
            ("sceneName", scene)
            ∷ ("sourceName", source)
            ∷ ("processId", a.process_id)
            ∷ ("windowHandle", a.window_handle)
            ∷ ("windowTitle", title)
            ∷ ("captureCursor", cursor)
            ∷ ("clientArea", area)
            ∷ ("captureAudio", audio)
            ∷ ("captureMethod", a.capture_method)
            ∷ ("enabled", enabled)
            ∷ ("capability", str "window_capture")
            ∷ [])))
unfolding get entries
sent a scene source title cursor area audio enabled asked = Yields-ok _ (refl, refl, asked, refl)

window_capture_payload-Sent : (a : CaptureArguments) → Yields (Sent a) (window_capture_payload a)
unfolding window_capture_payload
window_capture_payload-Sent a = Yields-bind (require_name a.scene_name) _ λ scene _.
    Yields-bind (require_name a.source_name) _ λ source _.
      Yields-bind (require_name a.window_title) _ λ title titled.
        let asked = sym (require_name-str a.window_title title titled) in
        search (Yields-bind, Yields-ok, sent, asked) depth 24

shown_at :
    (payload readback : Fields) (key : String)
    → mem_text bound_keys key ≡ true
    → shows_binding payload readback ≡ true
    → same_value (get key readback) (get key payload) ≡ true
unfolding shows_binding
shown_at payload readback key listed shows =
    all-mem (λ k. same_value (get k readback) (get k payload)) bound_keys key (and_right _ _ shows)
      listed

shown_as :
    (payload readback : Fields) (key : String) (wanted : Value)
    → mem_text bound_keys key ≡ true
    → ("verified" == key) ≡ false
    → shows_binding payload readback ≡ true
    → get key payload ≡ wanted
    → same_value (get key (put "verified" (bool true) readback)) wanted ≡ true
shown_as payload readback key wanted listed other shows asked =
    rw (get-put "verified" key (bool true) readback, other, sym asked)
      (shown_at payload readback key listed shows)

module _ (host : Host) where
  window_mutation-Answers :
      (rt : String) (payload : Fields) (a : CaptureArguments) (expected : Fields)
      → Sent a expected
      → Answers (ShownWindow a) (window_mutation host rt payload expected)
  unfolding window_mutation readback_window_capture mutate_then_settle Shows verified
  window_mutation-Answers rt payload a expected (process_is, handle_is, title_is, method_is) =
      Answers-weaken
        (mutate_then_settle-Answers host rt payload "GetWindowCaptureSource" expected
          (λ readback. ok (shows_binding expected readback)) verified)
        λ answer shows.
          let (readback, matched, shape) = shows in
          let shown = ok-true matched in
          rw shape (record {
            process =
                shown_as expected readback "processId" a.process_id refl refl shown process_is;
            handle =
                shown_as expected readback "windowHandle" a.window_handle refl refl shown handle_is;
            title =
                shown_as expected readback "windowTitle" a.window_title refl refl shown title_is;
            method =
                shown_as expected readback "captureMethod" a.capture_method refl refl shown
                  method_is;
            verified_flag = get-put_self "verified" (bool true) readback;
          })

  rebind-Answers :
      (old_process old_handle old_title : Value) (a : CaptureArguments)
      → Answers
          (ShownWindow a)
          (rebind_window_capture_source host old_process old_handle old_title a)
  unfolding rebind_window_capture_source
  rebind-Answers old_process old_handle old_title a =
      Answers-lift (window_capture_payload _) _ λ expected _.
        Answers-lift (window_capture_payload a) _ λ payload accepted.
          window_mutation-Answers "RebindWindowCaptureSource" _ a payload
            ((window_capture_payload-Sent a).gives payload accepted)

  -- If `rebind_window_capture_source` answers, the answer shows the new window and title and the method
  -- that were asked for, whatever the old binding was, and says that this is verified.
  pub rebind_window_capture_source-shows :
      (old_process old_handle old_title : Value) (a : CaptureArguments) (s : Session)
      (answer : Fields)
      → (rebind_window_capture_source host old_process old_handle old_title a s).0 ≡ ok answer
      → ShownWindow a answer
  rebind_window_capture_source-shows old_process old_handle old_title a s answer h =
      (rebind-Answers old_process old_handle old_title a).gives s answer h
