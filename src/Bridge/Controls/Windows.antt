-- ===== src/Bridge/Controls/Windows.antt =====
-- Window capture and the program frame in src/dcc_mcp_obs/bridge.py.
pub mod Matching
use dcc_mcp_obs.Base.{
  ℕ, ◌-◌, ◌^◌, String, count, Bool, true, false, not, ◌&&◌, ◌||◌, List, [], ◌∷◌, Option, none, some,
  between, ◌==◌, nat_eq, length, all, if◌then◌else◌,
}
use dcc_mcp_obs.Value.{pos, Value, null, bool, int, str, dict, Fields}
use dcc_mcp_obs.Value.Dict.{get, put, entries, merge, pick}
use dcc_mcp_obs.Value.Check.{is_true, equals_text, int_between, need, list_type, items_of, in_texts}
use dcc_mcp_obs.Value.Equal.{same_value}
use dcc_mcp_obs.Result.{Result, ok, err, bridge_error, ◌>>=◌, ◌>>◌}
use dcc_mcp_obs.Exec.{Exec, pure, lift, guard, ◌>>=◌ as bind}
use dcc_mcp_obs.Bridge.Constants.{identity_keys}
use dcc_mcp_obs.Bridge.Frame.{program_frame_width, program_frame_height, decode_program_frame}
use dcc_mcp_obs.Bridge.Validate.Scenes.{window_capture_methods}
use dcc_mcp_obs.Bridge.Controls.Items.{optional_name}
use dcc_mcp_obs.Value.Text.{all_codes}
use dcc_mcp_obs.Bridge.Host.{Host, Library}
use dcc_mcp_obs.Bridge.Session.{Session, operation_deadline, acknowledged}
use dcc_mcp_obs.Bridge.Reconcile.{verified, settle_by, mutate_then_settle}
use dcc_mcp_obs.Bridge.Controls.Arguments.{require_name, require_bool, now_checked}
use dcc_mcp_obs.Bridge.Controls.Windows.Matching.{
  CaptureArguments, window_capture_payload, bound_keys, shows_binding, title_value, same_executable,
  right_title, candidate_listed, listing_matches, is_candidate, matching, single_ready, is_some,
  restored_report, separator_free, require_executable, title_entry, require_window,
}

module _ (host : Host) where
  -- `_readback_window_capture`
  unfoldable pub readback_window_capture : Fields → ℕ → Exec Session Fields
  unfolding shows_binding
  readback_window_capture expected deadline =
      settle_by host "GetWindowCaptureSource" expected
        (λ readback. ok (shows_binding expected readback)) verified deadline

  -- a request about a binding, and the readback of that binding
  unfoldable pub window_mutation : String → Fields → Fields → Exec Session Fields
  unfolding readback_window_capture
  window_mutation rt payload expected = bind (operation_deadline host) (λ deadline.
      bind (acknowledged host rt payload deadline)
        (λ accepted. readback_window_capture expected deadline))

  unfoldable pub create_window_capture_source : CaptureArguments → Exec Session Fields
  unfolding window_mutation
  create_window_capture_source a =
      bind (lift (window_capture_payload a))
        (λ payload. window_mutation "CreateWindowCaptureSource" payload payload)

  unfoldable pub list_window_capture_candidates : Value → Value → Exec Session Fields
  unfolding require_executable optional_name title_entry listing_matches
  list_window_capture_candidates executable window_title =
      bind (lift (require_executable executable)) (λ program.
        bind (lift (optional_name window_title)) (λ title.
          bind
            (now_checked host "ListWindowCaptureCandidates"
              (entries (("executable", str program) ∷ title_entry title)))
            (λ result.
              bind
                (guard (listing_matches host.library program title result)
                  "OBS_POSTCONDITION_FAILED")
                (λ matched. pure result))))

  unfoldable pub restore_window_capture_candidate :
      Value → Value → Value → Value → Exec Session Fields
  unfolding require_executable require_window matching single_ready restored_report
  restore_window_capture_candidate executable process_id window_handle window_title =
      bind (lift (require_executable executable)) (λ program.
        bind (lift (require_window process_id window_handle)) (λ ids.
          bind (lift (require_name window_title)) (λ title.
            let found = λ (readback : Fields). single_ready (
              matching host.library program process_id window_handle (str title)
                (items_of (get "candidates" readback))) in
            mutate_then_settle host "RestoreWindowCaptureCandidate"
              (entries (
                ("executable", str program)
                ∷ ("processId", process_id)
                ∷ ("windowHandle", window_handle)
                ∷ ("windowTitle", str title)
                ∷ ("capability", str "window_capture")
                ∷ []))
              "ListWindowCaptureCandidates"
              (entries (("executable", str program) ∷ ("windowTitle", str title) ∷ []))
              (λ readback. ok (is_some (found readback)))
              (λ readback. restored_report readback (found readback)))))

  unfoldable pub get_window_capture_source : CaptureArguments → Exec Session Fields
  unfolding readback_window_capture
  get_window_capture_source a = bind (lift (window_capture_payload a)) (λ payload.
      bind (operation_deadline host) (λ deadline. readback_window_capture payload deadline))

  -- `a` is the new binding; the expected process, handle and title are those of the old one
  unfoldable pub rebind_window_capture_source :
      Value → Value → Value → CaptureArguments → Exec Session Fields
  unfolding window_mutation
  rebind_window_capture_source expected_process_id expected_window_handle expected_window_title a =
      bind
        (lift (
          window_capture_payload (record a {
            process_id = expected_process_id;
            window_handle = expected_window_handle;
            window_title = expected_window_title;
          })))
        (λ expected. bind (lift (window_capture_payload a)) (λ payload.
          window_mutation "RebindWindowCaptureSource"
            (merge payload (
              entries (
                ("expectedProcessId", get "processId" expected)
                ∷ ("expectedWindowHandle", get "windowHandle" expected)
                ∷ ("expectedWindowTitle", get "windowTitle" expected)
                ∷ [])))
            payload))

  unfoldable pub set_window_capture_method : CaptureArguments → Exec Session Fields
  unfolding window_mutation
  set_window_capture_method a =
      bind (lift (window_capture_payload a))
        (λ payload. window_mutation "SetWindowCaptureMethod" payload payload)

  unfoldable pub set_window_capture_audio : CaptureArguments → Exec Session Fields
  unfolding set_window_capture_method
  set_window_capture_audio a = set_window_capture_method a

  unfoldable pub capture_program_frame : Exec Session Fields
  capture_program_frame =
      bind
        (now_checked host "CaptureProgramFrame" (
          entries (
            ("imageFormat", str "png")
            ∷ ("imageWidth", int (pos program_frame_width))
            ∷ ("imageHeight", int (pos program_frame_height))
            ∷ [])))
        (λ response. bind (lift (decode_program_frame host.library response)) (λ image. pure (
          put "sha256" (str (host.library.sha256 image)) (
            put "byteLength" (int (pos (length image))) (
              put "imageHeight" (int (pos program_frame_height))
                (put "imageWidth" (int (pos program_frame_width)) response))))))
