-- ===== src/Bridge/Controls/AgentInput.antt =====
-- The methods of the agent input overlay in src/dcc_mcp_obs/bridge.py.
pub mod Showing
pub mod Keys
use dcc_mcp_obs.Base.{
  ℕ, String, count, Bool, true, false, not, ◌&&◌, List, [], ◌∷◌, between, leb, length, all,
  if◌then◌else◌,
}
use dcc_mcp_obs.Value.{pos, Value, null, int, str, list, Fields, Items, cons, nil, elements}
use dcc_mcp_obs.Value.Dict.{get, put, without, entries}
use dcc_mcp_obs.Value.Text.{split_commas, join_commas, all_codes, printable}
use dcc_mcp_obs.Value.Check.{
  is_true, is_false, equals_text, int_type, int_between, need, need_member, in_texts,
}
use dcc_mcp_obs.Value.Equal.{same_value}
use dcc_mcp_obs.Result.{Result, ok, err, bridge_error, ◌>>◌}
use dcc_mcp_obs.Exec.{Exec, pure, lift, guard, ◌>>=◌ as bind, ◌>>◌ as after}
use dcc_mcp_obs.Bridge.Host.{Host}
use dcc_mcp_obs.Bridge.Validate.Overlays.{
  agent_input_overlay_anchors, agent_input_event_kinds, agent_input_keys, agent_input_mouse_buttons,
  agent_input_wheel_directions,
}
use dcc_mcp_obs.Bridge.Session.{Session, checked, operation_deadline, acknowledged}
use dcc_mcp_obs.Bridge.Reconcile.{verified}
use dcc_mcp_obs.Bridge.Controls.Arguments.{require_name}
use dcc_mcp_obs.Bridge.Controls.Scenes.{select_scene}
use dcc_mcp_obs.Bridge.Controls.AgentInput.Showing.{
  keys_in, text_items, response_keys, texts_of, keys_argument, valid_agent_id, Activity, agree,
  one_kind, require_activity, still_shown, shows_activity, shows_nothing, overlay_payload,
}

module _ (host : Host) where
  -- `_get_agent_input_overlay`
  unfoldable pub read_agent_input_overlay : String → String → ℕ → Exec Session Fields
  unfolding response_keys
  read_agent_input_overlay scene source deadline =
      bind (checked host "GetAgentInputOverlay" (overlay_payload scene source []) deadline)
        (λ response.
          after
            (guard
              (equals_text scene (get "sceneName" response)
                && equals_text source (get "sourceName" response))
              "OBS_POSTCONDITION_FAILED")
            (pure (
              put "keys" (list (response_keys (get "keysCsv" response)))
                (without "keysCsv" response))))

  -- the readback that each change is held against, once
  unfoldable pub confirm_agent_input : String → String → ℕ → (Fields → Bool) → Exec Session Fields
  unfolding read_agent_input_overlay
  confirm_agent_input scene source deadline shows =
      bind (read_agent_input_overlay scene source deadline) (λ readback.
        after (guard (shows readback) "OBS_POSTCONDITION_FAILED") (pure (verified readback)))

  unfoldable pub create_agent_input_overlay : Value → Value → Value → Exec Session Fields
  unfolding confirm_agent_input
  create_agent_input_overlay scene_name source_name anchor =
      bind (lift (require_name scene_name)) (λ scene.
        bind (lift (require_name source_name)) (λ source.
          bind (lift (need_member "OBS_ARGUMENT_INVALID" agent_input_overlay_anchors anchor))
            (λ known. bind (select_scene host (str scene)) (λ selected.
              bind (operation_deadline host) (λ deadline.
                bind
                  (acknowledged host "CreateAgentInputOverlay"
                    (overlay_payload scene source
                      (("anchor", anchor) ∷ ("capability", str "agent_input_overlay") ∷ []))
                    deadline)
                  (λ accepted.
                    confirm_agent_input scene source deadline
                      (λ readback. same_value (get "anchor" readback) anchor)))))))

  unfoldable pub get_agent_input_overlay : Value → Value → Exec Session Fields
  unfolding read_agent_input_overlay
  get_agent_input_overlay scene_name source_name = bind (lift (require_name scene_name)) (λ scene.
      bind (lift (require_name source_name)) (λ source.
        bind (operation_deadline host)
          (λ deadline. read_agent_input_overlay scene source deadline)))

  unfoldable pub set_agent_input_overlay_layout :
      Value → Value → Value → Value → Value → Exec Session Fields
  unfolding confirm_agent_input
  set_agent_input_overlay_layout scene_name anchor opacity margin source_name =
      bind (lift (require_name scene_name)) (λ scene.
        bind (lift (require_name source_name)) (λ source.
          bind
            (lift (do
              need_member "OBS_ARGUMENT_INVALID" agent_input_overlay_anchors anchor
              need "OBS_ARGUMENT_INVALID" (int_between 20 100 opacity)
              need "OBS_ARGUMENT_INVALID" (int_between 8 160 margin)))
            (λ known. bind (operation_deadline host) (λ deadline.
              bind
                (acknowledged host "SetAgentInputOverlayLayout"
                  (overlay_payload scene source (
                    ("anchor", anchor)
                    ∷ ("opacity", opacity)
                    ∷ ("margin", margin)
                    ∷ ("capability", str "agent_input_overlay")
                    ∷ []))
                  deadline)
                (λ accepted. confirm_agent_input scene source deadline (λ readback.
                  same_value (get "anchor" readback) anchor
                  && same_value (get "opacity" readback) opacity
                  && same_value (get "margin" readback) margin))))))

  -- an accepted answer with an int `activitySequence`, and the readback it is held against
  unfoldable pub overlay_activity :
      String → String → String → Fields → (Value → Fields → Bool) → Exec Session Fields
  unfolding confirm_agent_input
  overlay_activity rt scene source payload shows = bind (operation_deadline host) (λ deadline.
      bind (checked host rt payload deadline) (λ accepted.
        after
          (guard (is_true (get "accepted" accepted) && int_type (get "activitySequence" accepted))
            "OBS_MUTATION_REJECTED")
          (confirm_agent_input scene source deadline (shows (get "activitySequence" accepted)))))

  unfoldable pub emit_agent_input_activity :
      Value → Value → Value → Value → Value → Value → Value → Value → Value → Exec Session Fields
  unfolding keys_argument require_activity texts_of shows_activity overlay_activity
  emit_agent_input_activity scene_name event_kind source_name keys mouse_button wheel_direction
        character_count duration_ms agent_id =
      bind (lift (require_name scene_name)) (λ scene.
        bind (lift (require_name source_name)) (λ source.
          bind (lift (keys_argument keys)) (λ pressed.
            let a : Activity = record {
              event_kind = event_kind;
              keys = pressed;
              mouse_button = mouse_button;
              wheel_direction = wheel_direction;
              character_count = character_count;
              duration_ms = duration_ms;
              agent_id = agent_id;
            } in
            after (lift (require_activity a)) (
              overlay_activity "EmitAgentInputActivity" scene source
                (overlay_payload scene source (
                  ("eventKind", event_kind)
                  ∷ ("keysCsv", str (join_commas (texts_of pressed)))
                  ∷ ("mouseButton", mouse_button)
                  ∷ ("wheelDirection", wheel_direction)
                  ∷ ("characterCount", character_count)
                  ∷ ("durationMs", duration_ms)
                  ∷ ("agentId", agent_id)
                  ∷ ("capability", str "agent_input_overlay")
                  ∷ []))
                (shows_activity a)))))

  unfoldable pub clear_agent_input_overlay : Value → Value → Exec Session Fields
  unfolding shows_nothing overlay_activity
  clear_agent_input_overlay scene_name source_name = bind (lift (require_name scene_name)) (λ scene.
      bind (lift (require_name source_name)) (λ source.
        overlay_activity "ClearAgentInputOverlay" scene source
          (overlay_payload scene source (("capability", str "agent_input_overlay") ∷ []))
          shows_nothing))
