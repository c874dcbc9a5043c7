-- ===== src/Bridge/Controls/Presentation.antt =====
-- The presentation overlay in src/dcc_mcp_obs/bridge.py.
use dcc_mcp_obs.Base.{
  ℕ, String, Bool, true, false, not, ◌&&◌, List, [], ◌∷◌, Option, none, some, ◌==◌, leb, nat_eq,
  ◌%◌, ◌^◌, ◌*◌, mem_text, if◌then◌else◌,
}
use dcc_mcp_obs.Value.{
  pos, negsuc, Value, null, bool, int, float, str, list, dict, Fields, field, end, cons, nil,
}
use dcc_mcp_obs.Value.Dict.{get, has, put, without}
use dcc_mcp_obs.Value.Check.{is_bool, equals_text, int_between, need, need_member}
use dcc_mcp_obs.Value.Equal.{same_value}
use dcc_mcp_obs.Result.{Result, ok, err, bridge_error, type_error, value_error, runtime_error, ◌>>◌}
use dcc_mcp_obs.Exec.{Exec, pure, lift, guard, ◌>>=◌ as bind, ◌>>◌ as after}
use dcc_mcp_obs.Bridge.Host.{Host, Library, Resolved, resolved_to, os_error, bad_text, no_home}
use dcc_mcp_obs.Bridge.Validate.Overlays.{
  agent_input_overlay_anchors, valid_presentation_text, valid_presentation_rows, load_rows,
}
use dcc_mcp_obs.Bridge.Session.{Session, checked, operation_deadline, acknowledged}
use dcc_mcp_obs.Bridge.Reconcile.{verified}
use dcc_mcp_obs.Bridge.Controls.Arguments.{require_name, require_bool}
use dcc_mcp_obs.Bridge.Controls.AgentInput.Showing.{overlay_payload}
use dcc_mcp_obs.Bridge.Controls.Scenes.{select_scene}

abbrev pub presentation_overlay_image_suffixes : List String
presentation_overlay_image_suffixes = ".png" ∷ ".jpg" ∷ ".jpeg" ∷ ".webp" ∷ []

-- `_validate_presentation_layout`
unfoldable pub validate_presentation_layout : Value → Value → Value → Value → Result (Unit {0})
unfolding need
validate_presentation_layout anchor opacity margin width = do
  need_member "OBS_ARGUMENT_INVALID" agent_input_overlay_anchors anchor
  need "OBS_ARGUMENT_INVALID" (int_between 20 100 opacity)
  need "OBS_ARGUMENT_INVALID" (int_between 8 160 margin)
  need "OBS_ARGUMENT_INVALID" (int_between 360 960 width)

layout_entries : Value → Value → Value → Value → List (String × Value)
layout_entries anchor opacity margin width =
    ("anchor", anchor)
    ∷ ("opacity", opacity)
    ∷ ("margin", margin)
    ∷ ("width", width)
    ∷ ("capability", str "presentation_overlay")
    ∷ []

unfoldable pub shows_layout : Value → Value → Value → Value → Fields → Bool
shows_layout anchor opacity margin width readback =
    same_value (get "anchor" readback) anchor
    && same_value (get "opacity" readback) opacity
    && same_value (get "margin" readback) margin
    && same_value (get "width" readback) width

-- bool(v)
unfoldable pub truthy : Value → Bool
truthy null = false
truthy (bool b) = b
truthy (int (pos n)) = not (nat_eq n 0)
truthy (int (negsuc n)) = true
truthy (float bits) = not (nat_eq (bits % 2 ^ 63) 0)
truthy (str s) = not (s == "")
truthy (list nil) = false
truthy (list (cons v vs)) = true
truthy (dict end) = false
truthy (dict (field k v d)) = true

-- rows_json of a response: the text "[]" where the key is missing
unfoldable pub rows_json : Fields → Value
rows_json response = if has "rowsJson" response then get "rowsJson" response else str "[]"

module _ (lib : Library) where
  small_file : Option ℕ → Bool
  small_file none = false
  small_file (some size) = leb size (16 * 1024 * 1024)

  -- an image of at most 16 MiB, under its absolute path
  unfoldable pub resolved_logo : Resolved → Result String
  unfolding small_file
  resolved_logo os_error = err (bridge_error "OBS_ARGUMENT_INVALID")
  resolved_logo bad_text = err value_error
  resolved_logo no_home = err runtime_error
  resolved_logo (resolved_to path) =
      if lib.path_absolute path
        && mem_text presentation_overlay_image_suffixes (lib.lower (lib.suffix path))
        && small_file (lib.file_size path)
      then ok path
      else err (bridge_error "OBS_ARGUMENT_INVALID")

  -- the path to send, "" for none; `Path` takes a text alone
  unfoldable pub normalize_logo : Value → Result String
  unfolding resolved_logo
  normalize_logo (str s) = if s == "" then ok "" else resolved_logo (lib.resolve s)
  normalize_logo v = if truthy v then err type_error else ok ""

module _ (host : Host) where
  -- `_get_presentation_overlay`
  unfoldable pub read_presentation_overlay : String → String → ℕ → Exec Session Fields
  unfolding rows_json load_rows valid_presentation_rows
  read_presentation_overlay scene source deadline =
      bind (checked host "GetPresentationOverlay" (overlay_payload scene source []) deadline)
        (λ response.
          after
            (guard
              (equals_text scene (get "sceneName" response)
                && equals_text source (get "sourceName" response))
              "OBS_POSTCONDITION_FAILED")
            (bind (lift (load_rows host.library (rows_json response))) (λ rows.
              after (guard (valid_presentation_rows rows) "OBS_RESPONSE_INVALID")
                (pure (put "rows" rows (without "rowsJson" response))))))

  -- a request about the overlay, and one readback
  unfoldable pub presentation_mutation :
      String → String → String → List (String × Value) → (Fields → Bool) → Exec Session Fields
  unfolding read_presentation_overlay
  presentation_mutation rt scene source more shows = bind (operation_deadline host) (λ deadline.
      bind (acknowledged host rt (overlay_payload scene source more) deadline) (λ accepted.
        bind (read_presentation_overlay scene source deadline) (λ readback.
          after (guard (shows readback) "OBS_POSTCONDITION_FAILED") (pure (verified readback)))))

  unfoldable pub get_presentation_overlay : Value → Value → Exec Session Fields
  unfolding read_presentation_overlay
  get_presentation_overlay scene_name source_name = bind (lift (require_name scene_name)) (λ scene.
      bind (lift (require_name source_name)) (λ source.
        bind (operation_deadline host)
          (λ deadline. read_presentation_overlay scene source deadline)))

  unfoldable pub create_presentation_overlay :
      Value → Value → Value → Value → Value → Value → Exec Session Fields
  unfolding presentation_mutation validate_presentation_layout layout_entries shows_layout
  create_presentation_overlay scene_name source_name anchor opacity margin width =
      bind (lift (require_name scene_name)) (λ scene.
        bind (lift (require_name source_name)) (λ source.
          after (lift (validate_presentation_layout anchor opacity margin width)) (
            bind (select_scene host (str scene)) (λ selected.
              presentation_mutation "CreatePresentationOverlay" scene source
                (layout_entries anchor opacity margin width)
                (shows_layout anchor opacity margin width)))))

  unfoldable pub set_presentation_overlay_layout :
      Value → Value → Value → Value → Value → Value → Exec Session Fields
  unfolding presentation_mutation validate_presentation_layout layout_entries shows_layout
  set_presentation_overlay_layout scene_name anchor opacity margin width source_name =
      bind (lift (require_name scene_name)) (λ scene.
        bind (lift (require_name source_name)) (λ source.
          after (lift (validate_presentation_layout anchor opacity margin width)) (
            presentation_mutation "SetPresentationOverlayLayout" scene source
              (layout_entries anchor opacity margin width)
              (shows_layout anchor opacity margin width))))

  unfoldable pub update_presentation_overlay :
      Value → Value → Value → Value → Value → Value → Exec Session Fields
  unfolding presentation_mutation normalize_logo
  update_presentation_overlay scene_name title rows logo_path visible source_name =
      bind (lift (require_name scene_name)) (λ scene.
        bind (lift (require_name source_name)) (λ source.
          after
            (guard (valid_presentation_text 128 title && valid_presentation_rows rows)
              "OBS_ARGUMENT_INVALID")
            (bind (lift (require_bool visible)) (λ wanted.
              bind (lift (normalize_logo host.library logo_path)) (λ logo.
                presentation_mutation "UpdatePresentationOverlay" scene source
                  (("title", title)
                    ∷ ("rowsJson", str (host.library.dumps rows))
                    ∷ ("logoPath", str logo)
                    ∷ ("visible", bool wanted)
                    ∷ ("capability", str "presentation_overlay")
                    ∷ [])
                  (λ readback.
                    same_value (get "title" readback) title
                    && same_value (get "rows" readback) rows
                    && equals_text logo (get "logoPath" readback)
                    && is_bool wanted (get "visible" readback)))))))
