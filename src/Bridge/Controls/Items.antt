-- ===== src/Bridge/Controls/Items.antt =====
-- Scene items in src/dcc_mcp_obs/bridge.py.
use dcc_mcp_obs.Base.{
  ℕ, zero, suc, String, count, ◌==◌, Bool, true, false, ◌&&◌, ◌||◌, List, [], ◌∷◌, Option, none,
  some, between, leb, if◌then◌else◌,
}
use dcc_mcp_obs.Value.{pos, negsuc, Value, null, bool, int, float, str, Fields}
use dcc_mcp_obs.Value.Dict.{get, entries, merge}
use dcc_mcp_obs.Value.Float.{int_too_large}
use dcc_mcp_obs.Value.Check.{is_true, is_false, is_bool, equals_text, number_type}
use dcc_mcp_obs.Bridge.Host.{Host, Library}
use dcc_mcp_obs.Result.{Error, bridge_error, overflow_error, Result, ok, err}
use dcc_mcp_obs.Exec.{Exec, pure, raise, lift, gets, ◌>>=◌, ◌>>◌}
use dcc_mcp_obs.Bridge.Session.{Session, checked, operation_deadline, acknowledged}
use dcc_mcp_obs.Bridge.Reconcile.{verified, poll_unless_last, settle_by, mutate_then_settle}
use dcc_mcp_obs.Bridge.Controls.Arguments.{
  require_name, require_item_id, require_bool, equals_nat, now_checked,
}

-- What a readback of a scene item is held against; `none` where the caller expects nothing.
pub record Expected : Type 0 where
  pub source : Option String
  pub kind : Option String
  pub enabled : Option Bool
  pub position : Option (Value × Value)
  pub scale : Option (Value × Value)
  pub rotation : Option Value

abbrev pub nothing_expected : Expected
nothing_expected = record {
  source = none;
  kind = none;
  enabled = none;
  position = none;
  scale = none;
  rotation = none;
}

shows_text : String → Option String → Fields → Bool
shows_text key none readback = true
shows_text key (some s) readback = equals_text s (get key readback)

shows_bool : String → Option Bool → Fields → Bool
shows_bool key none readback = true
shows_bool key (some b) readback = is_bool b (get key readback)

-- `if not a: False else b`, where both may raise
infixr 35 ◌and◌
abbrev pub ◌and◌ : Result Bool → Result Bool → Result Bool
ok true and b = b
ok false and b = ok false
err e and b = err e

-- float(v), which raises for an int that is too large, before the comparison
unfoldable pub converted : Value → Bool → Result Bool
converted (int (pos n)) close = if int_too_large n then err overflow_error else ok close
converted (int (negsuc n)) close = if int_too_large (suc n) then err overflow_error else ok close
converted (float bits) close = ok close
converted _ close = ok false

module _ (lib : Library) where
  unfoldable pub shows_number : String → Option Value → Fields → Result Bool
  unfolding converted
  shows_number key none readback = ok true
  shows_number key (some v) readback =
      converted (get key readback) (lib.is_close (get key readback) v)

  -- both components are numbers before either is compared
  unfoldable pub shows_pair : String → String → Option (Value × Value) → Fields → Result Bool
  unfolding shows_number
  shows_pair key_x key_y none readback = ok true
  shows_pair key_x key_y (some (x, y)) readback =
      ok (number_type (get key_x readback) && number_type (get key_y readback))
      and shows_number key_x (some x) readback
      and shows_number key_y (some y) readback

  -- the condition `valid` of `_readback_scene_item`
  unfoldable pub shows_item : String → ℕ → Expected → Fields → Result Bool
  unfolding shows_text shows_bool shows_number shows_pair
  shows_item scene_name item_id expected readback =
      ok (
        equals_text scene_name (get "sceneName" readback)
        && equals_nat item_id (get "sceneItemId" readback)
        && shows_text "sourceName" expected.source readback
        && shows_text "sourceKind" expected.kind readback
        && shows_bool "enabled" expected.enabled readback)
      and shows_pair "posX" "posY" expected.position readback
      and shows_pair "scaleX" "scaleY" expected.scale readback
      and shows_number "rotation" expected.rotation readback

unfoldable pub item_query : String → ℕ → Fields
item_query scene_name item_id =
    entries (("sceneName", str scene_name) ∷ ("sceneItemId", int (pos item_id)) ∷ [])

-- The id of an accepted item, an int above 0.
unfoldable pub created_item : Value → Result ℕ
created_item (int (pos n)) = if leb 1 n then ok n else err (bridge_error "OBS_RESPONSE_INVALID")
created_item _ = err (bridge_error "OBS_RESPONSE_INVALID")

-- `source_kind is None` or a name
unfoldable pub optional_name : Value → Result (Option String)
optional_name null = ok none
optional_name (str s) =
    if between 1 256 (count s) then ok (some s) else err (bridge_error "OBS_ARGUMENT_INVALID")
optional_name _ = err (bridge_error "OBS_ARGUMENT_INVALID")

kind_entry : Option String → List (String × Value)
kind_entry none = []
kind_entry (some kind) = ("sourceKind", str kind) ∷ []

module _ (host : Host) where
  -- `_readback_scene_item`
  unfoldable pub readback_scene_item : String → ℕ → Expected → ℕ → Exec Session Fields
  unfolding item_query
  readback_scene_item scene_name item_id expected deadline =
      settle_by host "GetSceneItem" (item_query scene_name item_id)
        (shows_item host.library scene_name item_id expected) verified deadline

  unfoldable pub list_scene_items : Value → Exec Session Fields
  list_scene_items scene_name = do
    name ← lift (require_name scene_name)
    now_checked host "ListSceneItems" (entries (("sceneName", str name) ∷ []))

  unfoldable pub get_scene_item : Value → Value → Exec Session Fields
  unfolding item_query
  get_scene_item scene_name scene_item_id = do
    name ← lift (require_name scene_name)
    item_id ← lift (require_item_id scene_item_id)
    now_checked host "GetSceneItem" (item_query name item_id)

  unfoldable pub create_scene_item : Value → Value → Value → Value → Exec Session Fields
  unfolding readback_scene_item created_item optional_name kind_entry
  create_scene_item scene_name source_name source_kind enabled = do
    scene ← lift (require_name scene_name)
    source ← lift (require_name source_name)
    kind ← lift (optional_name source_kind)
    wanted ← lift (require_bool enabled)
    deadline ← operation_deadline host
    accepted ←
        acknowledged host "CreateSceneItem"
          (merge
            (entries (
              ("sceneName", str scene)
              ∷ ("sourceName", str source)
              ∷ ("enabled", bool wanted)
              ∷ ("capability", str "scene_graph")
              ∷ []))
            (entries (kind_entry kind)))
          deadline
    item_id ← lift (created_item (get "sceneItemId" accepted))
    readback_scene_item scene item_id
        (record nothing_expected { source = some source; kind = kind; enabled = some wanted })
        deadline

  unfoldable pub set_scene_item_enabled : Value → Value → Value → Exec Session Fields
  unfolding readback_scene_item
  set_scene_item_enabled scene_name scene_item_id enabled = do
    scene ← lift (require_name scene_name)
    item_id ← lift (require_item_id scene_item_id)
    wanted ← lift (require_bool enabled)
    mutate_then_settle host "SetSceneItemEnabled"
        (entries (
          ("sceneName", str scene)
          ∷ ("sceneItemId", int (pos item_id))
          ∷ ("enabled", bool wanted)
          ∷ ("capability", str "scene_graph")
          ∷ []))
        "GetSceneItem" (item_query scene item_id)
        (shows_item host.library scene item_id (record nothing_expected { enabled = some wanted }))
        verified

  unfoldable pub update_scene_item : Value → Value → Value → Exec Session Fields
  unfolding set_scene_item_enabled
  update_scene_item scene_name scene_item_id null = raise (bridge_error "OBS_ARGUMENT_INVALID")
  update_scene_item scene_name scene_item_id enabled =
      set_scene_item_enabled scene_name scene_item_id enabled

  -- how `remove_scene_item` reads the answer to GetSceneItem: gone, still there, or an error that is
  -- raised again
  removed_report : String → ℕ → Fields
  removed_report scene item_id = entries (
      ("sceneName", str scene)
      ∷ ("sceneItemId", int (pos item_id))
      ∷ ("removed", bool true)
      ∷ ("verified", bool true)
      ∷ [])

  unfoldable pub judge_error : String → ℕ → Error → Exec Session Fields
  unfolding removed_report
  judge_error scene item_id (bridge_error code) =
      if code == "OBS_SCENE_ITEM_NOT_FOUND"
      then pure (removed_report scene item_id)
      else raise (bridge_error code)
  judge_error scene item_id e = raise e

  unfoldable pub judge_item : ℕ → ℕ → Exec Session Fields → Fields → Exec Session Fields
  judge_item deadline n retry readback =
      if is_false (get "exists" readback) || is_true (get "removed" readback)
      then pure (verified readback)
      else (do poll_unless_last host deadline n; retry)

  abbrev pub judge_answer :
      ℕ → String → ℕ → ℕ → Exec Session Fields → Result Fields → Exec Session Fields
  judge_answer deadline scene item_id n retry (ok readback) = judge_item deadline n retry readback
  judge_answer deadline scene item_id n retry (err e) = judge_error scene item_id e

  unfoldable pub settle_removed : ℕ → String → ℕ → ℕ → Exec Session Fields
  unfolding judge_error judge_item item_query
  settle_removed deadline scene item_id zero s = raise (bridge_error "OBS_POSTCONDITION_FAILED") s
  settle_removed deadline scene item_id (suc n) s =
      let (answer, t) = checked host "GetSceneItem" (item_query scene item_id) deadline s in
      let retry = settle_removed deadline scene item_id n in
      judge_answer deadline scene item_id n retry answer t

  unfoldable pub remove_scene_item : Value → Value → Exec Session Fields
  unfolding settle_removed
  remove_scene_item scene_name scene_item_id = do
    scene ← lift (require_name scene_name)
    item_id ← lift (require_item_id scene_item_id)
    deadline ← operation_deadline host
    accepted ←
        acknowledged host "RemoveSceneItem"
          (entries (
            ("sceneName", str scene)
            ∷ ("sceneItemId", int (pos item_id))
            ∷ ("capability", str "scene_graph")
            ∷ []))
          deadline
    attempts ← gets (λ s. s.postcondition_attempts)
    settle_removed deadline scene item_id attempts
