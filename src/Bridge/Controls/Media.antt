-- ===== src/Bridge/Controls/Media.antt =====
-- Volume, mute, monitoring and media of a source in src/dcc_mcp_obs/bridge.py.
use dcc_mcp_obs.Base.{
  ℕ, ◌-◌, ◌+◌, String, Bool, true, false, ◌&&◌, List, [], ◌∷◌, ◌++◌, Option, none, some, leb,
  if◌then◌else◌,
}
use dcc_mcp_obs.Value.{pos, negsuc, Value, bool, int, float, str, Fields}
use dcc_mcp_obs.Value.Dict.{get, entries}
use dcc_mcp_obs.Value.Float.{float_from_zero}
use dcc_mcp_obs.Value.Check.{equals_text, need, need_member, number_type, number_finite}
use dcc_mcp_obs.Value.Equal.{same_value}
use dcc_mcp_obs.Result.{Result, ok, err, bridge_error, ◌>>=◌, ◌>>◌}
use dcc_mcp_obs.Exec.{Exec, lift, ◌>>=◌ as bind}
use dcc_mcp_obs.Bridge.Host.{Host, Library}
use dcc_mcp_obs.Bridge.Settings.{source_monitor_types, to_float}
use dcc_mcp_obs.Bridge.Session.{Session}
use dcc_mcp_obs.Bridge.Reconcile.{mutate_and_reconcile}
use dcc_mcp_obs.Bridge.Controls.Items.{converted}
use dcc_mcp_obs.Bridge.Controls.Arguments.{require_name, require_bool, now_checked}

abbrev pub media_seek_readback_tolerance_ms : ℕ
media_seek_readback_tolerance_ms = 250

-- 0 <= volume <= 20, of a finite number
unfoldable pub in_volume_range : Value → Bool
unfolding float_from_zero
in_volume_range (int (pos n)) = leb n 20
in_volume_range (float bits) = float_from_zero 0x4034000000000000 bits
in_volume_range _ = false

-- what `_source_mutation` waits for: close volumes where both are numbers, equality else
unfoldable pub shows_volume : Library → Value → Value → Result Bool
unfolding converted
shows_volume lib expected (int n) = converted (int n) (lib.volume_close (int n) expected)
shows_volume lib expected (float bits) = ok (lib.volume_close (float bits) expected)
shows_volume lib expected actual = ok (same_value actual expected)

-- abs(cursor - expected) <= MEDIA_SEEK_READBACK_TOLERANCE_MS, of an int
unfoldable pub near_cursor : ℕ → Value → Bool
near_cursor expected (int (pos n)) =
    leb (n - expected) media_seek_readback_tolerance_ms
    && leb (expected - n) media_seek_readback_tolerance_ms
near_cursor expected (int (negsuc n)) = leb (expected + n + 1) media_seek_readback_tolerance_ms
near_cursor expected _ = false

unfoldable pub shows_state : Option String → Fields → Bool
unfolding equals_text get
shows_state none result = true
shows_state (some state) result = equals_text state (get "mediaState" result)

unfoldable pub shows_cursor : Option ℕ → Fields → Bool
unfolding near_cursor get
shows_cursor none result = true
shows_cursor (some cursor) result = near_cursor cursor (get "mediaCursorMs" result)

-- `type(media_cursor_ms) is not int or not 0 <= media_cursor_ms <= 86_400_000`
unfoldable pub require_cursor : Value → Result ℕ
require_cursor (int (pos n)) =
    if leb n 86400000 then ok n else err (bridge_error "OBS_ARGUMENT_INVALID")
require_cursor _ = err (bridge_error "OBS_ARGUMENT_INVALID")

-- a finite number from 0 to 20, as a float
unfoldable pub require_volume : Library → Value → Result Value
unfolding in_volume_range
require_volume lib volume = do
  need "OBS_ARGUMENT_INVALID" (number_type volume)
  finite ← number_finite volume
  need "OBS_ARGUMENT_INVALID" finite
  need "OBS_ARGUMENT_INVALID" (in_volume_range volume)
  ok (to_float lib volume)

cursor_entry : Option ℕ → List (String × Value)
cursor_entry none = []
cursor_entry (some cursor) = ("mediaCursorMs", int (pos cursor)) ∷ []

module _ (host : Host) where
  -- `_source_status`
  unfoldable pub source_status : String → Value → Exec Session Fields
  source_status rt source_name =
      bind (lift (require_name source_name))
        (λ source. now_checked host rt (entries (("sourceName", str source) ∷ [])))

  -- `_source_mutation`, whose `values` are one entry and whose `matches` is given
  unfoldable pub source_mutation :
      String → String → Value → String → Value → (Fields → Result Bool) → Exec Session Fields
  source_mutation rt readback_type source_name key value matches =
      bind (lift (require_name source_name)) (λ source.
        mutate_and_reconcile host rt
          (entries (("sourceName", str source) ∷ (key, value) ∷ ("capability", str "audio") ∷ []))
          readback_type (entries (("sourceName", str source) ∷ [])) matches)

  unfoldable pub get_source_volume : Value → Exec Session Fields
  unfolding source_status
  get_source_volume source_name = source_status "GetSourceVolume" source_name

  unfoldable pub set_source_volume : Value → Value → Exec Session Fields
  unfolding source_mutation require_volume shows_volume
  set_source_volume source_name volume = bind (lift (require_volume host.library volume)) (λ wanted.
      source_mutation "SetSourceVolume" "GetSourceVolume" source_name "volume" wanted
        (λ result. shows_volume host.library wanted (get "volume" result)))

  unfoldable pub get_source_mute : Value → Exec Session Fields
  unfolding source_status
  get_source_mute source_name = source_status "GetSourceMute" source_name

  unfoldable pub set_source_mute : Value → Value → Exec Session Fields
  unfolding source_mutation
  set_source_mute source_name muted = bind (lift (require_bool muted)) (λ wanted.
      source_mutation "SetSourceMute" "GetSourceMute" source_name "muted" (bool wanted)
        (λ result. ok (same_value (get "muted" result) (bool wanted))))

  unfoldable pub get_source_monitor_type : Value → Exec Session Fields
  unfolding source_status
  get_source_monitor_type source_name = source_status "GetSourceMonitorType" source_name

  unfoldable pub set_source_monitor_type : Value → Value → Exec Session Fields
  unfolding source_mutation
  set_source_monitor_type source_name monitor_type =
      bind (lift (need_member "OBS_ARGUMENT_INVALID" source_monitor_types monitor_type)) (λ known.
        source_mutation "SetSourceMonitorType" "GetSourceMonitorType" source_name "monitorType"
          monitor_type (λ result. ok (same_value (get "monitorType" result) monitor_type)))

  unfoldable pub get_media_status : Value → Exec Session Fields
  unfolding source_status
  get_media_status source_name = source_status "GetMediaStatus" source_name

  -- `_media_mutation`
  unfoldable pub media_mutation : String → Value → Option String → Option ℕ → Exec Session Fields
  unfolding cursor_entry shows_state shows_cursor
  media_mutation rt source_name state cursor = bind (lift (require_name source_name)) (λ source.
      mutate_and_reconcile host rt
        (entries (
          (("sourceName", str source) ∷ cursor_entry cursor) ++ (("capability", str "media") ∷ [])))
        "GetMediaStatus" (entries (("sourceName", str source) ∷ []))
        (λ result. ok (shows_state state result && shows_cursor cursor result)))

  unfoldable pub play_media : Value → Exec Session Fields
  unfolding media_mutation
  play_media source_name = media_mutation "PlayMedia" source_name (some "playing") none

  unfoldable pub pause_media : Value → Exec Session Fields
  unfolding media_mutation
  pause_media source_name = media_mutation "PauseMedia" source_name (some "paused") none

  unfoldable pub restart_media : Value → Exec Session Fields
  unfolding media_mutation
  restart_media source_name = media_mutation "RestartMedia" source_name (some "playing") none

  unfoldable pub stop_media : Value → Exec Session Fields
  unfolding media_mutation
  stop_media source_name = media_mutation "StopMedia" source_name (some "stopped") none

  unfoldable pub seek_media : Value → Value → Exec Session Fields
  unfolding media_mutation require_cursor
  seek_media source_name media_cursor_ms =
      bind (lift (require_cursor media_cursor_ms))
        (λ cursor. media_mutation "SeekMedia" source_name none (some cursor))
