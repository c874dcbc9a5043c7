-- ===== src/Bridge/Controls/Filters.antt =====
-- Filters in src/dcc_mcp_obs/bridge.py.
use dcc_mcp_obs.Base.{String, ◌&&◌, [], ◌∷◌}
use dcc_mcp_obs.Value.{Value, bool, float, str, dict, Fields, field, end}
use dcc_mcp_obs.Value.Dict.{get, entries}
use dcc_mcp_obs.Value.Check.{is_bool}
use dcc_mcp_obs.Value.Equal.{same_value}
use dcc_mcp_obs.Result.{ok}
use dcc_mcp_obs.Exec.{Exec, lift, ◌>>=◌}
use dcc_mcp_obs.Bridge.Host.{Host}
use dcc_mcp_obs.Bridge.Settings.{normalize_filter_settings}
use dcc_mcp_obs.Bridge.Session.{Session}
use dcc_mcp_obs.Bridge.Reconcile.{mutate_and_reconcile}
use dcc_mcp_obs.Bridge.Controls.Arguments.{require_name, require_bool, now_checked}
use dcc_mcp_obs.Bridge.Controls.Sources.{removed}

-- the payload of GetFilter
unfoldable pub filter_query : String → String → Value → Value → Fields
unfolding entries
filter_query source filter filter_kind schema_version = entries (
    ("sourceName", str source)
    ∷ ("filterName", str filter)
    ∷ ("filterKind", filter_kind)
    ∷ ("schemaVersion", schema_version)
    ∷ [])

module _ (host : Host) where
  unfoldable pub list_filters : Value → Exec Session Fields
  list_filters source_name = do
    source ← lift (require_name source_name)
    now_checked host "ListFilters" (entries (("sourceName", str source) ∷ []))

  unfoldable pub get_filter : Value → Value → Value → Value → Exec Session Fields
  unfolding filter_query
  get_filter source_name filter_name filter_kind schema_version = do
    source ← lift (require_name source_name)
    filter ← lift (require_name filter_name)
    reviewed ← lift (
        normalize_filter_settings host.library filter_kind schema_version
          (dict (field "db" (float 0) end)))
    now_checked host "GetFilter" (filter_query source filter filter_kind schema_version)

  unfoldable pub create_filter : Value → Value → Value → Value → Value → Value → Exec Session Fields
  unfolding filter_query
  create_filter source_name filter_name filter_kind schema_version settings enabled = do
    source ← lift (require_name source_name)
    filter ← lift (require_name filter_name)
    normalized ← lift (normalize_filter_settings host.library filter_kind schema_version settings)
    wanted ← lift (require_bool enabled)
    mutate_and_reconcile host "CreateFilter"
        (entries (
          ("sourceName", str source)
          ∷ ("filterName", str filter)
          ∷ ("filterKind", filter_kind)
          ∷ ("schemaVersion", schema_version)
          ∷ ("settings", dict normalized)
          ∷ ("enabled", bool wanted)
          ∷ ("capability", str "filters")
          ∷ []))
        "GetFilter" (filter_query source filter filter_kind schema_version)
        (λ result. ok (
          same_value (get "settings" result) (dict normalized)
          && is_bool wanted (get "enabled" result)))

  unfoldable pub set_filter_enabled : Value → Value → Value → Exec Session Fields
  set_filter_enabled source_name filter_name enabled = do
    source ← lift (require_name source_name)
    filter ← lift (require_name filter_name)
    wanted ← lift (require_bool enabled)
    mutate_and_reconcile host "SetFilterEnabled"
        (entries (
          ("sourceName", str source)
          ∷ ("filterName", str filter)
          ∷ ("enabled", bool wanted)
          ∷ ("capability", str "filters")
          ∷ []))
        "GetFilter" (entries (("sourceName", str source) ∷ ("filterName", str filter) ∷ []))
        (λ result. ok (is_bool wanted (get "enabled" result)))

  unfoldable pub set_filter_settings : Value → Value → Value → Value → Value → Exec Session Fields
  unfolding filter_query
  set_filter_settings source_name filter_name filter_kind schema_version settings = do
    source ← lift (require_name source_name)
    filter ← lift (require_name filter_name)
    normalized ← lift (normalize_filter_settings host.library filter_kind schema_version settings)
    mutate_and_reconcile host "SetFilterSettings"
        (entries (
          ("sourceName", str source)
          ∷ ("filterName", str filter)
          ∷ ("filterKind", filter_kind)
          ∷ ("schemaVersion", schema_version)
          ∷ ("settings", dict normalized)
          ∷ ("capability", str "filters")
          ∷ []))
        "GetFilter" (filter_query source filter filter_kind schema_version)
        (λ result. ok (same_value (get "settings" result) (dict normalized)))

  unfoldable pub remove_filter : Value → Value → Exec Session Fields
  remove_filter source_name filter_name = do
    source ← lift (require_name source_name)
    filter ← lift (require_name filter_name)
    removed host "RemoveFilter" (
        entries (
          ("sourceName", str source)
          ∷ ("filterName", str filter)
          ∷ ("capability", str "filters")
          ∷ []))
