-- ===== src/Bridge/Controls/Recording.antt =====
-- Recording in src/dcc_mcp_obs/bridge.py: `_recording_mutation`, whose loop for StopRecording is
-- bounded by the deadline alone and not by the attempts.
pub mod Ends
use dcc_mcp_obs.Base.{
  ℕ, zero, suc, ◌+◌, ◌-◌, ◌*◌, ◌^◌, ◌≤◌, ◌<◌, min, String, count, ◌==◌, Bool, true, false, not,
  ◌&&◌, ◌||◌, List, [], ◌∷◌, ◌++◌, Option, none, some, length, take, drop, between, leb, ltb,
  nat_eq, all, mem_text, if◌then◌else◌,
}
use dcc_mcp_obs.Value.{
  ℤ, pos, negsuc, Value, null, bool, int, float, str, list, dict, Fields, end, field, elements,
}
use dcc_mcp_obs.Value.Dict.{get, entries, merge, has, put, pick, keys_within, has_all, keys_equal}
use dcc_mcp_obs.Value.Float.{magnitude_at_most, float_from_zero, int_too_large}
use dcc_mcp_obs.Value.Text.{
  split_commas, strip_prefix, ends_with, all_codes, printable, base_name, before_dot,
}
use dcc_mcp_obs.Value.Check.{
  is_true, is_false, is_bool, is_null, bool_type, text_type, text_between, equals_text, int_type,
  int_from, int_between, list_type, dict_type, items_of, need, need_member, hashable, in_texts,
  number_finite, number_type,
}
use dcc_mcp_obs.Bridge.Constants.{identity_keys}
use dcc_mcp_obs.Bridge.Host.{Host, Library, clock}
use dcc_mcp_obs.Result.{Error, bridge_error, overflow_error, Result, ok, err}
use dcc_mcp_obs.Exec.{Exec, pure, raise, lift, gets, guard, ◌>>=◌, ◌>>◌}
use dcc_mcp_obs.Bridge.Session.{
  Session, on_history, checked, poll, operation_deadline, acknowledged,
}
use dcc_mcp_obs.Bridge.Reconcile.{
  verified, poll_unless_last, settle_by, mutate_then_settle, mutate_and_reconcile,
}
use dcc_mcp_obs.Bridge.Controls.Arguments.{
  require_name, require_item_id, require_bool, select_exact_name, names_in, equals_nat, now_checked,
}
use dcc_mcp_obs.Result.{out_of_fuel}
use dcc_mcp_obs.Bridge.Constants.{stop_recording_return_margin_seconds}
use dcc_mcp_obs.Bridge.Host.{sleep}

-- `_require_absolute_directory`
unfoldable pub require_absolute_directory : Library → Value → Result String
unfolding all_codes printable
require_absolute_directory lib (str s) =
    if between 1 4096 (count s) && all_codes printable s && lib.is_absolute s
    then ok s
    else err (bridge_error "OBS_RECORDING_PATH_INVALID")
require_absolute_directory lib _ = err (bridge_error "OBS_RECORDING_PATH_INVALID")

-- `_output_path_matches_directory`
unfoldable pub output_path_matches_directory : Library → Value → String → Bool
output_path_matches_directory lib (str path) directory =
    if leb 1 (count path)
    then (if lib.windows_absolute directory
        then lib.windows_parent_is path directory
        else lib.posix_parent_is path directory)
    else false
output_path_matches_directory lib _ directory = false

directory_matches : Library → Option String → Fields → Bool
directory_matches lib none readback = true
directory_matches lib (some directory) readback =
    output_path_matches_directory lib (get "outputPath" readback) directory

-- What a recording request asks for.
pub record Target : Type 0 where
  pub stopping : Bool
  pub active : Bool
  pub paused : Bool
  pub directory : Option String

-- `state_matches`
unfoldable pub state_matches : Library → Target → Fields → Bool
unfolding directory_matches
state_matches lib target readback =
    is_bool target.active (get "outputActive" readback)
    && is_bool target.paused (get "outputPaused" readback)
    && directory_matches lib target.directory readback

-- the answer when the state matches, and when a stop is still pending at the deadline's margin
unfoldable pub recorded : Target → Fields → Fields
recorded target readback =
    if target.stopping
    then put "stopPending" (bool false) (verified readback)
    else verified readback

unfoldable pub stop_pending : Fields → Fields
stop_pending readback = merge readback (
    entries (
      ("accepted", bool true)
      ∷ ("verified", bool false)
      ∷ ("stopPending", bool true)
      ∷ ("outputState", str "finalizing")
      ∷ []))

module _ (host : Host) (target : Target) (deadline : ℕ) where
  -- what follows a readback that does not match, after `attempt` attempts with this one
  unfoldable pub wait_or_end : ℕ → Exec Session Fields → Fields → Exec Session Fields
  wait_or_end attempt retry readback = do
    now ← on_history (clock host)
    attempts ← gets (λ s. s.postcondition_attempts)
    interval ← gets (λ s. s.postcondition_poll_seconds)
    if target.stopping && leb (deadline - now) stop_recording_return_margin_seconds
        then pure (stop_pending readback)
        else if not target.stopping && leb attempts attempt
        then raise (bridge_error "OBS_POSTCONDITION_FAILED")
        else if leb deadline now
        then raise (bridge_error "OBS_TIMEOUT")
        else (do on_history (sleep (min interval (deadline - now))); retry)

  unfoldable pub judge_recording : ℕ → Exec Session Fields → Fields → Exec Session Fields
  judge_recording attempt retry readback =
      if state_matches host.library target readback
      then pure (recorded target readback)
      else wait_or_end attempt retry readback

  -- the fuel bounds the rounds of `while True`
  unfoldable pub record_loop : ℕ → ℕ → Exec Session Fields
  record_loop zero attempt = raise out_of_fuel
  record_loop (suc fuel) attempt = do
    readback ← checked host "GetRecordingStatus" end deadline
    judge_recording (suc attempt) (record_loop fuel (suc attempt)) readback

unfoldable pub some_directory : Result String → Result (Option String)
some_directory (ok s) = ok (some s)
some_directory (err e) = err e

unfoldable pub directory_argument : Library → Value → Result (Option String)
directory_argument lib null = ok none
directory_argument lib v = some_directory (require_absolute_directory lib v)

module _ (host : Host) where
  -- No round but the last ends before the deadline's tick, so that the deadline bounds the rounds.
  unfoldable pub recording_mutation : String → Target → Fields → Exec Session Fields
  recording_mutation rt target payload = do
    deadline ← operation_deadline host
    accepted ← acknowledged host rt payload deadline
    record_loop host target deadline (suc deadline) 0

  directory_payload : Option String → Fields
  directory_payload none = end
  directory_payload (some s) = entries (("outputDirectory", str s) ∷ [])

  unfoldable pub start_recording : Value → Exec Session Fields
  unfolding some_directory directory_argument directory_payload
  start_recording output_directory = do
    directory ← lift (directory_argument host.library output_directory)
    recording_mutation "StartRecording"
        (record { stopping = false; active = true; paused = false; directory = directory })
        (directory_payload directory)

  unfoldable pub stop_recording : Exec Session Fields
  stop_recording =
      recording_mutation "StopRecording"
        (record { stopping = true; active = false; paused = false; directory = none }) end

  unfoldable pub pause_recording : Exec Session Fields
  pause_recording =
      recording_mutation "PauseRecording"
        (record { stopping = false; active = true; paused = true; directory = none }) end

  unfoldable pub resume_recording : Exec Session Fields
  resume_recording =
      recording_mutation "ResumeRecording"
        (record { stopping = false; active = true; paused = false; directory = none }) end
