-- ===== src/Bridge/Calls/Arguments.antt =====
-- The errors of the argument checks in src/dcc_mcp_obs/bridge.py.
use dcc_mcp_obs.Base.{List, String, count, Bool, true, ◌≡◌, refl, between, leb, mem_text}
use dcc_mcp_obs.Value.{pos, negsuc, Value, bool, int, str, Fields}
use dcc_mcp_obs.Value.Check.{need, need_member}
use dcc_mcp_obs.Result.{Result, bridge_error, err}
use dcc_mcp_obs.Result.Fails.{Fails, Fails-ok, Fails-err, Fails-if, fails_rules}
use dcc_mcp_obs.Exec.{guard}
use dcc_mcp_obs.Bridge.Constants.{public_downstream_errors}
use dcc_mcp_obs.Bridge.Published.{IsPublished, published_errors, Fails-need, Fails-need_member}
use dcc_mcp_obs.Bridge.Published.Scenes.{argument_need-Fails}
use dcc_mcp_obs.Bridge.Host.{Host}
use dcc_mcp_obs.Bridge.Reconcile.{verified, mutate_and_reconcile}
use dcc_mcp_obs.Bridge.Sound.{IsSound, IsSound-guard}
use dcc_mcp_obs.Bridge.Sound.Exchange.{checked-IsSound}
use dcc_mcp_obs.Bridge.Sound.Loops.{
  sound_rules, now_checked-IsSound, operation_deadline-IsSound, acknowledged-IsSound,
  settle_by-IsSound, mutate_then_settle-IsSound,
}
use dcc_mcp_obs.Bridge.Controls.Arguments.{
  require_name, require_item_id, require_bool, select_exact_name,
}

pub argument-Fails :
    {A : Type 0} → Fails {A = A} IsPublished (err (bridge_error "OBS_ARGUMENT_INVALID"))
unfolding published_errors public_downstream_errors
argument-Fails = Fails-err _ refl

pub require_name-Fails : (v : Value) → Fails IsPublished (require_name v)
unfolding require_name
require_name-Fails (str s) = Fails-if (between 1 256 (count s)) _ _ (Fails-ok s) argument-Fails
require_name-Fails _ = argument-Fails

pub require_item_id-Fails : (v : Value) → Fails IsPublished (require_item_id v)
unfolding require_item_id
require_item_id-Fails (int (pos n)) = Fails-if (leb 1 n) _ _ (Fails-ok n) argument-Fails
require_item_id-Fails (int (negsuc n)) = argument-Fails
require_item_id-Fails _ = argument-Fails

pub require_bool-Fails : (v : Value) → Fails IsPublished (require_bool v)
unfolding require_bool
require_bool-Fails (bool b) = Fails-ok b
require_bool-Fails _ = argument-Fails

need_list-Fails : (b : Bool) → Fails IsPublished (need "OBS_RESPONSE_INVALID" b)
unfolding published_errors public_downstream_errors
need_list-Fails b = Fails-need _ b refl

need_whole-Fails : (b : Bool) → Fails IsPublished (need "OBS_RESPONSE_INCOMPLETE" b)
unfolding published_errors public_downstream_errors
need_whole-Fails b = Fails-need _ b refl

need_single-Fails : (b : Bool) → Fails IsPublished (need "OBS_TARGET_AMBIGUOUS" b)
unfolding published_errors public_downstream_errors
need_single-Fails b = Fails-need _ b refl

pub select_exact_name-Fails :
    (response : Fields) (collection_key name_key : String) (target : Value) (missing_code : String)
    → mem_text published_errors missing_code ≡ true
    → Fails IsPublished (select_exact_name response collection_key name_key target missing_code)
unfolding select_exact_name
select_exact_name-Fails response collection_key name_key target missing_code h =
    search
      (
        fails_rules, require_name-Fails, need_list-Fails, need_whole-Fails, need_single-Fails,
        Fails-need,
      )
      depth 12

-- the codes that the methods raise of their own
pub argument_guard-IsSound : (b : Bool) → IsSound (guard b "OBS_ARGUMENT_INVALID")
unfolding published_errors public_downstream_errors
argument_guard-IsSound b = IsSound-guard b _ refl

pub ambiguous_guard-IsSound : (b : Bool) → IsSound (guard b "OBS_TARGET_AMBIGUOUS")
unfolding published_errors public_downstream_errors
ambiguous_guard-IsSound b = IsSound-guard b _ refl

pub hotkey_guard-IsSound : (b : Bool) → IsSound (guard b "OBS_HOTKEY_NOT_ALLOWLISTED")
unfolding published_errors public_downstream_errors
hotkey_guard-IsSound b = IsSound-guard b _ refl

pub response_guard-IsSound : (b : Bool) → IsSound (guard b "OBS_RESPONSE_INVALID")
unfolding published_errors public_downstream_errors
response_guard-IsSound b = IsSound-guard b _ refl

pub postcondition_guard-IsSound : (b : Bool) → IsSound (guard b "OBS_POSTCONDITION_FAILED")
unfolding published_errors
postcondition_guard-IsSound b = IsSound-guard b _ refl

pub timeout_guard-IsSound : (b : Bool) → IsSound (guard b "OBS_TIMEOUT")
unfolding published_errors public_downstream_errors
timeout_guard-IsSound b = IsSound-guard b _ refl

pub argument_member-Fails :
    (ts : List String) (v : Value) → Fails IsPublished (need_member "OBS_ARGUMENT_INVALID" ts v)
unfolding published_errors public_downstream_errors
argument_member-Fails ts v = Fails-need_member _ ts v refl

pub mutate_and_reconcile-IsSound :
    (host : Host) (rt : String) (payload : Fields) (readback_type : String)
    (readback_payload : Fields) (matches : Fields → Result Bool)
    → ((readback : Fields) → Fails IsPublished (matches readback))
    → IsSound (mutate_and_reconcile host rt payload readback_type readback_payload matches)
unfolding mutate_and_reconcile
mutate_and_reconcile-IsSound host rt payload readback_type readback_payload matches total =
    mutate_then_settle-IsSound host rt payload readback_type readback_payload matches verified total

pub ruleset call_rules = (
  postcondition_guard-IsSound, timeout_guard-IsSound, argument_member-Fails, argument_need-Fails,
  mutate_and_reconcile-IsSound, sound_rules, fails_rules, require_name-Fails, require_item_id-Fails,
  require_bool-Fails, argument-Fails, checked-IsSound, now_checked-IsSound,
  operation_deadline-IsSound, acknowledged-IsSound, settle_by-IsSound, mutate_then_settle-IsSound,
  argument_guard-IsSound, ambiguous_guard-IsSound, hotkey_guard-IsSound, response_guard-IsSound,
)
