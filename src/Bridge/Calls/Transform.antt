-- ===== src/Bridge/Calls/Transform.antt =====
-- `set_scene_item_transform` of src/dcc_mcp_obs/bridge.py is sound.
use dcc_mcp_obs.Base.{suc, String, ◌&&◌, List, [], ◌∷◌, none}
use dcc_mcp_obs.Value.{pos, negsuc, Value, null, int, float, list, elements}
use dcc_mcp_obs.Value.Float.{int_too_large, is_finite}
use dcc_mcp_obs.Value.Check.{number_type}
use dcc_mcp_obs.Result.{overflow_error}
use dcc_mcp_obs.Result.Fails.{Fails, Fails-ok, Fails-err, Fails-if, Fails-bind, fails_rules}
use dcc_mcp_obs.Bridge.Host.{Host, Library}
use dcc_mcp_obs.Bridge.Published.{IsPublished}
use dcc_mcp_obs.Bridge.Sound.{IsSound}
use dcc_mcp_obs.Bridge.Controls.Items.{readback_scene_item}
use dcc_mcp_obs.Bridge.Controls.Transform.{
  as_float, both_floats, two_numbers, pair_argument, finite_float, rotation_argument, some_entries,
  set_scene_item_transform,
}
use dcc_mcp_obs.Bridge.Calls.Arguments.{call_rules, argument-Fails}
use dcc_mcp_obs.Bridge.Calls.Items.{shows_item-Fails}

some_entries-Fails : (kvs : List (String × Value)) → Fails IsPublished (some_entries kvs)
unfolding some_entries
some_entries-Fails [] = argument-Fails
some_entries-Fails (kv ∷ kvs) = Fails-ok _

finite_float-Fails : (v : Value) → Fails IsPublished (finite_float v)
unfolding finite_float
finite_float-Fails (float bits) = Fails-if (is_finite bits) _ _ (Fails-ok _) argument-Fails
finite_float-Fails _ = argument-Fails

module _ (lib : Library) where
  as_float-Fails : (v : Value) → Fails IsPublished (as_float lib v)
  unfolding as_float
  as_float-Fails (int (pos n)) =
      Fails-if (int_too_large n) _ _ (Fails-err overflow_error tt) (Fails-ok _)
  as_float-Fails (int (negsuc n)) =
      Fails-if (int_too_large (suc n)) _ _ (Fails-err overflow_error tt) (Fails-ok _)
  as_float-Fails (float bits) = Fails-ok _
  as_float-Fails _ = argument-Fails

  both_floats-Fails : (v w : Value) → Fails IsPublished (both_floats lib v w)
  unfolding both_floats
  both_floats-Fails v w = search (fails_rules, as_float-Fails)

  two_numbers-Fails : (vs : List Value) → Fails IsPublished (two_numbers lib vs)
  unfolding two_numbers
  two_numbers-Fails [] = argument-Fails
  two_numbers-Fails (v ∷ []) = argument-Fails
  two_numbers-Fails (v ∷ w ∷ []) =
      Fails-if (number_type v && number_type w) _ _ (both_floats-Fails v w) argument-Fails
  two_numbers-Fails (v ∷ w ∷ x ∷ vs) = argument-Fails

  pair_argument-Fails : (v : Value) → Fails IsPublished (pair_argument lib v)
  unfolding pair_argument
  pair_argument-Fails null = Fails-ok none
  pair_argument-Fails (list items) = two_numbers-Fails (elements items)
  pair_argument-Fails _ = argument-Fails

  rotation_argument-Fails : (v : Value) → Fails IsPublished (rotation_argument lib v)
  unfolding rotation_argument
  rotation_argument-Fails null = Fails-ok none
  rotation_argument-Fails v =
      Fails-bind (as_float lib v) finite_float (as_float-Fails v) finite_float-Fails

pub set_scene_item_transform-IsSound :
    (host : Host) (scene_name scene_item_id position scale rotation : Value)
    → IsSound (set_scene_item_transform host scene_name scene_item_id position scale rotation)
unfolding set_scene_item_transform readback_scene_item
set_scene_item_transform-IsSound host scene_name scene_item_id position scale rotation =
    search
      (
        call_rules, some_entries-Fails, pair_argument-Fails, rotation_argument-Fails,
        shows_item-Fails,
      )
      depth 20
