-- ===== src/Bridge/Controls/RecordingPlan/Distinct.antt =====
-- A plan that `_normalize_scene_recording_plan` of src/dcc_mcp_obs/bridge.py accepts.
use dcc_mcp_obs.Base.{
  ℕ, suc, ap, String, count, ◌≤◌, Bool-cases, inl, inr, Bool, true, false, not, ◌&&◌, ◌≡◌, refl,
  List, [], ◌∷◌, between, mem_text, length, arith,
}
use dcc_mcp_obs.Value.{Value, str, list, dict, Fields, elements}
use dcc_mcp_obs.Value.Dict.{get, entries}
use dcc_mcp_obs.Result.{Error, Result, ok, err, bridge_error, ◌>>=◌}
use dcc_mcp_obs.Result.Yields.{Yields, Yields-ok, Yields-err, Yields-if, Yields-bind, Yields-then}
use dcc_mcp_obs.Bridge.Host.{Library}
use dcc_mcp_obs.Bridge.Controls.RecordingPlan.{
  clean_name, require_prefix, normalize_recording, normalize_recordings,
  normalize_scene_recording_plan,
}

module _ (lib : Library) where
  -- each recording has a scene that no earlier one has, and a file name prefix that differs from the
  -- earlier ones even without regard to case
  abbrev pub Distinct : List String → List String → List Fields → Type 0
  Distinct scenes prefixes [] = Unit
  Distinct scenes prefixes (item ∷ items) =
      (scene prefix : String) × (get "sceneName" item ≡ str scene)
      × (get "fileNamePrefix" item ≡ str prefix)
      × (mem_text scenes scene ≡ false)
      × (mem_text prefixes (lib.casefold prefix) ≡ false)
      × Distinct (scene ∷ scenes) (lib.casefold prefix ∷ prefixes) items

  abbrev Fresh : List String → List String → String → String → Type 0
  Fresh scenes prefixes scene prefix =
      (mem_text scenes scene ≡ false) × (mem_text prefixes (lib.casefold prefix) ≡ false)

  fresh : (a b c d : Bool) → (a && b && not c && not d) ≡ true → (c ≡ false) × (d ≡ false)
  fresh a b c d h = (ground arith, ground arith)

  require_prefix-Fresh :
      (scenes prefixes : List String) (scene : String) (v : Value)
      → Yields (Fresh scenes prefixes scene) (require_prefix lib scenes prefixes scene v)
  unfolding require_prefix
  require_prefix-Fresh scenes prefixes scene (str s) =
      let long = between 1 96 (count s) in
      let clean = clean_name lib s in
      let seen = mem_text scenes scene in
      let used = mem_text prefixes (lib.casefold s) in
      Yields-if (long && clean && not seen && not used) (ok s)
        (err (bridge_error "OBS_ARGUMENT_INVALID"))
        (λ h. Yields-ok s (fresh long clean seen used h)) (λ h. Yields-err _)
  require_prefix-Fresh scenes prefixes scene _ = Yields-err _

  -- what one recording is noted by, and what it is sent as
  abbrev Noted : List String → List String → String × String × Fields → Type 0
  Noted scenes prefixes (scene, folded, item) =
      (prefix : String) × (folded ≡ lib.casefold prefix)
      × (get "sceneName" item ≡ str scene)
      × (get "fileNamePrefix" item ≡ str prefix)
      × Fresh scenes prefixes scene prefix

  prefix-then :
      {B : Type 0} {P : B → Type 0} (scenes prefixes : List String) (scene : String) (v : Value)
      (next : String → Result B)
      → ((prefix : String) → Fresh scenes prefixes scene prefix → Yields P (next prefix))
      → Yields P (require_prefix lib scenes prefixes scene v >>= next)
  prefix-then scenes prefixes scene v next h =
      Yields-then _ next (require_prefix-Fresh scenes prefixes scene v) h

  noted :
      (scenes prefixes : List String) (scene prefix : String) (more : List (String × Value))
      → Fresh scenes prefixes scene prefix
      → Yields (Noted scenes prefixes) (
          ok (
            scene,
            lib.casefold prefix,
            entries (("sceneName", str scene) ∷ ("fileNamePrefix", str prefix) ∷ more),
          ))
  unfolding get entries
  noted scenes prefixes scene prefix more new = Yields-ok _ (prefix, refl, refl, refl, new)

  normalize_recording-Noted :
      (scenes prefixes : List String) (item : Fields)
      → Yields (Noted scenes prefixes) (normalize_recording lib scenes prefixes item)
  unfolding normalize_recording
  normalize_recording-Noted scenes prefixes item = search (prefix-then, noted, Yields-bind) depth 30

  normalize_recordings-Distinct :
      (scenes prefixes : List String) (items : List Value)
      → Yields (Distinct scenes prefixes) (normalize_recordings lib scenes prefixes items)
  unfolding normalize_recordings
  normalize_recordings-Distinct scenes prefixes [] = Yields-ok [] tt
  normalize_recordings-Distinct scenes prefixes (dict item ∷ items) =
      Yields-then (normalize_recording lib scenes prefixes item) _
        (normalize_recording-Noted scenes prefixes item)
        λ seen known.
          Yields-then (normalize_recordings lib (seen.0 ∷ scenes) (seen.1 ∷ prefixes) items) _
            (normalize_recordings-Distinct (seen.0 ∷ scenes) (seen.1 ∷ prefixes) items)
            λ rest later.
              let (prefix, folded, scene_is, prefix_is, new) = known in
              Yields-ok (seen.2 ∷ rest)
                (seen.0, prefix, scene_is, prefix_is, new.0, new.1, rw folded at later)
  normalize_recordings-Distinct scenes prefixes (_ ∷ items) = Yields-err _

  normalize_recordings-length :
      (scenes prefixes : List String) (items : List Value)
      → Yields (λ plan. length plan ≡ length items) (normalize_recordings lib scenes prefixes items)
  unfolding normalize_recordings
  normalize_recordings-length scenes prefixes [] = Yields-ok [] refl
  normalize_recordings-length scenes prefixes (dict item ∷ items) =
      Yields-bind (normalize_recording lib scenes prefixes item) _ λ seen _.
        Yields-then (normalize_recordings lib (seen.0 ∷ scenes) (seen.1 ∷ prefixes) items) _
          (normalize_recordings-length (seen.0 ∷ scenes) (seen.1 ∷ prefixes) items)
          λ rest same. Yields-ok (seen.2 ∷ rest) (ap (λ (n : ℕ). suc n) same)
  normalize_recordings-length scenes prefixes (_ ∷ items) = Yields-err _

  cannot :
      {B : Type 0} {e : Error} {plan : List Fields}
      → ◌≡◌ {A = Result (List Fields)} (err e) (ok plan)
      → B
  cannot h = cc

  -- An accepted plan has one to eight recordings, no two of them of one scene, and no two with prefixes
  -- that differ in case alone.
  pub normalize_scene_recording_plan-Distinct :
      (recordings : Value) (plan : List Fields)
      → normalize_scene_recording_plan lib recordings ≡ ok plan
      → (1 ≤ length plan) × (length plan ≤ 8) × Distinct [] [] plan
  unfolding normalize_scene_recording_plan
  normalize_scene_recording_plan-Distinct (list items) plan accepted =
      elim (Bool-cases (between 1 8 (length (elements items)))) [
        | inl few ↦
            let computed = rw few at accepted in
            let same = (normalize_recordings-length [] [] (elements items)).gives plan computed in
            (
              ground (arith, few, same),
              ground (arith, few, same),
              (normalize_recordings-Distinct [] [] (elements items)).gives plan computed,
            )
        | inr many ↦ cannot (rw many at accepted)
      ]
  normalize_scene_recording_plan-Distinct _ plan accepted = cc
