-- ===== src/Bridge/Calls/Answers/Media.antt =====
-- What an answer of `seek_media` of src/dcc_mcp_obs/bridge.py shows.
use dcc_mcp_obs.Base.{
  ℕ, ◌+◌, ◌≤◌, true, ◌&&◌, ◌≡◌, refl, sym, ◌⊎◌, inl, inr, none, some, leb, arith,
}
use dcc_mcp_obs.Value.{pos, negsuc, Value, null, bool, int, float, str, list, dict, Fields}
use dcc_mcp_obs.Value.Dict.{get, get-put, get-put_self}
use dcc_mcp_obs.Result.{ok}
use dcc_mcp_obs.Result.Yields.{Yields, Yields-ok, Yields-err, Yields-if}
use dcc_mcp_obs.Bridge.Host.{Host}
use dcc_mcp_obs.Bridge.Session.{Session}
use dcc_mcp_obs.Bridge.Reconcile.{verified, mutate_and_reconcile}
use dcc_mcp_obs.Bridge.Controls.Arguments.{require_name}
use dcc_mcp_obs.Bridge.Controls.Media.{
  near_cursor, shows_cursor, shows_state, require_cursor, media_mutation, seek_media,
}
use dcc_mcp_obs.Bridge.Calls.Answers.{
  Answers, Answers-lift, Answers-weaken, Shows, mutate_then_settle-Answers,
}
use dcc_mcp_obs.Bridge.Calls.Answers.Methods.{ok-true}

-- an int within 250 ms of the cursor
abbrev pub Near : ℕ → Value → Type 0
Near cursor v =
    ((shown : ℕ) × (v ≡ int (pos shown)) × (shown ≤ cursor + 250) × (cursor ≤ shown + 250))
    ⊎ ((n : ℕ) × (v ≡ int (negsuc n)) × (cursor + n + 1 ≤ 250))

near_cursor-Near : (cursor : ℕ) (v : Value) → near_cursor cursor v ≡ true → Near cursor v
unfolding near_cursor
near_cursor-Near cursor (int (pos n)) h = inl (n, refl, ground (arith, h), ground (arith, h))
near_cursor-Near cursor (int (negsuc n)) h = inr (n, refl, ground (arith, h))
near_cursor-Near cursor null h = cc
near_cursor-Near cursor (bool b) h = cc
near_cursor-Near cursor (float x) h = cc
near_cursor-Near cursor (str s) h = cc
near_cursor-Near cursor (list l) h = cc
near_cursor-Near cursor (dict d) h = cc

Sought : Value → Fields → Type 0
Sought wanted answer =
    (cursor : ℕ) × (wanted ≡ int (pos cursor))
    × (cursor ≤ 86_400_000)
    × Near cursor (get "mediaCursorMs" answer)
    × (get "verified" answer ≡ bool true)

require_cursor-Yields :
    (v : Value)
    → Yields (λ cursor. (v ≡ int (pos cursor)) × (cursor ≤ 86_400_000)) (require_cursor v)
unfolding require_cursor
require_cursor-Yields (int (pos n)) =
    Yields-if (leb n 86400000) (ok n) _ (λ h. Yields-ok n (refl, ground (arith, h)))
      (λ h. Yields-err _)
require_cursor-Yields (int (negsuc n)) = Yields-err _
require_cursor-Yields _ = Yields-err _

module _ (host : Host) where
  media_mutation-Answers :
      (wanted source_name : Value) (cursor : ℕ)
      → wanted ≡ int (pos cursor)
      → cursor ≤ 86_400_000
      → Answers (Sought wanted) (media_mutation host "SeekMedia" source_name none (some cursor))
  unfolding media_mutation mutate_and_reconcile shows_state shows_cursor Shows verified Sought
  media_mutation-Answers wanted source_name cursor asked short =
      Answers-lift (require_name source_name) _ λ source _.
        Answers-weaken
          (mutate_then_settle-Answers host _ _ _ _
            (λ result. ok (shows_state none result && shows_cursor (some cursor) result)) verified)
          λ answer (readback, matched, shape).
            let near = near_cursor-Near cursor (get "mediaCursorMs" readback) (ok-true matched) in
            let plain = get-put "verified" "mediaCursorMs" (bool true) readback in
            rw shape (
              cursor,
              asked,
              short,
              rw (sym plain) at near,
              get-put_self "verified" (bool true) readback,
            )

  seek_media-Answers :
      (source_name wanted : Value) → Answers (Sought wanted) (seek_media host source_name wanted)
  unfolding seek_media
  seek_media-Answers source_name wanted = Answers-lift (require_cursor wanted) _ λ cursor accepted.
      let (asked, short) = (require_cursor-Yields wanted).gives cursor accepted in
      media_mutation-Answers wanted source_name cursor asked short

  -- If `seek_media` answers, the cursor asked for was an int from 0 to a day in milliseconds, the answer
  -- shows a cursor that is an int at most 250 ms away from it, and says that this is verified.
  pub seek_media-shows :
      (source_name wanted : Value) (s : Session) (answer : Fields)
      → (seek_media host source_name wanted s).0 ≡ ok answer
      → (cursor : ℕ) × (wanted ≡ int (pos cursor))
        × (cursor ≤ 86_400_000)
        × Near cursor (get "mediaCursorMs" answer)
        × (get "verified" answer ≡ bool true)
  unfolding Sought
  seek_media-shows source_name wanted s answer h =
      (seek_media-Answers source_name wanted).gives s answer h
