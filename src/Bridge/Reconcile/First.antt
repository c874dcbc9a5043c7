-- ===== src/Bridge/Reconcile/First.antt =====
-- The readback loop of src/dcc_mcp_obs/bridge.py ends at the first readback that matches.
use dcc_mcp_obs.Base.{
  ℕ, zero, suc, ◌<◌, String, Bool, true, false, Bool-cases, List, [], ◌∷◌, ◌++◌, ◌≡◌, refl, ap, ◌∙◌,
  sym, inl, inr, ltb, leb, length, arith,
}
use dcc_mcp_obs.Value.{null, bool, int, float, str, list, dict, Fields}
use dcc_mcp_obs.Value.Dict.{get}
use dcc_mcp_obs.Value.Check.{is_false}
use dcc_mcp_obs.Result.{Result, ok, err}
use dcc_mcp_obs.Exec.{Exec, ◌>>=◌}
use dcc_mcp_obs.Bridge.Host.{
  Host, History, Outcome, returned, raised, clock, sleep, requested, read_clock, slept,
  vendor_request,
}
use dcc_mcp_obs.Bridge.Request.{request, receive, accepted_response}
use dcc_mcp_obs.Bridge.Accept.{accept}
use dcc_mcp_obs.Bridge.Session.{Session, on_history, checked, conclude, poll}
use dcc_mcp_obs.Bridge.Reconcile.{poll_unless_last, judge, settle}
use dcc_mcp_obs.Bridge.Reconcile.Trace.{Settles, settle-Settles}

-- How the requests ended that have been sent, the latest first.
abbrev pub replies : History → List Outcome
replies [] = []
replies (requested rt payload deadline outcome ∷ h) = outcome ∷ replies h
replies (read_clock t ∷ h) = replies h
replies (slept t ∷ h) = replies h

abbrev pub readbacks : List Fields → List Outcome
readbacks [] = []
readbacks (readback ∷ more) = returned (dict readback) ∷ readbacks more

abbrev pub NoneMatches : (Fields → Result Bool) → List Fields → Type 0
NoneMatches matches [] = Unit
NoneMatches matches (readback ∷ more) = (matches readback ≡ ok false) × NoneMatches matches more

-- An answer rests on the latest readback, which matches, and none before it does.
abbrev pub First :
    (Fields → Result Bool) → (Fields → Fields) → ℕ → Session → Result Fields × Session → Type 0
First matches report n s (err e, t) = Unit
First matches report n s (ok answer, t) =
    (earlier : List Fields) × (readback : Fields) × (length earlier < n)
    × (replies t.history ≡ returned (dict readback) ∷ readbacks earlier ++ replies s.history)
    × NoneMatches matches earlier
    × (matches readback ≡ ok true)
    × (answer ≡ report readback)

-- A call that returns has had its response from OBS, as the only one.
abbrev pub Replied : History → Result Fields × History → Type 0
Replied h (err e, g) = Unit
Replied h (ok response, g) = replies g ≡ returned (dict response) ∷ replies h

abbrev RepliedTo : Session → Result Fields × Session → Type 0
RepliedTo s (err e, t) = Unit
RepliedTo s (ok response, t) = replies t.history ≡ returned (dict response) ∷ replies s.history

module _ (host : Host) (rt : String) (payload : Fields) (deadline : ℕ) where
  received-Replied :
      (h : History) (outcome : Outcome)
      → Replied h (receive host deadline outcome (requested rt payload deadline outcome ∷ h))
  unfolding receive clock accepted_response ◌>>=◌
  received-Replied h (raised code) = tt
  received-Replied h (returned (dict response)) =
      let now = host.now (requested rt payload deadline (returned (dict response)) ∷ h) in
      elim (Bool-cases (leb now deadline)) [
        | inr late ↦ rw late tt
        | inl early ↦ elim (Bool-cases (is_false (get "ok" response))) [
          | inl refused ↦ rw (early, refused) tt
          | inr fine ↦ rw (early, fine) refl
        ]
      ]
  received-Replied h (returned null) = ground arith
  received-Replied h (returned (bool b)) = ground arith
  received-Replied h (returned (int n)) = ground arith
  received-Replied h (returned (float x)) = ground arith
  received-Replied h (returned (str s)) = ground arith
  received-Replied h (returned (list l)) = ground arith

  pub request-Replied : (h : History) → Replied h (request host rt payload deadline h)
  unfolding request clock vendor_request ◌>>=◌
  request-Replied h = elim (Bool-cases (ltb (host.now h) deadline)) [
    | inl early ↦ rw early (received-Replied (read_clock (host.now h) ∷ h) _)
    | inr late ↦ rw late tt
  ]

  concluded :
      (s : Session) (response : Fields) (h : History) (verdict : Result ℕ)
      → replies h ≡ returned (dict response) ∷ replies s.history
      → accept host.library rt s.identity s.event_sequence response ≡ verdict
      → RepliedTo s (conclude host rt response (record s { history = h }))
  unfolding conclude ◌>>=◌
  concluded s response h (ok n) sent e = rw e sent
  concluded s response h (err c) sent e = rw e tt

  after :
      (s : Session) (p : Result Fields × History)
      → Replied s.history p
      → RepliedTo s ((on_history (λ _. p) >>= conclude host rt) s)
  unfolding on_history ◌>>=◌
  after s (ok response, h) sent = concluded s response h _ sent refl
  after s (err e, h) sent = tt

  checked-RepliedTo : (s : Session) → RepliedTo s (checked host rt payload deadline s)
  unfolding checked on_history ◌>>=◌
  checked-RepliedTo s =
      after s (request host rt payload deadline s.history) (request-Replied s.history)

module _ (host : Host) (deadline : ℕ) where
  poll-quiet : (s : Session) → replies (poll host deadline s).1.history ≡ replies s.history
  unfolding poll on_history clock sleep ◌>>=◌
  poll-quiet s = elim (Bool-cases (ltb (host.now s.history) deadline)) [
    | inl early ↦ rw early refl
    | inr late ↦ rw late refl
  ]

  poll_unless_last-quiet :
      (n : ℕ) (s : Session)
      → replies (poll_unless_last host deadline n s).1.history ≡ replies s.history
  unfolding poll_unless_last ◌>>=◌
  poll_unless_last-quiet zero s = refl
  poll_unless_last-quiet (suc n) s = poll-quiet s

readbacks-snoc :
    (earlier : List Fields) (readback : Fields) (l : List Outcome)
    → readbacks (earlier ++ readback ∷ []) ++ l ≡ readbacks earlier ++ returned (dict readback) ∷ l
readbacks-snoc [] readback l = refl
readbacks-snoc (r ∷ earlier) readback l =
    ap (λ k. returned (dict r) ∷ k) (readbacks-snoc earlier readback l)

length-snoc :
    (earlier : List Fields) (readback : Fields)
    → length (earlier ++ readback ∷ []) ≡ suc (length earlier)
length-snoc [] readback = refl
length-snoc (r ∷ earlier) readback = ap suc (length-snoc earlier readback)

module _ (matches : Fields → Result Bool) (report : Fields → Fields) where
  NoneMatches-snoc :
      (earlier : List Fields) (readback : Fields)
      → NoneMatches matches earlier
      → matches readback ≡ ok false
      → NoneMatches matches (earlier ++ readback ∷ [])
  NoneMatches-snoc [] readback none other = (other, tt)
  NoneMatches-snoc (r ∷ earlier) readback (here, none) other =
      (here, NoneMatches-snoc earlier readback none other)

  -- a readback that does not match, and then the rest of the loop
  First-shift :
      (n : ℕ) (s u : Session) (readback : Fields) (q : Result Fields × Session)
      → replies u.history ≡ returned (dict readback) ∷ replies s.history
      → matches readback ≡ ok false
      → First matches report n u q
      → First matches report (suc n) s q
  First-shift n s u readback (err e, t) sent other first = tt
  First-shift n s u readback (ok answer, t) sent other
        (earlier, shown, few, heard, none, matched, reported) =
      (
        earlier ++ readback ∷ [],
        shown,
        rw (length-snoc earlier readback) (ground (arith, few)),
        heard
            ∙ ap (λ l. returned (dict shown) ∷ readbacks earlier ++ l) sent
            ∙ ap (λ l. returned (dict shown) ∷ l)
                (sym (readbacks-snoc earlier readback (replies s.history))),
        NoneMatches-snoc earlier readback none other,
        matched,
        reported,
      )

module _ (host : Host) (deadline : ℕ) (rt : String) (payload : Fields)
    (matches : Fields → Result Bool) (report : Fields → Fields) where
  polled :
      (n : ℕ) (s t : Session) (readback : Fields) (retry : Exec Session Fields)
      (p : Result (Unit {0}) × Session)
      → ((u : Session) → First matches report n u (retry u))
      → replies t.history ≡ returned (dict readback) ∷ replies s.history
      → matches readback ≡ ok false
      → replies p.1.history ≡ replies t.history
      → First matches report (suc n) s (((λ _. p) >>= λ _. retry) t)
  unfolding ◌>>=◌
  polled n s t readback retry (ok _, u) ih sent other quiet =
      First-shift matches report n s u readback (retry u) (quiet ∙ sent) other (ih u)
  polled n s t readback retry (err e, u) ih sent other quiet = tt

  judged-First :
      (n : ℕ) (s t : Session) (retry : Exec Session Fields) (readback : Fields) (m : Result Bool)
      → matches readback ≡ m
      → ((u : Session) → First matches report n u (retry u))
      → replies t.history ≡ returned (dict readback) ∷ replies s.history
      → First matches report
          (suc n)
          s
          (judge host deadline rt payload matches report n retry readback t)
  unfolding judge ◌>>=◌
  judged-First n s t retry readback (ok true) e ih sent =
      rw e ([], readback, omega arith, sent, tt, e, refl)
  judged-First n s t retry readback (ok false) e ih sent = rw e (
      polled n s t readback retry (poll_unless_last host deadline n t) ih sent e
        (poll_unless_last-quiet host deadline n t))
  judged-First n s t retry readback (err c) e ih sent = rw e tt

  checked-First :
      (n : ℕ) (s : Session) (retry : Exec Session Fields) (p : Result Fields × Session)
      → RepliedTo s p
      → ((u : Session) → First matches report n u (retry u))
      → First matches report
          (suc n)
          s
          (((λ _. p) >>= judge host deadline rt payload matches report n retry) s)
  unfolding ◌>>=◌
  checked-First n s retry (ok readback, t) sent ih =
      judged-First n s t retry readback (matches readback) refl ih sent
  checked-First n s retry (err e, t) sent ih = tt

  settled-First :
      (n : ℕ) (s : Session)
      → First matches report n s (settle host deadline rt payload matches report n s)
  unfolding settle ◌>>=◌
  settled-First zero s = tt
  settled-First (suc n) s =
      checked-First n s (settle host deadline rt payload matches report n)
        (checked host rt payload deadline s) (checked-RepliedTo host rt payload deadline s)
        (settled-First n)

  -- The readback loop with `n` attempts sends at most `n` requests, all of the readback's type, and keeps
  -- the bridge. If it answers, it has received fewer than `n` readbacks that do not match and then one that
  -- does, and nothing else; the answer is the report of this one, which has the bridge's identity and
  -- carries a later event sequence than the loop began with.
  pub settle-First :
      (n : ℕ) (s : Session)
      → Settles rt matches report n s (settle host deadline rt payload matches report n s)
        × First matches report n s (settle host deadline rt payload matches report n s)
  settle-First n s = (settle-Settles host deadline rt payload matches report n s, settled-First n s)
