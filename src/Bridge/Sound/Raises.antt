-- ===== src/Bridge/Sound/Raises.antt =====
-- What one `_checked` call of src/dcc_mcp_obs/bridge.py raises.
use dcc_mcp_obs.Base.{
  ℕ, String, count, Bool, true, false, ◌≡◌, refl, ◌⊎◌, inl, inr, ◌∷◌, mem_text, ltb, leb,
  Bool-cases,
}
use dcc_mcp_obs.Value.{ℤ, Value, dict, Fields}
use dcc_mcp_obs.Value.Dict.{get}
use dcc_mcp_obs.Value.Check.{need, is_false}
use dcc_mcp_obs.Result.{Error, bridge_error, Result, ok, err}
use dcc_mcp_obs.Result.Fails.{Fails, Fails-ok, Fails-err, Fails-if, Fails-bind}
use dcc_mcp_obs.Exec.{◌>>=◌}
use dcc_mcp_obs.Bridge.Constants.{public_downstream_errors}
use dcc_mcp_obs.Bridge.Host.{
  Host, Library, History, Outcome, returned, raised, clock, vendor_request,
}
use dcc_mcp_obs.Bridge.Identity.{
  parse_identity, parse_event_sequence, nonempty_text, natural_from, short_text, same_identity,
  Identity,
}
use dcc_mcp_obs.Bridge.Request.{accepted_response, receive, request}
use dcc_mcp_obs.Bridge.Validate.{validate_read_only_response}
use dcc_mcp_obs.Bridge.Accept.{accept}
use dcc_mcp_obs.Bridge.Session.{Session, on_history, conclude, checked}
use dcc_mcp_obs.Bridge.Published.{published_errors, public_error_code-IsPublished}
use dcc_mcp_obs.Bridge.Reconcile.First.{replies, Replied, request-Replied}

-- A BridgeError with a published code.
abbrev pub IsCoded : Error → Type 0
IsCoded (bridge_error c) = mem_text published_errors c ≡ true
IsCoded _ = ⊥

-- The errors of the tests that come before and after the checks of the request type.
module _ (P : Error → Type 0) (coded : (e : Error) → IsCoded e → P e) where
  Fails-coded : {A : Type 0} (e : Error) → IsCoded e → Fails {A = A} P (err e)
  Fails-coded e c = Fails-err e (coded e c)

  need-Fails : (c : String) (b : Bool) → mem_text published_errors c ≡ true → Fails P (need c b)
  unfolding need
  need-Fails c true h = Fails-ok tt
  need-Fails c false h = Fails-coded _ h

  invalid-Fails : {A : Type 0} → Fails {A = A} P (err (bridge_error "OBS_RESPONSE_INVALID"))
  unfolding published_errors public_downstream_errors
  invalid-Fails = Fails-coded _ refl

  nonempty_text-Fails : (v : Value) → Fails P (nonempty_text v)
  unfolding nonempty_text
  nonempty_text-Fails (Value.str s) = Fails-if (leb 1 (count s)) _ _ (Fails-ok s) invalid-Fails
  nonempty_text-Fails _ = invalid-Fails

  natural_from-Fails : (lo : ℕ) (v : Value) → Fails P (natural_from lo v)
  unfolding natural_from
  natural_from-Fails lo (Value.int (ℤ.pos n)) = Fails-if (leb lo n) _ _ (Fails-ok n) invalid-Fails
  natural_from-Fails lo (Value.int (ℤ.negsuc n)) = invalid-Fails
  natural_from-Fails lo _ = invalid-Fails

  short_text-Fails : (limit : ℕ) (s : String) → Fails P (short_text limit s)
  unfolding short_text
  short_text-Fails limit s = Fails-if (leb (count s) limit) _ _ (Fails-ok s) invalid-Fails

  parse_identity-Fails : (response : Fields) → Fails P (parse_identity response)
  unfolding parse_identity
  parse_identity-Fails response =
      search (Fails-bind, Fails-ok, nonempty_text-Fails, natural_from-Fails, short_text-Fails) depth
        20

  drift-Fails : (b : Bool) → Fails P (need "OBS_INSTANCE_DRIFT" b)
  unfolding published_errors public_downstream_errors
  drift-Fails b = need-Fails _ b refl

  sequence-Fails : (b : Bool) → Fails P (need "OBS_EVENT_SEQUENCE_INVALID" b)
  unfolding published_errors public_downstream_errors
  sequence-Fails b = need-Fails _ b refl

  sequenced-Fails : (response : Fields) → Fails P (parse_event_sequence response)
  unfolding parse_event_sequence
  sequenced-Fails response = natural_from-Fails 0 (get "eventSequence" response)

-- The error has a published code, or it is the one that the checks of the request type raise.
abbrev Judged : Library → String → Fields → Error → Type 0
Judged lib rt response e = IsCoded e ⊎ (validate_read_only_response lib rt response ≡ err e)

accept-Judged :
    (lib : Library) (rt : String) (expected : Identity) (last : ℕ) (response : Fields)
    → Fails (Judged lib rt response) (accept lib rt expected last response)
unfolding accept
accept-Judged lib rt expected last response =
    let P = Judged lib rt response in
    let coded : (e : Error) → IsCoded e → P e = λ e c. inl c in
    Fails-bind _ _ (parse_identity-Fails P coded response) λ identity.
      Fails-bind _ _ (drift-Fails P coded (same_identity identity expected)) λ same.
        Fails-bind _ _ (sequenced-Fails P coded response) λ sequence.
          Fails-bind _ _ (sequence-Fails P coded (ltb last sequence)) λ later.
            Fails-bind _ _ (record { because = λ e raises. inr raises }) λ valid. Fails-ok sequence

-- What a call raises has a published code, or it is what the checks of the request type raise on the
-- response that OBS has just sent. What it returns is that response.
abbrev pub Raises : Library → String → Session → Result Fields × Session → Type 0
Raises lib rt s (ok response, t) = replies t.history ≡ returned (dict response) ∷ replies s.history
Raises lib rt s (err e, t) =
    IsCoded e
    ⊎ ((response : Fields) × (validate_read_only_response lib rt response ≡ err e)
        × (replies t.history ≡ returned (dict response) ∷ replies s.history))

module _ (host : Host) (rt : String) (payload : Fields) (deadline : ℕ) where
  accepted_response-Fails : (v : Value) → Fails IsCoded (accepted_response v)
  unfolding accepted_response published_errors public_downstream_errors
  accepted_response-Fails (dict response) =
      Fails-if (is_false (get "ok" response)) _ _
        (Fails-err _
          (public_error_code-IsPublished (get "errorCode" response) "OBS_REQUEST_FAILED" refl))
        (Fails-ok response)
  accepted_response-Fails _ = Fails-err _ refl

  receive-Fails : (o : Outcome) (h : History) → Fails IsCoded (receive host deadline o h).0
  unfolding receive clock ◌>>=◌ published_errors public_downstream_errors
  receive-Fails (raised code) h =
      Fails-err _ (public_error_code-IsPublished code "OBS_CONNECTION_FAILED" refl)
  receive-Fails (returned v) h = elim (Bool-cases (leb (host.now h) deadline)) [
    | inl early ↦ rw early (accepted_response-Fails v)
    | inr late ↦ rw late (Fails-err _ refl)
  ]

  request-Fails : (h : History) → Fails IsCoded (request host rt payload deadline h).0
  unfolding request clock vendor_request ◌>>=◌ published_errors public_downstream_errors
  request-Fails h = elim (Bool-cases (ltb (host.now h) deadline)) [
    | inl early ↦ rw early (receive-Fails _ _)
    | inr late ↦ rw late (Fails-err _ refl)
  ]

  concluded :
      (s : Session) (response : Fields) (h : History) (verdict : Result ℕ)
      → replies h ≡ returned (dict response) ∷ replies s.history
      → accept host.library rt s.identity s.event_sequence response ≡ verdict
      → Raises host.library rt s (conclude host rt response (record s { history = h }))
  unfolding conclude ◌>>=◌
  concluded s response h (ok n) heard e = rw e heard
  concluded s response h (err c) heard e =
      rw e
        (elim ((accept-Judged host.library rt s.identity s.event_sequence response).because c e) [
          | inl coded ↦ inl coded
          | inr raises ↦ inr (response, raises, heard)
        ])

  after :
      (s : Session) (p : Result Fields × History)
      → Replied s.history p
      → Fails IsCoded p.0
      → Raises host.library rt s ((on_history (λ _. p) >>= conclude host rt) s)
  unfolding on_history ◌>>=◌
  after s (ok response, h) heard fails = concluded s response h _ heard refl
  after s (err e, h) heard fails = inl (fails.because e refl)

  -- A `_checked` call raises a published code, or what the checks of its request type raise on the
  -- response that OBS has just sent it, and nothing else; what it returns is that response.
  pub checked-Raises : (s : Session) → Raises host.library rt s (checked host rt payload deadline s)
  unfolding checked on_history ◌>>=◌
  checked-Raises s =
      after s (request host rt payload deadline s.history)
        (request-Replied host rt payload deadline s.history) (request-Fails s.history)
