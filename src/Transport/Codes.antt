-- ===== src/Transport/Codes.antt =====
-- The codes of `ObsWebSocketTransport` (src/dcc_mcp_obs/protocol.py) at the bridge that calls it
-- (src/dcc_mcp_obs/bridge.py), which passes on public codes alone.
use dcc_mcp_obs.Base.{
  ℕ, String, count, Bool, true, ◌&&◌, ◌≡◌, refl, ap, ◌⊎◌, inl, inr, List, ◌∷◌, between, all,
  all-mem, mem_text, ◌==◌, Bool-cases,
}
use dcc_mcp_obs.Value.{Value, null, str}
use dcc_mcp_obs.Result.{err, bridge_error}
use dcc_mcp_obs.Exec.{raise}
use dcc_mcp_obs.Bridge.Constants.{
  public_error_code, public_downstream_errors, max_public_error_code_length,
}
use dcc_mcp_obs.Bridge.Host.{Host, History, raised}
use dcc_mcp_obs.Bridge.Request.{receive}
use dcc_mcp_obs.Transport.Wire.{Peer, Trouble, Failure, protocol_error, trouble, broken, Wire}
use dcc_mcp_obs.Transport.Handshake.{Endpoint}
use dcc_mcp_obs.Transport.Vendor.{GivenDeadline, vendor_request}
use dcc_mcp_obs.Transport.Quiet.{plain_errors, vendor_sends}
use dcc_mcp_obs.Transport.Once.{
  FailedAfter, FailedBefore, VendorResult, mutates, is_too_large, vendor_request-VendorResult,
}

-- every code that the transport can raise
abbrev transport_errors : List String
transport_errors = "OBS_UI_INDETERMINATE" ∷ plain_errors

is_public : String → Bool
is_public c =
    between 1 max_public_error_code_length (count c) && mem_text public_downstream_errors c

transport_errors-public : all is_public transport_errors ≡ true
unfolding is_public public_downstream_errors
transport_errors-public = refl

passed_on :
    (code fallback : String) → is_public code ≡ true → public_error_code (str code) fallback ≡ code
unfolding is_public public_error_code
passed_on code fallback h = rw h

mem_text-later :
    (t : String) (ts : List String) (c : String) → mem_text ts c ≡ true → mem_text (t ∷ ts) c ≡ true
mem_text-later t ts c h = elim (Bool-cases (c == t)) [ inl e ↦ rw e refl | inr e ↦ rw e h ]

raised-mem :
    (mutating : Bool) (before : ℕ) (code : String) (v : Wire)
    → FailedAfter mutating before code v ⊎ FailedBefore before code v
    → mem_text transport_errors code ≡ true
raised-mem mutating before code v (inl after) = elim after.code_of [
  | inl (_, unknown) ↦ rw unknown refl
  | inr (_, plain) ↦ mem_text-later "OBS_UI_INDETERMINATE" plain_errors code plain
]
raised-mem mutating before code v (inr early) =
    mem_text-later "OBS_UI_INDETERMINATE" plain_errors code early.code_of

-- getattr(exc, "code", None)
abbrev pub code_attribute : Failure → Value
code_attribute (protocol_error code) = str code
code_attribute (trouble kind) = null

-- what the bridge makes of the exception
abbrev Passed : ℕ → Wire → Failure → Host → ℕ → History → Type 0
Passed before v e host deadline h =
    ((code : String) × (e ≡ protocol_error code)
      × ((receive host deadline (raised (code_attribute e)) h).0 ≡ err (bridge_error code)))
    ⊎ ((kind : Trouble) × (e ≡ trouble kind)
        × (vendor_sends v.trace ≡ before)
        × ((receive host deadline (raised (code_attribute e)) h).0
            ≡ err (bridge_error "OBS_CONNECTION_FAILED")))

passed :
    (huge mutating : Bool) (before : ℕ) (v : Wire) (e : Failure) (host : Host) (deadline : ℕ)
    (h : History)
    → VendorResult huge mutating before (broken e, v)
    → Passed before v e host deadline h
unfolding receive raise public_error_code
passed huge mutating before v e host deadline h (inr escaped) =
    rw escaped.same (inr (escaped.kind, refl, escaped.none_sent, refl))
passed huge mutating before v e host deadline h (inl (code, same, how)) =
    let known = raised-mem mutating before code v how in
    let public = all-mem is_public transport_errors code transport_errors-public known in
    rw same (
      inl (
        code,
        refl,
        ap (λ (c : String). err (bridge_error c)) (passed_on code "OBS_CONNECTION_FAILED" public),
      ))

module _ (peer : Peer) (endpoint : Endpoint) where
  -- If `vendor_request` raises ProtocolError, the bridge that called it raises the code that the transport
  -- gave, and never the fallback; if it raises another exception, no vendor request has been sent, and the
  -- bridge raises OBS_CONNECTION_FAILED.
  pub vendor_request-receive :
      (request_type payload : Value) (given : GivenDeadline) (w v : Wire) (e : Failure)
      → vendor_request peer endpoint request_type payload given w ≡ (broken e, v)
      → (host : Host) (deadline : ℕ) (h : History)
      → ((code : String) × (e ≡ protocol_error code)
          × ((receive host deadline (raised (code_attribute e)) h).0 ≡ err (bridge_error code)))
        ⊎ ((kind : Trouble) × (e ≡ trouble kind)
            × (vendor_sends v.trace ≡ vendor_sends w.trace)
            × ((receive host deadline (raised (code_attribute e)) h).0
                ≡ err (bridge_error "OBS_CONNECTION_FAILED")))
  vendor_request-receive request_type payload given w v e fails host deadline h =
      passed (is_too_large given) (mutates request_type) (vendor_sends w.trace) v e host deadline h
        (rw fails at (vendor_request-VendorResult peer endpoint request_type payload given w))
