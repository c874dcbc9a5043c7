-- ===== src/Transport/Wire.antt =====
-- What `ObsWebSocketTransport` of src/dcc_mcp_obs/protocol.py holds and calls: its socket, the WebSocket
-- library, the clocks, the lock, and functions of the Python standard library. Each answer may depend on
-- all that happened before, so that it is a function of the trace.
use dcc_mcp_obs.Base.{ℕ, String, Bool, true, false, List, ◌∷◌, Option, none, some}
use dcc_mcp_obs.Value.{Fields}
use dcc_mcp_obs.Value.Json.{Loaded}

-- TimeoutError or WebSocketTimeoutException, and any other exception of a library
pub data Trouble : Type 0 where
  timed_out : Trouble
  failed : Trouble

-- `protocol_error code` is `ProtocolError(code)`.
pub data Failure : Type 0 where
  protocol_error : String → Failure
  trouble : Trouble → Failure

-- how a step of the transport ends
pub data Attempt (A : Type 0) : Type 0 where
  done : A → Attempt A
  broken : Failure → Attempt A

-- how a call of a library ends
pub data Reply (A : Type 0) : Type 0 where
  gave : A → Reply A
  troubled : Trouble → Reply A

-- what `socket.recv` gives: str, bytes, or another object
pub data Received : Type 0 where
  text : String → Received
  bytes : List ℕ → Received
  other : Received

pub data WireEvent : Type 0 where
  read_clock read_wall_clock drew_id : WireEvent
  locked : ℕ → WireEvent
  connected : String → ℕ → WireEvent
  timeout_set : ℕ → ℕ → WireEvent
  received : ℕ → WireEvent
  sent : ℕ → Fields → WireEvent
  closed : ℕ → WireEvent

-- The latest event first.
abbrev pub Trace : Type 0
Trace = List WireEvent

pub record Wire : Type 0 where
  pub socket : Option ℕ
  -- `request_sent` of the `vendor_request` that runs
  pub request_sent : Bool
  pub trace : Trace

pub record Peer : Type 0 where
  -- time.monotonic and time.time, in ticks
  pub now : Trace → ℕ
  pub wall : Trace → ℕ
  -- self._lock.acquire(timeout=…), which raises OverflowError for a timeout over TIMEOUT_MAX
  pub acquire : Trace → ℕ → Reply Bool
  -- uuid.uuid4().hex
  pub fresh_id : Trace → String
  -- the connector, and the methods of the socket it gives
  pub connect : Trace → String → ℕ → Reply ℕ
  pub set_timeout : Trace → ℕ → ℕ → Reply (Unit {0})
  pub recv : Trace → ℕ → Reply Received
  pub send : Trace → ℕ → String → Reply (Unit {0})
  -- json.dumps, json.loads
  pub dumps : Fields → String
  pub loads : String → Loaded
  -- len(s.encode("utf-8")), `none` for UnicodeEncodeError
  pub encoded_size : String → Option ℕ
  -- bs.decode("utf-8"), `none` for UnicodeDecodeError
  pub decode : List ℕ → Option String
  -- the base64 of the SHA-256 of a + b in UTF-8, `none` for UnicodeEncodeError
  pub digest : String → String → Option String
  -- f"ws://{host}:{port}"
  pub url : String → ℕ → String

abbrev pub Step : Type 0 → Type 0
Step A = Wire → Attempt A × Wire

module _ {A : Type 0} where
  unfoldable pub give : A → Step A
  give a w = (done a, w)

  unfoldable pub break : Failure → Step A
  break e w = (broken e, w)

  -- what a library gives, or the exception it raises
  abbrev pub attempt_of : Reply A → Attempt A
  attempt_of (troubled t) = broken (trouble t)
  attempt_of (gave a) = done a

  -- one call of a library, noted in the trace
  unfoldable pub call : WireEvent → (Trace → Reply A) → Step A
  call e reply w = (attempt_of (reply w.trace), record w { trace = e ∷ w.trace })

  -- a value that a library computes, or another exception
  unfoldable pub computed : Option A → Step A
  computed none w = (broken (trouble failed), w)
  computed (some a) w = (done a, w)

-- `if not test: raise ProtocolError(code)`
unfoldable pub demand : Bool → String → Step (Unit {0})
demand false code w = (broken (protocol_error code), w)
demand true code w = (done tt, w)

module _ {A B : Type 0} where
  abbrev follow : Attempt A → (A → Step B) → Step B
  follow (broken e) next w = (broken e, w)
  follow (done a) next w = next a w

  infixl 5 ◌>>=◌ ◌>>◌
  unfoldable pub ◌>>=◌ : Step A → (A → Step B) → Step B
  unfolding give break call computed demand
  ◌>>=◌ first next w = let (a, v) = first w in follow a next v

  abbrev pub ◌>>◌ : Step A → Step B → Step B
  first >> rest = first >>= λ _. rest
