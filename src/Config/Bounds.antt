-- ===== src/Config/Bounds.antt =====
-- What a configuration that src/dcc_mcp_obs/config.py accepts is like.
use dcc_mcp_obs.Base.{
  ℕ, String, Bool, true, false, Bool-cases, ◌≡◌, refl, inl, inr, Option, none, some, between,
  mem_text, arith, if◌then◌else◌, ◌≤◌, ◌&&◌, ◌||◌, ◌==◌,
}
use dcc_mcp_obs.Config.{
  Configured, refused, accepted, ◌>>=◌, Url, Library, Environment, ObsEndpointConfig,
  transport_modes, or_default, endpoint_port, timeout_in_range, ensure, from_environment,
  is_loopback, absent,
}

-- 0.1 and 30.0 as bit patterns
pub record IsLocal (config : ObsEndpointConfig) : Type 0 where
  pub host : config.host ≡ "127.0.0.1"
  pub plain : config.secure ≡ false
  pub port : (1 ≤ config.port) × (config.port ≤ 65535)
  pub timeout :
      (0x3fb999999999999a ≤ config.timeout_seconds) × (config.timeout_seconds ≤ 0x403e000000000000)
  pub mode : mem_text transport_modes config.transport_mode ≡ true

abbrev Accepts : {A : Type 0} → (A → Type 0) → Configured A → Type 0
Accepts P (refused code) = Unit
Accepts P (accepted a) = P a

Accepts-if :
    {A : Type 0} (P : A → Type 0) (b : Bool) (a : A) (code : String)
    → (b ≡ true → P a)
    → Accepts P (if b then accepted a else refused code)
Accepts-if P true a code known = known refl
Accepts-if P false a code known = tt

abbrev InRange : ℕ → ℕ → ℕ → Type 0
InRange low high n = (low ≤ n) × (n ≤ high)

between-InRange : (low high n : ℕ) → between low high n ≡ true → InRange low high n
between-InRange low high n h = (ground (arith, h), ground (arith, h))

third : (a b c d e f g h : Bool) → (a && b && c && d && e && f && g && h) ≡ true → c ≡ true
third a b c d e f g h both = ground arith

endpoint_port-Accepts : (url : Option Url) → Accepts (InRange 1 65535) (endpoint_port url)
unfolding endpoint_port
endpoint_port-Accepts none = tt
endpoint_port-Accepts (some url) = go url.port refl
  where
    go : (p : Option ℕ) → url.port ≡ p → Accepts (InRange 1 65535) (endpoint_port (some url))
    go none e = rw e tt
    go (some port) e = rw e (
        Accepts-if (InRange 1 65535) _ port "OBS_ENDPOINT_INVALID" (λ h.
          between-InRange 1 65535 port (
            third (url.scheme == "ws") (is_loopback url.hostname) (between 1 65535 port)
              (absent url.username) (absent url.password) (url.path == "" || url.path == "/")
              (url.query == "") (url.fragment == "") h)))

timeout_in_range-Accepts :
    (seconds : Option ℕ)
    → Accepts (InRange 0x3fb999999999999a 0x403e000000000000) (timeout_in_range seconds)
unfolding timeout_in_range
timeout_in_range-Accepts none = tt
timeout_in_range-Accepts (some bits) =
    Accepts-if (InRange 0x3fb999999999999a 0x403e000000000000) _ bits "OBS_TIMEOUT_INVALID"
      (between-InRange _ _ bits)

finished-Accepts :
    (port timeout : ℕ) (mode password : String)
    → InRange 1 65535 port
    → InRange 0x3fb999999999999a 0x403e000000000000 timeout
    → Accepts IsLocal (
        ensure (mem_text transport_modes mode) "OBS_TRANSPORT_INVALID" >>= λ passed.
        accepted (record {
          host = "127.0.0.1";
          port = port;
          secure = false;
          password = password;
          timeout_seconds = timeout;
          transport_mode = mode;
        }))
finished-Accepts port timeout mode password port_ok timeout_ok =
    elim (Bool-cases (mem_text transport_modes mode)) [
      | inl known ↦
          rw known (record {
            host = refl;
            plain = refl;
            port = port_ok;
            timeout = timeout_ok;
            mode = known;
          })
      | inr unknown ↦ rw unknown tt
    ]

composed-Accepts :
    (port timeout : Configured ℕ) (mode password : String)
    → Accepts (InRange 1 65535) port
    → Accepts (InRange 0x3fb999999999999a 0x403e000000000000) timeout
    → Accepts IsLocal (
        port >>= λ port. timeout >>= λ timeout.
        ensure (mem_text transport_modes mode) "OBS_TRANSPORT_INVALID" >>= λ passed.
        accepted (record {
          host = "127.0.0.1";
          port = port;
          secure = false;
          password = password;
          timeout_seconds = timeout;
          transport_mode = mode;
        }))
composed-Accepts (refused code) timeout mode password port_ok timeout_ok = tt
composed-Accepts (accepted port) (refused code) mode password port_ok timeout_ok = tt
composed-Accepts (accepted port) (accepted timeout) mode password port_ok timeout_ok =
    finished-Accepts port timeout mode password port_ok timeout_ok

module _ (lib : Library) where
  from_environment-Accepts :
      (environ : Environment) → Accepts IsLocal (from_environment lib environ)
  unfolding from_environment
  from_environment-Accepts environ =
      let url =
        lib.urlsplit (or_default (environ "DCC_MCP_OBS_WEBSOCKET_URL") "ws://127.0.0.1:4455") in
      let seconds = lib.float_of_text (or_default (environ "DCC_MCP_OBS_TIMEOUT_SECONDS") "5") in
      composed-Accepts (endpoint_port url) (timeout_in_range seconds)
        (lib.strip_casefold (or_default (environ "DCC_MCP_OBS_TRANSPORT") "dual"))
        (or_default (environ "DCC_MCP_OBS_WEBSOCKET_PASSWORD") "") (endpoint_port-Accepts url)
        (timeout_in_range-Accepts seconds)

  -- A configuration that `from_environment` accepts is a plain connection to 127.0.0.1, at a port from 1
  -- to 65535, with a timeout from 0.1 to 30 seconds and a known transport mode, whatever the standard
  -- library makes of the variables.
  pub from_environment-IsLocal :
      (environ : Environment) (config : ObsEndpointConfig)
      → from_environment lib environ ≡ accepted config
      → IsLocal config
  from_environment-IsLocal environ config e = rw e at (from_environment-Accepts environ)
