-- ===== src/Server.antt =====
-- The adapter that one interpreter owns: `_server`, `ObsMcpServer.stop`, `has_server`, `start_server`
-- and `stop_server` of src/dcc_mcp_obs/server.py. What an adapter does is the environment's: `ObsMcpServer`
-- starts and stops through dcc_mcp_core, and each of its calls may raise any exception, by its text here.
pub mod Owned
mod Tests
use dcc_mcp_obs.Base.{
  ℕ, String, Bool, true, false, not, List, ◌∷◌, Option, none, some, if◌then◌else◌,
}

pub data Event : Type 0 where
  constructed : ℕ → Event
  called : String → ℕ → Event
  -- `stop` has returned
  stopped : ℕ → Event

-- The latest event first.
abbrev pub Log : Type 0
Log = List Event

pub data Ran (A : Type 0) : Type 0 where
  returned : A → Ran A
  raised : String → Ran A

-- What the calls do, which may depend on all that has happened; `none` for a call that returns.
pub record Adapters : Type 0 where
  -- ObsMcpServer(port=port, host_pid=host_pid)
  pub construct : Log → Ran ℕ
  pub is_running : Log → ℕ → Bool
  -- register_builtin_actions(), start()
  pub register : Log → ℕ → Option String
  pub start : Log → ℕ → Option String
  -- load_skill("obs-control")
  pub load_skill : Log → ℕ → Ran Bool
  -- self._transport.close(), super().stop()
  pub close_transport : Log → ℕ → Option String
  pub base_stop : Log → ℕ → Option String

pub record Interpreter : Type 0 where
  -- the adapters are told apart by numbers
  pub server : Option ℕ
  pub log : Log

unfoldable pub has_server : Interpreter → Bool
has_server i = elim i.server [ none ↦ false | some n ↦ true ]

-- how `try: a; finally: b` ends: by the exception of b, if it raises
abbrev finally : Option String → Option String → Option String
finally first none = first
finally first (some e) = some e

module _ (adapters : Adapters) where
  -- `ObsMcpServer.stop`: the exception that it raises, if it does, and what has happened then
  ended : ℕ → Option String → Log → Option String × Log
  ended n none log = (none, stopped n ∷ log)
  ended n (some e) log = (some e, log)

  unfoldable pub stop : ℕ → Log → Option String × Log
  unfolding ended
  stop n log =
      let closing = called "close" n ∷ log in
      let stopping = called "stop" n ∷ closing in
      ended n (finally (adapters.close_transport closing n) (adapters.base_stop stopping n))
        stopping

  -- the body of the inner try of `start_server`: none where it returns
  loaded : Ran Bool → Option String
  loaded (returned true) = none
  loaded (returned false) = some "OBS_SKILL_LOAD_FAILED"
  loaded (raised e) = some e

  load : ℕ → Log → Option String × Log
  unfolding loaded
  load n log =
      let asked = called "load_skill" n ∷ log in (loaded (adapters.load_skill asked n), asked)

  -- the next call, unless an exception was raised
  abbrev next : Option String → (Log → Option String × Log) → Log → Option String × Log
  next none more log = more log
  next (some e) more log = (some e, log)

  start_up : ℕ → Log → Option String × Log
  unfolding load
  start_up n log =
      let registering = called "register" n ∷ log in
      let starting = called "start" n ∷ registering in
      next (adapters.register registering n)
        (λ (before : Log). next (adapters.start starting n) (load n) starting) registering

  -- what follows the start of the candidate, which `_server` holds: kept where its cleanup fails
  cleaned : ℕ → String → Option String × Log → Ran ℕ × Interpreter
  cleaned n primary (none, log) = (raised primary, record { server = none; log = log })
  cleaned n primary (some cleanup, log) = (raised primary, record { server = some n; log = log })

  settled : ℕ → Option String × Log → Ran ℕ × Interpreter
  unfolding cleaned
  settled n (none, log) = (returned n, record { server = some n; log = log })
  settled n (some primary, log) = cleaned n primary (stop n log)

  launched : Option ℕ → Ran ℕ → Log → Ran ℕ × Interpreter
  unfolding settled start_up
  launched before (raised e) log = (raised e, record { server = before; log = log })
  launched before (returned n) log = settled n (start_up n (constructed n ∷ log))

  -- the old adapter is stopped, and a new one is constructed
  replaced : ℕ → Option String × Log → Ran ℕ × Interpreter
  unfolding launched
  replaced n (some e, log) = (raised e, record { server = some n; log = log })
  replaced n (none, log) = launched (some n) (adapters.construct log) log

  started : Option ℕ → Log → Ran ℕ × Interpreter
  unfolding launched replaced
  started none log = launched none (adapters.construct log) log
  started (some n) log =
      if adapters.is_running log n
      then (returned n, record { server = some n; log = log })
      else replaced n (stop n log)

  unfoldable pub start_server : Interpreter → Ran ℕ × Interpreter
  unfolding started
  start_server i = started i.server i.log

  released : ℕ → Option String × Log → Ran (Unit {0}) × Interpreter
  released n (none, log) = (returned tt, record { server = none; log = log })
  released n (some e, log) = (raised e, record { server = some n; log = log })

  stopped_server : Option ℕ → Log → Ran (Unit {0}) × Interpreter
  unfolding released
  stopped_server none log = (returned tt, record { server = none; log = log })
  stopped_server (some n) log = released n (stop n log)

  unfoldable pub stop_server : Interpreter → Ran (Unit {0}) × Interpreter
  unfolding stopped_server
  stop_server i = stopped_server i.server i.log
