-- ===== src/Dispatcher/Tests.antt =====
-- The theorem on src/dcc_mcp_obs/dispatcher.py at work.
use dcc_mcp_obs.Base.{ℕ, [], ◌∷◌, none}
use dcc_mcp_obs.Value.{pos, int, Fields}
use dcc_mcp_obs.Value.Dict.{entries}
use dcc_mcp_obs.Result.{ok}
use dcc_mcp_obs.Exec.{Exec}
use dcc_mcp_obs.Dispatcher.{Context, Clock, dispatch_callable}
use dcc_mcp_obs.Dispatcher.Scope.{Dispatched, dispatch_callable-Dispatched}

-- a second is ten ticks
abbrev tenths : Clock ℕ
tenths = record { now = λ world. world; ticks = λ seconds. 50 }

-- a function that takes a tick
abbrev takes_tick : Fields → Exec (Context ℕ) Fields
takes_tick kwargs c = (ok kwargs, record c { world = 101 })

abbrev at_hundred : Context ℕ
at_hundred = record { current_deadline = none; world = 100 }

abbrev five_seconds : Fields
five_seconds = entries (("timeout_hint_secs", int (pos 5)) ∷ [])

dispatch_callable-Dispatched_example :
    Dispatched tenths takes_tick five_seconds at_hundred
      (dispatch_callable tenths takes_tick five_seconds at_hundred)
dispatch_callable-Dispatched_example =
    dispatch_callable-Dispatched tenths takes_tick five_seconds at_hundred
