-- ===== src/Server/Tests.antt =====
-- The theorem on src/dcc_mcp_obs/server.py at work.
use dcc_mcp_obs.Base.{true, false, [], none}
use dcc_mcp_obs.Server.{returned, Adapters, Interpreter, start_server, stop_server}
use dcc_mcp_obs.Server.Owned.{unstopped, Owns, start_stop-Owns}

-- every call returns
abbrev adapters : Adapters
adapters = record {
  construct = λ log. returned 1;
  is_running = λ log n. false;
  register = λ log n. none;
  start = λ log n. none;
  load_skill = λ log n. returned true;
  close_transport = λ log n. none;
  base_stop = λ log n. none;
}

abbrev fresh : Interpreter
fresh = record { server = none; log = [] }

fresh-Owns : Owns fresh
unfolding unstopped
fresh-Owns = record { held = λ n there. cc }

start_stop-Owns_example : Owns (start_server adapters fresh).1 × Owns (stop_server adapters fresh).1
start_stop-Owns_example = start_stop-Owns adapters fresh fresh-Owns
