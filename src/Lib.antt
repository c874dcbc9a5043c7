-- ===== src/Lib.antt =====
-- A model of dcc-mcp-obs: the control bridge between an MCP server and OBS Studio,
-- src/dcc_mcp_obs/bridge.py, the transport that it sends through, src/dcc_mcp_obs/protocol.py, and the
-- parts around them: server.py, config.py, dispatcher.py and deadline.py of src/dcc_mcp_obs.
--
-- An `ObsControlBridge` sends vendor requests to a plugin in OBS, one at a time, and checks each
-- response: its identity, its event sequence, and its shape by the request type. A mutation is one
-- request that OBS acknowledges, followed by readbacks until one shows the state that was asked for.
-- An `ObsWebSocketTransport` carries a vendor request: it opens a WebSocket and introduces itself
-- where there is none, sends one frame, and reads frames until the answer comes. Its errors carry codes,
-- which the bridge passes on where they are public. `start_server` and `stop_server` keep the one adapter of an
-- interpreter, and the dispatcher sets the deadline that a bridge reads when it is made.
--
-- Value, Value/*: Python's objects as the code sees them (None, bool, int, float as its IEEE bit
--   pattern, str, list, dict with text keys), its tests on them (`isinstance`, `type(v) is`, set
--   membership, `math.isfinite`), with the exceptions of Python's own that these tests can raise, its
--   `==` (Value/Equal), its texts (Value/Text), and how `json.loads` ends (Value/Json).
-- Result, Exec: the results of fallible code, and actions on a state (a state monad with errors, in
--   which the state is kept when an action fails).
-- Bridge/Host: what the bridge calls: the clock, the sleeper, the transport it is given
--   (`VendorTransport.vendor_request`), and functions of Python's standard library. Their answers are a
--   function of all that has happened before, so that the theorems hold for every OBS and every clock.
-- Bridge/Constants, Identity, Settings, Frame: the constants, `_public_error_code`, `_parse_identity`,
--   `_parse_event_sequence`, the typed settings, and `_decode_program_frame`.
-- Bridge/Open: `ObsControlBridge.__init__`.
-- Bridge/Request, Accept, Session: `_request`, the tests of `_checked` on a response, the state of the
--   bridge, `_checked`, `_operation_deadline` and `_poll`. `_request_lock` makes a `_checked` call one step.
-- Bridge/Validate, Validate/*: `_validate_read_only_response`, a function for each branch.
-- Bridge/Reconcile: the loop that the mutations share (`_mutate_and_reconcile` and those like it).
-- Bridge/Controls/*: the public methods, by domain; Controls/Arguments has `_require_name`,
--   `_require_item_id` and `_select_exact_name`, Controls/Windows/Matching the candidates of a window,
--   Controls/RecordingPlan `_normalize_scene_recording_plan`.
-- Bridge/Calls: the public methods as data, and sequences of them (Calls/Script).
-- Bridge/Published, Sound, Session/Effects, Reconcile/Trace, Reconcile/First, Reconcile/Once,
--   Reconcile/Live, Open/Bound, Calls/Answers, Calls/Sends, Controls/Exact, Controls/Recording/Ends,
--   Controls/RecordingPlan/Distinct, Controls/AgentInput/Keys: what is proved of these.
-- Bridge/Tests: a small OBS, runs against it, and the theorems at concrete inputs.
-- Transport/Wire: the steps of the transport, over a peer whose answers are a function of all that has
--   happened before, and which may raise `TimeoutError` or another exception at any call. Transport/Deadline,
--   Requests, Frames, Handshake, Vendor: `_remaining` and `_within_deadline`; the tables of requests;
--   `_read_json` and `_send_json`; `_ensure_connected` and `_authentication`; `vendor_request`,
--   `_receive_response`, `_disconnect_locked` and `close`. Transport/Quiet, Steps, Asking, Once, Codes,
--   Reads, Reads/*: what is proved of them.
-- Server: `ObsMcpServer.stop`, `has_server`, `start_server` and `stop_server` of server.py, over adapters
--   whose calls may raise; the adapter that a failed constructor carries away in
--   `AdapterConstructionError` is not the interpreter's. Server/Owned: what is proved of them.
-- Config: `ObsEndpointConfig.from_environment` and `public_summary` of config.py. Config/Secret,
--   Bounds.
-- Dispatcher: `dispatch_callable` of dispatcher.py in a `deadline_scope` of deadline.py. Dispatcher/Scope.
--
-- Times are natural numbers of a tick. The walk over PNG chunks has a budget of 128, which is the
-- source's own bound on `chunk_count`. The rounds of `_recording_mutation` have `deadline + 1` as fuel:
-- each round that goes on sleeps for a tick at least and begins before the deadline. The frames read for
-- one response are 65, which is the source's own `MAX_INTERLEAVED_EVENTS + 1`. The order in which
-- Python visits a set, on which it depends which of two errors is raised first, is fixed in the model.
-- A published code is one of `PUBLIC_DOWNSTREAM_ERRORS` or of the five that the bridge adds; an allowed
-- error has such a code or is an exception of Python's own that the code lets escape: TypeError,
-- AttributeError or OverflowError where a response has a list or an object in a set membership, an entry
-- without `get`, or a huge int; ValueError or RecursionError where the JSON text of the presentation rows
-- has an int of too many digits or is nested too deeply; ValueError or RuntimeError where the path of a logo
-- has a null character or no home. The lock of the transport and `math.isfinite` raise OverflowError for a
-- deadline too far ahead or too large for a float, outside of the handlers of `vendor_request`.
--
-- Not modelled: the interleaving of threads (each lock makes what it guards one step), the constructor of
-- `ObsMcpServer` and `main`, which are calls of dcc_mcp_core and waits for signals, process.py and
-- shared_runtime.py, which ask the operating system about processes, and the installers, the acceptance
-- runs, the command line and the build tools, which are files and processes.
pub mod Base
pub mod Value
pub mod Result
pub mod Exec
pub mod Bridge
pub mod Transport
pub mod Server
pub mod Config
pub mod Dispatcher
