-- ===== src/Lib.antt =====
-- agent-rdp: a command line and a daemon through which an agent drives a Windows desktop over RDP.
--
-- The command line sends requests over a local socket to a daemon, one for each session
-- (crates/agent-rdp-daemon/src/daemon.rs). The daemon holds the RDP session and answers each
-- request by a handler. For automation it launches PowerShell scripts on the remote desktop, which
-- open a dynamic virtual channel back; a client of that channel sends them requests and a
-- supervisor launches them again. When the transport drops, a loop connects again.
--
-- Files and what they model (daemon/ stands for crates/agent-rdp-daemon/src/, protocol/ for
-- crates/agent-rdp-protocol/src/):
-- - Base: Boolean tests, lists, texts as lists of code points, maps as association lists and the
--   saturating words of the code. Json: `serde_json::Value`, a number as a natural one or by its
--   spelling.
-- - Protocol: the requests and error codes that the parts share (protocol/request.rs,
--   automation.rs, response.rs). `Automate` has all requests of the automation, `Connect` the
--   connect request and `validate_connect_request`.
-- - Dvc: daemon/automation/dvc_channel.rs. `DvcSharedState` is the record of the same name, with
--   the waiters of `pending` as numbers and what a call sends or answers as a list of `Effect`.
--   `start`, `process`, `close` and `release_primary` are the calls of the transport and of the
--   daemon. Dvc.Slot has the step relation of the state, with `process` run at once;
--   Dvc.Stale and Dvc.Replies rest on it. Dvc.Interleaved has other threads act between its parts.
-- - Dvc.Ipc: daemon/automation/dvc_ipc.rs. `send_request_inner` is one request from the hand-over
--   to the end of the wait; what others do meanwhile is a function of the state (`Circumstance`).
-- - Reconnect: daemon/reconnect.rs. Reconnect.Loop: `reconnect_loop` of daemon/daemon.rs, with what
--   `handle_client` does to the shared state for the user's requests and with the slot of the
--   session in daemon/handlers/connect.rs. The loop runs over a list of `Turn`s, each saying what
--   happens while it sleeps and connects. Reconnect.Drops: the arm of the daemon's main loop for a
--   dropped session, with the task that tears the session down and starts the loop.
-- - Keyboard: daemon/handlers/keyboard.rs, `send_text` of daemon/rdp_session.rs, the keyboard part
--   of protocol/request.rs and the tables of daemon/keymap.rs. A `Run` is what was tried on the
--   transport and the time slept.
-- - Supervisor: the rules of daemon/automation/bootstrap.rs for launching the agent again and for
--   calling it wedged. KeepAlive: `KeepAliveWatch` of daemon/rdp_session.rs.
-- - Transfer: daemon/handlers/file_transfer.rs. Transfer.Push and Transfer.Pull are `handle_push`,
--   `handle_pull` and `handle_stat` over a `Link`: requests with their deadlines, the clock and the
--   local files. Transfer.Agent is the agent's side, the functions Invoke-FileWriteChunk,
--   Invoke-FileReadChunk and Invoke-FileStat of automation/scripts/lib/actions.ps1, with what the
--   machine does to each request as its `Luck` and what the channel does as its `Fate`.
-- - Automate: daemon/handlers/automate.rs, `handle` once the agent is ready (`handle_ready`), with
--   `resolve_indeterminate`, `unknown_id_verdict` and the deadlines. The channel's client and the
--   clock are a record `Client`. The lookups run on fuel `QUERY_RESULT_ATTEMPTS`, which is their
--   number. Ladder has what an answer is worth, Times how long it takes, and Callers the time limit
--   of crates/agent-rdp/src/cli/commands/automate.rs over it.
-- - Mouse: daemon/handlers/mouse.rs and scroll.rs; Buttons has which buttons stay held.
-- - Viewer: daemon/ws_input.rs, the viewer's messages as input; Typing compares it with Keyboard.
-- - Drive: daemon/rdpdr/. `Backend` is `MultiDriveBackend`; Drive.Files has file_ops.rs and
--   set_ops.rs, Drive.Queries query_ops.rs and the dispatch of mod.rs. The file system is a record
--   of its calls over a state of its own, as the Unix build uses it.
-- - TimeFormat: daemon/timefmt.rs.
-- - Transcript: the redaction of daemon/transcript.rs. Clipboard: the encoding of
--   daemon/rdp_session/clipboard.rs. Screen: `Region` of protocol/request.rs.
-- The modules named Tests evaluate these on concrete values.
--
-- Machine integers: counts that saturate do so here (`sat_add32`), counts that wrap carry their
-- remainder. The sum of a key sequence's costs is exact, since a list long enough to overflow it
-- cannot be held. `chunks` has the length of the list as fuel, and no list has more chunks than
-- items; `decimal` has the number itself. Clocks are numbers of milliseconds.
--
-- The loop over a file's bytes has the size that the stat named as fuel, since each chunk that is
-- taken has a byte, and the attempts of a pull have their greatest number.
--
-- Not modelled: the RDP protocol and its crates, OCR, image encoding, the launch itself, the
-- WebSocket server, the rest of the command line, the reading of the agent's answers, the restart,
-- the rest of the agent's scripts and the TypeScript package. A sidecar of the file transfer is
-- named by its path, case and short names left aside, and no other program writes to either
-- machine's files during a transfer. A send that answers an error may have gone through in part or
-- go through later: the theorems on held keys and buttons allow for both. What the transport
-- answers, what the agent says and when, and the printed length of a JSON value are parameters.
pub mod Automate
pub mod Base
pub mod Json
pub mod Mouse
pub mod Protocol
pub mod Drive
pub mod Dvc
pub mod Reconnect
pub mod Keyboard
pub mod Supervisor
pub mod KeepAlive
pub mod Clipboard
pub mod TimeFormat
pub mod Viewer
pub mod Transcript
pub mod Transfer
pub mod Screen
