-- ===== src/Lib.antt =====
-- chute is a self-hosted tunnel: an agent dials out to a relay server over one WebSocket
-- connection, and the relay forwards public HTTP visitors to the agent as streams multiplexed
-- over that connection. This library models the program's own logic and proves what makes it
-- correct.
--
-- The parts and the files that model them (paths from the repository's root):
--   src/chute/protocol.py    Protocol         the binary frame; Protocol/Codec its laws
--   src/chute/names.py       Names            labels, word lists, generated phrases
--   src/chute/mux.py         Mux              Limits: constants and `validate_flow_window`;
--     Log: `_log_event`; Stream: the fields of `Stream` and what its methods do to them alone;
--     State: the fields of `Mux`; Teardown, Receive, Transmit: the methods of `Stream` on the
--     shared state; Lifecycle: `open`, `goaway`, `drain`, the end of `run`; Dispatch: one message
--     of `run`; Events: the event loop. Proofs: Buffers (the accounting of unread bytes and
--     frames) and Flow (the credit windows between two ends).
--   src/chute/server.py      Server           State: the fields of `Server` that its decisions read,
--     and the records it keeps (with `Budget` and `AuthResult` of src/chute/auth.py); Accounts:
--     visitors and unread bytes per account; VisitorIps, RateLimits: the limits per source;
--     Registry: labels, the indexes by account and lease; Revoke: retiring and revoking; Claims:
--     who may claim a label, valid leases; Policy: policy updates; Head, Host: the request head,
--     the host that it names, the label of a host; EventQueue: the queue in front of the event sink.
--     Each has its proofs in a child module.
--   src/chute/control.py     Control          leases and credentials of the static control plane;
--     Json: JSON values and the chains of checks on them; PolicyFile: the validation of a policy
--     file; Policies: the operations; their laws: Renewal, Delivery and PolicyFile's child modules;
--     Authorizers: the static token and the control plane over it (with src/chute/auth.py)
--   src/chute/_files.py      Files            private files; Files/Private what a read promises
--   src/chute/events.py      Events           the event log `JsonlEventSink`; Loops, Rotation and
--     Written: what a rotation and a write do to the log and its backups
--   src/chute/client.py      Client           the reconnect loop and the warnings about the local app;
--     Handshake: what the agent and src/chute/server.py say to each other first
--   src/chute/_relay.py      Pumps            the pumps between sockets and streams; Pumps/Relayed
--   src/chute/cli.py         Cli              the readers of integers and switches
-- Server.Accounts answers the buffer callbacks that Mux.State records as hook calls; Control
-- answers the leases and updates that Server.Claims and Server.Policy validate.
-- Prelude holds what all of them share; Tests holds runs and the theorems at concrete inputs.
--
-- How the code is read. A coroutine is cut at its awaits: what it does between two awaits is one
-- function from state to state, and whatever a connection's coroutines do together is a list of
-- events (Mux/Events). Stream objects outlive their entry in `_streams`, so they stand in a store
-- and the registry maps ids to places. Calls to the outside (frames handed to the WebSocket, the
-- account's buffer callbacks, spawned tasks) are recorded in the state; answers from the outside
-- (the callback's answer, the time, the choices of `secrets`) are arguments. Exceptions are values.
-- Counters are natural numbers, whose subtraction stops at 0. Times are whole seconds.
-- Whether the user may change the event log's directory and write the log is part of the model's
-- file system, which answers every look-up and has room.
--
-- A label set of the relay is a list without repetition; Python's sets promise no order, so no
-- theorem depends on the order of one. Functions of other packages are parameters: whether
-- `ipaddress` takes an IPv6 literal, the token hash, `json.loads`.
--
-- There is no fuel: every loop recurs on a list or a bound, as the 100 draws of `_assign_label`. The
-- credit-window theorems speak of one direction of one stream with any interleaving of its two
-- ends and in-order delivery, which the WebSocket connection gives.
--
-- Not modelled: sockets, TLS, the WebSocket library, argument parsing, the text of log lines; the
-- handlers of src/chute/server.py that await the network, and its bandwidth throttle, whose times
-- are floats; the event types and their JSON (src/chute/events.py); the agent's handler of one
-- stream (src/chute/client.py); the rest of the command line (src/chute/cli.py).
pub mod Prelude
pub mod Protocol
pub mod Names
pub mod Mux
pub mod Server
pub mod Control
pub mod Files
pub mod Events
pub mod Handshake
pub mod Client
pub mod Pumps
pub mod Cli
pub mod Tests
