-- ===== src/Lib.antt =====
-- claude-code-portal.
--
-- A proxy runs a coding agent on a developer's machine and connects it by a WebSocket to a backend,
-- which stores the outputs, shows them to web clients and passes inputs back; a launcher starts sessions,
-- also on a schedule. This library models the parts that must not lose, repeat or misroute a message, and
-- those that decide who may speak for whom.
--
-- What stands where:
-- OutputBuffer: claude-session-lib/src/output_buffer.rs. The outputs that a proxy keeps on disk until
--   they are acknowledged: PendingOutputBuffer, push, acknowledge, persist, new (load), drop. Its
--   specification is a log of all outputs with the position of the first one that is still held.
-- ReplayBuffer: claude-session-lib/src/buffer.rs, OutputBuffer with its snapshots, against the same log.
-- AgentSession: claude-session-lib/src/session.rs and snapshot.rs: a session with an agent, whose outputs
--   go into a ReplayBuffer.
-- Protocol: shared/src/endpoints.rs, lib.rs and protocol.rs, the messages and limits that all share.
-- SessionManager: backend/src/handlers/websocket/session_manager.rs. The maps of the struct are fields of
--   a record; SessionManager/Clients has the methods for web clients, launchers and directory requests.
-- MessageHandlers: backend/src/handlers/websocket/message_handlers.rs, handle_claude_output and the
--   replay of inputs; it calls the session manager and writes the database.
-- Delivery: the replay of pending outputs in claude-session-lib/src/proxy_session/mod.rs, from an
--   OutputBuffer into the handler of MessageHandlers.
-- Reconnection: the backoff and run_connection_loop of the same file, over the outcomes of the connections
--   that it makes; connecting and registering are outside.
-- ProxyTokens: backend/src/jwt.rs and backend/src/handlers/proxy_tokens.rs.
-- Registration: backend/src/handlers/websocket/registration.rs; it asks ProxyTokens for a token's user.
-- ProxySocket: backend/src/handlers/websocket/proxy_socket.rs, which composes the session manager, the
--   registration and the replay of inputs for one connection.
-- DeviceFlow: backend/src/handlers/device_flow.rs and the purge in backend/src/main.rs, as operations on
--   the store of codes; an approval makes a token of ProxyTokens.
-- WebClient: backend/src/handlers/websocket/web_client_socket.rs and auth.rs. WebClient/Input is
--   handle_web_input, WebClient/Dispatch handle_web_client_message and the loop of the socket; the tables
--   are those of ProxySocket and more.
-- Permissions: backend/src/handlers/websocket/permissions.rs.
-- Uploads: a file's chunks in web_client_socket.rs and in handle_file_upload of
--   claude-session-lib/src/proxy_session/mod.rs.
-- ProxyReader: claude-session-lib/src/proxy_session/ws_reader.rs and claude-session-lib/src/heartbeat.rs.
-- MainLoop: run_main_loop of claude-session-lib/src/proxy_session/mod.rs; its branches call AgentSession,
--   OutputBuffer, Uploads, ProxyReader and Wiggum.
-- WiggumState and Wiggum: claude-session-lib/src/proxy_session/wiggum.rs, the texts and the handling of a
--   session's events; it pushes to OutputBuffer and sends inputs to AgentSession. Its loop ends after
--   fifty results by the limit in the code.
-- OutputForwarder and BranchUpdate: claude-session-lib/src/proxy_session/output_forwarder.rs.
--   OutputForwarder/Overtaking has the steps of the two tasks that share the buffer and the socket.
-- Retention: backend/src/handlers/retention.rs.
-- ProcessManager: launcher/src/process_manager.rs, with the tasks that it starts and their notifications;
--   ProcessManager/Running has the invariant that ties the running tasks to the entries.
--   run_session_task has fuel: two rounds, which are enough for every run.
-- ExpectedSessions: the restarts in launcher/src/connection.rs.
-- Scheduler: launcher/src/scheduler.rs.
-- Prelude and Numbered: lists, maps, Boolean tests and lists of numbered outputs.
--
-- How the code is read: a method that changes a struct is a function to the new record and the result; a
-- map is an association list by number (a Uuid is a number); what a method sends is a list of Sent; a
-- channel is a number, and a predicate says which receivers are alive. u64 counters wrap at 2 ^ 64. Clocks,
-- new ids, and the success of file and database operations are arguments. serde_json, jsonwebtoken,
-- SHA-256, croner and chrono_tz are parameters with their documented laws (Codec, Content, Crypto, Cron), as
-- is claude_codes (Agent). Codec lets a value change when it is written and read, as a float may. A panic is
-- a result of its own where the code can reach it (ProxyTokens, Uploads, ProxyReader, MainLoop). Loops are structural recursion on the list that they go through, so fuel is
-- used only for the task of a session and for the digits of a number (Prelude/Rendering), with proofs that
-- it is enough.
--
-- Not modelled: the tasks and sockets around the handlers, logging, SQL beyond the statements' effect, the
-- web frontend, the command line, installation and updates, speech, and administration. Nor are the
-- tasks that talk to an agent's process and the rest of the
-- launcher's connection.
pub mod Prelude
pub mod Numbered
pub mod OutputBuffer
pub mod ReplayBuffer
pub mod Protocol
pub mod SessionManager
pub mod MessageHandlers
pub mod Scheduler
pub mod ProxyTokens
pub mod Registration
pub mod ProxySocket
pub mod DeviceFlow
pub mod AgentSession
pub mod Delivery
pub mod Reconnection
pub mod Uploads
pub mod Permissions
pub mod WebClient
pub mod Wiggum
pub mod ExpectedSessions
pub mod MainLoop
pub mod ProxyReader
pub mod ProcessManager
pub mod OutputForwarder
pub mod BranchUpdate
pub mod WiggumState
pub mod Retention
