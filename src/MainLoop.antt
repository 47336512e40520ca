-- ===== src/MainLoop.antt =====
-- `run_main_loop` of claude-session-lib/src/proxy_session/mod.rs: the branches of its select, each of which
-- is taken when its channel, timer or event is ready. `heard` is not a branch: the reader of the socket
-- notes an echo of a heartbeat while the loop runs. `Permission::from_suggestion` of claude_codes and the
-- number of a request's id are fields of `Reading`. Logging is left out.
pub mod Silence
mod Tests
use claude_code_portal.Prelude.{
  ℕ, ◌*◌, String, Bool, true, false, not, List, [], ◌∷◌, ◌++◌, map, Option, none, some, inl, inr,
  if◌then◌else◌,
}
use claude_code_portal.Protocol.{PermissionResponseFields}
use claude_code_portal.Protocol.Proxy.{sequenced_output, heartbeat}
use claude_code_portal.OutputBuffer.{
  PendingOutputBuffer, Codec, Disk, Writing, push, acknowledge, persist,
}
use claude_code_portal.Reconnection.{
  ConnectionResult, claude_exited, session_terminated, disconnected, server_shutdown,
}
use claude_code_portal.AgentSession.{
  Agent, Session, IoEvent, SessionEvent, PermissionResponse, Polled, waits, returns, next_event,
  send_input, respond_permission,
}
use claude_code_portal.Uploads.{FileUploadEvent, Receiver, handle_file_upload}
use claude_code_portal.ProxyReader.{HeartbeatTracker, received, is_expired}
use claude_code_portal.WiggumState.{WiggumState, activated, wiggum_prompt}
use claude_code_portal.Wiggum.{
  Rendering, Moment, Handled, Action, to_backend, to_agent, elapsed,
  handle_session_event_with_wiggum,
}

pub record ConnectionState (O J T : Type 0) : Type 0 where
  pub claude_session : Session J
  pub events : List (IoEvent O J)
  pub handled : Handled J
  pub disk : Disk T
  pub receiver : Receiver
  pub heartbeat : HeartbeatTracker

pub record Reading (J Permission : Type 0) : Type 0 where
  pub from_suggestion : J → Permission
  pub request_number : String → ℕ
  pub empty_object : J
  pub decode : String → Option (List ℕ)

-- `queued` is a shutdown that came before the disconnection; `arrived` are the events of the agent since
-- the last branch, and `closed` says that its task has ended.
pub data Branch (O J T : Type 0) : Type 0 where
  tick heard terminated : Branch O J T
  disconnects : (queued : Option ℕ) → Branch O J T
  graceful_shutdown : (reconnect_delay_ms : ℕ) → Branch O J T
  input : (text : String) → Branch O J T
  wiggum : (original_prompt : String) → Branch O J T
  upload : FileUploadEvent → (works : Bool) → Branch O J T
  permission : PermissionResponseFields J → Branch O J T
  output_ack : (ack_seq : ℕ) → Writing T → (renames : Bool) → Branch O J T
  agent_event : (arrived : List (IoEvent O J)) (closed : Bool) → Branch O J T

-- How the loop ends: with its result, or with a panic in a branch.
pub data Ending : Type 0 where
  returned : ConnectionResult → Ending
  panicked : Ending

abbrev pub ending : Option ConnectionResult → Option Ending
ending none = none
ending (some result) = some (returned result)

-- Duration::from_millis.
abbrev pub from_millis : ℕ → ℕ
from_millis ms = ms * 1000000

abbrev pub or_default {ℓ} : {A : Type ℓ} → Option A → A → A
or_default none d = d
or_default (some x) d = x

module _ {J Permission : Type 0} (reading : Reading J Permission) where
  unfoldable pub lib_response : PermissionResponseFields J → PermissionResponse J Permission
  lib_response r =
      if r.allow
      then record {
        allow = true;
        input = some (or_default r.input reading.empty_object);
        permissions = map reading.from_suggestion r.permissions;
        reason = none;
      }
      else record {
        allow = false;
        input = none;
        permissions = [];
        reason = some (or_default r.reason "User denied");
      }

module _ {O J P Permission T : Type 0} (agent : Agent O J P) (rendering : Rendering O J)
    (codec : Codec J T) (reading : Reading J Permission) (connection_start : ℕ) where
  -- A text for the agent.
  unfoldable pub send_text :
      ConnectionState O J T
      → String
      → Moment
      → ConnectionState O J T × List (Action O J P Permission) × Option ConnectionResult
  send_text s text t =
      let (result, cs) = send_input s.claude_session t.takes (rendering.from_text text) in
      elim result [ inl e ↦ (s, [], some claude_exited) | inr u ↦ (s, map to_agent cs, none) ]

  -- A raw output is numbered and sent here, and another event is handled in wiggum.rs.
  unfoldable pub handle_event :
      ConnectionState O J T
      → Option (SessionEvent O J P)
      → Moment
      → ConnectionState O J T × List (Action O J P Permission) × Option ConnectionResult
  handle_event s (some (SessionEvent.raw_output value)) t =
      let (buffer, seq) = push s.handled.output_buffer value in
      (
        record s { handled = record s.handled { output_buffer = buffer } },
        to_backend (sequenced_output seq value) ∷ [],
        if t.sends then none else some (disconnected (elapsed t connection_start)),
      )
  handle_event s event t =
      let (handled, actions, result) =
        handle_session_event_with_wiggum rendering s.claude_session s.handled event t
          connection_start in
      (record s { handled = handled }, actions, result)

  -- The call of `next_event` may still wait.
  unfoldable pub take_event :
      ConnectionState O J T
      → Polled (SessionEvent O J P)
      → Moment
      → ConnectionState O J T × List (Action O J P Permission) × Option ConnectionResult
  unfolding handle_event
  take_event s waits t = (s, [], none)
  take_event s (returns event) t = handle_event s event t

  unfoldable pub branch :
      ConnectionState O J T
      → Branch O J T
      → Moment
      → ConnectionState O J T × List (Action O J P Permission) × Option Ending
  unfolding send_text take_event lib_response
  branch s tick t =
      if is_expired s.heartbeat t.now
      then (s, [], some (returned (disconnected (elapsed t connection_start))))
      else (s, to_backend heartbeat ∷ [], none)
  branch s heard t = (record s { heartbeat = received s.heartbeat t.now }, [], none)
  branch s terminated t = (s, [], some (returned session_terminated))
  branch s (disconnects (some delay)) t =
      (s, [], some (returned (server_shutdown (from_millis delay))))
  branch s (disconnects none) t =
      (s, [], some (returned (disconnected (elapsed t connection_start))))
  branch s (graceful_shutdown delay) t =
      (s, [], some (returned (server_shutdown (from_millis delay))))
  branch s (input text) t =
      let (s', actions, result) = send_text s text t in (s', actions, ending result)
  branch s (wiggum prompt) t =
      let (s', actions, result) =
        send_text
          (record s { handled = record s.handled { wiggum_state = some (activated prompt t.now) } })
          (wiggum_prompt prompt) t in
      (s', actions, ending result)
  branch s (upload event works) t =
      elim (handle_file_upload reading.decode works s.receiver event) [
        | none ↦ (s, [], some panicked)
        | some receiver ↦ (record s { receiver = receiver }, [], none)
      ]
  branch s (permission r) t =
      let (session, result, cs) =
        respond_permission s.claude_session t.takes reading.empty_object
          (reading.request_number r.request_id) (lib_response reading r) in
      (record s { claude_session = session }, map to_agent cs, none)
  branch s (output_ack ack_seq writing renames) t =
      let (buffer, disk, result) =
        persist codec (acknowledge s.handled.output_buffer ack_seq) writing renames s.disk in
      (record s { handled = record s.handled { output_buffer = buffer }; disk = disk }, [], none)
  branch s (agent_event arrived closed) t =
      let (session, rest, polled) =
        next_event agent s.claude_session (s.events ++ arrived) closed t.now in
      let s' = record s { claude_session = session; events = rest } in
      let (s'', actions, result) = take_event s' polled t in (s'', actions, ending result)

  -- The loop, over the branches that are taken; no result if it goes on after them.
  unfoldable pub run_main_loop :
      ConnectionState O J T
      → List (Branch O J T × Moment)
      → ConnectionState O J T × List (Action O J P Permission) × Option Ending
  unfolding branch
  run_main_loop s [] = (s, [], none)
  run_main_loop s ((b, t) ∷ branches) =
      let (s', actions, result) = branch s b t in
      let (s'', more, ended) = run_main_loop s' branches in
      elim result [ none ↦ (s'', actions ++ more, ended) | some r ↦ (s', actions, some r) ]
