-- ===== src/AgentSession.antt =====
-- claude-session-lib/src/session.rs and snapshot.rs: a session with an agent, its events, inputs,
-- permission requests, stop, snapshot and restore. An output of the agent is what `Agent` reads of it
-- through claude_codes; a request's id, which is only compared, is a number. The task that talks to the
-- process is the other end of two channels: the events that it has sent are a list, and `closed` says
-- that it has ended; `takes` says whether it still takes commands. Starting it is the argument `starts`.
pub mod Events
pub mod Coherence
pub mod Permissions
pub mod Persistence
mod Tests
use claude_code_portal.Prelude.{
  ℕ, String, Bool, true, false, not, ◌&&◌, List, [], ◌∷◌, ◌++◌, Option, none, some, ◌⊎◌, inl, inr,
  ◌==◌, if◌then◌else◌,
}
use claude_code_portal.Protocol.{AgentType, claude, codex}
use claude_code_portal.SessionManager.Connections.{is_some}
use claude_code_portal.ReplayBuffer.{
  BufferedOutput, OutputBuffer, push, ack, new, from_snapshot, to_snapshot,
}

pub record SessionConfig : Type 0 where
  pub session_id : ℕ
  pub working_directory : String
  pub session_name : String
  pub resume : Bool
  pub claude_path : Option String
  pub extra_args : List String
  pub agent_type : AgentType

pub record PendingPermission (J : Type 0) : Type 0 where
  pub request_id : ℕ
  pub tool_name : String
  pub input : J
  pub requested_at : ℕ

pub data SessionState : Type 0 where
  running waiting_for_permission : SessionState
  exited : (code : ℕ) → SessionState

-- The errors of the source without the causes they carry. An exit code is only passed on.
pub data SessionError : Type 0 where
  already_exited : (code : ℕ) → SessionError
  invalid_permission_response : (request_id : ℕ) → SessionError
  communication_error : (message : String) → SessionError
  spawn_failed session_not_found serialization_error claude_error : SessionError

-- A tool for which the agent asks for permission; `P` is the type of a suggestion.
pub record ToolRequest (J P : Type 0) : Type 0 where
  pub request_id : ℕ
  pub tool_name : String
  pub input : J
  pub permission_suggestions : List P

-- `to_value`; a result with the error "No conversation found"; `ControlRequest` with `CanUseTool`; and
-- `ControlResponse`.
pub record Agent (O J P : Type 0) : Type 0 where
  pub to_value : O → J
  pub is_not_found : O → Bool
  pub can_use_tool : O → Option (ToolRequest J P)
  pub is_control_response : O → Bool
  pub empty_object : J

pub data IoEvent (O J : Type 0) : Type 0 where
  output : O → IoEvent O J
  raw_output : J → IoEvent O J
  codex_permission_request : (request_id : ℕ) (tool_name : String) (input : J) → IoEvent O J
  error : SessionError → IoEvent O J
  exited : (code : ℕ) → IoEvent O J

pub data SessionEvent (O J P : Type 0) : Type 0 where
  output : O → SessionEvent O J P
  raw_output : J → SessionEvent O J P
  permission_request : ToolRequest J P → SessionEvent O J P
  session_not_found : SessionEvent O J P
  exited : (code : ℕ) → SessionEvent O J P
  error : SessionError → SessionEvent O J P

-- `Permission` is the type of a permission to remember.
pub record PermissionResponse (J Permission : Type 0) : Type 0 where
  pub allow : Bool
  pub input : Option J
  pub permissions : List Permission
  pub reason : Option String

pub data IoCommand (J Permission : Type 0) : Type 0 where
  user_input : (content : J) → IoCommand J Permission
  allow : (request_id : ℕ) (input : J) (permissions : List Permission) → IoCommand J Permission
  deny : (request_id : ℕ) (reason : String) → IoCommand J Permission
  codex_approval : (request_id : ℕ) (accept : Bool) → IoCommand J Permission

pub record Session (J : Type 0) : Type 0 where
  pub id : ℕ
  pub config : SessionConfig
  pub command_tx : Bool
  pub buffer : OutputBuffer J
  pub state : SessionState
  pub pending_permission : Option (PendingPermission J)
  pub event_rx : Bool

pub record SessionSnapshot (J : Type 0) : Type 0 where
  pub id : ℕ
  pub config : SessionConfig
  pub pending_outputs : List (BufferedOutput J)
  pub pending_permission : Option (PendingPermission J)
  pub last_activity : ℕ
  pub was_running : Bool

-- The call waits for the task, or it returns.
pub data Polled (E : Type 0) : Type 0 where
  waits : Polled E
  returns : Option E → Polled E

abbrev pub is_live : SessionState → Bool
is_live running = true
is_live waiting_for_permission = true
is_live (exited code) = false

or_else {ℓ} : {A : Type ℓ} → Option A → A → A
or_else none d = d
or_else (some x) d = x

module _ {J : Type 0} where
  -- A Claude process must start; Codex starts none before an input.
  unfoldable pub new_session : SessionConfig → Bool → SessionError ⊎ Session J
  new_session config starts = elim config.agent_type [
    | codex ↦ inr (record {
      id = config.session_id;
      config = config;
      command_tx = true;
      buffer = new config.session_id;
      state = running;
      pending_permission = none;
      event_rx = true;
    })
    | claude ↦
        if not starts
        then inl spawn_failed
        else inr (record {
          id = config.session_id;
          config = config;
          command_tx = true;
          buffer = new config.session_id;
          state = running;
          pending_permission = none;
          event_rx = true;
        })
  ]

  unfoldable pub ended : Session J → ℕ → Session J
  ended s code = record s { state = exited code; command_tx = false; event_rx = false }

  unfoldable pub asked : Session J → ℕ → ℕ → String → J → Session J
  asked s now request_id tool_name input = record s {
    pending_permission = some (record {
      request_id = request_id;
      tool_name = tool_name;
      input = input;
      requested_at = now;
    });
    state = waiting_for_permission;
  }

  unfoldable pub buffered : Session J → J → ℕ → Session J
  buffered s value now = record s { buffer = (push s.buffer value now).0 }

  module _ {O P : Type 0} (agent : Agent O J P) where
    -- The match on an event, in the loop of `next_event`: `none` continues the loop.
    unfoldable pub handle_event :
        Session J → IoEvent O J → ℕ → Session J × Option (SessionEvent O J P)
    unfolding ended asked buffered
    handle_event s (output o) now =
        let s' = buffered s (agent.to_value o) now in
        if agent.is_not_found o
        then (ended s' 1, some SessionEvent.session_not_found)
        else elim (agent.can_use_tool o) [
          | some t ↦ (asked s' now t.request_id t.tool_name t.input, some (permission_request t))
          | none ↦ (s', if agent.is_control_response o then none else some (output o))
        ]
    handle_event s (raw_output value) now = (buffered s value now, some (raw_output value))
    handle_event s (codex_permission_request request_id tool_name input) now = (
      asked s now request_id tool_name input,
      some (
          permission_request (record {
            request_id = request_id;
            tool_name = tool_name;
            input = input;
            permission_suggestions = [];
          })),
    )
    handle_event s (exited code) now = (ended s code, some (exited code))
    handle_event s (error e) now = (s, some (error e))

    -- The loop, over the events that the task has sent and which have not been received.
    unfoldable pub next_loop :
        Session J
        → List (IoEvent O J)
        → Bool
        → ℕ
        → Session J × List (IoEvent O J) × Polled (SessionEvent O J P)
    unfolding handle_event ended
    next_loop s [] closed now = if closed then (ended s 0, [], returns none) else (s, [], waits)
    next_loop s (e ∷ events) closed now =
        let (s', event) = handle_event s e now in
        let rest = next_loop s' events closed now in
        elim event [ none ↦ rest | some x ↦ (s', events, returns (some x)) ]

    unfoldable pub next_event :
        Session J
        → List (IoEvent O J)
        → Bool
        → ℕ
        → Session J × List (IoEvent O J) × Polled (SessionEvent O J P)
    unfolding next_loop
    next_event s events closed now =
        if s.event_rx then next_loop s events closed now else (s, events, returns none)

  unfoldable pub ack_outputs : Session J → ℕ → Session J
  ack_outputs s seq = record s { buffer = ack s.buffer seq }

  -- `stop` cannot fail.
  unfoldable pub stop : Session J → Session J
  unfolding ended
  stop s = ended s 0

  abbrev pub is_running : Session J → Bool
  is_running s = is_live s.state

  abbrev pub has_pending_permission : Session J → Bool
  has_pending_permission s = is_some s.pending_permission

  unfoldable pub snapshot : Session J → ℕ → SessionSnapshot J
  snapshot s now = record {
    id = s.id;
    config = s.config;
    pending_outputs = to_snapshot s.buffer;
    pending_permission = s.pending_permission;
    last_activity = now;
    was_running = is_running s;
  }

  -- A Claude process is started for any agent.
  unfoldable pub restore : SessionSnapshot J → Bool → SessionError ⊎ Session J
  restore snap starts =
      if snap.was_running && not starts
      then inl spawn_failed
      else inr (record {
        id = snap.id;
        config = record snap.config { resume = true };
        command_tx = snap.was_running;
        buffer = from_snapshot snap.id snap.pending_outputs;
        state = if snap.was_running then running else exited 0;
        pending_permission = snap.pending_permission;
        event_rx = snap.was_running;
      })

  abbrev pub is_answerable : ℕ → Session J → Bool
  is_answerable request_id s = elim s.pending_permission [
    | none ↦ false
    | some p ↦ p.request_id == request_id
  ]

  module _ {Permission : Type 0} where
    -- `command_tx.send`, if there is a `command_tx`.
    unfoldable pub send_command :
        Session J
        → Bool
        → IoCommand J Permission
        → (SessionError ⊎ Unit {0}) × List (IoCommand J Permission)
    send_command s takes c =
        if not s.command_tx
        then (inr tt, [])
        else if takes
        then (inr tt, c ∷ [])
        else (inl (communication_error "I/O task closed"), [])

    -- The text of an input is made of its content.
    unfoldable pub send_input :
        Session J → Bool → J → (SessionError ⊎ Unit {0}) × List (IoCommand J Permission)
    unfolding send_command
    send_input s takes content = elim s.state [
      | exited code ↦ (inl (already_exited code), [])
      | running ↦ send_command s takes (user_input content)
      | waiting_for_permission ↦ send_command s takes (user_input content)
    ]

    unfoldable pub answer :
        AgentType → J → ℕ → PermissionResponse J Permission → IoCommand J Permission
    unfolding or_else
    answer codex empty_object request_id r = codex_approval request_id r.allow
    answer claude empty_object request_id r =
        if r.allow
        then allow request_id (or_else r.input empty_object) r.permissions
        else deny request_id (or_else r.reason "User denied")

    unfoldable pub respond_permission :
        Session J
        → Bool
        → J
        → ℕ
        → PermissionResponse J Permission
        → Session J × (SessionError ⊎ Unit {0}) × List (IoCommand J Permission)
    unfolding answer send_command
    respond_permission s takes empty_object request_id r =
        if not (is_answerable request_id s)
        then (s, inl (invalid_permission_response request_id), [])
        else let (result, sent) =
            send_command s takes (answer s.config.agent_type empty_object request_id r) in
          elim result [
            | inl e ↦ (s, inl e, sent)
            | inr u ↦ (record s { pending_permission = none; state = running }, inr tt, sent)
          ]
