-- ===== src/Wiggum.antt =====
-- claude-session-lib/src/proxy_session/wiggum.rs: the mode in which a prompt is sent again and again until
-- the agent answers DONE, and the handling of the session's events around it. Durations and instants are
-- in nanoseconds. What is read of an output of the agent, `str::to_uppercase` with its Unicode tables,
-- a float with one decimal, and the values of JSON are the fields of `Rendering`. Whether the channel to
-- the output forwarder, the socket and the agent take what they are given is a `Moment`.
pub mod Turns
pub mod Progress
pub mod Limit
mod Tests
use Prim.Native.Char.{code}
use Prim.Native.String.{len, slice, ◌++◌ as ◌<>◌}
use claude_code_portal.Prelude.{
  ℕ, zero, suc, ◌+◌, ◌-◌, ◌*◌, ◌/◌, ◌%◌, ◌^◌, String, Bool, true, false, not, ◌&&◌, ◌||◌, List, [],
  ◌∷◌, ◌++◌, map, Option, none, some, inl, inr, ltb, leb, ◌==◌, if◌then◌else◌, length, drop,
}
use claude_code_portal.WiggumState.{
  WiggumState, ResultMessage, wiggum_max_iterations, check_wiggum_done, record_duration,
  format_wiggum_status, completion_text, wiggum_prompt,
}
use text.Mathlib.Text.{◌==◌ as str_eq, starts_with, find?}
use claude_code_portal.Protocol.{PortalMessage, portal_text}
use claude_code_portal.Protocol.Proxy.{ProxyToServer, sequenced_output, permission_request}
use claude_code_portal.SessionManager.Connections.{is_some}
use claude_code_portal.OutputBuffer.{PendingOutputBuffer, push, u64_mod}
use claude_code_portal.Reconnection.{
  ConnectionResult, claude_exited, session_not_found, disconnected,
}
use claude_code_portal.AgentSession.{Session, SessionEvent, IoCommand, send_input}

pub record Rendering (O J : Type 0) : Type 0 where
  pub as_result : O → Option ResultMessage
  pub to_uppercase : String → String
  pub tenths : ℕ → String
  pub from_text : String → J
  pub portal_json : PortalMessage → J

-- `now` is when the event is taken, `sent_at` when a message about it has been sent.
pub record Moment : Type 0 where
  pub now : ℕ
  pub sent_at : ℕ
  pub forwards : Bool
  pub sends : Bool
  pub takes : Bool

-- The parts of a connection that the handling of an event changes.
pub record Handled (J : Type 0) : Type 0 where
  pub wiggum_state : Option WiggumState
  pub output_buffer : PendingOutputBuffer J

-- What is done towards the other tasks, in order.
pub data Action (O J P Permission : Type 0) : Type 0 where
  forwarded : O → Action O J P Permission
  to_backend : ProxyToServer J P → Action O J P Permission
  to_agent : IoCommand J Permission → Action O J P Permission

-- `elapsed()`.
abbrev pub elapsed : Moment → ℕ → ℕ
elapsed t start = t.now - start

module _ {O J P Permission : Type 0} (rendering : Rendering O J) where
  -- A portal message: buffered, and sent with its number.
  unfoldable pub send_portal :
      PendingOutputBuffer J → String → PendingOutputBuffer J × Action O J P Permission
  send_portal buffer text =
      let content = rendering.portal_json (portal_text text) in
      let (buffer', seq) = push buffer content in
      (buffer', to_backend (sequenced_output seq content))

  -- The answer is not the last one: the state with the next loop's number, or none at the limit.
  unfoldable pub continue_wiggum :
      Session J
      → PendingOutputBuffer J
      → WiggumState
      → Moment
      → ℕ
      → Handled J × List (Action O J P Permission) × Option ConnectionResult
  unfolding send_portal record_duration format_wiggum_status wiggum_prompt
  continue_wiggum session buffer w t connection_start =
      let w' = record w {
        loop_durations = record_duration w.loop_durations (elapsed t w.loop_start);
        iteration = (w.iteration + 1) % 2 ^ 32;
      } in
      if ltb wiggum_max_iterations w'.iteration
      then (record { wiggum_state = none; output_buffer = buffer }, [], none)
      else (let (buffer', sent) = send_portal buffer (format_wiggum_status rendering.tenths w') in
          if not t.sends
          then (
            record { wiggum_state = some w'; output_buffer = buffer' },
            sent ∷ [],
            some (disconnected (elapsed t connection_start)),
          )
          else (let (result, cs) =
                send_input session t.takes
                  (rendering.from_text (wiggum_prompt w'.original_prompt)) in
              elim result [
                | inl e ↦ (
                  record { wiggum_state = none; output_buffer = buffer' },
                  sent ∷ [],
                  some claude_exited,
                )
                | inr u ↦ (
                  record {
                    wiggum_state = some (record w' { loop_start = t.sent_at });
                    output_buffer = buffer';
                  },
                  sent ∷ map to_agent cs,
                  none,
                )
              ]))

  -- The agent says that it is done, or its answer is an error; a failed send is only logged.
  unfoldable pub complete_wiggum :
      PendingOutputBuffer J → WiggumState → Moment → Handled J × List (Action O J P Permission)
  unfolding send_portal record_duration completion_text
  complete_wiggum buffer w t =
      let w' = record w {
        loop_durations = record_duration w.loop_durations (elapsed t w.loop_start);
      } in
      let (buffer', sent) = send_portal buffer (completion_text rendering.tenths w') in
      (record { wiggum_state = none; output_buffer = buffer' }, sent ∷ [])

  -- An output, which is forwarded first.
  unfoldable pub handle_output :
      Session J
      → Handled J
      → O
      → Moment
      → ℕ
      → Handled J × List (Action O J P Permission) × Option ConnectionResult
  unfolding continue_wiggum complete_wiggum
  handle_output session h o t connection_start =
      if not t.forwards
      then (h, [], some (disconnected (elapsed t connection_start)))
      else elim (rendering.as_result o) [
        | none ↦ (h, forwarded o ∷ [], none)
        | some m ↦ elim h.wiggum_state [
          | none ↦ (h, forwarded o ∷ [], none)
          | some w ↦
              if check_wiggum_done rendering.to_uppercase m
              then (let (h', actions) = complete_wiggum h.output_buffer w t in
                  (h', forwarded o ∷ actions, none))
              else (let (h', actions, ended) =
                    continue_wiggum session h.output_buffer w t connection_start in
                  (h', forwarded o ∷ actions, ended))
        ]
      ]

  -- `handle_session_event_with_wiggum`. A raw output is taken by the main loop, and never comes here.
  unfoldable pub handle_session_event_with_wiggum :
      Session J
      → Handled J
      → Option (SessionEvent O J P)
      → Moment
      → ℕ
      → Handled J × List (Action O J P Permission) × Option ConnectionResult
  unfolding handle_output
  handle_session_event_with_wiggum session h none t start = (h, [], some claude_exited)
  handle_session_event_with_wiggum session h (some (SessionEvent.output o)) t start =
      handle_output session h o t start
  handle_session_event_with_wiggum session h (some (SessionEvent.permission_request r)) t start = (
    h,
    to_backend (permission_request r.request_id r.tool_name r.input r.permission_suggestions) ∷ [],
    if t.sends then none else some (disconnected (elapsed t start)),
  )
  handle_session_event_with_wiggum session h (some SessionEvent.session_not_found) t start =
      (h, [], some session_not_found)
  handle_session_event_with_wiggum session h (some (SessionEvent.exited code)) t start =
      (h, [], some claude_exited)
  handle_session_event_with_wiggum session h (some (SessionEvent.error e)) t start =
      (h, [], some claude_exited)
  handle_session_event_with_wiggum session h (some (SessionEvent.raw_output value)) t start =
      (h, [], none)
