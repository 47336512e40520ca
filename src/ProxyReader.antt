-- ===== src/ProxyReader.antt =====
-- claude-session-lib/src/proxy_session/ws_reader.rs and heartbeat.rs: the task that takes the backend's
-- messages from the socket and hands them to the main loop. The channels are what they hold, oldest first;
-- `listens` says whether the main loop still has their other ends, and `sends` whether the socket takes an
-- acknowledgement. Logging is on for its level, so that the arguments of a line are computed. Instants are in nanoseconds. What is logged is left out.
pub mod Taken
mod Tests
use claude_code_portal.Prelude.{
  ℕ, ◌-◌, ◌*◌, String, Bool, true, false, not, List, [], ◌∷◌, ◌++◌, Option, none, some, ltb,
  if◌then◌else◌,
}
use claude_code_portal.Protocol.{
  SendMode, normal, wiggum, PermissionResponseFields, ServerToProxy, claude_input, sequenced_input,
  permission_response, output_ack, heartbeat, server_shutdown, session_terminated,
  file_upload_start, file_upload_chunk, second,
}
use claude_code_portal.Protocol.Proxy.{ProxyToServer, input_ack}
use claude_code_portal.Uploads.{FileUploadEvent, has_short_id, start, chunk}

-- HEARTBEAT_TIMEOUT.
abbrev pub heartbeat_timeout : ℕ
heartbeat_timeout = 15 * second

pub record HeartbeatTracker : Type 0 where
  pub last_received : ℕ

abbrev pub new_tracker : ℕ → HeartbeatTracker
new_tracker now = record { last_received = now }

abbrev pub received : HeartbeatTracker → ℕ → HeartbeatTracker
received t now = record { last_received = now }

-- `elapsed()` is zero for an instant that is later.
unfoldable pub is_expired : HeartbeatTracker → ℕ → Bool
is_expired t now = ltb heartbeat_timeout (now - t.last_received)

pub record Channels (J : Type 0) : Type 0 where
  pub input_tx : List String
  pub wiggum_tx : List String
  pub perm_tx : List (PermissionResponseFields J)
  pub ack_tx : List ℕ
  pub file_upload_tx : List FileUploadEvent
  pub heartbeat : HeartbeatTracker

pub data WsMessageResult : Type 0 where
  continue disconnect terminated : WsMessageResult
  graceful_shutdown : (delay_ms : ℕ) → WsMessageResult

-- A message and what holds when it comes.
pub record Arrival (J : Type 0) : Type 0 where
  pub message : ServerToProxy J
  pub now : ℕ
  pub listens : Bool
  pub sends : Bool

abbrev pub is_wiggum : Option SendMode → Bool
is_wiggum none = false
is_wiggum (some normal) = false
is_wiggum (some wiggum) = true

-- `as_text` is the text of a JSON string, and of another value its JSON.
module _ {J : Type 0} (as_text : J → String) where
  -- An input goes to the channel of its mode.
  unfoldable pub hand_over : Channels J → J → Option SendMode → Channels J
  hand_over ch content mode =
      if is_wiggum mode
      then record ch { wiggum_tx = ch.wiggum_tx ++ as_text content ∷ [] }
      else record ch { input_tx = ch.input_tx ++ as_text content ∷ [] }

module _ {J P : Type 0} (as_text : J → String) where
  -- `none` is the panic of the slice of an upload's id in the line that is logged.
  unfoldable pub handle_ws_message :
      Channels J → Arrival J → Channels J × List (ProxyToServer J P) × Option WsMessageResult
  unfolding hand_over
  handle_ws_message ch a = elim a.message [
    | claude_input content mode ↦
        if not a.listens
        then (ch, [], some disconnect)
        else (hand_over as_text ch content mode, [], some continue)
    | sequenced_input session_id seq content mode ↦
        if not a.listens then (ch, [], some disconnect) else (
          hand_over as_text ch content mode,
          if a.sends then input_ack session_id seq ∷ [] else [],
          some continue,
        )
    | permission_response fields ↦
        if not a.listens
        then (ch, [], some disconnect)
        else (record ch { perm_tx = ch.perm_tx ++ fields ∷ [] }, [], some continue)
    | output_ack session_id ack_seq ↦
        if not a.listens
        then (ch, [], some disconnect)
        else (record ch { ack_tx = ch.ack_tx ++ ack_seq ∷ [] }, [], some continue)
    | heartbeat ↦ (record ch { heartbeat = received ch.heartbeat a.now }, [], some continue)
    | server_shutdown reason delay_ms ↦ (ch, [], some (graceful_shutdown delay_ms))
    | session_terminated reason ↦ (ch, [], some terminated)
    | file_upload_start f ↦
        if not (has_short_id f.upload_id)
        then (ch, [], none)
        else if not a.listens
        then (ch, [], some disconnect)
        else (
          record ch {
            file_upload_tx =
                ch.file_upload_tx ++ start f.upload_id f.filename f.total_chunks f.total_size ∷ [];
          },
          [],
          some continue,
        )
    | file_upload_chunk f ↦ if not a.listens then (ch, [], some disconnect) else (
      record ch { file_upload_tx = ch.file_upload_tx ++ chunk f.upload_id f.chunk_data ∷ [] },
      [],
      some continue,
    )
    | _ ↦ (ch, [], some continue)
  ]

  -- The loop; `none` is an error of the socket, and the end of the list that of the stream. The result
  -- is how it ended: a disconnection if it was no message that ended it, or a panic, which drops the sender that the main
  -- loop waits for.
  unfoldable pub read_loop :
      Channels J
      → List (Option (Arrival J))
      → Channels J × List (ProxyToServer J P) × WsMessageResult
  unfolding handle_ws_message
  read_loop ch [] = (ch, [], disconnect)
  read_loop ch (none ∷ arrivals) = (ch, [], disconnect)
  read_loop ch (some a ∷ arrivals) =
      let (ch', sent, result) = handle_ws_message ch a in
      let (ch'', more, ended) = read_loop ch' arrivals in
      elim result [
        | none ↦ (ch', sent, disconnect)
        | some continue ↦ (ch'', sent ++ more, ended)
        | some r ↦ (ch', sent, r)
      ]
