-- ===== src/WebClient/Dispatch.antt =====
-- `handle_web_client_message`: one message of a web client, and a run of them.
use claude_code_portal.Prelude.{
  ℕ, String, Bool, false, List, [], ◌∷◌, ◌++◌, Option, none, some, if◌then◌else◌,
}
use claude_code_portal.Protocol
use claude_code_portal.Protocol.{
  SendMode, PermissionResponseFields, FileUploadStartFields, FileUploadChunkFields,
}
use claude_code_portal.SessionManager.{Sent}
use claude_code_portal.MessageHandlers.{Content}
use claude_code_portal.Permissions.{Suggestions, handle_permission_response}
use claude_code_portal.Uploads.{handle_file_upload_start, handle_file_upload_chunk}
use claude_code_portal.WebClient.{
  WebClient, WebServer, Value, RegisterOutcome, with_manager, handle_web_register,
}
use claude_code_portal.WebClient.Input.{InputOutcome, handle_web_input, send_input}

-- The fields of `Register` that are read, and the other messages.
pub data ClientToServer (J : Type 0) : Type 0 where
  register : (session_id : ℕ) (replay_after : Option String) → ClientToServer J
  claude_input : (content : J) (send_mode : Option SendMode) → ClientToServer J
  permission_response : PermissionResponseFields J → ClientToServer J
  file_upload_start : FileUploadStartFields → ClientToServer J
  file_upload_chunk : FileUploadChunkFields → ClientToServer J
  interrupt : ClientToServer J

-- What succeeds while a message is handled; `deletes` is the deletion of an answered request.
pub record Outcome : Type 0 where
  pub register : RegisterOutcome
  pub input : InputOutcome
  pub deletes : Bool

module _ {J : Type 0} (json : Suggestions J) where
  unfoldable pub respond :
      WebServer J
      → WebClient
      → (ℕ → Bool)
      → Bool
      → PermissionResponseFields J
      → ℕ
      → WebServer J × List (Sent J)
  unfolding with_manager
  respond s c accepts deletes fields now = elim c.session_key [
    | none ↦ (s, [])
    | some key ↦ elim c.verified_session_id [
      | none ↦ (s, [])
      | some id ↦
          let (m', rows', sent) =
            handle_permission_response json s.server.manager s.pending_permission_requests accepts
              key id deletes fields now in
          (record (with_manager s m') { pending_permission_requests = rows' }, sent)
    ]
  ]

  unfoldable pub interrupt_session :
      WebServer J → WebClient → (ℕ → Bool) → ℕ → WebServer J × List (Sent J)
  interrupt_session s c accepts now = elim c.session_key [
    | none ↦ (s, [])
    | some key ↦ send_input s accepts key Protocol.interrupt now
  ]

  unfoldable pub upload_start :
      WebServer J
      → WebClient
      → (ℕ → Bool)
      → FileUploadStartFields
      → ℕ
      → WebServer J × WebClient × List (Sent J)
  unfolding with_manager
  upload_start s c accepts f now =
      let (m', uploads', sent) =
        handle_file_upload_start s.server.manager accepts c.session_key c.pending_uploads f now in
      (with_manager s m', record c { pending_uploads = uploads' }, sent)

  unfoldable pub upload_chunk :
      WebServer J
      → WebClient
      → (ℕ → Bool)
      → FileUploadChunkFields
      → ℕ
      → WebServer J × WebClient × List (Sent J)
  unfolding with_manager
  upload_chunk s c accepts f now =
      let (m', uploads', sent) =
        handle_file_upload_chunk s.server.manager accepts c.session_key c.pending_uploads f now in
      (with_manager s m', record c { pending_uploads = uploads' }, sent)

-- The connection stays open.
abbrev stays :
    {J : Type 0}
    → WebServer J × WebClient × List (Sent J)
    → WebServer J × WebClient × List (Sent J) × Bool
stays (s, c, sent) = (s, c, sent, false)

module _ {J F : Type 0} (content : Content J F) (value : Value J) (json : Suggestions J) where
  -- The result says whether the connection is closed.
  unfoldable pub handle_web_client_message :
      WebServer J
      → WebClient
      → (ℕ → Bool)
      → Outcome
      → ClientToServer J
      → ℕ
      → WebServer J × WebClient × List (Sent J) × Bool
  unfolding respond interrupt_session upload_start upload_chunk
  handle_web_client_message s c accepts out (register session_id replay_after) now =
      handle_web_register content value json s c accepts out.register session_id replay_after
  handle_web_client_message s c accepts out (claude_input input send_mode) now =
      let (s', sent) = handle_web_input content value s c accepts out.input input send_mode now in
      (s', c, sent, false)
  handle_web_client_message s c accepts out (file_upload_start f) now =
      stays (upload_start json s c accepts f now)
  handle_web_client_message s c accepts out (file_upload_chunk f) now =
      stays (upload_chunk json s c accepts f now)
  handle_web_client_message s c accepts out (permission_response fields) now =
      let (s', sent) = respond json s c accepts out.deletes fields now in (s', c, sent, false)
  handle_web_client_message s c accepts out interrupt now =
      let (s', sent) = interrupt_session json s c accepts now in (s', c, sent, false)

  -- The loop of `handle_web_client_socket` over the messages that arrive.
  unfoldable pub handle_messages :
      WebServer J
      → WebClient
      → (ℕ → Bool)
      → List (Outcome × ClientToServer J × ℕ)
      → WebServer J × WebClient × List (Sent J)
  handle_messages s c accepts [] = (s, c, [])
  handle_messages s c accepts ((out, msg, now) ∷ rest) =
      let (s', c', sent, closes) = handle_web_client_message s c accepts out msg now in
      let later = handle_messages s' c' accepts rest in
      if closes then (s', c', sent) else (later.0, later.1, sent ++ later.2)
