-- ===== src/WebClient.antt =====
-- backend/src/handlers/websocket/web_client_socket.rs and auth.rs: what the messages of a web client do.
-- The tables that proxies and web clients share stand in `ProxySocket.Server`, to which those that only
-- web clients use are added. `Value` is what the code does with a JSON value through serde_json, and with
-- a time stamp through chrono. The records of flags say which calls of the database succeed. Uploads are
-- `Uploads`, and permission answers `Permissions`.
pub mod Input
pub mod Dispatch
pub mod Access
pub mod Steps
pub mod Entitled
pub mod Stored
pub mod Offline
mod Tests
use Prim.Native.Char.{code}
use Prim.Native.String.{◌++◌ as append}
use text.Mathlib.Text.{◌==◌ as str_eq}
use claude_code_portal.Prelude.{
  ℕ, ◌+◌, ◌^◌, ◌≡◌, String, Bool, true, false, not, ◌&&◌, List, [], ◌∷◌, ◌++◌, map, Option, none,
  some, ltb, ◌==◌, if◌then◌else◌, retain, any, lookup, insert, order_by,
}
use claude_code_portal.Protocol.{
  SendMode, ServerToProxy, PermissionResponseFields, FileUploadStartFields, FileUploadChunkFields,
  PortalMessage, portal_text, claude_input, sequenced_input, interrupt, claude_output,
  history_batch, error,
}
use claude_code_portal.SessionManager.{SessionManager, Sent, to_client, send_to_session}
use claude_code_portal.SessionManager.Connections.{is_some}
use claude_code_portal.SessionManager.Clients.{
  add_web_client, add_user_client, broadcast_to_web_clients, deliver,
}
use claude_code_portal.MessageHandlers.{Content, NewMessage, PendingInput}
use claude_code_portal.Registration.{Session, SessionMember, RegistrationDb}
use claude_code_portal.ProxySocket.{Server}
use claude_code_portal.Permissions.{
  Suggestions, PendingPermissionRequest, handle_permission_response, replay_pending_permission,
}
use claude_code_portal.Uploads.{
  PendingUpload, forward, handle_file_upload_start, handle_file_upload_chunk,
}

-- The variables of `handle_web_client_socket`.
pub record WebClient : Type 0 where
  pub tx : ℕ
  pub user_id : ℕ
  pub session_key : Option ℕ
  pub verified_session_id : Option ℕ
  pub pending_uploads : List (String × PendingUpload)

pub record User : Type 0 where
  pub name : Option String
  pub email : String

pub record StoredMessage : Type 0 where
  pub message : NewMessage
  pub created_at : ℕ

-- `input_seqs` is the column `input_seq` of `sessions`.
pub record WebServer (J : Type 0) : Type 0 where
  pub server : Server J
  pub users : List (ℕ × User)
  pub messages : List StoredMessage
  pub input_seqs : List (ℕ × ℕ)
  pub pending_permission_requests : List (ℕ × PendingPermissionRequest J)

-- `with_sender` sets `_sender` on an object, and leaves any other value as it is.
pub record Value (J : Type 0) : Type 0 where
  pub as_str : J → Option String
  pub portal_json : PortalMessage → J
  pub plain : String → String → J
  pub with_sender : J → ℕ → String → J
  pub parse_time : String → Option ℕ

pub record RegisterOutcome : Type 0 where
  pub access : Bool
  pub history_connects : Bool
  pub reads_messages : Bool
  pub reads_users : Bool
  pub reads_permission : Bool

unfoldable pub new_client : ℕ → ℕ → WebClient
new_client tx user_id = record {
  tx = tx;
  user_id = user_id;
  session_key = none;
  verified_session_id = none;
  pending_uploads = [];
}

-- `name.unwrap_or(email)`.
abbrev pub display_of : User → String
display_of u = elim u.name [ none ↦ u.email | some name ↦ name ]

-- The join of `sessions` with `session_members` has a row for the user.
unfoldable pub is_member : RegistrationDb → ℕ → ℕ → Bool
is_member db session_id user_id =
    is_some (lookup session_id db.sessions)
    && any (λ (r : SessionMember). r.session_id == session_id && r.user_id == user_id)
        db.session_members

unfoldable pub messages_after : Option ℕ → ℕ → List StoredMessage → List StoredMessage
messages_after after session_id rows =
    order_by (λ r. r.created_at)
      (retain
        (λ r.
          (r.message.session_id == session_id)
          && elim after [ none ↦ true | some t ↦ ltb t r.created_at ])
        rows)

module _ {J : Type 0} where
  unfoldable pub verify_session_access : WebServer J → Bool → ℕ → ℕ → Bool
  unfolding is_member
  verify_session_access s connects session_id user_id =
      connects && is_member s.server.db session_id user_id

  unfoldable pub with_manager : WebServer J → SessionManager J → WebServer J
  with_manager s m = record s { server = record s.server { manager = m } }

  -- `handle_web_client_socket`, before its loop.
  unfoldable pub connect : WebServer J → ℕ → ℕ → WebServer J × WebClient
  unfolding with_manager new_client
  connect s tx user_id =
      (with_manager s (add_user_client s.server.manager user_id tx), new_client tx user_id)

module _ {J F : Type 0} (content : Content J F) (value : Value J) where
  after_time : Option String → Option ℕ
  after_time none = none
  after_time (some ts) = value.parse_time ts

  -- The names of the users whose messages are in the history, if they are read.
  sender_of : WebServer J → Bool → NewMessage → Option String
  sender_of s reads_users m =
      if str_eq m.role "user" && reads_users
      then elim (lookup m.user_id s.users) [ none ↦ none | some u ↦ some (display_of u) ]
      else none

  unfoldable pub history_value : WebServer J → Bool → StoredMessage → J
  unfolding sender_of
  history_value s reads_users r =
      let m = r.message in
      let val : J = elim (content.from_str m.content) [
        | none ↦ value.plain m.role m.content
        | some v ↦ v
      ] in
      elim (sender_of s reads_users m) [
        | none ↦ val
        | some name ↦ value.with_sender val m.user_id name
      ]

  unfoldable pub send_history : (ℕ → Bool) → ℕ → List J → List (Sent J)
  send_history accepts tx [] = []
  send_history accepts tx (v ∷ vs) = deliver accepts to_client (history_batch (v ∷ vs)) (tx ∷ [])

  unfoldable pub replay_history :
      WebServer J → (ℕ → Bool) → RegisterOutcome → ℕ → ℕ → Option String → List (Sent J)
  unfolding history_value send_history after_time
  replay_history s accepts out tx session_id replay_after =
      if out.history_connects && out.reads_messages
      then send_history accepts tx (
          map (history_value s out.reads_users)
            (messages_after (after_time replay_after) session_id s.messages))
      else []

  -- The result says whether the connection is closed.
  unfoldable pub handle_web_register :
      Suggestions J
      → WebServer J
      → WebClient
      → (ℕ → Bool)
      → RegisterOutcome
      → ℕ
      → Option String
      → WebServer J × WebClient × List (Sent J) × Bool
  unfolding verify_session_access with_manager replay_history
  handle_web_register json s c accepts out session_id replay_after =
      if verify_session_access s out.access session_id c.user_id
      then (
        with_manager s (add_web_client s.server.manager session_id c.tx),
        record c { session_key = some session_id; verified_session_id = some session_id },
        replay_history s accepts out c.tx session_id replay_after
            ++ replay_pending_permission json s.pending_permission_requests accepts
                out.reads_permission session_id c.tx,
        false,
      )
      else (
        s,
        c,
        deliver accepts to_client (error "Access denied: you don't own this session") (c.tx ∷ []),
        true,
      )
