-- ===== src/Permissions.antt =====
-- backend/src/handlers/websocket/permissions.rs: a proxy's permission request is kept until a web client
-- answers it, and shown to each client that connects meanwhile. The table has a row for each session at
-- most, since `session_id` is unique; `connects` and the other flags say which calls of the database
-- succeed. Suggestions are values of `J`; `to_value` and `from_value` of serde_json on their list are
-- the parameter `Suggestions`. The time of a row is left out, as nothing reads it.
pub mod Replay
pub mod Fixture
mod Tests
use claude_code_portal.Prelude.{
  ℕ, ◌≡◌, String, Bool, true, false, ◌&&◌, List, [], ◌∷◌, Option, none, some, if◌then◌else◌, lookup,
  insert, remove,
}
use claude_code_portal.Protocol.{
  ServerToClient, PermissionResponseFields, permission_request, permission_response,
}
use claude_code_portal.SessionManager.{SessionManager, Sent, to_client, send_to_session}
use claude_code_portal.SessionManager.Clients.{broadcast_to_web_clients, deliver}

pub record Suggestions (J : Type 0) : Type 0 where
  pub to_value : List J → J
  pub from_value : J → Option (List J)
  pub from_value-to_value :
      (suggestions : List J) → from_value (to_value suggestions) ≡ some suggestions

pub record PermissionRequest (J : Type 0) : Type 0 where
  pub request_id : String
  pub tool_name : String
  pub input : J
  pub permission_suggestions : List J

pub record PendingPermissionRequest (J : Type 0) : Type 0 where
  pub request_id : String
  pub tool_name : String
  pub input : J
  pub permission_suggestions : Option J

module _ {J : Type 0} where
  abbrev pub shown : PermissionRequest J → ServerToClient J
  shown p = permission_request p.request_id p.tool_name p.input p.permission_suggestions

  -- Broadcast to the clients of the session that the proxy has registered, if any.
  show_to_clients :
      SessionManager J
      → (ℕ → Bool)
      → Option ℕ
      → PermissionRequest J
      → SessionManager J × List (Sent J)
  show_to_clients m accepts none p = (m, [])
  show_to_clients m accepts (some key) p = broadcast_to_web_clients m accepts key (shown p)

module _ {J : Type 0} (json : Suggestions J) where
  open json use {to_value, from_value}

  suggestions_json : List J → Option J
  suggestions_json [] = none
  suggestions_json (x ∷ xs) = some (to_value (x ∷ xs))

  unfoldable pub row_of : PermissionRequest J → PendingPermissionRequest J
  unfolding suggestions_json
  row_of p = record {
    request_id = p.request_id;
    tool_name = p.tool_name;
    input = p.input;
    permission_suggestions = suggestions_json p.permission_suggestions;
  }

  -- `insert_into(..).on_conflict(session_id).do_update()`.
  store_request :
      List (ℕ × PendingPermissionRequest J)
      → Bool
      → Option ℕ
      → PermissionRequest J
      → List (ℕ × PendingPermissionRequest J)
  unfolding row_of
  store_request rows stores none p = rows
  store_request rows stores (some id) p = if stores then insert id (row_of p) rows else rows

  unfoldable pub handle_permission_request :
      SessionManager J
      → List (ℕ × PendingPermissionRequest J)
      → (ℕ → Bool)
      → Option ℕ
      → Option ℕ
      → Bool
      → PermissionRequest J
      → SessionManager J × List (ℕ × PendingPermissionRequest J) × List (Sent J)
  unfolding store_request show_to_clients
  handle_permission_request m rows accepts session_key db_session_id stores p =
      let (m', sent) = show_to_clients m accepts session_key p in
      (m', store_request rows stores db_session_id p, sent)

  unfoldable pub handle_permission_response :
      SessionManager J
      → List (ℕ × PendingPermissionRequest J)
      → (ℕ → Bool)
      → ℕ
      → ℕ
      → Bool
      → PermissionResponseFields J
      → ℕ
      → SessionManager J × List (ℕ × PendingPermissionRequest J) × List (Sent J)
  handle_permission_response m rows accepts key session_id deletes fields now =
      let (m', sent, done) = send_to_session m accepts key (permission_response fields) now in
      (m', if deletes then remove session_id rows else rows, sent)

  suggestions_of : Option J → List J
  suggestions_of none = []
  suggestions_of (some v) = elim (from_value v) [ none ↦ [] | some suggestions ↦ suggestions ]

  request_of : PendingPermissionRequest J → PermissionRequest J
  unfolding suggestions_of
  request_of row = record {
    request_id = row.request_id;
    tool_name = row.tool_name;
    input = row.input;
    permission_suggestions = suggestions_of row.permission_suggestions;
  }

  unfoldable pub replay_pending_permission :
      List (ℕ × PendingPermissionRequest J) → (ℕ → Bool) → Bool → ℕ → ℕ → List (Sent J)
  unfolding request_of
  replay_pending_permission rows accepts reads session_id tx =
      if reads
      then elim (lookup session_id rows) [
        | none ↦ []
        | some row ↦ deliver accepts to_client (shown (request_of row)) (tx ∷ [])
      ]
      else []
