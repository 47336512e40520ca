-- ===== src/WebClient/Input.antt =====
-- `handle_web_input`: a web client's input is numbered, stored and sent to the session's proxy.
use Prim.Native.Char.{code}
use Prim.Native.String.{◌++◌ as append}
use claude_code_portal.Prelude.{
  ℕ, ◌+◌, ◌^◌, String, Bool, true, false, not, ◌&&◌, List, [], ◌∷◌, ◌++◌, Option, none, some, ltb,
  ◌==◌, if◌then◌else◌, lookup, insert,
}
use claude_code_portal.Protocol.{
  SendMode, ServerToProxy, portal_text, claude_input, sequenced_input, claude_output,
}
use claude_code_portal.SessionManager.{Sent, send_to_session}
use claude_code_portal.SessionManager.Clients.{broadcast_to_web_clients}
use claude_code_portal.MessageHandlers.{Content, PendingInput}
use claude_code_portal.WebClient.{WebClient, WebServer, Value, User, with_manager}

pub record InputOutcome : Type 0 where
  pub sender_connects : Bool
  pub reads_name : Bool
  pub reads_email : Bool
  pub portal_connects : Bool
  pub reads_session : Bool
  pub inserts_portal : Bool
  pub connects : Bool
  pub updates : Bool
  pub inserts : Bool

unfoldable pub is_command : String → Bool
is_command String.[] = false
is_command (String.◌∷◌ c s) = code c == b'/'

-- The name if it is read and there, else the email, else `Unknown`.
unfoldable pub display_name : Option User → Bool → Bool → String
display_name none reads_name reads_email = "Unknown"
display_name (some u) true reads_email = elim u.name [
  | some name ↦ name
  | none ↦ if reads_email then u.email else "Unknown"
]
display_name (some u) false reads_email = if reads_email then u.email else "Unknown"

module _ {J : Type 0} where
  unfoldable pub attribute_input : WebServer J → InputOutcome → ℕ → ℕ → WebServer J
  unfolding display_name with_manager
  attribute_input s out session_id user_id =
      let m = s.server.manager in
      let name = display_name (lookup user_id s.users) out.reads_name out.reads_email in
      if out.sender_connects
      then with_manager s
          (record m { last_input_sender = insert session_id (user_id, name) m.last_input_sender })
      else s

  -- `input_seq + 1`; 1 if the update fails, also for a session that is not there or a number that does
  -- not fit an `i64`.
  unfoldable pub next_input_seq : WebServer J → Bool → ℕ → WebServer J × ℕ
  next_input_seq s updates session_id = elim (lookup session_id s.input_seqs) [
    | none ↦ (s, 1)
    | some seq ↦
        if updates && ltb (seq + 1) (2 ^ 63)
        then (record s { input_seqs = insert session_id (seq + 1) s.input_seqs }, seq + 1)
        else (s, 1)
  ]

  -- The result of `send_to_session` is only logged.
  unfoldable pub send_input :
      WebServer J → (ℕ → Bool) → ℕ → ServerToProxy J → ℕ → WebServer J × List (Sent J)
  unfolding with_manager
  send_input s accepts key msg now =
      let (m', sent, done) = send_to_session s.server.manager accepts key msg now in
      (with_manager s m', sent)

  unfoldable pub input_message : ℕ → ℕ → J → Option SendMode → ServerToProxy J
  input_message session_id seq c send_mode =
      if ltb 0 seq then sequenced_input session_id seq c send_mode else claude_input c send_mode

module _ {J F : Type 0} (content : Content J F) (value : Value J) where
  -- A slash command is shown to the session's clients, and stored.
  unfoldable pub store_command : WebServer J → InputOutcome → ℕ → J → ℕ → WebServer J
  store_command s out session_id portal now = elim (lookup session_id s.server.db.sessions) [
    | none ↦ s
    | some row ↦
        if out.portal_connects && (out.reads_session && out.inserts_portal)
        then record s {
          messages =
              s.messages
              ++ record {
                message = record {
                  session_id = session_id;
                  role = "portal";
                  content = content.to_string portal;
                  user_id = row.user_id;
                };
                created_at = now;
              }
                ∷ [];
        }
        else s
  ]

  unfoldable pub announce_command :
      WebServer J → (ℕ → Bool) → InputOutcome → ℕ → ℕ → J → ℕ → WebServer J × List (Sent J)
  unfolding is_command with_manager store_command
  announce_command s accepts out key session_id c now = elim (value.as_str c) [
    | none ↦ (s, [])
    | some text ↦
        if is_command text
        then (let portal = value.portal_json (portal_text (append "`" (append text "`"))) in
            let (m', sent) =
              broadcast_to_web_clients s.server.manager accepts key
                (claude_output portal none none) in
            (store_command (with_manager s m') out session_id portal now, sent))
        else (s, [])
  ]

  -- The new state and the number; 0 without a connection, and then nothing is stored.
  unfoldable pub store_input : WebServer J → InputOutcome → ℕ → J → WebServer J × ℕ
  unfolding next_input_seq
  store_input s out session_id c =
      let (s', seq) = next_input_seq s out.updates session_id in
      let row : PendingInput = record { seq_num = seq; content = content.to_string c } in
      if not out.connects
      then (s, 0)
      else if out.inserts
      then (
        record s' {
          server = record s'.server {
            pending_inputs = s'.server.pending_inputs ++ (session_id, row) ∷ [];
          };
        },
        seq,
      )
      else (s', seq)

  -- The input of a client that has registered.
  unfoldable pub accept_input :
      WebServer J
      → (ℕ → Bool)
      → InputOutcome
      → ℕ
      → ℕ
      → ℕ
      → J
      → Option SendMode
      → ℕ
      → WebServer J × List (Sent J)
  unfolding attribute_input announce_command store_input input_message send_input
  accept_input s accepts out user_id key session_id c send_mode now =
      let (announced, shown) =
        announce_command (attribute_input s out session_id user_id) accepts out key session_id c
          now in
      let (stored, seq) = store_input announced out session_id c in
      let (s', sent) =
        send_input stored accepts key (input_message session_id seq c send_mode) now in
      (s', shown ++ sent)

  unfoldable pub handle_web_input :
      WebServer J
      → WebClient
      → (ℕ → Bool)
      → InputOutcome
      → J
      → Option SendMode
      → ℕ
      → WebServer J × List (Sent J)
  unfolding accept_input
  handle_web_input s c accepts out input send_mode now = elim c.session_key [
    | none ↦ (s, [])
    | some key ↦ elim c.verified_session_id [
      | none ↦ (s, [])
      | some id ↦ accept_input s accepts out c.user_id key id input send_mode now
    ]
  ]
