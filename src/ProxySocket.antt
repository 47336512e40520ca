-- ===== src/ProxySocket.antt =====
-- backend/src/handlers/websocket/proxy_socket.rs: what a proxy's messages and the end of its connection
-- do to the session manager and the database. A session's key is its id. The branches for outputs are
-- `MessageHandlers.handle_claude_output`; permission requests and the two tasks that move messages
-- between the socket and the channel are left out.
pub mod Takeover
pub mod Inputs
pub mod Shuffled
mod Tests
use claude_code_portal.Prelude.{
  order_by, ℕ, ◌≤◌, String, Bool, true, false, not, ◌&&◌, List, [], ◌∷◌, ◌++◌, map, Option, none,
  some, leb, ◌==◌, if◌then◌else◌, retain,
}
use claude_code_portal.Protocol.{
  ServerToProxy, ServerToClient, register_ack, heartbeat, session_update,
}
use claude_code_portal.ProxyTokens.{Crypto}
use claude_code_portal.SessionManager.{
  SessionManager, Sent, to_proxy, register_session, is_current_connection, unregister_session,
}
use claude_code_portal.SessionManager.Clients.{broadcast_to_web_clients, deliver}
use claude_code_portal.MessageHandlers.{Content, PendingInput, replay_inputs}
use claude_code_portal.Registration.{
  RegistrationParams, RegistrationResult, RegistrationDb, Statements, update_session,
  register_or_update_session,
}

-- The variables of `handle_session_socket`; `tx` is its sender.
pub record Connection : Type 0 where
  pub tx : ℕ
  pub session_key : Option ℕ
  pub db_session_id : Option ℕ
  pub connection_gen : Option ℕ

-- The rows of `pending_inputs`, with their session, as the table holds them.
pub record Server (J : Type 0) : Type 0 where
  pub manager : SessionManager J
  pub db : RegistrationDb
  pub pending_inputs : List (ℕ × PendingInput)

abbrev pub connected : ℕ → Connection
connected tx = record { tx = tx; session_key = none; db_session_id = none; connection_gen = none }

-- `filter(session_id.eq(session_id))`.
abbrev pub inputs_for : ℕ → List (ℕ × PendingInput) → List PendingInput
inputs_for session rows = map (λ r. r.1) (retain (λ r. r.0 == session) rows)

-- The query of `replay_pending_inputs_from_db`, with its `order(seq_num.asc())`.
abbrev pub inputs_of : ℕ → List (ℕ × PendingInput) → List PendingInput
inputs_of session rows = order_by (λ i. i.seq_num) (inputs_for session rows)

module _ {J F : Type 0} (json : Content J F) where
  -- `replay_pending_inputs_from_db`; `reads` says whether the rows are had.
  unfoldable pub replay_pending_inputs_from_db :
      List (ℕ × PendingInput) → Bool → Bool → ℕ → ℕ → List (Sent J) × ℕ
  replay_pending_inputs_from_db rows reads alive session tx =
      if reads then replay_inputs json alive session tx (inputs_of session rows) else ([], 0)

  -- What is replayed after a registration that succeeds.
  unfoldable pub replayed_inputs : Server J → Bool → Bool → RegistrationResult → ℕ → List (Sent J)
  unfolding replay_pending_inputs_from_db
  replayed_inputs s reads alive result tx = elim result.session_id [
    | none ↦ []
    | some id ↦
        if result.success
        then (replay_pending_inputs_from_db s.pending_inputs reads alive id tx).0
        else []
  ]

  -- The branch for `Register`: the sender is entered before the database is asked.
  unfoldable pub handle_register :
      Crypto
      → Option ℕ
      → ℕ
      → Server J
      → Connection
      → (ℕ → Bool)
      → Statements
      → RegistrationParams
      → ℕ
      → Server J × Connection × List (Sent J)
  unfolding replayed_inputs
  handle_register crypto dev_user max_image_mb s c accepts st p now =
      let (manager, replayed, gen) =
        register_session s.manager accepts p.claude_session_id c.tx now in
      let (db, result) = register_or_update_session crypto dev_user s.db st p now in
      let ack =
        deliver accepts to_proxy
          (register_ack result.success p.claude_session_id result.error max_image_mb) (c.tx ∷ []) in
      (
        record s { manager = manager; db = db },
        record c {
          session_key = some p.claude_session_id;
          db_session_id = result.session_id;
          connection_gen = some gen;
        },
        replayed ++ ack ++ replayed_inputs s st.reads (accepts c.tx) result c.tx,
      )

set_disconnected : RegistrationDb → Bool → Option ℕ → RegistrationDb
set_disconnected db updates none = db
set_disconnected db updates (some id) =
    if db.tokens.reachable && updates
    then record db {
      sessions = update_session id (λ s. record s { status = "disconnected" }) db.sessions;
    }
    else db

-- `delete` of the rows of the session whose number is at most `ack_seq`.
unfoldable pub handle_input_ack :
    List (ℕ × PendingInput) → Option ℕ → Bool → ℕ → ℕ → List (ℕ × PendingInput)
handle_input_ack rows db_session_id deletes ack_session_id ack_seq = elim db_session_id [
  | none ↦ rows
  | some current ↦
      if not (ack_session_id == current)
      then rows
      else if deletes
      then retain (λ r. not ((r.0 == current) && leb r.1.seq_num ack_seq)) rows
      else rows
]

module _ {J : Type 0} where
  -- A newer connection has registered the session.
  unfoldable pub is_superseded : SessionManager J → Connection → Bool
  is_superseded m c = elim c.session_key [
    | none ↦ false
    | some key ↦ elim c.connection_gen [
      | none ↦ false
      | some gen ↦ not (is_current_connection m key gen)
    ]
  ]

  release : SessionManager J → Connection → SessionManager J
  release m c = elim c.session_key [
    | none ↦ m
    | some key ↦ unregister_session m key c.connection_gen
  ]

  -- The clean-up after the last message.
  unfoldable pub close_connection : Server J → Connection → Bool → Server J
  unfolding is_superseded set_disconnected release
  close_connection s c updates = if is_superseded s.manager c then s else record s {
    db = set_disconnected s.db updates c.db_session_id;
    manager = release s.manager c;
  }

  unfoldable pub handle_session_update :
      Server J
      → Connection
      → (ℕ → Bool)
      → Bool
      → ℕ
      → Option String
      → Option String
      → Option String
      → Server J × List (Sent J)
  handle_session_update s c accepts updates id git_branch pr_url repo_url = elim c.db_session_id [
    | none ↦ (s, [])
    | some current ↦
        if not s.db.tokens.reachable
        then (s, [])
        else if not (current == id)
        then (s, [])
        else if not updates
        then (s, [])
        else let db = record s.db {
          sessions =
              update_session current
                (λ row. record row {
                  git_branch = git_branch;
                  pr_url = pr_url;
                  repo_url = repo_url;
                })
                s.db.sessions;
        } in
          elim c.session_key [
            | none ↦ (record s { db = db }, [])
            | some key ↦
                let (manager, sent) =
                  broadcast_to_web_clients s.manager accepts key
                    (session_update current git_branch pr_url repo_url) in
                (record s { db = db; manager = manager }, sent)
          ]
  ]
