-- ===== src/MessageHandlers.antt =====
-- backend/src/handlers/websocket/message_handlers.rs: what the backend does with an output that a proxy
-- sends, and the inputs that it replays to a proxy. The database is a record; whether a connection is
-- had and which of the statements of one call succeed are arguments. `Content` is what the code
-- reads of a JSON value through serde_json and claude_codes. The warnings about messages that do not
-- parse change nothing and are left out. `F` is the type of a cost in dollars.
pub mod Dedup
pub mod Stored
pub mod Resent
mod Tests
use claude_code_portal.Prelude.{
  ℕ, zero, suc, ◌+◌, max, String, Bool, true, false, ◌&&◌, ◌||◌, List, [], ◌∷◌, ◌++◌, map, Option,
  none, some, ltb, leb, ◌==◌, if◌then◌else◌, lookup, insert, remove,
}
use text.Mathlib.Text.{◌==◌ as str_eq}
use claude_code_portal.Protocol.{
  ServerToProxy, ServerToClient, claude_output, output_ack, sequenced_input,
}
use claude_code_portal.SessionManager.{SessionManager, Sent, to_proxy, queue_truncation}
use claude_code_portal.SessionManager.Connections.{is_some}
use claude_code_portal.SessionManager.Clients.{broadcast_to_web_clients, deliver}

-- shared::MessageRole.
pub data MessageRole : Type 0 where
  system assistant user result error portal unknown : MessageRole

unfoldable pub from_type_str : String → MessageRole
from_type_str s =
    if str_eq s "system"
    then system
    else if str_eq s "assistant"
    then assistant
    else if str_eq s "user"
    then user
    else if str_eq s "result"
    then result
    else if str_eq s "error"
    then error
    else if str_eq s "portal"
    then portal
    else unknown

unfoldable pub role_name : MessageRole → String
role_name system = "system"
role_name assistant = "assistant"
role_name user = "user"
role_name result = "result"
role_name error = "error"
role_name portal = "portal"
role_name unknown = "unknown"

pub record Tokens : Type 0 where
  pub input_tokens : ℕ
  pub output_tokens : ℕ
  pub cache_creation_tokens : ℕ
  pub cache_read_tokens : ℕ

pub record ResultMessage (F : Type 0) : Type 0 where
  pub total_cost_usd : F
  pub usage : Option Tokens

pub record Content (J F : Type 0) : Type 0 where
  pub type_of : J → Option String
  pub to_string : J → String
  pub result_message : J → Option (ResultMessage F)
  pub cost : J → Option F
  pub input_tokens : J → Option ℕ
  pub output_tokens : J → Option ℕ
  pub cache_creation_tokens : J → Option ℕ
  pub cache_read_tokens : J → Option ℕ
  pub from_str : String → Option J

pub record SessionRow (F : Type 0) : Type 0 where
  pub user_id : ℕ
  pub last_activity : ℕ
  pub total_cost_usd : F
  pub tokens : Tokens

pub record NewMessage : Type 0 where
  pub session_id : ℕ
  pub role : String
  pub content : String
  pub user_id : ℕ

pub record PendingInput : Type 0 where
  pub seq_num : ℕ
  pub content : String

pub record Db (F : Type 0) : Type 0 where
  pub sessions : List (ℕ × SessionRow F)
  pub messages : List NewMessage

-- Which statements of one call succeed: the connection, the session's row, the insert, the updates of
-- the cost and of the tokens, and the update of the last activity.
pub record Outcome : Type 0 where
  pub connects : Bool
  pub finds : Bool
  pub inserts : Bool
  pub costs : Bool
  pub tokens : Bool
  pub updates : Bool

pub record Backend (J F : Type 0) : Type 0 where
  pub manager : SessionManager J
  pub db : Db F

abbrev pub healthy : Outcome
healthy = record {
  connects = true;
  finds = true;
  inserts = true;
  costs = true;
  tokens = true;
  updates = true;
}

-- `unwrap_or` on a number.
abbrev pub or_zero : Option ℕ → ℕ
or_zero none = 0
or_zero (some n) = n

abbrev pub or_assistant : Option String → String
or_assistant none = "assistant"
or_assistant (some s) = s

module _ {J F : Type 0} (json : Content J F) where
  -- The fallback of `store_result_metadata`: tokens are written if one of the four is there.
  json_tokens : J → Option Tokens
  json_tokens c =
      if is_some (json.input_tokens c)
        || (is_some (json.output_tokens c)
            || (is_some (json.cache_creation_tokens c) || is_some (json.cache_read_tokens c)))
      then some (record {
        input_tokens = or_zero (json.input_tokens c);
        output_tokens = or_zero (json.output_tokens c);
        cache_creation_tokens = or_zero (json.cache_creation_tokens c);
        cache_read_tokens = or_zero (json.cache_read_tokens c);
      })
      else none

  set_cost : Bool → Option F → SessionRow F → SessionRow F
  set_cost ok none row = row
  set_cost ok (some cost) row = if ok then record row { total_cost_usd = cost } else row

  set_tokens : Bool → Option Tokens → SessionRow F → SessionRow F
  set_tokens ok none row = row
  set_tokens ok (some tokens) row = if ok then record row { tokens = tokens } else row

  unfoldable pub store_result_metadata : Outcome → J → SessionRow F → SessionRow F
  unfolding json_tokens set_cost set_tokens
  store_result_metadata out c row = elim (json.result_message c) [
    | some r ↦ set_tokens out.tokens r.usage (set_cost out.costs (some r.total_cost_usd) row)
    | none ↦ set_tokens out.tokens (json_tokens c) (set_cost out.costs (json.cost c) row)
  ]

  -- `seq_num <= last_ack`, with 0 for a session of which nothing was acknowledged.
  unfoldable pub is_duplicate : SessionManager J → Option ℕ → Option ℕ → Bool
  is_duplicate m (some session) (some seq) = leb seq (or_zero (lookup session m.last_ack_seq))
  is_duplicate m _ _ = false

  -- The user to whom a user message is attributed: read from the map once, and removed.
  unfoldable pub take_sender :
      SessionManager J → Option ℕ → J → SessionManager J × Option (ℕ × String)
  take_sender m none c = (m, none)
  take_sender m (some session) c =
      if str_eq (or_assistant (json.type_of c)) "user"
      then (
        record m { last_input_sender = remove session m.last_input_sender },
        lookup session m.last_input_sender,
      )
      else (m, none)

  sender_id : Option (ℕ × String) → Option ℕ
  sender_id none = none
  sender_id (some (id, name)) = some id

  sender_name : Option (ℕ × String) → Option String
  sender_name none = none
  sender_name (some (id, name)) = some name

  unfoldable pub broadcast_output :
      SessionManager J
      → (ℕ → Bool)
      → Option ℕ
      → J
      → Option (ℕ × String)
      → SessionManager J × List (Sent J)
  unfolding sender_id sender_name
  broadcast_output m accepts none c sender = (m, [])
  broadcast_output m accepts (some key) c sender =
      broadcast_to_web_clients m accepts key
        (claude_output c (sender_id sender) (sender_name sender))

  new_message : ℕ → J → ℕ → Option (ℕ × String) → NewMessage
  unfolding sender_id
  new_message session c owner sender = record {
    session_id = session;
    role = role_name (from_type_str (or_assistant (json.type_of c)));
    content = json.to_string c;
    user_id = elim (sender_id sender) [ none ↦ owner | some id ↦ id ];
  }

  is_result : MessageRole → Bool
  is_result result = true
  is_result _ = false

  update_row : Bool → ℕ → (SessionRow F → SessionRow F) → Db F → Db F
  update_row false session f db = db
  update_row true session f db = elim (lookup session db.sessions) [
    | none ↦ db
    | some row ↦ record db { sessions = insert session (f row) db.sessions }
  ]

  -- The message's row and the metadata of a result, for a session that is in the database.
  unfoldable pub store_message : Db F → Outcome → ℕ → J → Option (ℕ × String) → SessionRow F → Db F
  unfolding new_message is_result update_row
  store_message db out session c sender row =
      let db' =
        if out.inserts
        then record db { messages = db.messages ++ new_message session c row.user_id sender ∷ [] }
        else db in
      update_row (is_result (from_type_str (or_assistant (json.type_of c)))) session
        (store_result_metadata out c) db'

  -- `.entry(session_id).and_modify(..).or_insert(seq_num)`: the mark never goes down.
  unfoldable pub raise_ack : SessionManager J → ℕ → ℕ → SessionManager J
  raise_ack m session seq = record m {
    last_ack_seq =
        insert session
          (elim (lookup session m.last_ack_seq) [
            | none ↦ seq
            | some v ↦ if ltb v seq then seq else v
          ])
          m.last_ack_seq;
  }

  -- `sessions::table.find(session_id).first(..)`; a query that fails gives no row.
  find_session : Bool → Db F → ℕ → Option (SessionRow F)
  find_session false db session = none
  find_session true db session = lookup session db.sessions

  -- The part under `if let (Some(session_id), Ok(conn))`.
  unfoldable pub store_output :
      Backend J F
      → (ℕ → Bool)
      → Outcome
      → ℕ
      → ℕ
      → ℕ
      → J
      → Option ℕ
      → Option (ℕ × String)
      → Backend J F × List (Sent J)
  unfolding store_message update_row queue_truncation raise_ack find_session
  store_output b accepts out now session tx c seq sender =
      let b' : Backend J F = elim (find_session out.finds b.db session) [
        | none ↦ b
        | some row ↦ record {
          manager = queue_truncation b.manager session;
          db = store_message b.db out session c sender row;
        }
      ] in
      let db' = update_row out.updates session (λ row. record row { last_activity = now }) b'.db in
      elim seq [
        | none ↦ (record b' { db = db' }, [])
        | some n ↦ (
          record { manager = raise_ack b'.manager session n; db = db' },
          deliver accepts to_proxy (output_ack session n) (tx ∷ []),
        )
      ]

  store_if_connected :
      Backend J F
      → (ℕ → Bool)
      → Outcome
      → ℕ
      → Option ℕ
      → ℕ
      → J
      → Option ℕ
      → Option (ℕ × String)
      → Backend J F × List (Sent J)
  store_if_connected b accepts out now none tx c seq sender = (b, [])
  store_if_connected b accepts out now (some session) tx c seq sender =
      if out.connects then store_output b accepts out now session tx c seq sender else (b, [])

  -- The acknowledgement of a duplicate names the duplicate.
  reject_duplicate : (ℕ → Bool) → ℕ → Option ℕ → Option ℕ → List (Sent J)
  reject_duplicate accepts tx (some session) (some seq) =
      deliver accepts to_proxy (output_ack session seq) (tx ∷ [])
  reject_duplicate accepts tx _ _ = []

  unfoldable pub handle_claude_output :
      Backend J F
      → (ℕ → Bool)
      → Outcome
      → ℕ
      → Option ℕ
      → Option ℕ
      → ℕ
      → J
      → Option ℕ
      → Backend J F × List (Sent J)
  unfolding reject_duplicate store_if_connected
  handle_claude_output b accepts out now key session tx c seq =
      if is_duplicate b.manager session seq
      then (b, reject_duplicate accepts tx session seq)
      else (let (m, sender) = take_sender b.manager session c in
          let (m', cast) = broadcast_output m accepts key c sender in
          let (b', acks) =
            store_if_connected (record b { manager = m' }) accepts out now session tx c seq
              sender in
          (b', cast ++ acks))

  -- The loop of `replay_pending_inputs_from_db` over the rows, by their number; an input that does not
  -- parse is passed over, and a closed channel ends the loop.
  unfoldable pub replay_inputs : Bool → ℕ → ℕ → List PendingInput → List (Sent J) × ℕ
  replay_inputs alive session sender [] = ([], 0)
  replay_inputs alive session sender (row ∷ rows) =
      let rest = replay_inputs alive session sender rows in
      elim (json.from_str row.content) [
        | none ↦ rest
        | some c ↦
            if alive
            then (to_proxy sender (sequenced_input session row.seq_num c none) ∷ rest.0, suc rest.1)
            else ([], 0)
      ]
