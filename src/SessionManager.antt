-- ===== src/SessionManager.antt =====
-- backend/src/handlers/websocket/session_manager.rs: who is connected, and the messages that wait for
-- a proxy that is not. A `DashMap` is an association list; session keys and `Uuid`s are numbers that
-- are compared, and the key of a session id is the parameter of `disconnect_session`. A tokio sender is
-- a number: `accepts c` says that the receiver of `c` is alive, when `send` succeeds, and what was sent
-- is a list of `Sent`. One call is one step; logging is left out.
pub mod Connections
pub mod Queue
pub mod Delivery
pub mod Clients
mod Tests
use claude_code_portal.Prelude.{
  ℕ, zero, suc, ◌+◌, ◌-◌, ◌%◌, ◌^◌, String, Bool, true, false, not, ◌&&◌, List, [], ◌∷◌, ◌++◌, map,
  Option, none, some, ltb, leb, ◌==◌, if◌then◌else◌, length, retain, find, any, lookup, insert,
  remove,
}
use text.Mathlib.Text.{◌==◌ as str_eq}
use claude_code_portal.OutputBuffer.{u64_mod}
use claude_code_portal.Protocol.{
  ServerToProxy, ServerToClient, ServerToLauncher, session_terminated, server_shutdown,
  client_shutdown, launcher_shutdown, stop_session, max_pending_messages, max_pending_message_age,
}

pub record PendingMessage (J : Type 0) : Type 0 where
  pub msg : ServerToProxy J
  pub queued_at : ℕ

pub record LauncherConnection : Type 0 where
  pub sender : ℕ
  pub launcher_name : String
  pub hostname : String
  pub user_id : ℕ
  pub running_sessions : List ℕ
  pub working_directory : Option String
  pub version : String
  pub token_hash : Option String
  pub token_expires_at : Option ℕ

pub record SessionManager (J : Type 0) : Type 0 where
  pub sessions : List (ℕ × ℕ)
  pub web_clients : List (ℕ × List ℕ)
  pub user_clients : List (ℕ × List ℕ)
  pub last_ack_seq : List (ℕ × ℕ)
  pub pending_messages : List (ℕ × List (PendingMessage J))
  pub pending_truncations : List ℕ
  pub launchers : List (ℕ × LauncherConnection)
  pub pending_dir_requests : List (ℕ × ℕ)
  pub last_input_sender : List (ℕ × (ℕ × String))
  pub gen_counter : ℕ
  pub connection_gen : List (ℕ × ℕ)

-- A message that some receiver has got.
pub data Sent (J : Type 0) : Type 0 where
  to_proxy : ℕ → ServerToProxy J → Sent J
  to_client : ℕ → ServerToClient J → Sent J
  to_launcher : ℕ → ServerToLauncher → Sent J

abbrev pub or_default {ℓ} : {A : Type ℓ} → Option (List A) → List A
or_default none = []
or_default (some xs) = xs

-- `*current != expected` for the generation of a live connection, if both are there.
abbrev pub is_stale : Option ℕ → Option ℕ → Bool
is_stale none current = false
is_stale (some expected) none = false
is_stale (some expected) (some current) = not (current == expected)

abbrev pub sends_to : (ℕ → Bool) → Option ℕ → Bool
sends_to accepts none = false
sends_to accepts (some sender) = accepts sender

-- Every id that is read is removed.
remove_all : List ℕ → List ℕ → List ℕ
remove_all [] set = set
remove_all (id ∷ ids) set = remove_all ids (retain (λ j. not (j == id)) set)

module _ {J : Type 0} where
  unfoldable pub new : SessionManager J
  new = record {
    sessions = [];
    web_clients = [];
    user_clients = [];
    last_ack_seq = [];
    pending_messages = [];
    pending_truncations = [];
    launchers = [];
    pending_dir_requests = [];
    last_input_sender = [];
    gen_counter = 1;
    connection_gen = [];
  }

  abbrev pub is_recent : ℕ → PendingMessage J → Bool
  is_recent now p = ltb (now - p.queued_at) max_pending_message_age

  -- The loop of `replay_pending_messages`; it stops at the first message that cannot be sent.
  unfoldable pub replay_loop : Bool → ℕ → ℕ → List (PendingMessage J) → List (Sent J) × ℕ
  replay_loop alive sender now [] = ([], 0)
  replay_loop alive sender now (p ∷ queue) =
      let rest = replay_loop alive sender now queue in
      if is_recent now p
      then if alive then (to_proxy sender p.msg ∷ rest.0, suc rest.1) else ([], 0)
      else rest

  unfoldable pub replay_pending_messages :
      SessionManager J → (ℕ → Bool) → ℕ → ℕ → ℕ → SessionManager J × List (Sent J) × ℕ
  replay_pending_messages m accepts key sender now =
      let (sent, replayed) =
        replay_loop (accepts sender) sender now (or_default (lookup key m.pending_messages)) in
      (record m { pending_messages = remove key m.pending_messages }, sent, replayed)

  -- The result is the generation.
  unfoldable pub register_session :
      SessionManager J → (ℕ → Bool) → ℕ → ℕ → ℕ → SessionManager J × List (Sent J) × ℕ
  unfolding replay_pending_messages
  register_session m accepts key sender now =
      let gen = m.gen_counter in
      let m' = record m { gen_counter = (gen + 1) % u64_mod } in
      let (m'', sent, pending_count) = replay_pending_messages m' accepts key sender now in
      (
        record m'' {
          connection_gen = insert key gen m''.connection_gen;
          sessions = insert key sender m''.sessions;
        },
        sent,
        gen,
      )

  unfoldable pub unregister_session : SessionManager J → ℕ → Option ℕ → SessionManager J
  unregister_session m key gen =
      if is_stale gen (lookup key m.connection_gen) then m else record m {
        connection_gen = remove key m.connection_gen;
        sessions = remove key m.sessions;
      }

  unfoldable pub is_current_connection : SessionManager J → ℕ → ℕ → Bool
  is_current_connection m key gen = elim (lookup key m.connection_gen) [
    | none ↦ true
    | some current ↦ current == gen
  ]

  -- `while queue.len() >= MAX { pop_front() }`.
  unfoldable pub make_room : List (PendingMessage J) → List (PendingMessage J)
  make_room [] = []
  make_room (p ∷ queue) =
      if leb max_pending_messages (suc (length queue)) then make_room queue else p ∷ queue

  unfoldable pub queue_pending_message :
      SessionManager J → ℕ → ServerToProxy J → ℕ → SessionManager J × Bool
  unfolding make_room
  queue_pending_message m key msg now =
      let queue = make_room (or_default (lookup key m.pending_messages)) in
      let entry : PendingMessage J = record { msg = msg; queued_at = now } in
      (record m { pending_messages = insert key (queue ++ entry ∷ []) m.pending_messages }, true)

  abbrev pub sent_to : Option ℕ → (ℕ → Sent J) → List (Sent J)
  sent_to none f = []
  sent_to (some sender) f = f sender ∷ []

  unfoldable pub send_to_session :
      SessionManager J
      → (ℕ → Bool)
      → ℕ
      → ServerToProxy J
      → ℕ
      → SessionManager J × List (Sent J) × Bool
  unfolding queue_pending_message
  send_to_session m accepts key msg now =
      let queued = queue_pending_message m key msg now in
      if sends_to accepts (lookup key m.sessions)
      then (m, sent_to (lookup key m.sessions) (λ sender. to_proxy sender msg), true)
      else (queued.0, [], queued.1)

  -- The key is `session_id.to_string()`.
  unfoldable pub disconnect_session : SessionManager J → (ℕ → Bool) → ℕ → List (Sent J) × Bool
  disconnect_session m accepts key =
      if sends_to accepts (lookup key m.sessions)
      then (
        sent_to (lookup key m.sessions)
            (λ sender. to_proxy sender (session_terminated "Session stopped by user")),
        true,
      )
      else ([], false)

  abbrev pub registered_session_keys : SessionManager J → List ℕ
  registered_session_keys m = map (λ e. e.0) m.sessions

  unfoldable pub queue_truncation : SessionManager J → ℕ → SessionManager J
  queue_truncation m id =
      if any (λ j. j == id) m.pending_truncations
      then m
      else record m { pending_truncations = m.pending_truncations ++ id ∷ [] }

  unfoldable pub drain_pending_truncations : SessionManager J → SessionManager J × List ℕ
  unfolding remove_all
  drain_pending_truncations m =
      let ids = m.pending_truncations in
      (record m { pending_truncations = remove_all ids m.pending_truncations }, ids)
