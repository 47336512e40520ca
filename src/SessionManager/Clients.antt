-- ===== src/SessionManager/Clients.antt =====
-- session_manager.rs: web clients, user clients, launchers and directory requests.
use claude_code_portal.Prelude.{
  ℕ, ◌%◌, ◌^◌, ◌≡◌, String, Bool, true, false, ◌&&◌, List, [], ◌∷◌, ◌++◌, map, Option, none, some,
  arith, ◌==◌, if◌then◌else◌, length, retain, find, any, lookup, insert, remove, lookup-insert,
  lookup-remove,
}
use text.Mathlib.Text.{◌==◌ as str_eq}
use claude_code_portal.Protocol.{
  ServerToClient, ServerToLauncher, server_shutdown, client_shutdown, launcher_shutdown,
  stop_session,
}
use claude_code_portal.SessionManager.{
  SessionManager, LauncherConnection, Sent, to_proxy, to_client, to_launcher, or_default,
}

-- shared::LauncherInfo.
pub record LauncherInfo : Type 0 where
  pub launcher_id : ℕ
  pub launcher_name : String
  pub hostname : String
  pub connected : Bool
  pub running_sessions : ℕ
  pub working_directory : Option String
  pub version : String
  pub token_expires_at : Option String

-- Those of `senders` that are alive get the message.
abbrev pub deliver {ℓ κ} :
    {M : Type ℓ} {S : Type κ} → (ℕ → Bool) → (ℕ → M → S) → M → List ℕ → List S
deliver accepts to msg senders = map (λ c. to c msg) (retain accepts senders)

abbrev owner_is : ℕ → ℕ × LauncherConnection → Bool
owner_is user e = e.1.user_id == user

-- `to_rfc3339` of `chrono`.
launcher_info : (ℕ → String) → ℕ × LauncherConnection → LauncherInfo
launcher_info to_rfc3339 (id, c) = record {
  launcher_id = id;
  launcher_name = c.launcher_name;
  hostname = c.hostname;
  connected = true;
  running_sessions = length c.running_sessions % 2 ^ 32;
  working_directory = c.working_directory;
  version = c.version;
  token_expires_at = elim c.token_expires_at [ none ↦ none | some t ↦ some (to_rfc3339 t) ];
}

abbrev retain_each : (ℕ → Bool) → List (ℕ × List ℕ) → List (ℕ × List ℕ)
retain_each accepts [] = []
retain_each accepts ((k, clients) ∷ rest) = (k, retain accepts clients) ∷ retain_each accepts rest

module _ {J : Type 0} where
  unfoldable pub add_web_client : SessionManager J → ℕ → ℕ → SessionManager J
  add_web_client m key sender = record m {
    web_clients = insert key (or_default (lookup key m.web_clients) ++ sender ∷ []) m.web_clients;
  }

  -- `get_mut`, then `retain` by the result of the send: a client that is gone is forgotten.
  unfoldable pub broadcast_to_web_clients :
      SessionManager J → (ℕ → Bool) → ℕ → ServerToClient J → SessionManager J × List (Sent J)
  broadcast_to_web_clients m accepts key msg = elim (lookup key m.web_clients) [
    | none ↦ (m, [])
    | some clients ↦ (
      record m { web_clients = insert key (retain accepts clients) m.web_clients },
      deliver accepts to_client msg clients,
    )
  ]

  unfoldable pub add_user_client : SessionManager J → ℕ → ℕ → SessionManager J
  add_user_client m user sender = record m {
    user_clients =
        insert user (or_default (lookup user m.user_clients) ++ sender ∷ []) m.user_clients;
  }

  unfoldable pub broadcast_to_user :
      SessionManager J → (ℕ → Bool) → ℕ → ServerToClient J → SessionManager J × List (Sent J)
  broadcast_to_user m accepts user msg = elim (lookup user m.user_clients) [
    | none ↦ (m, [])
    | some clients ↦ (
      record m { user_clients = insert user (retain accepts clients) m.user_clients },
      deliver accepts to_client msg clients,
    )
  ]

  abbrev pub get_all_user_ids : SessionManager J → List ℕ
  get_all_user_ids m = map (λ e. e.0) m.user_clients

  abbrev deliver_each : (ℕ → Bool) → ServerToClient J → List (ℕ × List ℕ) → List (Sent J)
  deliver_each accepts msg [] = []
  deliver_each accepts msg ((k, clients) ∷ rest) =
      deliver accepts to_client msg clients ++ deliver_each accepts msg rest

  unfoldable pub broadcast_shutdown :
      SessionManager J → (ℕ → Bool) → String → ℕ → SessionManager J × List (Sent J)
  broadcast_shutdown m accepts reason delay = (
    record m {
      web_clients = retain_each accepts m.web_clients;
      user_clients = retain_each accepts m.user_clients;
    },
    deliver accepts to_proxy (server_shutdown reason delay) (map (λ e. e.1) m.sessions)
        ++ (deliver_each accepts (client_shutdown reason delay) m.web_clients
            ++ (deliver_each accepts (client_shutdown reason delay) m.user_clients
                ++ deliver accepts to_launcher (launcher_shutdown reason delay)
                    (map (λ e. e.1.sender) m.launchers))),
  )

  unfoldable pub find_duplicate_launcher : SessionManager J → String → ℕ → Option String
  find_duplicate_launcher m hostname user =
      elim (find (λ e. e.1.user_id == user && str_eq e.1.hostname hostname) m.launchers) [
        | none ↦ none
        | some e ↦ some e.1.launcher_name
      ]

  unfoldable pub register_launcher : SessionManager J → ℕ → LauncherConnection → SessionManager J
  register_launcher m id c = record m { launchers = insert id c m.launchers }

  unfoldable pub unregister_launcher : SessionManager J → ℕ → SessionManager J
  unregister_launcher m id = record m { launchers = remove id m.launchers }

  unfoldable pub get_launchers_for_user : SessionManager J → (ℕ → String) → ℕ → List LauncherInfo
  unfolding launcher_info
  get_launchers_for_user m to_rfc3339 user =
      map (launcher_info to_rfc3339) (retain (owner_is user) m.launchers)

  unfoldable pub send_to_launcher :
      SessionManager J → (ℕ → Bool) → ℕ → ServerToLauncher → List (Sent J) × Bool
  send_to_launcher m accepts id msg = elim (lookup id m.launchers) [
    | none ↦ ([], false)
    | some launcher ↦
        (deliver accepts to_launcher msg (launcher.sender ∷ []), accepts launcher.sender)
  ]

  -- The first launcher, in the map's order, that reports the session.
  unfoldable pub stop_session_on_launcher : SessionManager J → (ℕ → Bool) → ℕ → List (Sent J) × Bool
  stop_session_on_launcher m accepts session =
      elim (find (λ e. any (λ j. j == session) e.1.running_sessions) m.launchers) [
        | none ↦ ([], false)
        | some e ↦ (
          deliver accepts to_launcher (stop_session session) (e.1.sender ∷ []),
          accepts e.1.sender,
        )
      ]

  -- `waiter` is the new oneshot channel.
  unfoldable pub register_dir_request : SessionManager J → ℕ → ℕ → SessionManager J
  register_dir_request m request waiter = record m {
    pending_dir_requests = insert request waiter m.pending_dir_requests;
  }

  -- The channel that the answer is handed to, if a request is pending.
  unfoldable pub complete_dir_request : SessionManager J → ℕ → SessionManager J × Option ℕ
  complete_dir_request m request = (
    record m { pending_dir_requests = remove request m.pending_dir_requests },
    lookup request m.pending_dir_requests,
  )

  abbrev pub clients_of : SessionManager J → ℕ → List ℕ
  clients_of m key = or_default (lookup key m.web_clients)

  -- A broadcast reaches each live web client of the session once, in the order in which they joined,
  -- forgets the others, and touches no client of another session.
  pub broadcast_to_web_clients_reaches :
      (m : SessionManager J) (accepts : ℕ → Bool) (key k : ℕ) (msg : ServerToClient J)
      → let (m', sent) = broadcast_to_web_clients m accepts key msg in
        (sent ≡ map (λ c. to_client c msg) (retain accepts (clients_of m key)))
        × (clients_of m' k
            ≡ (if key == k then retain accepts (clients_of m key) else clients_of m k))
  unfolding broadcast_to_web_clients
  broadcast_to_web_clients_reaches m accepts key k msg =
      ground (arith, lookup-insert key k (retain accepts (clients_of m key)) m.web_clients)

  -- A directory request is answered once: its waiter gets the first answer, whatever requests were
  -- registered before it, and a second answer goes to nobody.
  pub complete_dir_request_once :
      (m : SessionManager J) (request waiter : ℕ)
      → let (m', first) = complete_dir_request (register_dir_request m request waiter) request in
        (first ≡ some waiter) × ((complete_dir_request m' request).1 ≡ none)
  unfolding complete_dir_request register_dir_request
  complete_dir_request_once m request waiter = ground (
    arith,
    lookup-insert request request waiter m.pending_dir_requests,
    lookup-remove request request (insert request waiter m.pending_dir_requests),
  )
