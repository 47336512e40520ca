-- ===== src/WebClient/Tests.antt =====
-- A stranger that asks for a session, inputs that are acknowledged in part, and an input typed while the
-- proxy is away.
use claude_code_portal.Prelude.{
  ℕ, ◌≡◌, refl, String, Bool, true, List, [], ◌∷◌, Option, none, some, inl, arith,
}
use claude_code_portal.Protocol
use claude_code_portal.Protocol.{claude, wiggum, normal, sequenced_input, register_ack}
use claude_code_portal.SessionManager.{
  SessionManager, to_proxy, new, register_session, send_to_session,
}
use claude_code_portal.SessionManager.Clients.{add_web_client, add_user_client}
use claude_code_portal.Permissions.{replay_pending_permission}
use claude_code_portal.MessageHandlers.{Content}
use claude_code_portal.ProxyTokens.{Crypto, expired}
use claude_code_portal.Registration.{
  succeeded, Session, RegistrationParams, RegistrationDb, Statements, register_or_update_session,
}
use claude_code_portal.ProxySocket.{
  connected, handle_register, handle_input_ack, replay_pending_inputs_from_db,
}
use claude_code_portal.Permissions.Fixture.{nil, json}
use claude_code_portal.Permissions.Fixture
use claude_code_portal.WebClient.{
  WebServer, Value, RegisterOutcome, connect, handle_web_register, messages_after,
}
use claude_code_portal.WebClient.Input.{InputOutcome, accept_input, send_input}
use claude_code_portal.WebClient.Dispatch.{
  ClientToServer, register, interrupt, Outcome, handle_web_client_message, handle_messages,
}
use claude_code_portal.WebClient.Access.{sessions_of}
use claude_code_portal.WebClient.Entitled.{AllEntitled, handle_messages_entitled}
use claude_code_portal.WebClient.Stored.{
  Typed, accept_each, accept_each-rows, accepted_inputs_replayed,
}
use mathlib.Core.List.{Permᴰ}
use mathlib.Core.List.Permᴰ.{cons, swap, trans}
use mathlib.Core.Path.{subst, sym}
use claude_code_portal.MessageHandlers.{PendingInput}
use claude_code_portal.WebClient.Offline.{offline_input_sent_twice}

abbrev accepts : ℕ → Bool
accepts c = true

abbrev session : Session
session = record {
  user_id = 3;
  session_name = "build";
  session_key = 7;
  working_directory = "/srv";
  status = "active";
  git_branch = none;
  client_version = none;
  hostname = "host";
  launcher_id = none;
  agent_type = claude;
  repo_url = none;
  pr_url = none;
  scheduled_task_id = none;
  last_activity = 0;
}

-- Session 7 has the member 3.
abbrev db : RegistrationDb
db = record {
  tokens = record { reachable = true; proxy_auth_tokens = []; users = [] };
  sessions = (7, session) ∷ [];
  session_members = record { session_id = 7; user_id = 3; role = "owner" } ∷ [];
}

abbrev server_with : {J : Type 0} → SessionManager J → WebServer J
server_with m = record {
  server = record { manager = m; db = db; pending_inputs = [] };
  users = [];
  messages = [];
  input_seqs = (7, 4) ∷ [];
  pending_permission_requests = [];
}

abbrev content_of : {J : Type 0} → (J → String) → (String → Option J) → Content J ℕ
content_of to_string from_str = record {
  type_of = λ c. none;
  to_string = to_string;
  result_message = λ c. none;
  cost = λ c. none;
  input_tokens = λ c. none;
  output_tokens = λ c. none;
  cache_creation_tokens = λ c. none;
  cache_read_tokens = λ c. none;
  from_str = from_str;
}

abbrev value_of : {J : Type 0} → (J → Option String) → J → Value J
value_of as_str blank = record {
  as_str = as_str;
  portal_json = λ m. blank;
  plain = λ role text. blank;
  with_sender = λ v user name. v;
  parse_time = λ text. none;
}

abbrev register_works : RegisterOutcome
register_works = record {
  access = true;
  history_connects = true;
  reads_messages = true;
  reads_users = true;
  reads_permission = true;
}

abbrev input_works : InputOutcome
input_works = record {
  sender_connects = true;
  reads_name = true;
  reads_email = true;
  portal_connects = true;
  reads_session = true;
  inserts_portal = true;
  connects = true;
  updates = true;
  inserts = true;
}

abbrev works : Outcome
works = record { register = register_works; input = input_works; deletes = true }

-- The proxy of session 7 is connected as 50.
abbrev online : WebServer Fixture.Value
unfolding new register_session
online = server_with (register_session new accepts 7 50 0).0

-- User 3 interrupts its session.
abbrev messages : List (Outcome × ClientToServer Fixture.Value × ℕ)
messages = (works, register 7 none, 1) ∷ (works, interrupt, 2) ∷ []

abbrev silent : Content Fixture.Value ℕ
silent = content_of (λ v. "") (λ text. none)

abbrev opaque : Value Fixture.Value
opaque = value_of (λ v. none) nil

handle_messages_entitled_example :
    let (s', c) = connect online 60 3 in
    let (s'', c', sent) = handle_messages silent opaque json s' c accepts messages in
    AllEntitled (sessions_of online) online.server.db 3 sent
handle_messages_entitled_example =
    handle_messages_entitled silent opaque json online accepts 60 3 messages

-- The interrupt reaches the proxy of user 3, and is not sent for user 4, who is no member.
interrupt_sent :
    (handle_messages silent opaque json
      (connect online 60 3).0
      (connect online 60 3).1
      accepts
      messages).2
    ≡ to_proxy 50 Protocol.interrupt ∷ []
unfolding new register_session handle_messages handle_web_client_message connect handle_web_register
    messages_after replay_pending_permission send_input send_to_session add_web_client
    add_user_client
interrupt_sent = refl

abbrev strings : Content String ℕ
strings = content_of (λ text. text) some

abbrev raw : Value String
raw = value_of some ""

abbrev typed : String → Typed String
typed text = record { user_id = 3; content = text; send_mode = some wiggum; now = 10 }

abbrev away : WebServer String
unfolding new
away = server_with new

-- The table holds the third row before the first.
abbrev shuffled : List (ℕ × PendingInput)
shuffled =
    (7, record { seq_num = 7; content = "c" })
    ∷ (7, record { seq_num = 5; content = "a" })
    ∷ (7, record { seq_num = 6; content = "/b" })
    ∷ []

in_another_order :
    Permᴰ
      (accept_each strings raw away accepts input_works 7
        (typed "a" ∷ typed "/b" ∷ typed "c" ∷ [])).0.server.pending_inputs
      shuffled
unfolding new
in_another_order =
    subst (λ rows. Permᴰ rows shuffled)
      (sym (
        accept_each-rows strings raw away accepts input_works 7 4
          (typed "a" ∷ typed "/b" ∷ typed "c" ∷ []) (refl, refl, refl) refl (omega arith)))
      (trans (cons refl (swap refl refl)) (swap refl refl))

accepted_inputs_replayed_example :
    let rows = handle_input_ack shuffled (some 7) true 7 5 in
    (replay_pending_inputs_from_db strings rows true true 7 51).0
    ≡ to_proxy 51 (sequenced_input 7 6 "/b" none) ∷ to_proxy 51 (sequenced_input 7 7 "c" none) ∷ []
unfolding new
accepted_inputs_replayed_example =
    accepted_inputs_replayed strings raw (λ c. refl) away accepts input_works 7 4 1 51
      (typed "a" ∷ typed "/b" ∷ typed "c" ∷ []) (refl, refl, refl) refl (omega arith) refl shuffled
      in_another_order

abbrev closed : Crypto
closed = record {
  encode_claims = λ c. none;
  decode_claims = λ now token. inl expired;
  sha256 = λ token. 0;
  decode-encode = λ c token now e h. cc;
}

abbrev statements : Statements
statements = record {
  second_connection = true;
  marks = true;
  reads = true;
  updates = true;
  inserts = true;
  joins = true;
}

abbrev params : RegistrationParams
params = record {
  claude_session_id = 7;
  session_name = "build";
  auth_token = none;
  working_directory = "/srv";
  resuming = true;
  git_branch = none;
  client_version = none;
  session_key = 7;
  replaces_session_id = none;
  hostname = "host";
  launcher_id = none;
  agent_type = claude;
  repo_url = none;
  scheduled_task_id = none;
}

registered : (register_or_update_session closed none db statements params 20).1 ≡ succeeded 7
unfolding register_or_update_session
registered = refl

offline_input_sent_twice_example :
    let s' = (accept_input strings raw away accepts input_works 3 7 7 "go" (some wiggum) 10).0 in
    (handle_register strings closed none 10 s'.server (connected 51) accepts statements params 20).2
    ≡ to_proxy 51 (sequenced_input 7 5 "go" (some wiggum))
      ∷ to_proxy 51 (register_ack true 7 none 10)
      ∷ to_proxy 51 (sequenced_input 7 5 "go" none)
      ∷ []
unfolding new
offline_input_sent_twice_example =
    offline_input_sent_twice strings raw (λ c. refl) closed none 10 away accepts input_works 4
      (typed "go") (connected 51) statements params 20 (refl, refl, refl) refl (omega arith) refl
      refl refl refl refl registered (omega arith)
