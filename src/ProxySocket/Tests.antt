-- ===== src/ProxySocket/Tests.antt =====
-- A connection that takes over a session without a token, and an acknowledged input.
use claude_code_portal.Prelude.{
  ℕ, ◌<◌, ◌≡◌, refl, Bool, true, List, [], ◌∷◌, some, none, inl, arith,
}
use claude_code_portal.Protocol.{claude, heartbeat}
use claude_code_portal.ProxyTokens.{Crypto, expired}
use claude_code_portal.SessionManager.{
  SessionManager, to_proxy, new, register_session, send_to_session,
}
use claude_code_portal.MessageHandlers.{Content, PendingInput}
use claude_code_portal.Registration.{RegistrationParams, Statements, register_or_update_session}
use claude_code_portal.ProxySocket.{
  Connection, Server, connected, handle_register, close_connection,
}
use claude_code_portal.ProxySocket.Takeover.{handle_register_takes_over}

abbrev plain : Content ℕ ℕ
plain = record {
  type_of = λ c. none;
  to_string = λ c. "";
  result_message = λ c. none;
  cost = λ c. none;
  input_tokens = λ c. none;
  output_tokens = λ c. none;
  cache_creation_tokens = λ c. none;
  cache_read_tokens = λ c. none;
  from_str = λ s. none;
}

abbrev closed : Crypto
closed = record {
  encode_claims = λ c. none;
  decode_claims = λ now token. inl expired;
  sha256 = λ token. 0;
  decode-encode = λ c token now e h. cc;
}

abbrev params : RegistrationParams
params = record {
  claude_session_id = 7;
  session_name = "build";
  auth_token = none;
  working_directory = "/srv";
  resuming = true;
  git_branch = none;
  client_version = none;
  session_key = 7;
  replaces_session_id = none;
  hostname = "unknown";
  launcher_id = none;
  agent_type = claude;
  repo_url = none;
  scheduled_task_id = none;
}

abbrev works : Statements
works = record {
  second_connection = true;
  marks = true;
  reads = true;
  updates = true;
  inserts = true;
  joins = true;
}

abbrev accepts : ℕ → Bool
accepts c = true

-- The session's proxy is connected as 50, with generation 1.
abbrev manager : SessionManager ℕ
unfolding new register_session
manager = (register_session new accepts 7 50 0).0

abbrev server : Server ℕ
server = record {
  manager = manager;
  db = record {
    tokens = record { reachable = true; proxy_auth_tokens = []; users = [] };
    sessions = [];
    session_members = [];
  };
  pending_inputs = [];
}

abbrev first : Connection
first = record { tx = 50; session_key = some 7; db_session_id = some 7; connection_gen = some 1 }

refused :
    (handle_register plain closed none 10 server
      (connected 51)
      accepts
      works
      params
      1).1.db_session_id
    ≡ none
unfolding handle_register register_or_update_session
refused = refl

before : 1 < manager.gen_counter
unfolding manager
before = omega arith

handle_register_takes_over_example :
    let (s, c, sent) =
      handle_register plain closed none 10 server (connected 51) accepts works params 1 in
    ((send_to_session s.manager accepts 7 heartbeat 2).1 ≡ to_proxy 51 heartbeat ∷ [])
    × (close_connection s first true ≡ s)
handle_register_takes_over_example =
    handle_register_takes_over plain closed none 10 server (connected 51) accepts works params 1
      heartbeat 2 1 first true refl before refl refl

abbrev rows : List (ℕ × PendingInput)
rows =
    (7, record { seq_num = 1; content = "a" })
    ∷ (8, record { seq_num = 1; content = "b" })
    ∷ (7, record { seq_num = 2; content = "c" })
    ∷ []
