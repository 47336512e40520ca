-- ===== src/Registration/Tests.antt =====
-- Registrations at a server that takes every text for a token of user 3.
use claude_code_portal.Prelude.{ℕ, ◌≡◌, refl, true, false, [], ◌∷◌, some, none, inr, lookup}
use claude_code_portal.Protocol.{claude}
use claude_code_portal.ProxyTokens.{Crypto, verify_and_get_user}
use claude_code_portal.Registration.{
  RegistrationParams, Session, RegistrationDb, Statements, mark_replaced, new_session,
  register_or_update_session,
}
use claude_code_portal.Registration.Ownership.{
  Authenticates, register_or_update_session-Authenticates,
}

abbrev trusting : Crypto
trusting = record {
  encode_claims = λ c. none;
  decode_claims = λ now token. inr (record {
    jti = 5;
    sub = 3;
    email = "ann@example.org";
    iat = 0;
    exp = 86400;
    token_type = "proxy";
  });
  sha256 = λ token. 2;
  decode-encode = λ c token now e h. cc;
}

abbrev params : RegistrationParams
params = record {
  claude_session_id = 7;
  session_name = "build";
  auth_token = some "t";
  working_directory = "/srv";
  resuming = false;
  git_branch = none;
  client_version = none;
  session_key = 7;
  replaces_session_id = some 6;
  hostname = "unknown";
  launcher_id = none;
  agent_type = claude;
  repo_url = none;
  scheduled_task_id = none;
}

abbrev works : Statements
works = record {
  second_connection = true;
  marks = true;
  reads = true;
  updates = true;
  inserts = true;
  joins = true;
}

abbrev no_sessions : RegistrationDb
no_sessions = record {
  tokens = record {
    reachable = true;
    proxy_auth_tokens =
        record {
          id = 40;
          user_id = 3;
          name = "laptop";
          token_hash = 2;
          last_used_at = none;
          expires_at = 100;
          revoked = false;
        }
        ∷ [];
    users = record { id = 3; email = "ann@example.org"; disabled = false } ∷ [];
  };
  sessions = [];
  session_members = [];
}

abbrev of_another : Session
unfolding new_session
of_another = new_session params 8 0

abbrev one_session : RegistrationDb
one_session = record no_sessions { sessions = (7, of_another) ∷ [] }

registers : (register_or_update_session trusting none no_sessions works params 1).1.success ≡ true
unfolding register_or_update_session verify_and_get_user
registers = refl

-- Without its token the same registration is refused.
refuses :
    (register_or_update_session trusting none no_sessions works
      (record params { auth_token = none })
      1).1.success
    ≡ false
unfolding register_or_update_session
refuses = refl

register_or_update_session-Authenticates_example :
    (user : ℕ) × Authenticates trusting none no_sessions.tokens 1 (some "t") user
    × (lookup 7 (register_or_update_session trusting none no_sessions works params 1).0.sessions
        ≡ some (new_session params user 1))
register_or_update_session-Authenticates_example =
    register_or_update_session-Authenticates trusting none no_sessions works params 1 refl registers

kept : lookup 7 (mark_replaced one_session works (some 6)).sessions ≡ some of_another
unfolding mark_replaced
kept = refl
