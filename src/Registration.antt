-- ===== src/Registration.antt =====
-- backend/src/handlers/websocket/registration.rs: how a proxy's session is entered in the database. The
-- tables are association lists; whether the pool gives a second connection and whether each statement
-- succeeds is the argument `Statements`; `dev_user` is the test user in dev mode, and `none` otherwise.
-- Times and database defaults of a new row are left out, except the status and the last activity.
pub mod Ownership
mod Tests
use claude_code_portal.Prelude.{
  ℕ, ◌≡◌, String, Bool, true, false, not, ◌&&◌, List, [], ◌∷◌, ◌++◌, Option, none, some, ◌⊎◌, inl,
  inr, if◌then◌else◌, lookup, insert,
}
use claude_code_portal.Protocol.{AgentType}
use claude_code_portal.SessionManager.Connections.{is_some}
use claude_code_portal.ProxyTokens.{Crypto, TokenDb, verify_and_get_user}

pub record RegistrationParams : Type 0 where
  pub claude_session_id : ℕ
  pub session_name : String
  pub auth_token : Option String
  pub working_directory : String
  pub resuming : Bool
  pub git_branch : Option String
  pub client_version : Option String
  pub session_key : ℕ
  pub replaces_session_id : Option ℕ
  pub hostname : String
  pub launcher_id : Option ℕ
  pub agent_type : AgentType
  pub repo_url : Option String
  pub scheduled_task_id : Option ℕ

pub record RegistrationResult : Type 0 where
  pub success : Bool
  pub session_id : Option ℕ
  pub error : Option String

-- The columns of `sessions` that registration reads or writes, and the link of a pull request.
pub record Session : Type 0 where
  pub user_id : ℕ
  pub session_name : String
  pub session_key : ℕ
  pub working_directory : String
  pub status : String
  pub git_branch : Option String
  pub client_version : Option String
  pub hostname : String
  pub launcher_id : Option ℕ
  pub agent_type : AgentType
  pub repo_url : Option String
  pub pr_url : Option String
  pub scheduled_task_id : Option ℕ
  pub last_activity : ℕ

pub record SessionMember : Type 0 where
  pub session_id : ℕ
  pub user_id : ℕ
  pub role : String

pub record RegistrationDb : Type 0 where
  pub tokens : TokenDb
  pub sessions : List (ℕ × Session)
  pub session_members : List SessionMember

pub record Statements : Type 0 where
  pub second_connection : Bool
  pub marks : Bool
  pub reads : Bool
  pub updates : Bool
  pub inserts : Bool
  pub joins : Bool

-- `diesel::update(sessions::table.find(id))`.
abbrev pub update_session : ℕ → (Session → Session) → List (ℕ × Session) → List (ℕ × Session)
update_session id change sessions = elim (lookup id sessions) [
  | none ↦ sessions
  | some s ↦ insert id (change s) sessions
]

abbrev pub failed : String → RegistrationResult
failed error = record { success = false; session_id = none; error = some error }

abbrev pub succeeded : ℕ → RegistrationResult
succeeded id = record { success = true; session_id = some id; error = none }

unfoldable pub mark_replaced : RegistrationDb → Statements → Option ℕ → RegistrationDb
mark_replaced db st none = db
mark_replaced db st (some old) =
    if st.marks
    then record db {
      sessions = update_session old (λ s. record s { status = "replaced" }) db.sessions;
    }
    else db

unfoldable pub reactivated : RegistrationParams → ℕ → Session → Session
reactivated p now s = record s {
  status = "active";
  last_activity = now;
  working_directory = p.working_directory;
  git_branch = p.git_branch;
  client_version = p.client_version;
  hostname = p.hostname;
  repo_url = p.repo_url;
}

unfoldable pub new_session : RegistrationParams → ℕ → ℕ → Session
new_session p user_id now = record {
  user_id = user_id;
  session_name = p.session_name;
  session_key = p.session_key;
  working_directory = p.working_directory;
  status = "active";
  git_branch = p.git_branch;
  client_version = p.client_version;
  hostname = p.hostname;
  launcher_id = p.launcher_id;
  agent_type = p.agent_type;
  repo_url = p.repo_url;
  pr_url = none;
  scheduled_task_id = p.scheduled_task_id;
  last_activity = now;
}

module _ (crypto : Crypto) (dev_user : Option ℕ) where
  -- The user of a token; a token that is refused, and no token, give the test user of dev mode.
  unfoldable pub get_user_id_from_token :
      RegistrationDb → Bool → Option String → ℕ → RegistrationDb × Option ℕ
  get_user_id_from_token db connects auth_token now =
      if not connects then (db, none) else elim auth_token [
        | none ↦ (db, dev_user)
        | some token ↦
            let (tokens, result) = verify_and_get_user crypto db.tokens now token in
            (record db { tokens = tokens }, elim result [ inl e ↦ dev_user | inr u ↦ some u.0 ])
      ]

  -- A row that is there already makes the insertion fail, as its key is primary.
  unfoldable pub create_new_session :
      RegistrationDb → Statements → RegistrationParams → ℕ → RegistrationDb × RegistrationResult
  unfolding get_user_id_from_token
  create_new_session db st p now =
      let (db', user) = get_user_id_from_token db st.second_connection p.auth_token now in
      elim user [
        | none ↦ (db', failed "Authentication failed - please re-authenticate")
        | some user_id ↦
            if st.inserts && not (is_some (lookup p.claude_session_id db'.sessions))
            then (
              record db' {
                sessions = insert p.claude_session_id (new_session p user_id now) db'.sessions;
                session_members =
                    if st.joins
                    then db'.session_members
                      ++ record {
                        session_id = p.claude_session_id;
                        user_id = user_id;
                        role = "owner";
                      }
                        ∷ []
                    else db'.session_members;
              },
              succeeded p.claude_session_id,
            )
            else (db', failed "Failed to persist session")
      ]

  unfoldable pub register_or_update_session :
      RegistrationDb → Statements → RegistrationParams → ℕ → RegistrationDb × RegistrationResult
  unfolding mark_replaced create_new_session
  register_or_update_session db st p now =
      if not db.tokens.reachable
      then (db, failed "Database connection failed")
      else let marked = mark_replaced db st p.replaces_session_id in
        elim (if st.reads then lookup p.claude_session_id marked.sessions else none) [
          | some existing ↦
              if st.updates
              then (
                record marked {
                  sessions =
                      insert p.claude_session_id (reactivated p now existing) marked.sessions;
                },
                succeeded p.claude_session_id,
              )
              else (marked, failed "Failed to reactivate session")
          | none ↦ create_new_session marked st p now
        ]
