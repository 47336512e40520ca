-- ===== src/Protocol/Proxy.antt =====
-- shared/src/endpoints.rs: the messages that a proxy sends to the backend.
use claude_code_portal.Prelude.{ℕ, String, Bool, List, Option}
use claude_code_portal.Protocol.{AgentType, SessionStatus}

-- `RegisterFields`; an id is a number.
pub record RegisterFields : Type 0 where
  pub session_id : ℕ
  pub session_name : String
  pub auth_token : Option String
  pub working_directory : String
  pub resuming : Bool
  pub git_branch : Option String
  pub replay_after : Option String
  pub client_version : Option String
  pub replaces_session_id : Option ℕ
  pub hostname : Option String
  pub launcher_id : Option ℕ
  pub agent_type : AgentType
  pub repo_url : Option String
  pub scheduled_task_id : Option ℕ

-- A permission request's id, which is only compared, is a number, and `P` is the type of a suggestion.
pub data ProxyToServer (J P : Type 0) : Type 0 where
  register : RegisterFields → ProxyToServer J P
  claude_output : (content : J) → ProxyToServer J P
  sequenced_output : (seq : ℕ) (content : J) → ProxyToServer J P
  heartbeat : ProxyToServer J P
  permission_request :
      (request_id : ℕ) (tool_name : String) (input : J) (permission_suggestions : List P)
      → ProxyToServer J P
  session_update : (session_id : ℕ) (git_branch pr_url repo_url : Option String) → ProxyToServer J P
  input_ack : (session_id ack_seq : ℕ) → ProxyToServer J P
  session_status : SessionStatus → ProxyToServer J P
