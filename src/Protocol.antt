-- ===== src/Protocol.antt =====
-- shared/src/endpoints.rs, shared/src/lib.rs and shared/src/protocol.rs: the messages and limits that
-- the parts share. `J` stands for `serde_json::Value`, also where a message carries a third-party
-- value (permission suggestions). A `Uuid` is a number, and so is a signed field that is only passed on.
pub mod Proxy
use claude_code_portal.Prelude.{ℕ, ◌*◌, ◌^◌, String, List, [], ◌∷◌, Option, Bool}

-- Instants and durations are counted in nanoseconds.
abbrev pub second : ℕ
second = 10 ^ 9

-- MAX_PENDING_MESSAGES_PER_SESSION.
abbrev pub max_pending_messages : ℕ
max_pending_messages = 100

-- MAX_PENDING_MESSAGE_AGE.
abbrev pub max_pending_message_age : ℕ
max_pending_message_age = 300 * second

-- DEVICE_CODE_EXPIRES_SECS.
abbrev pub device_code_expires_secs : ℕ
device_code_expires_secs = 300

-- MAX_RECONNECT_BACKOFF_SECS.
abbrev pub max_reconnect_backoff_secs : ℕ
max_reconnect_backoff_secs = 30

pub data AgentType : Type 0 where
  claude codex : AgentType

pub data SessionStatus : Type 0 where
  active inactive disconnected : SessionStatus

pub data SendMode : Type 0 where
  normal wiggum : SendMode

-- An image carries the path and size of its file, where they are known.
pub data PortalContent : Type 0 where
  text : (text : String) → PortalContent
  image :
      (media_type image_data : String) (file_path : Option String) (file_size : Option ℕ)
      → PortalContent

pub record PortalMessage : Type 0 where
  pub message_type : String
  pub content : List PortalContent

abbrev pub portal_text : String → PortalMessage
portal_text t = record { message_type = "portal"; content = text t ∷ [] }

abbrev pub portal_image : String → String → Option String → Option ℕ → PortalMessage
portal_image media_type image_data file_path file_size = record {
  message_type = "portal";
  content = image media_type image_data file_path file_size ∷ [];
}

pub record ScheduledTaskConfig : Type 0 where
  pub id : ℕ
  pub name : String
  pub cron_expression : String
  pub timezone : String
  pub working_directory : String
  pub prompt : String
  pub claude_args : List String
  pub agent_type : AgentType
  pub enabled : Bool
  pub max_runtime_minutes : ℕ
  pub last_session_id : Option ℕ

pub record PermissionResponseFields (J : Type 0) : Type 0 where
  pub request_id : String
  pub allow : Bool
  pub input : Option J
  pub permissions : List J
  pub reason : Option String

pub record FileUploadStartFields : Type 0 where
  pub upload_id : String
  pub filename : String
  pub content_type : String
  pub total_chunks : ℕ
  pub total_size : ℕ

pub record FileUploadChunkFields : Type 0 where
  pub upload_id : String
  pub chunk_index : ℕ
  pub chunk_data : String

pub data ServerToProxy (J : Type 0) : Type 0 where
  register_ack :
      (success : Bool) (session_id : ℕ) (error : Option String) (max_image_mb : ℕ) → ServerToProxy J
  heartbeat : ServerToProxy J
  claude_input : (content : J) (send_mode : Option SendMode) → ServerToProxy J
  sequenced_input :
      (session_id seq : ℕ) (content : J) (send_mode : Option SendMode) → ServerToProxy J
  permission_response : PermissionResponseFields J → ServerToProxy J
  output_ack : (session_id ack_seq : ℕ) → ServerToProxy J
  file_upload_start : FileUploadStartFields → ServerToProxy J
  file_upload_chunk : FileUploadChunkFields → ServerToProxy J
  server_shutdown : (reason : String) (reconnect_delay_ms : ℕ) → ServerToProxy J
  session_terminated : (reason : String) → ServerToProxy J
  interrupt : ServerToProxy J

-- The spend update's amounts are floats, and are carried as one value of `J`.
pub data ServerToClient (J : Type 0) : Type 0 where
  claude_output :
      (content : J) (sender_user_id : Option ℕ) (sender_name : Option String) → ServerToClient J
  history_batch : (messages : List J) → ServerToClient J
  permission_request :
      (request_id tool_name : String) (input : J) (permission_suggestions : List J)
      → ServerToClient J
  error : (message : String) → ServerToClient J
  session_update : (session_id : ℕ) (git_branch pr_url repo_url : Option String) → ServerToClient J
  user_spend_update : J → ServerToClient J
  client_shutdown : (reason : String) (reconnect_delay_ms : ℕ) → ServerToClient J
  session_status : SessionStatus → ServerToClient J
  launch_session_result :
      (request_id : ℕ) (success : Bool) (session_id pid : Option ℕ) (error : Option String)
      → ServerToClient J
  session_exited : (session_id : ℕ) (exit_code : Option ℕ) → ServerToClient J

pub data ServerToLauncher : Type 0 where
  launcher_register_ack :
      (success : Bool) (launcher_id : ℕ) (error : Option String) (fatal : Bool) → ServerToLauncher
  launch_session :
      (request_id user_id : ℕ) (auth_token working_directory : String)
      (session_name : Option String) (claude_args : List String) (agent_type : AgentType)
      (scheduled_task_id : Option ℕ)
      → ServerToLauncher
  stop_session : (session_id : ℕ) → ServerToLauncher
  list_directories : (request_id : ℕ) (path : String) → ServerToLauncher
  launcher_shutdown : (reason : String) (reconnect_delay_ms : ℕ) → ServerToLauncher
  schedule_sync : (tasks : List ScheduledTaskConfig) → ServerToLauncher
  token_renewed : (token : String) → ServerToLauncher
