-- ===== src/AgentSession/Tests.antt =====
-- A session that asks for a permission.
use claude_code_portal.Prelude.{ℕ, refl, true, false, [], ◌∷◌, none, some, arith, ◌==◌}
use claude_code_portal.Protocol.{claude}
use claude_code_portal.Numbered.{numbered}
use claude_code_portal.ReplayBuffer.{default_max_size}
use claude_code_portal.ReplayBuffer.Ack.{buffered, Replays}
use claude_code_portal.AgentSession.{
  Agent, Session, PermissionResponse, next_event, respond_permission, ack_outputs, stop,
}
use claude_code_portal.AgentSession.IoEvent.{output}
use claude_code_portal.AgentSession.SessionState.{waiting_for_permission}
use claude_code_portal.AgentSession.Events.{IsCoherent}
use claude_code_portal.AgentSession.Coherence.{IsCoherent-kept}

-- The outputs are numbers; 3 is an acknowledgement of the agent.
abbrev numbers : Agent ℕ ℕ ℕ
numbers = record {
  to_value = λ o. o;
  is_not_found = λ o. o == 2;
  can_use_tool = λ o. none;
  is_control_response = λ o. o == 3;
  empty_object = 0;
}

abbrev asking : Session ℕ
asking = record {
  id = 9;
  config = record {
    session_id = 9;
    working_directory = "/srv";
    session_name = "build";
    resume = false;
    claude_path = none;
    extra_args = [];
    agent_type = claude;
  };
  command_tx = true;
  buffer = record {
    session_id = 9;
    outputs = numbered buffered 0 ((21, 5) ∷ []);
    next_seq = 1;
    max_size = default_max_size;
  };
  state = waiting_for_permission;
  pending_permission =
      some (record { request_id = 4; tool_name = "Bash"; input = 0; requested_at = 6 });
  event_rx = true;
}

asking-IsCoherent : IsCoherent asking
asking-IsCoherent = record { paired = refl; live = λ e. refl }

abbrev yes : PermissionResponse ℕ ℕ
yes = record { allow = true; input = none; permissions = []; reason = none }

IsCoherent-kept_example :
    IsCoherent (next_event numbers asking (output 2 ∷ []) false 6).0
    × IsCoherent (respond_permission asking true 0 4 yes).0
    × IsCoherent (ack_outputs asking 0)
    × IsCoherent (stop asking)
IsCoherent-kept_example =
    IsCoherent-kept numbers asking (output 2 ∷ []) false true 6 0 4 0 yes asking-IsCoherent

asking-Replays : Replays (record { sent = (21, 5) ∷ []; first = 0 }) asking.buffer
asking-Replays = record {
  counted = refl;
  within = omega arith;
  window = refl;
  capped = omega arith;
}
