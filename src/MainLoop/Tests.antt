-- ===== src/MainLoop/Tests.antt =====
-- A connection on which the backend says nothing.
use claude_code_portal.Prelude.{
  ap, ◌∙◌, ℕ, ◌*◌, ◌≡◌, refl, sym, String, true, false, List, [], ◌∷◌, none, some,
}
use claude_code_portal.Protocol.{claude, second}
use claude_code_portal.SessionManager.Connections.{is_some}
use claude_code_portal.OutputBuffer.{Codec, BufferState}
use claude_code_portal.OutputBuffer.Reload.{with_contents-same}
use claude_code_portal.AgentSession.{Agent, running, user_input}
use claude_code_portal.ReplayBuffer.{new}
use claude_code_portal.ProxyReader.{is_expired}
use claude_code_portal.Wiggum.{Rendering, Moment, to_agent}
use claude_code_portal.MainLoop.{
  ConnectionState, Reading, Branch, tick, input, branch, run_main_loop,
}
use claude_code_portal.MainLoop.Silence.{silent_connection_ends}

abbrev agent : Agent String String String
agent = record {
  to_value = λ o. o;
  is_not_found = λ o. false;
  can_use_tool = λ o. none;
  is_control_response = λ o. false;
  empty_object = "{}";
}

abbrev rendering : Rendering String String
rendering = record {
  as_result = λ o. none;
  to_uppercase = λ s. s;
  tenths = λ n. "?";
  from_text = λ s. s;
  portal_json = λ m. "portal";
}

-- A state that is its own text.
abbrev codec : Codec String (BufferState String)
codec = record {
  reread = λ x. x;
  print = λ s. some s;
  parse = λ s. some s;
  parse-print = λ s t e. sym e ∙ ap some (sym (with_contents-same s));
}

abbrev reading : Reading String String
reading = record {
  from_suggestion = λ s. s;
  request_number = λ s. 0;
  empty_object = "{}";
  decode = λ s. none;
}

abbrev state : ConnectionState String String (BufferState String)
state = record {
  claude_session = record {
    id = 1;
    config = record {
      session_id = 1;
      working_directory = "/w";
      session_name = "s";
      resume = false;
      claude_path = none;
      extra_args = [];
      agent_type = claude;
    };
    command_tx = true;
    buffer = new 1;
    state = running;
    pending_permission = none;
    event_rx = true;
  };
  events = [];
  handled = record {
    wiggum_state = none;
    output_buffer = record {
      session_id = 1;
      persist_path = 0;
      state = record { session_id = 1; next_seq = 0; last_ack_seq = 0; pending = [] };
      dirty = false;
    };
  };
  disk = record { file = none; temp = none };
  receiver = record { active_uploads = []; files = [] };
  heartbeat = record { last_received = 0 };
}

abbrev at : ℕ → Moment
at now = record { now = now; sent_at = now; forwards = true; sends = true; takes = true }

abbrev branches : List (Branch String String (BufferState String) × Moment)
branches =
    (tick, at (1 * second)) ∷ (input "hello", at (2 * second)) ∷ (tick, at (16 * second)) ∷ []

input_reaches_agent :
    (branch {Permission = String} agent rendering codec reading 0 state (input "hello") (at 5)).1
    ≡ to_agent (user_input "hello") ∷ []
unfolding branch claude_code_portal.AgentSession.send_input
input_reaches_agent = refl

silent_connection_ends_example :
    is_some (run_main_loop {Permission = String} agent rendering codec reading 0 state branches).2
    ≡ true
unfolding is_expired
silent_connection_ends_example =
    silent_connection_ends String agent rendering codec reading 0 state branches refl refl
