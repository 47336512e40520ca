-- ===== src/Wiggum/Tests.antt =====
-- Two loops of the mode, with an agent that takes every prompt.
use claude_code_portal.Prelude.{
  ℕ, ◌+◌, ◌≤◌, ◌<◌, ◌≡◌, refl, ◌⊎◌, String, true, false, List, [], ◌∷◌, length, none, some,
}
use claude_code_portal.Protocol.{claude}
use claude_code_portal.SessionManager.Connections.{is_some}
use claude_code_portal.OutputBuffer.{PendingOutputBuffer}
use claude_code_portal.AgentSession.{Session, running}
use claude_code_portal.ReplayBuffer.{new}
use claude_code_portal.WiggumState.{
  WiggumState, activated, check_wiggum_done, format_wiggum_status, start_iter, numbered,
  wiggum_max_iterations,
}
use claude_code_portal.Wiggum.{Rendering, Moment, handle_output}
use claude_code_portal.Wiggum.Turns.{Turn, prompts, results, finished, run_turns}
use claude_code_portal.Wiggum.Limit.{wiggum_ends}
use claude_code_portal.Wiggum.Progress.{last_ten, wiggum_status_rows}

-- An output is a result with a text, and JSON is texts.
abbrev rendering : Rendering String String
rendering = record {
  as_result = λ o. some (record { is_error = false; result = some o });
  to_uppercase = λ s. s;
  tenths = λ n. "?";
  from_text = λ s. s;
  portal_json = λ m. "portal";
}

abbrev session : Session String
session = record {
  id = 1;
  config = record {
    session_id = 1;
    working_directory = "/w";
    session_name = "s";
    resume = false;
    claude_path = none;
    extra_args = [];
    agent_type = claude;
  };
  command_tx = true;
  buffer = new 1;
  state = running;
  pending_permission = none;
  event_rx = true;
}

abbrev buffer : PendingOutputBuffer String
buffer = record {
  session_id = 1;
  persist_path = 0;
  state = record { session_id = 1; next_seq = 5; last_ack_seq = 4; pending = [] };
  dirty = false;
}

abbrev moment : ℕ → Moment
moment now = record { now = now; sent_at = now + 1; forwards = true; sends = true; takes = true }

abbrev turn : String → ℕ → Turn String String
turn text now = record { session = session; output = text; moment = moment now }

abbrev turns : List (Turn String String)
turns = turn "not yet" 2000000010 ∷ turn "still not" 5000000011 ∷ []

abbrev state : WiggumState
state = record {
  original_prompt = "tidy";
  iteration = 3;
  loop_start = 5000000012;
  loop_durations = 2000000000 ∷ 3000000000 ∷ [];
}

two_loops_run :
    (run_turns {P = String} {Permission = String} rendering
      (record { wiggum_state = some (activated "tidy" 10); output_buffer = buffer })
      turns
      0).0.wiggum_state
    ≡ some state
unfolding run_turns handle_output check_wiggum_done activated
    claude_code_portal.AgentSession.send_input
two_loops_run = refl

done_in_a_sentence :
    check_wiggum_done (λ s. s) (record { is_error = false; result = some "  ALL DONE NOW\n" })
    ≡ true
unfolding check_wiggum_done
done_in_a_sentence = refl

not_done :
    check_wiggum_done (λ s. s) (record { is_error = false; result = some "CONTINUING" }) ≡ false
unfolding check_wiggum_done
not_done = refl

status_text :
    format_wiggum_status (λ n. "2.5") state
    ≡ "**Wiggum** loop **3** / 50\n\n| Loop | Duration |\n|-----:|---------:|\n| 1 | 2.5s |\n| 2 | 2.5s |\n\nAvg: **2.5s** | Total: **2.5s**"
unfolding format_wiggum_status
status_text = refl

wiggum_ends_example :
    (prompts
        (run_turns {P = String} {Permission = String} rendering
          (record { wiggum_state = some (activated "tidy" 10); output_buffer = buffer })
          turns
          0).1
      ≤ 49)
    × ((is_some
            (run_turns {P = String} {Permission = String} rendering
              (record { wiggum_state = some (activated "tidy" 10); output_buffer = buffer })
              turns
              0).2
          ≡ true)
        ⊎ ((is_some
                (run_turns {P = String} {Permission = String} rendering
                  (record { wiggum_state = some (activated "tidy" 10); output_buffer = buffer })
                  turns
                  0).0.wiggum_state
              ≡ false)
            ⊎ (results rendering turns < 50)))
wiggum_ends_example = wiggum_ends String String rendering buffer "tidy" 10 0 turns

two_loops_go :
    (run_turns {P = String} {Permission = String} rendering
      (record { wiggum_state = some (activated "tidy" 10); output_buffer = buffer })
      turns
      0).2
    ≡ none
unfolding run_turns handle_output check_wiggum_done activated
    claude_code_portal.AgentSession.send_input
two_loops_go = refl

wiggum_status_rows_example :
    (3 ≡ 1 + length (finished rendering 10 turns))
    × ((numbered (start_iter state) state.loop_durations
          ≡ last_ten (numbered 1 (finished rendering 10 turns)))
        × (3 ≤ wiggum_max_iterations))
wiggum_status_rows_example =
    wiggum_status_rows String String rendering buffer "tidy" 10 0 turns state two_loops_go
      two_loops_run
