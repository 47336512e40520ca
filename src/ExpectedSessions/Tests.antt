-- ===== src/ExpectedSessions/Tests.antt =====
-- A session that fails again and again.
use claude_code_portal.Prelude.{ℕ, ◌≤◌, ◌≡◌, refl, String, List, [], ◌∷◌, Option, none, some, arith}
use claude_code_portal.Protocol.{claude}
use claude_code_portal.ExpectedSessions.{ExpectedSession, reconcile, on_exit}
use claude_code_portal.ExpectedSessions.Restarts.{run_exits, count_of, run_exits_bounded}

abbrev session : String → ExpectedSession
session dir = record {
  working_directory = dir;
  session_name = none;
  claude_args = [];
  agent_type = claude;
}

abbrev failures : List (Option String × Option ℕ)
failures =
    (some "/a", some 1)
    ∷ (some "/a", none)
    ∷ (some "/b", some 0)
    ∷ (some "/a", some 1)
    ∷ (some "/a", some 1)
    ∷ []

not_running : reconcile (session "/a" ∷ session "/b" ∷ []) ("/a" ∷ []) ≡ session "/b" ∷ []
unfolding reconcile
not_running = refl

given_up :
    (run_exits
      (record { expected_sessions = session "/a" ∷ session "/b" ∷ []; restart_counts = [] })
      failures).0.expected_sessions
    ≡ []
unfolding run_exits on_exit
given_up = refl

run_exits_bounded_example :
    count_of "/a"
      (run_exits
        (record { expected_sessions = session "/a" ∷ session "/b" ∷ []; restart_counts = [] })
        failures).1
    ≤ 3
run_exits_bounded_example =
    run_exits_bounded (session "/a" ∷ session "/b" ∷ []) failures "/a" (ground arith)
