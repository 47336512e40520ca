-- ===== src/ProcessManager/Tests.antt =====
-- A launcher whose session is resumed while it runs.
use claude_code_portal.Prelude.{
  ℕ, ◌+◌, ◌≤◌, ◌≡◌, refl, true, false, List, [], ◌∷◌, none, some, arith, length, lookup, any, ◌==◌,
}
use claude_code_portal.Protocol.{claude}
use claude_code_portal.SessionManager.Connections.{is_some}
use claude_code_portal.ProcessManager.{
  ProcessManager, ProxySessionConfig, SpawnParams, Surroundings, Launcher, LauncherEvent, Round,
  launches, stops, finishes, takes_exit, new_manager, session_not_found, run_session_task,
  running_session_ids, run, step, spawn, stop, finish, config_for,
}
use claude_code_portal.ProcessManager.Running.{run_within_limit}
use claude_code_portal.ProcessManager.Retry.{run_session_task_ends}
use claude_code_portal.ProcessManager.Untracked.{resumed_session_untracked}

abbrev params : SpawnParams
params = record {
  auth_token = "token";
  working_directory = "/w";
  session_name = none;
  claude_args = [];
  agent_type = claude;
  scheduled_task_id = none;
  resume_session_id = some 7;
}

abbrev surroundings : ℕ → Surroundings
surroundings handle = record {
  is_dir = λ d. true;
  new_id = 100 + handle;
  new_handle = handle;
  hostname = some "host";
  timestamp = "20250101-000000";
  git = record { head = none; short_hash = none; repo_view = none; pr_view = λ b. none };
}

abbrev launcher : Launcher
launcher = record {
  manager = record {
    tasks = (7, record { handle = 1; working_directory = "/w" }) ∷ [];
    backend_url = "ws";
    max_sessions = 2;
    launcher_id = none;
  };
  running = record { session_id = 7; handle = 1 } ∷ [];
  exit_rx = [];
}

abbrev config : ProxySessionConfig
config = record {
  backend_url = "ws";
  session_id = 7;
  session_name = "s";
  auth_token = none;
  working_directory = "/w";
  resume = true;
  git_branch = none;
  claude_args = [];
  replaces_session_id = none;
  launcher_id = none;
  agent_type = claude;
  scheduled_task_id = none;
}

third_refused :
    running_session_ids
      (run
        (record { manager = new_manager "ws" 1; running = []; exit_rx = [] })
        (launches (record params { resume_session_id = none }) (surroundings 1)
          ∷ launches (record params { resume_session_id = none }) (surroundings 2)
          ∷ [])).manager
    ≡ 101 ∷ []
unfolding new_manager run step spawn config_for
third_refused = refl

stopped_is_gone : running_session_ids (run launcher (stops 7 false ∷ [])).manager ≡ []
unfolding run step stop finish
stopped_is_gone = refl

abbrev fresh_params : SpawnParams
fresh_params = record params { resume_session_id = none }

abbrev two_starts : List LauncherEvent
two_starts =
    launches fresh_params (record (surroundings 1) { new_id = 1 })
    ∷ launches fresh_params (record (surroundings 2) { new_id = 2 })
    ∷ stops 1 false
    ∷ takes_exit
    ∷ []

run_within_limit_example :
    length
      (run (record { manager = new_manager "ws" 1; running = []; exit_rx = [] }) two_starts).running
    ≤ 1
run_within_limit_example =
    run_within_limit "ws" 1 two_starts (refl, omega arith, (refl, omega arith, tt))

run_session_task_ends_example :
    (run_session_task (2 + 3) 0 (λ i. session_not_found) (λ i. 50 + i) config
      ≡ run_session_task 2 0 (λ i. session_not_found) (λ i. 50 + i) config)
    × ((is_some (run_session_task 2 0 (λ i. session_not_found) (λ i. 50 + i) config).1 ≡ true)
        × (length (run_session_task 2 0 (λ i. session_not_found) (λ i. 50 + i) config).0 ≤ 2))
run_session_task_ends_example =
    run_session_task_ends 3 0 (λ i. session_not_found) (λ i. 50 + i) config

resumed_session_untracked_example :
    (any
        (λ (t : claude_code_portal.ProcessManager.Task). t.handle == 2)
        (run launcher (launches params (surroundings 2) ∷ finishes 1 ∷ takes_exit ∷ [])).running
      ≡ true)
    × (lookup 7
          (run launcher
            (launches params (surroundings 2) ∷ finishes 1 ∷ takes_exit ∷ [])).manager.tasks
        ≡ none)
resumed_session_untracked_example =
    resumed_session_untracked launcher (record { session_id = 7; handle = 1 }) params
      (surroundings 2) refl refl (ground arith) refl refl refl
