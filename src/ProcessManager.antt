-- ===== src/ProcessManager.antt =====
-- launcher/src/process_manager.rs: the sessions that a launcher runs. A session id is a number, and so is
-- the handle of a task, with which its cancellation token goes. Ids and handles that are new, what the file
-- system and git answer and the time are arguments. Logging is left out.
pub mod Cap
pub mod Running
pub mod Retry
pub mod Untracked
mod Tests
use Prim.Native.String.{◌++◌ as ◌<>◌}
use claude_code_portal.Prelude.{
  ℕ, zero, suc, ◌+◌, String, Bool, true, false, not, List, [], ◌∷◌, ◌++◌, map, Option, none, some,
  ◌⊎◌, inl, inr, leb, ◌==◌, if◌then◌else◌, length, lookup, insert, remove, retain, find,
}
use claude_code_portal.Protocol.{AgentType}
use claude_code_portal.BranchUpdate.{GitAnswers, get_git_branch}

pub record ManagedTask : Type 0 where
  pub handle : ℕ
  pub working_directory : String

pub record SpawnParams : Type 0 where
  pub auth_token : String
  pub working_directory : String
  pub session_name : Option String
  pub claude_args : List String
  pub agent_type : AgentType
  pub scheduled_task_id : Option ℕ
  pub resume_session_id : Option ℕ

pub record ProcessManager : Type 0 where
  pub tasks : List (ℕ × ManagedTask)
  pub backend_url : String
  pub max_sessions : ℕ
  pub launcher_id : Option ℕ

pub record ProxySessionConfig : Type 0 where
  pub backend_url : String
  pub session_id : ℕ
  pub session_name : String
  pub auth_token : Option String
  pub working_directory : String
  pub resume : Bool
  pub git_branch : Option String
  pub claude_args : List String
  pub replaces_session_id : Option ℕ
  pub launcher_id : Option ℕ
  pub agent_type : AgentType
  pub scheduled_task_id : Option ℕ

pub data SpawnError : Type 0 where
  at_session_limit working_directory_missing : SpawnError

-- What `spawn` asks of its surroundings.
pub record Surroundings : Type 0 where
  pub is_dir : String → Bool
  pub new_id : ℕ
  pub new_handle : ℕ
  pub hostname : Option String
  pub timestamp : String
  pub git : GitAnswers

unfoldable pub new_manager : String → ℕ → ProcessManager
new_manager backend_url max_sessions = record {
  tasks = [];
  backend_url = backend_url;
  max_sessions = max_sessions;
  launcher_id = none;
}

abbrev pub set_launcher_id : ProcessManager → ℕ → ProcessManager
set_launcher_id m id = record m { launcher_id = some id }

abbrev pub running_session_ids : ProcessManager → List ℕ
running_session_ids m = map (λ e. e.0) m.tasks

abbrev pub running_directories : ProcessManager → List String
running_directories m = map (λ e. e.1.working_directory) m.tasks

unfoldable pub session_working_directory : ProcessManager → ℕ → Option String
session_working_directory m id = elim (lookup id m.tasks) [
  | none ↦ none
  | some task ↦ some task.working_directory
]

abbrev pub or_else : Option String → String → String
or_else none d = d
or_else (some s) d = s

unfoldable pub default_name : Surroundings → String
default_name w = or_else w.hostname "unknown" <> ("-" <> w.timestamp)

unfoldable pub config_for : ProcessManager → SpawnParams → Surroundings → ProxySessionConfig
unfolding default_name
config_for m p w = record {
  backend_url = m.backend_url;
  session_id = elim p.resume_session_id [ some id ↦ id | none ↦ w.new_id ];
  session_name = or_else p.session_name (default_name w);
  auth_token = some p.auth_token;
  working_directory = p.working_directory;
  resume = elim p.resume_session_id [ some id ↦ true | none ↦ false ];
  git_branch = get_git_branch w.git;
  claude_args = p.claude_args;
  replaces_session_id = none;
  launcher_id = m.launcher_id;
  agent_type = p.agent_type;
  scheduled_task_id = p.scheduled_task_id;
}

-- The configuration is that of the task which is started.
unfoldable pub spawn :
    ProcessManager → SpawnParams → Surroundings → ProcessManager × (SpawnError ⊎ ProxySessionConfig)
unfolding config_for
spawn m p w =
    if leb m.max_sessions (length m.tasks)
    then (m, inl at_session_limit)
    else if not (w.is_dir p.working_directory)
    then (m, inl working_directory_missing)
    else let config = config_for m p w in
      (
        record m {
          tasks =
              insert config.session_id
                (record { handle = w.new_handle; working_directory = p.working_directory }) m.tasks;
        },
        inr config,
      )

-- The task that is stopped, if there is one. It has ended when `stop` returns, by itself or by an abort
-- after five seconds.
unfoldable pub stop : ProcessManager → ℕ → ProcessManager × Option ℕ
stop m id = elim (lookup id m.tasks) [
  | none ↦ (m, none)
  | some task ↦ (record m { tasks = remove id m.tasks }, some task.handle)
]

unfoldable pub remove_finished : ProcessManager → ℕ → ProcessManager
remove_finished m id = record m { tasks = remove id m.tasks }

-- What a round of `run_session_task` comes to.
pub data Round : Type 0 where
  not_created cancelled normal_exit session_not_found failed : Round

-- A fresh session in place of the one that was not found.
unfoldable pub retried : ProxySessionConfig → ℕ → ProxySessionConfig
retried config new_id = record config {
  session_id = new_id;
  resume = false;
  replaces_session_id = some config.session_id;
}

-- The configurations of the rounds, and the exit code, or none if `fuel` rounds are not enough. `rounds`
-- and `new_ids` are what each round comes to and the id that is made after it.
unfoldable pub run_session_task :
    ℕ → ℕ → (ℕ → Round) → (ℕ → ℕ) → ProxySessionConfig → List ProxySessionConfig × Option ℕ
unfolding retried
run_session_task zero i rounds new_ids config = ([], none)
run_session_task (suc fuel) i rounds new_ids config =
    let (later, code) = run_session_task fuel (i + 1) rounds new_ids (retried config (new_ids i)) in
    elim (rounds i) [
      | not_created ↦ (config ∷ [], some 1)
      | cancelled ↦ (config ∷ [], some 0)
      | normal_exit ↦ (config ∷ [], some 0)
      | session_not_found ↦
          if not config.resume then (config ∷ [], some 0) else (config ∷ later, code)
      | failed ↦ (config ∷ [], some 1)
    ]

-- The launcher with its tasks: those that still run, and the notifications that were not taken yet.
pub record Task : Type 0 where
  pub session_id : ℕ
  pub handle : ℕ

pub record Launcher : Type 0 where
  pub manager : ProcessManager
  pub running : List Task
  pub exit_rx : List ℕ

-- A task that is aborted sends no notification.
pub data LauncherEvent : Type 0 where
  launches : SpawnParams → Surroundings → LauncherEvent
  stops : (session_id : ℕ) (aborted : Bool) → LauncherEvent
  finishes : (handle : ℕ) → LauncherEvent
  takes_exit : LauncherEvent

-- The task with a handle ends: it leaves the running ones, and sends its session's id.
unfoldable pub finish : Launcher → ℕ → Launcher
finish l h = elim (find (λ (t : Task). t.handle == h) l.running) [
  | none ↦ l
  | some task ↦ record l {
    running = retain (λ t. not (t.handle == h)) l.running;
    exit_rx = l.exit_rx ++ task.session_id ∷ [];
  }
]

-- What `spawn` leaves: its task runs, or there is an error.
unfoldable pub started :
    Launcher → Surroundings → ProcessManager × (SpawnError ⊎ ProxySessionConfig) → Launcher
started l w (m, result) = elim result [
  | inl e ↦ l
  | inr config ↦ record l {
    manager = m;
    running = l.running ++ record { session_id = config.session_id; handle = w.new_handle } ∷ [];
  }
]

unfoldable pub step : Launcher → LauncherEvent → Launcher
unfolding spawn stop remove_finished finish started
step l (launches p w) = started l w (spawn l.manager p w)
step l (stops id aborted) =
    let (m, stopped) = stop l.manager id in
    elim stopped [
      | none ↦ l
      | some h ↦
          if aborted
          then record l { manager = m; running = retain (λ t. not (t.handle == h)) l.running }
          else finish (record l { manager = m }) h
    ]
step l (finishes h) = finish l h
step l takes_exit = elim l.exit_rx [
  | [] ↦ l
  | id ∷ rest ↦ record l { manager = remove_finished l.manager id; exit_rx = rest }
]

unfoldable pub run : Launcher → List LauncherEvent → Launcher
unfolding step
run l [] = l
run l (e ∷ events) = run (step l e) events
