-- ===== src/ProcessManager/Cap.antt =====
-- How many sessions launcher/src/process_manager.rs keeps.
use mathlib.Core.Path.{subst}
use claude_code_portal.Prelude.{
  ℕ, suc, ◌≤◌, ◌≡◌, refl, sym, Sum-cases, String, List, [], ◌∷◌, inl, inr, arith, length, insert,
  remove, Bool-cases, Option-cases,
}
use claude_code_portal.ProcessManager.{
  ManagedTask, ProcessManager, Launcher, LauncherEvent, launches, stops, finishes, takes_exit,
  spawn, stop, remove_finished, new_manager, finish, started, step, run, SpawnParams, Surroundings,
  config_for,
}

length-insert-le :
    (id : ℕ) (t : ManagedTask) (tasks : List (ℕ × ManagedTask))
    → length (insert id t tasks) ≤ suc (length tasks)
length-insert-le id t [] = ground arith
length-insert-le id t ((j, u) ∷ tasks) = ground (arith, length-insert-le id t tasks)

pub length-remove-le :
    (id : ℕ) (tasks : List (ℕ × ManagedTask)) → length (remove id tasks) ≤ length tasks
length-remove-le id [] = ground arith
length-remove-le id ((j, u) ∷ tasks) = ground (arith, length-remove-le id tasks)

-- No more sessions than the limit.
abbrev pub IsCapped : ℕ → ProcessManager → Type 0
IsCapped limit m = (length m.tasks ≤ limit) × (m.max_sessions ≡ limit)

pub finish-manager : (l : Launcher) (h : ℕ) → (finish l h).manager ≡ l.manager
unfolding finish
finish-manager l h = ground arith

spawn-IsCapped :
    (limit : ℕ) (m : ProcessManager) (p : SpawnParams) (w : Surroundings)
    → IsCapped limit m
    → IsCapped limit (spawn m p w).0
unfolding spawn
spawn-IsCapped limit m p w (few, same) = ground (
  arith,
  few,
  same,
  length-insert-le (config_for m p w).session_id
      (record { handle = w.new_handle; working_directory = p.working_directory }) m.tasks,
)

stop-IsCapped :
    (limit : ℕ) (m : ProcessManager) (id : ℕ) → IsCapped limit m → IsCapped limit (stop m id).0
unfolding stop
stop-IsCapped limit m id (few, same) = ground (arith, few, same, length-remove-le id m.tasks)

step-IsCapped :
    (limit : ℕ) (l : Launcher) (e : LauncherEvent)
    → IsCapped limit l.manager
    → IsCapped limit (step l e).manager
unfolding step remove_finished
step-IsCapped limit l (launches p w) c = elim (Sum-cases (spawn l.manager p w).1) [
  | inl (e, f) ↦ rw (f, started) c
  | inr (config, f) ↦ rw (f, started) (spawn-IsCapped limit l.manager p w c)
]
step-IsCapped limit l (stops id aborted) c = elim (Option-cases (stop l.manager id).1) [
  | inl e ↦ rw (e, step) c
  | inr (h, e) ↦ elim (Bool-cases aborted) [
    | inl dies ↦ rw (e, dies, step) (stop-IsCapped limit l.manager id c)
    | inr ends ↦
        rw (e, ends, step, finish-manager (record l { manager = (stop l.manager id).0 }) h)
          (stop-IsCapped limit l.manager id c)
  ]
]
step-IsCapped limit l (finishes h) c = subst (IsCapped limit) (sym (finish-manager l h)) c
step-IsCapped limit l takes_exit (few, same) =
    elim l.exit_rx
      as (λ ids. IsCapped limit (step (record l { exit_rx = ids }) takes_exit).manager) [
        | [] ↦ (few, same)
        | id ∷ rest ↦ (ground (arith, few, length-remove-le id l.manager.tasks), same)
      ]

run-IsCapped :
    (limit : ℕ) (l : Launcher) (events : List LauncherEvent)
    → IsCapped limit l.manager
    → IsCapped limit (run l events).manager
unfolding run
run-IsCapped limit l [] c = c
run-IsCapped limit l (e ∷ events) c =
    run-IsCapped limit (step l e) events (step-IsCapped limit l e c)

-- Whatever a launcher is told to start and stop, and whenever its sessions end, it keeps at most as many
-- sessions as its limit.
pub run_keeps_within_limit :
    (backend_url : String) (limit : ℕ) (events : List LauncherEvent)
    → length
        (run
          (record { manager = new_manager backend_url limit; running = []; exit_rx = [] })
          events).manager.tasks
      ≤ limit
unfolding new_manager
run_keeps_within_limit backend_url limit events =
    (run-IsCapped limit
      (record { manager = new_manager backend_url limit; running = []; exit_rx = [] }) events
      (ground arith, refl)).0
