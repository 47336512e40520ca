-- ===== src/Scheduler/Rescheduling.antt =====
-- A task whose session runs when the tasks are updated.
use claude_code_portal.Prelude.{
  ℕ, suc, ◌≡◌, refl, Bool, true, false, not, ◌&&◌, List, [], ◌∷◌, ◌++◌, map, arith, ◌==◌,
  if◌then◌else◌, Option-cases, inl, inr, any, lookup,
}
use claude_code_portal.Protocol.{ScheduledTaskConfig}
use claude_code_portal.SessionManager.Connections.{is_some}
use claude_code_portal.Scheduler.{
  Cron, ActiveTask, RunningInfo, TaskToFire, Scheduler, is_running, is_due, fire_loop,
  fire_due_tasks, update_tasks, activate, on_session_spawned, launched, clear_pending_launch,
  ready_prompts, on_session_exited,
}
use claude_code_portal.Scheduler.Runs.{on_session_spawned-launched, on_session_spawned_unknown}

-- What the launcher does with the scheduler between two updates of the tasks.
pub data Op : Type 0 where
  fires : (now : ℕ) → (ℕ → ℕ) → Op
  spawns : (request session now : ℕ) → Op
  clears : (request : ℕ) → Op
  readies : (now : ℕ) → Op
  exits : (session : ℕ) → Op

-- A task of this id has a next time.
abbrev pub is_scheduled : ℕ → List ActiveTask → Bool
is_scheduled id tasks = any (λ t. t.config.id == id && is_some t.next_fire) tasks

on_session_spawned-tasks :
    (s : Scheduler) (request session now : ℕ)
    → (on_session_spawned s request session now).tasks ≡ s.tasks
unfolding launched
on_session_spawned-tasks s request session now =
    elim (Option-cases (lookup request s.pending_launches)) [
      | inl e ↦ rw (on_session_spawned_unknown s request session now e) refl
      | inr (pending, e) ↦ rw (on_session_spawned-launched s request session now pending e) refl
    ]

module _ (cron : Cron) where
  unfoldable pub step : Scheduler → Op → Scheduler × List TaskToFire
  step s (fires now ids) = fire_due_tasks cron s now ids
  step s (spawns request session now) = (on_session_spawned s request session now, [])
  step s (clears request) = (clear_pending_launch s request, [])
  step s (readies now) = ((ready_prompts s now).0, [])
  step s (exits session) = ((on_session_exited s session).0, [])

  -- The operations in order, with all that fires.
  unfoldable pub run : Scheduler → List Op → Scheduler × List TaskToFire
  unfolding step
  run s [] = (s, [])
  run s (op ∷ ops) =
      let (s', fired) = step s op in let (s'', later) = run s' ops in (s'', fired ++ later)

  module _ (id : ℕ) where
    fire_loop_unscheduled :
        (running : List (ℕ × RunningInfo)) (now : ℕ) (ids : ℕ → ℕ) (k : ℕ) (tasks : List ActiveTask)
        → is_scheduled id tasks ≡ false
        → is_scheduled id (fire_loop cron running now ids k tasks).0 ≡ false
    unfolding fire_loop
    fire_loop_unscheduled running now ids k [] h = refl
    fire_loop_unscheduled running now ids k (t ∷ ts) h = ground (
      arith,
      h,
      fire_loop_unscheduled running now ids
          (if is_due now t && not (is_running running t.config.id) then suc k else k) ts,
    )

    fire_loop_quiet :
        (running : List (ℕ × RunningInfo)) (now : ℕ) (ids : ℕ → ℕ) (k : ℕ) (tasks : List ActiveTask)
        → is_scheduled id tasks ≡ false
        → any (λ t. t.config.id == id) (fire_loop cron running now ids k tasks).1 ≡ false
    unfolding fire_loop
    fire_loop_quiet running now ids k [] h = refl
    fire_loop_quiet running now ids k (t ∷ ts) h = ground (
      arith,
      h,
      fire_loop_quiet running now ids
          (if is_due now t && not (is_running running t.config.id) then suc k else k) ts,
    )

    step_unscheduled :
        (s : Scheduler) (op : Op)
        → is_scheduled id s.tasks ≡ false
        → let (s', fired) = step s op in
          (is_scheduled id s'.tasks ≡ false) × (any (λ t. t.config.id == id) fired ≡ false)
    unfolding step fire_due_tasks clear_pending_launch ready_prompts on_session_exited
    step_unscheduled s (fires now ids) h = (
      fire_loop_unscheduled s.running now ids 0 s.tasks h,
      fire_loop_quiet s.running now ids 0 s.tasks h,
    )
    step_unscheduled s (spawns request session now) h =
        (rw (on_session_spawned-tasks s request session now) h, refl)
    step_unscheduled s (clears request) h = (h, refl)
    step_unscheduled s (readies now) h = (h, refl)
    step_unscheduled s (exits session) h = (h, refl)

    any-append :
        (ts us : List TaskToFire)
        → any (λ t. t.config.id == id) ts ≡ false
        → any (λ t. t.config.id == id) us ≡ false
        → any (λ t. t.config.id == id) (ts ++ us) ≡ false
    any-append [] us h k = k
    any-append (t ∷ ts) us h k = ground (arith, any-append ts us, h, k)

    run_unscheduled :
        (s : Scheduler) (ops : List Op)
        → is_scheduled id s.tasks ≡ false
        → any (λ t. t.config.id == id) (run s ops).1 ≡ false
    unfolding run
    run_unscheduled s [] h = refl
    run_unscheduled s (op ∷ ops) h =
        let (kept, quiet) = step_unscheduled s op h in
        any-append (step s op).1 (run (step s op).0 ops).1 quiet
          (run_unscheduled (step s op).0 ops kept)

    activate_running :
        (running : List (ℕ × RunningInfo)) (now : ℕ) (configs : List ScheduledTaskConfig)
        → is_running running id ≡ true
        → is_scheduled id (map (activate cron running now) configs) ≡ false
    unfolding activate
    activate_running running now [] h = refl
    activate_running running now (c ∷ cs) h = ground (arith, h, activate_running running now cs)

    -- A task whose session runs when the tasks are updated gets no next time, and fires never again
    -- until another update of the tasks, whatever happens in between: also when that session has ended.
    pub update_tasks_running_never_fires :
        (s : Scheduler) (configs : List ScheduledTaskConfig) (now : ℕ) (ops : List Op)
        → is_running s.running id ≡ true
        → any (λ t. t.config.id == id) (run (update_tasks cron s configs now) ops).1 ≡ false
    unfolding update_tasks
    update_tasks_running_never_fires s configs now ops h =
        run_unscheduled (update_tasks cron s configs now) ops
          (activate_running s.running now configs h)
