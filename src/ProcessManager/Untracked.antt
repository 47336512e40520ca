-- ===== src/ProcessManager/Untracked.antt =====
-- Sessions of launcher/src/process_manager.rs that run and are not kept.
use mathlib.Core.Path.{subst}
use claude_code_portal.Prelude.{
  ℕ, ◌<◌, ◌≡◌, refl, sym, ap, ◌∙◌, lt→leb_false, true, false, not, List, [], ◌∷◌, ◌++◌, none, some,
  inr, arith, length, lookup, insert, lookup-remove, ◌==◌, any, retain, find,
}
use claude_code_portal.ProcessManager.{
  Launcher, launches, finishes, takes_exit, SpawnParams, Surroundings, Task, spawn, config_for,
  remove_finished, finish, started, step, run,
}

find-append :
    (h : ℕ) (task : Task) (xs ys : List Task)
    → find (λ (t : Task). t.handle == h) xs ≡ some task
    → find (λ (t : Task). t.handle == h) (xs ++ ys) ≡ some task
find-append h task [] ys e = ground (arith, e)
find-append h task (x ∷ xs) ys e = ground (arith, e, find-append h task xs ys)

any-retain_other :
    (h k id : ℕ) (xs : List Task)
    → (k == h) ≡ false
    → any
        (λ (t : Task). t.handle == k)
        (retain
          (λ (t : Task). not (t.handle == h))
          (xs ++ record { session_id = id; handle = k } ∷ []))
      ≡ true
any-retain_other h k id [] e = ground (arith, e)
any-retain_other h k id (x ∷ xs) e = ground (arith, e, any-retain_other h k id xs e)

module _ (l : Launcher) (task : Task) (p : SpawnParams) (w : Surroundings) where
  -- The launcher when the session has been resumed, and when the old task has ended.
  abbrev resumed : Launcher
  resumed = record l {
    manager = record l.manager {
      tasks =
          insert task.session_id
            (record { handle = w.new_handle; working_directory = p.working_directory })
            l.manager.tasks;
    };
    running = l.running ++ record { session_id = task.session_id; handle = w.new_handle } ∷ [];
  }

  abbrev ended : Launcher
  ended = record resumed {
    running = retain (λ (t : Task). not (t.handle == task.handle)) resumed.running;
    exit_rx = l.exit_rx ++ task.session_id ∷ [];
  }

  spawned :
      length l.manager.tasks < l.manager.max_sessions
      → w.is_dir p.working_directory ≡ true
      → p.resume_session_id ≡ some task.session_id
      → spawn l.manager p w ≡ (resumed.manager, inr (config_for l.manager p w))
  unfolding spawn config_for
  spawned room exists resumes =
      rw (lt→leb_false l.manager.max_sessions (length l.manager.tasks) room, exists, resumes) refl

  launched :
      length l.manager.tasks < l.manager.max_sessions
      → w.is_dir p.working_directory ≡ true
      → p.resume_session_id ≡ some task.session_id
      → step l (launches p w) ≡ resumed
  unfolding step started config_for
  launched room exists resumes = ap (started l w) (spawned room exists resumes) ∙ rw resumes refl

  finished :
      find (λ (t : Task). t.handle == task.handle) l.running ≡ some task
      → step resumed (finishes task.handle) ≡ ended
  unfolding step finish
  finished here =
      rw
        (
          find-append task.handle task l.running
              (record { session_id = task.session_id; handle = w.new_handle } ∷ []) here,
          finish,
          step,
        )
        refl

-- A session is resumed while its task `task` still runs: the new task takes the place of the old one in the
-- map, and when the old one ends, its notification removes the entry. The new task runs, and the manager
-- has no session of that id to count or to stop.
pub resumed_session_untracked :
    (l : Launcher) (task : Task) (p : SpawnParams) (w : Surroundings)
    → find (λ (t : Task). t.handle == task.handle) l.running ≡ some task
    → l.exit_rx ≡ []
    → length l.manager.tasks < l.manager.max_sessions
    → w.is_dir p.working_directory ≡ true
    → p.resume_session_id ≡ some task.session_id
    → (w.new_handle == task.handle) ≡ false
    → (let l' = run l (launches p w ∷ finishes task.handle ∷ takes_exit ∷ []) in
        (any (λ (t : Task). t.handle == w.new_handle) l'.running ≡ true)
        × (lookup task.session_id l'.manager.tasks ≡ none))
unfolding run step remove_finished
resumed_session_untracked l task p w here none_waits room exists resumes other =
    let after : step (ended l task p w) takes_exit ≡ record (ended l task p w) {
      manager = remove_finished (ended l task p w).manager task.session_id;
      exit_rx = [];
    } =
      rw (none_waits, step) refl in
    let all =
      ap (λ x. step (step x (finishes task.handle)) takes_exit)
        (launched l task p w room exists resumes)
      ∙ (ap (λ x. step x takes_exit) (finished l task p w here) ∙ after) in
    subst
      (λ (x : Launcher).
        (any (λ (t : Task). t.handle == w.new_handle) x.running ≡ true)
        × (lookup task.session_id x.manager.tasks ≡ none))
      (sym all)
      (
        any-retain_other task.handle w.new_handle task.session_id l.running other,
        ground (
          arith,
          lookup-remove task.session_id task.session_id (resumed l task p w).manager.tasks,
        ),
      )
