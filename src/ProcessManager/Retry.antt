-- ===== src/ProcessManager/Retry.antt =====
-- How often launcher/src/process_manager.rs starts a session again.
use claude_code_portal.Prelude.{ℕ, suc, ◌+◌, ◌≤◌, ◌≡◌, refl, true, false, arith, length}
use claude_code_portal.SessionManager.Connections.{is_some}
use claude_code_portal.ProcessManager.{ProxySessionConfig, Round, retried, run_session_task}

-- A session that does not resume is started once.
fresh_once :
    (k i : ℕ) (rounds : ℕ → Round) (new_ids : ℕ → ℕ) (config : ProxySessionConfig)
    → config.resume ≡ false
    → (run_session_task (suc k) i rounds new_ids config
        ≡ run_session_task 1 i rounds new_ids config)
      × ((is_some (run_session_task 1 i rounds new_ids config).1 ≡ true)
          × (length (run_session_task 1 i rounds new_ids config).0 ≡ 1))
unfolding run_session_task
fresh_once k i rounds new_ids config e = ground (arith, e)

-- Whatever the sessions come to, the task of a session ends after two of them at most, so that two rounds
-- are fuel enough: more change neither the sessions nor the exit code.
pub run_session_task_ends :
    (k i : ℕ) (rounds : ℕ → Round) (new_ids : ℕ → ℕ) (config : ProxySessionConfig)
    → (run_session_task (2 + k) i rounds new_ids config
        ≡ run_session_task 2 i rounds new_ids config)
      × ((is_some (run_session_task 2 i rounds new_ids config).1 ≡ true)
          × (length (run_session_task 2 i rounds new_ids config).0 ≤ 2))
unfolding run_session_task retried
run_session_task_ends k i rounds new_ids config =
    let two : 2 + k ≡ suc (suc k) = ground arith in
    rw two (ground (arith, fresh_once k (i + 1) rounds new_ids (retried config (new_ids i)) refl))
