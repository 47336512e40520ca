-- ===== src/Scheduler/Tests.antt =====
-- Runs of the scheduler on a schedule that fires every ten seconds.
use claude_code_portal.Prelude.{
  ℕ, suc, ◌+◌, ◌*◌, ◌≡◌, refl, true, false, [], ◌∷◌, map, none, some, arith, get_elem?, any, ◌==◌,
}
use mathlib.Core.Option.{some-injective}
use claude_code_portal.Protocol.{ScheduledTaskConfig, claude, second}
use claude_code_portal.Scheduler.{
  Cron, Scheduler, fire_due_tasks, fire_loop, update_tasks, on_session_spawned, on_session_exited,
  ready_prompts,
}
use claude_code_portal.Scheduler.Firing.{fire_due_tasks_fires}
use claude_code_portal.Scheduler.Runs.{AllFor, IsSound, IsSound-kept}
use claude_code_portal.Scheduler.Rescheduling.{run, update_tasks_running_never_fires}
use claude_code_portal.Scheduler.Rescheduling.Op.{fires, exits}

abbrev every_ten : Cron
every_ten = record {
  Expression = ℕ;
  Zone = Unit {0};
  parse = λ e. some 10;
  parse_zone = λ z. none;
  utc = tt;
  find_next_occurrence = λ e z now. some (now + suc e);
  find_next_later = λ e z now next h. (let i = some-injective (now + suc e) next h in omega arith);
}

abbrev task : ℕ → ScheduledTaskConfig
task id = record {
  id = id;
  name = "nightly";
  cron_expression = "*/10 * * * * *";
  timezone = "UTC";
  working_directory = "/srv";
  prompt = "tidy up";
  claude_args = [];
  agent_type = claude;
  enabled = true;
  max_runtime_minutes = 30;
  last_session_id = none;
}

abbrev two_tasks : Scheduler
two_tasks = record {
  tasks =
      record { config = task 1; next_fire = some 5 }
      ∷ record { config = task 2; next_fire = some 4 }
      ∷ [];
  pending_launches = [];
  running = [];
  pending_prompts = [];
}

abbrev one_runs : Scheduler
one_runs = record two_tasks {
  running = (70, record { task_id = 1; started_at = 0; max_runtime = 1800 }) ∷ [];
}

abbrev waiting : Scheduler
waiting = record one_runs {
  pending_launches = (9, record { task_id = 2; last_session_id = none; prompt = "tidy up" }) ∷ [];
  pending_prompts =
      record { session_id = 70; task_id = 1; prompt = "go on"; send_at = 90 }
      ∷ record { session_id = 70; task_id = 1; prompt = "stop"; send_at = 110 }
      ∷ [];
}

fires_second :
    map (λ t. t.config.id) (fire_due_tasks every_ten one_runs 6 (λ i. 100 + i)).1 ≡ 2 ∷ []
unfolding fire_due_tasks fire_loop
fires_second = refl

fire_due_tasks_fires_example :
    let (s', to_fire) = fire_due_tasks every_ten one_runs 6 (λ i. 100 + i) in
    (map (λ t. t.config) to_fire ≡ task 2 ∷ [])
    × ((fire_due_tasks every_ten (record s' { running = [] }) 6 (λ i. 200 + i)).1 ≡ [])
fire_due_tasks_fires_example =
    fire_due_tasks_fires every_ten one_runs 6 (λ i. 100 + i) (λ i. 200 + i) []

second_fired :
    get_elem? (fire_due_tasks every_ten two_tasks 6 (λ i. 100 + i)).1 1
    ≡ some (record { request_id = 101; config = task 2 })
unfolding fire_due_tasks fire_loop
second_fired = refl

IsSound-kept_example :
    IsSound (on_session_spawned waiting 9 71 100)
    × IsSound (on_session_exited waiting 71).0
    × IsSound (ready_prompts waiting 100).0
    × AllFor waiting.running (ready_prompts waiting 100).1
    × ((ready_prompts (ready_prompts waiting 100).0 100).1 ≡ [])
IsSound-kept_example = IsSound-kept waiting 9 71 100 (refl, (refl, tt))

update_tasks_running_never_fires_example :
    any
      (λ t. t.config.id == 1)
      (run every_ten
        (update_tasks every_ten one_runs (task 1 ∷ task 2 ∷ []) 0)
        (exits 70 ∷ fires (100 * second) (λ i. i) ∷ [])).1
    ≡ false
update_tasks_running_never_fires_example =
    update_tasks_running_never_fires every_ten 1 one_runs (task 1 ∷ task 2 ∷ []) 0
      (exits 70 ∷ fires (100 * second) (λ i. i) ∷ []) refl
