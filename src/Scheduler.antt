-- ===== src/Scheduler.antt =====
-- launcher/src/scheduler.rs: when a scheduled task is fired, the sessions that run for one, and the
-- prompts that wait to be sent. `croner` and `chrono_tz` are the parameter `Cron`; a call reads the
-- clock once, so `Utc::now()` and `Instant::now()` are one argument in nanoseconds; the request ids that
-- `Uuid::new_v4()` makes in one call are the argument `request_id`, by their position. A `HashMap` is an
-- association list. Logging is left out.
pub mod Firing
pub mod Runs
pub mod Rescheduling
mod Tests
use claude_code_portal.Prelude.{
  ℕ, zero, suc, ◌+◌, ◌-◌, ◌*◌, ◌%◌, ◌^◌, ◌<◌, min, ◌≡◌, String, Bool, true, false, not, ◌&&◌, List,
  [], ◌∷◌, ◌++◌, map, Option, none, some, ltb, leb, ◌==◌, if◌then◌else◌, retain, find, any, lookup,
  insert, remove,
}
use claude_code_portal.OutputBuffer.{u64_mod}
use claude_code_portal.Protocol.{ScheduledTaskConfig, second}

-- Parsing an expression and a time zone, UTC, and the next occurrence after a time, which is later.
pub record Cron : Type 1 where
  pub Expression : Type 0
  pub Zone : Type 0
  pub parse : String → Option Expression
  pub parse_zone : String → Option Zone
  pub utc : Zone
  pub find_next_occurrence : Expression → Zone → ℕ → Option ℕ
  pub find_next_later :
      (e : Expression) (z : Zone) (now next : ℕ)
      → find_next_occurrence e z now ≡ some next
      → now < next

-- PROMPT_DELAY.
abbrev pub prompt_delay : ℕ
prompt_delay = 5 * second

pub record ActiveTask : Type 0 where
  pub config : ScheduledTaskConfig
  pub next_fire : Option ℕ

pub record PendingLaunch : Type 0 where
  pub task_id : ℕ
  pub last_session_id : Option ℕ
  pub prompt : String

pub record PendingPrompt : Type 0 where
  pub session_id : ℕ
  pub task_id : ℕ
  pub prompt : String
  pub send_at : ℕ

pub record RunningInfo : Type 0 where
  pub task_id : ℕ
  pub started_at : ℕ
  pub max_runtime : ℕ

pub record TaskToFire : Type 0 where
  pub request_id : ℕ
  pub config : ScheduledTaskConfig

pub record Scheduler : Type 0 where
  pub tasks : List ActiveTask
  pub pending_launches : List (ℕ × PendingLaunch)
  pub running : List (ℕ × RunningInfo)
  pub pending_prompts : List PendingPrompt

unfoldable pub new : Scheduler
new = record { tasks = []; pending_launches = []; running = []; pending_prompts = [] }

-- `running_task_ids.contains(&id)`.
abbrev pub is_running : List (ℕ × RunningInfo) → ℕ → Bool
is_running running id = any (λ r. r.1.task_id == id) running

-- `next <= now` for a task that has a next time.
abbrev pub is_due : ℕ → ActiveTask → Bool
is_due now task = elim task.next_fire [ none ↦ false | some next ↦ leb next now ]

-- The least element.
abbrev pub minimum : List ℕ → Option ℕ
minimum [] = none
minimum (x ∷ xs) = elim (minimum xs) [ none ↦ some x | some y ↦ some (min x y) ]

unfoldable pub fire_delays : ℕ → List ActiveTask → List ℕ
fire_delays now [] = []
fire_delays now (task ∷ tasks) = elim task.next_fire [
  | none ↦ fire_delays now tasks
  | some next ↦ (next - now) ∷ fire_delays now tasks
]

unfoldable pub next_fire_duration : Scheduler → ℕ → Option ℕ
unfolding fire_delays
next_fire_duration s now = minimum (fire_delays now s.tasks)

unfoldable pub next_prompt_duration : Scheduler → ℕ → Option ℕ
next_prompt_duration s now = minimum (map (λ p. p.send_at - now) s.pending_prompts)

-- `max_minutes as u64 * 60` of an i32 given by its bits, in seconds.
unfoldable pub runtime_secs : ℕ → ℕ
runtime_secs minutes =
    (if ltb minutes (2 ^ 31) then minutes else minutes + (u64_mod - 2 ^ 32)) * 60 % u64_mod

unfoldable pub max_minutes : List ActiveTask → ℕ → ℕ
max_minutes tasks id = elim (find (λ t. t.config.id == id) tasks) [
  | none ↦ 30
  | some t ↦ t.config.max_runtime_minutes
]

unfoldable pub get_pending_launch_info : Scheduler → ℕ → Option (Option ℕ × ℕ)
get_pending_launch_info s request = elim (lookup request s.pending_launches) [
  | none ↦ none
  | some p ↦ some (p.last_session_id, p.task_id)
]

unfoldable pub launched : Scheduler → ℕ → ℕ → PendingLaunch → ℕ → Scheduler
launched s request session pending now = record s {
  pending_launches = remove request s.pending_launches;
  pending_prompts =
      s.pending_prompts
      ++ record {
        session_id = session;
        task_id = pending.task_id;
        prompt = pending.prompt;
        send_at = now + prompt_delay;
      }
        ∷ [];
  running =
      insert session
        (record {
          task_id = pending.task_id;
          started_at = now;
          max_runtime = runtime_secs (max_minutes s.tasks pending.task_id) * second;
        })
        s.running;
}

unfoldable pub on_session_spawned : Scheduler → ℕ → ℕ → ℕ → Scheduler
unfolding launched
on_session_spawned s request session now = elim (lookup request s.pending_launches) [
  | none ↦ s
  | some pending ↦ launched s request session pending now
]

unfoldable pub clear_pending_launch : Scheduler → ℕ → Scheduler
clear_pending_launch s request = record s { pending_launches = remove request s.pending_launches }

abbrev pub is_ready : ℕ → PendingPrompt → Bool
is_ready now p = leb p.send_at now

unfoldable pub ready_prompts : Scheduler → ℕ → Scheduler × List (ℕ × ℕ × String)
ready_prompts s now = (
  record s { pending_prompts = retain (λ p. not (is_ready now p)) s.pending_prompts },
  map (λ p. (p.session_id, p.task_id, p.prompt)) (retain (is_ready now) s.pending_prompts),
)

unfoldable pub on_session_exited : Scheduler → ℕ → Scheduler × Option RunningInfo
on_session_exited s session = (
  record s {
    pending_prompts = retain (λ p. not (p.session_id == session)) s.pending_prompts;
    running = remove session s.running;
  },
  lookup session s.running,
)

unfoldable pub timed_out_sessions : Scheduler → ℕ → List ℕ
timed_out_sessions s now =
    map (λ r. r.0) (retain (λ r. leb r.1.max_runtime (now - r.1.started_at)) s.running)

module _ (cron : Cron) where
  zone_of : String → cron.Zone
  zone_of timezone = elim (cron.parse_zone timezone) [ none ↦ cron.utc | some z ↦ z ]

  -- An expression that does not parse gives no time; an unknown time zone is taken for UTC.
  unfoldable pub compute_next_fire : String → String → ℕ → Option ℕ
  unfolding zone_of
  compute_next_fire expression timezone now = elim (cron.parse expression) [
    | none ↦ none
    | some e ↦ cron.find_next_occurrence e (zone_of timezone) now
  ]

  abbrev pub rescheduled : ℕ → ScheduledTaskConfig → Option ℕ
  rescheduled now config = compute_next_fire config.cron_expression config.timezone now

  unfoldable pub activate : List (ℕ × RunningInfo) → ℕ → ScheduledTaskConfig → ActiveTask
  activate running now config = record {
    config = config;
    next_fire =
        if config.enabled && not (is_running running config.id)
        then rescheduled now config
        else none;
  }

  unfoldable pub update_tasks : Scheduler → List ScheduledTaskConfig → ℕ → Scheduler
  unfolding activate
  update_tasks s configs now = record s { tasks = map (activate s.running now) configs }

  -- The loop of `fire_due_tasks`: the tasks with their new times, and what fires, from position `k`.
  unfoldable pub fire_loop :
      List (ℕ × RunningInfo) → ℕ → (ℕ → ℕ) → ℕ → List ActiveTask → List ActiveTask × List TaskToFire
  fire_loop running now request_id k [] = ([], [])
  fire_loop running now request_id k (task ∷ tasks) =
      let due = is_due now task in
      let busy = is_running running task.config.id in
      let rest = fire_loop running now request_id (if due && not busy then suc k else k) tasks in
      if due
      then (
        record task { next_fire = rescheduled now task.config } ∷ rest.0,
        if busy
            then rest.1
            else record { request_id = request_id k; config = task.config } ∷ rest.1,
      )
      else (task ∷ rest.0, rest.1)

  -- `for (request_id, launch) in new_pending { insert }`.
  unfoldable pub add_launches :
      List TaskToFire → List (ℕ × PendingLaunch) → List (ℕ × PendingLaunch)
  add_launches [] launches = launches
  add_launches (t ∷ ts) launches = add_launches ts (
      insert t.request_id
        (record {
          task_id = t.config.id;
          last_session_id = t.config.last_session_id;
          prompt = t.config.prompt;
        })
        launches)

  unfoldable pub fire_due_tasks : Scheduler → ℕ → (ℕ → ℕ) → Scheduler × List TaskToFire
  fire_due_tasks s now request_id =
      let (tasks, to_fire) = fire_loop s.running now request_id 0 s.tasks in
      (
        record s { tasks = tasks; pending_launches = add_launches to_fire s.pending_launches },
        to_fire,
      )
