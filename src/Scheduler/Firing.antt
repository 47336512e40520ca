-- ===== src/Scheduler/Firing.antt =====
-- Which tasks `fire_due_tasks` fires, and what it records of them.
use claude_code_portal.Prelude.{
  String, ℕ, zero, suc, ◌<◌, ◌≡◌, refl, sym, ◌∙◌, Bool, false, not, ◌&&◌, List, [], ◌∷◌, map, some,
  arith, lt→leb_false, if◌then◌else◌, Bool-cases, Option-cases, inl, inr, retain, any, lookup,
  insert, lookup-insert, get_elem?,
}
use mathlib.Core.Option.{some-injective}
use mathlib.Core.Path.{subst}
use claude_code_portal.Protocol.{ScheduledTaskConfig}
use claude_code_portal.Scheduler.{
  Cron, ActiveTask, PendingLaunch, RunningInfo, TaskToFire, Scheduler, is_running, is_due,
  compute_next_fire, rescheduled, zone_of, fire_loop, add_launches, fire_due_tasks,
}

abbrev pub launch_of : TaskToFire → PendingLaunch
launch_of t = record {
  task_id = t.config.id;
  last_session_id = t.config.last_session_id;
  prompt = t.config.prompt;
}

-- A task that is due and has no running session.
abbrev pub will_fire : List (ℕ × RunningInfo) → ℕ → ActiveTask → Bool
will_fire running now t = is_due now t && not (is_running running t.config.id)

module _ (cron : Cron) where
  compute_next_fire_later :
      (expression timezone : String) (now next : ℕ)
      → compute_next_fire cron expression timezone now ≡ some next
      → now < next
  unfolding compute_next_fire
  compute_next_fire_later expression timezone now next e =
      elim (Option-cases (cron.parse expression)) [
        | inl p ↦ let q = (rw (p, compute_next_fire) at e) in cc
        | inr (x, p) ↦
            cron.find_next_later x (zone_of cron timezone) now next (rw (p, compute_next_fire) at e)
      ]

  not_due_later :
      (now : ℕ) (config : ScheduledTaskConfig)
      → is_due now (record { config = config; next_fire = rescheduled cron now config }) ≡ false
  not_due_later now config = elim (Option-cases (rescheduled cron now config)) [
    | inl e ↦ rw e
    | inr (next, e) ↦ rw e (
        lt→leb_false next now
          (compute_next_fire_later config.cron_expression config.timezone now next e))
  ]

  fire_loop-configs :
      (running : List (ℕ × RunningInfo)) (now : ℕ) (ids : ℕ → ℕ) (k : ℕ) (tasks : List ActiveTask)
      → map (λ t. t.config) (fire_loop cron running now ids k tasks).1
        ≡ map (λ t. t.config) (retain (will_fire running now) tasks)
  unfolding fire_loop
  fire_loop-configs running now ids k [] = refl
  fire_loop-configs running now ids k (t ∷ ts) = ground (
    arith,
    fire_loop-configs running now ids
        (if is_due now t && not (is_running running t.config.id) then suc k else k) ts,
  )

  fire_loop-settled :
      (running : List (ℕ × RunningInfo)) (now : ℕ) (ids : ℕ → ℕ) (k : ℕ) (tasks : List ActiveTask)
      → any (is_due now) (fire_loop cron running now ids k tasks).0 ≡ false
  unfolding fire_loop
  fire_loop-settled running now ids k [] = refl
  fire_loop-settled running now ids k (t ∷ ts) = ground (
    arith,
    not_due_later now t.config,
    fire_loop-settled running now ids
        (if is_due now t && not (is_running running t.config.id) then suc k else k) ts,
  )

  fire_loop-idle :
      (running : List (ℕ × RunningInfo)) (now : ℕ) (ids : ℕ → ℕ) (k : ℕ) (tasks : List ActiveTask)
      → any (is_due now) tasks ≡ false
      → (fire_loop cron running now ids k tasks).1 ≡ []
  unfolding fire_loop
  fire_loop-idle running now ids k [] e = refl
  fire_loop-idle running now ids k (t ∷ ts) e = elim (Bool-cases (is_due now t)) [
    | inl due ↦ absurd (ground (arith, due, e))
    | inr idle ↦ rw idle (fire_loop-idle running now ids k ts (ground (arith, idle, e)))
  ]

  -- The configurations that fire are those of the due tasks without a running session, in order; and
  -- at the same time nothing fires again, whatever runs by then.
  pub fire_due_tasks_fires :
      (s : Scheduler) (now : ℕ) (ids ids' : ℕ → ℕ) (running' : List (ℕ × RunningInfo))
      → let (s', to_fire) = fire_due_tasks cron s now ids in
        (map (λ t. t.config) to_fire
          ≡ map (λ t. t.config) (retain (will_fire s.running now) s.tasks))
        × ((fire_due_tasks cron (record s' { running = running' }) now ids').1 ≡ [])
  unfolding fire_due_tasks
  fire_due_tasks_fires s now ids ids' running' = (
    fire_loop-configs s.running now ids 0 s.tasks,
    fire_loop-idle running' now ids' 0 _ (fire_loop-settled s.running now ids 0 s.tasks),
  )

  -- The request ids of a firing, from position `k`.
  abbrev Numbered : (ℕ → ℕ) → ℕ → List TaskToFire → Type 0
  Numbered ids k [] = Unit {0}
  Numbered ids k (t ∷ ts) = (t.request_id ≡ ids k) × Numbered ids (suc k) ts

  fire_loop-Numbered :
      (running : List (ℕ × RunningInfo)) (now : ℕ) (ids : ℕ → ℕ) (k : ℕ) (tasks : List ActiveTask)
      → Numbered ids k (fire_loop cron running now ids k tasks).1
  unfolding fire_loop
  fire_loop-Numbered running now ids k [] = tt
  fire_loop-Numbered running now ids k (t ∷ ts) = elim (Bool-cases (is_due now t)) [
    | inl due ↦ elim (Bool-cases (is_running running t.config.id)) [
      | inl busy ↦ rw (due, busy) (fire_loop-Numbered running now ids k ts)
      | inr free ↦ rw (due, free) (refl, fire_loop-Numbered running now ids (suc k) ts)
    ]
    | inr idle ↦ rw idle (fire_loop-Numbered running now ids k ts)
  ]

  module _ (ids : ℕ → ℕ) (distinct : (i j : ℕ) → ids i ≡ ids j → i ≡ j) where
    lookup-add_launches_below :
        (i k : ℕ) (ts : List TaskToFire) (launches : List (ℕ × PendingLaunch))
        → i < k
        → Numbered ids k ts
        → lookup (ids i) (add_launches cron ts launches) ≡ lookup (ids i) launches
    unfolding add_launches
    lookup-add_launches_below i k [] launches h n = refl
    lookup-add_launches_below i k (t ∷ ts) launches h n =
        lookup-add_launches_below i (suc k) ts (insert t.request_id (launch_of t) launches)
          (omega arith) n.1
        ∙ ground
            (arith, lookup-insert t.request_id (ids i) (launch_of t) launches, n.0, distinct k i)

    lookup-add_launches_first :
        (k : ℕ) (ts : List TaskToFire) (launches : List (ℕ × PendingLaunch)) (t : TaskToFire)
        → Numbered ids k (t ∷ ts)
        → lookup t.request_id (add_launches cron (t ∷ ts) launches) ≡ some (launch_of t)
    unfolding add_launches
    lookup-add_launches_first k ts launches t n =
        let m : List (ℕ × PendingLaunch) = insert t.request_id (launch_of t) launches in
        subst (λ r. lookup r (add_launches cron ts m) ≡ some (launch_of t)) (sym n.0)
          (lookup-add_launches_below k (suc k) ts m (omega arith) n.1
            ∙ ground (arith, lookup-insert t.request_id (ids k) (launch_of t) launches, n.0))

    lookup-add_launches :
        (k j : ℕ) (ts : List TaskToFire) (launches : List (ℕ × PendingLaunch)) (t : TaskToFire)
        → Numbered ids k ts
        → get_elem? ts j ≡ some t
        → lookup t.request_id (add_launches cron ts launches) ≡ some (launch_of t)
    unfolding add_launches
    lookup-add_launches k j [] launches t n e = cc
    lookup-add_launches k zero (t' ∷ ts) launches t n e =
        subst (λ x. lookup x.request_id (add_launches cron (t' ∷ ts) launches) ≡ some (launch_of x))
          (some-injective t' t e) (lookup-add_launches_first k ts launches t' n)
    lookup-add_launches k (suc j) (t' ∷ ts) launches t n e =
        lookup-add_launches (suc k) j ts (insert t'.request_id (launch_of t') launches) t n.1 e

    -- If the request ids that are made are distinct, each task that fires has a pending launch of its
    -- own, with its id, its prompt and its last session.
    pub fire_due_tasks_pending :
        (s : Scheduler) (now j : ℕ) (t : TaskToFire)
        → get_elem? (fire_due_tasks cron s now ids).1 j ≡ some t
        → lookup t.request_id (fire_due_tasks cron s now ids).0.pending_launches
          ≡ some (launch_of t)
    unfolding fire_due_tasks
    fire_due_tasks_pending s now j t e =
        lookup-add_launches 0 j (fire_loop cron s.running now ids 0 s.tasks).1 s.pending_launches t
          (fire_loop-Numbered s.running now ids 0 s.tasks) e
