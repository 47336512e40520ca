-- ===== src/Scheduler/Runs.antt =====
-- From a fired task to its session, its prompt and its end.
use claude_code_portal.Prelude.{
  String, ℕ, ◌+◌, ◌≡◌, refl, sym, ap, Bool, true, not, List, [], ◌∷◌, ◌++◌, map, none, some, arith,
  leb, ◌==◌, if◌then◌else◌, Bool-cases, Option-cases, inl, inr, retain, lookup, insert, remove,
  lookup-insert, lookup-insert_same, lookup-remove,
}
use mathlib.Core.Path.{subst}
use claude_code_portal.SessionManager.Connections.{is_some}
use claude_code_portal.Scheduler.{
  PendingLaunch, PendingPrompt, RunningInfo, Scheduler, prompt_delay, is_ready, is_running,
  on_session_spawned, launched, ready_prompts, on_session_exited,
}

-- Every waiting prompt is for a session that runs.
abbrev pub AllRunning : List (ℕ × RunningInfo) → List PendingPrompt → Type 0
AllRunning running [] = Unit {0}
AllRunning running (p ∷ ps) = (is_some (lookup p.session_id running) ≡ true) × AllRunning running ps

abbrev pub IsSound : Scheduler → Type 0
IsSound s = AllRunning s.running s.pending_prompts

AllRunning-insert :
    (session : ℕ) (info : RunningInfo) (running : List (ℕ × RunningInfo)) (ps : List PendingPrompt)
    → AllRunning running ps
    → AllRunning (insert session info running) ps
AllRunning-insert session info running [] h = tt
AllRunning-insert session info running (p ∷ ps) h = (
  ground (arith, lookup-insert session p.session_id info running, h.0),
  AllRunning-insert session info running ps h.1,
)

AllRunning-append :
    (running : List (ℕ × RunningInfo)) (ps qs : List PendingPrompt)
    → AllRunning running ps
    → AllRunning running qs
    → AllRunning running (ps ++ qs)
AllRunning-append running [] qs h k = k
AllRunning-append running (p ∷ ps) qs h k = (h.0, AllRunning-append running ps qs h.1 k)

AllRunning-retain :
    (keep : PendingPrompt → Bool) (running : List (ℕ × RunningInfo)) (ps : List PendingPrompt)
    → AllRunning running ps
    → AllRunning running (retain keep ps)
AllRunning-retain keep running [] h = tt
AllRunning-retain keep running (p ∷ ps) h = elim (Bool-cases (keep p)) [
  | inl e ↦ rw e (h.0, AllRunning-retain keep running ps h.1)
  | inr e ↦ rw e (AllRunning-retain keep running ps h.1)
]

AllRunning-remove :
    (session : ℕ) (running : List (ℕ × RunningInfo)) (ps : List PendingPrompt)
    → AllRunning running ps
    → AllRunning (remove session running) (retain (λ p. not (p.session_id == session)) ps)
AllRunning-remove session running [] h = tt
AllRunning-remove session running (p ∷ ps) h = elim (Bool-cases (p.session_id == session)) [
  | inl e ↦ rw e (AllRunning-remove session running ps h.1)
  | inr e ↦ rw e (
    ground (arith, lookup-remove session p.session_id running, h.0, e),
    AllRunning-remove session running ps h.1,
  )
]

pub on_session_spawned-launched :
    (s : Scheduler) (request session now : ℕ) (pending : PendingLaunch)
    → lookup request s.pending_launches ≡ some pending
    → on_session_spawned s request session now ≡ launched s request session pending now
unfolding on_session_spawned
on_session_spawned-launched s request session now pending e = rw (e, on_session_spawned) refl

pub on_session_spawned_unknown :
    (s : Scheduler) (request session now : ℕ)
    → lookup request s.pending_launches ≡ none
    → on_session_spawned s request session now ≡ s
unfolding on_session_spawned
on_session_spawned_unknown s request session now e = rw (e, on_session_spawned) refl

launched-IsSound :
    (s : Scheduler) (request session now : ℕ) (pending : PendingLaunch)
    → IsSound s
    → IsSound (launched s request session pending now)
unfolding launched
launched-IsSound s request session now pending h =
    AllRunning-append _ s.pending_prompts _
      (AllRunning-insert session _ s.running s.pending_prompts h)
      (ap is_some (lookup-insert_same session _ s.running), tt)

pub on_session_spawned-IsSound :
    (s : Scheduler) (request session now : ℕ)
    → IsSound s
    → IsSound (on_session_spawned s request session now)
on_session_spawned-IsSound s request session now h =
    elim (Option-cases (lookup request s.pending_launches)) [
      | inl e ↦ subst IsSound (sym (on_session_spawned_unknown s request session now e)) h
      | inr (pending, e) ↦
          subst IsSound (sym (on_session_spawned-launched s request session now pending e))
            (launched-IsSound s request session now pending h)
    ]

-- Every prompt that is given out, a session with its task and text, is for a session that runs.
abbrev pub AllFor : List (ℕ × RunningInfo) → List (ℕ × ℕ × String) → Type 0
AllFor running [] = Unit {0}
AllFor running (t ∷ ts) = (is_some (lookup t.0 running) ≡ true) × AllFor running ts

AllFor-map :
    (running : List (ℕ × RunningInfo)) (ps : List PendingPrompt)
    → AllRunning running ps
    → AllFor running (map (λ p. (p.session_id, p.task_id, p.prompt)) ps)
AllFor-map running [] h = tt
AllFor-map running (p ∷ ps) h = (h.0, AllFor-map running ps h.1)

nothing_left :
    (now : ℕ) (ps : List PendingPrompt)
    → retain (is_ready now) (retain (λ p. not (is_ready now p)) ps) ≡ []
nothing_left now [] = refl
nothing_left now (p ∷ ps) = elim (Bool-cases (is_ready now p)) [
  | inl e ↦ rw e (nothing_left now ps)
  | inr e ↦ rw (e, e) (nothing_left now ps)
]

-- Starting a session, ending one and taking the ready prompts keep every waiting prompt with a session
-- that runs; every prompt that `ready_prompts` gives out is for a session that runs; and a second call at
-- the same time gives out none.
pub IsSound-kept :
    (s : Scheduler) (request session now : ℕ)
    → IsSound s
    → IsSound (on_session_spawned s request session now)
      × IsSound (on_session_exited s session).0
      × IsSound (ready_prompts s now).0
      × AllFor s.running (ready_prompts s now).1
      × ((ready_prompts (ready_prompts s now).0 now).1 ≡ [])
unfolding on_session_exited ready_prompts
IsSound-kept s request session now h = (
  on_session_spawned-IsSound s request session now h,
  AllRunning-remove session s.running s.pending_prompts h,
  AllRunning-retain (λ p. not (is_ready now p)) s.running s.pending_prompts h,
  AllFor-map s.running (retain (is_ready now) s.pending_prompts)
      (AllRunning-retain (is_ready now) s.running s.pending_prompts h),
  ap (map (λ p. (p.session_id, p.task_id, p.prompt))) (nothing_left now s.pending_prompts),
)

taken : PendingPrompt → ℕ × ℕ × String
taken p = (p.session_id, p.task_id, p.prompt)

taken-append :
    (later : ℕ) (ps : List PendingPrompt) (q : PendingPrompt)
    → map taken (retain (is_ready later) (ps ++ q ∷ []))
      ≡ map taken (retain (is_ready later) ps) ++ (if leb q.send_at later then taken q ∷ [] else [])
taken-append later [] q = ground arith
taken-append later (p ∷ ps) q = elim (Bool-cases (is_ready later p)) [
  | inl e ↦ rw e (ap (◌∷◌ (taken p)) (taken-append later ps q))
  | inr e ↦ rw e (taken-append later ps q)
]

is_running-insert :
    (session : ℕ) (info : RunningInfo) (running : List (ℕ × RunningInfo))
    → is_running (insert session info running) info.task_id ≡ true
is_running-insert session info [] = ground arith
is_running-insert session info ((k, r) ∷ rs) = ground (arith, is_running-insert session info rs)

launched-ready_prompts :
    (s : Scheduler) (request session now later : ℕ) (pending : PendingLaunch)
    → (ready_prompts (launched s request session pending now) later).1
      ≡ (ready_prompts s later).1
        ++ (if leb (now + prompt_delay) later
            then (session, pending.task_id, pending.prompt) ∷ []
            else [])
unfolding ready_prompts launched taken
launched-ready_prompts s request session now later pending = taken-append later s.pending_prompts _

launched-is_running :
    (s : Scheduler) (request session now : ℕ) (pending : PendingLaunch)
    → is_running (launched s request session pending now).running pending.task_id ≡ true
unfolding launched
launched-is_running s request session now pending = is_running-insert session _ s.running

launched-on_session_spawned :
    (s : Scheduler) (request session now later : ℕ) (pending : PendingLaunch)
    → on_session_spawned (launched s request session pending now) request session later
      ≡ launched s request session pending now
unfolding launched
launched-on_session_spawned s request session now later pending =
    on_session_spawned_unknown _ request session later
      (ground (arith, lookup-remove request request s.pending_launches))

-- A session that is spawned for a pending launch runs under the launch's task; its prompt is taken by
-- `ready_prompts` from five seconds later on, behind those that waited before, and not earlier; and the
-- launch is not pending any more, so that a second answer for the same request changes nothing.
pub on_session_spawned_prompt :
    (s : Scheduler) (request session now later : ℕ) (pending : PendingLaunch)
    → lookup request s.pending_launches ≡ some pending
    → let s' = on_session_spawned s request session now in
      ((ready_prompts s' later).1
        ≡ (ready_prompts s later).1
          ++ (if leb (now + prompt_delay) later
              then (session, pending.task_id, pending.prompt) ∷ []
              else []))
      × (is_running s'.running pending.task_id ≡ true)
      × (on_session_spawned s' request session later ≡ s')
on_session_spawned_prompt s request session now later pending e =
    rw (on_session_spawned-launched s request session now pending e) (
      launched-ready_prompts s request session now later pending,
      launched-is_running s request session now pending,
      launched-on_session_spawned s request session now later pending,
    )
