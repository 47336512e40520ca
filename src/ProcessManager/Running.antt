-- ===== src/ProcessManager/Running.antt =====
-- How many sessions a launcher runs, as launcher/src/process_manager.rs starts and stops them.
use mathlib.Core.Option.{some-injective}
use mathlib.Core.Path.{subst}
use claude_code_portal.Prelude.{
  ℕ, suc, ◌≤◌, ◌<◌, ◌≡◌, ◌≢◌, refl, sym, ap, ◌∙◌, Bool, true, false, not, List, [], ◌∷◌, ◌++◌, none,
  some, inl, inr, arith, ◌==◌, length, lookup, insert, remove, retain, find, any, Bool-cases,
  Option-cases, lookup-insert, lookup-insert_same, lookup-remove, String, leb, ◌⊎◌, if◌then◌else◌,
}
use claude_code_portal.ProcessManager.{
  ManagedTask, Launcher, LauncherEvent, launches, stops, finishes, takes_exit, SpawnParams,
  Surroundings, Task, spawn, stop, remove_finished, config_for, finish, started, step, run,
  new_manager,
}
use claude_code_portal.ProcessManager.Cap.{run_keeps_within_limit, length-remove-le, finish-manager}

abbrev pub AllFor : {A : Type 0} → (A → Type 0) → List A → Type 0
AllFor P [] = Unit {0}
AllFor P (x ∷ xs) = P x × AllFor P xs

module _ {A : Type 0} (P Q : A → Type 0) where
  for_append : (x : A) (xs : List A) → AllFor P xs → P x → AllFor P (xs ++ x ∷ [])
  for_append x [] h p = (p, tt)
  for_append x (y ∷ xs) h p = (h.0, for_append x xs h.1 p)

  for_map : (xs : List A) → ((x : A) → P x → Q x) → AllFor P xs → AllFor Q xs
  for_map [] f h = tt
  for_map (x ∷ xs) f h = (f x h.0, for_map xs f h.1)

  for_retain :
      (keep : A → Bool) (xs : List A)
      → ((x : A) → keep x ≡ true → P x → Q x)
      → AllFor P xs
      → AllFor Q (retain keep xs)
  for_retain keep [] f h = tt
  for_retain keep (x ∷ xs) f h = elim (Bool-cases (keep x)) [
    | inl e ↦ rw e (f x e h.0, for_retain keep xs f h.1)
    | inr e ↦ rw e (for_retain keep xs f h.1)
  ]

  for_find :
      (p : A → Bool) (x : A) (xs : List A) → AllFor P xs → find p xs ≡ some x → P x × (p x ≡ true)
  for_find p x [] h e = cc
  for_find p x (y ∷ xs) h e = elim (Bool-cases (p y)) [
    | inl here ↦
        (let f = rw here at e in subst (λ z. P z × (p z ≡ true)) (some-injective y x f) (h.0, here))
    | inr other ↦ for_find p x xs h.1 (rw other at e)
  ]

-- No two running tasks are of one session.
abbrev Distinct : List Task → Type 0
Distinct [] = Unit {0}
Distinct (t ∷ ts) = AllFor (λ s. s.session_id ≢ t.session_id) ts × Distinct ts

-- The task is kept under its session with its handle, no notification of that session is waiting, and the id is
-- below `k`.
abbrev Kept : List (ℕ × ManagedTask) → List ℕ → ℕ → Task → Type 0
Kept tasks exits k t =
    ((u : ManagedTask) × (lookup t.session_id tasks ≡ some u) × (u.handle ≡ t.handle))
    × (any (λ id. id == t.session_id) exits ≡ false)
    × (t.session_id < k)

record Tidy (tasks : List (ℕ × ManagedTask)) (exits : List ℕ) (running : List Task) (k : ℕ)
    : Type 0 where
  kept : AllFor (Kept tasks exits k) running
  distinct : Distinct running
  known : AllFor (λ id. id < k) exits

abbrev TidyLauncher : Launcher → ℕ → Type 0
TidyLauncher l k = Tidy l.manager.tasks l.exit_rx l.running k

length-remove-lt :
    (id : ℕ) (u : ManagedTask) (tasks : List (ℕ × ManagedTask))
    → lookup id tasks ≡ some u
    → length (remove id tasks) < length tasks
length-remove-lt id u [] e = cc
length-remove-lt id u ((j, v) ∷ tasks) e = elim (Bool-cases (j == id)) [
  | inl here ↦ rw here (omega (arith, length-remove-le id tasks))
  | inr other ↦ rw other (omega (arith, length-remove-lt id u tasks (rw other at e)))
]

for_both :
    {A : Type 0} (P Q R : A → Type 0) (xs : List A)
    → ((x : A) → P x → Q x → R x)
    → AllFor P xs
    → AllFor Q xs
    → AllFor R xs
for_both P Q R [] f h g = tt
for_both P Q R (x ∷ xs) f h g = (f x h.0 g.0, for_both P Q R xs f h.1 g.1)

-- Removing another session's entry, and what of the notifications is left.
Kept-remove :
    (tasks : List (ℕ × ManagedTask)) (exits : List ℕ) (k id : ℕ) (s : Task)
    → Kept tasks exits k s
    → s.session_id ≢ id
    → Kept (remove id tasks) exits k s
Kept-remove tasks exits k id s ((u, e, f), waiting, below) apart =
    let no : (id == s.session_id) ≡ false = ground (arith, apart) in
    ((u, lookup-remove id s.session_id tasks ∙ rw no e, f), waiting, below)

-- Tasks of different sessions, each kept, are no more than what is kept.
Kept-length :
    (exits : List ℕ) (k : ℕ) (ts : List Task) (tasks : List (ℕ × ManagedTask))
    → AllFor (Kept tasks exits k) ts
    → Distinct ts
    → length ts ≤ length tasks
Kept-length exits k [] tasks h d = omega arith
Kept-length exits k (t ∷ ts) tasks h d =
    let rest =
      Kept-length exits k ts (remove t.session_id tasks)
        (for_both (Kept tasks exits k) (λ s. s.session_id ≢ t.session_id)
          (Kept (remove t.session_id tasks) exits k) ts
          (λ s. Kept-remove tasks exits k t.session_id s) h.1 d.0)
        d.1 in
    omega (arith, rest, length-remove-lt t.session_id h.0.0.0 tasks h.0.0.1)

-- Tasks with different handles are of different sessions, and of another session than an entry with another
-- handle.
Kept-apart :
    (tasks : List (ℕ × ManagedTask)) (exits : List ℕ) (k id : ℕ) (u : ManagedTask) (s : Task)
    → Kept tasks exits k s
    → lookup id tasks ≡ some u
    → (s.handle == u.handle) ≡ false
    → s.session_id ≢ id
Kept-apart tasks exits k id u s ((v, e, f), waiting, below) here other same =
    let both : some v ≡ some u = sym e ∙ ap (λ j. lookup j tasks) same ∙ here in
    let handles : s.handle ≡ u.handle = sym f ∙ ap (λ w. w.handle) (some-injective v u both) in
    absurd (ground (arith, other, handles))

Distinct-retain : (keep : Task → Bool) (ts : List Task) → Distinct ts → Distinct (retain keep ts)
Distinct-retain keep [] d = tt
Distinct-retain keep (t ∷ ts) d = elim (Bool-cases (keep t)) [
  | inl e ↦ rw e (for_retain _ _ keep ts (λ s same h. h) d.0, Distinct-retain keep ts d.1)
  | inr e ↦ rw e (Distinct-retain keep ts d.1)
]

Distinct-append :
    (t : Task) (ts : List Task)
    → Distinct ts
    → AllFor (λ s. t.session_id ≢ s.session_id) ts
    → Distinct (ts ++ t ∷ [])
Distinct-append t [] d h = (tt, tt)
Distinct-append t (s ∷ ts) d h = (
  for_append (λ r. r.session_id ≢ s.session_id) (λ r. Unit {0}) t ts d.0 h.0,
  Distinct-append t ts d.1 h.1,
)

any_append :
    (j x : ℕ) (ids : List ℕ)
    → any (λ id. id == j) ids ≡ false
    → (x == j) ≡ false
    → any (λ id. id == j) (ids ++ x ∷ []) ≡ false
any_append j x [] h e = ground (arith, e)
any_append j x (i ∷ ids) h e = ground (arith, h, any_append j x ids (ground (arith, h)) e)

-- Another task's handle.
abbrev Other : ℕ → Task → Type 0
Other h s = (s.handle == h) ≡ false

not_found :
    (h : ℕ) (ts : List Task) → find (λ (t : Task). t.handle == h) ts ≡ none → AllFor (Other h) ts
not_found h [] e = tt
not_found h (t ∷ ts) e = elim (Bool-cases (t.handle == h)) [
  | inl here ↦ (let f = rw here at e in cc)
  | inr other ↦ (other, not_found h ts (rw other at e))
]

others_left :
    (h : ℕ) (ts : List Task) → AllFor (Other h) (retain (λ (t : Task). not (t.handle == h)) ts)
others_left h [] = tt
others_left h (t ∷ ts) = elim (Bool-cases (t.handle == h)) [
  | inl here ↦ rw here (others_left h ts)
  | inr other ↦ rw other (other, others_left h ts)
]

Tidy-retain :
    (tasks : List (ℕ × ManagedTask)) (exits : List ℕ) (ts : List Task) (k : ℕ) (keep : Task → Bool)
    → Tidy tasks exits ts k
    → Tidy tasks exits (retain keep ts) k
Tidy-retain tasks exits ts k keep t = record {
  kept = for_retain _ _ keep ts (λ s same h. h) t.kept;
  distinct = Distinct-retain keep ts t.distinct;
  known = t.known;
}

-- A task that ends leaves the others as they are, and none with its handle.
finish-Tidy :
    (l : Launcher) (h k : ℕ)
    → TidyLauncher l k
    → Tidy l.manager.tasks (finish l h).exit_rx (finish l h).running k
      × AllFor (Other h) (finish l h).running
unfolding finish
finish-Tidy l h k t = elim (Option-cases (find (λ (t : Task). t.handle == h) l.running)) [
  | inl e ↦ rw (e, finish) (t, not_found h l.running e)
  | inr (task, e) ↦
      let (kept, same) =
        for_find (Kept l.manager.tasks l.exit_rx k) (λ x. Unit {0}) _ task l.running t.kept e in
      let ours : task.handle ≡ h = ground (arith, same) in
      rw (e, finish)
        (
          record {
            kept =
                for_retain (Kept l.manager.tasks l.exit_rx k) _ (λ (t : Task). not (t.handle == h))
                  l.running
                  (λ s left good.
                    let apart =
                      Kept-apart l.manager.tasks l.exit_rx k task.session_id kept.0.0 s good
                        kept.0.1 (ground (arith, left, ours, kept.0.2)) in
                    (
                      good.0,
                      any_append s.session_id task.session_id l.exit_rx good.1
                          (ground (arith, apart)),
                      good.2,
                    ))
                  t.kept;
            distinct = Distinct-retain _ l.running t.distinct;
            known =
                for_append (λ id. id < k) (λ x. Unit {0}) task.session_id l.exit_rx t.known kept.2;
          },
          others_left h l.running,
        )
]

-- The entry of a handle that no task has any more can go.
Tidy-remove :
    (tasks : List (ℕ × ManagedTask)) (exits : List ℕ) (ts : List Task) (k id : ℕ) (u : ManagedTask)
    → lookup id tasks ≡ some u
    → Tidy tasks exits ts k
    → AllFor (Other u.handle) ts
    → Tidy (remove id tasks) exits ts k
Tidy-remove tasks exits ts k id u e t others = record {
  kept =
      for_both (Kept tasks exits k) (Other u.handle) (Kept (remove id tasks) exits k) ts
        (λ s good other.
          Kept-remove tasks exits k id s good (Kept-apart tasks exits k id u s good e other))
        t.kept others;
  distinct = t.distinct;
  known = t.known;
}

-- A new id's entry changes nothing for the others.
Kept-insert :
    (tasks : List (ℕ × ManagedTask)) (exits : List ℕ) (k id : ℕ) (u : ManagedTask) (s : Task)
    → k ≤ id
    → Kept tasks exits k s
    → Kept (insert id u tasks) exits (suc id) s
Kept-insert tasks exits k id u s le ((v, e, f), waiting, below) =
    let no : (id == s.session_id) ≡ false = ground (arith, le, below) in
    ((v, lookup-insert id s.session_id u tasks ∙ rw no e, f), waiting, omega (arith, le, below))

fresh_exit :
    (k id : ℕ) (exits : List ℕ)
    → k ≤ id
    → AllFor (λ i. i < k) exits
    → any (λ i. i == id) exits ≡ false
fresh_exit k id [] le h = refl
fresh_exit k id (i ∷ exits) le h = ground (arith, le, h.0, fresh_exit k id exits le h.1)

-- A task under a new id.
Tidy-insert :
    (tasks : List (ℕ × ManagedTask)) (exits : List ℕ) (ts : List Task) (k id : ℕ) (u : ManagedTask)
    → k ≤ id
    → Tidy tasks exits ts k
    → Tidy
        (insert id u tasks)
        exits
        (ts ++ record { session_id = id; handle = u.handle } ∷ [])
        (suc id)
Tidy-insert tasks exits ts k id u le t =
    let task : Task = record { session_id = id; handle = u.handle } in
    record {
      kept =
          for_append (Kept (insert id u tasks) exits (suc id)) (λ x. Unit {0}) task ts
            (for_map (Kept tasks exits k) _ ts (λ s. Kept-insert tasks exits k id u s le) t.kept)
            (
              (u, lookup-insert_same id u tasks, refl),
              fresh_exit k id exits le t.known,
              omega arith,
            );
      distinct = Distinct-append task ts t.distinct (
          for_map (Kept tasks exits k) _ ts
            (λ s good same. absurd (omega (arith, le, good.2, same))) t.kept);
      known = for_map (λ i. i < k) _ exits (λ i lt. omega (arith, lt, le)) t.known;
    }

-- Launches are of new sessions: each has an id that is above all earlier ones, and none is resumed.
abbrev pub AllFresh : ℕ → List LauncherEvent → Type 0
AllFresh k [] = Unit {0}
AllFresh k (launches p w ∷ events) =
    (p.resume_session_id ≡ none) × (k ≤ w.new_id) × AllFresh (suc w.new_id) events
AllFresh k (e ∷ events) = AllFresh k events

-- A higher bound on the ids.
Tidy-later :
    (tasks : List (ℕ × ManagedTask)) (exits : List ℕ) (ts : List Task) (k n : ℕ)
    → k ≤ n
    → Tidy tasks exits ts k
    → Tidy tasks exits ts n
Tidy-later tasks exits ts k n le t = record {
  kept =
      for_map (Kept tasks exits k) _ ts (λ s good. (good.0, good.1, omega (arith, good.2, le)))
        t.kept;
  distinct = t.distinct;
  known = for_map (λ i. i < k) _ exits (λ i lt. omega (arith, lt, le)) t.known;
}

module _ (l : Launcher) (p : SpawnParams) (w : Surroundings) where
  entry : ManagedTask
  entry = record { handle = w.new_handle; working_directory = p.working_directory }

  spawned :
      leb l.manager.max_sessions (length l.manager.tasks) ≡ false
      → w.is_dir p.working_directory ≡ true
      → p.resume_session_id ≡ none
      → spawn l.manager p w ≡ (
        record l.manager { tasks = insert w.new_id entry l.manager.tasks },
        inr (config_for l.manager p w),
      )
  unfolding spawn config_for entry
  spawned room exists new = rw (room, exists, new) refl

  -- A launch that is refused changes nothing, and another starts a task.
  launched :
      p.resume_session_id ≡ none
      → (step l (launches p w) ≡ l)
        ⊎ (step l (launches p w) ≡ record l {
          manager = record l.manager { tasks = insert w.new_id entry l.manager.tasks };
          running = l.running ++ record { session_id = w.new_id; handle = w.new_handle } ∷ [];
        })
  unfolding step spawn started config_for entry
  launched new = elim (Bool-cases (leb l.manager.max_sessions (length l.manager.tasks))) [
    | inl full ↦ inl (rw (full, spawn, started, step) refl)
    | inr room ↦ elim (Bool-cases (w.is_dir p.working_directory)) [
      | inr missing ↦ inl (rw (room, missing, spawn, started, step) refl)
      | inl exists ↦ inr (ap (started l w) (spawned room exists new) ∙ rw new refl)
    ]
  ]

  launch-Tidy :
      (k : ℕ)
      → p.resume_session_id ≡ none
      → k ≤ w.new_id
      → TidyLauncher l k
      → TidyLauncher (step l (launches p w)) (suc w.new_id)
  unfolding entry
  launch-Tidy k new le t = elim (launched new) [
    | inl same ↦
        subst (λ x. TidyLauncher x (suc w.new_id)) (sym same)
          (Tidy-later l.manager.tasks l.exit_rx l.running k (suc w.new_id) (omega (arith, le)) t)
    | inr more ↦
        subst (λ x. TidyLauncher x (suc w.new_id)) (sym more)
          (Tidy-insert l.manager.tasks l.exit_rx l.running k w.new_id entry le t)
  ]

module _ (l : Launcher) (id : ℕ) where
  -- The launcher without the entry.
  without : Launcher
  without = record l { manager = record l.manager { tasks = remove id l.manager.tasks } }

  stop_nothing : (aborted : Bool) → lookup id l.manager.tasks ≡ none → step l (stops id aborted) ≡ l
  unfolding step stop
  stop_nothing aborted e = rw (e, stop, step) refl

  stop_task :
      (u : ManagedTask) (aborted : Bool)
      → lookup id l.manager.tasks ≡ some u
      → step l (stops id aborted) ≡ (
          if aborted
          then record without { running = retain (λ t. not (t.handle == u.handle)) l.running }
          else finish without u.handle)
  unfolding step stop without
  stop_task u aborted e = simp (e, stop, step) refl

  finish-without :
      (h : ℕ)
      → finish without h
        ≡ record (finish l h) { manager = record l.manager { tasks = remove id l.manager.tasks } }
  unfolding finish without
  finish-without h = elim (Option-cases (find (λ (t : Task). t.handle == h) l.running)) [
    | inl e ↦ rw (e, finish) refl
    | inr (task, e) ↦ rw (e, finish) refl
  ]

  stop-Tidy :
      (k : ℕ) (aborted : Bool) → TidyLauncher l k → TidyLauncher (step l (stops id aborted)) k
  unfolding without
  stop-Tidy k aborted t = elim (Option-cases (lookup id l.manager.tasks)) [
    | inl e ↦ subst (λ x. TidyLauncher x k) (sym (stop_nothing aborted e)) t
    | inr (u, e) ↦
        subst (λ x. TidyLauncher x k) (sym (stop_task u aborted e))
          (elim aborted
            as (λ b.
              TidyLauncher
                (if b
                  then record without {
                    running = retain (λ t. not (t.handle == u.handle)) l.running;
                  }
                  else finish without u.handle)
                k) [
                  | true ↦
                      Tidy-remove l.manager.tasks l.exit_rx
                        (retain (λ (t : Task). not (t.handle == u.handle)) l.running) k id u e
                        (Tidy-retain l.manager.tasks l.exit_rx l.running k _ t)
                        (others_left u.handle l.running)
                  | false ↦
                      (let (ended, others) = finish-Tidy l u.handle k t in
                        subst (λ x. TidyLauncher x k) (sym (finish-without u.handle))
                          (Tidy-remove l.manager.tasks (finish l u.handle).exit_rx
                            (finish l u.handle).running k id u e ended others))
                ])
  ]

exit-Tidy :
    (tasks : List (ℕ × ManagedTask)) (id : ℕ) (rest : List ℕ) (ts : List Task) (k : ℕ)
    → Tidy tasks (id ∷ rest) ts k
    → Tidy (remove id tasks) rest ts k
exit-Tidy tasks id rest ts k t = record {
  kept =
      for_map (Kept tasks (id ∷ rest) k) (Kept (remove id tasks) rest k) ts
        (λ s good.
          Kept-remove tasks rest k id s (good.0, ground (arith, good.1), good.2)
            (λ same. absurd (ground (arith, good.1, same))))
        t.kept;
  distinct = t.distinct;
  known = t.known.1;
}

ended-Tidy : (l : Launcher) (h k : ℕ) → TidyLauncher l k → TidyLauncher (step l (finishes h)) k
unfolding step
ended-Tidy l h k t =
    subst (λ m. Tidy m.tasks (finish l h).exit_rx (finish l h).running k) (sym (finish-manager l h))
      (finish-Tidy l h k t).0

taken-Tidy : (l : Launcher) (k : ℕ) → TidyLauncher l k → TidyLauncher (step l takes_exit) k
unfolding step remove_finished
taken-Tidy l k t =
    elim l.exit_rx
        as (λ ids.
          Tidy l.manager.tasks ids l.running k
          → TidyLauncher (step (record l { exit_rx = ids }) takes_exit) k) [
            | [] ↦ λ t. t
            | id ∷ rest ↦ λ t. exit-Tidy l.manager.tasks id rest l.running k t
          ]
      t

run-Tidy :
    (l : Launcher) (events : List LauncherEvent) (k : ℕ)
    → AllFresh k events
    → TidyLauncher l k
    → (n : ℕ) × TidyLauncher (run l events) n
unfolding run
run-Tidy l [] k f t = (k, t)
run-Tidy l (launches p w ∷ events) k (new, le, f) t =
    run-Tidy (step l (launches p w)) events (suc w.new_id) f (launch-Tidy l p w k new le t)
run-Tidy l (stops id aborted ∷ events) k f t =
    run-Tidy (step l (stops id aborted)) events k f (stop-Tidy l id k aborted t)
run-Tidy l (finishes h ∷ events) k f t =
    run-Tidy (step l (finishes h)) events k f (ended-Tidy l h k t)
run-Tidy l (takes_exit ∷ events) k f t = run-Tidy (step l takes_exit) events k f (taken-Tidy l k t)

-- While no session is resumed and each has a new id, whatever a launcher is told to start and stop and
-- whenever its sessions end, it runs at most as many sessions as its limit.
pub run_within_limit :
    (backend_url : String) (limit : ℕ) (events : List LauncherEvent)
    → AllFresh 0 events
    → length
        (run
          (record { manager = new_manager backend_url limit; running = []; exit_rx = [] })
          events).running
      ≤ limit
unfolding new_manager
run_within_limit backend_url limit events f =
    let l : Launcher = record {
      manager = new_manager backend_url limit;
      running = [];
      exit_rx = [];
    } in
    let (n, t) = run-Tidy l events 0 f (record { kept = tt; distinct = tt; known = tt }) in
    omega (
      arith,
      Kept-length (run l events).exit_rx n (run l events).running (run l events).manager.tasks
          t.kept t.distinct,
      run_keeps_within_limit backend_url limit events,
    )
