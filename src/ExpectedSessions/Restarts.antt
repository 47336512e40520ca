-- ===== src/ExpectedSessions/Restarts.antt =====
-- How often launcher/src/connection.rs restarts a session.
use mathlib.Core.Path.{subst}
use claude_code_portal.Prelude.{
  ℕ, suc, ◌+◌, ◌-◌, ◌≤◌, ◌<◌, ◌%◌, ◌^◌, ◌≡◌, String, true, List, [], ◌∷◌, Option, none, some, inl,
  inr, arith, Bool-cases, Option-cases, if◌then◌else◌, leb, find, length,
}
use claude_code_portal.Prelude.TextMap.{insert, lookup-insert}
use package.text.Mathlib.TextEquality.{eq_iff}
use text.Mathlib.Text.{◌==◌ as str_eq}
use claude_code_portal.ExpectedSessions.{
  ExpectedSession, Expectations, max_restart_attempts, restarts_of, forget, is_clean, on_exit,
}

-- The exits of a connection: the directory, if the manager knows the session, and the exit code.
unfoldable pub run_exits :
    Expectations → List (Option String × Option ℕ) → Expectations × List ExpectedSession
run_exits x [] = (x, [])
run_exits x ((dir, code) ∷ exits) =
    let (x', restart) = on_exit x dir code in
    let (x'', more) = run_exits x' exits in (x'', elim restart [ none ↦ more | some s ↦ s ∷ more ])

abbrev pub count_of : String → List ExpectedSession → ℕ
count_of dir [] = 0
count_of dir (s ∷ sessions) =
    if str_eq s.working_directory dir then suc (count_of dir sessions) else count_of dir sessions

find-directory :
    (dir : String) (sessions : List ExpectedSession) (s : ExpectedSession)
    → find (λ (s : ExpectedSession). str_eq s.working_directory dir) sessions ≡ some s
    → str_eq s.working_directory dir ≡ true
find-directory dir [] s e = ground (arith, e)
find-directory dir (x ∷ sessions) s e = ground (arith, e, find-directory dir sessions s)

abbrev is_for : String → Option ExpectedSession → ℕ
is_for dir none = 0
is_for dir (some s) = if str_eq s.working_directory dir then 1 else 0

-- A count that goes to a directory is that of no other.
restarts_of-insert :
    (x : Expectations) (d dir : String) (count : ℕ)
    → restarts_of (record x { restart_counts = insert d count x.restart_counts }) dir
      ≡ (if str_eq d dir then count else restarts_of x dir)
restarts_of-insert x d dir count = ground (arith, lookup-insert d dir count x.restart_counts)

on_exit_counts :
    (x : Expectations) (d : Option String) (code : Option ℕ) (dir : String)
    → ((d' : String) → restarts_of x d' + 1 < 2 ^ 32)
    → (let out = on_exit x d code in
        (is_for dir out.1 + (max_restart_attempts - restarts_of out.0 dir)
          ≤ max_restart_attempts - restarts_of x dir)
        × (((d' : String) → restarts_of out.0 d' ≤ restarts_of x d' + 1)))
unfolding on_exit forget
on_exit_counts x none code dir bound = (ground arith, λ d'. ground arith)
on_exit_counts x (some d) code dir bound = elim (Bool-cases (is_clean code)) [
  | inl clean ↦ rw clean (ground arith, λ d'. ground arith)
  | inr fails ↦
      elim (Option-cases
        (find (λ (s : ExpectedSession). str_eq s.working_directory d) x.expected_sessions)) [
          | inl e ↦ rw (fails, e) (ground arith, λ d'. ground arith)
          | inr (s, e) ↦
              let c = (restarts_of x d + 1) % 2 ^ 32 in
              elim (Bool-cases (leb c max_restart_attempts)) [
                | inl few ↦
                    rw (fails, e, few)
                      (
                        ground (
                          arith,
                          few,
                          bound d,
                          find-directory d x.expected_sessions s e,
                          restarts_of-insert x d dir c,
                          eq_iff d dir,
                          eq_iff s.working_directory d,
                          eq_iff s.working_directory dir,
                        ),
                        λ d'. ground (arith, bound d, restarts_of-insert x d d' c, eq_iff d d'),
                      )
                | inr many ↦
                    rw (fails, e, many)
                      (
                        ground (arith, many, bound d, restarts_of-insert x d dir c, eq_iff d dir),
                        λ d'. ground (arith, bound d, restarts_of-insert x d d' c, eq_iff d d'),
                      )
              ]
        ]
]

run_exits_counts :
    (x : Expectations) (exits : List (Option String × Option ℕ)) (dir : String)
    → ((d : String) → restarts_of x d + length exits < 2 ^ 32)
    → count_of dir (run_exits x exits).1 ≤ max_restart_attempts - restarts_of x dir
unfolding run_exits
run_exits_counts x [] dir bound = ground arith
run_exits_counts x ((d, code) ∷ exits) dir bound =
    let out = on_exit x d code in
    let (own, rise) = on_exit_counts x d code dir (λ d'. ground (arith, bound d')) in
    let later = run_exits_counts out.0 exits dir (λ d'. ground (arith, bound d', rise d')) in
    elim (Option-cases out.1) [
      | inl e ↦ rw (e, run_exits) (ground (arith, own, later))
      | inr (s, e) ↦
          let own' : is_for dir (some s) + (max_restart_attempts - restarts_of out.0 dir)
              ≤ max_restart_attempts - restarts_of x dir =
            subst
              (λ o.
                is_for dir o + (max_restart_attempts - restarts_of out.0 dir)
                ≤ max_restart_attempts - restarts_of x dir)
              e own in
          rw (e, run_exits) (ground (arith, own', later))
    ]

-- However often and however the sessions of a launcher exit while it is connected, it restarts the session of
-- a directory three times at most. The number of exits is one that a u32 holds.
pub run_exits_bounded :
    (expected : List ExpectedSession) (exits : List (Option String × Option ℕ)) (dir : String)
    → length exits < 2 ^ 32
    → count_of dir
        (run_exits (record { expected_sessions = expected; restart_counts = [] }) exits).1
      ≤ 3
run_exits_bounded expected exits dir few =
    run_exits_counts (record { expected_sessions = expected; restart_counts = [] }) exits dir
      (λ d. ground (arith, few))
