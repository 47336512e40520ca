-- ===== src/ExpectedSessions.antt =====
-- The sessions that a launcher is to keep running: launcher/src/connection.rs, what it asks for when it has
-- registered, and what it does when one of its sessions exits. The file of expected sessions, from which
-- `config::remove_session` removes the same directories, is left out.
pub mod Restarts
mod Tests
use claude_code_portal.Prelude.{
  ℕ, ◌+◌, ◌%◌, ◌^◌, String, Bool, true, false, not, List, [], ◌∷◌, Option, none, some, leb, ◌==◌,
  if◌then◌else◌, any, find, retain,
}
use claude_code_portal.Prelude.TextMap.{lookup, insert}
use text.Mathlib.Text.{◌==◌ as str_eq}
use claude_code_portal.Protocol.{AgentType}

-- MAX_RESTART_ATTEMPTS.
abbrev pub max_restart_attempts : ℕ
max_restart_attempts = 3

pub record ExpectedSession : Type 0 where
  pub working_directory : String
  pub session_name : Option String
  pub claude_args : List String
  pub agent_type : AgentType

-- `restart_counts` is new at each connection.
pub record Expectations : Type 0 where
  pub expected_sessions : List ExpectedSession
  pub restart_counts : List (String × ℕ)

-- What is asked for after the registration, while the socket takes it: the sessions in whose directory none
-- runs.
unfoldable pub reconcile : List ExpectedSession → List String → List ExpectedSession
reconcile expected running_dirs =
    retain (λ s. not (any (str_eq s.working_directory) running_dirs)) expected

unfoldable pub forget : Expectations → String → Expectations
forget x dir = record x {
  expected_sessions = retain (λ s. not (str_eq s.working_directory dir)) x.expected_sessions;
}

abbrev pub restarts_of : Expectations → String → ℕ
restarts_of x dir = elim (lookup dir x.restart_counts) [ none ↦ 0 | some n ↦ n ]

abbrev pub is_clean : Option ℕ → Bool
is_clean none = false
is_clean (some code) = code == 0

-- The exit of a session whose directory is known: the session whose restart is scheduled, if any.
unfoldable pub on_exit :
    Expectations → Option String → Option ℕ → Expectations × Option ExpectedSession
unfolding forget
on_exit x none code = (x, none)
on_exit x (some dir) code =
    if is_clean code
    then (forget x dir, none)
    else elim (find (λ s. str_eq s.working_directory dir) x.expected_sessions) [
      | none ↦ (x, none)
      | some expected ↦
          let count = (restarts_of x dir + 1) % 2 ^ 32 in
          let x' = record x { restart_counts = insert dir count x.restart_counts } in
          if leb count max_restart_attempts then (x', some expected) else (forget x' dir, none)
    ]
