-- ===== src/Reconnection.antt =====
-- The reconnection loop of claude-session-lib/src/proxy_session/mod.rs. What one connection comes to is an `Attempt`; saving the output buffer between two
-- attempts is `OutputBuffer.persist`. Durations and instants are in nanoseconds, the backoff in seconds.
pub mod Delays
mod Tests
use claude_code_portal.Prelude.{
  ℕ, ◌+◌, ◌-◌, ◌*◌, ◌/◌, ◌%◌, min, Bool, true, false, not, ◌&&◌, List, [], ◌∷◌, Option, none, some,
  ltb, leb, if◌then◌else◌,
}
use claude_code_portal.Protocol.{second, max_reconnect_backoff_secs}
use claude_code_portal.OutputBuffer.{u64_mod}

pub record Backoff : Type 0 where
  pub current : ℕ
  pub initial : ℕ
  pub max : ℕ
  pub multiplier : ℕ
  pub stable_threshold : ℕ

unfoldable pub new_backoff : Backoff
new_backoff = record {
  current = 1;
  initial = 1;
  max = max_reconnect_backoff_secs;
  multiplier = 2;
  stable_threshold = 30;
}

unfoldable pub advance : Backoff → Backoff
advance b = record b { current = min (b.current * b.multiplier % u64_mod) b.max }

unfoldable pub reset : Backoff → Backoff
reset b = record b { current = b.initial }

unfoldable pub reset_if_stable : Backoff → ℕ → Backoff
unfolding reset
reset_if_stable b duration = if leb b.stable_threshold (duration / second) then reset b else b

unfoldable pub sleep_duration : Backoff → ℕ
sleep_duration b = b.current * second

pub data ConnectionResult : Type 0 where
  claude_exited session_not_found session_terminated : ConnectionResult
  disconnected : (duration : ℕ) → ConnectionResult
  server_shutdown : (delay : ℕ) → ConnectionResult

pub data LoopResult : Type 0 where
  normal_exit session_not_found : LoopResult

-- The fields of `SessionState` that the loop changes.
pub record SessionState : Type 0 where
  pub backoff : Backoff
  pub first_connection : Bool
  pub disconnected_at : Option ℕ
  pub last_disconnect_graceful : Bool

-- `restored`: the connection was registered and its first messages went out.
pub record Attempt : Type 0 where
  pub result : ConnectionResult
  pub restored : Bool
  pub ended_at : ℕ

pub data Next : Type 0 where
  sleeps : (duration : ℕ) → Next
  stops : LoopResult → Next

unfoldable pub new_state : SessionState
new_state = record {
  backoff = new_backoff;
  first_connection = true;
  disconnected_at = none;
  last_disconnect_graceful = false;
}

-- `get_or_insert`.
abbrev pub get_or_insert : Option ℕ → ℕ → Option ℕ
get_or_insert none now = some now
get_or_insert (some t) now = some t

-- What `run_single_connection` leaves in the state, and `first_connection = false`.
unfoldable pub connected : SessionState → Attempt → SessionState
connected s a = record s {
  disconnected_at = if a.restored && not s.first_connection then none else s.disconnected_at;
  first_connection = false;
}

unfoldable pub after_connection : SessionState → ConnectionResult → ℕ → SessionState × Next
unfolding reset reset_if_stable advance sleep_duration
after_connection s claude_exited now = (s, stops normal_exit)
after_connection s session_not_found now = (s, stops session_not_found)
after_connection s session_terminated now = (s, stops normal_exit)
after_connection s (disconnected duration) now =
    let backoff = reset_if_stable s.backoff duration in
    (
      record s {
        disconnected_at = get_or_insert s.disconnected_at now;
        last_disconnect_graceful = false;
        backoff = advance backoff;
      },
      sleeps (sleep_duration backoff),
    )
after_connection s (server_shutdown delay) now = (
  record s {
    disconnected_at = get_or_insert s.disconnected_at now;
    last_disconnect_graceful = true;
    backoff = reset s.backoff;
  },
  sleeps delay,
)

-- The loop over the attempts made: the durations that it sleeps, and its result once it returns.
unfoldable pub run_connection_loop :
    SessionState → List Attempt → SessionState × List ℕ × Option LoopResult
unfolding connected after_connection
run_connection_loop s [] = (s, [], none)
run_connection_loop s (a ∷ attempts) =
    let (s', next) = after_connection (connected s a) a.result a.ended_at in
    let rest = run_connection_loop s' attempts in
    elim next [ stops r ↦ (s', [], some r) | sleeps d ↦ (rest.0, d ∷ rest.1, rest.2) ]
