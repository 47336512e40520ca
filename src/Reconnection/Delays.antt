-- ===== src/Reconnection/Delays.antt =====
-- How long the loop sleeps.
use claude_code_portal.Prelude.{
  ℕ, zero, suc, ◌*◌, ◌/◌, ◌^◌, ◌<◌, min, ◌≡◌, refl, ap, ◌∙◌, Bool, false, List, [], ◌∷◌, map, leb,
  lt→leb_false, arith, if◌then◌else◌, ◌%◌, length,
}
use claude_code_portal.Protocol.{second}
use claude_code_portal.Reconnection.{
  Backoff, new_backoff, advance, reset_if_stable, reset, sleep_duration, disconnected, SessionState,
  Attempt, new_state, connected, after_connection, run_connection_loop,
}

-- The backoff after `n` advances from the start.
abbrev pub backoff_after : ℕ → Backoff
backoff_after n = record {
  current = min (2 ^ n) 30;
  initial = 1;
  max = 30;
  multiplier = 2;
  stable_threshold = 30;
}

capped : (p q : ℕ) → q ≡ p * 2 → min (min p 30 * 2 % 18446744073709551616) 30 ≡ min q 30
capped p q e = omega arith

doubles : (n : ℕ) → 2 ^ suc n ≡ 2 ^ n * 2
doubles n = omega arith

advance-backoff_after : (n : ℕ) → advance (backoff_after n) ≡ backoff_after (suc n)
unfolding advance
advance-backoff_after n =
    let e : min (min (2 ^ n) 30 * 2 % 18446744073709551616) 30 ≡ min (2 ^ suc n) 30 =
      capped (2 ^ n) (2 ^ suc n) (doubles n) in
    ap (λ c. record (backoff_after n) { current = c }) e

-- A disconnection after less than thirty seconds.
abbrev pub short : ℕ × Bool × ℕ → Attempt
short (duration, restored, at) = record {
  result = disconnected duration;
  restored = restored;
  ended_at = at;
}

abbrev pub AllShort : List (ℕ × Bool × ℕ) → Type 0
AllShort [] = Unit {0}
AllShort ((duration, restored, at) ∷ ds) = (duration < 30 * second) × AllShort ds

-- `min (2 ^ k) 30` seconds for each `k` from `n` on.
abbrev pub delays : ℕ → ℕ → List ℕ
delays n zero = []
delays n (suc k) = min (2 ^ n) 30 * second ∷ delays (suc n) k

below : (d : ℕ) → d < 30 * 1000000000 → d / 1000000000 < 30
below d h = omega arith

reset_if_stable-short :
    (n duration : ℕ)
    → duration < 30 * second
    → reset_if_stable (backoff_after n) duration ≡ backoff_after n
unfolding reset_if_stable
reset_if_stable-short n duration h =
    let e : leb 30 (duration / second) ≡ false =
      lt→leb_false 30 (duration / second) (below duration h) in
    ap (λ c. if c then reset (backoff_after n) else backoff_after n) e

run_connection_loop-short :
    (s : SessionState) (n : ℕ) (ds : List (ℕ × Bool × ℕ))
    → s.backoff ≡ backoff_after n
    → AllShort ds
    → (run_connection_loop s (map short ds)).1 ≡ delays n (length ds)
unfolding run_connection_loop advance sleep_duration
run_connection_loop-short s n [] e h = refl
run_connection_loop-short s n ((duration, restored, at) ∷ ds) e h =
    let kept : reset_if_stable s.backoff duration ≡ backoff_after n =
      ap (λ b. reset_if_stable b duration) e ∙ reset_if_stable-short n duration h.0 in
    let s' : SessionState =
      (after_connection (connected s (short (duration, restored, at))) (disconnected duration)
        at).0 in
    let rest : (run_connection_loop s' (map short ds)).1 ≡ delays (suc n) (length ds) =
      run_connection_loop-short s' (suc n) ds (ap advance kept ∙ advance-backoff_after n) h.1 in
    ap (λ b. sleep_duration b ∷ (run_connection_loop s' (map short ds)).1) kept
    ∙ ap (λ l. min (2 ^ n) 30 * second ∷ l) rest

-- A proxy that is disconnected again and again, each time within thirty seconds, sleeps for 1, 2, 4, 8
-- and 16 seconds, and then for 30 seconds each time.
pub run_connection_loop-delays :
    (ds : List (ℕ × Bool × ℕ))
    → AllShort ds
    → (run_connection_loop new_state (map short ds)).1 ≡ delays 0 (length ds)
unfolding new_state new_backoff
run_connection_loop-delays ds h = run_connection_loop-short new_state 0 ds refl h
