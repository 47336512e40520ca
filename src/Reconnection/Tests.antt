-- ===== src/Reconnection/Tests.antt =====
-- Two short connections: one of five seconds, then one that fails at once.
use claude_code_portal.Prelude.{ℕ, ◌*◌, ◌≡◌, Bool, true, false, List, [], ◌∷◌, map, arith}
use claude_code_portal.Protocol.{second}
use claude_code_portal.Reconnection.{new_state, run_connection_loop}
use claude_code_portal.Reconnection.Delays.{short, run_connection_loop-delays}

abbrev disconnections : List (ℕ × Bool × ℕ)
disconnections = (5 * second, true, 1) ∷ (0, false, 2) ∷ []

run_connection_loop-delays_example :
    (run_connection_loop new_state (map short disconnections)).1 ≡ 1 * second ∷ 2 * second ∷ []
run_connection_loop-delays_example =
    run_connection_loop-delays disconnections (omega arith, (omega arith, record {}))
