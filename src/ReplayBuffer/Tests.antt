-- ===== src/ReplayBuffer/Tests.antt =====
-- The unit tests of buffer.rs, and the statements at concrete buffers.
use claude_code_portal.Prelude.{ℕ, ◌≡◌, refl, [], ◌∷◌, arith}
use claude_code_portal.Numbered.{numbered}
use claude_code_portal.OutputBuffer.Window.{Log}
use claude_code_portal.ReplayBuffer.{OutputBuffer, with_max_size, push, default_max_size}
use claude_code_portal.ReplayBuffer.Ack.{buffered, Replays}

abbrev two_log : Log (ℕ × ℕ)
two_log = record { sent = (21, 5) ∷ (22, 6) ∷ []; first = 0 }

abbrev two : OutputBuffer ℕ
two = record {
  session_id = 9;
  outputs = numbered buffered 0 ((21, 5) ∷ (22, 6) ∷ []);
  next_seq = 2;
  max_size = default_max_size;
}

two-Replays : Replays two_log two
two-Replays = record { counted = refl; within = omega arith; window = refl; capped = omega arith }

-- test_max_size
oldest_dropped :
    let b = (push (push (push {A = ℕ} (with_max_size 9 2) 21 5).0 22 6).0 23 7).0 in
    b.outputs ≡ numbered buffered 1 ((22, 6) ∷ (23, 7) ∷ [])
unfolding push with_max_size
oldest_dropped = refl
