-- ===== src/ReplayBuffer/Snapshot.antt =====
-- A buffer carried over a restart by a snapshot.
use claude_code_portal.Prelude.{
  ℕ, suc, ◌+◌, ◌<◌, ◌≡◌, ◌≢◌, refl, ap, ◌∙◌, List, [], ◌∷◌, some, arith, length, drop, length-drop,
}
use claude_code_portal.Numbered.{numbered}
use claude_code_portal.OutputBuffer.{u64_mod}
use claude_code_portal.OutputBuffer.Window.{Log}
use claude_code_portal.ReplayBuffer.{
  OutputBuffer, max_seq, default_max_size, from_snapshot, to_snapshot,
}
use claude_code_portal.ReplayBuffer.Ack.{buffered, Replays}

module _ {A : Type 0} where
  max_seq-numbered :
      (f : ℕ) (x : A × ℕ) (xs : List (A × ℕ))
      → max_seq (numbered buffered f (x ∷ xs)) ≡ some (f + length xs)
  max_seq-numbered f x [] = ap some (omega arith)
  max_seq-numbered f x (y ∷ ys) = rw (max_seq-numbered (suc f) y ys) (ap some (omega arith))

  next_seq-numbered :
      (f n : ℕ) (xs : List (A × ℕ))
      → n ≡ f + length xs
      → xs ≢ []
      → n < u64_mod
      → (id : ℕ) → (from_snapshot id (numbered buffered f xs)).next_seq ≡ n
  unfolding from_snapshot
  next_seq-numbered f n [] e ne small id = absurd (ne refl)
  next_seq-numbered f n (x ∷ xs) e ne small id = rw (max_seq-numbered f x xs) (omega arith)

  restored_next_seq :
      (l : Log (A × ℕ)) (b : OutputBuffer A)
      → Replays l b
      → length l.sent < u64_mod
      → b.outputs ≢ []
      → (from_snapshot b.session_id b.outputs).next_seq ≡ b.next_seq
  restored_next_seq l b r small some_left =
      let left : drop l.first l.sent ≢ [] =
        λ e. some_left (r.window ∙ ap (numbered buffered l.first) e) in
      rw r.window (
        next_seq-numbered l.first b.next_seq (drop l.first l.sent)
          (omega (arith, r.counted, r.within, length-drop l.first l.sent)) left
          (omega (arith, r.counted)) b.session_id)

  -- Restored from its snapshot, a buffer of the default size that holds an output is the same buffer.
  -- One that holds none restarts its numbers at 0, whatever number came next before.
  pub from_snapshot-to_snapshot :
      (l : Log (A × ℕ)) (b : OutputBuffer A)
      → Replays l b
      → length l.sent < u64_mod
      → b.max_size ≡ default_max_size
      → (b.outputs ≢ [] → from_snapshot b.session_id (to_snapshot b) ≡ b)
        × (b.outputs ≡ [] → from_snapshot b.session_id (to_snapshot b) ≡ record b { next_seq = 0 })
  unfolding to_snapshot from_snapshot
  from_snapshot-to_snapshot l b r small size =
      (λ left. ground (arith, restored_next_seq l b r small left), λ gone. ground arith)
