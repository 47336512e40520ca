-- ===== src/ReplayBuffer.antt =====
-- claude-session-lib/src/buffer.rs: the session's buffer of outputs, which snapshots carry across a
-- restart. `A` stands for `serde_json::Value`; a timestamp is a number handed in for `Utc::now()`.
pub mod Ack
pub mod Snapshot
mod Tests
use claude_code_portal.Prelude.{
  ℕ, zero, suc, ◌+◌, ◌%◌, max, Bool, true, false, List, [], ◌∷◌, ◌++◌, map, Option, none, some, ltb,
  leb, if◌then◌else◌, length, trim_front,
}
use claude_code_portal.OutputBuffer.{u64_mod}

pub record BufferedOutput (A : Type 0) : Type 0 where
  pub seq : ℕ
  pub content : A
  pub timestamp : ℕ

pub record OutputBuffer (A : Type 0) : Type 0 where
  pub session_id : ℕ
  pub outputs : List (BufferedOutput A)
  pub next_seq : ℕ
  pub max_size : ℕ

-- DEFAULT_MAX_SIZE.
abbrev pub default_max_size : ℕ
default_max_size = 1000

module _ {A : Type 0} where
  unfoldable pub with_max_size : ℕ → ℕ → OutputBuffer A
  with_max_size id size = record { session_id = id; outputs = []; next_seq = 0; max_size = size }

  unfoldable pub new : ℕ → OutputBuffer A
  new id = record { session_id = id; outputs = []; next_seq = 0; max_size = default_max_size }

  unfoldable pub push : OutputBuffer A → A → ℕ → OutputBuffer A × ℕ
  push b content now =
      let seq = b.next_seq in
      let entry : BufferedOutput A = record { seq = seq; content = content; timestamp = now } in
      (
        record b {
          outputs = trim_front b.max_size (b.outputs ++ entry ∷ []);
          next_seq = (seq + 1) % u64_mod;
        },
        seq,
      )

  -- The loop of `ack`: outputs leave at the front while their number is not above `seq`.
  abbrev pub ack_front : ℕ → List (BufferedOutput A) → List (BufferedOutput A)
  ack_front seq [] = []
  ack_front seq (front ∷ rest) = if leb front.seq seq then ack_front seq rest else front ∷ rest

  unfoldable pub ack : OutputBuffer A → ℕ → OutputBuffer A
  ack b seq = record b { outputs = ack_front seq b.outputs }

  abbrev pub pending_count : OutputBuffer A → ℕ
  pending_count b = length b.outputs

  abbrev pub is_empty : OutputBuffer A → Bool
  is_empty b = elim b.outputs [ [] ↦ true | _ ∷ _ ↦ false ]

  -- outputs.iter().map(|o| o.seq).max()
  abbrev pub max_seq : List (BufferedOutput A) → Option ℕ
  max_seq [] = none
  max_seq (o ∷ os) = elim (max_seq os) [ none ↦ some o.seq | some m ↦ some (max o.seq m) ]

  unfoldable pub from_snapshot : ℕ → List (BufferedOutput A) → OutputBuffer A
  from_snapshot id outputs = record {
    session_id = id;
    outputs = outputs;
    next_seq = elim (max_seq outputs) [ none ↦ 0 | some s ↦ (s + 1) % u64_mod ];
    max_size = default_max_size;
  }

  unfoldable pub to_snapshot : OutputBuffer A → List (BufferedOutput A)
  to_snapshot b = b.outputs

  unfoldable pub clear : OutputBuffer A → OutputBuffer A
  clear b = record b { outputs = [] }
