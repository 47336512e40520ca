-- ===== src/OutputBuffer/Tests.antt =====
-- The unit tests of output_buffer.rs, and the theorems at concrete buffers.
use claude_code_portal.Prelude.{
  ap, ◌∙◌, sym, ◌≤◌, ℕ, ◌≡◌, ◌≢◌, refl, inl, inr, ◌⊎◌, [], ◌∷◌, none, some, true, false, arith,
}
use claude_code_portal.Numbered.{numbered}
use claude_code_portal.OutputBuffer.{
  BufferState, PendingOutputBuffer, Disk, absent, contents, written, Codec, persisted, fresh, push,
  acknowledge, new, persist, pending_count,
}
use claude_code_portal.OutputBuffer.Window.{
  Log, output, log_push, log_ack, Represents, push-Represents,
}
use claude_code_portal.OutputBuffer.Reload.{
  with_contents-same, reading_of, persist_atomic, new-persist,
}
use claude_code_portal.OutputBuffer.History.{
  Reach, start, pushes, acknowledges, reloads, Reach-pending,
}

abbrev empty_buffer : PendingOutputBuffer ℕ
unfolding fresh
empty_buffer = record { session_id = 7; persist_path = 1; state = fresh 7; dirty = false }

-- Outputs 11, 12 and 13 are pending under 0, 1 and 2.
abbrev three : PendingOutputBuffer ℕ
three = record {
  session_id = 7;
  persist_path = 1;
  state = record {
    session_id = 7;
    next_seq = 3;
    last_ack_seq = 0;
    pending = numbered output 0 (11 ∷ 12 ∷ 13 ∷ []);
  };
  dirty = true;
}

abbrev three_log : Log ℕ
three_log = record { sent = 11 ∷ 12 ∷ 13 ∷ []; first = 0 }

three-Represents : Represents three_log three.state
three-Represents = record {
  counted = refl;
  within = omega arith;
  window = refl;
  capped = omega arith;
  acked = inl refl;
}

-- test_push_and_acknowledge
push-three : (push (push (push empty_buffer 11).0 12).0 13).0 ≡ three
unfolding push fresh
push-three = refl

ack_one_left : pending_count (acknowledge three 1) ≡ 1
unfolding acknowledge
ack_one_left = refl

-- test_duplicate_acknowledge
ack_duplicate : acknowledge (acknowledge (acknowledge three 1) 1) 0 ≡ acknowledge three 1
unfolding acknowledge
ack_duplicate = refl

push-Represents_example :
    Represents (log_push three_log 14) (push three 14).0.state × ((push three 14).1 ≡ 3)
push-Represents_example = push-Represents three_log three 14 three-Represents (omega arith)

-- A codec whose texts are the states themselves.
abbrev plain : Codec ℕ (BufferState ℕ)
plain = record {
  reread = λ x. x;
  print = λ s. some s;
  parse = λ t. some t;
  parse-print = λ s t e. sym e ∙ ap some (sym (with_contents-same s));
}

abbrev blank : Disk (BufferState ℕ)
blank = record { file = none; temp = none }

abbrev acked : PendingOutputBuffer ℕ
acked = record {
  session_id = 7;
  persist_path = 1;
  state = record {
    session_id = 7;
    next_seq = 3;
    last_ack_seq = 1;
    pending = numbered output 2 (13 ∷ []);
  };
  dirty = true;
}

acked-Represents : Represents (log_ack three_log 1) acked.state
acked-Represents = record {
  counted = refl;
  within = omega arith;
  window = refl;
  capped = omega arith;
  acked = inr (omega arith);
}

persist_atomic_example :
    let (b', d', outcome) = persist plain acked written false blank in
    ((outcome ≢ persisted) × (b' ≡ acked) × (d'.file ≡ none))
    ⊎ ((outcome ≡ persisted)
        × (b'.state ≡ acked.state)
        × (b'.dirty ≡ false)
        × ((d'.file ≡ some acked.state) ⊎ ((acked.dirty ≡ false) × (d' ≡ blank))))
persist_atomic_example = persist_atomic plain acked written false blank

new-persist_example :
    let (b', d', outcome) = persist plain acked written true blank in
    (outcome ≡ persisted) × (new plain 7 (some 1) (reading_of d') ≡ some b')
unfolding persist
new-persist_example =
    new-persist plain (log_ack three_log 1) acked acked.state blank acked-Represents (omega arith)
      refl refl refl

apart : (t : BufferState ℕ) → absent ≢ contents t
apart t e = cc

three-Reach : Reach plain 7 1 (11 ∷ 12 ∷ 13 ∷ []) 0 (push (push (push empty_buffer 11).0 12).0 13).0
unfolding fresh new
three-Reach =
    pushes
      (pushes (pushes (start absent (λ t s e f. absurd (apart t e)) refl) 11 (omega arith)) 12
        (omega arith))
      13 (omega arith)

-- Started again with two outputs acknowledged, and a fourth output.
abbrev restarted : PendingOutputBuffer ℕ
restarted = record {
  session_id = 7;
  persist_path = 1;
  state = record {
    session_id = 7;
    next_seq = 3;
    last_ack_seq = 1;
    pending = numbered output 2 (13 ∷ []);
  };
  dirty = false;
}

restarted-Reach : Reach plain 7 1 (11 ∷ 12 ∷ 13 ∷ []) 2 restarted
unfolding fresh new push acknowledge
restarted-Reach =
    reloads (acknowledges three-Reach 1 (omega arith) (omega arith)) acked.state refl refl

Reach-pending_example :
    let b = (push restarted 14).0 in
    (b.state.pending ≡ numbered output 2 (13 ∷ 14 ∷ []))
    × (b.state.next_seq ≡ 4)
    × (b.state.last_ack_seq ≡ 1)
    × (pending_count b ≤ 1000)
Reach-pending_example = Reach-pending (pushes restarted-Reach 14 (omega arith))
