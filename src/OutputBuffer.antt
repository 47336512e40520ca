-- ===== src/OutputBuffer.antt =====
-- claude-session-lib/src/output_buffer.rs: the proxy's buffer of outputs that the backend has not
-- acknowledged. `A` stands for `serde_json::Value`. The buffer's file and its two outcomes (writing
-- the temporary file, renaming it) are explicit; `serde_json` is the parameter `Codec`. A u64 counter
-- wraps, as in the release profile. Logging is left out.
pub mod Window
pub mod Reload
pub mod History
mod Tests
use claude_code_portal.Prelude.{
  ◌≡◌, ℕ, ◌+◌, ◌%◌, ◌^◌, Bool, true, false, List, [], ◌∷◌, ◌++◌, Option, none, some, ltb, leb, ◌==◌,
  if◌then◌else◌, length, map, retain, trim_front,
}

-- MAX_MEMORY_MESSAGES.
abbrev pub max_memory_messages : ℕ
max_memory_messages = 1000

abbrev pub u64_mod : ℕ
u64_mod = 2 ^ 64

pub record PendingOutput (A : Type 0) : Type 0 where
  pub seq : ℕ
  pub content : A

pub record BufferState (A : Type 0) : Type 0 where
  pub session_id : ℕ
  pub next_seq : ℕ
  pub last_ack_seq : ℕ
  pub pending : List (PendingOutput A)

pub record PendingOutputBuffer (A : Type 0) : Type 0 where
  pub session_id : ℕ
  pub persist_path : ℕ
  pub state : BufferState A
  pub dirty : Bool

-- What `persist_path` and its `tmp` sibling hold.
pub record Disk (T : Type 0) : Type 0 where
  pub file : Option T
  pub temp : Option T

-- What reading the file gives: `persist_path.exists()`, then `fs::read_to_string`.
pub data Reading (T : Type 0) : Type 0 where
  absent unreadable : Reading T
  contents : T → Reading T

-- What `fs::write` does to the temporary file: all of it, or an error that leaves some text or none.
pub data Writing (T : Type 0) : Type 0 where
  written : Writing T
  broken : Option T → Writing T

-- `serde_json`: writing a state may fail, reading a text may fail, and what was written reads back.
-- Contents that were changed, under their numbers.
abbrev pub with_content : {A : Type 0} → (A → A) → PendingOutput A → PendingOutput A
with_content f m = record m { content = f m.content }

abbrev pub with_contents : {A : Type 0} → (A → A) → BufferState A → BufferState A
with_contents f s = record s { pending = map (with_content f) s.pending }

-- `reread` is what a JSON value is after it was written and read: a float may be rounded to a neighbour.
pub record Codec (A T : Type 0) : Type 0 where
  pub reread : A → A
  pub print : BufferState A → Option T
  pub parse : T → Option (BufferState A)
  pub parse-print :
      (s : BufferState A) (t : T) → print s ≡ some t → parse t ≡ some (with_contents reread s)

pub data Persisted : Type 0 where
  persisted serialize_failed write_failed rename_failed : Persisted

module _ {A : Type 0} where
  -- BufferState { session_id, ..Default::default() }
  unfoldable pub fresh : ℕ → BufferState A
  fresh id = record { session_id = id; next_seq = 0; last_ack_seq = 0; pending = [] }

  abbrev pub above : ℕ → PendingOutput A → Bool
  above ack msg = ltb ack msg.seq

  unfoldable pub load_state : ℕ → Option (BufferState A) → BufferState A
  unfolding fresh
  load_state id none = fresh id
  load_state id (some s) =
      if s.session_id == id
      then record s { pending = retain (above s.last_ack_seq) s.pending }
      else fresh id

  unfoldable pub push : PendingOutputBuffer A → A → PendingOutputBuffer A × ℕ
  push b content =
      let seq = b.state.next_seq in
      let pending = b.state.pending ++ record { seq = seq; content = content } ∷ [] in
      let trimmed =
        if ltb max_memory_messages (length pending)
        then trim_front max_memory_messages pending
        else pending in
      (
        record b {
          state = record b.state { next_seq = (seq + 1) % u64_mod; pending = trimmed };
          dirty = true;
        },
        seq,
      )

  unfoldable pub acknowledge : PendingOutputBuffer A → ℕ → PendingOutputBuffer A
  acknowledge b ack_seq = if leb ack_seq b.state.last_ack_seq then b else record b {
    state = record b.state {
      pending = retain (above ack_seq) b.state.pending;
      last_ack_seq = ack_seq;
    };
    dirty = true;
  }

  abbrev pub get_pending : PendingOutputBuffer A → List (PendingOutput A)
  get_pending b = b.state.pending

  abbrev pub pending_count : PendingOutputBuffer A → ℕ
  pending_count b = length b.state.pending

  abbrev pub last_ack_seq : PendingOutputBuffer A → ℕ
  last_ack_seq b = b.state.last_ack_seq

module _ {A T : Type 0} (codec : Codec A T) where
  read_state : Reading T → Option (BufferState A)
  read_state absent = none
  read_state unreadable = none
  read_state (contents t) = codec.parse t

  -- `path` is `none` where no config directory is found or made.
  unfoldable pub new : ℕ → Option ℕ → Reading T → Option (PendingOutputBuffer A)
  unfolding read_state load_state
  new id none reading = none
  new id (some path) reading = some (record {
    session_id = id;
    persist_path = path;
    state = load_state id (read_state reading);
    dirty = false;
  })

  write_out :
      PendingOutputBuffer A
      → Option T
      → Writing T
      → Bool
      → Disk T
      → PendingOutputBuffer A × Disk T × Persisted
  write_out b none writing renames d = (b, d, serialize_failed)
  write_out b (some t) (broken left) renames d = (b, record d { temp = left }, write_failed)
  write_out b (some t) written false d = (b, record d { temp = some t }, rename_failed)
  write_out b (some t) written true d =
      (record b { dirty = false }, record { file = some t; temp = none }, persisted)

  -- `writing` and `renames` are the outcomes of `fs::write` and `fs::rename`.
  unfoldable pub persist :
      PendingOutputBuffer A → Writing T → Bool → Disk T → PendingOutputBuffer A × Disk T × Persisted
  unfolding write_out
  persist b writing renames d =
      if b.dirty then write_out b (codec.print b.state) writing renames d else (b, d, persisted)

  -- `Drop`: the result of the last attempt is only logged.
  unfoldable pub drop_buffer : PendingOutputBuffer A → Writing T → Bool → Disk T → Disk T
  unfolding persist
  drop_buffer b writing renames d = if b.dirty then (persist b writing renames d).1 else d
