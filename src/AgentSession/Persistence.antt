-- ===== src/AgentSession/Persistence.antt =====
-- A session that is restored from its snapshot.
use claude_code_portal.Prelude.{
  ℕ, ◌≡◌, ◌≢◌, ◌<◌, refl, sym, ap, ◌∙◌, Bool, true, false, ◌&&◌, [], inr, if◌then◌else◌, length,
}
use claude_code_portal.OutputBuffer.{u64_mod}
use claude_code_portal.OutputBuffer.Window.{Log}
use claude_code_portal.ReplayBuffer.{default_max_size, from_snapshot, to_snapshot}
use claude_code_portal.ReplayBuffer.Ack.{Replays}
use claude_code_portal.ReplayBuffer.Snapshot.{from_snapshot-to_snapshot}
use claude_code_portal.AgentSession.{Session, is_running, snapshot, restore}
use claude_code_portal.AgentSession.SessionState.{running, exited}

and_false : (b : Bool) → (b && false) ≡ false
and_false true = refl
and_false false = refl

-- A session that is restored from its snapshot, its process started, holds the same unacknowledged
-- outputs under the same next number if it held any, and the same pending request; it resumes, and is
-- connected and runs if and only if it ran.
pub restore-snapshot :
    {J : Type 0} (l : Log (J × ℕ)) (s : Session J) (now : ℕ)
    → Replays l s.buffer
    → length l.sent < u64_mod
    → s.buffer.max_size ≡ default_max_size
    → s.buffer.session_id ≡ s.id
    → s.buffer.outputs ≢ []
    → restore (snapshot s now) true
      ≡ inr (record s {
        config = record s.config { resume = true };
        command_tx = is_running s;
        event_rx = is_running s;
        state = if is_running s then running else exited 0;
      })
unfolding restore snapshot
restore-snapshot l s now replays small size same left =
    let kept : from_snapshot s.id (to_snapshot s.buffer) ≡ s.buffer =
      ap (λ i. from_snapshot i (to_snapshot s.buffer)) (sym same)
      ∙ (from_snapshot-to_snapshot l s.buffer replays small size).0 left in
    rw (and_false (is_running s), kept) refl
