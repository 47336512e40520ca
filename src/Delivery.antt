-- ===== src/Delivery.antt =====
-- The replay of pending outputs after a reconnection (claude-session-lib/src/proxy_session/mod.rs), into
-- the backend's handler (backend/src/handlers/websocket/message_handlers.rs), with the database at hand.
pub mod Once
mod Tests
use claude_code_portal.Prelude.{ℕ, Bool, List, [], ◌∷◌, Option, some}
use claude_code_portal.OutputBuffer.{PendingOutput, PendingOutputBuffer, get_pending}
use claude_code_portal.MessageHandlers.{Content, Backend, healthy, handle_claude_output}

module _ {J F : Type 0} (json : Content J F) (accepts : ℕ → Bool) (now session tx : ℕ)
    (key : Option ℕ) where
  -- Each pending output goes out as a `SequencedOutput` and is handled at the other end.
  unfoldable pub replay : Backend J F → List (PendingOutput J) → Backend J F
  replay b [] = b
  replay b (p ∷ ps) =
      replay
        (handle_claude_output json b accepts healthy now key (some session) tx p.content
          (some p.seq)).0
        ps

  unfoldable pub reconnect : Backend J F → PendingOutputBuffer J → Backend J F
  unfolding replay
  reconnect b buffer = replay b (get_pending buffer)
