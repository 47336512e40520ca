-- ===== src/Delivery/Once.antt =====
-- What the backend stores of outputs that a proxy replays.
use claude_code_portal.Prelude.{
  ℕ, suc, ◌<◌, ◌≡◌, refl, sym, ap, ◌∙◌, Bool, true, List, [], ◌∷◌, ◌++◌, map, Option, drop,
  drop-append,
}
use claude_code_portal.Numbered.{numbered}
use claude_code_portal.OutputBuffer.{PendingOutputBuffer, get_pending}
use claude_code_portal.OutputBuffer.Window.{Log, output, Represents}
use claude_code_portal.MessageHandlers.{Content, Backend}
use claude_code_portal.MessageHandlers.Dedup.{acked}
use claude_code_portal.MessageHandlers.Stored.{texts, is_known, takes, handle_each}
use claude_code_portal.MessageHandlers.Resent.{each_again}
use claude_code_portal.Delivery.{replay, reconnect}

module _ {J F : Type 0} (json : Content J F) (accepts : ℕ → Bool) (now session tx : ℕ)
    (key : Option ℕ) where
  replay-numbered :
      (b : Backend J F) (n : ℕ) (cs : List J)
      → replay json accepts now session tx key b (numbered output n cs)
        ≡ handle_each json accepts now session tx key b n cs
  unfolding replay handle_each
  replay-numbered b n [] = refl
  replay-numbered b n (c ∷ cs) =
      replay-numbered (takes json accepts now session tx key b c n) (suc n) cs

  -- A proxy sends its pending outputs, loses the connection before any acknowledgement arrives, takes in
  -- more outputs without dropping one, and on the next connection sends all that is pending. If the
  -- session's mark is below the first pending number, and the session and the database are at hand, every
  -- output of the window is stored exactly once and in the order in which it was pushed.
  pub reconnect_stores_once :
      (b : Backend J F) (before after : PendingOutputBuffer J) (l : Log J) (more : List J)
      → Represents l before.state
      → Represents (record l { sent = l.sent ++ more }) after.state
      → acked b.manager session < l.first
      → is_known b.db session ≡ true
      → texts (
          reconnect json accepts now session tx key
            (reconnect json accepts now session tx key b before)
            after)
        ≡ texts b ++ map json.to_string (drop l.first (l.sent ++ more))
  unfolding reconnect
  reconnect_stores_once b before after l more r r' h known =
      let all : drop l.first (l.sent ++ more) ≡ drop l.first l.sent ++ more =
        drop-append l.first l.sent more r.within in
      ap (λ b'. texts (replay json accepts now session tx key b' (get_pending after)))
        (ap (replay json accepts now session tx key b) r.window
          ∙ replay-numbered b l.first (drop l.first l.sent))
      ∙ ap texts (
          ap (replay json accepts now session tx key _)
            (r'.window ∙ ap (numbered output l.first) all)
          ∙ replay-numbered _ l.first (drop l.first l.sent ++ more))
      ∙ each_again json accepts now session tx key b l.first (drop l.first l.sent) more h known
      ∙ ap (λ cs. texts b ++ map json.to_string cs) (sym all)
