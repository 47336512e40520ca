-- ===== src/OutputForwarder/Overtaking.antt =====
-- The two tasks of a connection that number and send outputs: the forwarder, and the main loop with its raw
-- outputs (claude-session-lib/src/proxy_session/mod.rs) and its messages about the mode of wiggum.rs. Each
-- takes the lock of the buffer to push, and later that of the socket to send: any order of these steps is
-- possible in which a task sends what it has pushed.
use claude_code_portal.Prelude.{
  ℕ, ◌+◌, ◌%◌, ◌≤◌, ◌<◌, ◌==◌, ◌≡◌, refl, ap, Bool, false, List, [], ◌∷◌, ◌++◌, Option, none, some,
  any, retain, arith,
}
use claude_code_portal.OutputBuffer.{
  PendingOutput, PendingOutputBuffer, push, acknowledge, above, u64_mod,
}
use claude_code_portal.MessageHandlers.{Content, Backend, healthy}
use claude_code_portal.MessageHandlers.Dedup.{handle_claude_output_once}
use claude_code_portal.Delivery.{replay}

pub record Shared (J : Type 0) : Type 0 where
  pub output_buffer : PendingOutputBuffer J
  pub forwarder : Option (PendingOutput J)
  pub main_loop : Option (PendingOutput J)
  pub socket : List (PendingOutput J)

module _ {J : Type 0} where
  unfoldable pub numbered_output : PendingOutputBuffer J → J → PendingOutput J
  unfolding push
  numbered_output buffer c = record { seq = (push buffer c).1; content = c }

  pub data Step : Shared J → Shared J → Type 0 where
    forwarder_pushes :
        (s : Shared J) (c : J)
        → s.forwarder ≡ none
        → Step s (record s {
          output_buffer = (push s.output_buffer c).0;
          forwarder = some (numbered_output s.output_buffer c);
        })
    main_loop_pushes :
        (s : Shared J) (c : J)
        → s.main_loop ≡ none
        → Step s (record s {
          output_buffer = (push s.output_buffer c).0;
          main_loop = some (numbered_output s.output_buffer c);
        })
    forwarder_sends :
        (s : Shared J) (p : PendingOutput J)
        → s.forwarder ≡ some p
        → Step s (record s { forwarder = none; socket = s.socket ++ p ∷ [] })
    main_loop_sends :
        (s : Shared J) (p : PendingOutput J)
        → s.main_loop ≡ some p
        → Step s (record s { main_loop = none; socket = s.socket ++ p ∷ [] })

  pub data Steps : Shared J → Shared J → Type 0 where
    done : (s : Shared J) → Steps s s
    followed : {s t u : Shared J} → Step s t → Steps t u → Steps s u

  -- A connection on which nothing has been sent.
  abbrev pub fresh_connection : PendingOutputBuffer J → Shared J
  fresh_connection buffer = record {
    output_buffer = buffer;
    forwarder = none;
    main_loop = none;
    socket = [];
  }

  any-retain :
      (n k : ℕ) (ps : List (PendingOutput J))
      → n ≤ k
      → any (λ p. p.seq == n) (retain (above {A = J} k) ps) ≡ false
  any-retain n k [] h = refl
  any-retain n k (p ∷ ps) h = ground (arith, h, any-retain n k ps h)

  acknowledge-forgets :
      (n k : ℕ) (buffer : PendingOutputBuffer J)
      → n ≤ k
      → buffer.state.last_ack_seq < k
      → any (λ p. p.seq == n) (acknowledge buffer k).state.pending ≡ false
  unfolding acknowledge
  acknowledge-forgets n k buffer h l = ground (arith, l, any-retain n k buffer.state.pending h)

  -- The buffer when the forwarder has pushed one output and the main loop another.
  abbrev pub both_pushed : PendingOutputBuffer J → J → J → PendingOutputBuffer J
  both_pushed buffer a b = (push (push buffer a).0 b).0

  module _ {F : Type 0} (json : Content J F) (accepts : ℕ → Bool) (now session tx : ℕ)
      (key : Option ℕ) where
    -- The forwarder pushes an output, the main loop pushes another and sends it first: the steps lead to a
    -- socket with the later number in front. The backend then treats the earlier one as a duplicate, so that
    -- its state is as if that output had never come, and after the acknowledgement of the later one the
    -- proxy's buffer no longer has it either.
    pub overtaken_output_lost :
        (backend : Backend J F) (buffer : PendingOutputBuffer J) (a b : J)
        → buffer.state.next_seq + 1 < u64_mod
        → buffer.state.last_ack_seq ≤ buffer.state.next_seq
        → (let first = numbered_output buffer a in
            let second = numbered_output (push buffer a).0 b in
            Steps
              (fresh_connection buffer)
              (record (fresh_connection (both_pushed buffer a b)) { socket = second ∷ first ∷ [] })
            × ((replay json accepts now session tx key backend (second ∷ first ∷ [])
                  ≡ replay json accepts now session tx key backend (second ∷ []))
                × (any
                      (λ p. p.seq == first.seq)
                      (acknowledge (both_pushed buffer a b) second.seq).state.pending
                    ≡ false)))
    unfolding push replay numbered_output
    overtaken_output_lost backend buffer a b bound acked =
        let order : buffer.state.next_seq ≤ (buffer.state.next_seq + 1) % u64_mod =
          ground (arith, bound) in
        (
          followed (forwarder_pushes (fresh_connection buffer) a refl) (
              followed (main_loop_pushes _ b refl) (
                followed (main_loop_sends _ _ refl)
                  (followed (forwarder_sends _ _ refl) (done _)))),
          (
            ap (λ r. r.0)
                (handle_claude_output_once json backend accepts healthy now session tx key b a
                  ((buffer.state.next_seq + 1) % u64_mod) buffer.state.next_seq now healthy key refl
                  order),
            acknowledge-forgets _ _ (both_pushed buffer a b) order (ground (arith, bound, acked)),
          ),
        )
