-- ===== src/SessionManager/Delivery.antt =====
-- What a proxy that registers gets of the messages that were sent while it was away.
use claude_code_portal.Prelude.{
  ℕ, suc, ◌+◌, ◌-◌, ◌≤◌, ◌≡◌, refl, sym, ap, ◌∙◌, Bool, true, List, [], ◌∷◌, ◌++◌, map, none, arith,
  ==_refl, Bool-cases, inl, inr, length, lookup, lookup-remove, drop, drop-append, drop-drop,
  length-append, length-drop, retain,
}
use native.Mathlib.Nat.{zero-add}
use mathlib.Core.List.{append_assoc, append-nil}
use claude_code_portal.Protocol.{ServerToProxy, max_pending_messages}
use claude_code_portal.SessionManager.{
  SessionManager, PendingMessage, to_proxy, register_session, replay_loop, send_to_session,
  queue_pending_message, is_recent,
}
use claude_code_portal.SessionManager.Queue.{
  queue_of, entry, queued, IsBounded, send_to_session-IsBounded, queue_of-queue_pending_message,
}

module _ {J : Type 0} where
  replay_loop_alive :
      (sender now : ℕ) (q : List (PendingMessage J))
      → (replay_loop true sender now q).0
        ≡ map (λ p. to_proxy sender p.msg) (retain (is_recent now) q)
  unfolding replay_loop
  replay_loop_alive sender now [] = refl
  replay_loop_alive sender now (p ∷ q) = elim (Bool-cases (is_recent now p)) [
    | inl recent ↦ rw recent (ap (◌∷◌ (to_proxy sender p.msg)) (replay_loop_alive sender now q))
    | inr old ↦ rw old (replay_loop_alive sender now q)
  ]

  -- A proxy that registers gets, in their order, the queued messages that are younger than five minutes,
  -- and the queue is then empty: a second registration gets none of them again.
  pub register_session_replays :
      (m : SessionManager J) (accepts : ℕ → Bool) (key sender now : ℕ)
      → accepts sender ≡ true
      → let (m', sent, gen) = register_session m accepts key sender now in
        (sent ≡ map (λ p. to_proxy sender p.msg) (retain (is_recent now) (queue_of m key)))
        × (queue_of m' key ≡ [])
  unfolding register_session
  register_session_replays m accepts key sender now alive = (
    rw alive (replay_loop_alive sender now (queue_of m key)),
    ground (arith, lookup-remove key key m.pending_messages),
  )

  -- A list of messages for one session, each with the time it is sent at.
  pub send_each : SessionManager J → (ℕ → Bool) → ℕ → List (ServerToProxy J × ℕ) → SessionManager J
  send_each m accepts key [] = m
  send_each m accepts key ((msg, now) ∷ rest) =
      send_each (send_to_session m accepts key msg now).0 accepts key rest

  abbrev pub entries : List (ServerToProxy J × ℕ) → List (PendingMessage J)
  entries = map (λ e. entry e.0 e.1)

  send_to_session_away :
      (m : SessionManager J) (accepts : ℕ → Bool) (key : ℕ) (msg : ServerToProxy J) (now : ℕ)
      → lookup key m.sessions ≡ none
      → (send_to_session m accepts key msg now).0 ≡ (queue_pending_message m key msg now).0
  unfolding send_to_session
  send_to_session_away m accepts key msg now away = rw away

  still_away :
      (m : SessionManager J) (accepts : ℕ → Bool) (key : ℕ) (msg : ServerToProxy J) (now : ℕ)
      → lookup key m.sessions ≡ none
      → lookup key (send_to_session m accepts key msg now).0.sessions ≡ none
  unfolding send_to_session queue_pending_message
  still_away m accepts key msg now away = rw away away

  queued_more :
      (q es : List (PendingMessage J)) (e : PendingMessage J)
      → length q ≤ max_pending_messages
      → drop (length (queued q e) + length es - max_pending_messages) (queued q e ++ es)
        ≡ drop (length q + suc (length es) - max_pending_messages) (q ++ e ∷ es)
  queued_more q es e h =
      let a : ℕ = suc (length q) - max_pending_messages in
      let fits : a ≤ length (q ++ e ∷ []) = omega (arith, length-append q (e ∷ [])) in
      let n : ℕ = length (queued q e) + length es - max_pending_messages in
      let total : a + n ≡ length q + suc (length es) - max_pending_messages =
        omega (arith, length-drop a (q ++ e ∷ []), length-append q (e ∷ [])) in
      ap (drop n) (sym (drop-append a (q ++ e ∷ []) es fits))
      ∙ drop-drop n a ((q ++ e ∷ []) ++ es)
      ∙ rw (total, append_assoc q (e ∷ []) es)

  length-entries : (msgs : List (ServerToProxy J × ℕ)) → length (entries msgs) ≡ length msgs
  length-entries [] = refl
  length-entries (e ∷ msgs) = ap suc (length-entries msgs)

  queue_of-send_each :
      (m : SessionManager J) (accepts : ℕ → Bool) (key : ℕ) (msgs : List (ServerToProxy J × ℕ))
      → IsBounded m
      → lookup key m.sessions ≡ none
      → queue_of (send_each m accepts key msgs) key
        ≡ drop
            (length (queue_of m key) + length (entries msgs) - max_pending_messages)
            (queue_of m key ++ entries msgs)
  unfolding send_each
  queue_of-send_each m accepts key [] b away =
      let e : length (queue_of m key) + 0 - max_pending_messages ≡ 0 = omega (arith, b key) in
      rw (e, append-nil)
  queue_of-send_each m accepts key ((msg, now) ∷ rest) b away =
      let m' : SessionManager J = (send_to_session m accepts key msg now).0 in
      let e : queue_of m' key ≡ queued (queue_of m key) (entry msg now) = rw (
        send_to_session_away m accepts key msg now away,
        queue_of-queue_pending_message m key key msg now b,
        ==_refl key,
      ) in
      queue_of-send_each m' accepts key rest (send_to_session-IsBounded m accepts key msg now b)
        (still_away m accepts key msg now away)
      ∙ rw e (queued_more (queue_of m key) (entries rest) (entry msg now) (b key))

  -- Messages sent while no proxy is registered, to a queue that was empty, reach the next proxy that
  -- registers: the newest hundred of them, in order, less those that are five minutes old or older.
  pub register_session-send_each :
      (m : SessionManager J) (accepts : ℕ → Bool) (key sender now : ℕ)
      (msgs : List (ServerToProxy J × ℕ))
      → IsBounded m
      → lookup key m.sessions ≡ none
      → queue_of m key ≡ []
      → accepts sender ≡ true
      → (register_session (send_each m accepts key msgs) accepts key sender now).1
        ≡ map
            (λ p. to_proxy sender p.msg)
            (retain (is_recent now) (drop (length msgs - max_pending_messages) (entries msgs)))
  register_session-send_each m accepts key sender now msgs b away fresh alive =
      (register_session_replays (send_each m accepts key msgs) accepts key sender now alive).0
      ∙ rw (queue_of-send_each m accepts key msgs b away, fresh, length-entries msgs, zero-add)
