-- ===== src/SessionManager/Queue.antt =====
-- The queue of messages for a disconnected proxy.
use claude_code_portal.Prelude.{
  ℕ, suc, ◌-◌, ◌≤◌, ◌≡◌, ◌⊎◌, refl, Bool, true, false, List, [], ◌∷◌, ◌++◌, Option, arith, leb,
  leb→le, ◌==◌, Bool-cases, inl, inr, length, lookup, lookup-insert, lookup-remove, if◌then◌else◌,
  drop, drop-append, length-append, length-drop,
}
use claude_code_portal.Protocol.{ServerToProxy, max_pending_messages}
use claude_code_portal.SessionManager.{
  SessionManager, PendingMessage, to_proxy, register_session, unregister_session,
  queue_pending_message, send_to_session, make_room, or_default, sends_to, sent_to,
}

module _ {J : Type 0} where
  abbrev pub queue_of : SessionManager J → ℕ → List (PendingMessage J)
  queue_of m key = or_default (lookup key m.pending_messages)

  abbrev pub entry : ServerToProxy J → ℕ → PendingMessage J
  entry msg now = record { msg = msg; queued_at = now }

  make_room-eq-drop :
      (q : List (PendingMessage J)) → make_room q ≡ drop (suc (length q) - max_pending_messages) q
  unfolding make_room
  make_room-eq-drop [] = refl
  make_room-eq-drop (p ∷ q) = elim (Bool-cases (leb max_pending_messages (suc (length q)))) [
    | inl full ↦
        let e : suc (suc (length q)) - max_pending_messages
            ≡ suc (suc (length q) - max_pending_messages) =
          omega (arith, leb→le max_pending_messages (suc (length q)) full) in
        rw (full, e) (make_room-eq-drop q)
    | inr fits ↦
        let e : suc (suc (length q)) - max_pending_messages ≡ 0 = ground arith in rw (fits, e)
  ]

  -- The queue with a new entry: the newest hundred of the old queue and the entry.
  abbrev pub queued : List (PendingMessage J) → PendingMessage J → List (PendingMessage J)
  queued q p = drop (suc (length q) - max_pending_messages) (q ++ p ∷ [])

  pub make_room-queued :
      (q : List (PendingMessage J)) (p : PendingMessage J)
      → length q ≤ max_pending_messages
      → make_room q ++ p ∷ [] ≡ queued q p
  make_room-queued q p h = rw (
    make_room-eq-drop q,
    drop-append (suc (length q) - max_pending_messages) q (p ∷ []) (omega arith),
  )

  -- No queue holds more than the limit.
  abbrev pub IsBounded : SessionManager J → Type 0
  IsBounded m = (k : ℕ) → length (queue_of m k) ≤ max_pending_messages

  pub queue_of-queue_pending_message :
      (m : SessionManager J) (key k : ℕ) (msg : ServerToProxy J) (now : ℕ)
      → IsBounded m
      → queue_of (queue_pending_message m key msg now).0 k
        ≡ (if key == k then queued (queue_of m key) (entry msg now) else queue_of m k)
  unfolding queue_pending_message
  queue_of-queue_pending_message m key k msg now b =
      rw (make_room-queued (queue_of m key) (entry msg now) (b key)) (
        ground
          (arith, lookup-insert key k (queued (queue_of m key) (entry msg now)) m.pending_messages))

  -- A message goes to the live sender of its session alone, and then nothing changes; or else it enters
  -- the session's queue, which keeps the newest hundred, and no other queue changes.
  pub send_to_session_cases :
      (m : SessionManager J) (accepts : ℕ → Bool) (key k : ℕ) (msg : ServerToProxy J) (now : ℕ)
      → IsBounded m
      → let (m', sent, done) = send_to_session m accepts key msg now in
        let receiver = lookup key m.sessions in
        (done ≡ true)
        × (((sends_to accepts receiver ≡ true)
              × (m' ≡ m)
              × (sent ≡ sent_to receiver (λ c. to_proxy c msg)))
            ⊎ ((sends_to accepts receiver ≡ false)
                × (sent ≡ [])
                × (queue_of m' k ≡ (
                    if key == k then queued (queue_of m key) (entry msg now) else queue_of m k))))
  unfolding send_to_session queue_pending_message
  send_to_session_cases m accepts key k msg now b =
      elim (Bool-cases (sends_to accepts (lookup key m.sessions))) [
        | inl live ↦ rw live (refl, inl (refl, refl, refl))
        | inr gone ↦
            rw gone (refl, inr (refl, refl, queue_of-queue_pending_message m key k msg now b))
      ]

  length-queued :
      (q : List (PendingMessage J)) (p : PendingMessage J)
      → length (queued q p) ≤ max_pending_messages
  length-queued q p = omega (
    arith,
    length-drop (suc (length q) - max_pending_messages) (q ++ p ∷ []),
    length-append q (p ∷ []),
  )

  -- Sending, registering and cleaning up keep every session's queue within a hundred messages.
  pub send_to_session-IsBounded :
      (m : SessionManager J) (accepts : ℕ → Bool) (key : ℕ) (msg : ServerToProxy J) (now : ℕ)
      → IsBounded m
      → IsBounded (send_to_session m accepts key msg now).0
  send_to_session-IsBounded m accepts key msg now b k = ground (
    arith,
    b k,
    length-queued (queue_of m key) (entry msg now),
    send_to_session_cases m accepts key k msg now b,
  )

  pub register_session-IsBounded :
      (m : SessionManager J) (accepts : ℕ → Bool) (key sender now : ℕ)
      → IsBounded m
      → IsBounded (register_session m accepts key sender now).0
  unfolding register_session
  register_session-IsBounded m accepts key sender now b k =
      ground (arith, b k, lookup-remove key k m.pending_messages)

  pub unregister_session-IsBounded :
      (m : SessionManager J) (key : ℕ) (gen : Option ℕ)
      → IsBounded m
      → IsBounded (unregister_session m key gen)
  unfolding unregister_session
  unregister_session-IsBounded m key gen b k = ground (arith, b k)
