-- ===== src/MessageHandlers/Dedup.antt =====
-- Which outputs the backend takes, and which it takes for duplicates.
use claude_code_portal.Prelude.{
  String, ℕ, ◌≤◌, ◌<◌, max, ◌≡◌, refl, inl, inr, Bool, true, ◌&&◌, List, [], ◌∷◌, Option, none,
  some, ap, ◌∙◌, arith, leb, ltb, le→leb, leb→le, lt→leb_false, ◌==◌, if◌then◌else◌, lookup,
  lookup-insert, Bool-cases, Option-cases,
}
use claude_code_portal.Protocol.{output_ack}
use claude_code_portal.SessionManager.{SessionManager, Sent, to_proxy, queue_truncation}
use claude_code_portal.SessionManager.Clients.{deliver, broadcast_to_web_clients}
use claude_code_portal.MessageHandlers.{
  find_session, Content, Backend, Outcome, or_zero, is_duplicate, take_sender, broadcast_output,
  raise_ack, store_output, store_if_connected, reject_duplicate, handle_claude_output,
}

-- The highest number acknowledged to a session, or 0.
abbrev pub acked : {J : Type 0} → SessionManager J → ℕ → ℕ
acked m session = or_zero (lookup session m.last_ack_seq)

module _ {J F : Type 0} (json : Content J F) where
  pub take_sender-acks :
      (m : SessionManager J) (session : Option ℕ) (c : J)
      → (take_sender json m session c).0.last_ack_seq ≡ m.last_ack_seq
  unfolding take_sender
  take_sender-acks m none c = refl
  take_sender-acks m (some session) c = ground arith

  pub broadcast_output-acks :
      (m : SessionManager J) (accepts : ℕ → Bool) (key : Option ℕ) (c : J) (s : Option (ℕ × String))
      → (broadcast_output json m accepts key c s).0.last_ack_seq ≡ m.last_ack_seq
  unfolding broadcast_output broadcast_to_web_clients
  broadcast_output-acks m accepts none c s = refl
  broadcast_output-acks m accepts (some key) c s = ground arith

  raise_ack-acked :
      (m : SessionManager J) (session k n : ℕ)
      → acked (raise_ack json m session n) k
        ≡ (if session == k then max (acked m session) n else acked m k)
  unfolding raise_ack
  raise_ack-acked m session k n = ground (
    arith,
    lookup-insert session k
        (elim (lookup session m.last_ack_seq) [ none ↦ n | some v ↦ if ltb v n then n else v ])
        m.last_ack_seq,
  )

  queue_truncation-acked :
      (m : SessionManager J) (session k : ℕ) → acked (queue_truncation m session) k ≡ acked m k
  unfolding queue_truncation
  queue_truncation-acked m session k = ground arith

  store_output-acked :
      (b : Backend J F) (accepts : ℕ → Bool) (out : Outcome) (now session tx k : ℕ) (c : J) (n : ℕ)
      (s : Option (ℕ × String))
      → acked (store_output json b accepts out now session tx c (some n) s).0.manager k
        ≡ (if session == k then max (acked b.manager session) n else acked b.manager k)
  unfolding store_output
  store_output-acked b accepts out now session tx k c n s =
      elim (Option-cases (find_session json out.finds b.db session)) [
        | inl e ↦ rw e (raise_ack-acked b.manager session k n)
        | inr (row, e) ↦ rw e (
            raise_ack-acked (queue_truncation b.manager session) session k n
            ∙ rw (
              queue_truncation-acked b.manager session session,
              queue_truncation-acked b.manager session k,
            ))
      ]

  module _ (b : Backend J F) (accepts : ℕ → Bool) (out : Outcome) (now session tx : ℕ)
      (key : Option ℕ) where
    abbrev pub handled : J → ℕ → Backend J F × List (Sent J)
    handled c n = handle_claude_output json b accepts out now key (some session) tx c (some n)

    pub duplicate :
        (c : J) (n : ℕ)
        → n ≤ acked b.manager session
        → handled c n ≡ (b, deliver accepts to_proxy (output_ack session n) (tx ∷ []))
    unfolding handle_claude_output is_duplicate reject_duplicate
    duplicate c n h = rw (le→leb n (acked b.manager session) h)

    -- The backend when the output has been broadcast.
    abbrev pub announced : J → Backend J F
    announced c =
        let (m, sender) = take_sender json b.manager (some session) c in
        record b { manager = (broadcast_output json m accepts key c sender).0 }

    announced-acked : (c : J) (k : ℕ) → acked (announced c).manager k ≡ acked b.manager k
    announced-acked c k =
        let (m, sender) = take_sender json b.manager (some session) c in
        ap (λ l. or_zero (lookup k l))
          (broadcast_output-acks m accepts key c sender
            ∙ take_sender-acks b.manager (some session) c)

    -- What was acknowledged after an output that is no duplicate: the mark of its session rises to its
    -- number if the database can be reached, and stays if it cannot; other sessions keep theirs.
    pub taken-acked :
        (c : J) (n k : ℕ)
        → acked b.manager session < n
        → acked (handled c n).0.manager k
          ≡ (if out.connects && session == k then n else acked b.manager k)
    unfolding handle_claude_output is_duplicate store_if_connected
    taken-acked c n k h =
        rw (lt→leb_false n (acked b.manager session) h) (elim (Bool-cases out.connects) [
          | inl up ↦ simp up (
              store_output-acked (announced c) accepts out now session tx k c n
                (take_sender json b.manager (some session) c).1
              ∙ ground (arith, announced-acked c session, announced-acked c k))
          | inr down ↦ simp down (announced-acked c k)
        ])

  module _ (b : Backend J F) (accepts : ℕ → Bool) (out : Outcome) (now session tx : ℕ)
      (key : Option ℕ) where
    -- Once an output was handled with the database at hand, an output of the session with the same or a
    -- lower number, whatever its content, changes nothing and reaches no web client: it is acknowledged.
    pub handle_claude_output_once :
        (c c' : J) (n n' later : ℕ) (out' : Outcome) (key' : Option ℕ)
        → out.connects ≡ true
        → n' ≤ n
        → let b' =
            (handle_claude_output json b accepts out now key (some session) tx c (some n)).0 in
          handle_claude_output json b' accepts out' later key' (some session) tx c' (some n')
          ≡ (b', deliver accepts to_proxy (output_ack session n') (tx ∷ []))
    handle_claude_output_once c c' n n' later out' key' up less =
        duplicate (handled b accepts out now session tx key c n).0 accepts out' later session tx
          key' c' n'
          (elim (Bool-cases (leb n (acked b.manager session))) [
            | inl old ↦
                rw (duplicate b accepts out now session tx key c n (leb→le n _ old))
                  (omega (arith, leb→le n _ old))
            | inr new ↦ ground (arith, taken-acked b accepts out now session tx key c n session)
          ])

  -- The first output of a session, numbered 0, is taken for a duplicate while nothing of the session
  -- was acknowledged: it is neither stored nor broadcast, and it is acknowledged.
  pub first_output_rejected :
      (b : Backend J F) (accepts : ℕ → Bool) (out : Outcome) (now session tx : ℕ) (key : Option ℕ)
      (c : J)
      → lookup session b.manager.last_ack_seq ≡ none
      → handle_claude_output json b accepts out now key (some session) tx c (some 0)
        ≡ (b, deliver accepts to_proxy (output_ack session 0) (tx ∷ []))
  first_output_rejected b accepts out now session tx key c e =
      duplicate b accepts out now session tx key c 0 (omega arith)
