-- ===== src/OutputBuffer/Window.antt =====
-- The buffer against its specification: a log of all outputs, and the window that is still kept.
use claude_code_portal.Prelude.{
  ℕ, suc, ◌+◌, ◌-◌, ◌≤◌, ◌<◌, max, ◌≡◌, refl, ap, ◌∙◌, ◌⊎◌, inl, inr, List, [], ◌∷◌, ◌++◌, arith,
  ltb, leb, leb→le, Bool-cases, if◌then◌else◌, length, drop, trim_front, length-append, length-drop,
  drop-append, drop-drop, trim_front-eq-drop, retain,
}
use claude_code_portal.Numbered.{
  numbered, length-numbered, numbered-append, drop-numbered, retain-numbered,
}
use claude_code_portal.OutputBuffer.{
  PendingOutput, BufferState, PendingOutputBuffer, max_memory_messages, u64_mod, above, fresh, push,
  acknowledge,
}

-- Every output that was pushed, oldest first, and the number of the first one still kept.
pub record Log (A : Type 0) : Type 0 where
  pub sent : List A
  pub first : ℕ

module _ {A : Type 0} where
  abbrev pub output : ℕ → A → PendingOutput A
  output k c = record { seq = k; content = c }

  abbrev pub empty_log : Log A
  empty_log = record { sent = []; first = 0 }

  -- A new output enters the log; the window keeps at most the newest thousand.
  abbrev pub log_push : Log A → A → Log A
  log_push l c = record {
    sent = l.sent ++ c ∷ [];
    first = max l.first (length l.sent + 1 - max_memory_messages);
  }

  -- All outputs up to and including `k` leave the window.
  abbrev pub log_ack : Log A → ℕ → Log A
  log_ack l k = record l { first = max l.first (suc k) }

  pub record Represents (l : Log A) (s : BufferState A) : Type 0 where
    pub counted : s.next_seq ≡ length l.sent
    pub within : l.first ≤ length l.sent
    pub window : s.pending ≡ numbered output l.first (drop l.first l.sent)
    pub capped : length l.sent ≤ l.first + max_memory_messages
    pub acked : (s.last_ack_seq ≡ 0) ⊎ (s.last_ack_seq < l.first)

  pub fresh-Represents : (id : ℕ) → Represents empty_log (fresh id)
  unfolding fresh
  fresh-Represents id = record {
    counted = refl;
    within = omega arith;
    window = refl;
    capped = omega arith;
    acked = inl refl;
  }

  pub length-window :
      {l : Log A} {s : BufferState A} → Represents l s → length s.pending ≡ length l.sent - l.first
  length-window {l} r = ap length r.window ∙ length-numbered output _ _ ∙ length-drop l.first l.sent

  -- The window with the new output behind it.
  append-window :
      (l : Log A) (s : BufferState A) (c : A)
      → Represents l s
      → s.pending ++ record { seq = s.next_seq; content = c } ∷ []
        ≡ numbered output l.first (drop l.first (l.sent ++ c ∷ []))
  append-window l s c r =
      rw (r.window, r.counted, drop-append l.first l.sent (c ∷ []) r.within, numbered-append output)
        (ap (λ k. numbered output l.first (drop l.first l.sent) ++ output k c ∷ [])
          (omega (arith, length-drop l.first l.sent, r.within)))

  pub trimmed-eq-drop :
      (xs : List (PendingOutput A))
      → (if ltb max_memory_messages (length xs) then trim_front max_memory_messages xs else xs)
        ≡ drop (length xs - max_memory_messages) xs
  trimmed-eq-drop xs = elim (Bool-cases (ltb max_memory_messages (length xs))) [
    | inl over ↦ rw over (trim_front-eq-drop max_memory_messages xs)
    | inr fits ↦ let z : length xs - max_memory_messages ≡ 0 = ground arith in rw (fits, z)
  ]

  push_window :
      (l : Log A) (s : BufferState A) (c : A)
      → Represents l s
      → let xs = s.pending ++ record { seq = s.next_seq; content = c } ∷ [] in
        drop (length xs - max_memory_messages) xs
        ≡ numbered output (log_push l c).first (drop (log_push l c).first (log_push l c).sent)
  push_window l s c r =
      let sent : List A = l.sent ++ c ∷ [] in
      let k : ℕ = length (numbered output l.first (drop l.first sent)) - max_memory_messages in
      let e : l.first + k ≡ (log_push l c).first = omega (
        arith,
        length-numbered output l.first (drop l.first sent),
        length-drop l.first sent,
        length-append l.sent (c ∷ []),
        r.within,
      ) in
      rw
        (
          append-window l s c r,
          drop-numbered output k l.first (drop l.first sent),
          drop-drop k l.first sent,
          e,
        )
        refl

  -- `push` hands out the next number of the log, appends the output to the log, and keeps the newest
  -- thousand unacknowledged outputs, whatever the window was. The counter must not wrap.
  pub push-Represents :
      (l : Log A) (b : PendingOutputBuffer A) (c : A)
      → Represents l b.state
      → length l.sent + 1 < u64_mod
      → Represents (log_push l c) (push b c).0.state × ((push b c).1 ≡ length l.sent)
  unfolding push
  push-Represents l b c r small = (
    record {
      counted = omega (arith, r.counted, length-append l.sent (c ∷ []));
      within = omega (arith, r.within, length-append l.sent (c ∷ []));
      window =
          trimmed-eq-drop (b.state.pending ++ record { seq = b.state.next_seq; content = c } ∷ [])
          ∙ push_window l b.state c r;
      capped = omega (arith, r.capped, length-append l.sent (c ∷ []));
      acked = ground (arith, r.acked);
    },
    r.counted,
  )

  pub ack_window :
      (l : Log A) (s : BufferState A) (k : ℕ)
      → Represents l s
      → retain (above k) s.pending
        ≡ numbered output (log_ack l k).first (drop (log_ack l k).first l.sent)
  ack_window l s k r =
      let e : l.first + (suc k - l.first) ≡ max l.first (suc k) = omega arith in
      rw (
        r.window,
        retain-numbered output (λ m. m.seq) (λ j c. refl) k l.first (drop l.first l.sent),
        drop-drop (suc k - l.first) l.first l.sent,
        e,
      )

  -- An acknowledgement of an assigned number other than 0 removes exactly the outputs up to it.
  pub acknowledge-Represents :
      (l : Log A) (b : PendingOutputBuffer A) (k : ℕ)
      → Represents l b.state
      → 0 < k
      → k < length l.sent
      → Represents (log_ack l k) (acknowledge b k).state
  unfolding acknowledge
  acknowledge-Represents l b k r pos known = elim (Bool-cases (leb k b.state.last_ack_seq)) [
    | inl old ↦
        let e : max l.first (suc k) ≡ l.first = omega (arith, leb→le k _ old, r.acked) in
        rw (old, e) r
    | inr new ↦ rw new (record {
      counted = r.counted;
      within = omega (arith, r.within);
      window = ack_window l b.state k r;
      capped = omega (arith, r.capped);
      acked = inr (omega arith);
    })
  ]
