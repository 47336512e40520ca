-- ===== src/ReplayBuffer/Ack.antt =====
-- The buffer against the same specification as the proxy's: a log and the window still kept.
use claude_code_portal.Prelude.{
  ℕ, suc, ◌+◌, ◌-◌, ◌≤◌, ◌<◌, max, ◌≡◌, refl, sym, ap, ◌∙◌, inl, inr, List, [], ◌∷◌, ◌++◌, arith,
  ltb, leb, leb→le, le→ltb_false, lt→ltb, Bool-cases, length, drop, trim_front, length-append,
  length-drop, drop-append, drop-drop, trim_front-eq-drop, retain,
}
use claude_code_portal.Numbered.{
  numbered, length-numbered, numbered-append, drop-numbered, retain-numbered, retain-numbered_all,
}
use claude_code_portal.OutputBuffer.{u64_mod}
use claude_code_portal.OutputBuffer.Window.{Log, log_ack}
use claude_code_portal.ReplayBuffer.{BufferedOutput, OutputBuffer, push, ack_front, ack}

module _ {A : Type 0} where
  abbrev pub buffered : ℕ → A × ℕ → BufferedOutput A
  buffered k (c, t) = record { seq = k; content = c; timestamp = t }

  -- A log holds each output with the time it was pushed at.
  abbrev pub log_push : ℕ → Log (A × ℕ) → A × ℕ → Log (A × ℕ)
  log_push size l e = record {
    sent = l.sent ++ e ∷ [];
    first = max l.first (length l.sent + 1 - size);
  }

  pub record Replays (l : Log (A × ℕ)) (b : OutputBuffer A) : Type 0 where
    pub counted : b.next_seq ≡ length l.sent
    pub within : l.first ≤ length l.sent
    pub window : b.outputs ≡ numbered buffered l.first (drop l.first l.sent)
    pub capped : length l.sent ≤ l.first + b.max_size

  append-window :
      (l : Log (A × ℕ)) (b : OutputBuffer A) (c : A) (now : ℕ)
      → Replays l b
      → b.outputs ++ buffered b.next_seq (c, now) ∷ []
        ≡ numbered buffered l.first (drop l.first (l.sent ++ (c, now) ∷ []))
  append-window l b c now r =
      let e : length l.sent ≡ l.first + length (drop l.first l.sent) =
        omega (arith, length-drop l.first l.sent, r.within) in
      rw
        (
          r.window,
          r.counted,
          drop-append l.first l.sent ((c, now) ∷ []) r.within,
          numbered-append buffered,
        )
        (ap (λ k. numbered buffered l.first (drop l.first l.sent) ++ buffered k (c, now) ∷ []) e)

  push_window :
      (l : Log (A × ℕ)) (b : OutputBuffer A) (c : A) (now : ℕ)
      → Replays l b
      → let l' = log_push b.max_size l (c, now) in
        trim_front b.max_size (b.outputs ++ buffered b.next_seq (c, now) ∷ [])
        ≡ numbered buffered l'.first (drop l'.first l'.sent)
  push_window l b c now r =
      let sent : List (A × ℕ) = l.sent ++ (c, now) ∷ [] in
      let k : ℕ = length (numbered buffered l.first (drop l.first sent)) - b.max_size in
      let e : l.first + k ≡ (log_push b.max_size l (c, now)).first = omega (
        arith,
        length-numbered buffered l.first (drop l.first sent),
        length-drop l.first sent,
        length-append l.sent ((c, now) ∷ []),
        r.within,
      ) in
      rw (
        append-window l b c now r,
        trim_front-eq-drop b.max_size,
        drop-numbered buffered k l.first (drop l.first sent),
        drop-drop k l.first sent,
        e,
      )

  -- `push` appends to the log under the next number and keeps the newest `max_size` outputs. The
  -- counter must not wrap.
  pub push-Replays :
      (l : Log (A × ℕ)) (b : OutputBuffer A) (c : A) (now : ℕ)
      → Replays l b
      → length l.sent + 1 < u64_mod
      → Replays (log_push b.max_size l (c, now)) (push b c now).0
        × ((push b c now).1 ≡ length l.sent)
  unfolding push
  push-Replays l b c now r small = (
    record {
      counted = omega (arith, r.counted, length-append l.sent ((c, now) ∷ []));
      within = omega (arith, r.within, length-append l.sent ((c, now) ∷ []));
      window = push_window l b c now r;
      capped = omega (arith, r.capped, length-append l.sent ((c, now) ∷ []));
    },
    r.counted,
  )

  -- On consecutive numbers the loop that stops at the first survivor keeps what a full scan keeps.
  ack_front-eq-retain :
      (k f : ℕ) (xs : List (A × ℕ))
      → ack_front k (numbered buffered f xs) ≡ retain (λ o. ltb k o.seq) (numbered buffered f xs)
  ack_front-eq-retain k f [] = refl
  ack_front-eq-retain k f (x ∷ xs) = elim (Bool-cases (leb f k)) [
    | inl old ↦ rw (old, le→ltb_false k f (leb→le f k old)) (ack_front-eq-retain k (suc f) xs)
    | inr new ↦
        let p : k < f = ground arith in
        rw (new, lt→ltb k f p)
          (ap (◌∷◌ (buffered f x)) (
            sym
              (retain-numbered_all buffered (λ o. o.seq) (λ j c. refl) k (suc f) xs (omega arith))))
  ]

  -- `ack` removes exactly the outputs up to the number it is given.
  pub ack-Replays :
      (l : Log (A × ℕ)) (b : OutputBuffer A) (k : ℕ)
      → Replays l b
      → k < length l.sent
      → Replays (log_ack l k) (ack b k) × ((ack b k).outputs ≡ retain (λ o. ltb k o.seq) b.outputs)
  unfolding ack
  ack-Replays l b k r known =
      let kept : ack_front k b.outputs ≡ retain (λ o. ltb k o.seq) b.outputs =
        rw r.window (ack_front-eq-retain k l.first (drop l.first l.sent)) in
      let e : l.first + (suc k - l.first) ≡ max l.first (suc k) = omega arith in
      let cut : retain (λ o. ltb k o.seq) b.outputs
          ≡ numbered buffered (log_ack l k).first (drop (log_ack l k).first l.sent) =
        rw (
          r.window,
          retain-numbered buffered (λ o. o.seq) (λ j c. refl) k l.first (drop l.first l.sent),
          drop-drop (suc k - l.first) l.first l.sent,
          e,
        ) in
      (
        record {
          counted = r.counted;
          within = omega (arith, r.within);
          window = kept ∙ cut;
          capped = omega (arith, r.capped);
        },
        kept,
      )
