-- ===== src/OutputBuffer/Reload.antt =====
-- Writing the buffer to its file and loading it again.
use claude_code_portal.Prelude.{
  ℕ, suc, ◌+◌, ◌<◌, max, ◌≡◌, ◌≢◌, refl, sym, ap, ◌∙◌, ◌⊎◌, inl, inr, none, some, Bool, true, false,
  arith, List, [], ◌∷◌, map, ==_refl, drop, retain, Option-cases, drop-drop,
}
use claude_code_portal.Numbered.{numbered, drop-numbered}
use claude_code_portal.OutputBuffer.{
  BufferState, PendingOutput, with_content, with_contents, PendingOutputBuffer, Disk, Reading,
  absent, unreadable, contents, Writing, written, Codec, persisted, above, read_state, write_out,
  fresh, load_state, acknowledge, new, persist,
}
use claude_code_portal.OutputBuffer.Window.{Log, output, log_ack, Represents, ack_window}

-- What a later start of the program reads: the file, if there is one.
abbrev pub reading_of : {T : Type 0} → Disk T → Reading T
reading_of d = elim d.file [ none ↦ absent | some t ↦ contents t ]

module _ {A : Type 0} where
  pub load_fields :
      (s : BufferState A)
      → load_state s.session_id (some s)
        ≡ record s { pending = retain (above s.last_ack_seq) s.pending }
  unfolding load_state
  load_fields s = rw (==_refl s.session_id)

  -- Loading keeps what is numbered above the last acknowledgement.
  loaded_pending :
      (l : Log A) (s : BufferState A)
      → Represents l s
      → (load_state s.session_id (some s)).pending
        ≡ numbered output
            (log_ack l s.last_ack_seq).first
            (drop (log_ack l s.last_ack_seq).first l.sent)
  loaded_pending l s r = rw (load_fields s) (ack_window l s s.last_ack_seq r)

  retain-with_contents :
      (f : A → A) (a : ℕ) (xs : List (PendingOutput A))
      → retain (above a) (map (with_content f) xs) ≡ map (with_content f) (retain (above a) xs)
  retain-with_contents f a [] = refl
  retain-with_contents f a (x ∷ xs) = ground (arith, retain-with_contents f a xs)

  map-same : (xs : List (PendingOutput A)) → map (with_content (λ c. c)) xs ≡ xs
  map-same [] = refl
  map-same (x ∷ xs) = ap (◌∷◌ x) (map-same xs)

  -- Values that come back as they were leave the state as it was.
  pub with_contents-same : (s : BufferState A) → with_contents (λ x. x) s ≡ s
  with_contents-same s = ap (λ xs. record s { pending = xs }) (map-same s.pending)

  -- Loading what was written and read is what loading it would be, with the values read.
  pub loaded_again :
      (f : A → A) (s : BufferState A)
      → load_state s.session_id (some (with_contents f s))
        ≡ with_contents f (load_state s.session_id (some s))
  loaded_again f s =
      load_fields (with_contents f s)
      ∙ ap (λ xs. record s { pending = xs }) (retain-with_contents f s.last_ack_seq s.pending)
      ∙ sym (ap (with_contents f) (load_fields s))

  loaded_self :
      (l : Log A) (s : BufferState A)
      → Represents l s
      → 0 < s.last_ack_seq
      → load_state s.session_id (some s) ≡ s
  loaded_self l s r pos =
      let e : max l.first (suc s.last_ack_seq) ≡ l.first = omega (arith, r.acked) in
      let p : retain (above s.last_ack_seq) s.pending ≡ s.pending =
        ack_window l s s.last_ack_seq r ∙ rw e (sym r.window) in
      load_fields s ∙ ap (λ xs. record s { pending = xs }) p

  -- A buffer of which nothing was acknowledged yet, and that has dropped nothing, comes back from its
  -- file without its oldest output, the one numbered 0; an acknowledgement of 0 removes nothing.
  pub first_output_lost :
      (l : Log A) (b : PendingOutputBuffer A)
      → Represents l b.state
      → l.first ≡ 0
      → b.state.last_ack_seq ≡ 0
      → ((load_state b.state.session_id (some b.state)).pending ≡ drop 1 b.state.pending)
        × (acknowledge b 0 ≡ b)
  unfolding acknowledge
  first_output_lost l b r start none_acked =
      let e : max l.first (suc b.state.last_ack_seq) ≡ l.first + 1 = omega arith in
      (
        loaded_pending l b.state r
            ∙ rw (
              e,
              r.window,
              drop-numbered output 1 l.first (drop l.first l.sent),
              drop-drop 1 l.first l.sent,
            ),
        ground arith,
      )

module _ {A T : Type 0} (codec : Codec A T) where
  -- Whatever fails, the file holds its old text or all of the new one; on an error the buffer and the
  -- file are as they were, and after success the buffer counts as saved.
  pub persist_atomic :
      (b : PendingOutputBuffer A) (w : Writing T) (renames : Bool) (d : Disk T)
      → let (b', d', outcome) = persist codec b w renames d in
        ((outcome ≢ persisted) × (b' ≡ b) × (d'.file ≡ d.file))
        ⊎ ((outcome ≡ persisted)
            × (b'.state ≡ b.state)
            × (b'.dirty ≡ false)
            × ((d'.file ≡ codec.print b.state) ⊎ ((b.dirty ≡ false) × (d' ≡ d))))
  unfolding persist write_out
  persist_atomic b w renames d = ground arith

  -- Saved and loaded again, a buffer with an acknowledgement other than 0 has the same outputs pending, under
  -- the same numbers, each as its JSON reads, and the same counter and acknowledgement.
  pub new-persist :
      (l : Log A) (b : PendingOutputBuffer A) (t : T) (d : Disk T)
      → Represents l b.state
      → 0 < b.state.last_ack_seq
      → b.session_id ≡ b.state.session_id
      → b.dirty ≡ true
      → codec.print b.state ≡ some t
      → let (b', d', outcome) = persist codec b written true d in
        (outcome ≡ persisted)
        × (new codec b.session_id (some b.persist_path) (reading_of d')
            ≡ some (record b' { state = with_contents codec.reread b'.state }))
  unfolding persist write_out new read_state
  new-persist l b t d r pos same changed prints =
      rw (changed, prints)
        (
          refl,
          rw
              (
                codec.parse-print b.state t prints,
                same,
                loaded_again codec.reread b.state,
                loaded_self l b.state r pos,
              )
              refl,
        )

  -- A missing, unreadable or unparsable file, or one of another session, gives an empty buffer.
  pub new-fresh :
      (id path : ℕ) (reading : Reading T)
      → ((t : T) (s : BufferState A)
          → reading ≡ contents t
          → codec.parse t ≡ some s
          → s.session_id ≢ id)
      → new codec id (some path) reading
        ≡ some (record { session_id = id; persist_path = path; state = fresh id; dirty = false })
  unfolding new read_state load_state
  new-fresh id path absent h = refl
  new-fresh id path unreadable h = refl
  new-fresh id path (contents t) h = elim (Option-cases (codec.parse t)) [
    | inl e ↦ rw e
    | inr (s, e) ↦ rw e (ground (arith, h t s refl e))
  ]
