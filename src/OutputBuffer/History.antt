-- ===== src/OutputBuffer/History.antt =====
-- Every buffer that a run of the proxy can reach from one that `PendingOutputBuffer::new` gives.
use mathlib.Core.Option.{some-injective}
use mathlib.Core.Path.{subst}
use claude_code_portal.Prelude.{
  ℕ, zero, suc, length-append, drop_all, ◌+◌, ◌-◌, ◌≤◌, ◌<◌, ◌≡◌, ◌≢◌, max, min, refl, sym, ap, ◌∙◌,
  List, [], ◌∷◌, ◌++◌, map, some, arith, length, drop, leb, leb→le, Bool-cases, inl, inr,
  length-map,
}
use claude_code_portal.Numbered.{numbered}
use claude_code_portal.OutputBuffer.{
  PendingOutputBuffer, BufferState, Codec, Reading, contents, with_content, max_memory_messages,
  u64_mod, load_state, push, acknowledge, new, pending_count, with_contents, fresh, read_state,
}
use claude_code_portal.OutputBuffer.Window.{
  Log, output, log_push, log_ack, Represents, fresh-Represents, push-Represents,
  acknowledge-Represents, length-window, ack_window,
}
use claude_code_portal.OutputBuffer.Reload.{loaded_again, load_fields, new-fresh}

-- `Reach codec id path sent mark b`: the program started without a file of the session that can be read; the
-- outputs `sent` were pushed; numbers that were handed out, other than 0, were acknowledged in any order,
-- repeatedly or not at all; and the program was started again from a file with the buffer's state, where
-- each content is what its JSON reads. `mark` is one more than the highest number that was acknowledged; a
-- buffer with outputs that is loaded counts 0 as acknowledged.
pub data Reach {A T : Type 0} (codec : Codec A T) (id path : ℕ)
    : List A → ℕ → PendingOutputBuffer A → Type 0 where
  start :
      (reading : Reading T)
      → ((t : T) (s : BufferState A)
          → reading ≡ contents t
          → codec.parse t ≡ some s
          → s.session_id ≢ id)
      → {b : PendingOutputBuffer A} → new codec id (some path) reading ≡ some b
      → Reach codec id path [] 0 b
  pushes :
      {sent : List A} {mark : ℕ} {b : PendingOutputBuffer A}
      → Reach codec id path sent mark b
      → (c : A) → length sent + 1 < u64_mod
      → Reach codec id path (sent ++ c ∷ []) mark (push b c).0
  acknowledges :
      {sent : List A} {mark : ℕ} {b : PendingOutputBuffer A}
      → Reach codec id path sent mark b
      → (k : ℕ) → 0 < k
      → k < length sent
      → Reach codec id path sent (max mark (suc k)) (acknowledge b k)
  reloads :
      {sent : List A} {mark : ℕ} {b : PendingOutputBuffer A}
      → Reach codec id path sent mark b
      → (t : T) → codec.print b.state ≡ some t
      → {b' : PendingOutputBuffer A} → new codec id (some path) (contents t) ≡ some b'
      → Reach codec id path (map codec.reread sent) (max mark (min 1 (length sent))) b'

module _ {A : Type 0} where
  abbrev log_of : List A → ℕ → Log A
  log_of sent mark = record { sent = sent; first = max mark (length sent - max_memory_messages) }

  record Holds (id : ℕ) (sent : List A) (mark : ℕ) (s : BufferState A) : Type 0 where
    window : Represents (log_of sent mark) s
    last : s.last_ack_seq ≡ mark - 1
    below : mark ≤ length sent
    own : s.session_id ≡ id

  numbered-map :
      (f : A → A) (k : ℕ) (xs : List A)
      → map (with_content f) (numbered output k xs) ≡ numbered output k (map f xs)
  numbered-map f k [] = refl
  numbered-map f k (x ∷ xs) = ap (◌∷◌ (output k (f x))) (numbered-map f (suc k) xs)

  drop-map : (f : A → A) (n : ℕ) (xs : List A) → drop n (map f xs) ≡ map f (drop n xs)
  drop-map f zero xs = refl
  drop-map f (suc n) [] = refl
  drop-map f (suc n) (x ∷ xs) = drop-map f n xs

  acknowledge-last :
      (b : PendingOutputBuffer A) (k : ℕ)
      → ((acknowledge b k).state.last_ack_seq ≡ max b.state.last_ack_seq k)
        × ((acknowledge b k).state.session_id ≡ b.state.session_id)
  unfolding acknowledge
  acknowledge-last b k = elim (Bool-cases (leb k b.state.last_ack_seq)) [
    | inl old ↦ rw old (omega (arith, leb→le k _ old), refl)
    | inr new ↦ rw new (ground (arith, new), refl)
  ]

  fresh-Holds : (id : ℕ) → Holds id [] 0 (fresh id)
  unfolding fresh
  fresh-Holds id = record {
    window = fresh-Represents id;
    last = refl;
    below = omega arith;
    own = refl;
  }

  push-Holds :
      (id : ℕ) (sent : List A) (mark : ℕ) (b : PendingOutputBuffer A) (c : A)
      → Holds id sent mark b.state
      → length sent + 1 < u64_mod
      → Holds id (sent ++ c ∷ []) mark (push b c).0.state
  unfolding push
  push-Holds id sent mark b c h small =
      let n = length-append sent (c ∷ []) in
      let e : (log_push (log_of sent mark) c).first ≡ (log_of (sent ++ c ∷ []) mark).first =
        omega (arith, n) in
      record {
        window =
            subst (λ k. Represents (record { sent = sent ++ c ∷ []; first = k }) (push b c).0.state)
              e (push-Represents (log_of sent mark) b c h.window small).0;
        last = h.last;
        below = omega (arith, n, h.below);
        own = h.own;
      }

  acknowledge-Holds :
      (id : ℕ) (sent : List A) (mark : ℕ) (b : PendingOutputBuffer A) (k : ℕ)
      → Holds id sent mark b.state
      → 0 < k
      → k < length sent
      → Holds id sent (max mark (suc k)) (acknowledge b k).state
  acknowledge-Holds id sent mark b k h pos known =
      let e : (log_ack (log_of sent mark) k).first ≡ (log_of sent (max mark (suc k))).first =
        omega arith in
      record {
        window =
            subst (λ j. Represents (record { sent = sent; first = j }) (acknowledge b k).state) e
              (acknowledge-Represents (log_of sent mark) b k h.window pos known);
        last = (acknowledge-last b k).0 ∙ ap (λ j. max j k) h.last ∙ omega arith;
        below = omega (arith, h.below);
        own = (acknowledge-last b k).1 ∙ h.own;
      }

  -- Which of two windows over nothing, or that start alike, does not matter.
  window-same :
      (f : A → A) (sent : List A) (mark last : ℕ)
      → last ≡ mark - 1
      → let F = max (log_of sent mark).first (suc last) in
        let F' = (log_of (map f sent) (max mark (min 1 (length sent)))).first in
        numbered output F (drop F (map f sent)) ≡ numbered output F' (drop F' (map f sent))
  window-same f [] mark last e =
      rw
        (
          drop_all {A = A} (max (log_of [] mark).first (suc last)) [] (omega arith),
          drop_all {A = A} (log_of [] (max mark (min 1 0))).first [] (omega arith),
        )
        refl
  window-same f (x ∷ sent) mark last e =
      ap (λ k. numbered output k (drop k (map f (x ∷ sent)))) (omega (arith, e, length-map f sent))

  load-eq :
      (f : A → A) (id : ℕ) (sent : List A) (mark : ℕ) (s : BufferState A)
      → Holds id sent mark s
      → let F' = (log_of (map f sent) (max mark (min 1 (length sent)))).first in
        load_state s.session_id (some (with_contents f s))
        ≡ record s { pending = numbered output F' (drop F' (map f sent)) }
  load-eq f id sent mark s h =
      let F = max (log_of sent mark).first (suc s.last_ack_seq) in
      loaded_again f s
      ∙ ap (with_contents f) (load_fields s)
      ∙ ap (λ xs. record s { pending = xs })
          (ap (map (with_content f)) (ack_window (log_of sent mark) s s.last_ack_seq h.window)
            ∙ numbered-map f F (drop F sent)
            ∙ ap (numbered output F) (sym (drop-map f F sent))
            ∙ window-same f sent mark s.last_ack_seq h.last)

  load-Holds :
      (f : A → A) (id : ℕ) (sent : List A) (mark : ℕ) (s : BufferState A)
      → Holds id sent mark s
      → Holds id
          (map f sent)
          (max mark (min 1 (length sent)))
          (load_state id (some (with_contents f s)))
  load-Holds f id sent mark s h =
      let n = length-map f sent in
      subst
        (λ i.
          Holds id (map f sent) (max mark (min 1 (length sent)))
            (load_state i (some (with_contents f s))))
        h.own
        (subst (Holds id (map f sent) (max mark (min 1 (length sent))))
          (sym (load-eq f id sent mark s h))
          (record {
            window = record {
              counted = h.window.counted ∙ sym n;
              within = omega (arith, n, h.below);
              window = refl;
              capped = omega (arith, n);
              acked = elim h.window.acked [
                | inl z ↦ inl z
                | inr lt ↦ inr (omega (arith, lt, n, h.last, h.below))
              ];
            };
            last = h.last ∙ omega (arith, h.below);
            below = omega (arith, n, h.below);
            own = h.own;
          }))

Reach-Holds :
    {A T : Type 0} {codec : Codec A T} {id path : ℕ} {sent : List A} {mark : ℕ}
    {b : PendingOutputBuffer A}
    → Reach codec id path sent mark b
    → Holds id sent mark b.state
unfolding new read_state
Reach-Holds {codec = codec} {id = id} {path = path} (start reading foreign e) =
    subst (λ (b : PendingOutputBuffer _). Holds id [] 0 b.state)
      (some-injective _ _ (sym (new-fresh codec id path reading foreign) ∙ e)) (fresh-Holds id)
Reach-Holds {id = id} (pushes {sent = sent} {mark = mark} {b = b} r c small) =
    push-Holds id sent mark b c (Reach-Holds r) small
Reach-Holds {id = id} (acknowledges {sent = sent} {mark = mark} {b = b} r k pos known) =
    acknowledge-Holds id sent mark b k (Reach-Holds r) pos known
Reach-Holds {codec = codec} {id = id} (reloads {sent = sent} {mark = mark} {b = b} r t prints e) =
    subst
      (λ (b' : PendingOutputBuffer _).
        Holds id (map codec.reread sent) (max mark (min 1 (length sent))) b'.state)
      (some-injective _ _ e)
      (subst
        (λ o. Holds id (map codec.reread sent) (max mark (min 1 (length sent))) (load_state id o))
        (sym (codec.parse-print b.state t prints))
        (load-Holds codec.reread id sent mark b.state (Reach-Holds r)))

-- From a start without a file of the session, over fewer than 2 ^ 64 pushes, acknowledgements of numbers that
-- were handed out, other than 0, and restarts from a file that holds the buffer's state: the pending outputs
-- are the ones that were pushed from `mark` on, the newest thousand of them if they are more, in order and
-- under their own numbers; the next number is the count of all outputs, and the acknowledgement is `mark`
-- less one.
pub Reach-pending :
    {A T : Type 0} {codec : Codec A T} {id path : ℕ} {sent : List A} {mark : ℕ}
    {b : PendingOutputBuffer A}
    → Reach codec id path sent mark b
    → (b.state.pending
        ≡ numbered output
            (max mark (length sent - 1000))
            (drop (max mark (length sent - 1000)) sent))
      × (b.state.next_seq ≡ length sent)
      × (b.state.last_ack_seq ≡ mark - 1)
      × (pending_count b ≤ 1000)
Reach-pending {b = b} r =
    let h = Reach-Holds r in
    (
      h.window.window,
      h.window.counted,
      h.last,
      omega (arith, length-window h.window, h.window.capped),
    )
