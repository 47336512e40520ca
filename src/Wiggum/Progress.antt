-- ===== src/Wiggum/Progress.antt =====
-- What claude-session-lib/src/proxy_session/wiggum.rs shows of the loops that have been finished.
use claude_code_portal.Prelude.{
  ℕ, zero, suc, ◌+◌, ◌-◌, ◌≤◌, ◌%◌, ◌^◌, ◌≡◌, refl, sym, ap, ◌∙◌, String, List, [], ◌∷◌, ◌++◌,
  Option, none, some, inl, inr, arith, Bool-cases, ltb, length, drop, length-append, length-drop,
  drop-append, drop-drop,
}
use mathlib.Core.Path.{subst}
use mathlib.Core.List.{append_assoc, append-nil}
use claude_code_portal.Reconnection.{ConnectionResult}
use claude_code_portal.OutputBuffer.{PendingOutputBuffer}
use claude_code_portal.WiggumState.{
  WiggumState, wiggum_max_iterations, activated, record_duration, numbered, start_iter,
}
use claude_code_portal.Wiggum.{Rendering, Handled, Action, handle_output}
use claude_code_portal.Wiggum.Turns.{
  Turn, stopped, over, same, again, handle_output-Step, run_turns, finished, next_state,
}
use claude_code_portal.Wiggum.Limit.{off-turns}

abbrev pub last_ten {ℓ} : {A : Type ℓ} → List A → List A
last_ten xs = drop (length xs - 10) xs

record_duration-last_ten :
    (ds : List ℕ) (d : ℕ) → record_duration (last_ten ds) d ≡ last_ten (ds ++ d ∷ [])
unfolding record_duration
record_duration-last_ten ds d =
    let joined = sym (drop-append (length ds - 10) ds (d ∷ []) (ground arith)) in
    let size = length-append ds (d ∷ []) in
    let kept = length-drop (length ds - 10) ds in
    let more = length-append (last_ten ds) (d ∷ []) in
    elim (Bool-cases (ltb 10 (length (last_ten ds ++ d ∷ [])))) [
      | inl big ↦ rw big (
          ap (drop 1) joined
          ∙ (drop-drop 1 (length ds - 10) (ds ++ d ∷ [])
              ∙ ap (λ n. drop n (ds ++ d ∷ [])) (ground (arith, big, size, kept, more))))
      | inr small ↦
          rw small
            (joined ∙ ap (λ n. drop n (ds ++ d ∷ [])) (ground (arith, small, size, kept, more)))
    ]

length-numbered : (n : ℕ) (ds : List ℕ) → length (numbered n ds) ≡ length ds
unfolding numbered
length-numbered n [] = refl
length-numbered n (d ∷ ds) = omega (arith, length-numbered (n + 1) ds)

drop-numbered : (k n : ℕ) (ds : List ℕ) → drop k (numbered n ds) ≡ numbered (n + k) (drop k ds)
unfolding numbered
drop-numbered zero n ds = ap (λ m. numbered m ds) (ground arith)
drop-numbered (suc k) n [] = refl
drop-numbered (suc k) n (d ∷ ds) =
    drop-numbered k (n + 1) ds ∙ ap (λ m. numbered m (drop k ds)) (ground arith)

-- The loops before are those that took `before`.
Keeps : WiggumState → List ℕ → Type 0
Keeps w before =
    (w.iteration ≡ suc (length before))
    × ((w.loop_durations ≡ last_ten before) × (w.iteration ≤ wiggum_max_iterations))

rows_of_last :
    (w : WiggumState) (all : List ℕ)
    → w.iteration ≡ suc (length all)
    → w.loop_durations ≡ last_ten all
    → w.iteration ≤ wiggum_max_iterations
    → numbered (start_iter w) w.loop_durations ≡ last_ten (numbered 1 all)
unfolding start_iter
rows_of_last w all i ds b =
    let size = ap length ds ∙ length-drop (length all - 10) all in
    let first : start_iter w ≡ 1 + (length all - 10) = ground (arith, i, size, b) in
    ap (λ n. numbered n w.loop_durations) first
    ∙ (ap (numbered (1 + (length all - 10))) ds
        ∙ (sym (drop-numbered (length all - 10) 1 all)
            ∙ ap (λ n. drop (n - 10) (numbered 1 all)) (sym (length-numbered 1 all))))

abbrev unwrap : WiggumState → Option WiggumState → WiggumState
unwrap w none = w
unwrap w (some w') = w'

next_state-Keeps :
    (w : WiggumState) (before : List ℕ) (now sent_at : ℕ)
    → Keeps w before
    → (w.iteration + 1) % 2 ^ 32 ≤ wiggum_max_iterations
    → Keeps (next_state w now sent_at) (before ++ (now - w.loop_start) ∷ [])
unfolding Keeps
next_state-Keeps w before now sent_at (i, (ds, b)) within = (
  ground (arith, i, b, length-append before ((now - w.loop_start) ∷ [])),
  (
    ap (λ xs. record_duration xs (now - w.loop_start)) ds
        ∙ record_duration-last_ten before (now - w.loop_start),
    within,
  ),
)

module _ (P Permission : Type 0) {O J : Type 0} (rendering : Rendering O J) where
  -- If the mode is still on, its state is that of the loops `before`.
  Kept : Handled J × List (Action O J P Permission) × Option ConnectionResult → List ℕ → Type 0
  Kept out before =
      (w' : WiggumState) → out.2 ≡ none → out.0.wiggum_state ≡ some w' → Keeps w' before

  turns-Kept :
      (h : Handled J) (w : WiggumState) (turns : List (Turn O J)) (start : ℕ) (before : List ℕ)
      → h.wiggum_state ≡ some w
      → Keeps w before
      → Kept
          (run_turns {P = P} {Permission = Permission} rendering h turns start)
          (before ++ finished rendering w.loop_start turns)
  unfolding run_turns Kept
  turns-Kept h w [] start before e k = λ w' goes on.
      subst (Keeps w') (sym (append-nil before))
        (subst (λ x. Keeps x before) (ap (unwrap w) (sym e ∙ on)) k)
  turns-Kept h w (u ∷ turns) start before e k =
      let out =
        handle_output {P = P} {Permission = Permission} rendering u.session h u.output u.moment
          start in
      elim (handle_output-Step {P = P} {Permission = Permission} rendering u.session h w u.output
        u.moment start e) [
          | stopped r ends quiet ↦ rw (ends, run_turns) (λ w' bad on. ground (arith, bad))
          | over goes off quiet ↦
              rw (goes, run_turns)
                (λ w' goes' on.
                  ground (arith, on, (off-turns P Permission rendering out.0 turns start off).1))
          | same goes plain keeps quiet ↦
              rw (goes, run_turns, plain, finished) (turns-Kept out.0 w turns start before keeps k)
          | again m goes result within keeps one ↦
              rw (goes, run_turns, result, finished)
                (subst
                  (Kept (run_turns {P = P} {Permission = Permission} rendering out.0 turns start))
                  (append_assoc before ((u.moment.now - w.loop_start) ∷ [])
                    (finished rendering u.moment.sent_at turns))
                  (turns-Kept out.0 (next_state w u.moment.now u.moment.sent_at) turns start
                    (before ++ (u.moment.now - w.loop_start) ∷ []) keeps
                    (next_state-Keeps w before u.moment.now u.moment.sent_at k within)))
        ]

  -- While the mode is on, the loop's number is one more than the results so far, and the rows of the status
  -- are the last ten of the finished loops, each under its number and with the time from its prompt to its
  -- result: the subtraction that numbers them does not wrap.
  pub wiggum_status_rows :
      (buffer : PendingOutputBuffer J) (prompt : String) (now start : ℕ) (turns : List (Turn O J))
      (w : WiggumState)
      → (run_turns {P = P} {Permission = Permission} rendering
          (record { wiggum_state = some (activated prompt now); output_buffer = buffer })
          turns
          start).2
        ≡ none
      → (run_turns {P = P} {Permission = Permission} rendering
          (record { wiggum_state = some (activated prompt now); output_buffer = buffer })
          turns
          start).0.wiggum_state
        ≡ some w
      → (w.iteration ≡ 1 + length (finished rendering now turns))
        × ((numbered (start_iter w) w.loop_durations
              ≡ last_ten (numbered 1 (finished rendering now turns)))
            × (w.iteration ≤ wiggum_max_iterations))
  unfolding activated Kept Keeps start_iter
  wiggum_status_rows buffer prompt now start turns w goes on =
      let all = finished rendering now turns in
      let (i, (ds, b)) =
        turns-Kept (record { wiggum_state = some (activated prompt now); output_buffer = buffer })
          (activated prompt now) turns start [] refl (refl, (refl, ground arith)) w goes on in
      (ground (arith, i), (rows_of_last w all i ds b, b))
