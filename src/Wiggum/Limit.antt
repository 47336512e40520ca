-- ===== src/Wiggum/Limit.antt =====
-- How long the mode of claude-session-lib/src/proxy_session/wiggum.rs goes on.
use claude_code_portal.Prelude.{
  ℕ, suc, ◌+◌, ◌-◌, ◌≤◌, ◌<◌, ◌%◌, ◌^◌, ◌≡◌, refl, ap, ◌⊎◌, true, false, String, List, [], ◌∷◌,
  Option, none, some, inl, inr, arith, Option-cases,
}
use claude_code_portal.SessionManager.Connections.{is_some}
use claude_code_portal.Reconnection.{ConnectionResult}
use claude_code_portal.OutputBuffer.{PendingOutputBuffer}
use claude_code_portal.WiggumState.{WiggumState, wiggum_max_iterations, activated}
use claude_code_portal.Wiggum.{Rendering, Handled, Action, handle_output}
use claude_code_portal.Wiggum.Turns.{
  Turn, prompts, prompts-append, stopped, over, same, again, handle_output-Step, run_turns, results,
  off_step,
}

next :
    (i : ℕ)
    → i ≤ wiggum_max_iterations
    → suc wiggum_max_iterations - i ≡ suc (suc wiggum_max_iterations - (i + 1) % 2 ^ 32)
next i b = ground (arith, b)

module _ (P Permission : Type 0) {O J : Type 0} (rendering : Rendering O J) where
  -- The connection has ended, the mode is off, or not all the loops that are left have been made.
  abbrev pub Ends :
      Handled J × List (Action O J P Permission) × Option ConnectionResult → ℕ → ℕ → Type 0
  Ends out left made =
      (is_some out.2 ≡ true) ⊎ ((is_some out.0.wiggum_state ≡ false) ⊎ (made < left))

  Ends-suc :
      {left made : ℕ} (out : Handled J × List (Action O J P Permission) × Option ConnectionResult)
      {left' : ℕ}
      → left' ≡ suc left
      → Ends out left made
      → Ends out left' (suc made)
  Ends-suc out e (inl ended) = inl ended
  Ends-suc out e (inr (inl off)) = inr (inl off)
  Ends-suc out e (inr (inr few)) = inr (inr (ground (arith, e, few)))

  pub off-turns :
      (h : Handled J) (turns : List (Turn O J)) (start : ℕ)
      → h.wiggum_state ≡ none
      → (let out = run_turns {P = P} {Permission = Permission} rendering h turns start in
          (prompts out.1 ≡ 0) × (out.0.wiggum_state ≡ none))
  unfolding run_turns
  off-turns h [] start e = (refl, e)
  off-turns h (u ∷ turns) start e =
      let out =
        handle_output {P = P} {Permission = Permission} rendering u.session h u.output u.moment
          start in
      let (quiet, off) = off_step P Permission rendering u.session h u.output u.moment start e in
      let (quiet', off') = off-turns out.0 turns start off in
      elim (Option-cases out.2) [
        | inl goes ↦
            rw (goes, run_turns)
              (
                ground (
                  arith,
                  quiet,
                  quiet',
                  prompts-append out.1
                      (run_turns {P = P} {Permission = Permission} rendering out.0 turns start).1,
                ),
                off',
              )
        | inr (r, ends) ↦ rw (ends, run_turns) (quiet, off)
      ]

  limit-turns :
      (h : Handled J) (w : WiggumState) (turns : List (Turn O J)) (start : ℕ)
      → h.wiggum_state ≡ some w
      → w.iteration ≤ wiggum_max_iterations
      → (let out = run_turns {P = P} {Permission = Permission} rendering h turns start in
          (prompts out.1 ≤ wiggum_max_iterations - w.iteration)
          × Ends out (suc wiggum_max_iterations - w.iteration) (results rendering turns))
  unfolding run_turns
  limit-turns h w [] start e b = (ground arith, inr (inr (ground (arith, b))))
  limit-turns h w (u ∷ turns) start e b =
      let out =
        handle_output {P = P} {Permission = Permission} rendering u.session h u.output u.moment
          start in
      let joined =
        prompts-append out.1
          (run_turns {P = P} {Permission = Permission} rendering out.0 turns start).1 in
      elim (handle_output-Step {P = P} {Permission = Permission} rendering u.session h w u.output
        u.moment start e) [
          | stopped r ends quiet ↦ rw (ends, run_turns) (ground (arith, quiet), inl refl)
          | over goes off quiet ↦
              let (quiet', off') = off-turns out.0 turns start off in
              rw (goes, run_turns)
                (ground (arith, quiet, quiet', joined), inr (inl (ap is_some off')))
          | same goes plain keeps quiet ↦
              let (few, ends) = limit-turns out.0 w turns start keeps b in
              rw (goes, run_turns, plain, results) (ground (arith, quiet, few, joined), ends)
          | again m goes result within keeps one ↦
              let (few, ends) = limit-turns out.0 _ turns start keeps within in
              rw (goes, run_turns, result, results)
                (
                  ground (arith, one, few, joined, b, within),
                  Ends-suc (run_turns {P = P} {Permission = Permission} rendering out.0 turns start)
                      (next w.iteration b) ends,
                )
        ]

  -- Whatever the agent answers and whenever, once the mode is on it sends the prompt again at most 49 times,
  -- and after fifty results it is off, unless the connection has ended.
  pub wiggum_ends :
      (buffer : PendingOutputBuffer J) (prompt : String) (now start : ℕ) (turns : List (Turn O J))
      → (let out =
            run_turns {P = P} {Permission = Permission} rendering
              (record { wiggum_state = some (activated prompt now); output_buffer = buffer })
              turns
              start in
          (prompts out.1 ≤ 49)
          × ((is_some out.2 ≡ true)
              ⊎ ((is_some out.0.wiggum_state ≡ false) ⊎ (results rendering turns < 50))))
  unfolding activated
  wiggum_ends buffer prompt now start turns =
      limit-turns (record { wiggum_state = some (activated prompt now); output_buffer = buffer })
        (activated prompt now) turns start refl (ground arith)
