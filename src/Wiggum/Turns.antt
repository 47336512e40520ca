-- ===== src/Wiggum/Turns.antt =====
-- The outputs of the agent that come one after another while the mode of
-- claude-session-lib/src/proxy_session/wiggum.rs is on, and what each does.
use claude_code_portal.Prelude.{
  ℕ, suc, ◌+◌, ◌-◌, ◌≤◌, ◌%◌, ◌^◌, ◌≡◌, refl, Bool, List, [], ◌∷◌, ◌++◌, map, Option, none, some,
  inl, inr, ltb, length, arith, Option-cases, Bool-cases, Sum-cases,
}
use claude_code_portal.AgentSession.{Session, IoCommand, send_input, send_command}
use claude_code_portal.Reconnection.{ConnectionResult}
use claude_code_portal.WiggumState.{
  WiggumState, ResultMessage, wiggum_max_iterations, check_wiggum_done, record_duration,
  wiggum_prompt,
}
use claude_code_portal.Wiggum.{
  Rendering, Moment, Handled, Action, forwarded, to_backend, to_agent, send_portal, continue_wiggum,
  complete_wiggum, handle_output,
}

-- An output, the session when it comes, and what happens then.
pub record Turn (O J : Type 0) : Type 0 where
  pub session : Session J
  pub output : O
  pub moment : Moment

module _ {O J P Permission : Type 0} where
  abbrev pub prompts : List (Action O J P Permission) → ℕ
  prompts [] = 0
  prompts (to_agent c ∷ actions) = 1 + prompts actions
  prompts (forwarded o ∷ actions) = prompts actions
  prompts (to_backend m ∷ actions) = prompts actions

  pub prompts-append :
      (xs ys : List (Action O J P Permission)) → prompts (xs ++ ys) ≡ prompts xs + prompts ys
  prompts-append [] ys = omega arith
  prompts-append (to_agent c ∷ xs) ys = omega (arith, prompts-append xs ys)
  prompts-append (forwarded o ∷ xs) ys = prompts-append xs ys
  prompts-append (to_backend m ∷ xs) ys = prompts-append xs ys

prompts-map :
    {J Permission : Type 0} (O P : Type 0) (cs : List (IoCommand J Permission))
    → prompts {O = O} {P = P} (map to_agent cs) ≡ length cs
prompts-map O P [] = refl
prompts-map O P (c ∷ cs) = omega (arith, prompts-map O P cs)

length-send_input-le :
    {J : Type 0} (Permission : Type 0) (session : Session J) (takes : Bool) (content : J)
    → length {A = IoCommand J Permission} (send_input session takes content).1 ≤ 1
unfolding send_input send_command
length-send_input-le Permission session takes content = ground arith

-- The state as the next loop begins.
abbrev pub next_state : WiggumState → ℕ → ℕ → WiggumState
next_state w now sent_at = record w {
  loop_durations = record_duration w.loop_durations (now - w.loop_start);
  iteration = (w.iteration + 1) % 2 ^ 32;
  loop_start = sent_at;
}

module _ {O J : Type 0} (rendering : Rendering O J) where
  -- The results among the outputs.
  abbrev pub results : List (Turn O J) → ℕ
  results [] = 0
  results (u ∷ turns) = elim (rendering.as_result u.output) [
    | none ↦ results turns
    | some m ↦ suc (results turns)
  ]

  -- The time from each prompt to the result that follows, if the first prompt was sent at `begin`.
  abbrev pub finished : ℕ → List (Turn O J) → List ℕ
  finished begin [] = []
  finished begin (u ∷ turns) = elim (rendering.as_result u.output) [
    | none ↦ finished begin turns
    | some m ↦ (u.moment.now - begin) ∷ finished u.moment.sent_at turns
  ]

module _ {O J P Permission : Type 0} (rendering : Rendering O J) where
  -- What an output comes to while the mode is on.
  pub data Step (w : WiggumState) (o : O) (now sent_at : ℕ)
      (out : Handled J × List (Action O J P Permission) × Option ConnectionResult) : Type 0 where
    stopped : (r : ConnectionResult) → out.2 ≡ some r → prompts out.1 ≡ 0 → Step w o now sent_at out
    over : out.2 ≡ none → out.0.wiggum_state ≡ none → prompts out.1 ≡ 0 → Step w o now sent_at out
    same :
        out.2 ≡ none
        → rendering.as_result o ≡ none
        → out.0.wiggum_state ≡ some w
        → prompts out.1 ≡ 0
        → Step w o now sent_at out
    again :
        (m : ResultMessage)
        → out.2 ≡ none
        → rendering.as_result o ≡ some m
        → (w.iteration + 1) % 2 ^ 32 ≤ wiggum_max_iterations
        → out.0.wiggum_state ≡ some (next_state w now sent_at)
        → prompts out.1 ≤ 1
        → Step w o now sent_at out

  continue_wiggum-Step :
      (session : Session J) (h : Handled J) (w : WiggumState) (o : O) (m : ResultMessage)
      (t : Moment) (start : ℕ)
      → rendering.as_result o ≡ some m
      → (let out = continue_wiggum rendering session h.output_buffer w t start in
          Step w o t.now t.sent_at (out.0, forwarded o ∷ out.1, out.2))
  unfolding continue_wiggum send_portal
  continue_wiggum-Step session h w o m t start e =
      let content = rendering.from_text (wiggum_prompt w.original_prompt) in
      elim (Bool-cases (ltb wiggum_max_iterations ((w.iteration + 1) % 2 ^ 32))) [
        | inl past ↦ rw past (over refl refl refl)
        | inr within ↦ elim (Bool-cases t.sends) [
          | inr fails ↦ rw (within, fails) (stopped _ refl refl)
          | inl works ↦
              elim (Sum-cases (send_input {Permission = Permission} session t.takes content).0) [
                | inl (x, f) ↦ rw (within, works, f) (stopped _ refl refl)
                | inr (u, f) ↦
                    rw (within, works, f)
                      (again m refl e (ground (arith, within)) refl (
                        ground (
                          arith,
                          length-send_input-le Permission session t.takes content,
                          prompts-map O P
                              (send_input {Permission = Permission} session t.takes content).1,
                        )))
              ]
        ]
      ]

  pub handle_output-Step :
      (session : Session J) (h : Handled J) (w : WiggumState) (o : O) (t : Moment) (start : ℕ)
      → h.wiggum_state ≡ some w
      → Step w o t.now t.sent_at (handle_output rendering session h o t start)
  unfolding handle_output complete_wiggum
  handle_output-Step session h w o t start e = elim (Bool-cases t.forwards) [
    | inr fails ↦ rw fails (stopped _ refl refl)
    | inl works ↦ elim (Option-cases (rendering.as_result o)) [
      | inl f ↦ rw (works, f) (same refl f e refl)
      | inr (m, f) ↦ elim (Bool-cases (check_wiggum_done rendering.to_uppercase m)) [
        | inl done ↦ rw (works, f, e, done) (over refl refl refl)
        | inr goes ↦ rw (works, f, e, goes) (continue_wiggum-Step session h w o m t start f)
      ]
    ]
  ]

  -- Outputs in turn, until the connection ends.
  unfoldable pub run_turns :
      Handled J
      → List (Turn O J)
      → ℕ
      → Handled J × List (Action O J P Permission) × Option ConnectionResult
  run_turns h [] start = (h, [], none)
  run_turns h (u ∷ turns) start =
      let (h', actions, ended) = handle_output rendering u.session h u.output u.moment start in
      let (h'', more, ended') = run_turns h' turns start in
      elim ended [ some r ↦ (h', actions, some r) | none ↦ (h'', actions ++ more, ended') ]

pub off_step :
    {O J : Type 0} (P Permission : Type 0) (rendering : Rendering O J) (session : Session J)
    (h : Handled J) (o : O) (t : Moment) (start : ℕ)
    → h.wiggum_state ≡ none
    → (let out = handle_output {P = P} {Permission = Permission} rendering session h o t start in
        (prompts out.1 ≡ 0) × (out.0.wiggum_state ≡ none))
unfolding handle_output
off_step P Permission rendering session h o t start e = elim (Bool-cases t.forwards) [
  | inr fails ↦ rw fails (refl, e)
  | inl works ↦ elim (Option-cases (rendering.as_result o)) [
    | inl f ↦ rw (works, f) (refl, e)
    | inr (m, f) ↦ rw (works, f, e) (refl, e)
  ]
]
