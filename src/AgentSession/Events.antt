-- ===== src/AgentSession/Events.antt =====
-- What a call of `next_event` takes from the task and keeps.
use claude_code_portal.Prelude.{
  ℕ, ◌≡◌, refl, sym, ap, ◌∙◌, Bool, true, false, List, [], ◌∷◌, ◌++◌, none, some, Bool-cases,
  Option-cases, inl, inr,
}
use mathlib.Core.Path.{subst}
use claude_code_portal.ReplayBuffer.{OutputBuffer, push}
use claude_code_portal.AgentSession.{
  Agent, IoEvent, SessionEvent, output, raw_output, codex_permission_request, error, exited,
  Session, Polled, returns, is_live, ended, asked, buffered, handle_event, next_loop, next_event,
}

-- The two channels are there together, and only while the session runs.
pub record IsCoherent {J : Type 0} (s : Session J) : Type 0 where
  pub paired : s.command_tx ≡ s.event_rx
  pub live : s.event_rx ≡ true → is_live s.state ≡ true

append_nil {ℓ} : {A : Type ℓ} (xs : List A) → xs ++ [] ≡ xs
append_nil [] = refl
append_nil (x ∷ xs) = ap (x ∷◌) (append_nil xs)

module _ {J : Type 0} where
  -- `push` of each, in order.
  abbrev pub push_each : OutputBuffer J → List J → ℕ → OutputBuffer J
  push_each b [] now = b
  push_each b (v ∷ vs) now = push_each (push b v now).0 vs now

  push_each-append :
      (b : OutputBuffer J) (us vs : List J) (now : ℕ)
      → push_each b (us ++ vs) now ≡ push_each (push_each b us now) vs now
  push_each-append b [] vs now = refl
  push_each-append b (u ∷ us) vs now = push_each-append (push b u now).0 us vs now

  module _ {O P : Type 0} (agent : Agent O J P) where
    -- What an event puts into the buffer.
    abbrev pub value_of : IoEvent O J → List J
    value_of (output o) = agent.to_value o ∷ []
    value_of (raw_output v) = v ∷ []
    value_of (codex_permission_request request_id tool_name input) = []
    value_of (error e) = []
    value_of (exited code) = []

    abbrev pub values_of : List (IoEvent O J) → List J
    values_of [] = []
    values_of (e ∷ es) = value_of e ++ values_of es

    pub next_loop_returns :
        (s : Session J) (e : IoEvent O J) (events : List (IoEvent O J)) (closed : Bool) (now : ℕ)
        (x : SessionEvent O J P)
        → (handle_event agent s e now).1 ≡ some x
        → next_loop agent s (e ∷ events) closed now
          ≡ ((handle_event agent s e now).0, events, returns (some x))
    unfolding next_loop
    next_loop_returns s e events closed now x h = rw (h, next_loop) refl

    pub next_loop_continues :
        (s : Session J) (e : IoEvent O J) (events : List (IoEvent O J)) (closed : Bool) (now : ℕ)
        → (handle_event agent s e now).1 ≡ none
        → next_loop agent s (e ∷ events) closed now
          ≡ next_loop agent (handle_event agent s e now).0 events closed now
    unfolding next_loop
    next_loop_continues s e events closed now h = rw (h, next_loop) refl

    pub next_event_listens :
        (s : Session J) (events : List (IoEvent O J)) (closed : Bool) (now : ℕ)
        → s.event_rx ≡ true
        → next_event agent s events closed now ≡ next_loop agent s events closed now
    unfolding next_event
    next_event_listens s events closed now h = rw (h, next_event) refl

    handle_event-buffer :
        (s : Session J) (e : IoEvent O J) (now : ℕ)
        → (handle_event agent s e now).0.buffer ≡ push_each s.buffer (value_of e) now
    unfolding handle_event ended asked buffered
    handle_event-buffer s (output o) now = elim (Bool-cases (agent.is_not_found o)) [
      | inl n ↦ rw (n, handle_event) refl
      | inr f ↦ elim (Option-cases (agent.can_use_tool o)) [
        | inl c ↦ rw (f, c, handle_event) refl
        | inr (t, c) ↦ rw (f, c, handle_event) refl
      ]
    ]
    handle_event-buffer s (raw_output v) now = refl
    handle_event-buffer s (codex_permission_request request_id tool_name input) now = refl
    handle_event-buffer s (error e) now = refl
    handle_event-buffer s (exited code) now = refl

    Consumed :
        Session J
        → List (IoEvent O J)
        → ℕ
        → Session J × List (IoEvent O J) × Polled (SessionEvent O J P)
        → Type 0
    Consumed s events now (s', rest, polled) =
        (consumed : List (IoEvent O J)) × (events ≡ consumed ++ rest)
        × (s'.buffer ≡ push_each s.buffer (values_of consumed) now)

    next_loop-Consumed :
        (s : Session J) (events : List (IoEvent O J)) (closed : Bool) (now : ℕ)
        → Consumed s events now (next_loop agent s events closed now)
    unfolding next_loop ended Consumed
    next_loop-Consumed s [] true now = ([], refl, refl)
    next_loop-Consumed s [] false now = ([], refl, refl)
    next_loop-Consumed s (e ∷ events) closed now =
        elim (Option-cases (handle_event agent s e now).1) [
          | inr (x, h) ↦
              subst (Consumed s (e ∷ events) now)
                (sym (next_loop_returns s e events closed now x h))
                (
                  e ∷ [],
                  refl,
                  handle_event-buffer s e now
                      ∙ ap (λ vs. push_each s.buffer vs now) (sym (append_nil (value_of e))),
                )
          | inl h ↦
              let (consumed, same, kept) =
                next_loop-Consumed (handle_event agent s e now).0 events closed now in
              subst (Consumed s (e ∷ events) now)
                (sym (next_loop_continues s e events closed now h))
                (
                  e ∷ consumed,
                  ap (e ∷◌) same,
                  kept
                      ∙ ap (λ b. push_each b (values_of consumed) now) (handle_event-buffer s e now)
                      ∙ sym (push_each-append s.buffer (value_of e) (values_of consumed) now),
                )
        ]

    -- A call of `next_event` on a session with a channel takes the first events that the task has sent,
    -- leaves the others, and buffers every output among those it has taken, once each and in order.
    pub next_event_consumes :
        (s : Session J) (events : List (IoEvent O J)) (closed : Bool) (now : ℕ)
        → s.event_rx ≡ true
        → let (s', rest, polled) = next_event agent s events closed now in
          (consumed : List (IoEvent O J)) × (events ≡ consumed ++ rest)
          × (s'.buffer ≡ push_each s.buffer (values_of consumed) now)
    unfolding next_event Consumed
    next_event_consumes s events closed now h =
        subst (Consumed s events now) (sym (next_event_listens s events closed now h))
          (next_loop-Consumed s events closed now)
