-- ===== src/AgentSession/Coherence.antt =====
-- The channels of a session and its state.
use claude_code_portal.Prelude.{
  ℕ, refl, sym, Bool, true, false, List, [], ◌∷◌, Bool-cases, Option-cases, inl, inr, Sum-cases,
}
use mathlib.Core.Path.{subst}
use claude_code_portal.AgentSession.{
  Agent, IoEvent, output, raw_output, codex_permission_request, error, exited, Session, ended,
  asked, buffered, handle_event, next_loop, next_event, stop, ack_outputs, PermissionResponse,
  respond_permission, send_command, answer, is_answerable,
}
use claude_code_portal.AgentSession.Events.{
  IsCoherent, next_loop_returns, next_loop_continues, next_event_listens,
}

module _ {J : Type 0} where
  ended-IsCoherent : (s : Session J) (code : ℕ) → IsCoherent (ended s code)
  unfolding ended
  ended-IsCoherent s code = record { paired = refl; live = λ e. cc }

  module _ {O P : Type 0} (agent : Agent O J P) where
    handle_event-IsCoherent :
        (s : Session J) (e : IoEvent O J) (now : ℕ)
        → IsCoherent s
        → IsCoherent (handle_event agent s e now).0
    unfolding handle_event ended asked buffered
    handle_event-IsCoherent s (output o) now h = elim (Bool-cases (agent.is_not_found o)) [
      | inl n ↦ simp (n, handle_event) (record { paired = refl; live = λ e. cc })
      | inr f ↦ elim (Option-cases (agent.can_use_tool o)) [
        | inl c ↦ simp (f, c, handle_event) (record { paired = h.paired; live = h.live })
        | inr (t, c) ↦ simp (f, c, handle_event) (record { paired = h.paired; live = λ e. refl })
      ]
    ]
    handle_event-IsCoherent s (raw_output v) now h = record { paired = h.paired; live = h.live }
    handle_event-IsCoherent s (codex_permission_request request_id tool_name input) now h = record {
      paired = h.paired;
      live = λ e. refl;
    }
    handle_event-IsCoherent s (error e) now h = h
    handle_event-IsCoherent s (exited code) now h = record { paired = refl; live = λ e. cc }

    next_loop-IsCoherent :
        (s : Session J) (events : List (IoEvent O J)) (closed : Bool) (now : ℕ)
        → IsCoherent s
        → IsCoherent (next_loop agent s events closed now).0
    unfolding next_loop
    next_loop-IsCoherent s [] true now h = ended-IsCoherent s 0
    next_loop-IsCoherent s [] false now h = h
    next_loop-IsCoherent s (e ∷ events) closed now h =
        elim (Option-cases (handle_event agent s e now).1) [
          | inr (x, r) ↦
              subst (λ p. IsCoherent p.0) (sym (next_loop_returns agent s e events closed now x r))
                (handle_event-IsCoherent s e now h)
          | inl r ↦
              subst (λ p. IsCoherent p.0) (sym (next_loop_continues agent s e events closed now r))
                (next_loop-IsCoherent (handle_event agent s e now).0 events closed now
                  (handle_event-IsCoherent s e now h))
        ]

    next_event-IsCoherent :
        (s : Session J) (events : List (IoEvent O J)) (closed : Bool) (now : ℕ)
        → IsCoherent s
        → IsCoherent (next_event agent s events closed now).0
    unfolding next_event
    next_event-IsCoherent s events closed now h = elim (Bool-cases s.event_rx) [
      | inl e ↦
          subst (λ p. IsCoherent p.0) (sym (next_event_listens agent s events closed now e))
            (next_loop-IsCoherent s events closed now h)
      | inr e ↦ simp (e, next_event) h
    ]

    respond_permission-IsCoherent :
        {Permission : Type 0} (s : Session J) (takes : Bool) (empty_object : J) (request_id : ℕ)
        (r : PermissionResponse J Permission)
        → IsCoherent s
        → IsCoherent (respond_permission s takes empty_object request_id r).0
    unfolding respond_permission
    respond_permission-IsCoherent s takes empty_object request_id r h =
        elim (Bool-cases (is_answerable request_id s)) [
          | inr f ↦ simp (f, respond_permission) h
          | inl p ↦
              elim (Sum-cases
                (send_command s takes (answer s.config.agent_type empty_object request_id r)).0) [
                  | inl (e, q) ↦ simp (p, q, respond_permission) h
                  | inr (u, q) ↦
                      simp (p, q, respond_permission)
                        (record { paired = h.paired; live = λ e. refl })
                ]
        ]

    -- Every operation keeps the two channels of a session together, and lets it have them only while its
    -- state is a running one.
    pub IsCoherent-kept :
        {Permission : Type 0} (s : Session J) (events : List (IoEvent O J)) (closed takes : Bool)
        (now seq request_id : ℕ) (empty_object : J) (r : PermissionResponse J Permission)
        → IsCoherent s
        → IsCoherent (next_event agent s events closed now).0
          × IsCoherent (respond_permission s takes empty_object request_id r).0
          × IsCoherent (ack_outputs s seq)
          × IsCoherent (stop s)
    unfolding ack_outputs stop
    IsCoherent-kept s events closed takes now seq request_id empty_object r h = (
      next_event-IsCoherent s events closed now h,
      respond_permission-IsCoherent s takes empty_object request_id r h,
      record { paired = h.paired; live = h.live },
      ended-IsCoherent s 0,
    )
