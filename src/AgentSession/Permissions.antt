-- ===== src/AgentSession/Permissions.antt =====
-- Answers to permission requests, while a session runs and after it has ended.
use claude_code_portal.Prelude.{ℕ, ◌≡◌, refl, ap, Bool, true, false, [], ◌∷◌, inl, inr}
use claude_code_portal.AgentSession.{
  invalid_permission_response, Session, PermissionResponse, IoCommand, is_answerable, answer,
  send_command, send_input, respond_permission, ended, is_running,
}
use claude_code_portal.AgentSession.SessionState.{running}

sends :
    {J Permission : Type 0} (s : Session J) (c : IoCommand J Permission)
    → s.command_tx ≡ true
    → send_command s true c ≡ (inr tt, c ∷ [])
unfolding send_command
sends s c connected = rw (connected, send_command) refl

module _ {J Permission : Type 0} (s : Session J) (empty_object : J) (request_id : ℕ)
    (r : PermissionResponse J Permission) where
  -- An answer to another request than the pending one is refused and changes nothing. An answer to the
  -- pending one, while the task takes commands, sends one command, clears the request and lets the
  -- session run; a second answer to it is refused.
  pub respond_permission_once :
      (other : ℕ)
      → is_answerable request_id s ≡ true
      → is_answerable other s ≡ false
      → s.command_tx ≡ true
      → let (s', result, sent) = respond_permission s true empty_object request_id r in
        (respond_permission s true empty_object other r
          ≡ (s, inl (invalid_permission_response other), []))
        × (result ≡ inr tt)
        × (sent ≡ answer s.config.agent_type empty_object request_id r ∷ [])
        × (s'.state ≡ running)
        × (respond_permission s' true empty_object request_id r
            ≡ (s', inl (invalid_permission_response request_id), []))
  unfolding respond_permission
  respond_permission_once other pending unknown connected =
      rw
        (pending, unknown, sends s (answer s.config.agent_type empty_object request_id r) connected)
        (
          refl,
          refl,
          ap (λ x. x.1) (sends s (answer s.config.agent_type empty_object request_id r) connected),
          refl,
          refl,
        )

  -- A session that has ended with a request pending runs again, by its state, once the request is
  -- answered: the answer and every later input report success and are sent to nobody.
  pub respond_permission_revives :
      (code : ℕ) (takes : Bool) (content : J)
      → is_answerable request_id s ≡ true
      → let (s', result, sent) =
          respond_permission (ended s code) takes empty_object request_id r in
        (result ≡ inr tt)
        × (sent ≡ [])
        × (is_running s' ≡ true)
        × (send_input {Permission = Permission} s' takes content ≡ (inr tt, []))
  unfolding respond_permission send_command send_input ended
  respond_permission_revives code takes content pending = rw pending (refl, refl, refl, refl)
