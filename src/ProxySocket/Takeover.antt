-- ===== src/ProxySocket/Takeover.antt =====
-- What a connection has after it registers, whatever the database answers, and what an older connection
-- that ends takes away.
use claude_code_portal.Prelude.{ℕ, ◌<◌, ◌≡◌, refl, ap, Bool, true, [], ◌∷◌, Option, some}
use claude_code_portal.Protocol.{ServerToProxy}
use claude_code_portal.ProxyTokens.{Crypto}
use claude_code_portal.SessionManager.{to_proxy, send_to_session}
use claude_code_portal.SessionManager.Connections.{register_session_current}
use claude_code_portal.MessageHandlers.{Content}
use claude_code_portal.Registration.{RegistrationParams, Statements}
use claude_code_portal.ProxySocket.{
  Connection, Server, handle_register, is_superseded, close_connection,
}

superseded :
    {J : Type 0} (s : Server J) (c : Connection) (updates : Bool)
    → is_superseded s.manager c ≡ true
    → close_connection s c updates ≡ s
unfolding close_connection
superseded s c updates e = rw (e, close_connection) refl

module _ {J F : Type 0} (json : Content J F) (crypto : Crypto) (dev_user : Option ℕ)
    (max_image_mb : ℕ) (s : Server J) (c : Connection) (accepts : ℕ → Bool) (st : Statements)
    (p : RegistrationParams) (now : ℕ) where
  -- After a `Register` over a live channel, accepted or refused, the messages for the session go to
  -- the new connection; and a connection of the session with a lower generation that ends
  -- afterwards changes nothing.
  pub handle_register_takes_over :
      (msg : ServerToProxy J) (later old : ℕ) (earlier : Connection) (updates : Bool)
      → accepts c.tx ≡ true
      → old < s.manager.gen_counter
      → earlier.session_key ≡ some p.claude_session_id
      → earlier.connection_gen ≡ some old
      → let (s', c', sent) =
          handle_register json crypto dev_user max_image_mb s c accepts st p now in
        ((send_to_session s'.manager accepts p.claude_session_id msg later).1
          ≡ to_proxy c.tx msg ∷ [])
        × (close_connection s' earlier updates ≡ s')
  unfolding handle_register close_connection is_superseded
  handle_register_takes_over msg later old earlier updates alive less key gen =
      let (goes, current, stale, same) =
        register_session_current s.manager accepts p.claude_session_id c.tx now msg later old alive
          less in
      (ap (λ x. x.1) goes, superseded _ earlier updates (rw (key, gen, stale) refl))
