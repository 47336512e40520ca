-- ===== src/SessionManager/Tests.antt =====
-- The unit tests of session_manager.rs, and the statements at concrete managers.
use claude_code_portal.Prelude.{
  ℕ, ◌≡◌, refl, Bool, true, false, [], ◌∷◌, some, arith, ◌==◌, not, lookup,
}
use claude_code_portal.Protocol.{heartbeat, interrupt}
use claude_code_portal.SessionManager.{
  SessionManager, to_proxy, new, register_session, unregister_session, is_current_connection,
  send_to_session,
}
use claude_code_portal.SessionManager.Connections.{register_session_current}
use claude_code_portal.SessionManager.Queue.{IsBounded}
use claude_code_portal.SessionManager.Delivery.{register_session-send_each, send_each}

abbrev empty : SessionManager ℕ
unfolding new
empty = new

-- Every receiver but 9 is alive.
abbrev alive : ℕ → Bool
alive c = not (c == 9)

abbrev once : SessionManager ℕ
unfolding new register_session
once = (register_session empty alive 1 50 0).0

abbrev joined : SessionManager ℕ
unfolding new
joined = record empty { web_clients = (1, 4 ∷ 9 ∷ 5 ∷ []) ∷ (2, 9 ∷ []) ∷ [] }

empty-IsBounded : IsBounded empty
unfolding new
empty-IsBounded k = omega arith

-- session_register_and_send
send_registered : (send_to_session once alive 1 heartbeat 3).1 ≡ to_proxy 50 heartbeat ∷ []
unfolding send_to_session register_session new
send_registered = refl

-- stale_unregister_is_noop, is_current_connection_checks_gen
reconnect_kept :
    let m = (register_session once alive 1 51 7).0 in
    (lookup 1 (unregister_session m 1 (some 1)).sessions ≡ some 51)
    × (is_current_connection m 1 1 ≡ false)
    × (is_current_connection m 1 2 ≡ true)
unfolding register_session unregister_session is_current_connection new
reconnect_kept = (refl, refl, refl)

register_session_current_example :
    let (m', sent, gen) = register_session once alive 1 51 7 in
    (send_to_session m' alive 1 heartbeat 8 ≡ (m', to_proxy 51 heartbeat ∷ [], true))
    × (is_current_connection m' 1 gen ≡ true)
    × (is_current_connection m' 1 1 ≡ false)
    × (unregister_session m' 1 (some 1) ≡ m')
unfolding new register_session
register_session_current_example =
    register_session_current once alive 1 51 7 heartbeat 8 1 refl (omega arith)

register_session-send_each_example :
    (register_session
      (send_each empty alive 1 ((heartbeat, 3) ∷ (interrupt, 4) ∷ []))
      alive
      1
      50
      6).1
    ≡ to_proxy 50 heartbeat ∷ to_proxy 50 interrupt ∷ []
unfolding new
register_session-send_each_example =
    register_session-send_each empty alive 1 50 6 ((heartbeat, 3) ∷ (interrupt, 4) ∷ [])
      empty-IsBounded refl refl refl
