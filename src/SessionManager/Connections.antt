-- ===== src/SessionManager/Connections.antt =====
-- Registration, generations and clean-up of proxy connections.
use claude_code_portal.Prelude.{
  ℕ, ◌+◌, ◌<◌, ◌≡◌, ◌⊎◌, refl, Bool, true, false, [], ◌∷◌, Option, none, some, arith, ◌==◌, lookup,
  lookup-insert, lookup-remove, if◌then◌else◌,
}
use claude_code_portal.OutputBuffer.{u64_mod}
use claude_code_portal.Protocol.{ServerToProxy}
use claude_code_portal.SessionManager.{
  SessionManager, to_proxy, new, register_session, unregister_session, is_current_connection,
  send_to_session,
}

abbrev pub is_some {ℓ} : {A : Type ℓ} → Option A → Bool
is_some none = false
is_some (some x) = true

module _ {J : Type 0} where
  -- A live connection's generation was handed out before, and a session has a sender exactly when it
  -- has a generation.
  pub record IsConsistent (m : SessionManager J) : Type 0 where
    pub generations : (k g : ℕ) → lookup k m.connection_gen ≡ some g → g < m.gen_counter
    pub paired : (k : ℕ) → is_some (lookup k m.sessions) ≡ is_some (lookup k m.connection_gen)

  pub new-IsConsistent : IsConsistent new
  unfolding new
  new-IsConsistent = record { generations = λ k g e. cc; paired = λ k. refl }

  module _ (m : SessionManager J) (accepts : ℕ → Bool) (key sender now : ℕ) where
    -- While the counter does not wrap, a registration keeps the manager consistent: the current
    -- generations were handed out before, and a session has a sender exactly when it has a
    -- generation.
    pub register_session-IsConsistent :
        m.gen_counter + 1 < u64_mod
        → IsConsistent m
        → IsConsistent (register_session m accepts key sender now).0
    unfolding register_session
    register_session-IsConsistent small c = record {
      generations = λ k g e.
          ground (arith, lookup-insert key k m.gen_counter m.connection_gen, c.generations k g);
      paired = λ k. ground (
        arith,
        lookup-insert key k m.gen_counter m.connection_gen,
        lookup-insert key k sender m.sessions,
        c.paired k,
      );
    }

    -- After a registration by a live sender the session's messages go to it, the returned
    -- generation is the current one, and the clean-up of any connection with an older generation
    -- changes nothing.
    pub register_session_current :
        (msg : ServerToProxy J) (later old : ℕ)
        → accepts sender ≡ true
        → old < m.gen_counter
        → let (m', sent, gen) = register_session m accepts key sender now in
          (send_to_session m' accepts key msg later ≡ (m', to_proxy sender msg ∷ [], true))
          × (is_current_connection m' key gen ≡ true)
          × (is_current_connection m' key old ≡ false)
          × (unregister_session m' key (some old) ≡ m')
    unfolding register_session send_to_session is_current_connection unregister_session
    register_session_current msg later old alive less = ground (
      arith,
      lookup-insert key key m.gen_counter m.connection_gen,
      lookup-insert key key sender m.sessions,
    )

  -- Clean-up with the current generation, or forced, removes the session and no other.
  pub unregister_session_removes :
      (m : SessionManager J) (key k gen : ℕ) (given : Option ℕ)
      → (given ≡ none) ⊎ ((given ≡ some gen) × (lookup key m.connection_gen ≡ some gen))
      → let m' = unregister_session m key given in
        (lookup k m'.sessions ≡ (if key == k then none else lookup k m.sessions))
        × (lookup k m'.connection_gen ≡ (if key == k then none else lookup k m.connection_gen))
  unfolding unregister_session
  unregister_session_removes m key k gen given h =
      ground (arith, lookup-remove key k m.sessions, lookup-remove key k m.connection_gen)

  pub unregister_session-IsConsistent :
      (m : SessionManager J) (key : ℕ) (given : Option ℕ)
      → IsConsistent m
      → IsConsistent (unregister_session m key given)
  unfolding unregister_session
  unregister_session-IsConsistent m key given c = record {
    generations = λ k g e. ground (arith, lookup-remove key k m.connection_gen, c.generations k g);
    paired = λ k.
        ground
          (arith, lookup-remove key k m.connection_gen, lookup-remove key k m.sessions, c.paired k);
  }
