-- ===== src/WebClient/Entitled.antt =====
-- A web client reaches the proxies of its user's sessions, and no others.
use claude_code_portal.Prelude.{
  ℕ, ◌≡◌, refl, sym, ap, ◌∙◌, Bool, true, List, [], ◌∷◌, ◌++◌, none, some, lookup, Bool-cases, inl,
  inr,
}
use mathlib.Core.Path.{subst}
use claude_code_portal.SessionManager.{Sent, to_proxy, to_client, to_launcher}
use claude_code_portal.SessionManager.Clients.{add_user_client}
use claude_code_portal.MessageHandlers.{Content}
use claude_code_portal.Registration.{RegistrationDb}
use claude_code_portal.Permissions.{Suggestions}
use claude_code_portal.WebClient.{
  WebClient, WebServer, Value, connect, is_member, handle_web_register,
}
use claude_code_portal.WebClient.Dispatch.{
  ClientToServer, register, claude_input, permission_response, file_upload_start, file_upload_chunk,
  interrupt, Outcome, handle_web_client_message, handle_messages,
}
use claude_code_portal.WebClient.Steps.{
  IsEntitled, respond-Within, interrupt_session-Within, upload_start-Within, upload_chunk-Within,
  handle_web_input-Within, handle_web_register-Within,
}
use claude_code_portal.WebClient.Access.{OnlyTo, Within, sessions_of, channel}

IsEntitled-same :
    (db : RegistrationDb) (c c' : WebClient)
    → c'.session_key ≡ c.session_key
    → c'.user_id ≡ c.user_id
    → IsEntitled db c
    → IsEntitled db c'
IsEntitled-same db c c' k u (inl e) = inl (k ∙ e)
IsEntitled-same db c c' k u (inr (key, e, m)) = inr (key, k ∙ e, ap (is_member db key) u ∙ m)

module _ {J : Type 0} where
  -- Every message to a proxy goes to the one that is connected for a session of the user.
  abbrev pub AllEntitled : List (ℕ × ℕ) → RegistrationDb → ℕ → List (Sent J) → Type 0
  AllEntitled sessions db user [] = Unit {0}
  AllEntitled sessions db user (to_proxy c msg ∷ sent) =
      ((k : ℕ) × (lookup k sessions ≡ some c) × (is_member db k user ≡ true))
      × AllEntitled sessions db user sent
  AllEntitled sessions db user (to_client c msg ∷ sent) = AllEntitled sessions db user sent
  AllEntitled sessions db user (to_launcher c msg ∷ sent) = ⊥

  AllEntitled-append :
      (sessions : List (ℕ × ℕ)) (db : RegistrationDb) (user : ℕ) (xs ys : List (Sent J))
      → AllEntitled sessions db user xs
      → AllEntitled sessions db user ys
      → AllEntitled sessions db user (xs ++ ys)
  AllEntitled-append sessions db user [] ys h k = k
  AllEntitled-append sessions db user (to_proxy c msg ∷ xs) ys h k =
      (h.0, AllEntitled-append sessions db user xs ys h.1 k)
  AllEntitled-append sessions db user (to_client c msg ∷ xs) ys h k =
      AllEntitled-append sessions db user xs ys h k
  AllEntitled-append sessions db user (to_launcher c msg ∷ xs) ys h k = absurd h

  none_entitled :
      (sessions : List (ℕ × ℕ)) (db : RegistrationDb) (user : ℕ) (sent : List (Sent J))
      → OnlyTo none sent
      → AllEntitled sessions db user sent
  none_entitled sessions db user [] h = tt
  none_entitled sessions db user (to_proxy c msg ∷ sent) h = cc (h.0)
  none_entitled sessions db user (to_client c msg ∷ sent) h = none_entitled sessions db user sent h
  none_entitled sessions db user (to_launcher c msg ∷ sent) h = absurd h

  member_entitled :
      (sessions : List (ℕ × ℕ)) (db : RegistrationDb) (user k : ℕ) (sent : List (Sent J))
      → is_member db k user ≡ true
      → OnlyTo (lookup k sessions) sent
      → AllEntitled sessions db user sent
  member_entitled sessions db user k [] m h = tt
  member_entitled sessions db user k (to_proxy c msg ∷ sent) m h =
      ((k, h.0, m), member_entitled sessions db user k sent m h.1)
  member_entitled sessions db user k (to_client c msg ∷ sent) m h =
      member_entitled sessions db user k sent m h
  member_entitled sessions db user k (to_launcher c msg ∷ sent) m h = absurd h

  entitled_channel :
      (s : WebServer J) (c : WebClient) (sent : List (Sent J))
      → IsEntitled s.server.db c
      → OnlyTo (channel s c) sent
      → AllEntitled (sessions_of s) s.server.db c.user_id sent
  entitled_channel s c sent (inl e) h =
      none_entitled (sessions_of s) s.server.db c.user_id sent
        (subst (λ o. OnlyTo (elim o [ none ↦ none | some k ↦ lookup k (sessions_of s) ]) sent) e h)
  entitled_channel s c sent (inr (k, e, m)) h =
      member_entitled (sessions_of s) s.server.db c.user_id k sent m
        (subst (λ o. OnlyTo (elim o [ none ↦ none | some k ↦ lookup k (sessions_of s) ]) sent) e h)

  -- What a message is allowed to do.
  record Allowed (s : WebServer J) (c : WebClient) (s' : WebServer J) (c' : WebClient)
      (sent : List (Sent J)) : Type 0 where
    pub sent_entitled : AllEntitled (sessions_of s) s.server.db c.user_id sent
    pub sessions : sessions_of s' ≡ sessions_of s
    pub db : s'.server.db ≡ s.server.db
    pub entitled : IsEntitled s.server.db c'
    pub user : c'.user_id ≡ c.user_id

  Entitled_same :
      (s t : WebServer J) (user user' : ℕ) (sent : List (Sent J))
      → sessions_of t ≡ sessions_of s
      → t.server.db ≡ s.server.db
      → user' ≡ user
      → AllEntitled (sessions_of t) t.server.db user' sent
      → AllEntitled (sessions_of s) s.server.db user sent
  Entitled_same s t user user' sent e d u h =
      subst (λ l. AllEntitled l s.server.db user sent) e
        (subst (λ db. AllEntitled (sessions_of t) db user sent) d
          (subst (λ v. AllEntitled (sessions_of t) t.server.db v sent) u h))

  Within-Allowed :
      (s : WebServer J) (c : WebClient) (s' : WebServer J) (c' : WebClient) (sent : List (Sent J))
      → IsEntitled s.server.db c
      → Within s (channel s c) s' sent
      → c'.session_key ≡ c.session_key
      → c'.user_id ≡ c.user_id
      → Allowed s c s' c' sent
  Within-Allowed s c s' c' sent e w k u = record {
    sent_entitled = entitled_channel s c sent e w.only;
    sessions = w.sessions;
    db = w.db;
    entitled = IsEntitled-same s.server.db c c' k u e;
    user = u;
  }

module _ {J F : Type 0} (content : Content J F) (value : Value J) (json : Suggestions J) where
  handle_web_client_message-Allowed :
      (s : WebServer J) (c : WebClient) (accepts : ℕ → Bool) (out : Outcome)
      (msg : ClientToServer J) (now : ℕ)
      → IsEntitled s.server.db c
      → let (s', c', sent, closes) =
          handle_web_client_message content value json s c accepts out msg now in
        Allowed s c s' c' sent
  unfolding handle_web_client_message
  handle_web_client_message-Allowed s c accepts out (register session_id replay_after) now e =
      let r =
        handle_web_register-Within content value json s c accepts out.register session_id
          replay_after e in
      record {
        sent_entitled =
            none_entitled (sessions_of s) s.server.db c.user_id
              (handle_web_register content value json s c accepts out.register session_id
                replay_after).2
              r.0.only;
        sessions = r.0.sessions;
        db = r.0.db;
        entitled = r.1;
        user = r.2;
      }
  handle_web_client_message-Allowed s c accepts out (claude_input input send_mode) now e =
      Within-Allowed s c _ c _ e
        (handle_web_input-Within content value s c accepts out.input input send_mode now) refl refl
  handle_web_client_message-Allowed s c accepts out (file_upload_start f) now e =
      let w = upload_start-Within json s c accepts f now in Within-Allowed s c _ _ _ e w.0 w.1 w.2
  handle_web_client_message-Allowed s c accepts out (file_upload_chunk f) now e =
      let w = upload_chunk-Within json s c accepts f now in Within-Allowed s c _ _ _ e w.0 w.1 w.2
  handle_web_client_message-Allowed s c accepts out (permission_response fields) now e =
      Within-Allowed s c _ c _ e (respond-Within json s c accepts out.deletes fields now) refl refl
  handle_web_client_message-Allowed s c accepts out interrupt now e =
      Within-Allowed s c _ c _ e (interrupt_session-Within json s c accepts now) refl refl

  handle_messages-Allowed :
      (s : WebServer J) (c : WebClient) (accepts : ℕ → Bool)
      (msgs : List (Outcome × ClientToServer J × ℕ))
      → IsEntitled s.server.db c
      → let (s', c', sent) = handle_messages content value json s c accepts msgs in
        AllEntitled (sessions_of s) s.server.db c.user_id sent
  unfolding handle_messages
  handle_messages-Allowed s c accepts [] e = tt
  handle_messages-Allowed s c accepts ((out, msg, now) ∷ rest) e =
      let r = handle_web_client_message content value json s c accepts out msg now in
      let a = handle_web_client_message-Allowed s c accepts out msg now e in
      let later =
        handle_messages-Allowed r.0 r.1 accepts rest
          (subst (λ db. IsEntitled db r.1) (sym a.db) a.entitled) in
      let moved =
        Entitled_same s r.0 c.user_id r.1.user_id
          (handle_messages content value json r.0 r.1 accepts rest).2 a.sessions a.db a.user
          later in
      elim (Bool-cases r.3) [
        | inl closes ↦ rw closes a.sent_entitled
        | inr stays ↦ rw stays (
            AllEntitled-append (sessions_of s) s.server.db c.user_id r.2
              (handle_messages content value json r.0 r.1 accepts rest).2 a.sent_entitled moved)
      ]

  -- Whatever messages a new connection of a user sends, registrations for any session among them: what
  -- goes to proxies because of them goes to those that are connected for sessions of which the user is a
  -- member, and nothing goes to a launcher.
  pub handle_messages_entitled :
      (s : WebServer J) (accepts : ℕ → Bool) (tx user_id : ℕ)
      (msgs : List (Outcome × ClientToServer J × ℕ))
      → let (s', c) = connect s tx user_id in
        let (s'', c', sent) = handle_messages content value json s' c accepts msgs in
        AllEntitled (sessions_of s) s.server.db user_id sent
  unfolding connect add_user_client
  handle_messages_entitled s accepts tx user_id msgs =
      handle_messages-Allowed (connect s tx user_id).0 (connect s tx user_id).1 accepts msgs
        (inl refl)
