-- ===== src/WebClient/Access.antt =====
-- Which proxies a web client's messages reach.
use claude_code_portal.Prelude.{
  ℕ, ◌≡◌, refl, ◌∙◌, Bool, List, [], ◌∷◌, ◌++◌, map, Option, none, some, arith, lookup, Bool-cases,
  Option-cases, inl, inr, retain,
}
use mathlib.Core.Path.{subst}
use Prim.Native.String.{◌++◌ as append}
use claude_code_portal.Protocol.{
  SendMode, portal_text, claude_output, ServerToProxy, ServerToClient,
}
use claude_code_portal.SessionManager.{
  SessionManager, Sent, to_proxy, to_client, to_launcher, send_to_session,
}
use claude_code_portal.SessionManager.Clients.{broadcast_to_web_clients}
use claude_code_portal.MessageHandlers.{Content}
use claude_code_portal.WebClient.Input.{
  InputOutcome, input_message, attribute_input, store_command, announce_command, store_input,
  is_command, send_input, accept_input,
}
use claude_code_portal.WebClient.{WebClient, WebServer, Value, with_manager}

module _ {J : Type 0} where
  -- Nothing goes to a proxy except over one channel, if that is there.
  abbrev pub OnlyTo : Option ℕ → List (Sent J) → Type 0
  OnlyTo o [] = Unit {0}
  OnlyTo o (to_proxy c msg ∷ sent) = (o ≡ some c) × OnlyTo o sent
  OnlyTo o (to_client c msg ∷ sent) = OnlyTo o sent
  OnlyTo o (to_launcher c msg ∷ sent) = ⊥

  pub OnlyTo-append :
      (o : Option ℕ) (xs ys : List (Sent J)) → OnlyTo o xs → OnlyTo o ys → OnlyTo o (xs ++ ys)
  OnlyTo-append o [] ys h k = k
  OnlyTo-append o (to_proxy c msg ∷ xs) ys h k = (h.0, OnlyTo-append o xs ys h.1 k)
  OnlyTo-append o (to_client c msg ∷ xs) ys h k = OnlyTo-append o xs ys h k
  OnlyTo-append o (to_launcher c msg ∷ xs) ys h k = absurd h

  pub OnlyTo-clients :
      (o : Option ℕ) (msg : ServerToClient J) (cs : List ℕ)
      → OnlyTo o (map (λ c. to_client c msg) cs)
  OnlyTo-clients o msg [] = tt
  OnlyTo-clients o msg (c ∷ cs) = OnlyTo-clients o msg cs

  pub send_to_session-OnlyTo :
      (m : SessionManager J) (accepts : ℕ → Bool) (key : ℕ) (msg : ServerToProxy J) (now : ℕ)
      → OnlyTo (lookup key m.sessions) (send_to_session m accepts key msg now).1
        × ((send_to_session m accepts key msg now).0.sessions ≡ m.sessions)
  unfolding send_to_session
  send_to_session-OnlyTo m accepts key msg now = elim (Option-cases (lookup key m.sessions)) [
    | inl e ↦ rw e (tt, refl)
    | inr (c, e) ↦ elim (Bool-cases (accepts c)) [
      | inl live ↦ rw (e, live) ((refl, tt), refl)
      | inr gone ↦ rw (e, gone) (tt, refl)
    ]
  ]

  pub broadcast_to_web_clients-OnlyTo :
      (o : Option ℕ) (m : SessionManager J) (accepts : ℕ → Bool) (key : ℕ) (msg : ServerToClient J)
      → OnlyTo o (broadcast_to_web_clients m accepts key msg).1
        × ((broadcast_to_web_clients m accepts key msg).0.sessions ≡ m.sessions)
  unfolding broadcast_to_web_clients
  broadcast_to_web_clients-OnlyTo o m accepts key msg =
      elim (Option-cases (lookup key m.web_clients)) [
        | inl e ↦ rw (e, broadcast_to_web_clients) (tt, refl)
        | inr (cs, e) ↦
            rw (e, broadcast_to_web_clients) (OnlyTo-clients o msg (retain accepts cs), refl)
      ]

module _ {J : Type 0} where
  abbrev pub sessions_of : WebServer J → List (ℕ × ℕ)
  sessions_of s = s.server.manager.sessions

  -- The channel of the session that the client has registered for.
  abbrev pub channel : WebServer J → WebClient → Option ℕ
  channel s c = elim c.session_key [ none ↦ none | some k ↦ lookup k (sessions_of s) ]

  -- A step that sends to that proxy at most, and leaves alone who is connected and who is a member.
  pub record Within (s : WebServer J) (o : Option ℕ) (s' : WebServer J) (sent : List (Sent J))
      : Type 0 where
    pub only : OnlyTo o sent
    pub sessions : sessions_of s' ≡ sessions_of s
    pub db : s'.server.db ≡ s.server.db

  pub send_input-Within :
      (s t : WebServer J) (accepts : ℕ → Bool) (key : ℕ) (msg : ServerToProxy J) (now : ℕ)
      → sessions_of t ≡ sessions_of s
      → let (u, sent) = send_input t accepts key msg now in
        Within t (lookup key (sessions_of s)) u sent
  unfolding send_input
  send_input-Within s t accepts key msg now same =
      let e = send_to_session-OnlyTo t.server.manager accepts key msg now in
      record {
        only = subst (λ l. OnlyTo (lookup key l) (send_input t accepts key msg now).1) same e.0;
        sessions = e.1;
        db = refl;
      }

  Within-trans :
      (s t u : WebServer J) (o : Option ℕ) (xs ys : List (Sent J))
      → Within s o t xs
      → Within t o u ys
      → Within s o u (xs ++ ys)
  Within-trans s t u o xs ys h k = record {
    only = OnlyTo-append o xs ys h.only k.only;
    sessions = k.sessions ∙ h.sessions;
    db = k.db ∙ h.db;
  }

module _ {J F : Type 0} (content : Content J F) (value : Value J) where
  attribute_input-Within :
      (s : WebServer J) (o : Option ℕ) (out : InputOutcome) (session_id user_id : ℕ)
      → Within s o (attribute_input s out session_id user_id) []
  unfolding attribute_input
  attribute_input-Within s o out session_id user_id = record {
    only = tt;
    sessions = ground arith;
    db = ground arith;
  }

  store_command-Within :
      (s : WebServer J) (o : Option ℕ) (out : InputOutcome) (session_id : ℕ) (portal : J) (now : ℕ)
      → Within s o (store_command content value s out session_id portal now) []
  unfolding store_command
  store_command-Within s o out session_id portal now = record {
    only = tt;
    sessions = ground arith;
    db = ground arith;
  }

  broadcast_and_store :
      (s : WebServer J) (o : Option ℕ) (accepts : ℕ → Bool) (out : InputOutcome)
      (key session_id : ℕ) (portal : J) (now : ℕ)
      → let (m', sent) =
          broadcast_to_web_clients s.server.manager accepts key (claude_output portal none none) in
        Within s o (store_command content value (with_manager s m') out session_id portal now) sent
  unfolding with_manager
  broadcast_and_store s o accepts out key session_id portal now =
      let msg = claude_output portal none none in
      let b = broadcast_to_web_clients-OnlyTo o s.server.manager accepts key msg in
      let t = with_manager s (broadcast_to_web_clients s.server.manager accepts key msg).0 in
      let kept = store_command-Within t o out session_id portal now in
      record { only = b.0; sessions = kept.sessions ∙ b.1; db = kept.db }

  announce_command-Within :
      (s : WebServer J) (o : Option ℕ) (accepts : ℕ → Bool) (out : InputOutcome)
      (key session_id : ℕ) (c : J) (now : ℕ)
      → let (s', sent) = announce_command content value s accepts out key session_id c now in
        Within s o s' sent
  unfolding announce_command
  announce_command-Within s o accepts out key session_id c now =
      elim (Option-cases (value.as_str c)) [
        | inl e ↦ rw (e, announce_command) (record { only = tt; sessions = refl; db = refl })
        | inr (text, e) ↦ elim (Bool-cases (is_command text)) [
          | inr plain ↦
              rw (e, plain, announce_command) (record { only = tt; sessions = refl; db = refl })
          | inl command ↦
              rw (e, command, announce_command)
                (broadcast_and_store s o accepts out key session_id
                  (value.portal_json (portal_text (append "`" (append text "`")))) now)
        ]
      ]

  store_input-Within :
      (s : WebServer J) (o : Option ℕ) (out : InputOutcome) (session_id : ℕ) (c : J)
      → Within s o (store_input content value s out session_id c).0 []
  unfolding store_input
  store_input-Within s o out session_id c = record {
    only = tt;
    sessions = ground arith;
    db = ground arith;
  }

  pub accept_input-Within :
      (s : WebServer J) (accepts : ℕ → Bool) (out : InputOutcome) (user_id key session_id : ℕ)
      (c : J) (send_mode : Option SendMode) (now : ℕ)
      → let (s', sent) =
          accept_input content value s accepts out user_id key session_id c send_mode now in
        Within s (lookup key (sessions_of s)) s' sent
  unfolding accept_input
  accept_input-Within s accepts out user_id key session_id c send_mode now =
      let o = lookup key (sessions_of s) in
      let a = attribute_input s out session_id user_id in
      let n = announce_command content value a accepts out key session_id c now in
      let t = store_input content value n.0 out session_id c in
      let before : Within s o n.0 n.1 =
        Within-trans s a n.0 o [] n.1 (attribute_input-Within s o out session_id user_id)
          (announce_command-Within a o accepts out key session_id c now) in
      let stored = store_input-Within n.0 o out session_id c in
      let msg = input_message session_id t.1 c send_mode in
      let u = send_input t.0 accepts key msg now in
      Within-trans s n.0 u.0 o n.1 u.1 before (
        Within-trans n.0 t.0 u.0 o [] u.1 stored
          (send_input-Within s t.0 accepts key msg now (stored.sessions ∙ before.sessions)))
