-- ===== src/WebClient/Offline.antt =====
-- An input that is typed while the session's proxy is away.
use claude_code_portal.ProxySocket.Inputs.{inputs_of-empty}
use claude_code_portal.Prelude.{
  order_by, ℕ, ◌+◌, ◌-◌, ◌^◌, ◌<◌, ◌≡◌, refl, ap, ◌∙◌, Bool, true, [], ◌∷◌, ◌++◌, map, Option, none,
  some, arith, lt→ltb, ==_refl, lookup, lookup-insert, retain, Bool-cases, Option-cases, inl, inr,
}
use Prim.Native.String.{◌++◌ as append}
use claude_code_portal.Protocol.{
  ServerToProxy, ServerToClient, claude_output, portal_text, max_pending_message_age,
  sequenced_input, register_ack,
}
use claude_code_portal.SessionManager.{
  SessionManager, to_proxy, register_session, send_to_session, is_recent, or_default,
}
use claude_code_portal.SessionManager.Clients.{broadcast_to_web_clients, deliver}
use claude_code_portal.SessionManager.Queue.{queue_of, entry}
use claude_code_portal.SessionManager.Delivery.{register_session_replays}
use claude_code_portal.MessageHandlers.{Content, replay_inputs}
use claude_code_portal.ProxyTokens.{Crypto}
use claude_code_portal.Registration.{
  RegistrationParams, Statements, succeeded, register_or_update_session,
}
use claude_code_portal.ProxySocket.{
  Connection, inputs_for, inputs_of, handle_register, replayed_inputs,
}
use claude_code_portal.WebClient.{WebServer, Value, with_manager}
use claude_code_portal.WebClient.Input.{
  InputOutcome, is_command, attribute_input, store_command, announce_command, store_input,
  accept_input, input_message,
}
use claude_code_portal.WebClient.Access.{accept_input-Within}
use claude_code_portal.WebClient.Stored.{
  IsStored, Typed, row, inputs_for-append, store_input_lem, announce_command-same,
  attribute_input-same, replay_inputs-numbered,
}

-- Neither the connected proxies nor the queues change.
abbrev SameQueues : {J : Type 0} → WebServer J → WebServer J → Type 0
SameQueues s t =
    (t.server.manager.pending_messages ≡ s.server.manager.pending_messages)
    × (t.server.manager.sessions ≡ s.server.manager.sessions)

module _ {J : Type 0} where
  attribute_input-queues :
      (s : WebServer J) (out : InputOutcome) (session_id user_id : ℕ)
      → SameQueues s (attribute_input s out session_id user_id)
  unfolding attribute_input
  attribute_input-queues s out session_id user_id = ground arith

  -- What is queued for a proxy that is away, where nothing was queued.
  queue_of-send_to_session :
      (m : SessionManager J) (accepts : ℕ → Bool) (key : ℕ) (msg : ServerToProxy J) (now : ℕ)
      → lookup key m.sessions ≡ none
      → queue_of m key ≡ []
      → queue_of (send_to_session m accepts key msg now).0 key ≡ entry msg now ∷ []
  unfolding send_to_session
  queue_of-send_to_session m accepts key msg now away fresh =
      rw (away, fresh, lookup-insert key key (entry msg now ∷ []) m.pending_messages, ==_refl key)
        refl

  broadcast-queues :
      (m : SessionManager J) (accepts : ℕ → Bool) (key : ℕ) (msg : ServerToClient J)
      → let m' = (broadcast_to_web_clients m accepts key msg).0 in
        (m'.pending_messages ≡ m.pending_messages) × (m'.sessions ≡ m.sessions)
  unfolding broadcast_to_web_clients
  broadcast-queues m accepts key msg = elim (Option-cases (lookup key m.web_clients)) [
    | inl e ↦ rw (e, broadcast_to_web_clients) (refl, refl)
    | inr (cs, e) ↦ rw (e, broadcast_to_web_clients) (refl, refl)
  ]

module _ {J F : Type 0} (content : Content J F) (value : Value J) where
  store_command-queues :
      (s : WebServer J) (out : InputOutcome) (session_id : ℕ) (portal : J) (now : ℕ)
      → SameQueues s (store_command content value s out session_id portal now)
  unfolding store_command
  store_command-queues s out session_id portal now = ground arith

  broadcast_and_store :
      (s : WebServer J) (accepts : ℕ → Bool) (out : InputOutcome) (key session_id : ℕ) (portal : J)
      (now : ℕ)
      → let m' =
          (broadcast_to_web_clients s.server.manager accepts key
            (claude_output portal none none)).0 in
        SameQueues s (store_command content value (with_manager s m') out session_id portal now)
  unfolding with_manager
  broadcast_and_store s accepts out key session_id portal now =
      let msg = claude_output portal none none in
      let b = broadcast-queues s.server.manager accepts key msg in
      let m' = (broadcast_to_web_clients s.server.manager accepts key msg).0 in
      let kept = store_command-queues (with_manager s m') out session_id portal now in
      (kept.0 ∙ b.0, kept.1 ∙ b.1)

  announce_command-queues :
      (s : WebServer J) (accepts : ℕ → Bool) (out : InputOutcome) (key session_id : ℕ) (c : J)
      (now : ℕ)
      → SameQueues s (announce_command content value s accepts out key session_id c now).0
  unfolding announce_command
  announce_command-queues s accepts out key session_id c now =
      elim (Option-cases (value.as_str c)) [
        | inl e ↦ rw (e, announce_command) (refl, refl)
        | inr (text, e) ↦ elim (Bool-cases (is_command text)) [
          | inr plain ↦ rw (e, plain, announce_command) (refl, refl)
          | inl command ↦
              let kept =
                broadcast_and_store s accepts out key session_id
                  (value.portal_json (portal_text (append "`" (append text "`")))) now in
              rw (e, command, announce_command) kept
        ]
      ]

  store_input-queues :
      (s : WebServer J) (out : InputOutcome) (session_id : ℕ) (c : J)
      → SameQueues s (store_input content value s out session_id c).0
  unfolding store_input
  store_input-queues s out session_id c = ground arith

  numbered_message :
      (session n : ℕ) (i : Typed J)
      → input_message session (n + 1) i.content i.send_mode
        ≡ sequenced_input session (n + 1) i.content i.send_mode
  unfolding input_message
  numbered_message session n i = ground arith

  -- The queue and the rows after one input.
  accept_input-away :
      (s : WebServer J) (accepts : ℕ → Bool) (out : InputOutcome) (session n : ℕ) (i : Typed J)
      → IsStored out
      → lookup session s.input_seqs ≡ some n
      → n + 1 < 2 ^ 63
      → lookup session s.server.manager.sessions ≡ none
      → queue_of s.server.manager session ≡ []
      → inputs_of session s.server.pending_inputs ≡ []
      → let s' =
          (accept_input content value s accepts out i.user_id session session i.content i.send_mode
            i.now).0 in
        (queue_of s'.server.manager session
          ≡ entry (sequenced_input session (n + 1) i.content i.send_mode) i.now ∷ [])
        × (inputs_for session s'.server.pending_inputs ≡ row content value (n + 1) i.content ∷ [])
  unfolding accept_input
  accept_input-away s accepts out session n i stored e fits away fresh none_left =
      let a = attribute_input s out session i.user_id in
      let b = (announce_command content value a accepts out session session i.content i.now).0 in
      let t = (store_input content value b out session i.content) in
      let ea = attribute_input-same s out session i.user_id in
      let eb = announce_command-same content value a accepts out session session i.content i.now in
      let qa = attribute_input-queues s out session i.user_id in
      let qb = announce_command-queues a accepts out session session i.content i.now in
      let qt = store_input-queues b out session i.content in
      let r =
        store_input_lem content value b out session n i.content stored
          (ap (lookup session) (eb.1 ∙ ea.1) ∙ e) fits in
      let msg : input_message session t.1 i.content i.send_mode
          ≡ sequenced_input session (n + 1) i.content i.send_mode =
        ap (λ k. input_message session k i.content i.send_mode) r.0
        ∙ numbered_message session n i in
      (
        queue_of-send_to_session t.0.server.manager accepts session
              (input_message session t.1 i.content i.send_mode) i.now
              (ap (lookup session) (qt.1 ∙ qb.1 ∙ qa.1) ∙ away)
              (ap (λ l. or_default (lookup session l)) (qt.0 ∙ qb.0 ∙ qa.0) ∙ fresh)
            ∙ ap (λ m. entry m i.now ∷ []) msg,
        ap (inputs_for session) (
              r.1
              ∙ ap (λ l. l ++ (session, row content value (n + 1) i.content) ∷ []) (eb.0 ∙ ea.0))
            ∙ inputs_for-append content value session s.server.pending_inputs
                ((session, row content value (n + 1) i.content) ∷ [])
            ∙ ap
                (λ l. l ++ inputs_for session ((session, row content value (n + 1) i.content) ∷ []))
                (inputs_of-empty session s.server.pending_inputs none_left)
            ∙ rw (==_refl session) refl,
      )

  replayed_row :
      ((c : J) → content.from_str (content.to_string c) ≡ some c)
      → (s : WebServer J) (session tx k : ℕ) (i : Typed J)
      → inputs_for session s.server.pending_inputs ≡ row content value k i.content ∷ []
      → replayed_inputs content s.server true true (succeeded session) tx
        ≡ to_proxy tx (sequenced_input session k i.content none) ∷ []
  unfolding replayed_inputs
  replayed_row law s session tx k i e =
      ap (λ rows. (replay_inputs content true session tx (order_by (λ i. i.seq_num) rows)).0) e
      ∙ replay_inputs-numbered content value law session tx k (i ∷ [])

  -- An input that is typed while no proxy of the session is connected, and neither queued messages nor
  -- stored inputs are left, is sent twice to the proxy that registers within five minutes, if the
  -- registration succeeds: once from the queue and once from the table, under one number, and the second
  -- time without its mode.
  pub offline_input_sent_twice :
      (law : (c : J) → content.from_str (content.to_string c) ≡ some c) (crypto : Crypto)
      (dev_user : Option ℕ) (max_image_mb : ℕ) (s : WebServer J) (accepts : ℕ → Bool)
      (out : InputOutcome) (n : ℕ) (i : Typed J) (c : Connection) (st : Statements)
      (p : RegistrationParams) (later : ℕ)
      → IsStored out
      → lookup p.claude_session_id s.input_seqs ≡ some n
      → n + 1 < 2 ^ 63
      → lookup p.claude_session_id s.server.manager.sessions ≡ none
      → queue_of s.server.manager p.claude_session_id ≡ []
      → inputs_of p.claude_session_id s.server.pending_inputs ≡ []
      → accepts c.tx ≡ true
      → st.reads ≡ true
      → (register_or_update_session crypto dev_user s.server.db st p later).1
        ≡ succeeded p.claude_session_id
      → later - i.now < max_pending_message_age
      → let session = p.claude_session_id in
        let s' =
          (accept_input content value s accepts out i.user_id session session i.content i.send_mode
            i.now).0 in
        (handle_register content crypto dev_user max_image_mb s'.server c accepts st p later).2
        ≡ to_proxy c.tx (sequenced_input session (n + 1) i.content i.send_mode)
          ∷ to_proxy c.tx (register_ack true session none max_image_mb)
          ∷ to_proxy c.tx (sequenced_input session (n + 1) i.content none)
          ∷ []
  unfolding handle_register
  offline_input_sent_twice law crypto dev_user max_image_mb s accepts out n i c st p later stored e
        fits away fresh none_left alive reads registered recent =
      let session = p.claude_session_id in
      let s' =
        (accept_input content value s accepts out i.user_id session session i.content i.send_mode
          i.now).0 in
      let kept =
        accept_input-Within content value s accepts out i.user_id session session i.content
          i.send_mode i.now in
      let a = accept_input-away s accepts out session n i stored e fits away fresh none_left in
      let result : (register_or_update_session crypto dev_user s'.server.db st p later).1
          ≡ succeeded session =
        ap (λ db. (register_or_update_session crypto dev_user db st p later).1) kept.db
        ∙ registered in
      let msg = sequenced_input session (n + 1) i.content i.send_mode in
      let queue : (register_session s'.server.manager accepts session c.tx later).1
          ≡ to_proxy c.tx msg ∷ [] =
        (register_session_replays s'.server.manager accepts session c.tx later alive).0
        ∙ ap (λ q. map (λ m. to_proxy c.tx m.msg) (retain (is_recent later) q)) a.0
        ∙ rw (lt→ltb _ _ recent) refl in
      let ack : deliver accepts to_proxy
            (register_ack
              (register_or_update_session crypto dev_user s'.server.db st p later).1.success session
              (register_or_update_session crypto dev_user s'.server.db st p later).1.error
              max_image_mb)
            (c.tx ∷ [])
          ≡ to_proxy c.tx (register_ack true session none max_image_mb) ∷ [] =
        ap
          (λ r.
            deliver accepts to_proxy (register_ack r.success session r.error max_image_mb)
              (c.tx ∷ []))
          result
        ∙ rw alive refl in
      let table : replayed_inputs content s'.server st.reads (accepts c.tx)
            (register_or_update_session crypto dev_user s'.server.db st p later).1 c.tx
          ≡ to_proxy c.tx (sequenced_input session (n + 1) i.content none) ∷ [] =
        ap (λ r. replayed_inputs content s'.server st.reads (accepts c.tx) r c.tx) result
        ∙ rw (reads, alive) (replayed_row law s' session c.tx (n + 1) i a.1) in
      λ j. queue j ++ ack j ++ table j
