-- ===== src/WebClient/Steps.antt =====
-- What each message of a web client may send and change.
use claude_code_portal.Prelude.{
  ℕ, ◌≡◌, refl, String, Bool, true, false, ◌&&◌, List, [], ◌∷◌, Option, none, some, lookup, retain,
  ltb, leb, ◌==◌, ◌||◌, Bool-cases, Option-cases, inl, inr, ◌⊎◌,
}
use claude_code_portal.Protocol
use claude_code_portal.Protocol.{
  SendMode, PermissionResponseFields, ServerToProxy, FileUploadStartFields, FileUploadChunkFields,
}
use claude_code_portal.SessionManager.{SessionManager}
use claude_code_portal.SessionManager.Clients.{add_web_client}
use claude_code_portal.MessageHandlers.{Content}
use claude_code_portal.Registration.{RegistrationDb}
use claude_code_portal.Permissions.{
  Suggestions, PendingPermissionRequest, replay_pending_permission, handle_permission_response,
}
use claude_code_portal.Prelude.TextMap
use claude_code_portal.Uploads.{
  sanitize_filename, max_total_chunks, forward, handle_file_upload_start, handle_file_upload_chunk,
}
use claude_code_portal.WebClient.{
  WebClient, WebServer, Value, is_member, verify_session_access, send_history, replay_history,
  handle_web_register, RegisterOutcome,
}
use claude_code_portal.WebClient.Input.{InputOutcome, handle_web_input}
use claude_code_portal.WebClient.Dispatch.{respond, interrupt_session, upload_start, upload_chunk}
use claude_code_portal.WebClient.Access.{
  OnlyTo, OnlyTo-append, OnlyTo-clients, Within, sessions_of, channel, send_to_session-OnlyTo,
  send_input-Within, accept_input-Within,
}

and_right : (a b : Bool) → (a && b) ≡ true → b ≡ true
and_right true b h = h
and_right false b h = cc

-- A client has not registered, or for a session of its user.
abbrev pub IsEntitled : RegistrationDb → WebClient → Type 0
IsEntitled db c =
    (c.session_key ≡ none)
    ⊎ ((k : ℕ) × (c.session_key ≡ some k) × (is_member db k c.user_id ≡ true))

module _ {J : Type 0} where
  nothing-Within : (s : WebServer J) (o : Option ℕ) → Within s o s []
  nothing-Within s o = record { only = tt; sessions = refl; db = refl }

  forward-OnlyTo :
      (m : SessionManager J) (accepts : ℕ → Bool) (key : Option ℕ) (msg : ServerToProxy J) (now : ℕ)
      → OnlyTo
          (elim key [ none ↦ none | some k ↦ lookup k m.sessions ])
          (forward m accepts key msg now).1
        × ((forward m accepts key msg now).0.sessions ≡ m.sessions)
  unfolding forward
  forward-OnlyTo m accepts none msg now = (tt, refl)
  forward-OnlyTo m accepts (some k) msg now = send_to_session-OnlyTo m accepts k msg now

  module _ (json : Suggestions J) where
    pub respond-Within :
        (s : WebServer J) (c : WebClient) (accepts : ℕ → Bool) (deletes : Bool)
        (fields : PermissionResponseFields J) (now : ℕ)
        → let (s', sent) = respond json s c accepts deletes fields now in
          Within s (channel s c) s' sent
    unfolding respond handle_permission_response
    respond-Within s c accepts deletes fields now = elim (Option-cases c.session_key) [
      | inl e ↦ rw (e, respond) (nothing-Within s none)
      | inr (k, e) ↦ elim (Option-cases c.verified_session_id) [
        | inl v ↦ rw (e, v, respond) (nothing-Within s (lookup k (sessions_of s)))
        | inr (id, v) ↦
            let sent =
              send_to_session-OnlyTo s.server.manager accepts k
                (Protocol.permission_response fields) now in
            rw (e, v, respond) (record { only = sent.0; sessions = sent.1; db = refl })
      ]
    ]

    pub interrupt_session-Within :
        (s : WebServer J) (c : WebClient) (accepts : ℕ → Bool) (now : ℕ)
        → let (s', sent) = interrupt_session json s c accepts now in Within s (channel s c) s' sent
    unfolding interrupt_session
    interrupt_session-Within s c accepts now = elim (Option-cases c.session_key) [
      | inl e ↦ rw (e, interrupt_session) (nothing-Within s none)
      | inr (k, e) ↦
          rw (e, interrupt_session) (send_input-Within s s accepts k Protocol.interrupt now refl)
    ]

    pub upload_start-Within :
        (s : WebServer J) (c : WebClient) (accepts : ℕ → Bool) (f : FileUploadStartFields) (now : ℕ)
        → let (s', c', sent) = upload_start json s c accepts f now in
          Within s (channel s c) s' sent
          × (c'.session_key ≡ c.session_key)
          × (c'.user_id ≡ c.user_id)
    unfolding upload_start handle_file_upload_start
    upload_start-Within s c accepts f now =
        let msg =
          Protocol.file_upload_start (record f { filename = sanitize_filename f.filename }) in
        let e = forward-OnlyTo s.server.manager accepts c.session_key msg now in
        elim (Bool-cases (f.total_chunks == 0 || ltb max_total_chunks f.total_chunks)) [
          | inl refused ↦
              rw (refused, upload_start, handle_file_upload_start)
                (nothing-Within s (channel s c), refl, refl)
          | inr taken ↦
              rw (taken, upload_start, handle_file_upload_start)
                (record { only = e.0; sessions = e.1; db = refl }, refl, refl)
        ]

    pub upload_chunk-Within :
        (s : WebServer J) (c : WebClient) (accepts : ℕ → Bool) (f : FileUploadChunkFields) (now : ℕ)
        → let (s', c', sent) = upload_chunk json s c accepts f now in
          Within s (channel s c) s' sent
          × (c'.session_key ≡ c.session_key)
          × (c'.user_id ≡ c.user_id)
    unfolding upload_chunk handle_file_upload_chunk
    upload_chunk-Within s c accepts f now =
        let e =
          forward-OnlyTo s.server.manager accepts c.session_key (Protocol.file_upload_chunk f)
            now in
        elim (Option-cases (TextMap.lookup f.upload_id c.pending_uploads)) [
          | inl unknown ↦
              rw (unknown, upload_chunk, handle_file_upload_chunk)
                (nothing-Within s (channel s c), refl, refl)
          | inr (upload, known) ↦ elim (Bool-cases (leb upload.total_chunks f.chunk_index)) [
            | inl refused ↦
                rw (known, refused, upload_chunk, handle_file_upload_chunk)
                  (nothing-Within s (channel s c), refl, refl)
            | inr taken ↦
                rw (known, taken, upload_chunk, handle_file_upload_chunk)
                  (record { only = e.0; sessions = e.1; db = refl }, refl, refl)
          ]
        ]

module _ {J : Type 0} where
  replay_pending_permission-OnlyTo :
      (json : Suggestions J) (rows : List (ℕ × PendingPermissionRequest J)) (accepts : ℕ → Bool)
      (reads : Bool) (session_id tx : ℕ)
      → OnlyTo none (replay_pending_permission json rows accepts reads session_id tx)
  unfolding replay_pending_permission
  replay_pending_permission-OnlyTo json rows accepts false session_id tx = tt
  replay_pending_permission-OnlyTo json rows accepts true session_id tx =
      elim (Option-cases (lookup session_id rows)) [
        | inl e ↦ rw (e, replay_pending_permission) tt
        | inr (row, e) ↦
            rw (e, replay_pending_permission) (OnlyTo-clients none _ (retain accepts (tx ∷ [])))
      ]

module _ {J F : Type 0} (content : Content J F) (value : Value J) where
  pub handle_web_input-Within :
      (s : WebServer J) (c : WebClient) (accepts : ℕ → Bool) (out : InputOutcome) (input : J)
      (send_mode : Option SendMode) (now : ℕ)
      → let (s', sent) = handle_web_input content value s c accepts out input send_mode now in
        Within s (channel s c) s' sent
  unfolding handle_web_input
  handle_web_input-Within s c accepts out input send_mode now = elim (Option-cases c.session_key) [
    | inl e ↦ rw (e, handle_web_input) (nothing-Within s none)
    | inr (k, e) ↦ elim (Option-cases c.verified_session_id) [
      | inl v ↦ rw (e, v, handle_web_input) (nothing-Within s (lookup k (sessions_of s)))
      | inr (id, v) ↦
          rw (e, v, handle_web_input)
            (accept_input-Within content value s accepts out c.user_id k id input send_mode now)
    ]
  ]

  send_history-OnlyTo :
      (accepts : ℕ → Bool) (tx : ℕ) (vs : List J)
      → OnlyTo none (send_history content value accepts tx vs)
  unfolding send_history
  send_history-OnlyTo accepts tx [] = tt
  send_history-OnlyTo accepts tx (v ∷ vs) =
      OnlyTo-clients none (Protocol.history_batch (v ∷ vs)) (retain accepts (tx ∷ []))

  replay_history-OnlyTo :
      (s : WebServer J) (accepts : ℕ → Bool) (out : RegisterOutcome) (tx session_id : ℕ)
      (replay_after : Option String)
      → OnlyTo none (replay_history content value s accepts out tx session_id replay_after)
  unfolding replay_history
  replay_history-OnlyTo s accepts out tx session_id replay_after =
      elim (Bool-cases (out.history_connects && out.reads_messages)) [
        | inl reads ↦ rw reads (send_history-OnlyTo accepts tx _)
        | inr fails ↦ rw fails tt
      ]

  -- A registration that is granted makes the client one of a session of its user.
  pub handle_web_register-Within :
      (json : Suggestions J) (s : WebServer J) (c : WebClient) (accepts : ℕ → Bool)
      (out : RegisterOutcome) (session_id : ℕ) (replay_after : Option String)
      → IsEntitled s.server.db c
      → let (s', c', sent, closes) =
          handle_web_register content value json s c accepts out session_id replay_after in
        Within s none s' sent × IsEntitled s.server.db c' × (c'.user_id ≡ c.user_id)
  unfolding handle_web_register add_web_client
  handle_web_register-Within json s c accepts out session_id replay_after entitled =
      elim (Bool-cases (verify_session_access s out.access session_id c.user_id)) [
        | inl granted ↦
            let member =
              and_right out.access (is_member s.server.db session_id c.user_id) granted in
            rw (granted) (
              record {
                only =
                    OnlyTo-append none
                      (replay_history content value s accepts out c.tx session_id replay_after)
                      (replay_pending_permission json s.pending_permission_requests accepts
                        out.reads_permission session_id c.tx)
                      (replay_history-OnlyTo s accepts out c.tx session_id replay_after)
                      (replay_pending_permission-OnlyTo json s.pending_permission_requests accepts
                        out.reads_permission session_id c.tx);
                sessions = refl;
                db = refl;
              },
              inr (session_id, refl, member),
              refl,
            )
        | inr denied ↦ rw (denied) (
          record {
            only = OnlyTo-clients none _ (retain accepts (c.tx ∷ []));
            sessions = refl;
            db = refl;
          },
          entitled,
          refl,
        )
      ]
