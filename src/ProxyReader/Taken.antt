-- ===== src/ProxyReader/Taken.antt =====
-- Which inputs claude-session-lib/src/proxy_session/ws_reader.rs hands over and acknowledges.
use mathlib.Core.List.{append_assoc, append-nil}
use claude_code_portal.Prelude.{
  ℕ, ◌≡◌, refl, sym, ap, ◌∙◌, String, Bool, true, false, not, ◌||◌, List, [], ◌∷◌, ◌++◌, Option,
  none, some, inl, inr, Bool-cases, if◌then◌else◌,
}
use claude_code_portal.Protocol.{
  SendMode, FileUploadStartFields, ServerToProxy, register_ack, claude_input, sequenced_input,
  permission_response, output_ack, heartbeat, server_shutdown, session_terminated,
  file_upload_start, file_upload_chunk, interrupt,
}
use claude_code_portal.Protocol.Proxy.{ProxyToServer, input_ack}
use claude_code_portal.Uploads.{start, chunk, has_short_id}
use claude_code_portal.ProxyReader.{
  Channels, Arrival, is_wiggum, hand_over, handle_ws_message, read_loop,
}

-- The reader stops at the end of the session or of the server, where the main loop has gone, and at an
-- upload whose id cannot be cut at eight bytes.
abbrev pub stops : {J : Type 0} → Arrival J → Bool
stops a = elim a.message [
  | server_shutdown reason delay_ms ↦ true
  | session_terminated reason ↦ true
  | register_ack success session_id error max_image_mb ↦ false
  | heartbeat ↦ false
  | interrupt ↦ false
  | file_upload_start f ↦ not (has_short_id f.upload_id) || not a.listens
  | _ ↦ not a.listens
]

-- The messages before the one at which it stops.
abbrev pub taken : {J : Type 0} → List (Option (Arrival J)) → List (Arrival J)
taken [] = []
taken (none ∷ arrivals) = []
taken (some a ∷ arrivals) = if stops a then [] else a ∷ taken arrivals

abbrev pub acks : {J : Type 0} (P : Type 0) → List (Arrival J) → List (ProxyToServer J P)
acks P [] = []
acks P (a ∷ arrivals) = elim a.message [
  | sequenced_input session_id seq content mode ↦
      if a.sends then input_ack session_id seq ∷ acks P arrivals else acks P arrivals
  | _ ↦ acks P arrivals
]

abbrev pub same_mode : Bool → Bool → Bool
same_mode true m = m
same_mode false m = not m

module _ {J : Type 0} (as_text : J → String) where
  -- The texts of the inputs, of the mode or not.
  abbrev pub inputs : Bool → List (Arrival J) → List String
  inputs mode [] = []
  inputs mode (a ∷ arrivals) = elim a.message [
    | claude_input content m ↦
        if same_mode mode (is_wiggum m)
        then as_text content ∷ inputs mode arrivals
        else inputs mode arrivals
    | sequenced_input session_id seq content m ↦
        if same_mode mode (is_wiggum m)
        then as_text content ∷ inputs mode arrivals
        else inputs mode arrivals
    | _ ↦ inputs mode arrivals
  ]

input_handed :
    {J : Type 0} (as_text : J → String) (ch : Channels J) (content : J) (mode : Option SendMode)
    (xs : List String)
    → (hand_over as_text ch content mode).input_tx ++ xs
      ≡ ch.input_tx ++ (if not (is_wiggum mode) then as_text content ∷ xs else xs)
unfolding hand_over
input_handed as_text ch content mode xs = elim (Bool-cases (is_wiggum mode)) [
  | inl e ↦ rw e refl
  | inr e ↦ rw e (append_assoc ch.input_tx (as_text content ∷ []) xs)
]

wiggum_handed :
    {J : Type 0} (as_text : J → String) (ch : Channels J) (content : J) (mode : Option SendMode)
    (xs : List String)
    → (hand_over as_text ch content mode).wiggum_tx ++ xs
      ≡ ch.wiggum_tx ++ (if is_wiggum mode then as_text content ∷ xs else xs)
unfolding hand_over
wiggum_handed as_text ch content mode xs = elim (Bool-cases (is_wiggum mode)) [
  | inl e ↦ rw e (append_assoc ch.wiggum_tx (as_text content ∷ []) xs)
  | inr e ↦ rw e refl
]

module _ {J : Type 0} (P : Type 0) (as_text : J → String) where
  -- What the loop leaves is what there was and what the messages that were taken bring.
  abbrev pub Takes : Channels J → List (Option (Arrival J)) → Type 0
  Takes ch arrivals =
      let out = read_loop {P = P} as_text ch arrivals in
      (out.1 ≡ acks P (taken arrivals))
      × ((out.0.input_tx ≡ ch.input_tx ++ inputs as_text false (taken arrivals))
          × (out.0.wiggum_tx ≡ ch.wiggum_tx ++ inputs as_text true (taken arrivals)))

  stopped :
      (ch : Channels J) → (ch.input_tx ≡ ch.input_tx ++ []) × (ch.wiggum_tx ≡ ch.wiggum_tx ++ [])
  stopped ch = (sym (append-nil ch.input_tx), sym (append-nil ch.wiggum_tx))

  start-Takes :
      (ch : Channels J) (f : FileUploadStartFields) (now : ℕ) (listens sends : Bool)
      (arrivals : List (Option (Arrival J)))
      → ((ch' : Channels J) → Takes ch' arrivals)
      → has_short_id f.upload_id ≡ true
      → Takes ch (
          some
            (record { message = file_upload_start f; now = now; listens = listens; sends = sends })
          ∷ arrivals)
  unfolding read_loop handle_ws_message
  start-Takes ch f now false sends arrivals ih fine =
      simp (fine, read_loop, handle_ws_message) (refl, stopped ch)
  start-Takes ch f now true sends arrivals ih fine =
      simp (fine, read_loop, handle_ws_message)
        (ih (record ch {
          file_upload_tx =
              ch.file_upload_tx ++ start f.upload_id f.filename f.total_chunks f.total_size ∷ [];
        }))

  message-Takes :
      (ch : Channels J) (m : ServerToProxy J) (now : ℕ) (listens sends : Bool)
      (arrivals : List (Option (Arrival J)))
      → ((ch' : Channels J) → Takes ch' arrivals)
      → Takes ch
          (some (record { message = m; now = now; listens = listens; sends = sends }) ∷ arrivals)
  unfolding read_loop handle_ws_message hand_over
  message-Takes ch (register_ack success id e mb) now listens sends arrivals ih = ih ch
  message-Takes ch heartbeat now listens sends arrivals ih =
      ih (record ch { heartbeat = record { last_received = now } })
  message-Takes ch interrupt now listens sends arrivals ih = ih ch
  message-Takes ch (server_shutdown reason delay_ms) now listens sends arrivals ih =
      (refl, stopped ch)
  message-Takes ch (session_terminated reason) now listens sends arrivals ih = (refl, stopped ch)
  message-Takes ch (permission_response fields) now false sends arrivals ih = (refl, stopped ch)
  message-Takes ch (permission_response fields) now true sends arrivals ih =
      ih (record ch { perm_tx = ch.perm_tx ++ fields ∷ [] })
  message-Takes ch (output_ack id ack_seq) now false sends arrivals ih = (refl, stopped ch)
  message-Takes ch (output_ack id ack_seq) now true sends arrivals ih =
      ih (record ch { ack_tx = ch.ack_tx ++ ack_seq ∷ [] })
  message-Takes ch (file_upload_start f) now listens sends arrivals ih =
      elim (Bool-cases (has_short_id f.upload_id)) [
        | inr bad ↦ simp (bad, read_loop, handle_ws_message) (refl, stopped ch)
        | inl fine ↦ (start-Takes ch f now listens sends arrivals ih fine)
      ]
  message-Takes ch (file_upload_chunk f) now false sends arrivals ih = (refl, stopped ch)
  message-Takes ch (file_upload_chunk f) now true sends arrivals ih =
      ih (record ch { file_upload_tx = ch.file_upload_tx ++ chunk f.upload_id f.chunk_data ∷ [] })
  message-Takes ch (claude_input content mode) now false sends arrivals ih = (refl, stopped ch)
  message-Takes ch (claude_input content mode) now true sends arrivals ih =
      let (sent, (input, prompts)) = ih (hand_over as_text ch content mode) in
      (
        sent,
        (
          input ∙ input_handed as_text ch content mode (inputs as_text false (taken arrivals)),
          prompts ∙ wiggum_handed as_text ch content mode (inputs as_text true (taken arrivals)),
        ),
      )
  message-Takes ch (sequenced_input id seq content mode) now false sends arrivals ih =
      (refl, stopped ch)
  message-Takes ch (sequenced_input id seq content mode) now true true arrivals ih =
      let (sent, (input, prompts)) = ih (hand_over as_text ch content mode) in
      (
        ap (λ l. input_ack id seq ∷ l) sent,
        (
          input ∙ input_handed as_text ch content mode (inputs as_text false (taken arrivals)),
          prompts ∙ wiggum_handed as_text ch content mode (inputs as_text true (taken arrivals)),
        ),
      )
  message-Takes ch (sequenced_input id seq content mode) now true false arrivals ih =
      let (sent, (input, prompts)) = ih (hand_over as_text ch content mode) in
      (
        sent,
        (
          input ∙ input_handed as_text ch content mode (inputs as_text false (taken arrivals)),
          prompts ∙ wiggum_handed as_text ch content mode (inputs as_text true (taken arrivals)),
        ),
      )

  -- Up to the message at which the reader stops, each input is handed to the main loop once and in order, in
  -- the channel of its mode, and each numbered one is acknowledged under its number where the socket takes
  -- the acknowledgement: no input is acknowledged that was not handed over.
  pub read_loop_takes :
      (ch : Channels J) (arrivals : List (Option (Arrival J)))
      → ((read_loop {P = P} as_text ch arrivals).1 ≡ acks P (taken arrivals))
        × (((read_loop {P = P} as_text ch arrivals).0.input_tx
              ≡ ch.input_tx ++ inputs as_text false (taken arrivals))
            × ((read_loop {P = P} as_text ch arrivals).0.wiggum_tx
                ≡ ch.wiggum_tx ++ inputs as_text true (taken arrivals)))
  unfolding read_loop
  read_loop_takes ch [] = (refl, stopped ch)
  read_loop_takes ch (none ∷ arrivals) = (refl, stopped ch)
  read_loop_takes ch (some a ∷ arrivals) =
      message-Takes ch a.message a.now a.listens a.sends arrivals
        (λ ch'. read_loop_takes ch' arrivals)
