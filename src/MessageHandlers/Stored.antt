-- ===== src/MessageHandlers/Stored.antt =====
-- What the outputs of a session leave in the database.
use claude_code_portal.Prelude.{
  String, ℕ, suc, ◌<◌, ◌≡◌, refl, ap, ◌∙◌, Bool, true, false, List, [], ◌∷◌, ◌++◌, map, Option,
  none, some, arith, lt→leb_false, lookup, lookup-insert, Bool-cases, inl, inr, Option-cases,
}
use mathlib.Core.List.{append_assoc, append-nil, map-append}
use claude_code_portal.MessageHandlers.{
  Content, find_session, store_result_metadata, Backend, Db, Outcome, SessionRow, healthy,
  is_duplicate, take_sender, store_message, store_output, store_if_connected, handle_claude_output,
  new_message, update_row,
}
use claude_code_portal.SessionManager.Connections.{is_some}
use claude_code_portal.MessageHandlers.Dedup.{acked, announced, taken-acked, first_output_rejected}

-- The contents of the messages in the database, oldest first.
abbrev pub texts : {J F : Type 0} → Backend J F → List String
texts b = map (λ m. m.content) b.db.messages

abbrev pub is_known : {F : Type 0} → Db F → ℕ → Bool
is_known db session = is_some (lookup session db.sessions)

module _ {J F : Type 0} (json : Content J F) where
  update_row-messages :
      (u : Bool) (session : ℕ) (f : SessionRow F → SessionRow F) (db : Db F)
      → (update_row json u session f db).messages ≡ db.messages
  unfolding update_row
  update_row-messages false session f db = refl
  update_row-messages true session f db = ground arith

  store_message-messages :
      (db : Db F) (session : ℕ) (c : J) (s : Option (ℕ × String)) (row : SessionRow F)
      → (store_message json db healthy session c s row).messages
        ≡ db.messages ++ new_message json session c row.user_id s ∷ []
  unfolding store_message
  store_message-messages db session c s row = rw update_row-messages

  store_output-messages :
      (b : Backend J F) (accepts : ℕ → Bool) (now session tx : ℕ) (c : J) (n : ℕ)
      (s : Option (ℕ × String)) (row : SessionRow F)
      → lookup session b.db.sessions ≡ some row
      → (store_output json b accepts healthy now session tx c (some n) s).0.db.messages
        ≡ b.db.messages ++ new_message json session c row.user_id s ∷ []
  unfolding store_output find_session
  store_output-messages b accepts now session tx c n s row e = simp e (
      update_row-messages true session (λ r. record r { last_activity = now })
        (store_message json b.db healthy session c s row)
      ∙ store_message-messages b.db session c s row)

  update_row-known :
      (u : Bool) (session : ℕ) (f : SessionRow F → SessionRow F) (db : Db F)
      → is_known (update_row json u session f db) session ≡ is_known db session
  unfolding update_row
  update_row-known false session f db = refl
  update_row-known true session f db = elim (Option-cases (lookup session db.sessions)) [
    | inl e ↦ ground (arith, e)
    | inr (row, e) ↦ rw e (ground (arith, lookup-insert session session (f row) db.sessions))
  ]

  store_message-known :
      (db : Db F) (out : Outcome) (session : ℕ) (c : J) (s : Option (ℕ × String))
      (row : SessionRow F)
      → is_known (store_message json db out session c s row) session ≡ is_known db session
  unfolding store_message
  store_message-known db out session c s row = elim (Bool-cases out.inserts) [
    | inl yes' ↦ simp yes' (update_row-known _ session (store_result_metadata json out c) _)
    | inr no' ↦ simp no' (update_row-known _ session (store_result_metadata json out c) _)
  ]

  store_output-known :
      (b : Backend J F) (accepts : ℕ → Bool) (out : Outcome) (now session tx : ℕ) (c : J) (n : ℕ)
      (s : Option (ℕ × String))
      → is_known (store_output json b accepts out now session tx c (some n) s).0.db session
        ≡ is_known b.db session
  unfolding store_output
  store_output-known b accepts out now session tx c n s =
      elim (Option-cases (find_session json out.finds b.db session)) [
        | inl e ↦
            rw e (update_row-known out.updates session (λ r. record r { last_activity = now }) b.db)
        | inr (row, e) ↦ rw e (
            update_row-known out.updates session (λ r. record r { last_activity = now })
              (store_message json b.db out session c s row)
            ∙ store_message-known b.db out session c s row)
      ]

  module _ (accepts : ℕ → Bool) (now session tx : ℕ) (key : Option ℕ) where
    abbrev pub takes : Backend J F → J → ℕ → Backend J F
    takes b c n =
        (handle_claude_output json b accepts healthy now key (some session) tx c (some n)).0

    stores : Backend J F → J → ℕ → Backend J F
    stores b c n =
        (store_output json (announced json b accepts healthy now session tx key c) accepts healthy
          now session tx c (some n) (take_sender json b.manager (some session) c).1).0

    takes-eq-stores :
        (b : Backend J F) (c : J) (n : ℕ) → acked b.manager session < n → takes b c n ≡ stores b c n
    unfolding handle_claude_output is_duplicate store_if_connected stores
    takes-eq-stores b c n h = rw (lt→leb_false n (acked b.manager session) h, takes)

    pub takes-known :
        (b : Backend J F) (c : J) (n : ℕ)
        → acked b.manager session < n
        → is_known (takes b c n).db session ≡ is_known b.db session
    unfolding stores
    takes-known b c n h =
        ap (λ b'. is_known b'.db session) (takes-eq-stores b c n h)
        ∙ store_output-known (announced json b accepts healthy now session tx key c) accepts healthy
            now session tx c n (take_sender json b.manager (some session) c).1

    -- An output that is no duplicate, of a session in the database, is stored once, at the end.
    takes-texts :
        (b : Backend J F) (c : J) (n : ℕ)
        → acked b.manager session < n
        → is_known b.db session ≡ true
        → texts (takes b c n) ≡ texts b ++ json.to_string c ∷ []
    unfolding stores new_message
    takes-texts b c n h known = elim (Option-cases (lookup session b.db.sessions)) [
      | inl e ↦ ground (arith, e)
      | inr (row, e) ↦
          ap texts (takes-eq-stores b c n h)
          ∙ ap (map (λ m. m.content)) (
              store_output-messages (announced json b accepts healthy now session tx key c) accepts
                now session tx c n (take_sender json b.manager (some session) c).1 row e)
          ∙ map-append (λ m. m.content) b.db.messages _
    ]

    -- Outputs that arrive under consecutive numbers.
    unfoldable pub handle_each : Backend J F → ℕ → List J → Backend J F
    handle_each b n [] = b
    handle_each b n (c ∷ cs) = handle_each (takes b c n) (suc n) cs

    -- With the database at hand and the session's row in it, outputs that arrive under consecutive numbers,
    -- the first above the session's mark, are stored all, once each and in order.
    pub handle_each-texts :
        (b : Backend J F) (n : ℕ) (cs : List J)
        → acked b.manager session < n
        → is_known b.db session ≡ true
        → texts (handle_each b n cs) ≡ texts b ++ map json.to_string cs
    unfolding handle_each
    handle_each-texts b n [] h known = rw append-nil
    handle_each-texts b n (c ∷ cs) h known =
        let more : acked b.manager session < n = h in
        let b' : Backend J F = takes b c n in
        let mark : acked b'.manager session ≡ n =
          ground (arith, taken-acked json b accepts healthy now session tx key c n session) in
        handle_each-texts b' (suc n) cs (omega (arith, mark)) (takes-known b c n h ∙ known)
        ∙ rw (takes-texts b c n h known, append_assoc) refl

    -- Of a session's outputs, numbered from 0 as the proxy numbers them, the first is never stored
    -- while the backend holds no mark for the session; the others are, once each and in order.
    pub handle_each_from_zero :
        (b : Backend J F) (c : J) (cs : List J)
        → lookup session b.manager.last_ack_seq ≡ none
        → is_known b.db session ≡ true
        → texts (handle_each b 0 (c ∷ cs)) ≡ texts b ++ map json.to_string cs
    unfolding handle_each
    handle_each_from_zero b c cs e known =
        let skipped : takes b c 0 ≡ b =
          ap (λ r. r.0) (first_output_rejected json b accepts healthy now session tx key c e) in
        ap (λ b'. texts (handle_each b' 1 cs)) skipped
        ∙ handle_each-texts b 1 cs (ground (arith, e)) known
