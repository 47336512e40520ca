-- ===== src/WebClient/Stored.antt =====
-- The inputs of a session in the table of pending inputs, until the proxy acknowledges them.
use claude_code_portal.Prelude.{
  ℕ, suc, ◌+◌, ◌-◌, ◌^◌, ◌<◌, max, ◌≡◌, refl, sym, ap, ◌∙◌, Bool, true, not, List, [], ◌∷◌, ◌++◌,
  Option, none, some, arith, ltb, leb, ==_refl, lt→ltb, le→leb, order_by, put_in_order, lookup,
  insert, lookup-insert, length, drop, retain, Bool-cases, Option-cases, inl, inr,
}
use mathlib.Core.List.{append_assoc, append-nil, Permᴰ}
use mathlib.Core.Path.{subst}
use claude_code_portal.ProxySocket.Shuffled.{Away, Apart, order_by-perm, inputs_for-perm}
use claude_code_portal.Numbered.{numbered, retain-numbered}
use claude_code_portal.Protocol.{SendMode, sequenced_input}
use claude_code_portal.SessionManager.{Sent, to_proxy}
use claude_code_portal.MessageHandlers.{Content, PendingInput, replay_inputs}
use claude_code_portal.ProxySocket.{
  inputs_for, inputs_of, handle_input_ack, replay_pending_inputs_from_db,
}
use claude_code_portal.ProxySocket.Inputs.{inputs_for-acked, inputs_of-empty}
use claude_code_portal.WebClient.{WebServer, Value}
use claude_code_portal.WebClient.Input.{
  InputOutcome, is_command, attribute_input, store_command, announce_command, store_input,
  accept_input,
}

-- The calls that number and store an input succeed.
abbrev pub IsStored : InputOutcome → Type 0
IsStored out = (out.connects ≡ true) × (out.updates ≡ true) × (out.inserts ≡ true)

-- Neither the rows nor the numbers change.
abbrev SameInputs : {J : Type 0} → WebServer J → WebServer J → Type 0
SameInputs s t = (t.server.pending_inputs ≡ s.server.pending_inputs) × (t.input_seqs ≡ s.input_seqs)

module _ {J : Type 0} where
  pub attribute_input-same :
      (s : WebServer J) (out : InputOutcome) (session_id user_id : ℕ)
      → SameInputs s (attribute_input s out session_id user_id)
  unfolding attribute_input
  attribute_input-same s out session_id user_id = ground arith

-- One input: its user, its content, its mode and when it arrives.
pub record Typed (J : Type 0) : Type 0 where
  pub user_id : ℕ
  pub content : J
  pub send_mode : Option SendMode
  pub now : ℕ

module _ {J F : Type 0} (content : Content J F) (value : Value J) where
  abbrev pub row : ℕ → J → PendingInput
  row n c = record { seq_num = n; content = content.to_string c }

  store_command-same :
      (s : WebServer J) (out : InputOutcome) (session_id : ℕ) (portal : J) (now : ℕ)
      → SameInputs s (store_command content value s out session_id portal now)
  unfolding store_command
  store_command-same s out session_id portal now = ground arith

  pub announce_command-same :
      (s : WebServer J) (accepts : ℕ → Bool) (out : InputOutcome) (key session_id : ℕ) (c : J)
      (now : ℕ)
      → SameInputs s (announce_command content value s accepts out key session_id c now).0
  unfolding announce_command
  announce_command-same s accepts out key session_id c now = elim (Option-cases (value.as_str c)) [
    | inl e ↦ rw (e, announce_command) (refl, refl)
    | inr (text, e) ↦ elim (Bool-cases (is_command text)) [
      | inr plain ↦ rw (e, plain, announce_command) (refl, refl)
      | inl command ↦ rw (e, command, announce_command) (store_command-same _ out session_id _ now)
    ]
  ]

  pub store_input_lem :
      (s : WebServer J) (out : InputOutcome) (session_id n : ℕ) (c : J)
      → IsStored out
      → lookup session_id s.input_seqs ≡ some n
      → n + 1 < 2 ^ 63
      → let (s', seq) = store_input content value s out session_id c in
        (seq ≡ n + 1)
        × (s'.server.pending_inputs ≡ s.server.pending_inputs ++ (session_id, row (n + 1) c) ∷ [])
        × (s'.input_seqs ≡ insert session_id (n + 1) s.input_seqs)
  unfolding store_input
  store_input_lem s out session_id n c (connects, updates, inserts) e fits =
      let small : ltb (n + 1) (2 ^ 63) ≡ true = lt→ltb _ _ fits in
      ground (arith, connects, updates, inserts, e, small)

  accept_input_lem :
      (s : WebServer J) (accepts : ℕ → Bool) (out : InputOutcome) (session_id n : ℕ) (i : Typed J)
      → IsStored out
      → lookup session_id s.input_seqs ≡ some n
      → n + 1 < 2 ^ 63
      → let (s', sent) =
          accept_input content value s accepts out i.user_id session_id session_id i.content
            i.send_mode i.now in
        (s'.server.pending_inputs
          ≡ s.server.pending_inputs ++ (session_id, row (n + 1) i.content) ∷ [])
        × (lookup session_id s'.input_seqs ≡ some (n + 1))
  unfolding accept_input
  accept_input_lem s accepts out session_id n i stored e fits =
      let a = attribute_input s out session_id i.user_id in
      let b =
        (announce_command content value a accepts out session_id session_id i.content i.now).0 in
      let ea = attribute_input-same s out session_id i.user_id in
      let eb = announce_command-same a accepts out session_id session_id i.content i.now in
      let seqs : b.input_seqs ≡ s.input_seqs = eb.1 ∙ ea.1 in
      let r =
        store_input_lem b out session_id n i.content stored (ap (lookup session_id) seqs ∙ e)
          fits in
      (
        r.1 ∙ ap (λ rows. rows ++ (session_id, row (n + 1) i.content) ∷ []) (eb.0 ∙ ea.0),
        ap (lookup session_id) r.2
            ∙ lookup-insert session_id session_id (n + 1) b.input_seqs
            ∙ rw (==_refl session_id) refl,
      )

  -- Inputs for a session, from whatever clients, in the order in which they arrive.
  pub accept_each :
      WebServer J → (ℕ → Bool) → InputOutcome → ℕ → List (Typed J) → WebServer J × List (Sent J)
  accept_each s accepts out session_id [] = (s, [])
  accept_each s accepts out session_id (i ∷ is) =
      let (s', sent) =
        accept_input content value s accepts out i.user_id session_id session_id i.content
          i.send_mode i.now in
      let rest = accept_each s' accepts out session_id is in (rest.0, sent ++ rest.1)

  abbrev pub rows_from : ℕ → ℕ → List (Typed J) → List (ℕ × PendingInput)
  rows_from session_id n is = numbered (λ k (i : Typed J). (session_id, row k i.content)) (n + 1) is

  pub accept_each-rows :
      (s : WebServer J) (accepts : ℕ → Bool) (out : InputOutcome) (session_id n : ℕ)
      (is : List (Typed J))
      → IsStored out
      → lookup session_id s.input_seqs ≡ some n
      → n + length is < 2 ^ 63
      → (accept_each s accepts out session_id is).0.server.pending_inputs
        ≡ s.server.pending_inputs ++ rows_from session_id n is
  unfolding accept_each
  accept_each-rows s accepts out session_id n [] stored e fits =
      sym (append-nil s.server.pending_inputs)
  accept_each-rows s accepts out session_id n (i ∷ is) stored e fits =
      let s' =
        (accept_input content value s accepts out i.user_id session_id session_id i.content
          i.send_mode i.now).0 in
      let one = accept_input_lem s accepts out session_id n i stored e (omega arith) in
      let rest = accept_each-rows s' accepts out session_id (n + 1) is stored one.1 (omega arith) in
      let next : suc (n + 1) ≡ n + 1 + 1 = omega arith in
      rest
      ∙ ap (λ l. l ++ rows_from session_id (n + 1) is) one.0
      ∙ append_assoc s.server.pending_inputs ((session_id, row (n + 1) i.content) ∷ [])
          (rows_from session_id (n + 1) is)
      ∙ ap
          (λ k.
            s.server.pending_inputs
            ++ (session_id, row (n + 1) i.content)
              ∷ numbered (λ j (d : Typed J). (session_id, row j d.content)) k is)
          (sym next)

  pub inputs_for-append :
      (session : ℕ) (xs ys : List (ℕ × PendingInput))
      → inputs_for session (xs ++ ys) ≡ inputs_for session xs ++ inputs_for session ys
  inputs_for-append session [] ys = refl
  inputs_for-append session (x ∷ xs) ys = ground (arith, inputs_for-append session xs ys)

  inputs_for-rows :
      (session k : ℕ) (is : List (Typed J))
      → inputs_for session (numbered (λ j (i : Typed J). (session, row j i.content)) k is)
        ≡ numbered (λ j (i : Typed J). row j i.content) k is
  inputs_for-rows session k [] = refl
  inputs_for-rows session k (i ∷ is) =
      rw (==_refl session) (ap (◌∷◌ (row k i.content)) (inputs_for-rows session (suc k) is))

  retain-above :
      (a : ℕ) (rows : List PendingInput)
      → retain (λ i. not (leb i.seq_num a)) rows ≡ retain (λ i. ltb a i.seq_num) rows
  retain-above a [] = refl
  retain-above a (i ∷ rows) = ground (arith, retain-above a rows)

  -- Rows that stand in order stay as they are.
  order_by-numbered :
      (k : ℕ) (is : List (Typed J))
      → order_by (λ i. i.seq_num) (numbered (λ j (i : Typed J). row j i.content) k is)
        ≡ numbered (λ j (i : Typed J). row j i.content) k is
  order_by-numbered k [] = refl
  order_by-numbered k (i ∷ []) = refl
  order_by-numbered k (i ∷ (i' ∷ is)) =
      let le : leb k (suc k) ≡ true = le→leb _ _ (omega arith) in
      ap (put_in_order (λ i. i.seq_num) (row k i.content)) (order_by-numbered (suc k) (i' ∷ is))
      ∙ rw (le, put_in_order) refl

  -- Numbers that ascend are apart.
  numbered-Away :
      (j k : ℕ) (is : List (Typed J))
      → j < k
      → Away (λ i. i.seq_num) j (numbered (λ m (i : Typed J). row m i.content) k is)
  numbered-Away j k [] lt = tt
  numbered-Away j k (i ∷ is) lt =
      ((λ e. absurd (ground (arith, e, lt))), numbered-Away j (suc k) is (omega arith))

  numbered-Apart :
      (k : ℕ) (is : List (Typed J))
      → Apart (λ i. i.seq_num) (numbered (λ m (i : Typed J). row m i.content) k is)
  numbered-Apart k [] = tt
  numbered-Apart k (i ∷ is) = (numbered-Away k (suc k) is (omega arith), numbered-Apart (suc k) is)

  pub replay_inputs-numbered :
      ((c : J) → content.from_str (content.to_string c) ≡ some c)
      → (session tx k : ℕ) (is : List (Typed J))
      → (replay_inputs content true session tx
          (numbered (λ j (i : Typed J). row j i.content) k is)).0
        ≡ numbered (λ j (i : Typed J). to_proxy tx (sequenced_input session j i.content none)) k is
  unfolding replay_inputs
  replay_inputs-numbered law session tx k [] = refl
  replay_inputs-numbered law session tx k (i ∷ is) =
      ground (arith, law i.content, replay_inputs-numbered law session tx (suc k) is)

  -- Inputs of a session that waits for no acknowledgement, numbered and stored with the database at hand:
  -- whatever the order in which the table holds the rows, after the proxy has acknowledged the first `k` of them, a proxy that registers is sent the others
  -- again, in the order in which they were typed, under their own numbers.
  pub accepted_inputs_replayed :
      ((c : J) → content.from_str (content.to_string c) ≡ some c)
      → (s : WebServer J) (accepts : ℕ → Bool) (out : InputOutcome) (session n k tx : ℕ)
        (is : List (Typed J))
      → IsStored out
      → lookup session s.input_seqs ≡ some n
      → n + length is < 2 ^ 63
      → inputs_of session s.server.pending_inputs ≡ []
      → (table : List (ℕ × PendingInput))
      → Permᴰ (accept_each s accepts out session is).0.server.pending_inputs table
      → let rows = handle_input_ack table (some session) true session (n + k) in
        (replay_pending_inputs_from_db content rows true true session tx).0
        ≡ numbered
            (λ j (i : Typed J). to_proxy tx (sequenced_input session j i.content none))
            (n + k + 1)
            (drop k is)
  unfolding handle_input_ack replay_pending_inputs_from_db
  accepted_inputs_replayed law s accepts out session n k tx is stored e fits none_left table same =
      let s' = (accept_each s accepts out session is).0 in
      let entry : ℕ → Typed J → PendingInput = λ j i. row j i.content in
      let all : inputs_for session s'.server.pending_inputs ≡ numbered entry (n + 1) is =
        ap (inputs_for session) (accept_each-rows s accepts out session n is stored e fits)
        ∙ inputs_for-append session s.server.pending_inputs (rows_from session n is)
        ∙ ap (λ l. l ++ inputs_for session (rows_from session n is))
            (inputs_of-empty session s.server.pending_inputs none_left)
        ∙ inputs_for-rows session (n + 1) is in
      let first : max (n + 1) (suc (n + k)) ≡ n + k + 1 = omega arith in
      let gone : suc (n + k) - (n + 1) ≡ k = omega arith in
      let cut : max (n + 1) (suc (n + k)) ≡ n + k + 1
          → suc (n + k) - (n + 1) ≡ k
          → numbered entry (max (n + 1) (suc (n + k))) (drop (suc (n + k) - (n + 1)) is)
            ≡ numbered entry (n + k + 1) (drop k is) =
        λ a b. rw (a, b) refl in
      let left : inputs_for session
            (handle_input_ack s'.server.pending_inputs (some session) true session (n + k))
          ≡ numbered entry (n + k + 1) (drop k is) =
        rw (==_refl session) (
          inputs_for-acked session (n + k) s'.server.pending_inputs
          ∙ ap (retain (λ i. not (leb i.seq_num (n + k)))) all
          ∙ retain-above (n + k) (numbered entry (n + 1) is)
          ∙ retain-numbered entry (λ i. i.seq_num) (λ j i. refl) (n + k) (n + 1) is
          ∙ cut first gone) in
      ap (λ rows. (replay_inputs content true session tx rows).0)
        (sym (
            order_by-perm (λ i. i.seq_num) (inputs_for-perm session (n + k) same)
              (subst (Apart (λ i. i.seq_num)) (sym left) (numbered-Apart (n + k + 1) (drop k is))))
          ∙ ap (order_by (λ i. i.seq_num)) left
          ∙ order_by-numbered (n + k + 1) (drop k is))
      ∙ replay_inputs-numbered law session tx (n + k + 1) (drop k is)
