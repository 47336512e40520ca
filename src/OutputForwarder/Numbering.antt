-- ===== src/OutputForwarder/Numbering.antt =====
-- The numbers of what claude-session-lib/src/proxy_session/output_forwarder.rs sends.
use claude_code_portal.Prelude.{
  ℕ, ◌+◌, ◌%◌, ◌==◌, ◌||◌, ◌≡◌, refl, sym, ap, ◌∙◌, true, String, List, [], ◌∷◌, ◌++◌, map, inl,
  inr, arith, Bool-cases,
}
use claude_code_portal.Protocol.{PortalMessage}
use claude_code_portal.Protocol.Proxy.{ProxyToServer, sequenced_output}
use claude_code_portal.OutputBuffer.{PendingOutputBuffer, push, acknowledge, u64_mod}
use claude_code_portal.BranchUpdate.{Known, GitAnswers, check_and_send_branch_update}
use claude_code_portal.OutputForwarder.{
  View, World, BufferOp, pushes, acknowledges, others, Forwarder, track_image_reads,
  extract_image_portal_messages, send_portals, forward_output, run_forwarder,
}

module _ {J P : Type 0} where
  -- The sequenced outputs among the messages.
  abbrev pub sequenced : List (ProxyToServer J P) → List (ℕ × J)
  sequenced [] = []
  sequenced (m ∷ messages) = elim m [
    | sequenced_output seq content ↦ (seq, content) ∷ sequenced messages
    | _ ↦ sequenced messages
  ]

  sequenced-append :
      (xs ys : List (ProxyToServer J P)) → sequenced (xs ++ ys) ≡ sequenced xs ++ sequenced ys
  sequenced-append [] ys = refl
  sequenced-append (x ∷ xs) ys =
      elim x as (λ k. sequenced ((k ∷ xs) ++ ys) ≡ sequenced (k ∷ xs) ++ sequenced ys) [
        | sequenced_output seq content ↦ ap (λ zs. (seq, content) ∷ zs) (sequenced-append xs ys)
        | _ ↦ sequenced-append xs ys
      ]

acknowledge-next :
    {J : Type 0} (buffer : PendingOutputBuffer J) (k : ℕ)
    → (acknowledge buffer k).state.next_seq ≡ buffer.state.next_seq
unfolding acknowledge
acknowledge-next buffer k = ground arith

sequenced-updates :
    {J : Type 0} (P : Type 0) (session_id : ℕ) (known : Known) (w : GitAnswers)
    → sequenced (check_and_send_branch_update {P = P} {J = J} session_id known w).1 ≡ []
unfolding check_and_send_branch_update
sequenced-updates P session_id known w = ground arith

module _ {J : Type 0} where
  -- The number after what others push.
  abbrev pub skip : ℕ → List (BufferOp J) → ℕ
  skip n [] = n
  skip n (pushes c ∷ ops) = skip ((n + 1) % u64_mod) ops
  skip n (acknowledges k ∷ ops) = skip n ops

  -- Contents under the numbers that follow on `n`; others push before each.
  abbrev pub count : ℕ → List (List (BufferOp J) × J) → List (ℕ × J)
  count n [] = []
  count n ((ops, c) ∷ cs) = (skip n ops, c) ∷ count ((skip n ops + 1) % u64_mod) cs

  abbrev after : ℕ → List (List (BufferOp J) × J) → ℕ
  after n [] = n
  after n ((ops, c) ∷ cs) = after ((skip n ops + 1) % u64_mod) cs

  count-append :
      (n : ℕ) (xs ys : List (List (BufferOp J) × J))
      → count n (xs ++ ys) ≡ count n xs ++ count (after n xs) ys
  count-append n [] ys = refl
  count-append n ((ops, c) ∷ xs) ys =
      ap (λ zs. (skip n ops, c) ∷ zs) (count-append ((skip n ops + 1) % u64_mod) xs ys)

  -- The portal messages from index `i` on, each with what others do before it.
  abbrev pub each_after : (ℕ → List (BufferOp J)) → ℕ → List J → List (List (BufferOp J) × J)
  each_after between i [] = []
  each_after between i (c ∷ cs) = (between i, c) ∷ each_after between (i + 1) cs

module _ {O J : Type 0} (view : View O J) where
  others-skip :
      (buffer : PendingOutputBuffer J) (ops : List (BufferOp J))
      → (others view buffer ops).state.next_seq ≡ skip buffer.state.next_seq ops
  unfolding others push acknowledge
  others-skip buffer [] = refl
  others-skip buffer (pushes c ∷ ops) = others-skip (push buffer c).0 ops
  others-skip buffer (acknowledges k ∷ ops) =
      others-skip (acknowledge buffer k) ops ∙ ap (λ n. skip n ops) (acknowledge-next buffer k)

module _ {O J : Type 0} (P : Type 0) (view : View O J) where
  send_portals_lem :
      (w : World J) (i : ℕ) (buffer : PendingOutputBuffer J) (messages : List PortalMessage)
      → ((j : ℕ) → w.portal_sends j ≡ true)
      → (let out = send_portals view {P = P} w i buffer messages in
          (sequenced out.1
            ≡ count buffer.state.next_seq
                (each_after w.portal_between i (map view.portal_json messages)))
          × (out.0.state.next_seq
              ≡ after buffer.state.next_seq
                  (each_after w.portal_between i (map view.portal_json messages))))
  unfolding send_portals push
  send_portals_lem w i buffer [] sends = (refl, refl)
  send_portals_lem w i buffer (m ∷ messages) sends =
      let here = others view buffer (w.portal_between i) in
      let seq = others-skip view buffer (w.portal_between i) in
      let (sent, next) =
        send_portals_lem w (i + 1) (push here (view.portal_json m)).0 messages sends in
      let later = each_after w.portal_between (i + 1) (map view.portal_json messages) in
      rw (sends i) (
        ap (λ zs. (here.state.next_seq, view.portal_json m) ∷ zs) sent
            ∙ ap (λ n. (n, view.portal_json m) ∷ count ((n + 1) % u64_mod) later) seq,
        next ∙ ap (λ n. after ((n + 1) % u64_mod) later) seq,
      )

  -- What an output is to send: itself, and the images that it shows.
  abbrev shown : ℕ → World J → O → List (String × String) → List (List (BufferOp J) × J)
  shown max w o reads =
      (w.between, view.to_value o)
      ∷ each_after w.portal_between 0 (
          map view.portal_json
            (extract_image_portal_messages view max w o (track_image_reads view o reads)).1)

  forward_output_lem :
      (session_id max : ℕ) (w : World J) (f : Forwarder) (buffer : PendingOutputBuffer J) (o : O)
      → w.sends ≡ true
      → ((j : ℕ) → w.portal_sends j ≡ true)
      → (let out = forward_output view {P = P} session_id max w f buffer o in
          (sequenced out.2 ≡ count buffer.state.next_seq (shown max w o f.image_read_map))
          × ((out.1.state.next_seq ≡ after buffer.state.next_seq (shown max w o f.image_read_map))
              × ((out.3 ≡ true)
                  × (out.0.image_read_map
                      ≡ (extract_image_portal_messages view max w o
                          (track_image_reads view o f.image_read_map)).0))))
  unfolding forward_output push
  forward_output_lem session_id max w f buffer o sends portals =
      let messages =
        (extract_image_portal_messages view max w o
          (track_image_reads view o f.image_read_map)).1 in
      let here = others view buffer w.between in
      let seq = others-skip view buffer w.between in
      let later = each_after w.portal_between 0 (map view.portal_json messages) in
      let (sent, next') = send_portals_lem w 0 (push here (view.to_value o)).0 messages portals in
      let next = next' ∙ ap (λ n. after ((n + 1) % u64_mod) later) seq in
      let all =
        ap (λ zs. (here.state.next_seq, view.to_value o) ∷ zs) sent
        ∙ ap (λ n. (n, view.to_value o) ∷ count ((n + 1) % u64_mod) later) seq in
      elim (Bool-cases (f.pending_git_check || ((f.message_count + 1) % u64_mod % 100 == 0))) [
        | inr unchecked ↦ rw (sends, unchecked) (all, (next, (refl, refl)))
        | inl checked ↦
            rw (sends, checked)
              (
                sequenced-append
                      (check_and_send_branch_update {P = P} {J = J} session_id f.known w.git).1 _
                    ∙ rw (sequenced-updates {J = J} P session_id f.known w.git) all,
                (next, (refl, refl)),
              )
      ]

  -- The contents that the task is to send: each output, and the images that it shows, each with what others
  -- do to the buffer before it.
  unfoldable pub contents :
      ℕ → List (String × String) → List (World J × O) → List (List (BufferOp J) × J)
  contents max reads [] = []
  contents max reads ((w, o) ∷ outputs) =
      let (reads', messages) =
        extract_image_portal_messages view max w o (track_image_reads view o reads) in
      (w.between, view.to_value o)
      ∷ (each_after w.portal_between 0 (map view.portal_json messages)
          ++ contents max reads' outputs)

  abbrev pub AllSent : List (World J × O) → Type 0
  AllSent [] = Unit {0}
  AllSent ((w, o) ∷ outputs) =
      (w.sends ≡ true) × (((j : ℕ) → w.portal_sends j ≡ true) × AllSent outputs)

  -- While the socket takes what it is given, each output is sent once and in order, followed by the images
  -- that it shows; each has the next number of the buffer that it shares with other tasks, whatever these
  -- push and acknowledge in between: the numbers that are left out are the ones that their pushes took.
  pub run_forwarder_numbers :
      (session_id max : ℕ) (f : Forwarder) (buffer : PendingOutputBuffer J)
      (outputs : List (World J × O))
      → AllSent outputs
      → sequenced (run_forwarder view {P = P} session_id max f buffer outputs).2
        ≡ count buffer.state.next_seq (contents max f.image_read_map outputs)
  unfolding run_forwarder forward_output contents push
  run_forwarder_numbers session_id max f buffer [] sent = refl
  run_forwarder_numbers session_id max f buffer ((w, o) ∷ outputs) (sends, (portals, rest)) =
      let out = forward_output view {P = P} session_id max w f buffer o in
      let (own, (next, (goes, kept))) =
        forward_output_lem session_id max w f buffer o sends portals in
      let later = run_forwarder_numbers session_id max out.0 out.1 outputs rest in
      let first = shown max w o f.image_read_map in
      let reads =
        (extract_image_portal_messages view max w o
          (track_image_reads view o f.image_read_map)).0 in
      rw (goes, run_forwarder)
        (sequenced-append out.2 (run_forwarder view {P = P} session_id max out.0 out.1 outputs).2
          ∙ ((λ j. own j ++ later j)
              ∙ (ap
                    (λ n.
                      count buffer.state.next_seq first
                      ++ count n (contents max out.0.image_read_map outputs))
                    next
                  ∙ ap
                      (λ r.
                        count buffer.state.next_seq first
                        ++ count (after buffer.state.next_seq first) (contents max r outputs))
                      kept
                  ∙ sym (count-append buffer.state.next_seq first (contents max reads outputs)))))
