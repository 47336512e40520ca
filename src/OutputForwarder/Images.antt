-- ===== src/OutputForwarder/Images.antt =====
-- The images that claude-session-lib/src/proxy_session/output_forwarder.rs shows.
use mathlib.Core.Path.{subst}
use mathlib.Core.List.{append_assoc}
use package.text.Mathlib.TextEquality.{eq_iff}
use claude_code_portal.Prelude.{
  ℕ, ◌≡◌, ◌≢◌, ◌≤◌, ◌<◌, leb→le, ltb→lt, refl, sym, ap, ◌++◌, length, ltb, ◌∙◌, ◌⊎◌, String, Bool,
  true, false, ◌&&◌, List, [], ◌∷◌, none, some, inl, inr, leb, any, arith, Option-cases, Bool-cases,
}
use claude_code_portal.Prelude.TextMap.{lookup, remove, lookup-remove, str_eq_refl}
use package.text.Mathlib.Text.{◌==◌ as str_eq}
use claude_code_portal.Protocol.{
  PortalContent, PortalMessage, text, image, portal_text, portal_image,
}
use claude_code_portal.OutputForwarder.{
  View, World, ToolResult, image_message, image_mime_type, or_png, extract_each,
  extract_image_portal_messages,
}

-- An image says how many bytes its file has, and these are at most `max`.
abbrev pub content_fits : ℕ → PortalContent → Bool
content_fits max (text t) = true
content_fits max (image media_type image_data file_path none) = false
content_fits max (image media_type image_data file_path (some size)) = leb size max

abbrev pub contents_fit : ℕ → List PortalContent → Bool
contents_fit max [] = true
contents_fit max (c ∷ cs) = content_fits max c && contents_fit max cs

abbrev pub messages_fit : ℕ → List PortalMessage → Bool
messages_fit max [] = true
messages_fit max (m ∷ ms) = contents_fit max m.content && messages_fit max ms

abbrev pub answers : String → ToolResult → Bool
answers id r = str_eq r.tool_use_id id

any-middle :
    (r : ToolResult) (before after : List ToolResult)
    → any (answers r.tool_use_id) (before ++ r ∷ after) ≡ true
any-middle r [] after = ground (arith, str_eq_refl r.tool_use_id)
any-middle r (x ∷ before) after = ground (arith, any-middle r before after)

module _ {O J : Type 0} (view : View O J) where
  image_message_fits :
      (max : ℕ) (path : String) (bytes : List ℕ)
      → contents_fit max (image_message view max path bytes).content ≡ true
  unfolding image_message
  image_message_fits max path bytes = ground arith

  extract_each_fits :
      (max : ℕ) (w : World J) (results : List ToolResult) (reads : List (String × String))
      → messages_fit max (extract_each view max w results reads).1 ≡ true
  unfolding extract_each
  extract_each_fits max w [] reads = refl
  extract_each_fits max w (r ∷ results) reads =
      let rest = extract_each_fits max w results (remove r.tool_use_id reads) in
      elim (Option-cases (lookup r.tool_use_id reads)) [
        | inl e ↦ rw (e, extract_each) (extract_each_fits max w results reads)
        | inr (path, e) ↦ elim (Option-cases r.is_error) [
          | inr (true, f) ↦ rw (e, f, extract_each) rest
          | inr (false, f) ↦ elim (Option-cases (w.read_file path)) [
            | inl g ↦ rw (e, f, g, extract_each) rest
            | inr (bytes, g) ↦ rw (e, f, g, extract_each, image_message_fits max path bytes) rest
          ]
          | inl f ↦ elim (Option-cases (w.read_file path)) [
            | inl g ↦ rw (e, f, g, extract_each) rest
            | inr (bytes, g) ↦ rw (e, f, g, extract_each, image_message_fits max path bytes) rest
          ]
        ]
      ]

  -- The reads that are left, whichever branch a result takes.
  extract_each_reads :
      (max : ℕ) (w : World J) (r : ToolResult) (results : List ToolResult)
      (reads : List (String × String))
      → ((lookup r.tool_use_id reads ≡ none)
          × ((extract_each view max w (r ∷ results) reads).0
              ≡ (extract_each view max w results reads).0))
        ⊎ ((extract_each view max w (r ∷ results) reads).0
            ≡ (extract_each view max w results (remove r.tool_use_id reads)).0)
  unfolding extract_each
  extract_each_reads max w r results reads = elim (Option-cases (lookup r.tool_use_id reads)) [
    | inl e ↦ inl (e, rw (e, extract_each) refl)
    | inr (path, e) ↦ inr (elim (Option-cases r.is_error) [
      | inr (true, f) ↦ rw (e, f, extract_each) refl
      | inr (false, f) ↦ elim (Option-cases (w.read_file path)) [
        | inl g ↦ rw (e, f, g, extract_each) refl
        | inr (bytes, g) ↦ rw (e, f, g, extract_each) refl
      ]
      | inl f ↦ elim (Option-cases (w.read_file path)) [
        | inl g ↦ rw (e, f, g, extract_each) refl
        | inr (bytes, g) ↦ rw (e, f, g, extract_each) refl
      ]
    ])
  ]

  extract_each_untracked :
      (max : ℕ) (w : World J) (id : String) (results : List ToolResult)
      (reads : List (String × String))
      → lookup id reads ≡ none
      → lookup id (extract_each view max w results reads).0 ≡ none
  unfolding extract_each
  extract_each_untracked max w id [] reads h = h
  extract_each_untracked max w id (r ∷ results) reads h =
      elim (extract_each_reads max w r results reads) [
        | inl (e, same) ↦ ap (lookup id) same ∙ extract_each_untracked max w id results reads h
        | inr less ↦
            ap (lookup id) less
            ∙ extract_each_untracked max w id results (remove r.tool_use_id reads)
                (ground (arith, h, lookup-remove r.tool_use_id id reads))
      ]

  extract_each_forgets :
      (max : ℕ) (w : World J) (id : String) (results : List ToolResult)
      (reads : List (String × String))
      → any (answers id) results ≡ true
      → lookup id (extract_each view max w results reads).0 ≡ none
  extract_each_forgets max w id [] reads h = ground (arith, h)
  extract_each_forgets max w id (r ∷ results) reads h = elim (Bool-cases (answers id r)) [
    | inr other ↦
        let h' : any (answers id) results ≡ true = ground (arith, h, other) in
        elim (extract_each_reads max w r results reads) [
          | inl (e, same) ↦ ap (lookup id) same ∙ extract_each_forgets max w id results reads h'
          | inr less ↦
              ap (lookup id) less
              ∙ extract_each_forgets max w id results (remove r.tool_use_id reads) h'
        ]
    | inl own ↦
        let e : r.tool_use_id ≡ id = (eq_iff r.tool_use_id id).0 own in
        elim (extract_each_reads max w r results reads) [
          | inl (f, same) ↦
              ap (lookup id) same
              ∙ extract_each_untracked max w id results reads
                  (subst (λ i. lookup i reads ≡ none) e f)
          | inr less ↦
              ap (lookup id) less
              ∙ extract_each_untracked max w id results (remove r.tool_use_id reads)
                  (ground (arith, own, lookup-remove r.tool_use_id id reads))
        ]
  ]

  -- One result: what is left of the reads, and what it shows.
  one :
      ℕ
      → World J
      → ToolResult
      → List (String × String)
      → List (String × String) × List PortalMessage
  one max w r reads = elim (lookup r.tool_use_id reads) [
    | none ↦ (reads, [])
    | some path ↦ elim r.is_error [
      | some true ↦ (remove r.tool_use_id reads, [])
      | _ ↦ elim (w.read_file path) [
        | none ↦ (remove r.tool_use_id reads, [])
        | some bytes ↦ (remove r.tool_use_id reads, image_message view max path bytes ∷ [])
      ]
    ]
  ]

  extract_each-cons :
      (max : ℕ) (w : World J) (r : ToolResult) (results : List ToolResult)
      (reads : List (String × String))
      → let (left, shown) = one max w r reads in
        let rest = extract_each view max w results left in
        extract_each view max w (r ∷ results) reads ≡ (rest.0, shown ++ rest.1)
  unfolding extract_each one
  extract_each-cons max w r results reads = ground arith

  extract_each-append :
      (max : ℕ) (w : World J) (xs ys : List ToolResult) (reads : List (String × String))
      → let first = extract_each view max w xs reads in
        let rest = extract_each view max w ys first.0 in
        extract_each view max w (xs ++ ys) reads ≡ (rest.0, first.1 ++ rest.1)
  unfolding extract_each
  extract_each-append max w [] ys reads = refl
  extract_each-append max w (r ∷ xs) ys reads =
      let (left, shown) = one max w r reads in
      let first = extract_each view max w xs left in
      let rest = extract_each view max w ys first.0 in
      extract_each-cons max w r (xs ++ ys) reads
      ∙ ap (λ (e : List (String × String) × List PortalMessage). (e.0, shown ++ e.1))
          (extract_each-append max w xs ys left)
      ∙ ap (λ ms. (rest.0, ms)) (sym (append_assoc shown first.1 rest.1))
      ∙ ap
          (λ (e : List (String × String) × List PortalMessage).
            ((extract_each view max w ys e.0).0, e.1 ++ (extract_each view max w ys e.0).1))
          (sym (extract_each-cons max w r xs reads))

  -- A read that no result answers stays tracked.
  extract_each_keeps :
      (max : ℕ) (w : World J) (id path : String) (results : List ToolResult)
      (reads : List (String × String))
      → any (answers id) results ≡ false
      → lookup id reads ≡ some path
      → lookup id (extract_each view max w results reads).0 ≡ some path
  unfolding extract_each
  extract_each_keeps max w id path [] reads h e = e
  extract_each_keeps max w id path (r ∷ results) reads h e =
      let other : answers id r ≡ false = ground (arith, h) in
      let h' : any (answers id) results ≡ false = ground (arith, h) in
      elim (extract_each_reads max w r results reads) [
        | inl (f, same) ↦ ap (lookup id) same ∙ extract_each_keeps max w id path results reads h' e
        | inr less ↦
            ap (lookup id) less
            ∙ extract_each_keeps max w id path results (remove r.tool_use_id reads) h'
                (ground (arith, e, other, lookup-remove r.tool_use_id id reads))
      ]

  -- The result of a tracked read, the first with its id and no error, of a file that can be read: between what
  -- the results before it and after it show, it shows one message, the image if the file has at most the
  -- limit's bytes, and a text if not. No image is shown whose file has more, and the read is no longer tracked.
  pub extract_image_portal_messages_fit :
      (max : ℕ) (w : World J) (o : O) (reads : List (String × String)) (before : List ToolResult)
      (r : ToolResult) (after : List ToolResult) (path : String) (bytes : List ℕ)
      → view.results o ≡ before ++ r ∷ after
      → any (answers r.tool_use_id) before ≡ false
      → lookup r.tool_use_id reads ≡ some path
      → r.is_error ≢ some true
      → w.read_file path ≡ some bytes
      → let out = extract_image_portal_messages view max w o reads in
        let first = extract_each view max w before reads in
        ((message : PortalMessage) × (out.1
            ≡ first.1 ++ message ∷ (extract_each view max w after (remove r.tool_use_id first.0)).1)
          × (((length bytes ≤ max)
                × (message
                    ≡ portal_image
                        (or_png view (image_mime_type view.to_lowercase path))
                        (view.encode bytes)
                        (some path)
                        (some (length bytes))))
              ⊎ ((max < length bytes) × ((t : String) × (message ≡ portal_text t)))))
        × (messages_fit max out.1 ≡ true)
        × (lookup r.tool_use_id out.0 ≡ none)
  unfolding extract_image_portal_messages image_message one
  extract_image_portal_messages_fit max w o reads before r after path bytes split new tracked fine
        readable =
      let first = extract_each view max w before reads in
      let kept = extract_each_keeps max w r.tool_use_id path before reads new tracked in
      let shown : one max w r first.0
          ≡ (remove r.tool_use_id first.0, image_message view max path bytes ∷ []) =
        elim (Option-cases r.is_error) [
          | inl f ↦ rw (kept, f, readable, one) refl
          | inr (true, f) ↦ absurd (fine f)
          | inr (false, f) ↦ rw (kept, f, readable, one) refl
        ] in
      (
        (
          image_message view max path bytes,
          ap (λ rs. (extract_each view max w rs reads).1) split
              ∙ ap (λ (e : List (String × String) × List PortalMessage). e.1)
                  (extract_each-append max w before (r ∷ after) reads)
              ∙ ap (λ (e : List (String × String) × List PortalMessage). first.1 ++ e.1)
                  (extract_each-cons max w r after first.0)
              ∙ ap
                  (λ (e : List (String × String) × List PortalMessage).
                    first.1 ++ (e.1 ++ (extract_each view max w after e.0).1))
                  shown,
          elim (Bool-cases (leb (length bytes) max)) [
            | inl small ↦
                let low : ltb max (length bytes) ≡ false = ground (arith, small) in
                inl (leb→le _ _ small, rw (low, image_message) refl)
            | inr big ↦
                let high : ltb max (length bytes) ≡ true = ground (arith, big) in
                inr (ltb→lt _ _ high, rw (high, image_message) (_, refl))
          ],
        ),
        extract_each_fits max w (view.results o) reads,
        extract_each_forgets max w r.tool_use_id (view.results o) reads
            (ap (any (answers r.tool_use_id)) split ∙ any-middle r before after),
      )
