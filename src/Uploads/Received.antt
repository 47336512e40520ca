-- ===== src/Uploads/Received.antt =====
-- What a proxy writes of an upload.
use claude_code_portal.Prelude.{
  ℕ, suc, ◌+◌, ◌≡◌, refl, sym, ap, ◌∙◌, String, true, false, List, [], ◌∷◌, ◌++◌, map, Option, none,
  some, arith, length, leb, lt→leb_false, le→leb, if◌then◌else◌, length-append, drop_all,
}
use mathlib.Core.List.{append-nil, append_assoc}
use claude_code_portal.Prelude.TextMap
use claude_code_portal.Prelude.TextMap.{str_eq_refl, lookup-insert, lookup-remove}
use claude_code_portal.Uploads.{
  FileReceiveState, Receiver, FileUploadEvent, chunk, write_at, bytes_of, received,
  handle_file_upload, write_upload, has_short_id,
}

write_at-append : (old bytes : List ℕ) → write_at (length old) bytes old ≡ old ++ bytes
unfolding write_at
write_at-append [] bytes = rw (drop_all {A = ℕ} (length bytes) [] (omega arith)) (append-nil bytes)
write_at-append (b ∷ old) bytes = ap (◌∷◌ b) (write_at-append old bytes)

module _ (decode : String → Option (List ℕ)) where
  -- The events of an upload, where every write succeeds; a panic ends the run.
  unfoldable pub run_events : Receiver → List FileUploadEvent → Option Receiver
  run_events r [] = some r
  run_events r (e ∷ es) = elim (handle_file_upload decode true r e) [
    | none ↦ none
    | some r' ↦ run_events r' es
  ]

  -- The data of chunks, each with what it decodes to.
  abbrev pub Decodes : List (String × List ℕ) → Type 0
  Decodes [] = Unit {0}
  Decodes ((text, bytes) ∷ ds) = (decode text ≡ some bytes) × Decodes ds

  abbrev pub content : List (String × List ℕ) → List ℕ
  content [] = []
  content ((text, bytes) ∷ ds) = bytes ++ content ds

  abbrev pub chunks : String → List (String × List ℕ) → List FileUploadEvent
  chunks id ds = map (λ d. chunk id d.0) ds

  abbrev pub active : String → Receiver → Option FileReceiveState
  active id r = TextMap.lookup id r.active_uploads

  abbrev pub file : String → Receiver → List ℕ
  file name r = bytes_of (TextMap.lookup name r.files)

  -- One chunk: the file grows by its bytes, and the upload ends with the last.
  write_upload_chunk_lem :
      (r : Receiver) (id text : String) (s : FileReceiveState) (bytes : List ℕ)
      → active id r ≡ some s
      → s.received_bytes ≡ length (file s.filename r)
      → decode text ≡ some bytes
      → let r' = write_upload decode true r (chunk id text) in
        (file s.filename r' ≡ file s.filename r ++ bytes)
        × (active id r' ≡ (
            if leb s.total_chunks (s.received_chunks + 1) then none else some (received s bytes)))
  unfolding write_upload
  write_upload_chunk_lem r id text s bytes a e d =
      let old : List ℕ = file s.filename r in
      let written : List ℕ = write_at s.received_bytes bytes old in
      let w : written ≡ old ++ bytes =
        ap (λ n. write_at n bytes old) e ∙ write_at-append old bytes in
      ground (
        arith,
        a,
        d,
        w,
        lookup-insert s.filename s.filename written r.files,
        str_eq_refl s.filename,
        lookup-remove id id r.active_uploads,
        lookup-insert id id (received s bytes) r.active_uploads,
        str_eq_refl id,
      )

  pub run_events-chunks :
      (r : Receiver) (id : String) (s : FileReceiveState) (d : String × List ℕ)
      (ds : List (String × List ℕ))
      → active id r ≡ some s
      → s.received_bytes ≡ length (file s.filename r)
      → s.received_chunks + suc (length ds) ≡ s.total_chunks
      → Decodes (d ∷ ds)
      → has_short_id id ≡ true
      → (r' : Receiver) × (run_events r (chunks id (d ∷ ds)) ≡ some r')
        × (file s.filename r' ≡ file s.filename r ++ content (d ∷ ds))
        × (active id r' ≡ none)
  unfolding run_events received handle_file_upload
  run_events-chunks r id s d [] a e t h short =
      let one = write_upload_chunk_lem r id d.0 s d.1 a e h.0 in
      let last : leb s.total_chunks (s.received_chunks + 1) ≡ true = le→leb _ _ (omega arith) in
      (
        write_upload decode true r (chunk id d.0),
        rw (short, run_events) refl,
        one.0 ∙ ap (◌++◌ (file s.filename r)) (sym (append-nil d.1)),
        one.1 ∙ ap (λ b. if b then none else some (received s d.1)) last,
      )
  run_events-chunks r id s d (d' ∷ ds) a e t h short =
      let r1 = write_upload decode true r (chunk id d.0) in
      let one = write_upload_chunk_lem r id d.0 s d.1 a e h.0 in
      let more : leb s.total_chunks (s.received_chunks + 1) ≡ false =
        lt→leb_false _ _ (omega arith) in
      let a1 : active id r1 ≡ some (received s d.1) =
        one.1 ∙ ap (λ b. if b then none else some (received s d.1)) more in
      let e1 : s.received_bytes + length d.1 ≡ length (file s.filename r1) =
        omega (arith, e, ap length one.0, length-append (file s.filename r) d.1) in
      let rest = run_events-chunks r1 id (received s d.1) d' ds a1 e1 (omega arith) h.1 short in
      (
        rest.0,
        rw (short, run_events) rest.1,
        rest.2
            ∙ ap (λ l. l ++ content (d' ∷ ds)) one.0
            ∙ append_assoc (file s.filename r) d.1 (content (d' ∷ ds)),
        rest.3,
      )
