-- ===== src/Uploads/Forwarding.antt =====
-- What the backend forwards of an upload.
use claude_code_portal.Prelude.{
  ℕ, suc, ◌+◌, ◌<◌, ◌≤◌, ◌≡◌, refl, ap, String, Bool, true, false, List, [], ◌∷◌, ◌++◌, map, Option,
  none, some, arith, length, leb, lt→leb_false, le→leb, lookup,
}
use claude_code_portal.Prelude.TextMap
use claude_code_portal.Prelude.TextMap.{str_eq_refl, lookup-insert, lookup-remove}
use claude_code_portal.Protocol.{
  ServerToProxy, FileUploadStartFields, FileUploadChunkFields, file_upload_start, file_upload_chunk,
}
use claude_code_portal.SessionManager.{SessionManager, Sent, to_proxy, send_to_session}
use claude_code_portal.Uploads.{
  PendingUpload, max_total_chunks, sanitize_filename, handle_file_upload_start, forward,
  handle_file_upload_chunk, count_chunk,
}

-- A chunk as a client sends it: its index and its data.
abbrev pub fields : String → ℕ × String → FileUploadChunkFields
fields id (index, chunk_data) = record {
  upload_id = id;
  chunk_index = index;
  chunk_data = chunk_data;
}

abbrev pub AllBelow : ℕ → List (ℕ × String) → Type 0
AllBelow n [] = Unit {0}
AllBelow n ((index, chunk_data) ∷ cs) = (index < n) × AllBelow n cs

abbrev pub tracked : String → List (String × PendingUpload) → Option PendingUpload
tracked = TextMap.lookup

abbrev new_upload : FileUploadStartFields → PendingUpload
new_upload f = record { total_chunks = f.total_chunks; received_count = 0 }

abbrev insert_upload :
    FileUploadStartFields → List (String × PendingUpload) → List (String × PendingUpload)
insert_upload f uploads = TextMap.insert f.upload_id (new_upload f) uploads

count_chunk_more :
    (id : String) (n r : ℕ) (uploads : List (String × PendingUpload))
    → r + 1 < n
    → tracked id (count_chunk id (record { total_chunks = n; received_count = r }) uploads)
      ≡ some (record { total_chunks = n; received_count = r + 1 })
unfolding count_chunk
count_chunk_more id n r uploads h =
    let more : leb n (r + 1) ≡ false = lt→leb_false n (r + 1) h in
    rw
      (
        more,
        lookup-insert id id (record { total_chunks = n; received_count = r + 1 }) uploads,
        str_eq_refl id,
      )
      refl

count_chunk_last :
    (id : String) (n r : ℕ) (uploads : List (String × PendingUpload))
    → r + 1 ≡ n
    → tracked id (count_chunk id (record { total_chunks = n; received_count = r }) uploads) ≡ none
unfolding count_chunk
count_chunk_last id n r uploads h =
    let last : leb n (r + 1) ≡ true = le→leb n (r + 1) (omega arith) in
    rw (last, lookup-remove id id uploads, str_eq_refl id) refl

module _ {J : Type 0} (accepts : ℕ → Bool) (key : ℕ) where
  -- The client's chunks, one after the other.
  pub send_chunks :
      SessionManager J
      → List (String × PendingUpload)
      → String
      → List (ℕ × String)
      → ℕ
      → List (String × PendingUpload) × List (Sent J)
  send_chunks m uploads id [] now = (uploads, [])
  send_chunks m uploads id (c ∷ cs) now =
      let (m', uploads', sent) =
        handle_file_upload_chunk m accepts (some key) uploads (fields id c) now in
      let rest = send_chunks m' uploads' id cs now in (rest.0, sent ++ rest.1)

  -- A client's whole upload: what is tracked afterwards, and what was forwarded.
  pub send_file :
      SessionManager J
      → List (String × PendingUpload)
      → FileUploadStartFields
      → List (ℕ × String)
      → ℕ
      → List (String × PendingUpload) × List (Sent J)
  send_file m uploads f cs now =
      let (m', uploads', sent) = handle_file_upload_start m accepts (some key) uploads f now in
      let rest = send_chunks m' uploads' f.upload_id cs now in (rest.0, sent ++ rest.1)

module _ {J : Type 0} (m : SessionManager J) (accepts : ℕ → Bool) (key sender : ℕ)
    (connected : lookup key m.sessions ≡ some sender) (alive : accepts sender ≡ true) where
  forward_alive :
      (msg : ServerToProxy J) (now : ℕ)
      → forward m accepts (some key) msg now ≡ (m, to_proxy sender msg ∷ [])
  unfolding forward send_to_session
  forward_alive msg now = rw (connected, alive)

  handle_file_upload_chunk_valid :
      (uploads : List (String × PendingUpload)) (id : String) (u : PendingUpload) (c : ℕ × String)
      (now : ℕ)
      → tracked id uploads ≡ some u
      → c.0 < u.total_chunks
      → handle_file_upload_chunk m accepts (some key) uploads (fields id c) now
        ≡ (m, count_chunk id u uploads, to_proxy sender (file_upload_chunk (fields id c)) ∷ [])
  unfolding handle_file_upload_chunk
  handle_file_upload_chunk_valid uploads id u (index, chunk_data) now t h =
      let msg : ServerToProxy J = file_upload_chunk (fields id (index, chunk_data)) in
      ground (arith, t, lt→leb_false u.total_chunks index h, forward_alive msg now)

  pub send_chunks_all :
      (uploads : List (String × PendingUpload)) (id : String) (n r : ℕ) (c : ℕ × String)
      (cs : List (ℕ × String)) (now : ℕ)
      → tracked id uploads ≡ some (record { total_chunks = n; received_count = r })
      → r + suc (length cs) ≡ n
      → AllBelow n (c ∷ cs)
      → ((send_chunks accepts key m uploads id (c ∷ cs) now).1
          ≡ map (λ d. to_proxy sender (file_upload_chunk (fields id d))) (c ∷ cs))
        × (tracked id (send_chunks accepts key m uploads id (c ∷ cs) now).0 ≡ none)
  unfolding send_chunks
  send_chunks_all uploads id n r c [] now t e h =
      rw (handle_file_upload_chunk_valid uploads id _ c now t h.0)
        (refl, count_chunk_last id n r uploads (omega arith))
  send_chunks_all uploads id n r c (d ∷ cs) now t e h =
      let rest =
        send_chunks_all (count_chunk id (record { total_chunks = n; received_count = r }) uploads)
          id n (r + 1) d cs now (count_chunk_more id n r uploads (omega arith)) (omega arith) h.1 in
      rw (handle_file_upload_chunk_valid uploads id _ c now t h.0)
        (ap (◌∷◌ (to_proxy sender (file_upload_chunk (fields id c)))) rest.0, rest.1)

  abbrev pub upload_start : FileUploadStartFields → ServerToProxy J
  upload_start f = file_upload_start (record f { filename = sanitize_filename f.filename })

  handle_file_upload_start_valid :
      (uploads : List (String × PendingUpload)) (f : FileUploadStartFields) (now : ℕ)
      → 0 < f.total_chunks
      → f.total_chunks ≤ max_total_chunks
      → handle_file_upload_start m accepts (some key) uploads f now
        ≡ (m, insert_upload f uploads, to_proxy sender (upload_start f) ∷ [])
  unfolding handle_file_upload_start
  handle_file_upload_start_valid uploads f now pos bound =
      ground (arith, forward_alive (upload_start f) now)

  -- The messages for the proxy of a whole upload.
  abbrev pub upload_messages : FileUploadStartFields → List (ℕ × String) → List (Sent J)
  upload_messages f cs =
      to_proxy sender (upload_start f)
      ∷ map (λ c. to_proxy sender (file_upload_chunk (fields f.upload_id c))) cs

  pub send_file_all :
      (uploads : List (String × PendingUpload)) (f : FileUploadStartFields) (c : ℕ × String)
      (cs : List (ℕ × String)) (now : ℕ)
      → f.total_chunks ≡ suc (length cs)
      → f.total_chunks ≤ max_total_chunks
      → AllBelow f.total_chunks (c ∷ cs)
      → ((send_file accepts key m uploads f (c ∷ cs) now).1 ≡ upload_messages f (c ∷ cs))
        × (tracked f.upload_id (send_file accepts key m uploads f (c ∷ cs) now).0 ≡ none)
  unfolding send_file
  send_file_all uploads f c cs now e bound h =
      let tracked' = insert_upload f uploads in
      let chunks =
        send_chunks_all tracked' f.upload_id f.total_chunks 0 c cs now
          (rw
            (lookup-insert f.upload_id f.upload_id (new_upload f) uploads, str_eq_refl f.upload_id)
            refl)
          (omega arith) h in
      rw (handle_file_upload_start_valid uploads f now (omega arith) bound)
        (ap (◌∷◌ (to_proxy sender (upload_start f))) chunks.0, chunks.1)
