-- ===== src/Uploads/Delivered.antt =====
-- A file's way from the client over the backend to the proxy's working directory.
use claude_code_portal.Prelude.{
  ℕ, suc, ◌≤◌, ◌≡◌, refl, sym, ap, ◌∙◌, String, Bool, true, List, [], ◌∷◌, ◌++◌, map, Option, none,
  some, arith, length, lookup, length-map,
}
use claude_code_portal.Prelude.TextMap.{str_eq_refl, lookup-insert}
use claude_code_portal.Protocol.{FileUploadStartFields, file_upload_chunk}
use claude_code_portal.SessionManager.{SessionManager, Sent, to_proxy, to_client, to_launcher}
use claude_code_portal.Uploads.{
  PendingUpload, FileReceiveState, Receiver, FileUploadEvent, start, chunk, max_total_chunks,
  sanitize_filename, handle_file_upload, write_upload, has_short_id, upload_event,
}
use claude_code_portal.Uploads.Filename.{sanitize_filename-IsSafe}
use claude_code_portal.Uploads.Forwarding.{AllBelow, tracked, fields, send_file, send_file_all}
use claude_code_portal.Uploads.Received.{
  run_events, Decodes, content, chunks, active, file, run_events-chunks,
}

abbrev with_event : Option FileUploadEvent → List FileUploadEvent → List FileUploadEvent
with_event none es = es
with_event (some e) es = e ∷ es

-- A chunk's index, its text, and the bytes that the text stands for.
abbrev pub frames : List (ℕ × (String × List ℕ)) → List (ℕ × String)
frames cs = map (λ c. (c.0, c.1.0)) cs

abbrev pub texts : List (ℕ × (String × List ℕ)) → List (String × List ℕ)
texts cs = map (λ c. c.1) cs

length-frames : (cs : List (ℕ × (String × List ℕ))) → length (frames cs) ≡ length cs
length-frames cs = length-map {B = ℕ × String} (λ c. (c.0, c.1.0)) cs

length-texts : (cs : List (ℕ × (String × List ℕ))) → length (texts cs) ≡ length cs
length-texts cs = length-map {B = String × List ℕ} (λ c. c.1) cs

module _ {J : Type 0} where
  -- What the reader of the proxy's socket makes of the messages that were sent.
  unfoldable pub events_of : List (Sent J) → List FileUploadEvent
  unfolding upload_event
  events_of [] = []
  events_of (to_proxy c msg ∷ sent) = with_event (upload_event msg) (events_of sent)
  events_of (to_client c msg ∷ sent) = events_of sent
  events_of (to_launcher c msg ∷ sent) = events_of sent

events_of-chunks :
    (J : Type 0) (sender : ℕ) (id : String) (cs : List (ℕ × (String × List ℕ)))
    → events_of {J = J} (map (λ c. to_proxy sender (file_upload_chunk (fields id c))) (frames cs))
      ≡ map (λ d. chunk id d.0) (texts cs)
unfolding events_of upload_event
events_of-chunks J sender id [] = refl
events_of-chunks J sender id (c ∷ cs) = ap (◌∷◌ (chunk id c.1.0)) (events_of-chunks J sender id cs)

-- A client uploads a file to a session whose proxy is connected: it announces as many chunks as it
-- sends, at least one and 51200 at most, numbers them below that, in any order, and each decodes. If
-- the upload's id can be cut at eight bytes and every write succeeds, the proxy does not panic, and the proxy's file under the cleaned name holds the chunks' bytes in the order in
-- which they were sent, and neither the backend nor the proxy keeps the upload.
pub upload_reaches_file :
    {J : Type 0} (m : SessionManager J) (accepts : ℕ → Bool) (key sender : ℕ)
    (decode : String → Option (List ℕ)) (uploads : List (String × PendingUpload))
    (f : FileUploadStartFields) (c : ℕ × (String × List ℕ)) (cs : List (ℕ × (String × List ℕ)))
    (now : ℕ) (r : Receiver)
    → lookup key m.sessions ≡ some sender
    → accepts sender ≡ true
    → f.total_chunks ≡ suc (length cs)
    → f.total_chunks ≤ max_total_chunks
    → AllBelow f.total_chunks (frames (c ∷ cs))
    → Decodes decode (texts (c ∷ cs))
    → has_short_id f.upload_id ≡ true
    → let name = sanitize_filename f.filename in
      let (uploads', sent) = send_file accepts key m uploads f (frames (c ∷ cs)) now in
      (r' : Receiver) × (run_events decode r (events_of sent) ≡ some r')
      × (file decode name r' ≡ content decode (texts (c ∷ cs)))
      × (active decode f.upload_id r' ≡ none)
      × (tracked f.upload_id uploads' ≡ none)
unfolding events_of upload_event handle_file_upload write_upload run_events
upload_reaches_file {J} m accepts key sender decode uploads f c cs now r connected alive e bound h d
      short =
    let name = sanitize_filename f.filename in
    let sent =
      send_file_all m accepts key sender connected alive uploads f (c.0, c.1.0) (frames cs) now
        (omega (arith, e, length-frames cs)) bound h in
    let r0 = write_upload decode true r (start f.upload_id name f.total_chunks f.total_size) in
    let state : FileReceiveState = record {
      filename = sanitize_filename name;
      total_chunks = f.total_chunks;
      received_chunks = 0;
      received_bytes = 0;
    } in
    let again : file decode (sanitize_filename name) r0 ≡ [] =
      rw
        (
          lookup-insert (sanitize_filename name) (sanitize_filename name) [] r.files,
          str_eq_refl (sanitize_filename name),
        )
        refl in
    let run =
      run_events-chunks decode r0 f.upload_id state c.1 (texts cs)
        (rw (lookup-insert f.upload_id f.upload_id state r.active_uploads, str_eq_refl f.upload_id)
          refl)
        (ap length (sym again)) (omega (arith, e, length-texts cs)) d short in
    let events : events_of (send_file accepts key m uploads f (frames (c ∷ cs)) now).1
        ≡ start f.upload_id name f.total_chunks f.total_size
          ∷ chunks decode f.upload_id (texts (c ∷ cs)) =
      ap events_of sent.0
      ∙ ap
          (λ es.
            start f.upload_id name f.total_chunks f.total_size ∷ (chunk f.upload_id c.1.0 ∷ es))
          (events_of-chunks J sender f.upload_id cs) in
    let ends : run_events decode r
          (events_of (send_file accepts key m uploads f (frames (c ∷ cs)) now).1)
        ≡ run_events decode r0 (chunks decode f.upload_id (texts (c ∷ cs))) =
      ap (run_events decode r) events in
    (
      run.0,
      ends ∙ run.1,
      ap (λ n. file decode n run.0) (sym (sanitize_filename-IsSafe f.filename).1)
          ∙ run.2
          ∙ ap (λ l. l ++ content decode (texts (c ∷ cs))) again,
      run.3,
      sent.1,
    )
