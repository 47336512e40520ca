-- ===== src/Uploads.antt =====
-- The upload of a file in chunks: backend/src/handlers/websocket/web_client_socket.rs checks and forwards
-- it, and claude-session-lib/src/proxy_session/mod.rs, `handle_file_upload`, writes it to disk. A chunk's
-- base64 is decoded by the parameter `decode`. The files that the proxy has created are a map from names
-- in the working directory to bytes; whether a file can be created, and whether a write is done whole or
-- not at all, is an argument. Progress in the log is left out.
pub mod Filename
pub mod Forwarding
pub mod Received
pub mod Delivered
mod Tests
use Prim.Native.Char.{code}
use claude_code_portal.Prelude.{
  ℕ, zero, suc, ◌+◌, ◌*◌, String, Bool, true, false, not, ◌||◌, List, [], ◌∷◌, ◌++◌, Option, none,
  some, ltb, leb, ◌==◌, if◌then◌else◌, length, drop, min,
}
use claude_code_portal.Prelude.TextMap.{lookup, insert, remove}
use text.Mathlib.Text.{◌==◌ as str_eq, is_char_boundary}
use Prim.Native.String.{len}
use claude_code_portal.Protocol.{
  ServerToProxy, FileUploadStartFields, FileUploadChunkFields, file_upload_start, file_upload_chunk,
}
use claude_code_portal.SessionManager.{SessionManager, Sent, send_to_session}

-- MAX_TOTAL_CHUNKS.
abbrev pub max_total_chunks : ℕ
max_total_chunks = 51200

pub record PendingUpload : Type 0 where
  pub total_chunks : ℕ
  pub received_count : ℕ

has_slash : String → Bool
has_slash String.[] = false
has_slash (String.◌∷◌ c s) = code c == b'/' || has_slash s

-- `rsplit('/').next()`, which is always there, so that the split at backslashes is never made.
base_name : String → String
unfolding has_slash
base_name String.[] = String.[]
base_name (String.◌∷◌ c s) =
    if has_slash s then base_name s else if code c == b'/' then s else String.◌∷◌ c s

-- '/', '\\' and '\0'.
abbrev pub is_separator : ℕ → Bool
is_separator c = c == b'/' || (c == 92 || c == 0)

keep_clean : String → String
keep_clean String.[] = String.[]
keep_clean (String.◌∷◌ c s) =
    if is_separator (code c) then keep_clean s else String.◌∷◌ c (keep_clean s)

unfoldable pub sanitize_filename : String → String
unfolding base_name keep_clean
sanitize_filename name =
    let clean = keep_clean (base_name name) in
    if str_eq clean "" || (str_eq clean "." || str_eq clean "..") then "uploaded_file" else clean

-- The upload with one chunk more, which is forgotten when it has all.
unfoldable pub count_chunk :
    String → PendingUpload → List (String × PendingUpload) → List (String × PendingUpload)
count_chunk id upload uploads =
    if leb upload.total_chunks (upload.received_count + 1)
    then remove id uploads
    else insert id (record upload { received_count = upload.received_count + 1 }) uploads

module _ {J : Type 0} where
  -- A message for the session of a client that has one.
  unfoldable pub forward :
      SessionManager J
      → (ℕ → Bool)
      → Option ℕ
      → ServerToProxy J
      → ℕ
      → SessionManager J × List (Sent J)
  forward m accepts none msg now = (m, [])
  forward m accepts (some key) msg now =
      let (m', sent, done) = send_to_session m accepts key msg now in (m', sent)

  unfoldable pub handle_file_upload_start :
      SessionManager J
      → (ℕ → Bool)
      → Option ℕ
      → List (String × PendingUpload)
      → FileUploadStartFields
      → ℕ
      → SessionManager J × List (String × PendingUpload) × List (Sent J)
  unfolding forward
  handle_file_upload_start m accepts key uploads f now =
      if f.total_chunks == 0 || ltb max_total_chunks f.total_chunks
      then (m, uploads, [])
      else (let (m', sent) =
            forward m accepts key
              (file_upload_start (record f { filename = sanitize_filename f.filename })) now in
          (
            m',
            insert f.upload_id (record { total_chunks = f.total_chunks; received_count = 0 })
                uploads,
            sent,
          ))

  unfoldable pub handle_file_upload_chunk :
      SessionManager J
      → (ℕ → Bool)
      → Option ℕ
      → List (String × PendingUpload)
      → FileUploadChunkFields
      → ℕ
      → SessionManager J × List (String × PendingUpload) × List (Sent J)
  unfolding forward count_chunk
  handle_file_upload_chunk m accepts key uploads f now = elim (lookup f.upload_id uploads) [
    | none ↦ (m, uploads, [])
    | some upload ↦
        if leb upload.total_chunks f.chunk_index
        then (m, uploads, [])
        else (let (m', sent) = forward m accepts key (file_upload_chunk f) now in
            (m', count_chunk f.upload_id upload uploads, sent))
  ]

-- What the reader of a proxy's socket hands to the main loop.
pub data FileUploadEvent : Type 0 where
  start : (upload_id filename : String) (total_chunks total_size : ℕ) → FileUploadEvent
  chunk : (upload_id chunk_data : String) → FileUploadEvent

-- The fields that decide when an upload is complete, and the file that it is written to.
pub record FileReceiveState : Type 0 where
  pub filename : String
  pub total_chunks : ℕ
  pub received_chunks : ℕ
  pub received_bytes : ℕ

-- `files` has the bytes of each file in the working directory.
pub record Receiver : Type 0 where
  pub active_uploads : List (String × FileReceiveState)
  pub files : List (String × List ℕ)

abbrev pub bytes_of : Option (List ℕ) → List ℕ
bytes_of none = []
bytes_of (some bytes) = bytes

-- `write_all` by a handle that has written `offset` bytes; a gap is filled with zeros.
unfoldable pub write_at : ℕ → List ℕ → List ℕ → List ℕ
write_at zero bytes old = bytes ++ drop (length bytes) old
write_at (suc offset) bytes [] = 0 ∷ write_at offset bytes []
write_at (suc offset) bytes (b ∷ old) = b ∷ write_at offset bytes old

unfoldable pub received : FileReceiveState → List ℕ → FileReceiveState
received s bytes = record s {
  received_chunks = s.received_chunks + 1;
  received_bytes = s.received_bytes + length bytes;
}

-- `&upload_id[..8.min(upload_id.len())]` is a slice: it panics where no character begins or ends there.
abbrev pub has_short_id : String → Bool
has_short_id upload_id = is_char_boundary upload_id (min 8 (len upload_id))

-- `works`: the file can be created, or the bytes can be written.
unfoldable pub write_upload :
    (String → Option (List ℕ)) → Bool → Receiver → FileUploadEvent → Receiver
unfolding received write_at
write_upload decode works r (start id filename total_chunks total_size) =
    if works
    then record {
      active_uploads =
          insert id
            (record {
              filename = sanitize_filename filename;
              total_chunks = total_chunks;
              received_chunks = 0;
              received_bytes = 0;
            })
            r.active_uploads;
      files = insert (sanitize_filename filename) [] r.files;
    }
    else r
write_upload decode works r (chunk id chunk_data) = elim (lookup id r.active_uploads) [
  | none ↦ r
  | some s ↦ elim (decode chunk_data) [
    | none ↦ r
    | some bytes ↦ if not works then r else record {
      active_uploads =
          if leb s.total_chunks (s.received_chunks + 1)
          then remove id r.active_uploads
          else insert id (received s bytes) r.active_uploads;
      files =
          insert s.filename (write_at s.received_bytes bytes (bytes_of (lookup s.filename r.files)))
            r.files;
    }
  ]
]

-- `none` is the panic of the slice, which stands before the look-up of a chunk's upload.
unfoldable pub handle_file_upload :
    (String → Option (List ℕ)) → Bool → Receiver → FileUploadEvent → Option Receiver
unfolding write_upload
handle_file_upload decode works r (start id filename total_chunks total_size) =
    some (write_upload decode works r (start id filename total_chunks total_size))
handle_file_upload decode works r (chunk id chunk_data) =
    if has_short_id id then some (write_upload decode works r (chunk id chunk_data)) else none

module _ {J : Type 0} where
  -- The branches of `handle_ws_message` for uploads.
  unfoldable pub upload_event : ServerToProxy J → Option FileUploadEvent
  upload_event (file_upload_start f) =
      some (start f.upload_id f.filename f.total_chunks f.total_size)
  upload_event (file_upload_chunk f) = some (chunk f.upload_id f.chunk_data)
  upload_event _ = none
