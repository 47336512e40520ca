-- ===== src/Uploads/Tests.antt =====
-- A file in two chunks, sent in the wrong order, and the names of files.
use claude_code_portal.Prelude.{
  ℕ, ◌≡◌, refl, String, Bool, true, List, [], ◌∷◌, Option, none, some, arith, if◌then◌else◌,
}
use text.Mathlib.Text.{◌==◌ as str_eq}
use claude_code_portal.Protocol.{FileUploadStartFields}
use claude_code_portal.SessionManager.{SessionManager, new, register_session}
use claude_code_portal.Uploads.{Receiver, sanitize_filename}
use claude_code_portal.Uploads.Filename.{IsSafe, sanitize_filename-IsSafe}
use claude_code_portal.Uploads.Forwarding.{send_file, tracked}
use claude_code_portal.Uploads.Received.{run_events, active, file}
use claude_code_portal.Uploads.Delivered.{events_of, frames, upload_reaches_file}

sanitize_filename_path : sanitize_filename "../../etc/passwd" ≡ "passwd"
unfolding sanitize_filename
sanitize_filename_path = refl

sanitize_filename_dots : sanitize_filename "a/.." ≡ "uploaded_file"
unfolding sanitize_filename
sanitize_filename_dots = refl

-- The path before a backslash is not cut off, unlike the one before a slash.
sanitize_filename_backslash : sanitize_filename "docs\\a.txt" ≡ "docsa.txt"
unfolding sanitize_filename
sanitize_filename_backslash = refl

sanitize_filename-IsSafe_example :
    IsSafe (sanitize_filename "a/..")
    × (sanitize_filename (sanitize_filename "a/..") ≡ sanitize_filename "a/..")
sanitize_filename-IsSafe_example = sanitize_filename-IsSafe "a/.."

abbrev decode : String → Option (List ℕ)
decode s =
    if str_eq s "YQ=="
    then some (97 ∷ [])
    else if str_eq s "YmM="
    then some (98 ∷ 99 ∷ [])
    else none

abbrev accepts : ℕ → Bool
accepts c = true

abbrev manager : SessionManager ℕ
unfolding new register_session
manager = (register_session new accepts 7 50 0).0

abbrev notes : FileUploadStartFields
notes = record {
  upload_id = "u1";
  filename = "/tmp/notes.txt";
  content_type = "text/plain";
  total_chunks = 2;
  total_size = 3;
}

abbrev empty : Receiver
empty = record { active_uploads = []; files = [] }

abbrev first : ℕ × (String × List ℕ)
first = (1, ("YQ==", 97 ∷ []))

abbrev second : ℕ × (String × List ℕ)
second = (0, ("YmM=", 98 ∷ 99 ∷ []))

upload_reaches_file_example :
    let (uploads', sent) = send_file accepts 7 manager [] notes (frames (first ∷ second ∷ [])) 1 in
    (r' : Receiver) × (run_events decode empty (events_of sent) ≡ some r')
    × (file decode (sanitize_filename "/tmp/notes.txt") r' ≡ 97 ∷ 98 ∷ 99 ∷ [])
    × (active decode "u1" r' ≡ none)
    × (tracked "u1" uploads' ≡ none)
unfolding new register_session
upload_reaches_file_example =
    upload_reaches_file manager accepts 7 50 decode [] notes first (second ∷ []) 1 empty refl refl
      refl (omega arith) (omega arith) (refl, (refl, tt)) refl
