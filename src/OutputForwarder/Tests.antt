-- ===== src/OutputForwarder/Tests.antt =====
-- An output that shows an image, and one that another task overtakes.
use claude_code_portal.Prelude.{
  ℕ, ◌≡◌, ◌≤◌, ◌<◌, ◌⊎◌, refl, String, true, false, List, [], ◌∷◌, none, some, arith, any, ◌==◌,
  if◌then◌else◌,
}
use claude_code_portal.Prelude.TextMap.{lookup}
use claude_code_portal.Protocol.{PortalMessage, portal_image, portal_text}
use mathlib.Core.Option.{none-ne-some}
use claude_code_portal.SessionManager.{new}
use claude_code_portal.OutputBuffer.{PendingOutputBuffer, push, acknowledge}
use claude_code_portal.MessageHandlers.{Content, Backend}
use claude_code_portal.Delivery.{replay}
use claude_code_portal.BranchUpdate.{get_git_branch}
use claude_code_portal.OutputForwarder.{
  View, World, ToolResult, extract_each, pushes, acknowledges, Forwarder, image_mime_type,
  is_git_bash_command, extract_image_portal_messages, run_forwarder,
}
use claude_code_portal.OutputForwarder.Numbering.{sequenced, count, contents, run_forwarder_numbers}
use claude_code_portal.OutputForwarder.Images.{messages_fit, extract_image_portal_messages_fit}
use claude_code_portal.OutputForwarder.Overtaking.{
  Steps, numbered_output, fresh_connection, both_pushed, overtaken_output_lost,
}

-- Outputs are texts: "read" reads an image, "result" is the result of that.
abbrev view : View String String
view = record {
  to_value = λ o. o;
  results = λ o.
      if claude_code_portal.OutputForwarder.contains o "result"
      then record { tool_use_id = "t1"; is_error = none; content = some "git commit" } ∷ []
      else [];
  reads = λ o.
      if claude_code_portal.OutputForwarder.contains o "read" then ("t1", "/w/a.png") ∷ [] else [];
  bash_command = λ o. none;
  to_lowercase = λ s. s;
  encode = λ bytes. "b64";
  megabytes = λ n. "0.0";
  whole_megabytes = λ n. "0";
  portal_json = λ m. "portal";
}

abbrev world : World String
world = record {
  between = pushes "raw" ∷ acknowledges 4 ∷ [];
  portal_between = λ i. [];
  git = record { head = some "main\n"; short_hash = none; repo_view = none; pr_view = λ b. none };
  read_file = λ path. some (1 ∷ 2 ∷ 3 ∷ []);
  sends = true;
  portal_sends = λ i. true;
}

abbrev forwarder : Forwarder
forwarder = record {
  message_count = 0;
  pending_git_check = false;
  image_read_map = [];
  known = record { current_branch = none; current_pr_url = none; current_repo_url = none };
}

abbrev buffer : PendingOutputBuffer String
buffer = record {
  session_id = 3;
  persist_path = 0;
  state = record { session_id = 3; next_seq = 5; last_ack_seq = 4; pending = [] };
  dirty = false;
}

branch_trimmed : get_git_branch world.git ≡ some "main"
unfolding get_git_branch claude_code_portal.Prelude.Rendering.trim_end
    claude_code_portal.Prelude.Rendering.trim_start
branch_trimmed = refl

git_result : is_git_bash_command view "result" ≡ true
unfolding is_git_bash_command
git_result = refl

jpeg : image_mime_type (λ s. s) "photo.jpeg" ≡ some "image/jpeg"
unfolding image_mime_type
jpeg = refl

image_after_result :
    contents String view 100 [] ((world, "read") ∷ (world, "result") ∷ [])
    ≡ (world.between, "read") ∷ (world.between, "result") ∷ ([], "portal") ∷ []
unfolding contents extract_image_portal_messages
    claude_code_portal.OutputForwarder.track_image_reads image_mime_type
image_after_result = refl

run_forwarder_numbers_example :
    sequenced
      (run_forwarder view {P = String} 3 100 forwarder buffer
        ((world, "read") ∷ (world, "result") ∷ [])).2
    ≡ count 5 (contents String view 100 [] ((world, "read") ∷ (world, "result") ∷ []))
run_forwarder_numbers_example =
    run_forwarder_numbers String view 3 100 forwarder buffer
      ((world, "read") ∷ (world, "result") ∷ []) (refl, ((λ j. refl), (refl, ((λ j. refl), tt))))

abbrev read_result : ToolResult
read_result = record { tool_use_id = "t1"; is_error = none; content = some "git commit" }

extract_image_portal_messages_fit_example :
    let reads : List (String × String) = ("t1", "/w/a.png") ∷ [] in
    let out = extract_image_portal_messages view 100 world "result" reads in
    ((message : PortalMessage) × (out.1 ≡ message ∷ [])
      × (((3 ≤ 100) × (message ≡ portal_image "image/png" "b64" (some "/w/a.png") (some 3)))
          ⊎ ((100 < 3) × ((t : String) × (message ≡ portal_text t)))))
    × (messages_fit 100 out.1 ≡ true)
    × (lookup "t1" out.0 ≡ none)
unfolding extract_each image_mime_type
extract_image_portal_messages_fit_example =
    extract_image_portal_messages_fit view 100 world "result" (("t1", "/w/a.png") ∷ []) []
      read_result [] "/w/a.png" (1 ∷ 2 ∷ 3 ∷ []) refl refl refl (λ e. absurd (none-ne-some true e))
      refl

abbrev texts : Content String ℕ
texts = record {
  type_of = λ j. none;
  to_string = λ j. j;
  result_message = λ j. none;
  cost = λ j. none;
  input_tokens = λ j. none;
  output_tokens = λ j. none;
  cache_creation_tokens = λ j. none;
  cache_read_tokens = λ j. none;
  from_str = λ s. none;
}

abbrev backend : Backend String ℕ
unfolding new
backend = record {
  manager = record new { last_ack_seq = (3, 4) ∷ [] };
  db = record { sessions = []; messages = [] };
}

overtaken_output_lost_example :
    Steps
      (fresh_connection buffer)
      (record (fresh_connection (both_pushed buffer "first" "second")) {
        socket =
            numbered_output (push buffer "first").0 "second" ∷ numbered_output buffer "first" ∷ [];
      })
    × ((replay texts
            (λ c. true)
            1
            3
            50
            none
            backend
            (numbered_output (push buffer "first").0 "second" ∷ numbered_output buffer "first" ∷ [])
          ≡ replay texts
              (λ c. true)
              1
              3
              50
              none
              backend
              (numbered_output (push buffer "first").0 "second" ∷ []))
        × (any
              (λ p. p.seq == (numbered_output buffer "first").seq)
              (acknowledge
                (both_pushed buffer "first" "second")
                (numbered_output (push buffer "first").0 "second").seq).state.pending
            ≡ false))
overtaken_output_lost_example =
    overtaken_output_lost texts (λ c. true) 1 3 50 none backend buffer "first" "second"
      (ground arith) (ground arith)
