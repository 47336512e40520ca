-- ===== src/OutputForwarder.antt =====
-- claude-session-lib/src/proxy_session/output_forwarder.rs: the task that numbers the outputs of the agent
-- and sends them to the backend, with the images that the agent has read; the checks of the git branch are those of BranchUpdate.
-- What is read of an output through claude_codes, `str::to_lowercase`, base64 and the values of JSON are
-- the fields of `View`; what git, gh and the file system answer, and which sends succeed, is a `World`.
-- Logging is left out.
pub mod Numbering
pub mod Images
pub mod Overtaking
mod Tests
use Prim.Native.String.{len, slice, ◌++◌ as ◌<>◌}
use claude_code_portal.Prelude.{
  ℕ, zero, suc, ◌+◌, ◌-◌, ◌*◌, ◌%◌, String, Bool, true, false, not, ◌&&◌, ◌||◌, List, [], ◌∷◌, ◌++◌,
  Option, none, some, ltb, leb, ◌==◌, if◌then◌else◌, length, any,
}
use claude_code_portal.Prelude.TextMap.{lookup, insert, remove}
use text.Mathlib.Text.{◌==◌ as str_eq, starts_with, find?}
use claude_code_portal.Protocol.{PortalMessage, portal_text, portal_image}
use claude_code_portal.Protocol.Proxy.{ProxyToServer, sequenced_output, session_update}
use claude_code_portal.BranchUpdate.{GitAnswers, Known, check_and_send_branch_update}
use claude_code_portal.SessionManager.Connections.{is_some}
use claude_code_portal.OutputBuffer.{PendingOutputBuffer, push, acknowledge, u64_mod}

-- A result of a tool in a user message; `content` is its debug text.
pub record ToolResult : Type 0 where
  pub tool_use_id : String
  pub is_error : Option Bool
  pub content : Option String

-- `results` has the tool results of a user message, `reads` the ids and paths of the calls of Read in an
-- assistant message, and `bash_command` the command of a call of Bash. `megabytes` prints a number of
-- bytes in megabytes with one decimal, and `whole_megabytes` with none.
pub record View (O J : Type 0) : Type 0 where
  pub to_value : O → J
  pub results : O → List ToolResult
  pub reads : O → List (String × String)
  pub bash_command : O → Option String
  pub to_lowercase : String → String
  pub encode : List ℕ → String
  pub megabytes : ℕ → String
  pub whole_megabytes : ℕ → String
  pub portal_json : PortalMessage → J

-- What the other tasks that share the buffer do to it.
pub data BufferOp (J : Type 0) : Type 0 where
  pushes : J → BufferOp J
  acknowledges : ℕ → BufferOp J

-- `portal_sends` says whether the portal message of that index is sent; `between` and `portal_between` are
-- what other tasks do to the buffer before the output, or that message, takes its lock.
pub record World (J : Type 0) : Type 0 where
  pub between : List (BufferOp J)
  pub portal_between : ℕ → List (BufferOp J)
  pub git : GitAnswers
  pub read_file : String → Option (List ℕ)
  pub sends : Bool
  pub portal_sends : ℕ → Bool

pub record Forwarder : Type 0 where
  pub message_count : ℕ
  pub pending_git_check : Bool
  pub image_read_map : List (String × String)
  pub known : Known

abbrev pub contains : String → String → Bool
contains s t = is_some (find? s t)

ends_with : String → String → Bool
ends_with s t = leb (len t) (len s) && str_eq (slice s (len s - len t) (len s)) t

mentions_git : ToolResult → Bool
mentions_git r = elim r.content [
  | none ↦ false
  | some s ↦
      any (contains s) ("git " ∷ "gh " ∷ "branch" ∷ "checkout" ∷ "merge" ∷ "rebase" ∷ "commit" ∷ [])
]

unfoldable pub image_mime_type : (String → String) → String → Option String
unfolding ends_with
image_mime_type to_lowercase path =
    let lower = to_lowercase path in
    if ends_with lower ".svg"
    then some "image/svg+xml"
    else if ends_with lower ".png"
    then some "image/png"
    else if ends_with lower ".jpg" || ends_with lower ".jpeg"
    then some "image/jpeg"
    else if ends_with lower ".gif"
    then some "image/gif"
    else if ends_with lower ".webp"
    then some "image/webp"
    else none

module _ {O J : Type 0} (view : View O J) where
  unfoldable pub is_git_bash_command : O → Bool
  unfolding mentions_git
  is_git_bash_command o = any mentions_git (view.results o) || elim (view.bash_command o) [
    | none ↦ false
    | some command ↦ contains command "git " || contains command "gh "
  ]

  track_each : List (String × String) → List (String × String) → List (String × String)
  track_each [] map = map
  track_each ((id, path) ∷ reads) map =
      track_each reads
        (if is_some (image_mime_type view.to_lowercase path) then insert id path map else map)

  unfoldable pub track_image_reads : O → List (String × String) → List (String × String)
  unfolding track_each
  track_image_reads o map = track_each (view.reads o) map

  abbrev pub or_png : Option String → String
  or_png none = "image/png"
  or_png (some mime) = mime

  -- The message for a file with these bytes.
  unfoldable pub image_message : ℕ → String → List ℕ → PortalMessage
  image_message max_image_bytes path bytes =
      if ltb max_image_bytes (length bytes)
      then portal_text (
          "Image too large to display: **"
          <> (view.megabytes (length bytes)
              <> (" MB** (limit is " <> (view.whole_megabytes max_image_bytes <> " MB)"))))
      else portal_image (or_png (image_mime_type view.to_lowercase path)) (view.encode bytes)
          (some path) (some (length bytes))

  -- A tracked read is forgotten whatever its result; an error or an unreadable file shows nothing.
  unfoldable pub extract_each :
      ℕ
      → World J
      → List ToolResult
      → List (String × String)
      → List (String × String) × List PortalMessage
  unfolding image_message
  extract_each max w [] map = (map, [])
  extract_each max w (r ∷ results) map =
      let (map', rest) = extract_each max w results (remove r.tool_use_id map) in
      elim (lookup r.tool_use_id map) [
        | none ↦ extract_each max w results map
        | some path ↦ elim r.is_error [
          | some true ↦ (map', rest)
          | _ ↦ elim (w.read_file path) [
            | none ↦ (map', rest)
            | some bytes ↦ (map', image_message max path bytes ∷ rest)
          ]
        ]
      ]

  unfoldable pub extract_image_portal_messages :
      ℕ → World J → O → List (String × String) → List (String × String) × List PortalMessage
  unfolding extract_each
  extract_image_portal_messages max w o map = extract_each max w (view.results o) map

  unfoldable pub others : PendingOutputBuffer J → List (BufferOp J) → PendingOutputBuffer J
  others buffer [] = buffer
  others buffer (pushes content ∷ ops) = others (push buffer content).0 ops
  others buffer (acknowledges ack_seq ∷ ops) = others (acknowledge buffer ack_seq) ops

  module _ {P : Type 0} where
    -- The portal messages after an output; the first that is not sent ends the loop over them.
    unfoldable pub send_portals :
        World J
        → ℕ
        → PendingOutputBuffer J
        → List PortalMessage
        → PendingOutputBuffer J × List (ProxyToServer J P)
    unfolding others
    send_portals w i buffer [] = (buffer, [])
    send_portals w i buffer (m ∷ messages) =
        let content = view.portal_json m in
        let (buffer', seq) = push (others buffer (w.portal_between i)) content in
        let (buffer'', sent) = send_portals w (i + 1) buffer' messages in
        if w.portal_sends i then (buffer'', sequenced_output seq content ∷ sent) else (buffer', [])

    -- One round of the loop: what is sent, and whether the task goes on.
    unfoldable pub forward_output :
        ℕ
        → ℕ
        → World J
        → Forwarder
        → PendingOutputBuffer J
        → O
        → Forwarder × PendingOutputBuffer J × List (ProxyToServer J P) × Bool
    unfolding check_and_send_branch_update is_git_bash_command track_image_reads
        extract_image_portal_messages send_portals others
    forward_output session_id max w f buffer o =
        let count = (f.message_count + 1) % u64_mod in
        let (known, updates) =
          if f.pending_git_check || (count % 100 == 0)
          then check_and_send_branch_update {P = P} {J = J} session_id f.known w.git
          else (f.known, []) in
        let (map, messages) =
          extract_image_portal_messages max w o (track_image_reads o f.image_read_map) in
        let f' : Forwarder = record {
          message_count = count;
          pending_git_check = is_git_bash_command o;
          image_read_map = map;
          known = known;
        } in
        let content = view.to_value o in
        let (buffer', seq) = push (others buffer w.between) content in
        let (buffer'', portals) = send_portals w 0 buffer' messages in
        if w.sends
        then (f', buffer'', updates ++ sequenced_output seq content ∷ portals, true)
        else (f', buffer', updates, false)

    -- The loop of the task that `spawn_output_forwarder` spawns.
    unfoldable pub run_forwarder :
        ℕ
        → ℕ
        → Forwarder
        → PendingOutputBuffer J
        → List (World J × O)
        → Forwarder × PendingOutputBuffer J × List (ProxyToServer J P)
    unfolding forward_output
    run_forwarder session_id max f buffer [] = (f, buffer, [])
    run_forwarder session_id max f buffer ((w, o) ∷ outputs) =
        let (f', buffer', sent, goes) = forward_output session_id max w f buffer o in
        let (f'', buffer'', more) = run_forwarder session_id max f' buffer' outputs in
        if goes then (f'', buffer'', sent ++ more) else (f', buffer', sent)
