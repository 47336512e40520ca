-- ===== src/BranchUpdate.antt =====
-- The check of the git branch in claude-session-lib/src/proxy_session/output_forwarder.rs. What git and gh
-- print is an argument.
use Prim.Native.String.{◌++◌ as ◌<>◌}
use claude_code_portal.Prelude.{
  ℕ, String, Bool, true, false, ◌&&◌, ◌||◌, List, [], ◌∷◌, Option, none, some, if◌then◌else◌,
}
use claude_code_portal.Prelude.Rendering.{trim_start, trim_end}
use text.Mathlib.Text.{◌==◌ as str_eq, starts_with}
use claude_code_portal.Protocol.Proxy.{ProxyToServer, session_update}

-- The output of each command, if it succeeds and is UTF-8.
pub record GitAnswers : Type 0 where
  pub head : Option String
  pub short_hash : Option String
  pub repo_view : Option String
  pub pr_view : String → Option String

-- What the backend was last told.
pub record Known : Type 0 where
  pub current_branch : Option String
  pub current_pr_url : Option String
  pub current_repo_url : Option String

-- `Some(s.trim())`, unless that is empty.
non_empty : Option String → Option String
non_empty none = none
non_empty (some s) =
    let trimmed = trim_end (trim_start s) in if str_eq trimmed "" then none else some trimmed

detached : Option String → Option String
detached none = none
detached (some s) = some ("detached:" <> trim_end (trim_start s))

unfoldable pub get_git_branch : GitAnswers → Option String
unfolding non_empty detached
get_git_branch w = elim (non_empty w.head) [
  | none ↦ none
  | some branch ↦ if str_eq branch "HEAD" then detached w.short_hash else some branch
]

unfoldable pub get_repo_url : GitAnswers → Option String
unfolding non_empty
get_repo_url w = non_empty w.repo_view

unfoldable pub get_pr_url : GitAnswers → String → Option String
unfolding non_empty
get_pr_url w branch =
    if str_eq branch "main" || (str_eq branch "master" || starts_with branch "detached:")
    then none
    else non_empty (w.pr_view branch)

abbrev pub same_text : Option String → Option String → Bool
same_text none none = true
same_text none (some t) = false
same_text (some s) none = false
same_text (some s) (some t) = str_eq s t

module _ {P J : Type 0} where
  unfoldable pub check_and_send_branch_update :
      ℕ → Known → GitAnswers → Known × List (ProxyToServer J P)
  unfolding get_git_branch get_pr_url get_repo_url
  check_and_send_branch_update session_id known w =
      let branch = get_git_branch w in
      let pr_url : Option String = elim branch [ none ↦ none | some b ↦ get_pr_url w b ] in
      let repo_url = get_repo_url w in
      if same_text known.current_branch branch
        && (same_text known.current_pr_url pr_url && same_text known.current_repo_url repo_url)
      then (known, [])
      else (
        record { current_branch = branch; current_pr_url = pr_url; current_repo_url = repo_url },
        session_update session_id branch pr_url repo_url ∷ [],
      )
