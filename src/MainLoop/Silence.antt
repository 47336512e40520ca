-- ===== src/MainLoop/Silence.antt =====
-- What the main loop of claude-session-lib/src/proxy_session/mod.rs makes of a backend that is silent.
use claude_code_portal.Prelude.{
  ℕ, ◌-◌, ltb, ◌≡◌, refl, ap, ◌∙◌, String, Bool, true, false, ◌||◌, List, [], ◌∷◌, ◌++◌, Option,
  none, some, inl, inr, arith, Option-cases,
}
use claude_code_portal.SessionManager.Connections.{is_some}
use claude_code_portal.OutputBuffer.{Codec}
use claude_code_portal.AgentSession.{Agent, SessionEvent, Polled, waits, returns, next_event}
use claude_code_portal.Uploads.{FileUploadEvent, handle_file_upload}
use claude_code_portal.ProxyReader.{HeartbeatTracker, is_expired}
use claude_code_portal.Wiggum.{Rendering, Moment}
use claude_code_portal.MainLoop.{
  ConnectionState, Reading, Branch, tick, heard, terminated, disconnects, graceful_shutdown, input,
  wiggum, upload, permission, output_ack, agent_event, send_text, handle_event, take_event, branch,
  run_main_loop,
}

module _ {O J T : Type 0} where
  -- No echo of a heartbeat is noted.
  abbrev pub is_silent : List (Branch O J T × Moment) → Bool
  is_silent [] = true
  is_silent ((heard, t) ∷ branches) = false
  is_silent ((b, t) ∷ branches) = is_silent branches

  -- A tick comes when the last echo is more than fifteen seconds ago, in nanoseconds.
  abbrev pub is_overdue : HeartbeatTracker → List (Branch O J T × Moment) → Bool
  is_overdue h [] = false
  is_overdue h ((tick, t) ∷ branches) =
      ltb 15000000000 (t.now - h.last_received) || is_overdue h branches
  is_overdue h ((b, t) ∷ branches) = is_overdue h branches

module _ {O J P T : Type 0} (Permission : Type 0) (agent : Agent O J P) (rendering : Rendering O J)
    (codec : Codec J T) (reading : Reading J Permission) (start : ℕ) where
  send_text-heartbeat :
      (s : ConnectionState O J T) (text : String) (t : Moment)
      → (send_text agent rendering codec reading start s text t).0.heartbeat ≡ s.heartbeat
  unfolding send_text
  send_text-heartbeat s text t = ground arith

  handle_event-heartbeat :
      (s : ConnectionState O J T) (event : Option (SessionEvent O J P)) (t : Moment)
      → (handle_event agent rendering codec reading start s event t).0.heartbeat ≡ s.heartbeat
  unfolding handle_event
  handle_event-heartbeat s event t = ground arith

  take_event-heartbeat :
      (s : ConnectionState O J T) (polled : Polled (SessionEvent O J P)) (t : Moment)
      → (take_event agent rendering codec reading start s polled t).0.heartbeat ≡ s.heartbeat
  unfolding take_event
  take_event-heartbeat s waits t = refl
  take_event-heartbeat s (returns event) t = handle_event-heartbeat s event t

  upload-heartbeat :
      (s : ConnectionState O J T) (event : FileUploadEvent) (works : Bool) (t : Moment)
      → (branch agent rendering codec reading start s (upload event works) t).0.heartbeat
        ≡ s.heartbeat
  unfolding branch
  upload-heartbeat s event works t =
      elim (Option-cases (handle_file_upload reading.decode works s.receiver event)) [
        | inl e ↦ rw (e, branch) refl
        | inr (receiver, e) ↦ rw (e, branch) refl
      ]

  goes_on :
      (s : ConnectionState O J T) (b : Branch O J T) (t : Moment)
      (branches : List (Branch O J T × Moment))
      → is_silent ((b, t) ∷ branches) ≡ true
      → is_overdue s.heartbeat ((b, t) ∷ branches) ≡ true
      → (branch agent rendering codec reading start s b t).2 ≡ none
      → (is_silent branches ≡ true)
        × (is_overdue (branch agent rendering codec reading start s b t).0.heartbeat branches
            ≡ true)
  unfolding branch is_expired
  goes_on s tick t branches quiet late goes = ground (arith, quiet, late, goes)
  goes_on s heard t branches quiet late goes = ground (arith, quiet)
  goes_on s terminated t branches quiet late goes = (quiet, late)
  goes_on s (disconnects (some delay)) t branches quiet late goes = (quiet, late)
  goes_on s (disconnects none) t branches quiet late goes = (quiet, late)
  goes_on s (graceful_shutdown delay) t branches quiet late goes = (quiet, late)
  goes_on s (input text) t branches quiet late goes =
      (quiet, ap (λ h. is_overdue h branches) (send_text-heartbeat s text t) ∙ late)
  goes_on s (wiggum prompt) t branches quiet late goes =
      (quiet, ap (λ h. is_overdue h branches) (send_text-heartbeat _ _ t) ∙ late)
  goes_on s (upload event works) t branches quiet late goes =
      (quiet, ap (λ h. is_overdue h branches) (upload-heartbeat s event works t) ∙ late)
  goes_on s (permission r) t branches quiet late goes = (quiet, late)
  goes_on s (output_ack ack_seq writing renames) t branches quiet late goes = (quiet, late)
  goes_on s (agent_event arrived closed) t branches quiet late goes = (
    quiet,
    ap (λ h. is_overdue h branches)
          (let (session, rest, polled) =
              next_event agent s.claude_session (s.events ++ arrived) closed t.now in
            take_event-heartbeat (record s { claude_session = session; events = rest }) polled t)
        ∙ late,
  )

  -- While no echo of a heartbeat is noted, whatever else happens on the connection, it has ended at the latest
  -- at the first tick more than fifteen seconds after the last echo.
  pub silent_connection_ends :
      (s : ConnectionState O J T) (branches : List (Branch O J T × Moment))
      → is_silent branches ≡ true
      → is_overdue s.heartbeat branches ≡ true
      → is_some (run_main_loop agent rendering codec reading start s branches).2 ≡ true
  unfolding run_main_loop
  silent_connection_ends s [] quiet late = ground (arith, late)
  silent_connection_ends s ((b, t) ∷ branches) quiet late =
      let out = branch agent rendering codec reading start s b t in
      elim (Option-cases out.2) [
        | inr (r, e) ↦ rw (e, run_main_loop) refl
        | inl e ↦
            let (quiet', late') = goes_on s b t branches quiet late e in
            rw (e, run_main_loop) (silent_connection_ends out.0 branches quiet' late')
      ]
