-- ===== src/Permissions/Replay.antt =====
-- What a web client that connects is shown of the requests and answers before.
use claude_code_portal.Prelude.{
  ℕ, ◌≡◌, refl, ap, Bool, true, List, [], ◌∷◌, Option, none, some, arith, ◌==◌, if◌then◌else◌,
  lookup, lookup-insert, lookup-remove, Option-cases, inl, inr,
}
use claude_code_portal.Protocol.{PermissionResponseFields}
use claude_code_portal.SessionManager.{SessionManager, to_client}
use claude_code_portal.SessionManager.Clients.{deliver}
use claude_code_portal.Permissions.{
  Suggestions, PermissionRequest, PendingPermissionRequest, shown, suggestions_json, row_of,
  suggestions_of, request_of, handle_permission_request, handle_permission_response,
  replay_pending_permission,
}

-- A session's proxy asks, or one of its web clients answers.
pub data Event (J : Type 0) : Type 0 where
  asked : (session : ℕ) → PermissionRequest J → Event J
  answered : (session : ℕ) → PermissionResponseFields J → Event J

-- The request that a session waits on; the events stand in reverse, the last one first.
abbrev pub pending_of : {J : Type 0} → ℕ → List (Event J) → Option (PermissionRequest J)
pending_of session [] = none
pending_of session (asked s p ∷ earlier) =
    if s == session then some p else pending_of session earlier
pending_of session (answered s f ∷ earlier) =
    if s == session then none else pending_of session earlier

module _ {J : Type 0} (json : Suggestions J) (accepts : ℕ → Bool) (now : ℕ) where
  pub handle_event :
      SessionManager J × List (ℕ × PendingPermissionRequest J)
      → Event J
      → SessionManager J × List (ℕ × PendingPermissionRequest J)
  handle_event (m, rows) (asked session p) =
      let (m', rows', sent) =
        handle_permission_request json m rows accepts (some session) (some session) true p in
      (m', rows')
  handle_event (m, rows) (answered session f) =
      let (m', rows', sent) =
        handle_permission_response json m rows accepts session session true f now in
      (m', rows')

  -- The state after the events, with the database at hand throughout.
  pub after :
      SessionManager J → List (Event J) → SessionManager J × List (ℕ × PendingPermissionRequest J)
  after m [] = (m, [])
  after m (e ∷ earlier) = handle_event (after m earlier) e

  suggestions_round : (xs : List J) → suggestions_of json (suggestions_json json xs) ≡ xs
  unfolding suggestions_of suggestions_json
  suggestions_round [] = refl
  suggestions_round (x ∷ xs) = ground (arith, json.from_value-to_value (x ∷ xs))

  request_of-row_of : (p : PermissionRequest J) → request_of json (row_of json p) ≡ p
  unfolding request_of row_of
  request_of-row_of p =
      ap (λ xs. record p { permission_suggestions = xs })
        (suggestions_round p.permission_suggestions)

  after-lookup :
      (m : SessionManager J) (es : List (Event J)) (session : ℕ)
      → lookup session (after m es).1
        ≡ elim (pending_of session es) [ none ↦ none | some p ↦ some (row_of json p) ]
  unfolding after handle_event handle_permission_request handle_permission_response
  after-lookup m [] session = refl
  after-lookup m (asked s p ∷ earlier) session = ground (
    arith,
    lookup-insert s session (row_of json p) (after m earlier).1,
    after-lookup m earlier session,
  )
  after-lookup m (answered s f ∷ earlier) session =
      ground (arith, lookup-remove s session (after m earlier).1, after-lookup m earlier session)

  -- A web client that connects is shown the last request of its session if no client has answered since,
  -- as the proxy made it, and nothing otherwise, whatever the other sessions asked and answered.
  pub replay_pending_permission_shows :
      (m : SessionManager J) (es : List (Event J)) (session tx : ℕ)
      → replay_pending_permission json (after m es).1 accepts true session tx
        ≡ elim (pending_of session es) [
          | none ↦ []
          | some p ↦ deliver accepts to_client (shown p) (tx ∷ [])
        ]
  unfolding replay_pending_permission
  replay_pending_permission_shows m es session tx = elim (Option-cases (pending_of session es)) [
    | inl e ↦ ground (arith, e, after-lookup m es session)
    | inr (p, e) ↦ ground (arith, e, after-lookup m es session, request_of-row_of p)
  ]
