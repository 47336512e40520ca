-- ===== src/Permissions/Tests.antt =====
-- Two sessions that ask, one that is answered.
use claude_code_portal.Prelude.{ℕ, ◌≡◌, Bool, true, List, [], ◌∷◌, none}
use claude_code_portal.Protocol.{PermissionResponseFields, permission_request}
use claude_code_portal.SessionManager.{to_client, new}
use claude_code_portal.Permissions.Fixture.{Value, nil, json}
use claude_code_portal.Permissions.{PermissionRequest, replay_pending_permission}
use claude_code_portal.Permissions.Replay.{
  Event, asked, answered, after, replay_pending_permission_shows,
}

abbrev accepts : ℕ → Bool
accepts c = true

abbrev request : PermissionRequest Value
request = record {
  request_id = "r1";
  tool_name = "Bash";
  input = nil;
  permission_suggestions = nil ∷ [];
}

abbrev answer : PermissionResponseFields Value
answer = record { request_id = "r2"; allow = true; input = none; permissions = []; reason = none }

-- Session 8 was answered after session 7 had asked.
abbrev events : List (Event Value)
events = answered 8 answer ∷ asked 7 request ∷ asked 8 request ∷ []

replay_pending_permission_shows_example :
    replay_pending_permission json (after json accepts 5 new events).1 accepts true 7 60
    ≡ to_client 60 (permission_request "r1" "Bash" nil (nil ∷ [])) ∷ []
replay_pending_permission_shows_example =
    replay_pending_permission_shows json accepts 5 new events 7 60
