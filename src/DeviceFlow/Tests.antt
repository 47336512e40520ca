-- ===== src/DeviceFlow/Tests.antt =====
-- A device that is approved, one that is denied, and an approval of nothing.
use claude_code_portal.Prelude.{
  ℕ, ◌≡◌, refl, true, List, [], ◌∷◌, ◌++◌, none, some, inl, inr, lookup, ◌*◌, arith,
}
use claude_code_portal.Protocol.{second}
use claude_code_portal.ProxyTokens.{find_user, create_proxy_token, verify_and_get_user}
use claude_code_portal.ProxyTokens.Validity.{row_of}
use claude_code_portal.ProxyTokens.Fixture.{signer, signs, is_same, ann, office, ann_known}
use claude_code_portal.DeviceFlow.{
  DeviceFlowState, DeviceFlowStatus, PollResponse, of_user, not_found, device_code, device_poll,
  device_approve, complete_device_flow, poll_response, device_token, completed,
}
use claude_code_portal.DeviceFlow.Poll.{app_of}
use claude_code_portal.DeviceFlow.Approval.{
  Op, requests, polls, approves, denies, step, run, approvals, is_approved, device_poll_approved,
}
use claude_code_portal.DeviceFlow.Refused.{is_final}
use claude_code_portal.DeviceFlow.Refusal.{device_poll_refused}
use claude_code_portal.DeviceFlow.Orphans.{device_approve_orphan}

-- A request under the code 11, with the user code 22, that user 3 approves.
abbrev approved : List Op
approved = requests 11 22 none none 0 ∷ polls 11 1 ∷ approves (of_user 3) true 22 5 41 0 ∷ []

gives_token :
    (device_poll (run (signer 30) (app_of (some []) office) approved) 11 second).1
    ≡ inr (PollResponse.complete "new" 3 "ann@example.org")
unfolding run step device_code device_poll device_approve complete_device_flow find_user
    create_proxy_token signs is_same completed poll_response
gives_token = refl

device_poll_approved_example :
    let app = run (signer 30) (app_of (some []) office) approved in
    (store : List (ℕ × DeviceFlowState)) × (s : DeviceFlowState) × (app.device_flow_store
      ≡ some store)
    × (lookup 11 store ≡ some s)
    × (is_approved (approvals approved []) s.user_code 3 ≡ true)
device_poll_approved_example =
    device_poll_approved (signer 30) office approved 11 second 3 "new" "ann@example.org" gives_token

abbrev denied_one : DeviceFlowState
denied_one = record {
  device_code = 11;
  user_code = 22;
  user_id = none;
  access_token = none;
  expires_at = 300 * second;
  status = DeviceFlowStatus.denied;
  hostname = none;
  working_directory = none;
}

-- It still waits for an approval.
abbrev late_one : DeviceFlowState
late_one = record denied_one { status = DeviceFlowStatus.pending }

device_poll_refused_example :
    is_final
      (device_poll
        (run
          (signer 30)
          (app_of (some ((11, late_one) ∷ [])) office)
          (denies (of_user 3) 33 ∷ polls 11 2 ∷ []))
        11
        (302 * second)).1
    ≡ true
device_poll_refused_example =
    device_poll_refused (301 * second) 11 (signer 30) ((11, late_one) ∷ []) office
      (denies (of_user 3) 33 ∷ polls 11 2 ∷ []) (302 * second) (λ e. inr (omega arith), tt) tt
      (omega arith)

ann_signed : create_proxy_token (signer 30) 5 3 "ann@example.org" 30 0 ≡ some "new"
unfolding create_proxy_token signs is_same
ann_signed = refl

unstored : row_of (signer 30) office "new" ≡ none
unfolding is_same
unstored = refl

device_approve_orphan_example :
    let (app, result) =
      device_approve
        (signer 30)
        (app_of (some ((11, denied_one) ∷ [])) office)
        (of_user 3)
        true
        22
        5
        41
        0 in
    (result ≡ inl (not_found "Device code not found or already used"))
    × (app.device_flow_store ≡ some ((11, denied_one) ∷ []))
    × (app.tokens.proxy_auth_tokens
        ≡ office.proxy_auth_tokens ++ device_token (signer 30) 41 3 "new" 0 ∷ [])
    × ((verify_and_get_user (signer 30) app.tokens second "new").1 ≡ inr (3, "ann@example.org"))
device_approve_orphan_example =
    device_approve_orphan (signer 30) ((11, denied_one) ∷ []) office 22 3 5 41 0 second ann "new"
      refl ann_known ann_signed refl refl unstored (omega arith)
