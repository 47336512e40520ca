-- ===== src/DeviceFlow/Poll.antt =====
-- The answers of a poll.
use claude_code_portal.Prelude.{
  ℕ, ◌≡◌, refl, sym, ap, ◌∙◌, List, Option, none, some, inl, inr, lookup, insert, Bool-cases,
  Option-cases, arith, String,
}
use claude_code_portal.ProxyTokens.{TokenDb, find_user}
use claude_code_portal.DeviceFlow.{
  AppState, not_found, DeviceFlowState, DeviceFlowStatus, PollResponse, check_expiration,
  poll_response, poll_complete, device_poll,
}

abbrev pub app_of : Option (List (ℕ × DeviceFlowState)) → TokenDb → AppState
app_of o tokens = record { device_flow_store = o; tokens = tokens }

pub device_poll_found :
    (store : List (ℕ × DeviceFlowState)) (tokens : TokenDb) (code now : ℕ) (s : DeviceFlowState)
    → lookup code store ≡ some s
    → device_poll (app_of (some store) tokens) code now ≡ (
      app_of (some (insert code (check_expiration now s) store)) tokens,
      poll_response tokens (check_expiration now s),
    )
unfolding device_poll
device_poll_found store tokens code now s e = rw (e, device_poll) refl

pub device_poll_unknown :
    (store : List (ℕ × DeviceFlowState)) (tokens : TokenDb) (code now : ℕ)
    → lookup code store ≡ none
    → device_poll (app_of (some store) tokens) code now
      ≡ (app_of (some store) tokens, inl (not_found "Device code not found or expired"))
unfolding device_poll
device_poll_unknown store tokens code now e = rw (e, device_poll) refl

poll_complete_user :
    (tokens : TokenDb) (s : DeviceFlowState) (token : String) (user_id : ℕ) (email : String)
    → poll_complete tokens s ≡ inr (PollResponse.complete token user_id email)
    → s.user_id ≡ some user_id
unfolding poll_complete
poll_complete_user tokens s token user_id email e = elim (Option-cases s.user_id) [
  | inl u ↦ let no = rw (u, poll_complete) at e in cc
  | inr (user, u) ↦ elim (Option-cases s.access_token) [
    | inl t ↦ let no = rw (u, t, poll_complete) at e in cc
    | inr (access, t) ↦ elim (Bool-cases tokens.reachable) [
      | inr r ↦ let no = rw (u, t, r, poll_complete) at e in cc
      | inl r ↦ elim (Option-cases (find_user tokens user)) [
        | inl f ↦ let no = rw (u, t, f, r, poll_complete) at e in cc
        | inr (row, f) ↦ let same = rw (u, t, f, r, poll_complete) at e in cc
      ]
    ]
  ]
]

poll_response_complete :
    (tokens : TokenDb) (s : DeviceFlowState) (status : DeviceFlowStatus) (token : String)
    (user_id : ℕ) (email : String)
    → s.status ≡ status
    → poll_response tokens s ≡ inr (PollResponse.complete token user_id email)
    → (status ≡ DeviceFlowStatus.complete) × (s.user_id ≡ some user_id)
unfolding poll_response
poll_response_complete tokens s DeviceFlowStatus.pending token user_id email f e =
    let no = rw (f, poll_response) at e in cc
poll_response_complete tokens s DeviceFlowStatus.complete token user_id email f e =
    (refl, poll_complete_user tokens s token user_id email (rw (f, poll_response) at e))
poll_response_complete tokens s DeviceFlowStatus.expired token user_id email f e =
    let no = rw (f, poll_response) at e in cc
poll_response_complete tokens s DeviceFlowStatus.denied token user_id email f e =
    let no = rw (f, poll_response) at e in cc

check_expiration-user_id :
    (now : ℕ) (s : DeviceFlowState) → (check_expiration now s).user_id ≡ s.user_id
check_expiration-user_id now s = ground arith

-- The entry of a device that is given a token.
pub polled :
    (o : Option (List (ℕ × DeviceFlowState))) (tokens : TokenDb) (code now user_id : ℕ)
    (token email : String)
    → (device_poll (app_of o tokens) code now).1 ≡ inr (PollResponse.complete token user_id email)
    → (store : List (ℕ × DeviceFlowState)) × (s : DeviceFlowState) × (o ≡ some store)
      × (lookup code store ≡ some s)
      × (s.user_id ≡ some user_id)
unfolding device_poll
polled none tokens code now user_id token email e = cc
polled (some store) tokens code now user_id token email e =
    elim (Option-cases (lookup code store)) [
      | inl f ↦ let no = sym (ap (λ x. x.1) (device_poll_unknown store tokens code now f)) ∙ e in cc
      | inr (s, f) ↦ (
        store,
        s,
        refl,
        f,
        sym (check_expiration-user_id now s)
            ∙ (poll_response_complete tokens (check_expiration now s) _ token user_id email refl
                (sym (ap (λ x. x.1) (device_poll_found store tokens code now s f)) ∙ e)).1,
      )
    ]
