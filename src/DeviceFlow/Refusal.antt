-- ===== src/DeviceFlow/Refusal.antt =====
-- A request that was denied, or whose time is over, stays so.
use claude_code_portal.Prelude.{
  ℕ, ◌≤◌, ◌≡◌, refl, sym, ap, ◌∙◌, Bool, true, List, [], ◌∷◌, Option, none, some, inl, inr, lookup,
  Option-cases,
}
use mathlib.Core.Path.{subst}
use claude_code_portal.ProxyTokens.{Crypto, TokenDb}
use claude_code_portal.DeviceFlow.{
  AppState, DeviceFlowState, missing, malformed, of_user, check_expiration, completed, refused,
  device_code, device_poll, device_approve, device_deny, complete_device_flow, purge,
}
use claude_code_portal.DeviceFlow.Entries.{complete_device_flow_cases}
use claude_code_portal.DeviceFlow.Poll.{app_of, device_poll_found, device_poll_unknown}
use claude_code_portal.DeviceFlow.Approval.{
  Op, requests, polls, approves, denies, purges, step, run,
}
use claude_code_portal.DeviceFlow.Refused.{
  RefusedAt, NotRequested, is_final, StoreRefusedAt, RefusedAt-lookup, RefusedAt-insert,
  RefusedAt-retain, RefusedAt-change_first, check_expiration-refused, check_expiration-IsOver,
  poll_response_final,
}

module _ (since code : ℕ) (crypto : Crypto) where
  approve-RefusedAt :
      (app : AppState) (store : List (ℕ × DeviceFlowState)) (write_ok : Bool)
      (user_code user_id token_id row_id now : ℕ)
      → app.device_flow_store ≡ some store
      → RefusedAt since code store
      → StoreRefusedAt since code
          (complete_device_flow crypto app store write_ok user_code user_id token_id row_id
            now).0.device_flow_store
  unfolding completed
  approve-RefusedAt app store write_ok user_code user_id token_id row_id now e h =
      elim (complete_device_flow_cases crypto app store write_ok user_code user_id token_id row_id
        now) [
          | inl kept ↦ subst (StoreRefusedAt since code) (sym (kept ∙ e)) h
          | inr (token, changed) ↦ subst (StoreRefusedAt since code) (sym changed) (
              RefusedAt-change_first since code user_code (completed user_id token) store
                (λ s. refl) h)
        ]

  step-RefusedAt :
      (o : Option (List (ℕ × DeviceFlowState))) (tokens : TokenDb) (op : Op)
      → NotRequested code (op ∷ [])
      → StoreRefusedAt since code o
      → StoreRefusedAt since code (step crypto (app_of o tokens) op).device_flow_store
  unfolding step device_code device_poll device_deny purge refused device_approve
  step-RefusedAt none tokens (requests c user_code hostname directory now) n h = tt
  step-RefusedAt none tokens (polls c now) n h = tt
  step-RefusedAt none tokens (denies missing user_code) n h = tt
  step-RefusedAt none tokens (denies malformed user_code) n h = tt
  step-RefusedAt none tokens (denies (of_user user_id) user_code) n h = tt
  step-RefusedAt none tokens (purges now) n h = tt
  step-RefusedAt none tokens (approves missing write_ok user_code token_id row_id now) n h = tt
  step-RefusedAt none tokens (approves malformed write_ok user_code token_id row_id now) n h = tt
  step-RefusedAt none tokens (approves (of_user user_id) write_ok user_code token_id row_id now) n
        h =
      tt
  step-RefusedAt (some store) tokens (requests c user_code hostname directory now) n h =
      RefusedAt-insert since code c _ store (λ same. absurd (n.0 same)) h
  step-RefusedAt (some store) tokens (polls c now) n h = elim (Option-cases (lookup c store)) [
    | inl f ↦
        subst (λ x. StoreRefusedAt since code x.0.device_flow_store)
          (sym (device_poll_unknown store tokens c now f)) h
    | inr (s, f) ↦
        subst (λ x. StoreRefusedAt since code x.0.device_flow_store)
          (sym (device_poll_found store tokens c now s f))
          (RefusedAt-insert since code c (check_expiration now s) store
            (λ same.
              check_expiration-IsOver since now s
                (RefusedAt-lookup since code s store h (ap (λ k. lookup k store) (sym same) ∙ f)))
            h)
  ]
  step-RefusedAt (some store) tokens (approves missing write_ok user_code token_id row_id now) n h =
      h
  step-RefusedAt (some store) tokens (approves malformed write_ok user_code token_id row_id now) n
        h =
      h
  step-RefusedAt (some store) tokens
        (approves (of_user user_id) write_ok user_code token_id row_id now) n h =
      approve-RefusedAt _ store write_ok user_code user_id token_id row_id now refl h
  step-RefusedAt (some store) tokens (denies missing user_code) n h = h
  step-RefusedAt (some store) tokens (denies malformed user_code) n h = h
  step-RefusedAt (some store) tokens (denies (of_user user_id) user_code) n h =
      RefusedAt-change_first since code user_code refused store (λ s. refl) h
  step-RefusedAt (some store) tokens (purges now) n h = RefusedAt-retain since code _ store h

  split :
      (op : Op) (ops : List Op)
      → NotRequested code (op ∷ ops)
      → NotRequested code (op ∷ []) × NotRequested code ops
  split (requests c user_code hostname directory now) ops n = ((n.0, tt), n.1)
  split (polls c now) ops n = (tt, n)
  split (approves cookie write_ok user_code token_id row_id now) ops n = (tt, n)
  split (denies cookie user_code) ops n = (tt, n)
  split (purges now) ops n = (tt, n)

  run-RefusedAt :
      (app : AppState) (ops : List Op)
      → NotRequested code ops
      → StoreRefusedAt since code app.device_flow_store
      → StoreRefusedAt since code (run crypto app ops).device_flow_store
  unfolding run
  run-RefusedAt app [] n h = h
  run-RefusedAt app (op ∷ ops) n h =
      let (here, rest) = split op ops n in
      run-RefusedAt (step crypto app op) ops rest
        (step-RefusedAt app.device_flow_store app.tokens op here h)

  final :
      (o : Option (List (ℕ × DeviceFlowState))) (tokens : TokenDb) (now : ℕ)
      → since ≤ now
      → StoreRefusedAt since code o
      → is_final (device_poll (app_of o tokens) code now).1 ≡ true
  unfolding device_poll
  final none tokens now late h = refl
  final (some store) tokens now late h = elim (Option-cases (lookup code store)) [
    | inl f ↦ ap (λ x. is_final x.1) (device_poll_unknown store tokens code now f)
    | inr (s, f) ↦
        ap (λ x. is_final x.1) (device_poll_found store tokens code now s f)
        ∙ poll_response_final tokens (check_expiration now s) _ refl
            (check_expiration-refused since now s late (RefusedAt-lookup since code s store h f))
  ]

  -- A request that was denied, that is marked as expired or whose time is over before `since` has no token
  -- for a poll at `since` or later, and is not pending for it either, whatever was polled at whatever times,
  -- approved, denied, purged and requested under other codes in between.
  pub device_poll_refused :
      (store : List (ℕ × DeviceFlowState)) (tokens : TokenDb) (ops : List Op) (now : ℕ)
      → RefusedAt since code store
      → NotRequested code ops
      → since ≤ now
      → is_final (device_poll (run crypto (app_of (some store) tokens) ops) code now).1 ≡ true
  device_poll_refused store tokens ops now h n late =
      let app = run crypto (app_of (some store) tokens) ops in
      final app.device_flow_store app.tokens now late
        (run-RefusedAt (app_of (some store) tokens) ops n h)
