-- ===== src/DeviceFlow/Approval.antt =====
-- Runs of the device flow, and who stands behind a token that a device is given.
use claude_code_portal.Prelude.{
  ℕ, ◌≡◌, refl, sym, ◌∙◌, Bool, true, false, ◌&&◌, List, [], ◌∷◌, Option, none, some, inl, inr,
  ◌==◌, ltb, any, lookup, Bool-cases, Option-cases, arith, String,
}
use mathlib.Core.Option.{some-injective}
use mathlib.Core.Path.{subst}
use claude_code_portal.SessionManager.Connections.{is_some}
use claude_code_portal.ProxyTokens.{Crypto, TokenDb}
use claude_code_portal.DeviceFlow.{
  AppState, DeviceFlowState, DeviceFlowStatus, PollResponse, Cookie, missing, malformed, of_user,
  is_open, check_expiration, completed, refused, device_code, device_poll, device_approve,
  device_deny, complete_device_flow, purge,
}
use claude_code_portal.DeviceFlow.Entries.{
  AllEntries, AllEntries-lookup, AllEntries-insert, AllEntries-retain, AllEntries-change_first,
  AllEntries-map, complete_device_flow_cases,
}
use claude_code_portal.DeviceFlow.Poll.{app_of, device_poll_found, device_poll_unknown, polled}

pub data Op : Type 0 where
  requests : (code user_code : ℕ) (hostname working_directory : Option String) (now : ℕ) → Op
  polls : (code now : ℕ) → Op
  approves : (cookie : Cookie) (write_ok : Bool) (user_code token_id row_id now : ℕ) → Op
  denies : (cookie : Cookie) (user_code : ℕ) → Op
  purges : (now : ℕ) → Op

-- The user code and the user of an approval by a user who is logged in, before those that were.
abbrev pub noted : Op → List (ℕ × ℕ) → List (ℕ × ℕ)
noted (approves (of_user user_id) write_ok user_code token_id row_id now) done =
    (user_code, user_id) ∷ done
noted op done = done

abbrev pub approvals : List Op → List (ℕ × ℕ) → List (ℕ × ℕ)
approvals [] done = done
approvals (op ∷ ops) done = approvals ops (noted op done)

abbrev pub is_approved : List (ℕ × ℕ) → ℕ → ℕ → Bool
is_approved done user_code user_id = any (λ a. a.0 == user_code && a.1 == user_id) done

abbrev is_complete : DeviceFlowStatus → Bool
is_complete DeviceFlowStatus.pending = false
is_complete DeviceFlowStatus.complete = true
is_complete DeviceFlowStatus.expired = false
is_complete DeviceFlowStatus.denied = false

-- The user of an entry approved it, and a complete entry has a user and a token.
pub record IsSound (done : List (ℕ × ℕ)) (s : DeviceFlowState) : Type 0 where
  pub approved :
      (user_id : ℕ) → s.user_id ≡ some user_id → is_approved done s.user_code user_id ≡ true
  pub identified : is_complete s.status ≡ true → is_some s.user_id ≡ true
  pub authorized : is_complete s.status ≡ true → is_some s.access_token ≡ true

abbrev StoreIsSound : List (ℕ × ℕ) → Option (List (ℕ × DeviceFlowState)) → Type 0
StoreIsSound done none = Unit {0}
StoreIsSound done (some store) = AllEntries (IsSound done) store

check_expiration-IsSound :
    (done : List (ℕ × ℕ)) (now : ℕ) (s : DeviceFlowState)
    → IsSound done s
    → IsSound done (check_expiration now s)
check_expiration-IsSound done now s h = elim (Bool-cases (ltb s.expires_at now)) [
  | inl e ↦ simp e (record { approved = h.approved; identified = λ c. cc; authorized = λ c. cc })
  | inr e ↦ simp e h
]

completed-IsSound :
    (done : List (ℕ × ℕ)) (user_code user_id : ℕ) (token : String) (s : DeviceFlowState)
    → is_open user_code s ≡ true
    → IsSound ((user_code, user_id) ∷ done) (completed user_id token s)
unfolding completed
completed-IsSound done user_code user_id token s chosen = record {
  approved = λ u e. (let same = some-injective user_id u e in ground (arith, chosen, same));
  identified = λ c. refl;
  authorized = λ c. refl;
}

noted-IsSound :
    (op : Op) (done : List (ℕ × ℕ)) (s : DeviceFlowState)
    → IsSound done s
    → IsSound (noted op done) s
noted-IsSound (requests code user_code hostname directory now) done s h = h
noted-IsSound (polls code now) done s h = h
noted-IsSound (approves missing write_ok user_code token_id row_id now) done s h = h
noted-IsSound (approves malformed write_ok user_code token_id row_id now) done s h = h
noted-IsSound (approves (of_user user_id) write_ok user_code token_id row_id now) done s h =
    record {
      approved = λ u e. (let i = h.approved u e in ground (arith, i));
      identified = h.identified;
      authorized = h.authorized;
    }
noted-IsSound (denies cookie user_code) done s h = h
noted-IsSound (purges now) done s h = h

module _ (crypto : Crypto) where
  unfoldable pub step : AppState → Op → AppState
  step app (requests code user_code hostname directory now) =
      (device_code app code user_code hostname directory now).0
  step app (polls code now) = (device_poll app code now).0
  step app (approves cookie write_ok user_code token_id row_id now) =
      (device_approve crypto app cookie write_ok user_code token_id row_id now).0
  step app (denies cookie user_code) = (device_deny app cookie user_code).0
  step app (purges now) = purge app now

  unfoldable pub run : AppState → List Op → AppState
  unfolding step
  run app [] = app
  run app (op ∷ ops) = run (step app op) ops

  approve-IsSound :
      (done : List (ℕ × ℕ)) (app : AppState) (store : List (ℕ × DeviceFlowState)) (write_ok : Bool)
      (user_code user_id token_id row_id now : ℕ)
      → app.device_flow_store ≡ some store
      → AllEntries (IsSound ((user_code, user_id) ∷ done)) store
      → StoreIsSound
          ((user_code, user_id) ∷ done)
          (complete_device_flow crypto app store write_ok user_code user_id token_id row_id
            now).0.device_flow_store
  approve-IsSound done app store write_ok user_code user_id token_id row_id now e h =
      elim (complete_device_flow_cases crypto app store write_ok user_code user_id token_id row_id
        now) [
          | inl kept ↦ subst (StoreIsSound ((user_code, user_id) ∷ done)) (sym (kept ∙ e)) h
          | inr (token, changed) ↦
              subst (StoreIsSound ((user_code, user_id) ∷ done)) (sym changed) (
                AllEntries-change_first (IsSound ((user_code, user_id) ∷ done)) (is_open user_code)
                  (completed user_id token) store
                  (λ s chosen i. completed-IsSound done user_code user_id token s chosen) h)
        ]

  steps-IsSound :
      (done : List (ℕ × ℕ)) (o : Option (List (ℕ × DeviceFlowState))) (tokens : TokenDb) (op : Op)
      → StoreIsSound done o
      → StoreIsSound
          (noted op done)
          (step (record { device_flow_store = o; tokens = tokens }) op).device_flow_store
  unfolding step device_code device_poll device_deny purge refused device_approve
  steps-IsSound done none tokens (requests code user_code hostname directory now) h = tt
  steps-IsSound done none tokens (polls code now) h = tt
  steps-IsSound done none tokens (denies missing user_code) h = tt
  steps-IsSound done none tokens (denies malformed user_code) h = tt
  steps-IsSound done none tokens (denies (of_user user_id) user_code) h = tt
  steps-IsSound done none tokens (purges now) h = tt
  steps-IsSound done none tokens (approves missing write_ok user_code token_id row_id now) h = tt
  steps-IsSound done none tokens (approves malformed write_ok user_code token_id row_id now) h = tt
  steps-IsSound done none tokens (approves (of_user user_id) write_ok user_code token_id row_id now)
        h =
      tt
  steps-IsSound done (some store) tokens (requests code user_code hostname directory now) h =
      AllEntries-insert (IsSound done) code _ store h
        (record { approved = λ u f. cc; identified = λ c. cc; authorized = λ c. cc })
  steps-IsSound done (some store) tokens (polls code now) h =
      elim (Option-cases (lookup code store)) [
        | inl f ↦
            subst (λ x. StoreIsSound done x.0.device_flow_store)
              (sym (device_poll_unknown store tokens code now f)) h
        | inr (s, f) ↦
            subst (λ x. StoreIsSound done x.0.device_flow_store)
              (sym (device_poll_found store tokens code now s f))
              (AllEntries-insert (IsSound done) code (check_expiration now s) store h (
                check_expiration-IsSound done now s
                  (AllEntries-lookup (IsSound done) code s store h f)))
      ]
  steps-IsSound done (some store) tokens (approves missing write_ok user_code token_id row_id now)
        h =
      h
  steps-IsSound done (some store) tokens (approves malformed write_ok user_code token_id row_id now)
        h =
      h
  steps-IsSound done (some store) tokens
        (approves (of_user user_id) write_ok user_code token_id row_id now) h =
      approve-IsSound done _ store write_ok user_code user_id token_id row_id now refl (
        AllEntries-map (IsSound done) (IsSound ((user_code, user_id) ∷ done)) store
          (noted-IsSound (approves (of_user user_id) write_ok user_code token_id row_id now) done)
          h)
  steps-IsSound done (some store) tokens (denies missing user_code) h = h
  steps-IsSound done (some store) tokens (denies malformed user_code) h = h
  steps-IsSound done (some store) tokens (denies (of_user user_id) user_code) h =
      AllEntries-change_first (IsSound done) (is_open user_code) refused store
        (λ s chosen i. record { approved = i.approved; identified = λ c. cc; authorized = λ c. cc })
        h
  steps-IsSound done (some store) tokens (purges now) h = AllEntries-retain (IsSound done) _ store h

  run-IsSound :
      (done : List (ℕ × ℕ)) (app : AppState) (ops : List Op)
      → StoreIsSound done app.device_flow_store
      → StoreIsSound (approvals ops done) (run app ops).device_flow_store
  unfolding run
  run-IsSound done app [] h = h
  run-IsSound done app (op ∷ ops) h =
      run-IsSound (noted op done) (step app op) ops
        (steps-IsSound done app.device_flow_store app.tokens op h)

  -- Whatever was requested, polled, approved, denied and purged before: a device is given a token only
  -- for a user who was logged in and approved the user code of its entry.
  pub device_poll_approved :
      (tokens : TokenDb) (ops : List Op) (code now user_id : ℕ) (token email : String)
      → let app = run (app_of (some []) tokens) ops in
        (device_poll app code now).1 ≡ inr (PollResponse.complete token user_id email)
        → (store : List (ℕ × DeviceFlowState)) × (s : DeviceFlowState) × (app.device_flow_store
            ≡ some store)
          × (lookup code store ≡ some s)
          × (is_approved (approvals ops []) s.user_code user_id ≡ true)
  device_poll_approved tokens ops code now user_id token email e =
      let app = run (app_of (some []) tokens) ops in
      let (store, s, stored, found, user) =
        polled app.device_flow_store app.tokens code now user_id token email e in
      let sound =
        subst (StoreIsSound (approvals ops [])) stored
          (run-IsSound [] (app_of (some []) tokens) ops tt) in
      (
        store,
        s,
        stored,
        found,
        (AllEntries-lookup (IsSound (approvals ops [])) code s store sound found).approved user_id
            user,
      )
