-- ===== src/DeviceFlow.antt =====
-- backend/src/handlers/device_flow.rs and the purge in backend/src/main.rs: a device asks for a code, a
-- user who is logged in approves or denies it, and the device polls for the answer. The codes are random
-- texts that are only compared: numbers. `extract` stands for the session cookie: missing, not an id, or
-- the user's id. The pages' texts are left out, and times are in nanoseconds.
pub mod Entries
pub mod Poll
pub mod Approval
pub mod Refused
pub mod Refusal
pub mod Orphans
mod Tests
use claude_code_portal.Prelude.{
  ℕ, ◌+◌, ◌*◌, ◌≡◌, String, Bool, true, false, not, ◌&&◌, List, [], ◌∷◌, ◌++◌, Option, none, some,
  ◌⊎◌, inl, inr, ltb, ◌==◌, if◌then◌else◌, retain, find, lookup, insert,
}
use claude_code_portal.Protocol.{second, device_code_expires_secs}
use claude_code_portal.ProxyTokens.{
  Crypto, User, TokenDb, ProxyAuthToken, day, find_user, create_proxy_token, hash_token,
}

pub data DeviceFlowStatus : Type 0 where
  pending complete expired denied : DeviceFlowStatus

abbrev pub is_pending : DeviceFlowStatus → Bool
is_pending pending = true
is_pending complete = false
is_pending expired = false
is_pending denied = false

pub record DeviceFlowState : Type 0 where
  pub device_code : ℕ
  pub user_code : ℕ
  pub user_id : Option ℕ
  pub access_token : Option String
  pub expires_at : ℕ
  pub status : DeviceFlowStatus
  pub hostname : Option String
  pub working_directory : Option String

-- The three constructors of the error, and those that the handlers write out.
pub data DeviceFlowApiError : Type 0 where
  service_unavailable : DeviceFlowApiError
  not_found internal_error unauthorized : (message : String) → DeviceFlowApiError

pub data PollResponse : Type 0 where
  pending : PollResponse
  complete : (access_token : String) (user_id : ℕ) (user_email : String) → PollResponse
  expired denied : PollResponse

pub record DeviceCodeResponse : Type 0 where
  pub device_code : ℕ
  pub user_code : ℕ
  pub expires_in : ℕ
  pub interval : ℕ

pub data Cookie : Type 0 where
  missing malformed : Cookie
  of_user : (user_id : ℕ) → Cookie

pub data VerifyPage : Type 0 where
  code_form home invalid_code : VerifyPage
  approval : (user_code : ℕ) (hostname working_directory : Option String) → VerifyPage
  device_login : (user_code : ℕ) → VerifyPage

-- `device_flow_store` is absent in dev mode.
pub record AppState : Type 0 where
  pub device_flow_store : Option (List (ℕ × DeviceFlowState))
  pub tokens : TokenDb

-- The first entry of a user code that is pending.
abbrev pub is_open : ℕ → DeviceFlowState → Bool
is_open user_code s = s.user_code == user_code && is_pending s.status

-- `values_mut().find(p)`, and what is done to the entry.
abbrev pub change_first :
    (DeviceFlowState → Bool)
    → (DeviceFlowState → DeviceFlowState)
    → List (ℕ × DeviceFlowState)
    → List (ℕ × DeviceFlowState)
change_first p change [] = []
change_first p change ((k, s) ∷ m) =
    if p s then (k, change s) ∷ m else (k, s) ∷ change_first p change m

abbrev pub find_value :
    (DeviceFlowState → Bool) → List (ℕ × DeviceFlowState) → Option DeviceFlowState
find_value p [] = none
find_value p ((k, s) ∷ m) = if p s then some s else find_value p m

unfoldable pub device_code :
    AppState
    → ℕ
    → ℕ
    → Option String
    → Option String
    → ℕ
    → AppState × (DeviceFlowApiError ⊎ DeviceCodeResponse)
device_code app code user_code hostname working_directory now = elim app.device_flow_store [
  | none ↦ (app, inl service_unavailable)
  | some store ↦ (
    record app {
      device_flow_store = some (
          insert code
            (record {
              device_code = code;
              user_code = user_code;
              user_id = none;
              access_token = none;
              expires_at = now + device_code_expires_secs * second;
              status = DeviceFlowStatus.pending;
              hostname = hostname;
              working_directory = working_directory;
            })
            store);
    },
    inr (record {
      device_code = code;
      user_code = user_code;
      expires_in = device_code_expires_secs;
      interval = 5;
    }),
  )
]

-- `if now > expires_at { status = Expired }`.
abbrev pub check_expiration : ℕ → DeviceFlowState → DeviceFlowState
check_expiration now s =
    if ltb s.expires_at now then record s { status = DeviceFlowStatus.expired } else s

poll_complete : TokenDb → DeviceFlowState → DeviceFlowApiError ⊎ PollResponse
poll_complete tokens s = elim s.user_id [
  | none ↦ inl (internal_error "Missing user ID")
  | some user_id ↦ elim s.access_token [
    | none ↦ inl (internal_error "Missing access token")
    | some access_token ↦
        if not tokens.reachable
        then inl (internal_error "Database connection failed")
        else elim (find_user tokens user_id) [
          | none ↦ inl (internal_error "User not found")
          | some user ↦ inr (PollResponse.complete access_token user_id user.email)
        ]
  ]
]

unfoldable pub poll_response : TokenDb → DeviceFlowState → DeviceFlowApiError ⊎ PollResponse
unfolding poll_complete
poll_response tokens s = elim s.status [
  | pending ↦ inr PollResponse.pending
  | complete ↦ poll_complete tokens s
  | expired ↦ inr PollResponse.expired
  | denied ↦ inr PollResponse.denied
]

unfoldable pub device_poll : AppState → ℕ → ℕ → AppState × (DeviceFlowApiError ⊎ PollResponse)
device_poll app code now = elim app.device_flow_store [
  | none ↦ (app, inl service_unavailable)
  | some store ↦ elim (lookup code store) [
    | none ↦ (app, inl (not_found "Device code not found or expired"))
    | some s ↦ (
      record app { device_flow_store = some (insert code (check_expiration now s) store) },
      poll_response app.tokens (check_expiration now s),
    )
  ]
]

unfoldable pub device_verify_page : AppState → Option ℕ → Cookie → VerifyPage
device_verify_page app query cookie = elim query [
  | none ↦ code_form
  | some user_code ↦ elim app.device_flow_store [
    | none ↦ home
    | some store ↦ elim (find_value (is_open user_code) store) [
      | none ↦ invalid_code
      | some s ↦ elim cookie [
        | missing ↦ device_login user_code
        | malformed ↦ device_login user_code
        | of_user user_id ↦ approval user_code s.hostname s.working_directory
      ]
    ]
  ]
]

unfoldable pub completed : ℕ → String → DeviceFlowState → DeviceFlowState
completed user_id token s = record s {
  user_id = some user_id;
  access_token = some token;
  status = DeviceFlowStatus.complete;
}

unfoldable pub refused : DeviceFlowState → DeviceFlowState
refused s = record s { status = DeviceFlowStatus.denied }

-- The row of a device's token, with the id `row_id`; its name is without the date.
unfoldable pub device_token : Crypto → ℕ → ℕ → String → ℕ → ProxyAuthToken
unfolding hash_token
device_token crypto row_id user_id token now = record {
  id = row_id;
  user_id = user_id;
  name = "Device auth";
  token_hash = hash_token crypto token;
  last_used_at = none;
  expires_at = now + 30 * day;
  revoked = false;
}

unfoldable pub complete_device_flow :
    Crypto → AppState → List (ℕ × DeviceFlowState) → Bool → ℕ → ℕ → ℕ → ℕ → ℕ → AppState × Bool
unfolding find_user create_proxy_token
complete_device_flow crypto app store write_ok user_code user_id token_id row_id now =
    if not app.tokens.reachable then (app, false) else elim (find_user app.tokens user_id) [
      | none ↦ (app, false)
      | some user ↦ elim (create_proxy_token crypto token_id user_id user.email 30 now) [
        | none ↦ (app, false)
        | some token ↦
            if not write_ok
            then (app, false)
            else let tokens = record app.tokens {
              proxy_auth_tokens =
                  app.tokens.proxy_auth_tokens ++ device_token crypto row_id user_id token now ∷ [];
            } in
              elim (find_value (is_open user_code) store) [
                | none ↦ (record app { tokens = tokens }, false)
                | some s ↦ (
                  record app {
                    tokens = tokens;
                    device_flow_store =
                        some (change_first (is_open user_code) (completed user_id token) store);
                  },
                  true,
                )
              ]
      ]
    ]

abbrev pub logged_in : Cookie → String → DeviceFlowApiError ⊎ ℕ
logged_in missing message = inl (unauthorized message)
logged_in malformed message = inl (unauthorized "Invalid session")
logged_in (of_user user_id) message = inr user_id

unfoldable pub device_approve :
    Crypto → AppState → Cookie → Bool → ℕ → ℕ → ℕ → ℕ → AppState × (DeviceFlowApiError ⊎ Unit {0})
device_approve crypto app cookie write_ok user_code token_id row_id now =
    elim (logged_in cookie "You must be logged in to approve device authorization") [
      | inl e ↦ (app, inl e)
      | inr user_id ↦ elim app.device_flow_store [
        | none ↦ (app, inl service_unavailable)
        | some store ↦
            let (app', ok) =
              complete_device_flow crypto app store write_ok user_code user_id token_id row_id
                now in
            (app', if ok then inr tt else inl (not_found "Device code not found or already used"))
      ]
    ]

unfoldable pub device_deny : AppState → Cookie → ℕ → AppState × (DeviceFlowApiError ⊎ Unit {0})
device_deny app cookie user_code =
    elim (logged_in cookie "You must be logged in to deny device authorization") [
      | inl e ↦ (app, inl e)
      | inr user_id ↦ elim app.device_flow_store [
        | none ↦ (app, inl service_unavailable)
        | some store ↦ (
          record app { device_flow_store = some (change_first (is_open user_code) refused store) },
          inr tt,
        )
      ]
    ]

-- The task that runs every sixty seconds: `retain(expires_at > now)`.
unfoldable pub purge : AppState → ℕ → AppState
purge app now = elim app.device_flow_store [
  | none ↦ app
  | some store ↦ record app {
    device_flow_store = some (retain (λ r. ltb now r.1.expires_at) store);
  }
]
