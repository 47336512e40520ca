-- ===== src/DeviceFlow/Orphans.antt =====
-- An approval of a code for which nothing waits.
use claude_code_portal.Prelude.{
  ℕ, ◌≡◌, refl, ◌+◌, ◌*◌, ◌≤◌, String, true, false, List, [], ◌∷◌, ◌++◌, none, some, inl, inr,
  ==_refl,
}
use claude_code_portal.ProxyTokens.{
  Crypto, User, TokenDb, find_user, day, create_proxy_token, verify_and_get_user, hash_token,
}
use claude_code_portal.ProxyTokens.Validity.{row_of}
use claude_code_portal.ProxyTokens.Lifecycle.{find-append}
use claude_code_portal.ProxyTokens.Renewal.{issued}
use claude_code_portal.DeviceFlow.{
  DeviceFlowState, not_found, of_user, is_open, find_value, device_token, complete_device_flow,
  device_approve,
}
use claude_code_portal.DeviceFlow.Poll.{app_of}

-- An approval, by a known user who is not disabled and with the database at hand, of a code that no
-- pending request has is answered with an error and leaves the store as it was, and yet a new token of the
-- user is in the database, and a proxy that shows it within thirty days is accepted as the user, if no row
-- had its hash before.
pub device_approve_orphan :
    (crypto : Crypto) (store : List (ℕ × DeviceFlowState)) (tokens : TokenDb)
    (user_code user_id token_id row_id now later : ℕ) (user : User) (token : String)
    → tokens.reachable ≡ true
    → find_user tokens user_id ≡ some user
    → create_proxy_token crypto token_id user_id user.email 30 now ≡ some token
    → find_value (is_open user_code) store ≡ none
    → user.disabled ≡ false
    → row_of crypto tokens token ≡ none
    → later ≤ now + 30 * day
    → let (app, result) =
        device_approve crypto
          (app_of (some store) tokens)
          (of_user user_id)
          true
          user_code
          token_id
          row_id
          now in
      (result ≡ inl (not_found "Device code not found or already used"))
      × (app.device_flow_store ≡ some store)
      × (app.tokens.proxy_auth_tokens
          ≡ tokens.proxy_auth_tokens ++ device_token crypto row_id user_id token now ∷ [])
      × ((verify_and_get_user crypto app.tokens later token).1 ≡ inr (user_id, user.email))
unfolding device_approve complete_device_flow hash_token find_user device_token verify_and_get_user
device_approve_orphan crypto store tokens user_code user_id token_id row_id now later user token
      alive known made missing enabled fresh early =
    rw (known, made, missing, alive)
      (
        refl,
        refl,
        refl,
        issued crypto _ user_id token_id 30 now later user token _ made early known enabled
            (find-append _ tokens.proxy_auth_tokens _ fresh (==_refl _)) refl refl,
      )
