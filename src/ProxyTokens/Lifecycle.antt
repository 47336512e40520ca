-- ===== src/ProxyTokens/Lifecycle.antt =====
-- What creation, revocation and renewal do to the tokens that are accepted.
use claude_code_portal.Prelude.{
  ℕ, ◌≡◌, refl, sym, ap, ◌∙◌, String, Bool, true, List, [], ◌∷◌, ◌++◌, none, some, inl, inr, ◌==◌,
  if◌then◌else◌, find, any, arith, Bool-cases, Option-cases, Sum-cases,
}
use mathlib.Core.Option.{some-injective}
use claude_code_portal.ProxyTokens.{
  Crypto, ProxyAuthToken, TokenDb, unauthorized, is_owned, update_where, verify_proxy_token,
  hash_token, revoke_token_handler, verify_and_get_user,
}
use claude_code_portal.ProxyTokens.Validity.{row_of}

pub find-append :
    (p : ProxyAuthToken → Bool) (rows : List ProxyAuthToken) (row : ProxyAuthToken)
    → find p rows ≡ none
    → p row ≡ true
    → find p (rows ++ row ∷ []) ≡ some row
find-append p [] row e h = rw h refl
find-append p (r ∷ rs) row e h = ground (arith, e, h, find-append p rs row)

find-update_where :
    (p selects : ProxyAuthToken → Bool) (change : ProxyAuthToken → ProxyAuthToken)
    (rows : List ProxyAuthToken)
    → ((row : ProxyAuthToken) → p (change row) ≡ p row)
    → find p (update_where selects change rows) ≡ elim (find p rows) [
      | none ↦ none
      | some row ↦ some (if selects row then change row else row)
    ]
find-update_where p selects change [] same = refl
find-update_where p selects change (r ∷ rs) same =
    ground (arith, same r, find-update_where p selects change rs same)

find→any :
    (p q : ProxyAuthToken → Bool) (rows : List ProxyAuthToken) (row : ProxyAuthToken)
    → find p rows ≡ some row
    → q row ≡ true
    → any q rows ≡ true
find→any p q [] row e h = cc
find→any p q (r ∷ rs) row e h = elim (Bool-cases (q r)) [
  | inl t ↦ rw t refl
  | inr f ↦ rw f (elim (Bool-cases (p r)) [
    | inl t ↦ let i = ap q (some-injective r row (rw t at e)) in absurd (ground (arith, i, f, h))
    | inr u ↦ find→any p q rs row (rw u at e) h
  ])
]

module _ (crypto : Crypto) where
  -- Without a row of its own that is not revoked, a token is refused.
  pub refused :
      (db : TokenDb) (now : ℕ) (token : String)
      → ((row : ProxyAuthToken) → row_of crypto db token ≡ some row → row.revoked ≡ true)
      → (verify_and_get_user crypto db now token).1 ≡ inl unauthorized
  unfolding verify_and_get_user verify_proxy_token hash_token
  refused db now token dead = elim (Sum-cases (crypto.decode_claims now token)) [
    | inl (_, d) ↦ rw (d, verify_and_get_user) refl
    | inr (claims, d) ↦ elim (Option-cases (row_of crypto db token)) [
      | inl r ↦ rw (d, r, verify_and_get_user) refl
      | inr (row, r) ↦ rw (d, r, verify_and_get_user, dead row r) refl
    ]
  ]

  revoked_row :
      (db : TokenDb) (user_id token_id : ℕ) (token : String) (row : ProxyAuthToken)
      → row_of crypto db token ≡ some row
      → is_owned token_id user_id row ≡ true
      → find
          (λ r. r.token_hash == crypto.sha256 token)
          (update_where
            (is_owned token_id user_id)
            (λ r. record r { revoked = true })
            db.proxy_auth_tokens)
        ≡ some (record row { revoked = true })
  revoked_row db user_id token_id token row stored owned =
      find-update_where (λ r. r.token_hash == crypto.sha256 token) (is_owned token_id user_id)
        (λ r. record r { revoked = true }) db.proxy_auth_tokens (λ r. refl)
      ∙ rw (stored, owned) refl

  -- After its owner has revoked the row of a token, with the database at hand, the token is refused
  -- at every time.
  pub revoke_token_handler_refuses :
      (db : TokenDb) (user_id token_id now : ℕ) (token : String) (row : ProxyAuthToken)
      → db.reachable ≡ true
      → row_of crypto db token ≡ some row
      → is_owned token_id user_id row ≡ true
      → let (db', result) = revoke_token_handler crypto db (inr user_id) true token_id in
        (result ≡ inr tt) × ((verify_and_get_user crypto db' now token).1 ≡ inl unauthorized)
  unfolding revoke_token_handler
  revoke_token_handler_refuses db user_id token_id now token row alive stored owned =
      rw
        (
          alive,
          find→any (λ r. r.token_hash == crypto.sha256 token) (is_owned token_id user_id)
              db.proxy_auth_tokens row stored owned,
        )
        (
          refl,
          refused _ now token (λ r e. sym (
              ap (λ x. x.revoked)
                (some-injective (record row { revoked = true }) r
                  (sym (revoked_row db user_id token_id token row stored owned) ∙ e)))),
        )
