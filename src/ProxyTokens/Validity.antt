-- ===== src/ProxyTokens/Validity.antt =====
-- When a token is accepted.
use claude_code_portal.Prelude.{
  ℕ, ◌≡◌, ◌↔◌, refl, String, false, Option, some, inl, inr, ltb, ◌==◌, find, Bool-cases,
  Option-cases, Sum-cases,
}
use claude_code_portal.ProxyTokens.{
  Crypto, ProxyTokenClaims, ProxyAuthToken, User, TokenDb, find_user, verify_proxy_token,
  hash_token, verify_and_get_user,
}

module _ (crypto : Crypto) where
  -- The first row with the token's hash.
  abbrev pub row_of : TokenDb → String → Option ProxyAuthToken
  row_of db token = find (λ row. row.token_hash == crypto.sha256 token) db.proxy_auth_tokens

  -- The token is signed and unexpired; its row is there, not revoked and not expired; and the user whom
  -- it names is there and not disabled.
  pub record IsValid (db : TokenDb) (now : ℕ) (token : String) (id : ℕ) (email : String)
      : Type 0 where
    pub claims : ProxyTokenClaims
    pub row : ProxyAuthToken
    pub user : User
    pub signed : crypto.decode_claims now token ≡ inr claims
    pub sub : claims.sub ≡ id
    pub named : claims.email ≡ email
    pub stored : row_of db token ≡ some row
    pub unrevoked : row.revoked ≡ false
    pub unexpired : ltb row.expires_at now ≡ false
    pub known : find_user db claims.sub ≡ some user
    pub enabled : user.disabled ≡ false

  verify_valid :
      (db : TokenDb) (now : ℕ) (token : String) (id : ℕ) (email : String)
      → IsValid db now token id email
      → (verify_and_get_user crypto db now token).1 ≡ inr (id, email)
  unfolding verify_and_get_user verify_proxy_token hash_token find_user
  verify_valid db now token id email v =
      rw
        (
          v.signed, verify_and_get_user, v.stored, v.unrevoked, v.unexpired, v.known, v.enabled,
          v.sub, v.named,
        )
        refl

  verified :
      (db : TokenDb) (now : ℕ) (token : String) (id : ℕ) (email : String)
      → (verify_and_get_user crypto db now token).1 ≡ inr (id, email)
      → IsValid db now token id email
  unfolding verify_and_get_user verify_proxy_token hash_token find_user
  verified db now token id email e = elim (Sum-cases (crypto.decode_claims now token)) [
    | inl (_, d) ↦ let f = (rw (d, verify_and_get_user) at e) in cc
    | inr (claims, d) ↦ elim (Option-cases (row_of db token)) [
      | inl r ↦ let f = (rw (d, r, verify_and_get_user) at e) in cc
      | inr (row, r) ↦ elim (Bool-cases row.revoked) [
        | inl v ↦ let f = (rw (d, r, v, verify_and_get_user) at e) in cc
        | inr v ↦ elim (Bool-cases (ltb row.expires_at now)) [
          | inl l ↦ let f = (rw (d, r, v, l, verify_and_get_user) at e) in cc
          | inr l ↦ elim (Option-cases (find_user db claims.sub)) [
            | inl u ↦ let f = (rw (d, r, v, l, u, verify_and_get_user) at e) in cc
            | inr (user, u) ↦ elim (Bool-cases user.disabled) [
              | inl b ↦ let f = (rw (d, r, v, l, u, b, verify_and_get_user) at e) in cc
              | inr b ↦
                  let f = (rw (d, r, v, l, u, b, verify_and_get_user) at e) in
                  record {
                    claims = claims;
                    row = row;
                    user = user;
                    signed = d;
                    sub = cc;
                    named = cc;
                    stored = r;
                    unrevoked = v;
                    unexpired = l;
                    known = u;
                    enabled = b;
                  }
            ]
          ]
        ]
      ]
    ]
  ]

  -- A token is accepted for a user and an address exactly when it is valid for them: it is signed
  -- and unexpired and names them, its row is there, neither revoked nor expired, and the user is
  -- there and not disabled.
  pub verify_and_get_user-IsValid :
      (db : TokenDb) (now : ℕ) (token : String) (id : ℕ) (email : String)
      → IsValid db now token id email
        ↔ ((verify_and_get_user crypto db now token).1 ≡ inr (id, email))
  verify_and_get_user-IsValid db now token id email =
      (verify_valid db now token id email, verified db now token id email)
