-- ===== src/ProxyTokens.antt =====
-- backend/src/jwt.rs and backend/src/handlers/proxy_tokens.rs: the tokens with which a proxy proves who
-- it acts for. `jsonwebtoken` with the server's secret, and the SHA-256 of a token as a number, are the
-- parameter `Crypto`. A clock reading is an argument in nanoseconds since the epoch, a new `Uuid` an
-- argument, and `extract_user_id` its result; `write_ok` says whether the statement that writes succeeds.
-- The list of a user's tokens and the link that carries a token are left out.
pub mod Validity
pub mod Lifecycle
pub mod Renewal
pub mod Fixture
mod Tests
use claude_code_portal.Prelude.{
  ℕ, ◌+◌, ◌*◌, ◌/◌, ◌≤◌, ◌≡◌, String, Bool, true, false, not, ◌&&◌, List, [], ◌∷◌, ◌++◌, map,
  Option, none, some, ◌⊎◌, inl, inr, ltb, ◌==◌, if◌then◌else◌, find, any,
}
use claude_code_portal.Protocol.{second}

pub record ProxyTokenClaims : Type 0 where
  pub jti : ℕ
  pub sub : ℕ
  pub email : String
  pub iat : ℕ
  pub exp : ℕ
  pub token_type : String

-- The variants without their texts.
pub data JwtError : Type 0 where
  encode invalid expired : JwtError

-- `decode` checks the signature, and that a token is not expired at the time it is given.
pub record Crypto : Type 0 where
  pub encode_claims : ProxyTokenClaims → Option String
  pub decode_claims : ℕ → String → JwtError ⊎ ProxyTokenClaims
  pub sha256 : String → ℕ
  pub decode-encode :
      (claims : ProxyTokenClaims) (token : String) (now : ℕ)
      → encode_claims claims ≡ some token
      → now / second ≤ claims.exp
      → decode_claims now token ≡ inr claims

pub record ProxyAuthToken : Type 0 where
  pub id : ℕ
  pub user_id : ℕ
  pub name : String
  pub token_hash : ℕ
  pub last_used_at : Option ℕ
  pub expires_at : ℕ
  pub revoked : Bool

pub record User : Type 0 where
  pub id : ℕ
  pub email : String
  pub disabled : Bool

-- The two tables; `reachable` says whether the pool gives a connection.
pub record TokenDb : Type 0 where
  pub reachable : Bool
  pub proxy_auth_tokens : List ProxyAuthToken
  pub users : List User

pub data AppError : Type 0 where
  db_pool db_query unauthorized forbidden bad_request not_found internal : AppError

pub record CreateProxyTokenResponse : Type 0 where
  pub id : ℕ
  pub token : String
  pub expires_at : ℕ

abbrev pub day : ℕ
day = 86400 * second

-- chrono's `DateTime::<Utc>::MAX_UTC`, the last nanosecond of the year 262142; a sum beyond it panics.
abbrev pub max_utc : ℕ
max_utc = 8210266876799 * second + 999999999

unfoldable pub find_user : TokenDb → ℕ → Option User
find_user db id = find (λ u. u.id == id) db.users

-- `filter(id.eq(token_id)).filter(user_id.eq(user_id))`.
abbrev pub is_owned : ℕ → ℕ → ProxyAuthToken → Bool
is_owned token_id user_id row = row.id == token_id && row.user_id == user_id

-- An update of the rows that a filter selects.
abbrev pub update_where :
    (ProxyAuthToken → Bool)
    → (ProxyAuthToken → ProxyAuthToken)
    → List ProxyAuthToken
    → List ProxyAuthToken
update_where selects change rows = map (λ row. if selects row then change row else row) rows

module _ (crypto : Crypto) where
  unfoldable pub create_proxy_token : ℕ → ℕ → String → ℕ → ℕ → Option String
  create_proxy_token token_id user_id email expires_in_days now = crypto.encode_claims (record {
    jti = token_id;
    sub = user_id;
    email = email;
    iat = now / second;
    exp = (now + expires_in_days * day) / second;
    token_type = "proxy";
  })

  unfoldable pub verify_proxy_token : ℕ → String → JwtError ⊎ ProxyTokenClaims
  verify_proxy_token now token = crypto.decode_claims now token

  unfoldable pub hash_token : String → ℕ
  hash_token token = crypto.sha256 token

  -- `none` is the panic of the addition when the days lead beyond `max_utc`; `create_proxy_token` makes the
  -- same addition, and its other caller, the device flow, adds thirty days.
  unfoldable pub create_token_handler :
      TokenDb
      → AppError ⊎ ℕ
      → Bool
      → String
      → ℕ
      → ℕ
      → ℕ
      → ℕ
      → TokenDb × Option (AppError ⊎ CreateProxyTokenResponse)
  unfolding create_proxy_token hash_token find_user
  create_token_handler db auth write_ok name expires_in_days token_id row_id now = elim auth [
    | inl e ↦ (db, some (inl e))
    | inr user_id ↦
        if not db.reachable then (db, some (inl db_pool)) else elim (find_user db user_id) [
          | none ↦ (db, some (inl db_query))
          | some user ↦
              if ltb max_utc (now + expires_in_days * day)
              then (db, none)
              else elim (create_proxy_token token_id user_id user.email expires_in_days now) [
                | none ↦ (db, some (inl internal))
                | some token ↦ if not write_ok then (db, some (inl db_query)) else (
                  record db {
                    proxy_auth_tokens =
                        db.proxy_auth_tokens
                        ++ record {
                          id = row_id;
                          user_id = user_id;
                          name = name;
                          token_hash = hash_token token;
                          last_used_at = none;
                          expires_at = now + expires_in_days * day;
                          revoked = false;
                        }
                          ∷ [];
                  },
                  some (
                      inr (record {
                        id = row_id;
                        token = token;
                        expires_at = now + expires_in_days * day;
                      })),
                )
              ]
        ]
  ]

  unfoldable pub revoke_token_handler :
      TokenDb → AppError ⊎ ℕ → Bool → ℕ → TokenDb × (AppError ⊎ Unit {0})
  revoke_token_handler db auth write_ok token_id = elim auth [
    | inl e ↦ (db, inl e)
    | inr user_id ↦
        if not db.reachable
        then (db, inl db_pool)
        else if not write_ok
        then (db, inl db_query)
        else if any (is_owned token_id user_id) db.proxy_auth_tokens
        then (
          record db {
            proxy_auth_tokens =
                update_where (is_owned token_id user_id) (λ row. record row { revoked = true })
                  db.proxy_auth_tokens;
          },
          inr tt,
        )
        else (db, inl not_found)
  ]

  -- `none` is the same panic.
  unfoldable pub renew_token_handler :
      TokenDb
      → AppError ⊎ ℕ
      → Bool
      → ℕ
      → ℕ
      → ℕ
      → ℕ
      → TokenDb × Option (AppError ⊎ CreateProxyTokenResponse)
  unfolding create_proxy_token hash_token find_user
  renew_token_handler db auth write_ok token_id expires_in_days new_token_id now = elim auth [
    | inl e ↦ (db, some (inl e))
    | inr user_id ↦
        if not db.reachable
        then (db, some (inl db_pool))
        else elim (find (is_owned token_id user_id) db.proxy_auth_tokens) [
          | none ↦ (db, some (inl not_found))
          | some existing ↦
              if existing.revoked
              then (db, some (inl bad_request))
              else elim (find_user db user_id) [
                | none ↦ (db, some (inl db_query))
                | some user ↦
                    if ltb max_utc (now + expires_in_days * day)
                    then (db, none)
                    else elim (create_proxy_token new_token_id user_id user.email expires_in_days
                        now) [
                          | none ↦ (db, some (inl internal))
                          | some token ↦ if not write_ok then (db, some (inl db_query)) else (
                            record db {
                              proxy_auth_tokens =
                                  update_where (is_owned token_id user_id)
                                    (λ row. record row {
                                      token_hash = hash_token token;
                                      expires_at = now + expires_in_days * day;
                                    })
                                    db.proxy_auth_tokens;
                            },
                            some (
                                inr (record {
                                  id = token_id;
                                  token = token;
                                  expires_at = now + expires_in_days * day;
                                })),
                          )
                        ]
              ]
        ]
  ]

  -- The signature and expiry, the row by its hash, revocation, the row's expiry, and the user; the time
  -- of use is written.
  unfoldable pub verify_and_get_user : TokenDb → ℕ → String → TokenDb × (AppError ⊎ (ℕ × String))
  unfolding verify_proxy_token hash_token find_user
  verify_and_get_user db now token = elim (verify_proxy_token now token) [
    | inl e ↦ (db, inl unauthorized)
    | inr claims ↦ elim (find (λ row. row.token_hash == hash_token token) db.proxy_auth_tokens) [
      | none ↦ (db, inl unauthorized)
      | some db_token ↦
          if db_token.revoked
          then (db, inl unauthorized)
          else if ltb db_token.expires_at now
          then (db, inl unauthorized)
          else elim (find_user db claims.sub) [
            | none ↦ (db, inl unauthorized)
            | some user ↦ if user.disabled then (db, inl forbidden) else (
              record db {
                proxy_auth_tokens =
                    update_where (λ row. row.id == db_token.id)
                      (λ row. record row { last_used_at = some now }) db.proxy_auth_tokens;
              },
              inr (claims.sub, claims.email),
            )
          ]
    ]
  ]
