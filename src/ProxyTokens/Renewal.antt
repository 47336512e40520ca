-- ===== src/ProxyTokens/Renewal.antt =====
-- The tokens that creation and renewal give, and the one that a renewal replaces.
use claude_code_portal.Prelude.{
  ℕ, ◌+◌, ◌*◌, ◌/◌, ◌≤◌, ◌≡◌, refl, sym, ◌∙◌, String, Bool, true, false, not, ◌&&◌, List, [], ◌∷◌,
  none, some, inl, inr, le→ltb_false, ◌==◌, ==_refl, find, arith,
}
use claude_code_portal.Protocol.{second}
use claude_code_portal.ProxyTokens.{
  Crypto, ProxyTokenClaims, ProxyAuthToken, User, TokenDb, unauthorized, day, max_utc, find_user,
  is_owned, update_where, create_proxy_token, hash_token, create_token_handler, renew_token_handler,
  verify_and_get_user,
}
use claude_code_portal.ProxyTokens.Validity.{row_of, verify_and_get_user-IsValid}
use claude_code_portal.ProxyTokens.Lifecycle.{find-append, refused}

find-update_where-none :
    (p selects : ProxyAuthToken → Bool) (change : ProxyAuthToken → ProxyAuthToken)
    (rows : List ProxyAuthToken)
    → ((row : ProxyAuthToken) → p (change row) ≡ false)
    → find (λ row. p row && not (selects row)) rows ≡ none
    → find p (update_where selects change rows) ≡ none
find-update_where-none p selects change [] gone e = refl
find-update_where-none p selects change (r ∷ rs) gone e =
    ground (arith, e, gone r, find-update_where-none p selects change rs gone)

find-update_where-some :
    (p selects : ProxyAuthToken → Bool) (change : ProxyAuthToken → ProxyAuthToken)
    (rows : List ProxyAuthToken) (row : ProxyAuthToken)
    → ((r : ProxyAuthToken) → p (change r) ≡ true)
    → find p rows ≡ none
    → find selects rows ≡ some row
    → find p (update_where selects change rows) ≡ some (change row)
find-update_where-some p selects change [] row made fresh e = cc
find-update_where-some p selects change (r ∷ rs) row made fresh e =
    ground (arith, e, fresh, made r, find-update_where-some p selects change rs row made)

module _ (crypto : Crypto) where
  -- The claims that `create_proxy_token` signs.
  abbrev claims_of : ℕ → ℕ → String → ℕ → ℕ → ProxyTokenClaims
  claims_of token_id user_id email days now = record {
    jti = token_id;
    sub = user_id;
    email = email;
    iat = now / second;
    exp = (now + days * day) / second;
    token_type = "proxy";
  }

  -- A token whose row is stored and not revoked is accepted until it expires.
  pub issued :
      (db : TokenDb) (user_id token_id days now later : ℕ) (user : User) (token : String)
      (row : ProxyAuthToken)
      → create_proxy_token crypto token_id user_id user.email days now ≡ some token
      → later ≤ now + days * day
      → find_user db user_id ≡ some user
      → user.disabled ≡ false
      → row_of crypto db token ≡ some row
      → row.revoked ≡ false
      → row.expires_at ≡ now + days * day
      → (verify_and_get_user crypto db later token).1 ≡ inr (user_id, user.email)
  unfolding create_proxy_token
  issued db user_id token_id days now later user token row made early known enabled stored live
        until =
      (verify_and_get_user-IsValid crypto db later token user_id user.email).0 (record {
        claims = claims_of token_id user_id user.email days now;
        row = row;
        user = user;
        signed =
            crypto.decode-encode (claims_of token_id user_id user.email days now) token later made
              (omega arith);
        sub = refl;
        named = refl;
        stored = stored;
        unrevoked = live;
        unexpired = le→ltb_false row.expires_at later (omega arith);
        known = known;
        enabled = enabled;
      })

  module _ (db : TokenDb) (user_id token_id days now later : ℕ) (user : User) (token : String)
      (alive : db.reachable ≡ true) (known : find_user db user_id ≡ some user)
      (enabled : user.disabled ≡ false)
      (made : create_proxy_token crypto token_id user_id user.email days now ≡ some token)
      (fresh : row_of crypto db token ≡ none) (early : later ≤ now + days * day)
      (fits : now + days * day ≤ max_utc) where
    -- A token that is made for a known user who is not disabled, with the database at hand and days
    -- that end within chrono's calendar, is answered, and accepted for that user until it expires, if
    -- no row had its hash before.
    pub create_token_handler_accepted :
        (name : String) (row_id : ℕ)
        → let (db', result) =
            create_token_handler crypto db (inr user_id) true name days token_id row_id now in
          (result
            ≡ some (inr (record { id = row_id; token = token; expires_at = now + days * day })))
          × ((verify_and_get_user crypto db' later token).1 ≡ inr (user_id, user.email))
    unfolding create_token_handler
    create_token_handler_accepted name row_id =
        rw (alive, known, le→ltb_false max_utc (now + days * day) fits, made)
          (
            refl,
            issued _ user_id token_id days now later user token _ made early known enabled
                (find-append _ db.proxy_auth_tokens _ fresh (==_refl _)) refl refl,
          )

    -- A renewal by the owner of a token that is not revoked, with the database at hand and days that
    -- end within chrono's calendar, replaces
    -- it: from then on the new token is accepted for the user until it expires, and the old one is
    -- refused, if no row had the new hash, no other row has the old one, and the two differ.
    pub renew_token_handler_replaces :
        (id : ℕ) (existing : ProxyAuthToken) (old : String)
        → find (is_owned id user_id) db.proxy_auth_tokens ≡ some existing
        → existing.revoked ≡ false
        → (crypto.sha256 token == crypto.sha256 old) ≡ false
        → find
            (λ r. r.token_hash == crypto.sha256 old && not (is_owned id user_id r))
            db.proxy_auth_tokens
          ≡ none
        → let (db', result) =
            renew_token_handler crypto db (inr user_id) true id days token_id now in
          ((verify_and_get_user crypto db' later token).1 ≡ inr (user_id, user.email))
          × ((verify_and_get_user crypto db' later old).1 ≡ inl unauthorized)
    unfolding renew_token_handler hash_token
    renew_token_handler_replaces id existing old owned live differ only =
        let change : ProxyAuthToken → ProxyAuthToken =
          λ r. record r { token_hash = crypto.sha256 token; expires_at = now + days * day } in
        rw (alive, owned, live, known, le→ltb_false max_utc (now + days * day) fits, made)
          (
            issued _ user_id token_id days now later user token (change existing) made early known
                enabled
                (find-update_where-some _ (is_owned id user_id) change db.proxy_auth_tokens existing
                  (λ r. ==_refl (crypto.sha256 token)) fresh owned)
                live refl,
            refused crypto _ later old (λ row e.
                let gone =
                  find-update_where-none _ (is_owned id user_id) change db.proxy_auth_tokens
                    (λ r. differ) only in
                let clash = sym gone ∙ e in cc),
          )
