-- ===== src/ProxyTokens/Tests.antt =====
-- Tokens on a server that signs one.
use claude_code_portal.Prelude.{
  ◌≡◌, refl, true, false, some, none, ◌==◌, ◌&&◌, inl, inr, arith, not, find, ◌↔◌,
}
use claude_code_portal.Protocol.{second}
use claude_code_portal.ProxyTokens.{
  is_owned, unauthorized, day, create_token_handler, revoke_token_handler, verify_and_get_user,
  create_proxy_token,
}
use claude_code_portal.ProxyTokens.Validity.{row_of, IsValid, verify_and_get_user-IsValid}
use claude_code_portal.ProxyTokens.Lifecycle.{revoke_token_handler_refuses}
use claude_code_portal.ProxyTokens.Renewal.{create_token_handler_accepted}
use claude_code_portal.ProxyTokens.Fixture.{
  sha, signer, signs, is_same, ann, old_row, office, ann_known,
}

ann_signed : create_proxy_token (signer 1) 5 3 "ann@example.org" 1 0 ≡ some "new"
unfolding create_proxy_token signs is_same
ann_signed = refl

fresh : row_of (signer 1) office "new" ≡ none
unfolding is_same
fresh = refl

old_stored : row_of (signer 1) office "old" ≡ some old_row
unfolding is_same
old_stored = refl

differ : (sha "new" == sha "old") ≡ false
unfolding is_same
differ = refl

only :
    find (λ r. (r.token_hash == sha "old") && not (is_owned 40 3 r)) office.proxy_auth_tokens ≡ none
unfolding is_same
only = refl

create_token_handler_accepted_example :
    let (db, result) = create_token_handler (signer 1) office (inr 3) true "desk" 1 5 41 0 in
    (result ≡ some (inr (record { id = 41; token = "new"; expires_at = day })))
    × ((verify_and_get_user (signer 1) db second "new").1 ≡ inr (3, "ann@example.org"))
create_token_handler_accepted_example =
    create_token_handler_accepted (signer 1) office 3 5 1 0 second ann "new" refl ann_known refl
      ann_signed fresh (omega arith) (omega arith) "desk" 41

revoke_token_handler_refuses_example :
    let (db, result) = revoke_token_handler (signer 1) office (inr 3) true 40 in
    (result ≡ inr tt) × ((verify_and_get_user (signer 1) db second "old").1 ≡ inl unauthorized)
revoke_token_handler_refuses_example =
    revoke_token_handler_refuses (signer 1) office 3 40 second "old" old_row refl old_stored refl

verify_and_get_user-IsValid_example :
    IsValid (signer 1) office 0 "old" 3 "ann@example.org"
    ↔ ((verify_and_get_user (signer 1) office 0 "old").1 ≡ inr (3, "ann@example.org"))
verify_and_get_user-IsValid_example =
    verify_and_get_user-IsValid (signer 1) office 0 "old" 3 "ann@example.org"
