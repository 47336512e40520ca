-- ===== src/ProxyTokens/Fixture.antt =====
-- A server for tests of proxy_tokens.rs and device_flow.rs, which signs one token.
use claude_code_portal.Prelude.{
  ℕ, ◌*◌, ◌/◌, ◌≤◌, ◌≡◌, refl, sym, le→leb, String, Bool, true, false, [], ◌∷◌, some, none, ◌==◌,
  ◌&&◌, ◌⊎◌, inl, inr, arith, leb, if◌then◌else◌, Bool-cases,
}
use Prim.Native.Nat.{Ordering, lt, eq, gt}
use mathlib.Core.Path.{subst}
use Prim.Native.String.{compare}
use text.Mathlib.TextEquality.{path_by_compare}
use claude_code_portal.Protocol.{second}
use claude_code_portal.ProxyTokens.{
  Crypto, JwtError, expired, ProxyTokenClaims, ProxyAuthToken, User, TokenDb, day, find_user,
}

by_order :
    (o : Ordering) → elim o as (λ x. Bool) [ lt ↦ false | eq ↦ true | gt ↦ false ] ≡ true → o ≡ eq
by_order lt e = cc
by_order eq e = refl
by_order gt e = cc

-- One token, for user 3, that expires after some days.
abbrev pub claims : ℕ → ProxyTokenClaims
claims days = record {
  jti = 5;
  sub = 3;
  email = "ann@example.org";
  iat = 0;
  exp = days * 86400;
  token_type = "proxy";
}

unfoldable pub is_same : String → String → Bool
is_same s t = elim (compare s t) [ lt ↦ false | eq ↦ true | gt ↦ false ]

is_same→≡ : (s t : String) → is_same s t ≡ true → s ≡ t
unfolding is_same
is_same→≡ s t e = path_by_compare s t (by_order (compare s t) e)

unfoldable pub signs : ℕ → ProxyTokenClaims → Bool
signs days c =
    c.jti == 5
    && c.sub == 3
    && c.iat == 0
    && c.exp == days * 86400
    && is_same c.email "ann@example.org"
    && is_same c.token_type "proxy"

signs→≡ : (days : ℕ) (c : ProxyTokenClaims) → signs days c ≡ true → c ≡ claims days
unfolding signs
signs→≡ days c e =
    let jti : c.jti ≡ 5 = ground (arith, e) in
    let sub : c.sub ≡ 3 = ground (arith, e) in
    let iat : c.iat ≡ 0 = ground (arith, e) in
    let exp : c.exp ≡ days * 86400 = ground (arith, e) in
    let email : is_same c.email "ann@example.org" ≡ true = ground (arith, e) in
    let kind : is_same c.token_type "proxy" ≡ true = ground (arith, e) in
    λ i. record {
      jti = jti i;
      sub = sub i;
      email = is_same→≡ _ _ email i;
      iat = iat i;
      exp = exp i;
      token_type = is_same→≡ _ _ kind i;
    }

unfoldable pub decoded : ℕ → ℕ → JwtError ⊎ ProxyTokenClaims
decoded days now = if leb (now / second) (days * 86400) then inr (claims days) else inl expired

pub decodes :
    (days : ℕ) (c : ProxyTokenClaims) (token : String) (now : ℕ)
    → (if signs days c then some "new" else none) ≡ some token
    → now / second ≤ c.exp
    → decoded days now ≡ inr c
unfolding decoded
decodes days c token now e early = elim (Bool-cases (signs days c)) [
  | inl t ↦
      subst (λ d. now / second ≤ d.exp → decoded days now ≡ inr d) (sym (signs→≡ days c t))
        (λ h. rw (le→leb (now / second) (days * 86400) h) refl) early
  | inr f ↦ let g = (rw f at e) in cc
]

abbrev pub sha : String → ℕ
sha token = if is_same token "new" then 1 else 2

abbrev pub signer : ℕ → Crypto
signer days = record {
  encode_claims = λ c. if signs days c then some "new" else none;
  decode_claims = λ now token. decoded days now;
  sha256 = sha;
  decode-encode = decodes days;
}

abbrev pub ann : User
ann = record { id = 3; email = "ann@example.org"; disabled = false }

abbrev pub old_row : ProxyAuthToken
old_row = record {
  id = 40;
  user_id = 3;
  name = "laptop";
  token_hash = 2;
  last_used_at = none;
  expires_at = day;
  revoked = false;
}

abbrev pub office : TokenDb
office = record { reachable = true; proxy_auth_tokens = old_row ∷ []; users = ann ∷ [] }

pub ann_known : find_user office 3 ≡ some ann
unfolding find_user
ann_known = refl
