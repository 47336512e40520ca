-- ===== src/Registration/Ownership.antt =====
-- Whose sessions a registration makes, and what it needs for that.
use claude_code_portal.Prelude.{
  ℕ, ◌≡◌, refl, sym, ap, ◌∙◌, String, Bool, true, false, not, ◌&&◌, List, Option, none, some, ◌⊎◌,
  inl, inr, if◌then◌else◌, lookup, lookup-insert, lookup-insert_same, Bool-cases, Option-cases,
  Sum-cases, arith, ◌==◌,
}
use mathlib.Core.Path.{subst}
use mathlib.Core.Option.{some-injective}
use claude_code_portal.SessionManager.Connections.{is_some}
use claude_code_portal.ProxyTokens.{Crypto, TokenDb, verify_and_get_user}
use claude_code_portal.Registration.{
  RegistrationParams, Session, RegistrationDb, Statements, update_session, mark_replaced, succeeded,
  reactivated, new_session, get_user_id_from_token, create_new_session, register_or_update_session,
}

-- A token that is accepted for the user, or else the test user of dev mode.
abbrev pub Authenticates : Crypto → Option ℕ → TokenDb → ℕ → Option String → ℕ → Type 0
Authenticates crypto dev_user tokens now auth_token user =
    ((token : String) × (email : String) × (auth_token ≡ some token)
      × ((verify_and_get_user crypto tokens now token).1 ≡ inr (user, email)))
    ⊎ (dev_user ≡ some user)

lookup-update_session-none :
    (id k : ℕ) (change : Session → Session) (sessions : List (ℕ × Session))
    → lookup k sessions ≡ none
    → lookup k (update_session id change sessions) ≡ none
lookup-update_session-none id k change sessions h = elim (Option-cases (lookup id sessions)) [
  | inl e ↦ rw (e, update_session) h
  | inr (s, e) ↦
      rw (e, update_session)
        (elim (Bool-cases (id == k)) [
          | inl same ↦
              let same : id ≡ k = ground (arith, same) in
              let clash = sym e ∙ ap (λ j. lookup j sessions) same ∙ h in cc
          | inr other ↦ lookup-insert id k (change s) sessions ∙ rw other h
        ])
]

mark_replaced-tokens :
    (db : RegistrationDb) (st : Statements) (replaces : Option ℕ)
    → (mark_replaced db st replaces).tokens ≡ db.tokens
unfolding mark_replaced
mark_replaced-tokens db st none = refl
mark_replaced-tokens db st (some old) = ground arith

lookup-mark_replaced-none :
    (db : RegistrationDb) (st : Statements) (replaces : Option ℕ) (k : ℕ)
    → lookup k db.sessions ≡ none
    → lookup k (mark_replaced db st replaces).sessions ≡ none
unfolding mark_replaced
lookup-mark_replaced-none db st none k h = h
lookup-mark_replaced-none db st (some old) k h = elim (Bool-cases st.marks) [
  | inl e ↦ rw (e, mark_replaced) (lookup-update_session-none old k _ db.sessions h)
  | inr e ↦ rw (e, mark_replaced) h
]

module _ (crypto : Crypto) (dev_user : Option ℕ) where
  get_user_id_from_token-Authenticates :
      (db : RegistrationDb) (connects : Bool) (auth_token : Option String) (now user : ℕ)
      → (get_user_id_from_token crypto dev_user db connects auth_token now).1 ≡ some user
      → Authenticates crypto dev_user db.tokens now auth_token user
  unfolding get_user_id_from_token
  get_user_id_from_token-Authenticates db false auth_token now user e = cc
  get_user_id_from_token-Authenticates db true none now user e = inr e
  get_user_id_from_token-Authenticates db true (some token) now user e =
      elim (Sum-cases (verify_and_get_user crypto db.tokens now token).1) [
        | inl (_, r) ↦ inr (rw (r, get_user_id_from_token) at e)
        | inr ((u, email), r) ↦
            let same : u ≡ user = some-injective u user (rw (r, get_user_id_from_token) at e) in
            inl (token, email, refl, r ∙ rw same refl)
      ]

  create_new_session-Authenticates :
      (db : RegistrationDb) (st : Statements) (p : RegistrationParams) (now : ℕ)
      → let (db', result) = create_new_session crypto dev_user db st p now in
        result.success ≡ true
        → (user : ℕ) × Authenticates crypto dev_user db.tokens now p.auth_token user
          × (lookup p.claude_session_id db'.sessions ≡ some (new_session p user now))
  unfolding create_new_session
  create_new_session-Authenticates db st p now ok =
      elim (Option-cases
        (get_user_id_from_token crypto dev_user db st.second_connection p.auth_token now).1) [
          | inl e ↦ let no = rw (e, create_new_session) at ok in cc
          | inr (user, e) ↦ (
            user,
            get_user_id_from_token-Authenticates db st.second_connection p.auth_token now user e,
            elim (Bool-cases (
                st.inserts
                && not (
                    is_some (
                      lookup p.claude_session_id
                        (get_user_id_from_token crypto dev_user db st.second_connection p.auth_token
                          now).0.sessions)))) [
                            | inl t ↦
                                rw (e, t, create_new_session)
                                  (lookup-insert_same p.claude_session_id _ _)
                            | inr f ↦ let no = rw (e, f, create_new_session) at ok in cc
                          ],
          )
        ]

  register_or_update_session_new :
      (db : RegistrationDb) (st : Statements) (p : RegistrationParams) (now : ℕ)
      → db.tokens.reachable ≡ true
      → (if st.reads
          then lookup p.claude_session_id (mark_replaced db st p.replaces_session_id).sessions
          else none)
        ≡ none
      → register_or_update_session crypto dev_user db st p now
        ≡ create_new_session crypto dev_user (mark_replaced db st p.replaces_session_id) st p now
  unfolding register_or_update_session
  register_or_update_session_new db st p now alive missing =
      rw (missing, alive, register_or_update_session) refl

  unread : (b : Bool) (o : Option Session) → o ≡ none → (if b then o else none) ≡ none
  unread true o e = e
  unread false o e = refl

  -- A registration of a session that the database does not have succeeds only for a token that is
  -- accepted, or in dev mode, and the session is then its user's.
  pub register_or_update_session-Authenticates :
      (db : RegistrationDb) (st : Statements) (p : RegistrationParams) (now : ℕ)
      → lookup p.claude_session_id db.sessions ≡ none
      → let (db', result) = register_or_update_session crypto dev_user db st p now in
        result.success ≡ true
        → (user : ℕ) × Authenticates crypto dev_user db.tokens now p.auth_token user
          × (lookup p.claude_session_id db'.sessions ≡ some (new_session p user now))
  unfolding register_or_update_session
  register_or_update_session-Authenticates db st p now missing ok =
      elim (Bool-cases db.tokens.reachable) [
        | inl alive ↦
            let marked = mark_replaced db st p.replaces_session_id in
            let same = register_or_update_session_new db st p now alive (
              unread st.reads _ (
                lookup-mark_replaced-none db st p.replaces_session_id p.claude_session_id
                  missing)) in
            let (user, authentic, stored) =
              create_new_session-Authenticates marked st p now
                (ap (λ x. x.1.success) (sym same) ∙ ok) in
            (
              user,
              subst (λ tokens. Authenticates crypto dev_user tokens now p.auth_token user)
                  (mark_replaced-tokens db st p.replaces_session_id) authentic,
              ap (λ x. lookup p.claude_session_id x.0.sessions) same ∙ stored,
            )
        | inr dead ↦ let no = rw (dead, register_or_update_session) at ok in cc
      ]

  -- A registration of a session that the database has, when its statements succeed, is not
  -- authenticated: it does and answers the same whatever token comes with it, and succeeds without
  -- any.
  pub register_or_update_session_ignores_token :
      (db : RegistrationDb) (st : Statements) (p : RegistrationParams) (now : ℕ)
      (existing : Session) (token : Option String)
      → db.tokens.reachable ≡ true
      → st.reads ≡ true
      → st.updates ≡ true
      → lookup p.claude_session_id (mark_replaced db st p.replaces_session_id).sessions
        ≡ some existing
      → let (db', result) =
          register_or_update_session crypto dev_user db st (record p { auth_token = token }) now in
        ((db', result) ≡ register_or_update_session crypto dev_user db st p now)
        × (result ≡ succeeded p.claude_session_id)
        × (lookup p.claude_session_id db'.sessions ≡ some (reactivated p now existing))
  unfolding register_or_update_session reactivated
  register_or_update_session_ignores_token db st p now existing token alive reads updates known =
      rw (known, reads, alive, updates) (refl, refl, lookup-insert_same p.claude_session_id _ _)
