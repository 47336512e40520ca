-- ===== src/DeviceFlow/Refused.antt =====
-- What is under a code is denied or expired, or its time is over.
use claude_code_portal.Prelude.{
  ℕ, ◌≤◌, ◌<◌, ◌≡◌, ◌≢◌, refl, sym, ◌∙◌, Bool, true, false, List, [], ◌∷◌, Option, none, some, ◌⊎◌,
  inl, inr, ◌==◌, ltb, retain, lookup, insert, Bool-cases, arith,
}
use mathlib.Core.Option.{some-injective}
use mathlib.Core.Path.{subst}
use claude_code_portal.ProxyTokens.{TokenDb}
use claude_code_portal.DeviceFlow.{
  DeviceFlowApiError, DeviceFlowState, DeviceFlowStatus, PollResponse, is_open, check_expiration,
  change_first, poll_response,
}
use claude_code_portal.DeviceFlow.Approval.{Op, requests}

abbrev pub is_refused : DeviceFlowStatus → Bool
is_refused DeviceFlowStatus.pending = false
is_refused DeviceFlowStatus.complete = false
is_refused DeviceFlowStatus.expired = true
is_refused DeviceFlowStatus.denied = true

-- The request was denied, or it is marked as expired, or its time is over before `since`.
abbrev pub IsOver : ℕ → DeviceFlowState → Type 0
IsOver since s = (is_refused s.status ≡ true) ⊎ (s.expires_at < since)

-- What is under the code is over.
abbrev pub RefusedAt : ℕ → ℕ → List (ℕ × DeviceFlowState) → Type 0
RefusedAt since code [] = Unit {0}
RefusedAt since code ((k, s) ∷ m) = (k ≡ code → IsOver since s) × RefusedAt since code m

-- No request is for the code.
abbrev pub NotRequested : ℕ → List Op → Type 0
NotRequested code [] = Unit {0}
NotRequested code (requests c user_code hostname directory now ∷ ops) =
    (c ≢ code) × NotRequested code ops
NotRequested code (op ∷ ops) = NotRequested code ops

-- An error, or the answer that the request was denied or has expired.
abbrev pub is_final : DeviceFlowApiError ⊎ PollResponse → Bool
is_final (inl e) = true
is_final (inr PollResponse.pending) = false
is_final (inr (PollResponse.complete token user_id email)) = false
is_final (inr PollResponse.expired) = true
is_final (inr PollResponse.denied) = true

abbrev pub StoreRefusedAt : ℕ → ℕ → Option (List (ℕ × DeviceFlowState)) → Type 0
StoreRefusedAt since code none = Unit {0}
StoreRefusedAt since code (some store) = RefusedAt since code store

not_refused :
    (user_code : ℕ) (s : DeviceFlowState) (status : DeviceFlowStatus)
    → s.status ≡ status
    → is_open user_code s ≡ true
    → is_refused status ≡ false
not_refused user_code s DeviceFlowStatus.pending e chosen = refl
not_refused user_code s DeviceFlowStatus.complete e chosen = refl
not_refused user_code s DeviceFlowStatus.expired e chosen = absurd (ground (arith, e, chosen))
not_refused user_code s DeviceFlowStatus.denied e chosen = absurd (ground (arith, e, chosen))

-- A poll keeps the time at which a request expires.
pub check_expiration-IsOver :
    (since now : ℕ) (s : DeviceFlowState) → IsOver since s → IsOver since (check_expiration now s)
check_expiration-IsOver since now s h = elim (Bool-cases (ltb s.expires_at now)) [
  | inl e ↦ simp e (inl refl)
  | inr e ↦ simp e h
]

-- A poll at `since` or later marks it.
pub check_expiration-refused :
    (since now : ℕ) (s : DeviceFlowState)
    → since ≤ now
    → IsOver since s
    → is_refused (check_expiration now s).status ≡ true
check_expiration-refused since now s late h = elim (Bool-cases (ltb s.expires_at now)) [
  | inl e ↦ simp e refl
  | inr e ↦ simp e (elim h [ inl r ↦ r | inr t ↦ absurd (ground (arith, e, t, late)) ])
]

pub poll_response_final :
    (tokens : TokenDb) (s : DeviceFlowState) (status : DeviceFlowStatus)
    → s.status ≡ status
    → is_refused status ≡ true
    → is_final (poll_response tokens s) ≡ true
unfolding poll_response
poll_response_final tokens s DeviceFlowStatus.pending e h = cc
poll_response_final tokens s DeviceFlowStatus.complete e h = cc
poll_response_final tokens s DeviceFlowStatus.expired e h = rw (e, poll_response) refl
poll_response_final tokens s DeviceFlowStatus.denied e h = rw (e, poll_response) refl

module _ (since code : ℕ) where
  pub RefusedAt-lookup :
      (s : DeviceFlowState) (m : List (ℕ × DeviceFlowState))
      → RefusedAt since code m
      → lookup code m ≡ some s
      → IsOver since s
  RefusedAt-lookup s [] h e = cc
  RefusedAt-lookup s ((j, t) ∷ m) h e = elim (Bool-cases (j == code)) [
    | inl same ↦
        subst (IsOver since) (some-injective t s (rw same at e)) (h.0 (ground (arith, same)))
    | inr other ↦ RefusedAt-lookup s m h.1 (rw other at e)
  ]

  pub RefusedAt-insert :
      (k : ℕ) (s : DeviceFlowState) (m : List (ℕ × DeviceFlowState))
      → (k ≡ code → IsOver since s)
      → RefusedAt since code m
      → RefusedAt since code (insert k s m)
  RefusedAt-insert k s [] p h = (p, tt)
  RefusedAt-insert k s ((j, t) ∷ m) p h = elim (Bool-cases (j == k)) [
    | inl same ↦ rw same (p, h.1)
    | inr other ↦ rw other (h.0, RefusedAt-insert k s m p h.1)
  ]

  pub RefusedAt-retain :
      (keep : ℕ × DeviceFlowState → Bool) (m : List (ℕ × DeviceFlowState))
      → RefusedAt since code m
      → RefusedAt since code (retain keep m)
  RefusedAt-retain keep [] h = tt
  RefusedAt-retain keep ((j, t) ∷ m) h = elim (Bool-cases (keep (j, t))) [
    | inl e ↦ rw e (h.0, RefusedAt-retain keep m h.1)
    | inr e ↦ rw e (RefusedAt-retain keep m h.1)
  ]

  pub RefusedAt-change_first :
      (user_code : ℕ) (change : DeviceFlowState → DeviceFlowState) (m : List (ℕ × DeviceFlowState))
      → ((s : DeviceFlowState) → (change s).expires_at ≡ s.expires_at)
      → RefusedAt since code m
      → RefusedAt since code (change_first (is_open user_code) change m)
  RefusedAt-change_first user_code change [] keeps h = tt
  RefusedAt-change_first user_code change ((j, t) ∷ m) keeps h =
      elim (Bool-cases (is_open user_code t)) [
        | inl e ↦ rw e (
          λ same. elim (h.0 same) [
            | inl r ↦ (let no = sym r ∙ not_refused user_code t t.status refl e in cc)
            | inr late ↦ inr (ground (arith, late, keeps t))
          ],
          h.1,
        )
        | inr e ↦ rw e (h.0, RefusedAt-change_first user_code change m keeps h.1)
      ]
